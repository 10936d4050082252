-- ===== src/Scheduling/CadenceCanary.antt =====
-- apps/api/src/modules/monitoring/olx-cadence-canary-policy.ts: the state machine of the cadence
-- experiment on OLX. Runs stand newest first. Times are milliseconds; `p95GrowthRatio` stands as a
-- percentage; the `reason` texts are left out, and a `rollbackReason` is a value.
pub mod Transitions
mod Model
unfoldable pub use Model.*
use Prim.Native.String.{String}
use auto_monitor_bot.Base.{
  ℕ, ◌+◌, ◌-◌, ◌*◌, ◌/◌, max, min, Bool, true, false, not, ◌&&◌, ◌||◌, List, [], ◌∷◌, map, Option,
  none, some, ltb, leb, ◌==◌, if◌then◌else◌, or_else, is_some, length, find, filter, truthy,
}
use auto_monitor_bot.Domain.{RunStatus, is_success}
use auto_monitor_bot.Shared.Metrics.{summarize_metric}

-- `canaryRuns`, `growthLimitMs` and the four causes of a rollback in `evaluateAccelerated`.
abbrev pub canary_runs : CanaryInput → List CadenceRun
canary_runs i = filter (λ r. leb (or_else i.state.canary_started_at i.now) r.started_at) i.runs

unfoldable pub growth_limit_ms : CanaryInput → ℕ
growth_limit_ms i = elim i.state.baseline_p95_ms [
  | none ↦ i.config.maximum_p95_ms
  | some b ↦ min i.config.maximum_p95_ms ((b * i.config.p95_growth_percent + 50) / 100)
]

unfoldable pub current_p95 : List CadenceRun → Option ℕ
current_p95 runs = (summarize_metric (map run_duration_ms (consecutive_clean_runs runs))).p95

abbrev pub is_hard_latency : ℕ → CadenceRun → Bool
is_hard_latency limit r = is_some r.finished_at && ltb limit (run_duration_ms r)

abbrev orelse : Option RollbackReason → Option RollbackReason → Option RollbackReason
orelse (some r) other = some r
orelse none other = other

abbrev dirty_reason : Option CadenceRun → Option RollbackReason
dirty_reason none = none
dirty_reason (some r) = some (describe_dirty_run r)

abbrev latency_reason : Option CadenceRun → Option RollbackReason
latency_reason none = none
latency_reason (some r) = some (hard_latency r.id (run_duration_ms r))

abbrev growth_reason : Bool → Option ℕ → ℕ → Option RollbackReason
growth_reason true (some p95) limit = if ltb limit p95 then some (p95_growth p95 limit) else none
growth_reason _ _ limit = none

-- An empty text is no reason: the warning of a run that says nothing rolls nothing back.
abbrev truthy_reason : Option RollbackReason → Option RollbackReason
truthy_reason (some (warned w)) = if truthy (some w) then some (warned w) else none
truthy_reason o = o

unfoldable pub accelerated_rollback_reason : CanaryInput → Option RollbackReason
accelerated_rollback_reason i =
    let runs = canary_runs i in
    let clean = length (consecutive_clean_runs runs) in
    truthy_reason (
      orelse (immediate_external_rollback_reason i) (
        orelse (dirty_reason (find (λ r. not (is_clean_run r)) runs)) (
          orelse (latency_reason (find (is_hard_latency i.config.maximum_p95_ms) runs)) (
            growth_reason (leb i.config.p95_minimum_samples clean) (current_p95 runs)
              (growth_limit_ms i)))))

abbrev is_canary : CanaryMode → Bool
is_canary canary = true
is_canary _ = false

abbrev pub is_accelerated : CanaryMode → Bool
is_accelerated canary = true
is_accelerated promoted = true
is_accelerated _ = false

-- `evaluateAccelerated`.
unfoldable pub evaluate_accelerated : CanaryInput → CanaryDecision
evaluate_accelerated i =
    let runs = canary_runs i in
    let clean = length (consecutive_clean_runs runs) in
    let base = base_decision i in
    let started_at = some (or_else i.state.canary_started_at i.now) in
    let promotes = is_canary i.state.mode && leb (max 1 i.config.promotion_runs) clean in
    elim (accelerated_rollback_reason i) [
      | some reason ↦ record base {
        mode = rolled_back;
        clean_run_count = 0;
        canary_run_count = length runs;
        baseline_p95_ms = i.state.baseline_p95_ms;
        current_p95_ms = current_p95 runs;
        qualification_started_at = i.now;
        canary_started_at = started_at;
        rollback_reason = some reason;
        last_evaluated_run_id = first_id runs;
        transition = rollback;
      }
      | none ↦ record base {
        mode = if promotes then promoted else i.state.mode;
        interval_seconds = i.config.canary_interval_seconds;
        jitter_seconds = i.config.canary_jitter_seconds;
        clean_run_count = clean;
        canary_run_count = length runs;
        baseline_p95_ms = i.state.baseline_p95_ms;
        current_p95_ms = current_p95 runs;
        qualification_started_at = i.state.qualification_started_at;
        canary_started_at = started_at;
        rollback_reason = none;
        last_evaluated_run_id = first_id runs;
        transition = if promotes then promote else no_transition;
      }
    ]

abbrev exceeds : Option ℕ → ℕ → Bool
exceeds none limit = true
exceeds (some p95) limit = ltb limit p95

abbrev pub qualification_runs_of : CanaryInput → List CadenceRun
qualification_runs_of i =
    consecutive_clean_runs (filter (λ r. leb i.state.qualification_started_at r.started_at) i.runs)

abbrev pub qualification_p95 : CanaryInput → Option ℕ
qualification_p95 i = (summarize_metric (map run_duration_ms (qualification_runs_of i))).p95

-- The part of `decideOlxCadenceCanary` for a state that is not accelerated.
unfoldable pub qualify : CanaryInput → CanaryDecision
qualify i =
    let clean = length (qualification_runs_of i) in
    let p95 = qualification_p95 i in
    let base = base_decision i in
    let waiting = record base { clean_run_count = clean; current_p95_ms = p95 } in
    if is_some (immediate_external_rollback_reason i)
      || ltb i.hot_path_sample_count i.config.hot_path_minimum_samples
      || ltb clean (max 1 i.config.qualification_runs)
      || exceeds p95 i.config.qualification_maximum_p95_ms
    then waiting
    else record base {
      mode = canary;
      interval_seconds = i.config.canary_interval_seconds;
      jitter_seconds = i.config.canary_jitter_seconds;
      clean_run_count = clean;
      canary_run_count = 0;
      baseline_p95_ms = p95;
      current_p95_ms = none;
      canary_started_at = some i.now;
      rollback_reason = none;
      transition = enter_canary;
    }

abbrev is_disabled : CanaryMode → Bool
is_disabled disabled = true
is_disabled _ = false

unfoldable pub decide_olx_cadence_canary : CanaryInput → CanaryDecision
decide_olx_cadence_canary i =
    let base = base_decision i in
    if not i.config.enabled
    then record base {
      mode = disabled;
      transition = if is_disabled i.state.mode then no_transition else disable;
    }
    else if is_accelerated i.state.mode
        && ltb i.hot_path_sample_count i.config.hot_path_minimum_samples
    then record base {
      mode = rolled_back;
      qualification_started_at = i.now;
      rollback_reason =
          some (too_few_samples i.hot_path_sample_count i.config.hot_path_minimum_samples);
      transition = rollback;
    }
    else if is_accelerated i.state.mode
    then evaluate_accelerated i
    else qualify i
