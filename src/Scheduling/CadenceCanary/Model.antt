-- ===== src/Scheduling/CadenceCanary/Model.antt =====
-- apps/api/src/modules/monitoring/olx-cadence-canary-policy.ts: its data, and the helpers on runs.
use Prim.Native.String.{String}
use auto_monitor_bot.Base.{
  ℕ, ◌-◌, Bool, true, false, not, ◌&&◌, List, [], ◌∷◌, Option, none, some, ltb, ◌==◌, if◌then◌else◌,
  or_else, is_some, find, truthy,
}
use auto_monitor_bot.Domain.{RunStatus, is_success}

-- `OlxCadenceCanaryMode`.
pub data CanaryMode : Type 0 where
  baseline canary promoted rolled_back disabled : CanaryMode

-- `OlxCadenceRunEvidence`; a warning comes with whether it speaks of an overflow.
pub record CadenceRun : Type 0 where
  pub id : ℕ
  pub status : RunStatus
  pub started_at : ℕ
  pub finished_at : Option ℕ
  pub recovered_count : ℕ
  pub semantic_warnings : List (String × Bool)
  pub error_message : Option String

pub data RollbackReason : Type 0 where
  too_few_samples : (count least : ℕ) → RollbackReason
  protection_signal queue_overflow unclean_run : RollbackReason
  warned : String → RollbackReason
  run_status : RunStatus → RollbackReason
  recoveries : ℕ → RollbackReason
  run_error : Option String → RollbackReason
  hard_latency : (run duration : ℕ) → RollbackReason
  p95_growth : (current limit : ℕ) → RollbackReason

pub record CanaryState : Type 0 where
  pub mode : CanaryMode
  pub qualification_started_at : ℕ
  pub canary_started_at : Option ℕ
  pub baseline_p95_ms : Option ℕ
  pub rollback_reason : Option RollbackReason

pub record CanaryConfig : Type 0 where
  pub enabled : Bool
  pub qualification_runs : ℕ
  pub promotion_runs : ℕ
  pub hot_path_minimum_samples : ℕ
  pub p95_minimum_samples : ℕ
  pub qualification_maximum_p95_ms : ℕ
  pub maximum_p95_ms : ℕ
  pub p95_growth_percent : ℕ
  pub base_interval_seconds : ℕ
  pub base_jitter_seconds : ℕ
  pub canary_interval_seconds : ℕ
  pub canary_jitter_seconds : ℕ

pub data Transition : Type 0 where
  no_transition enter_canary promote rollback disable : Transition

pub record CanaryDecision : Type 0 where
  pub mode : CanaryMode
  pub interval_seconds : ℕ
  pub jitter_seconds : ℕ
  pub clean_run_count : ℕ
  pub canary_run_count : ℕ
  pub baseline_p95_ms : Option ℕ
  pub current_p95_ms : Option ℕ
  pub qualification_started_at : ℕ
  pub canary_started_at : Option ℕ
  pub rollback_reason : Option RollbackReason
  pub last_evaluated_run_id : Option ℕ
  pub transition : Transition

pub record CanaryInput : Type 0 where
  pub state : CanaryState
  pub config : CanaryConfig
  pub runs : List CadenceRun
  pub hot_path_sample_count : ℕ
  pub protection_active : Bool
  pub queue_overflow : Bool
  pub now : ℕ

abbrev pub no_warnings : List (String × Bool) → Bool
no_warnings [] = true
no_warnings (w ∷ ws) = false

-- `isCleanRun`.
unfoldable pub is_clean_run : CadenceRun → Bool
is_clean_run r =
    is_success r.status
    && is_some r.finished_at
    && r.recovered_count == 0
    && no_warnings r.semantic_warnings
    && not (truthy r.error_message)

unfoldable pub consecutive_clean_runs : List CadenceRun → List CadenceRun
consecutive_clean_runs [] = []
consecutive_clean_runs (r ∷ rs) =
    let rest = consecutive_clean_runs rs in if is_clean_run r then r ∷ rest else []

-- `runDurationMs`.
abbrev pub run_duration_ms : CadenceRun → ℕ
run_duration_ms r = or_else r.finished_at r.started_at - r.started_at

-- `immediateExternalRollbackReason`.
abbrev pub immediate_external_rollback_reason : CanaryInput → Option RollbackReason
immediate_external_rollback_reason i =
    if i.protection_active
    then some protection_signal
    else if i.queue_overflow
    then some queue_overflow
    else none

abbrev pub first_warning : List (String × Bool) → RollbackReason
first_warning [] = unclean_run
first_warning ((w, o) ∷ ws) = warned w

-- `describeDirtyRun`.
unfoldable pub describe_dirty_run : CadenceRun → RollbackReason
describe_dirty_run r = elim (find (λ w. w.1) r.semantic_warnings) [
  | some w ↦ warned w.0
  | none ↦
      if not (is_success r.status)
      then run_status r.status
      else if ltb 0 r.recovered_count
      then recoveries r.recovered_count
      else if truthy r.error_message
      then run_error r.error_message
      else first_warning r.semantic_warnings
]

abbrev pub first_id : List CadenceRun → Option ℕ
first_id [] = none
first_id (r ∷ rs) = some r.id

abbrev pub base_mode : CanaryMode → CanaryMode
base_mode rolled_back = rolled_back
base_mode _ = baseline

-- `baseDecision`.
unfoldable pub base_decision : CanaryInput → CanaryDecision
base_decision i = record {
  mode = base_mode i.state.mode;
  interval_seconds = i.config.base_interval_seconds;
  jitter_seconds = i.config.base_jitter_seconds;
  clean_run_count = 0;
  canary_run_count = 0;
  baseline_p95_ms = i.state.baseline_p95_ms;
  current_p95_ms = none;
  qualification_started_at = i.state.qualification_started_at;
  canary_started_at = i.state.canary_started_at;
  rollback_reason = i.state.rollback_reason;
  last_evaluated_run_id = first_id i.runs;
  transition = no_transition;
}
