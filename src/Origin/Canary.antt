-- ===== src/Origin/Canary.antt =====
-- apps/worker/src/modules/olx-request-coordinator.ts: the class `RealtimeQuietCanary`, which tries a
-- shorter quiet period between realtime requests and takes it back on any adverse sign.
-- The experiment's identity (hashes of the configuration) is not modelled: nothing branches on it.
use Prim.Native.String.{String}
use auto_monitor_bot.Base.{
  ℕ, ◌+◌, ◌-◌, ◌*◌, ◌/◌, max, min, Bool, true, false, ◌&&◌, List, [], ◌∷◌, ◌++◌, Option, none, some,
  ℤ, max_zero, ltb, leb, if◌then◌else◌, or_else, length, get_elem?, drop, sort_by,
}
use auto_monitor_bot.Origin.Request.{
  RequestClass, is_realtime, Classification, success, empty_result, not_modified,
}

-- `OlxRealtimeQuietCanaryMode`.
pub data CanaryMode : Type 0 where
  disabled qualifying canary promoted rolled_back : CanaryMode

-- The texts of `rollbackReason`, by the values that they are made of.
pub data RollbackReason : Type 0 where
  queue_depth : ℕ → RollbackReason
  protection non_clean : Option Classification → RollbackReason
  p95_growth : (canary_p95 baseline_p95 : ℕ) → RollbackReason
  failed : String → RollbackReason

-- `Partial<RealtimeQuietCanaryOptions>`; the percentage is a whole number here.
pub record CanaryOptions : Type 0 where
  pub enabled : Option Bool
  pub candidate_quiet_ms : Option ℤ
  pub qualification_requests : Option ℤ
  pub evaluation_requests : Option ℤ
  pub p95_growth_percent : Option ℤ
  pub queue_depth_limit : Option ℤ

pub record Canary : Type 0 where
  pub baseline_quiet_ms : ℕ
  pub candidate_quiet_ms : ℕ
  pub qualification_requests : ℕ
  pub evaluation_requests : ℕ
  pub p95_growth_percent : ℕ
  pub queue_depth_limit : ℕ
  pub mode : CanaryMode
  pub baseline_samples : List ℕ
  pub canary_samples : List ℕ
  pub rollback_reason : Option RollbackReason

abbrev pub option_or : Option ℤ → ℕ → ℕ
option_or none d = d
option_or (some z) d = max_zero z

-- The constructor; `p95_growth_percent` is 100 times the source's ratio.
unfoldable pub new_canary : ℕ → CanaryOptions → Canary
new_canary baseline o =
    let candidate = min baseline (option_or o.candidate_quiet_ms 150) in
    record {
      baseline_quiet_ms = baseline;
      candidate_quiet_ms = candidate;
      qualification_requests = max 1 (option_or o.qualification_requests 100);
      evaluation_requests = max 1 (option_or o.evaluation_requests 30);
      p95_growth_percent = max 100 (option_or o.p95_growth_percent 120);
      queue_depth_limit = max 1 (option_or o.queue_depth_limit 25);
      mode = if or_else o.enabled false && ltb candidate baseline then qualifying else disabled;
      baseline_samples = [];
      canary_samples = [];
      rollback_reason = none;
    }

abbrev pub is_accelerated : CanaryMode → Bool
is_accelerated canary = true
is_accelerated promoted = true
is_accelerated _ = false

abbrev is_last_realtime : Option RequestClass → Bool
is_last_realtime none = false
is_last_realtime (some c) = is_realtime c

unfoldable pub quiet_ms_for : Canary → RequestClass → Option RequestClass → ℕ
quiet_ms_for k request_class previous_class =
    if is_realtime request_class && is_last_realtime previous_class && is_accelerated k.mode
    then k.candidate_quiet_ms
    else k.baseline_quiet_ms

abbrev pub rollback : RollbackReason → Canary → Canary
rollback reason k = record k { mode = rolled_back; rollback_reason = some reason }

abbrev forget_baseline : Canary → Canary
forget_baseline k = record k { baseline_samples = [] }

-- An adverse sign while accelerated rolls back; while qualifying it restarts the baseline.
abbrev adverse : CanaryMode → RollbackReason → Canary → Canary
adverse canary reason k = rollback reason k
adverse promoted reason k = rollback reason k
adverse qualifying reason k = forget_baseline k
adverse _ reason k = k

unfoldable pub observe_queue_depth : Canary → ℕ → Canary
observe_queue_depth k depth =
    if leb depth k.queue_depth_limit then k else adverse k.mode (queue_depth depth) k

unfoldable pub observe_failure : Canary → String → Canary
observe_failure k reason = adverse k.mode (failed reason) k

unfoldable pub trim_to_last : List ℕ → ℕ → List ℕ
trim_to_last values limit = drop (length values - limit) values

-- `Math.ceil(n * 0.95)` is `(19 * n + 19) / 20` on whole numbers.
unfoldable pub percentile95 : List ℕ → Option ℕ
unfolding sort_by
percentile95 values = get_elem? (sort_by ltb values) ((19 * length values + 19) / 20 - 1)

abbrev pub is_clean : Option Classification → Bool
is_clean (some success) = true
is_clean (some empty_result) = true
is_clean (some not_modified) = true
is_clean _ = false

unfoldable pub observe_qualifying : Canary → ℕ → Canary
observe_qualifying k elapsed_ms =
    let samples = trim_to_last (k.baseline_samples ++ elapsed_ms ∷ []) k.qualification_requests in
    record k {
      baseline_samples = samples;
      mode = if leb k.qualification_requests (length samples) then canary else k.mode;
    }

-- `canaryP95 > baselineP95 * p95GrowthRatio`, false where one is null.
abbrev pub grew : ℕ → Option ℕ → Option ℕ → Bool
grew percent (some baseline) (some candidate) = ltb (baseline * percent) (candidate * 100)
grew percent _ _ = false

unfoldable pub judge : Canary → Canary
judge k =
    let enough = leb k.evaluation_requests (length k.canary_samples) in
    let baseline_p95 = percentile95 k.baseline_samples in
    let canary_p95 = percentile95 k.canary_samples in
    if enough && grew k.p95_growth_percent baseline_p95 canary_p95
    then rollback (p95_growth (or_else canary_p95 0) (or_else baseline_p95 0)) k
    else if enough
    then record k { mode = promoted }
    else k

unfoldable pub observe_accelerated : Canary → ℕ → Canary
observe_accelerated k elapsed_ms = judge (record k {
  canary_samples = trim_to_last (k.canary_samples ++ elapsed_ms ∷ []) k.evaluation_requests;
})

pub record CanaryResult : Type 0 where
  pub request_class : RequestClass
  pub classification : Option Classification
  pub elapsed_ms : ℕ
  pub used_candidate_quiet : Bool
  pub protection_observed : Bool

-- The part of `observeResult` behind the guard on `disabled` and `rolled_back`.
unfoldable pub observe_live : Canary → CanaryResult → Canary
observe_live k r =
    if r.protection_observed
    then rollback (protection r.classification) k
    else if is_clean r.classification
    then (elim k.mode [
      | qualifying ↦ observe_qualifying k r.elapsed_ms
      | _ ↦ if r.used_candidate_quiet then observe_accelerated k r.elapsed_ms else k
    ])
    else adverse k.mode (non_clean r.classification) k

unfoldable pub observe_result : Canary → CanaryResult → Canary
observe_result k r = elim k.mode [
  | disabled ↦ k
  | rolled_back ↦ k
  | _ ↦ if is_realtime r.request_class then observe_live k r else k
]
