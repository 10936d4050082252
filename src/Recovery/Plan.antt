-- ===== src/Recovery/Plan.antt =====
-- apps/worker/src/modules/source-search-plan.ts: `planCoverageRecovery`, the evidence of a verification,
-- the transition of a recovery, and the ids that are known. Dates are milliseconds.
use auto_monitor_bot.Base.{
  ℕ, ◌-◌, ◌*◌, max, Bool, true, false, not, ◌&&◌, ◌||◌, List, [], ◌∷◌, ◌++◌, Option, none, some,
  ltb, leb, if◌then◌else◌, or_else, is_some, length, take, any, str_eq,
}
use Prim.Native.String.{String}
use auto_monitor_bot.Domain.{
  ListingSource, auto_ria, Lane, is_olx, is_realtime_lane, is_backfill_lane,
}
use auto_monitor_bot.Worker.Deadlines.{OutageSchedule, detect_olx_scheduled_outage}

pub data RecoveryReason : Type 0 where
  offline_window realtime_overflow known_ids_reset : RecoveryReason

-- `OlxRecoveryUnresolvedReason`.
pub data UnresolvedReason : Type 0 where
  public_offset_cap unstable_pagination non_partitionable_range source_exhausted_before_boundary :
      UnresolvedReason

pub data Method : Type 0 where
  known_tail cutoff exhausted : Method

-- The options of `planCoverageRecovery`.
pub record PlanInput : Type 0 where
  pub source : ListingSource
  pub lane : Lane
  pub now : ℕ
  pub last_successful_scan_at : Option ℕ
  pub current_pending : Bool
  pub current_cutoff_at : Option ℕ
  pub context_cutoff_at : Option ℕ
  pub coverage_gap : Bool
  pub known_ids_reset : Bool
  pub auto_ria_public_outage : Bool
  pub outage_schedule : Option OutageSchedule
  pub lookback_hours : ℕ
  pub safety_overlap_seconds : ℕ

pub record RecoveryPlan : Type 0 where
  pub outage_detected : Bool
  pub requested : Bool
  pub reason : Option RecoveryReason
  pub persisted_boundary_at : Option ℕ
  pub required_cutoff_at : Option ℕ

abbrev pub is_auto_ria : ListingSource → Bool
is_auto_ria auto_ria = true
is_auto_ria _ = false

-- `oldestDate` and `laterDate` of two.
abbrev pub oldest_date : Option ℕ → Option ℕ → Option ℕ
oldest_date none b = b
oldest_date (some a) none = some a
oldest_date (some a) (some b) = some (if ltb b a then b else a)

abbrev pub later_date : ℕ → ℕ → ℕ
later_date a b = if ltb a b then b else a

abbrev pub when {ℓ} : {A : Type ℓ} → Bool → Option A → Option A
when b o = if b then o else none

unfoldable pub outage_detected_by : PlanInput → Bool
outage_detected_by i =
    is_auto_ria i.source && is_realtime_lane i.lane && i.auto_ria_public_outage
    || (detect_olx_scheduled_outage i.source i.lane i.last_successful_scan_at
        i.outage_schedule).outage_detected

abbrev pub no_plan : RecoveryPlan
no_plan = record {
  outage_detected = false;
  requested = false;
  reason = none;
  persisted_boundary_at = none;
  required_cutoff_at = none;
}

abbrev reason_of : Bool → Bool → Bool → Option RecoveryReason
reason_of outage gap reset =
    if outage
    then some offline_window
    else if gap
    then some realtime_overflow
    else if reset
    then some known_ids_reset
    else none

-- `planCoverageRecovery`.
unfoldable pub plan_coverage_recovery : PlanInput → RecoveryPlan
plan_coverage_recovery i =
    let outage = outage_detected_by i in
    let new_request = outage || i.coverage_gap || i.known_ids_reset in
    let boundary = or_else i.last_successful_scan_at i.now in
    let safety_cutoff =
      later_date (i.now - i.lookback_hours * 60 * 60 * 1000)
        (boundary - i.safety_overlap_seconds * 1000) in
    if not (i.current_pending || new_request) then no_plan else record {
      outage_detected = outage;
      requested = true;
      reason = reason_of outage i.coverage_gap i.known_ids_reset;
      persisted_boundary_at = some boundary;
      required_cutoff_at = some (
          or_else
            (oldest_date (oldest_date i.current_cutoff_at (when new_request (some safety_cutoff)))
              (when (not (is_some i.last_successful_scan_at)) i.context_cutoff_at))
            boundary);
    }

-- `coverageVerificationHasDurableEvidence`.
unfoldable pub coverage_verification_has_durable_evidence :
    Option Method → Option ℕ → Option ℕ → Lane → Bool → Bool
coverage_verification_has_durable_evidence method oldest_observed_at required_cutoff_at lane
      existing_pending =
    elim method [
      | none ↦ false
      | some m ↦ if existing_pending && not (is_backfill_lane lane) then false else (elim m [
        | exhausted ↦ false
        | known_tail ↦ true
        | cutoff ↦ (elim oldest_observed_at [
          | none ↦ false
          | some o ↦ (elim required_cutoff_at [ none ↦ false | some c ↦ leb o c ])
        ])
      ])
    ]

pub record Transition : Type 0 where
  pub verified : Bool
  pub unresolved : Bool
  pub required : Bool

-- `decideCoverageRecoveryTransition`.
unfoldable pub decide_coverage_recovery_transition :
    Bool → Lane → Bool → Bool → Option UnresolvedReason → Transition
decide_coverage_recovery_transition requested lane coverage_verified has_evidence reason =
    let verified = requested && is_backfill_lane lane && coverage_verified && has_evidence in
    let unresolved = requested && is_backfill_lane lane && not verified && is_some reason in
    record {
      verified = verified;
      unresolved = unresolved;
      required = requested && not verified && not unresolved;
    }

abbrev pub has_id : List String → String → Bool
has_id ids id = any (λ i. str_eq i id) ids

abbrev pub max_context_known_ids : ℕ
max_context_known_ids = 5000

abbrev pub max_coverage_anchor_ids : ℕ
max_coverage_anchor_ids = 50

-- A loop of `mergeKnownIds`: it stops when the set is full.
unfoldable pub add_ids : ℕ → List String → List String → List String
add_ids limit [] merged = merged
add_ids limit (id ∷ ids) merged =
    let next = if str_eq id "" || has_id merged id then merged else merged ++ id ∷ [] in
    let rest = add_ids limit ids next in if leb limit (length next) then next else rest

-- `mergeKnownIds`.
unfoldable pub merge_known_ids : ℕ → List String → List String → List String
merge_known_ids limit newest existing =
    let first = add_ids limit newest [] in
    let all = add_ids limit existing first in if leb limit (length first) then first else all

pub record Rotation : Type 0 where
  pub known_external_ids : List String
  pub coverage_anchor_external_ids : List String
  pub merged_count : ℕ
  pub reset : Bool

-- `rotateKnownExternalIds`.
unfoldable pub rotate_known_external_ids : ListingSource → List String → List String → ℕ → Rotation
rotate_known_external_ids source newest existing threshold =
    let merged = merge_known_ids max_context_known_ids newest existing in
    let reset = is_olx source && leb (max 1 threshold) (length merged) in
    record {
      known_external_ids = if reset then [] else merged;
      coverage_anchor_external_ids = if reset then take max_coverage_anchor_ids merged else [];
      merged_count = length merged;
      reset = reset;
    }
