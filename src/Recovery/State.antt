-- ===== src/Recovery/State.antt =====
-- apps/worker/src/modules/source-search-plan.ts: the rows that `markSourceSearchSuccess` reads and
-- writes, its options, and the recovery that it plans. Cursors of listings, counters of pages and
-- requests, the parser's health and the overlap of pages are left out. The query gives the pending
-- windows from the oldest cutoff on.
use auto_monitor_bot.Base.{
  ℕ, Bool, true, false, not, ◌||◌, List, [], ◌∷◌, Option, none, some, ltb, if◌then◌else◌, sort_by,
}
use Prim.Native.String.{String}
use auto_monitor_bot.Domain.{ListingSource, Lane, coverage}
use auto_monitor_bot.Worker.Deadlines.{OutageSchedule}
use auto_monitor_bot.Recovery.Plan.{
  RecoveryReason, UnresolvedReason, Method, RecoveryPlan, is_auto_ria, oldest_date,
  plan_coverage_recovery, Rotation, rotate_known_external_ids,
}

pub data WindowStatus : Type 0 where
  pending verified unresolved : WindowStatus

-- A row of `coverageRecoveryWindow`.
pub record Window : Type 0 where
  pub reason : RecoveryReason
  pub status : WindowStatus
  pub persisted_boundary_at : ℕ
  pub required_cutoff_at : ℕ
  pub attempt_count : ℕ
  pub unresolved_reason : Option UnresolvedReason
  pub verification_method : Option Method

-- A row of `sourceSearchState`, with its windows.
pub record SearchState : Type 0 where
  pub coverage_recovery_pending : Bool
  pub coverage_recovery_cutoff_at : Option ℕ
  pub coverage_anchor_external_ids : List String
  pub known_external_ids : List String
  pub last_successful_scan_at : Option ℕ
  pub recovery_progress_page : Option ℕ
  pub recovery_consecutive_no_progress : ℕ
  pub recovery_next_attempt_at : Option ℕ
  pub last_page : Option ℕ
  pub pending_windows : List Window
  pub closed_windows : List Window

pub record RecoveryConfig : Type 0 where
  pub known_ids_reset_threshold : ℕ
  pub lookback_hours : ℕ
  pub safety_overlap_seconds : ℕ

-- The context, the listings and the options of a call. `same_shard` says that the context, the state
-- and the listings belong together, `frozen_anchors` are the anchors that the collector had read.
pub record Scan : Type 0 where
  pub same_shard : Bool
  pub source : ListingSource
  pub lane : Lane
  pub now : ℕ
  pub published_after : Option ℕ
  pub frozen_anchors : List String
  pub external_ids : List String
  pub parser_degraded : Bool
  pub advance_success_boundary : Bool
  pub coverage_verified : Bool
  pub coverage_gap : Bool
  pub cutoff_reached : Bool
  pub verification_method : Option Method
  pub unresolved_reason : Option UnresolvedReason
  pub oldest_observed_at : Option ℕ
  pub recovery_progress_page : Option ℕ
  pub backfill_resume_page : Option ℕ
  pub slot_unavailable : Bool
  pub auto_ria_public_outage : Bool
  pub outage_schedule : Option OutageSchedule

abbrev pub is_suspicious : Scan → Bool
is_suspicious o = o.parser_degraded || not o.advance_success_boundary

-- The options that a suspicious response leaves.
unfoldable pub trusted : Scan → Scan
trusted o =
    if is_suspicious o
    then record o {
      advance_success_boundary = false;
      coverage_verified = false;
      cutoff_reached = false;
      unresolved_reason = if is_auto_ria o.source then o.unresolved_reason else none;
    }
    else o

abbrev pub is_coverage_lane : Lane → Bool
is_coverage_lane coverage = true
is_coverage_lane _ = false

abbrev pub try_else {ℓ} : {A : Type ℓ} → Option A → Option A → Option A
try_else (some a) other = some a
try_else none other = other

abbrev pub sorted_windows : SearchState → List Window
sorted_windows s = sort_by (λ a b. ltb a.required_cutoff_at b.required_cutoff_at) s.pending_windows

abbrev pub first_window : List Window → Option Window
first_window [] = none
first_window (w ∷ ws) = some w

abbrev pub other_windows : List Window → List Window
other_windows [] = []
other_windows (w ∷ ws) = ws

abbrev pub window_cutoff : Option Window → Option ℕ
window_cutoff none = none
window_cutoff (some w) = some w.required_cutoff_at

unfoldable pub scan_rotation : RecoveryConfig → Scan → SearchState → Rotation
scan_rotation c o s =
    rotate_known_external_ids o.source o.external_ids s.known_external_ids
      c.known_ids_reset_threshold

unfoldable pub scan_plan : RecoveryConfig → Scan → SearchState → RecoveryPlan
scan_plan c o s = plan_coverage_recovery (record {
  source = o.source;
  lane = o.lane;
  now = o.now;
  last_successful_scan_at = s.last_successful_scan_at;
  current_pending = s.coverage_recovery_pending;
  current_cutoff_at =
      oldest_date s.coverage_recovery_cutoff_at (window_cutoff (first_window (sorted_windows s)));
  context_cutoff_at = o.published_after;
  coverage_gap = o.coverage_gap;
  known_ids_reset = (scan_rotation c o s).reset;
  auto_ria_public_outage = o.auto_ria_public_outage;
  outage_schedule = o.outage_schedule;
  lookback_hours = c.lookback_hours;
  safety_overlap_seconds = c.safety_overlap_seconds;
})
