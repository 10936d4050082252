-- ===== src/Recovery/Scan.antt =====
-- apps/worker/src/modules/source-search-plan.ts: `markSourceSearchSuccess`, on what takes part in a
-- recovery: what proves it, the windows of a search, its cutoff, anchors, pages and known ids.
use auto_monitor_bot.Base.{
  filter, ℕ, ◌+◌, max, Bool, true, false, not, ◌&&◌, ◌||◌, List, [], ◌∷◌, ◌++◌, Option, none, some,
  ltb, ◌==◌, if◌then◌else◌, or_else, length, take, all, map,
}
use Prim.Native.String.{String}
use auto_monitor_bot.Domain.{Lane, is_olx, is_realtime_lane, is_backfill_lane}
use auto_monitor_bot.Worker.RecoveryProgress.{ProgressDecision, decide_recovery_progress}
use auto_monitor_bot.Recovery.Plan.{
  known_ids_reset, Method, known_tail, cutoff, is_auto_ria, oldest_date,
  coverage_verification_has_durable_evidence, Transition, decide_coverage_recovery_transition,
  has_id, max_coverage_anchor_ids,
}
use auto_monitor_bot.Recovery.State.{
  pending, verified, unresolved, Window, SearchState, RecoveryConfig, Scan, trusted,
  is_coverage_lane, try_else, sorted_windows, first_window, other_windows, window_cutoff,
  scan_rotation, scan_plan,
}

-- `verificationMethod`.
abbrev pub scan_method : Scan → Option Method
scan_method o =
    try_else o.verification_method
      (if o.coverage_verified then some (if o.cutoff_reached then cutoff else known_tail) else none)

abbrev is_known_tail : Option Method → Bool
is_known_tail (some known_tail) = true
is_known_tail _ = false

-- `frozenAnchorsMatch`.
abbrev pub anchors_match : Scan → SearchState → Bool
anchors_match o s =
    length s.coverage_anchor_external_ids == length o.frozen_anchors
    && all (has_id o.frozen_anchors) s.coverage_anchor_external_ids

-- `verificationHasEvidence`.
unfoldable pub scan_evidence : RecoveryConfig → Scan → SearchState → Bool
scan_evidence c o s =
    not (
      is_known_tail (scan_method o)
      && (ltb 1 (length s.pending_windows)
          || s.coverage_recovery_pending && not (anchors_match o s)))
    && coverage_verification_has_durable_evidence (scan_method o) o.oldest_observed_at
        (scan_plan c o s).required_cutoff_at o.lane s.coverage_recovery_pending

-- `recoveryTransition`.
unfoldable pub scan_transition : RecoveryConfig → Scan → SearchState → Transition
scan_transition c o s =
    decide_coverage_recovery_transition (scan_plan c o s).requested o.lane o.coverage_verified
      (scan_evidence c o s) o.unresolved_reason

-- `progress`.
unfoldable pub scan_progress : RecoveryConfig → Scan → SearchState → Option ProgressDecision
scan_progress c o s =
    if is_backfill_lane o.lane && (scan_plan c o s).requested
    then some (
        decide_recovery_progress (record {
          current_progress_page = try_else s.recovery_progress_page s.last_page;
          attempted_progress_page = try_else o.recovery_progress_page o.backfill_resume_page;
          current_consecutive_no_progress = s.recovery_consecutive_no_progress;
          slot_unavailable = o.slot_unavailable;
          base_backoff_ms = none;
          max_backoff_ms = none;
        }))
    else none

-- The window of the recovery: the oldest that is pending, or a new one.
unfoldable pub scan_window : RecoveryConfig → Scan → SearchState → Option Window
scan_window c o s =
    let plan = scan_plan c o s in
    try_else (first_window (sorted_windows s)) (
      if plan.requested
      then some (record {
        reason = or_else plan.reason known_ids_reset;
        status = pending;
        persisted_boundary_at = or_else plan.persisted_boundary_at o.now;
        required_cutoff_at =
            or_else plan.required_cutoff_at (or_else plan.persisted_boundary_at o.now);
        attempt_count = 0;
        unresolved_reason = none;
        verification_method = none;
      })
      else none)

-- `durableCutoff`.
unfoldable pub durable_cutoff : RecoveryConfig → Scan → SearchState → Option ℕ
durable_cutoff c o s =
    try_else (oldest_date (scan_plan c o s).required_cutoff_at (window_cutoff (scan_window c o s)))
      o.published_after

abbrev attempts_of : Lane → ℕ
attempts_of lane = if is_backfill_lane lane then 1 else 0

-- What the update writes to a window.
abbrev pub updated_window : Transition → Scan → Option ℕ → Window → Window
updated_window t o cut w =
    let counted = record w {
      required_cutoff_at = or_else cut w.required_cutoff_at;
      attempt_count = w.attempt_count + attempts_of o.lane;
    } in
    if t.unresolved
    then record counted {
      status = unresolved;
      unresolved_reason = o.unresolved_reason;
      verification_method = none;
    }
    else if t.verified
    then record counted {
      status = verified;
      unresolved_reason = none;
      verification_method = scan_method o;
    }
    else counted

-- What `updateMany` writes to a sibling of the updated window.
abbrev pub sibling_window : Scan → Window → Window → Window
sibling_window o updated w = record w {
  status = updated.status;
  unresolved_reason = updated.unresolved_reason;
  verification_method = updated.verification_method;
  attempt_count = w.attempt_count + attempts_of o.lane;
}

abbrev pub is_pending_window : Window → Bool
is_pending_window w = elim w.status [ pending ↦ true | _ ↦ false ]

-- The windows that stay pending, and those that a scan closes, by the status that is written; the
-- window of the recovery comes first.
unfoldable pub written_windows :
    RecoveryConfig → Scan → SearchState → Option Window → List Window × List Window
written_windows c o s none = ([], [])
written_windows c o s (some w) =
    let t = scan_transition c o s in
    let opening = not s.coverage_recovery_pending && (scan_plan c o s).requested in
    let updated = updated_window t o (durable_cutoff c o s) w in
    let rows = updated ∷ map (sibling_window o updated) (other_windows (sorted_windows s)) in
    if not (is_coverage_lane o.lane) && (opening || is_backfill_lane o.lane || t.verified)
    then (filter is_pending_window rows, filter (λ x. not (is_pending_window x)) rows)
    else (w ∷ other_windows (sorted_windows s), [])

unfoldable pub scan_windows : RecoveryConfig → Scan → SearchState → List Window × List Window
scan_windows c o s = written_windows c o s (scan_window c o s)

abbrev is_empty_ids : List String → Bool
is_empty_ids [] = true
is_empty_ids _ = false

-- `coverageAnchorExternalIds` of the update.
unfoldable pub scan_anchors : RecoveryConfig → Scan → SearchState → List String
scan_anchors c o s =
    let t = scan_transition c o s in
    let opening = not s.coverage_recovery_pending && (scan_plan c o s).requested in
    let frozen =
      if opening
      then take max_coverage_anchor_ids s.known_external_ids
      else s.coverage_anchor_external_ids in
    if ltb 1 (length s.pending_windows)
    then []
    else if t.required || t.unresolved
    then (if is_empty_ids frozen
        then (scan_rotation c o s).coverage_anchor_external_ids
        else frozen)
    else []

abbrev reached_page : Option ProgressDecision → Option ℕ
reached_page none = none
reached_page (some p) = some p.progress_page

abbrev moves_boundary : Scan → Bool
moves_boundary o =
    not (is_coverage_lane o.lane)
    && not ((is_olx o.source || is_auto_ria o.source) && not (is_realtime_lane o.lane))
    && o.advance_success_boundary

-- The transaction, with options that are trusted.
unfoldable pub update_search_state : RecoveryConfig → Scan → SearchState → SearchState
update_search_state c o s =
    let t = scan_transition c o s in
    let opening = not s.coverage_recovery_pending && (scan_plan c o s).requested in
    let progress = scan_progress c o s in
    let windows = scan_windows c o s in
    let page = try_else (reached_page progress) (try_else s.recovery_progress_page s.last_page) in
    record {
      coverage_recovery_pending = t.required;
      coverage_recovery_cutoff_at = if t.required then durable_cutoff c o s else none;
      coverage_anchor_external_ids = scan_anchors c o s;
      known_external_ids = (scan_rotation c o s).known_external_ids;
      last_successful_scan_at = if moves_boundary o then some o.now else s.last_successful_scan_at;
      recovery_progress_page = elim progress [
        | none ↦ if opening then some 1 else s.recovery_progress_page
        | some p ↦ some p.progress_page
      ];
      recovery_consecutive_no_progress = elim progress [
        | none ↦ if opening then 0 else s.recovery_consecutive_no_progress
        | some p ↦ p.consecutive_no_progress
      ];
      recovery_next_attempt_at = elim progress [
        | none ↦ if opening then some o.now else s.recovery_next_attempt_at
        | some p ↦
            if t.required
            then some (o.now + max (if is_auto_ria o.source then 5000 else 0) p.retry_delay_ms)
            else none
      ];
      last_page =
          if opening
          then some 1
          else if is_backfill_lane o.lane
          then some (if t.required || t.unresolved then max 1 (or_else page 1) else 0)
          else s.last_page;
      pending_windows = windows.0;
      closed_windows = windows.1 ++ s.closed_windows;
    }

-- `markSourceSearchSuccess`; for another shard it throws before it writes.
unfoldable pub mark_source_search_success : RecoveryConfig → Scan → SearchState → SearchState
mark_source_search_success c o s = if o.same_shard then update_search_state c (trusted o) s else s

-- The scans of a search, one after another.
unfoldable pub run_scans : RecoveryConfig → List Scan → SearchState → SearchState
run_scans c [] s = s
run_scans c (o ∷ os) s = run_scans c os (mark_source_search_success c o s)
