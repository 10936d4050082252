-- ===== src/Recovery/Examples.antt =====
-- The recovery of coverage at concrete scans.
use auto_monitor_bot.Base.{
  arith, ℕ, ◌≤◌, ◌≡◌, refl, ◌⊎◌, true, false, not, ◌&&◌, [], ◌∷◌, none, some, length, is_some,
  sort_by,
}
use auto_monitor_bot.Domain.{olx, realtime, backfill, is_backfill_lane}
use auto_monitor_bot.Worker.Deadlines.{detect_olx_scheduled_outage}
use auto_monitor_bot.Worker.RecoveryProgress.{decide_recovery_progress}
use auto_monitor_bot.Recovery.Plan.{
  cutoff, known_tail, realtime_overflow, is_auto_ria, plan_coverage_recovery, outage_detected_by,
  rotate_known_external_ids, merge_known_ids, add_ids, coverage_verification_has_durable_evidence,
  decide_coverage_recovery_transition,
}
use auto_monitor_bot.Recovery.State.{
  SearchState, RecoveryConfig, Scan, pending, trusted, is_suspicious, scan_plan, scan_rotation,
}
use auto_monitor_bot.Recovery.Scan.{
  written_windows, scan_method, anchors_match, scan_evidence, scan_transition, scan_window,
  scan_progress, scan_anchors, durable_cutoff, scan_windows, update_search_state,
  mark_source_search_success, run_scans,
}
use auto_monitor_bot.Recovery.Windows.{
  IsConsistent, run_scans-IsConsistent, mark_source_search_success-closes, run_scans-stays_pending,
}
use auto_monitor_bot.Recovery.Plan.{unstable_pagination}
use auto_monitor_bot.Recovery.Alert.{
  alert_wanted, should_send_recovery_unresolved_alert, mark_recovery_unresolved_alerted, episode,
  quiet_alerts,
}
use auto_monitor_bot.Recovery.Chronic.{episode-quiet_alerts}

abbrev config : RecoveryConfig
config = record {
  known_ids_reset_threshold = 2000;
  lookback_hours = 24;
  safety_overlap_seconds = 60;
}

-- A realtime scan that filled all its pages.
abbrev overflow : Scan
overflow = record {
  same_shard = true;
  source = olx;
  lane = realtime;
  now = 200000000;
  published_after = none;
  frozen_anchors = [];
  external_ids = "5" ∷ "4" ∷ [];
  parser_degraded = false;
  advance_success_boundary = true;
  coverage_verified = false;
  coverage_gap = true;
  cutoff_reached = false;
  verification_method = none;
  unresolved_reason = none;
  oldest_observed_at = some 199990000;
  recovery_progress_page = none;
  backfill_resume_page = none;
  slot_unavailable = false;
  auto_ria_public_outage = false;
  outage_schedule = none;
}

-- A backfill scan that reaches back far enough.
abbrev deep : Scan
deep = record overflow {
  lane = backfill;
  now = 200100000;
  coverage_gap = false;
  coverage_verified = true;
  verification_method = some cutoff;
  oldest_observed_at = some 199800000;
}

abbrev quiet : SearchState
quiet = record {
  coverage_recovery_pending = false;
  coverage_recovery_cutoff_at = none;
  coverage_anchor_external_ids = [];
  known_external_ids = "3" ∷ [];
  last_successful_scan_at = some 199900000;
  recovery_progress_page = none;
  recovery_consecutive_no_progress = 0;
  recovery_next_attempt_at = none;
  last_page = none;
  pending_windows = [];
  closed_windows = [];
}

abbrev recovering : SearchState
recovering = record quiet {
  coverage_recovery_pending = true;
  coverage_recovery_cutoff_at = some 199840000;
  coverage_anchor_external_ids = "3" ∷ [];
  pending_windows =
      record {
        reason = realtime_overflow;
        status = pending;
        persisted_boundary_at = 199900000;
        required_cutoff_at = 199840000;
        attempt_count = 0;
        unresolved_reason = none;
        verification_method = none;
      }
      ∷ [];
}

-- The overflow opens a window, with the known id as its anchor; the deep scan closes it.
test_opens :
    ((run_scans config (overflow ∷ []) quiet).coverage_recovery_cutoff_at ≡ some 199840000)
    × ((run_scans config (overflow ∷ []) quiet).coverage_anchor_external_ids ≡ "3" ∷ [])
    × (length (run_scans config (overflow ∷ deep ∷ []) quiet).pending_windows ≡ 0)
    × (length (run_scans config (overflow ∷ deep ∷ []) quiet).closed_windows ≡ 1)
unfolding written_windows run_scans mark_source_search_success update_search_state trusted
    scan_transition scan_plan plan_coverage_recovery outage_detected_by detect_olx_scheduled_outage
    scan_rotation rotate_known_external_ids merge_known_ids add_ids scan_evidence
    coverage_verification_has_durable_evidence decide_coverage_recovery_transition scan_progress
    decide_recovery_progress scan_window durable_cutoff scan_windows scan_anchors sort_by
test_opens = (refl, refl, refl, refl)

run_scans-IsConsistent_example : IsConsistent (run_scans config (overflow ∷ deep ∷ []) quiet)
run_scans-IsConsistent_example =
    run_scans-IsConsistent config (overflow ∷ deep ∷ []) quiet (refl, tt)

mark_source_search_success-closes_example :
    (deep.same_shard ≡ true)
    × (is_backfill_lane deep.lane ≡ true)
    × ((is_some deep.unresolved_reason ≡ true)
          × (is_suspicious deep && not (is_auto_ria deep.source) ≡ false)
        ⊎ (is_suspicious deep ≡ false)
          × (deep.coverage_verified ≡ true)
          × ((scan_method deep ≡ some known_tail)
                × (anchors_match deep recovering ≡ true)
                × (length recovering.pending_windows ≤ 1)
              ⊎ (scan_method deep ≡ some cutoff)
                × ((x : ℕ) × (deep.oldest_observed_at ≡ some x) × (x ≤ 199840000))))
unfolding mark_source_search_success update_search_state trusted scan_transition scan_plan
    plan_coverage_recovery outage_detected_by detect_olx_scheduled_outage scan_rotation
    rotate_known_external_ids merge_known_ids add_ids scan_evidence
    coverage_verification_has_durable_evidence decide_coverage_recovery_transition sort_by
mark_source_search_success-closes_example =
    mark_source_search_success-closes config deep recovering 199840000 refl refl refl

run_scans-stays_pending_example :
    ((run_scans config (overflow ∷ []) recovering).coverage_recovery_pending ≡ true)
    × ((d : ℕ) × ((run_scans config (overflow ∷ []) recovering).coverage_recovery_cutoff_at
          ≡ some d)
        × (d ≤ 199840000))
run_scans-stays_pending_example =
    run_scans-stays_pending config (overflow ∷ []) recovering 199840000 refl refl refl

-- Windows that end every six hours keep quiet, and one day later the alert is sent again.
alert_run :
    episode 1 unstable_pagination (100000000 ∷ 121600000 ∷ 143200000 ∷ 229600000 ∷ []) []
    ≡ true ∷ false ∷ false ∷ true ∷ []
unfolding episode should_send_recovery_unresolved_alert alert_wanted
    mark_recovery_unresolved_alerted
alert_run = refl

episode-quiet_alerts_example :
    episode 1 unstable_pagination (100000000 ∷ 121600000 ∷ 143200000 ∷ 229600000 ∷ []) []
    ≡ quiet_alerts none (100000000 ∷ 121600000 ∷ 143200000 ∷ 229600000 ∷ [])
episode-quiet_alerts_example =
    episode-quiet_alerts 1 unstable_pagination 100000000 (121600000 ∷ 143200000 ∷ 229600000 ∷ [])
      (omega arith, (omega arith, (omega arith, tt)))
