-- ===== src/Scheduling/Backfill.antt =====
-- apps/api/src/modules/monitoring/backfill-policy.ts: how the depth
-- recovery of OLX adapts to its evidence. Times are milliseconds; runs stand newest first, as the
-- caller gives them. A `reason` text is modelled by the values that it shows.
pub mod Safety
mod Model
unfoldable pub use Model.*
use Prim.Native.String.{String}
use auto_monitor_bot.Base.{
  ℕ, ◌+◌, ◌-◌, ◌*◌, max, min, Bool, true, false, not, ◌&&◌, ◌||◌, List, [], ◌∷◌, Option, none, some,
  ltb, leb, ◌==◌, if◌then◌else◌, or_else, is_some, length, take, any, all, find, filter, truthy,
  opt_str_eq,
}
use auto_monitor_bot.Domain.{RunStatus, is_success}

-- The block on `protectedRun`; `none` where it falls through.
unfoldable pub decide_protected : Run → List Run → ℕ → ℕ → Option Decision
decide_protected protected_run runs base_interval now =
    let protection_age_ms = now - protected_run.started_at in
    let newer = newer_runs protected_run runs in
    let clean = consecutive_clean_runs newer in
    let early = ltb protection_age_ms protection_lookback_ms in
    let rest =
      if early || ltb clean protection_clean_runs_required
      then some (
          light_decision protection
            (max (if early then protection_interval_seconds else protection_probe_interval_seconds)
              base_interval)
            (clean_probes protected_run.status clean))
      else if ltb protection_age_ms protection_observation_ms
      then some (light_decision lean (lean_interval_seconds base_interval) (audit_deferred clean))
      else none in
    elim (find (λ r. ltb 0 r.recovered_count) newer) [
      | none ↦ rest
      | some r ↦
          if not early
          then some (record {
            mode = recovery;
            profile = full;
            interval_seconds = max base_interval protection_probe_interval_seconds;
            reason = probe_recovered r.recovered_count;
          })
          else rest
    ]

-- The end of `decideAdaptiveBackfill`, from the clean streak on.
unfoldable pub decide_clean : List Run → ℕ → ℕ → Decision
decide_clean runs base_interval now =
    let streak = consecutive_clean_runs runs in
    let audit : Decision = record {
      mode = periodic_full;
      profile = full;
      interval_seconds = lean_interval_seconds base_interval;
      reason = audit_due;
    } in
    let rested = light_decision lean (lean_interval_seconds base_interval) (clean_streak streak) in
    if ltb streak clean_runs_required
    then light_decision evidence_mode base_interval (collecting streak)
    else (elim (find (λ r. elim r.profile [ full ↦ true | light ↦ false ]) runs) [
      | none ↦ audit
      | some r ↦ if leb periodic_full_interval_ms (now - r.started_at) then audit else rested
    ])

abbrev needs_recovery_since : Option Run → List Run → Bool
needs_recovery_since none runs = false
needs_recovery_since (some r) runs = event_still_needs_recovery (some r.started_at) runs

abbrev recovered_reason : Option Run → Reason
recovered_reason none = evidence_stale
recovered_reason (some r) = recovered_at r.recovered_count r.started_at

-- The part on a latest run that is recent.
unfoldable pub decide_recent : Evidence → Run → ℕ → ℕ → Decision
decide_recent e latest base_interval now =
    let recovered_run = find (λ r. ltb 0 r.recovered_count) e.runs in
    if ltb 0 e.unresolved_observation_count
    then recovery_decision base_interval (observations_unresolved e.unresolved_observation_count)
    else if event_still_needs_recovery e.realtime_anomaly_at e.runs
    then recovery_decision base_interval (anomaly_at (or_else e.realtime_anomaly_at 0))
    else if event_still_needs_recovery e.adverse_audit_at e.runs
    then recovery_decision base_interval (audit_at (or_else e.adverse_audit_at 0))
    else if not (is_success latest.status) || truthy latest.error_message
    then recovery_decision base_interval (latest_status latest.status latest.error_message)
    else if needs_recovery_since recovered_run e.runs
    then recovery_decision base_interval (recovered_reason recovered_run)
    else decide_clean e.runs base_interval now

abbrev pub latest_run : List Run → Option Run
latest_run [] = none
latest_run (r ∷ rs) = some r

-- The part behind the block on `protectedRun`.
unfoldable pub decide_unprotected : Evidence → ℕ → ℕ → Decision
decide_unprotected e base_interval now =
    let stale = recovery_decision base_interval evidence_stale in
    let by_latest : Decision = elim (latest_run e.runs) [
      | none ↦ stale
      | some r ↦
          if ltb stale_after_ms (now - r.started_at)
          then stale
          else decide_recent e r base_interval now
    ] in
    let by_unresolved : Decision = elim e.unresolved_recovery [
      | none ↦ by_latest
      | some u ↦
          if not (opt_str_eq u.attempted_generation (some u.current_generation))
          then recovery_decision base_interval capability_changed
          else light_decision unresolved (lean_interval_seconds base_interval)
              (windows_unresolved u.count)
    ] in
    if ltb 0 (or_else e.pending_recovery_count 0)
    then recovery_decision base_interval (windows_pending (or_else e.pending_recovery_count 0))
    else by_unresolved

unfoldable pub decide_adaptive_backfill : Evidence → ℕ → ℕ → Decision
decide_adaptive_backfill e base_interval_seconds now =
    let base_interval = max 1 base_interval_seconds in
    let unprotected = decide_unprotected e base_interval now in
    elim (find is_protected_run e.runs) [
      | none ↦ unprotected
      | some r ↦ or_else (decide_protected r e.runs base_interval now) unprotected
    ]

unfoldable pub backfill_due : Option ℕ → Decision → ℕ → Bool
backfill_due none d now = true
backfill_due (some last_run_at) d now = leb (d.interval_seconds * 1000) (now - last_run_at)
