-- ===== src/Scheduling/Backfill/Model.antt =====
-- apps/api/src/modules/monitoring/backfill-policy.ts: its data, and the helpers on runs.
use Prim.Native.String.{String}
use auto_monitor_bot.Base.{
  ℕ, ◌+◌, ◌*◌, max, min, Bool, true, false, not, ◌&&◌, List, [], ◌∷◌, Option, none, some, ltb, ◌==◌,
  if◌then◌else◌, length, take, all, filter, truthy,
}
use auto_monitor_bot.Domain.{RunStatus, is_success}

-- `BackfillProfile`.
pub data BackfillProfile : Type 0 where
  full light : BackfillProfile

-- `BackfillRunEvidence`.
pub record Run : Type 0 where
  pub started_at : ℕ
  pub status : RunStatus
  pub recovered_count : ℕ
  pub error_message : Option String
  pub profile : BackfillProfile

pub record UnresolvedRecovery : Type 0 where
  pub count : ℕ
  pub attempted_generation : Option String
  pub current_generation : String

-- `AdaptiveBackfillEvidence`.
pub record Evidence : Type 0 where
  pub runs : List Run
  pub unresolved_observation_count : ℕ
  pub pending_recovery_count : Option ℕ
  pub unresolved_recovery : Option UnresolvedRecovery
  pub realtime_anomaly_at : Option ℕ
  pub adverse_audit_at : Option ℕ

pub data Mode : Type 0 where
  recovery evidence_mode lean periodic_full protection unresolved : Mode

pub data Reason : Type 0 where
  probe_recovered audit_deferred windows_pending : ℕ → Reason
  clean_probes : RunStatus → ℕ → Reason
  capability_changed : Reason
  windows_unresolved : ℕ → Reason
  evidence_stale : Reason
  observations_unresolved anomaly_at audit_at : ℕ → Reason
  latest_status : RunStatus → Option String → Reason
  recovered_at : (count at : ℕ) → Reason
  collecting : ℕ → Reason
  audit_due : Reason
  clean_streak : ℕ → Reason

-- `AdaptiveBackfillDecision`.
pub record Decision : Type 0 where
  pub mode : Mode
  pub profile : BackfillProfile
  pub interval_seconds : ℕ
  pub reason : Reason

abbrev pub clean_runs_required : ℕ
clean_runs_required = 8

abbrev pub recovery_confirmation_runs : ℕ
recovery_confirmation_runs = 2

abbrev pub periodic_full_interval_ms : ℕ
periodic_full_interval_ms = 6 * 60 * 60 * 1000

abbrev pub protection_lookback_ms : ℕ
protection_lookback_ms = 30 * 60 * 1000

abbrev pub protection_interval_seconds : ℕ
protection_interval_seconds = 30 * 60

abbrev pub protection_probe_interval_seconds : ℕ
protection_probe_interval_seconds = 10 * 60

abbrev pub protection_clean_runs_required : ℕ
protection_clean_runs_required = 2

abbrev pub protection_observation_ms : ℕ
protection_observation_ms = 6 * 60 * 60 * 1000

abbrev pub stale_after_ms : ℕ
stale_after_ms = 15 * 60 * 1000

abbrev pub is_clean : Run → Bool
is_clean r = is_success r.status && not (ltb 0 r.recovered_count) && not (truthy r.error_message)

-- `consecutiveCleanRuns`.
unfoldable pub consecutive_clean_runs : List Run → ℕ
consecutive_clean_runs [] = 0
consecutive_clean_runs (r ∷ rs) =
    let rest = consecutive_clean_runs rs in if is_clean r then rest + 1 else 0

abbrev pub is_protected_status : RunStatus → Bool
is_protected_status RunStatus.rate_limited = true
is_protected_status RunStatus.captcha_detected = true
is_protected_status _ = false

abbrev pub is_protected_run : Run → Bool
is_protected_run r = is_protected_status r.status

abbrev pub confirms : ℕ → Run → Bool
confirms event_at r =
    ltb event_at r.started_at
    && is_success r.status
    && r.recovered_count == 0
    && not (truthy r.error_message)

unfoldable pub event_still_needs_recovery : Option ℕ → List Run → Bool
event_still_needs_recovery none runs = false
event_still_needs_recovery (some event_at) runs =
    let confirmation_runs = take recovery_confirmation_runs runs in
    if ltb (length confirmation_runs) recovery_confirmation_runs
    then true
    else not (all (confirms event_at) confirmation_runs)

unfoldable pub lean_interval_seconds : ℕ → ℕ
lean_interval_seconds base_interval = max base_interval (min (15 * 60) (base_interval * 5))

abbrev pub recovery_decision : ℕ → Reason → Decision
recovery_decision base_interval reason = record {
  mode = recovery;
  profile = full;
  interval_seconds = base_interval;
  reason = reason;
}

abbrev pub light_decision : Mode → ℕ → Reason → Decision
light_decision mode interval reason = record {
  mode = mode;
  profile = light;
  interval_seconds = interval;
  reason = reason;
}

abbrev pub newer_runs : Run → List Run → List Run
newer_runs protected_run = filter (λ r. ltb protected_run.started_at r.started_at)
