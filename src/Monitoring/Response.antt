-- ===== src/Monitoring/Response.antt =====
-- apps/worker/src/processors/collector-run-helpers.ts: `handleExternalProtection` and
-- `maybeSendManualReminderAlert`, and apps/worker/src/modules/source-health-ownership.ts. Times are
-- milliseconds; `null` pauses and texts of messages are left out.
use auto_monitor_bot.Base.{
  ℕ, suc, ◌+◌, ◌-◌, ◌*◌, ◌<◌, max, ◌≡◌, Bool, true, false, not, ◌&&◌, ◌||◌, List, [], ◌∷◌, ◌++◌,
  Option, none, some, arith, if◌then◌else◌, any,
}
use auto_monitor_bot.Domain.{
  ListingSource, auto_ria, Lane, SourceStatus, RunStatus, is_olx, is_rst,
  is_background_discovery_lane,
}
use auto_monitor_bot.Worker.Incident.{
  requires_manual_challenge_verification, should_send_manual_reminder,
}
use auto_monitor_bot.Protection.Pauses.{
  captcha_pause_seconds, rate_limit_pause_seconds, is_forbidden,
}
use auto_monitor_bot.Monitoring.Orchestrator.{SourceRow, source_due}
use auto_monitor_bot.Monitoring.Protection.{Incident, Recorded, record_challenge_incident}

-- `laneOwnsSourceHealth`.
unfoldable pub lane_owns_source_health : Lane → Bool
lane_owns_source_health lane = not (is_background_discovery_lane lane)

-- What the handler reads of the run: `CollectorResult`, and its own options.
pub record ProtectedRun : Type 0 where
  pub lane : Lane
  pub started_at : ℕ
  pub captcha_detected : Bool
  pub rate_limited : Bool
  pub response_status : Option ℕ
  pub retry_after_seconds : Option ℕ
  pub prior_consecutive_errors : ℕ
  pub prior_probe_attempts : Option ℕ
  pub already_protected : Bool

pub record PauseEnv : Type 0 where
  pub captcha_pause_seconds : ℕ
  pub captcha_pause_max_seconds : ℕ
  pub rate_limit_pause_base_seconds : ℕ
  pub rate_limit_pause_max_seconds : ℕ

-- The source, with the other columns that the handler writes.
pub record ProtectedSource : Type 0 where
  pub row : SourceRow
  pub consecutive_errors : ℕ
  pub last_checked_at : Option ℕ
  pub last_duration_ms : Option ℕ
  pub health_score : ℕ

-- The messages that the handler may send, and what else it sets off.
pub data Effect : Type 0 where
  manual_alert protection_alert : Effect
  session_dropped harvest_started solver_started reminder_checked : Effect

pub record Response : Type 0 where
  pub incidents : List Incident
  pub source : ProtectedSource
  pub run_status : RunStatus
  pub effects : List Effect

abbrev is_auto_ria : ListingSource → Bool
is_auto_ria auto_ria = true
is_auto_ria _ = false

-- `pauseSeconds`; the probe attempts are read for captchas of RST only.
unfoldable pub pause_seconds : PauseEnv → ListingSource → ProtectedRun → ℕ
pause_seconds env source r =
    if r.captcha_detected
    then captcha_pause_seconds (record {
      source = source;
      consecutive_errors = r.prior_consecutive_errors;
      prior_probe_attempts = if is_rst source then r.prior_probe_attempts else none;
      base_seconds = max 60 env.captcha_pause_seconds;
      max_seconds = max env.captcha_pause_seconds env.captcha_pause_max_seconds;
    })
    else rate_limit_pause_seconds (record {
      source = source;
      response_status = r.response_status;
      retry_after_seconds = r.retry_after_seconds;
      consecutive_errors = r.prior_consecutive_errors;
      base_seconds = env.rate_limit_pause_base_seconds;
      max_seconds = env.rate_limit_pause_max_seconds;
    })

-- The update of the source.
unfoldable pub paused_source : ℕ → ℕ → ProtectedRun → ProtectedSource → ProtectedSource
paused_source now paused_until r s = record {
  row = record s.row {
    status =
        if r.captcha_detected then SourceStatus.captcha_detected else SourceStatus.rate_limited;
    paused_until = some paused_until;
  };
  consecutive_errors = suc s.consecutive_errors;
  last_checked_at = some now;
  last_duration_ms = some (now - r.started_at);
  health_score = if r.captcha_detected then 20 else 40;
}

abbrev when : Bool → Effect → List Effect
when b e = if b then e ∷ [] else []

-- What follows the updates, in its order.
unfoldable pub protection_effects : ListingSource → ProtectedRun → Recorded → List Effect
protection_effects source r recorded =
    let is_challenge =
      (is_olx source || is_auto_ria source)
      && (r.captcha_detected || r.rate_limited && is_forbidden r.response_status) in
    when is_challenge session_dropped
    ++ when (is_rst source && r.captcha_detected) harvest_started
    ++ when is_challenge solver_started
    ++ (if recorded.manual_new
        then manual_alert ∷ []
        else when (not r.already_protected && not recorded.was_active) protection_alert)
    ++ when (recorded.manual_required && not recorded.manual_new) reminder_checked

-- `handleExternalProtection`.
unfoldable pub handle_external_protection :
    PauseEnv → ℕ → ProtectedRun → List Incident → ProtectedSource → Response
handle_external_protection env now r incidents s =
    let paused_until = now + pause_seconds env s.row.source r * 1000 in
    let recorded =
      record_challenge_incident
        (requires_manual_challenge_verification r.captcha_detected r.prior_consecutive_errors) now
        paused_until incidents in
    let status =
      if r.captcha_detected then RunStatus.captcha_detected else RunStatus.rate_limited in
    if not (lane_owns_source_health r.lane)
    then record { incidents = recorded.incidents; source = s; run_status = status; effects = [] }
    else record {
      incidents = recorded.incidents;
      source = paused_source now paused_until r s;
      run_status = status;
      effects = protection_effects s.row.source r recorded;
    }

-- `maybeSendManualReminderAlert`, with `safeSystemAlert`, which keeps a failure of the alert to itself:
-- whether a message is sent off, and the time that is remembered.
unfoldable pub maybe_send_manual_reminder_alert : ℕ → Option ℕ → Bool × Option ℕ
maybe_send_manual_reminder_alert now last =
    if should_send_manual_reminder last now then (true, some now) else (false, last)

abbrev pub is_alert : Effect → Bool
is_alert manual_alert = true
is_alert protection_alert = true
is_alert _ = false

-- A protection response of a realtime or manual run takes its source out of the realtime ticks until
-- the pause is over, and counts as an error. One of a background run leaves the source as it was, due
-- or not, and sends nothing. The incident is recorded either way, with the pause as its cooldown.
pub handle_external_protection-pauses :
    (env : PauseEnv) (now later : ℕ) (r : ProtectedRun) (incidents : List Incident)
    (s : ProtectedSource)
    → later < now + pause_seconds env s.row.source r * 1000
    → let out = handle_external_protection env now r incidents s in
      (lane_owns_source_health r.lane ≡ true
        → (source_due out.source.row later ≡ false)
          × (out.source.consecutive_errors ≡ suc s.consecutive_errors))
      × (lane_owns_source_health r.lane ≡ false → (out.source ≡ s) × (out.effects ≡ []))
      × (out.incidents
          ≡ (record_challenge_incident
              (requires_manual_challenge_verification r.captcha_detected r.prior_consecutive_errors)
              now
              (now + pause_seconds env s.row.source r * 1000)
              incidents).incidents)
unfolding handle_external_protection paused_source source_due
handle_external_protection-pauses env now later r incidents s h =
    (λ o. (ground arith, ground arith), λ o. (ground arith, ground arith), ground arith)

-- A message goes out exactly where an incident first needs manual verification, or begins while the
-- source is not protected; the responses that follow within the incident send none.
pub protection_effects-alerts :
    (source : ListingSource) (r : ProtectedRun) (recorded : Recorded)
    → any is_alert (protection_effects source r recorded)
      ≡ (recorded.manual_new || not r.already_protected && not recorded.was_active)
unfolding protection_effects
protection_effects-alerts source r recorded = ground arith
