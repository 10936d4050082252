-- ===== src/Worker/Incident.antt =====
-- apps/worker/src/modules/challenge-incident-policy.ts: the status of a challenge incident, and the
-- reminders of a manual one. Times are milliseconds; a reminder's time that does not parse is `none`.
use auto_monitor_bot.Base.{
  ℕ, ◌+◌, ◌-◌, ◌*◌, ◌≤◌, ◌≡◌, Bool, true, false, ◌&&◌, ◌||◌, List, [], ◌∷◌, Option, none, some,
  arith, leb, if◌then◌else◌, if_cases, ◌∙◌,
}

-- `ActiveChallengeIncidentStatus`, and RESOLVED.
pub data IncidentStatus : Type 0 where
  detected cooldown manual_verification_required probe_pending recovering repeated resolved :
      IncidentStatus

abbrev pub is_manual : Option IncidentStatus → Bool
is_manual (some manual_verification_required) = true
is_manual _ = false

unfoldable pub next_challenge_incident_status : Option IncidentStatus → Bool → IncidentStatus
next_challenge_incident_status active manual =
    if manual || is_manual active
    then manual_verification_required
    else (elim active [ none ↦ cooldown | some s ↦ repeated ])

unfoldable pub requires_manual_challenge_verification : Bool → ℕ → Bool
requires_manual_challenge_verification captcha prior_errors = captcha && leb 2 prior_errors

-- A run of protected responses, each with whether it is a captcha, and the errors before the first.
unfoldable pub incident_after : List Bool → ℕ → Option IncidentStatus → Option IncidentStatus
incident_after [] errors active = active
incident_after (captcha ∷ rest) errors active = incident_after rest (errors + 1) (
    some (
      next_challenge_incident_status active
        (requires_manual_challenge_verification captcha errors)))

abbrev pub manual_reminder_interval_ms : ℕ
manual_reminder_interval_ms = 24 * 3600000

unfoldable pub should_send_manual_reminder : Option ℕ → ℕ → Bool
should_send_manual_reminder none now = true
should_send_manual_reminder (some last) now = leb manual_reminder_interval_ms (now - last)

-- The times at which reminders are sent, for checks at given times.
unfoldable pub reminders : List ℕ → Option ℕ → List ℕ
reminders [] last = []
reminders (now ∷ rest) last =
    let sent = now ∷ reminders rest (some now) in
    let kept = reminders rest last in if should_send_manual_reminder last now then sent else kept

-- Some response is a captcha with at least two errors before it.
abbrev pub any_late_captcha : List Bool → ℕ → Bool
any_late_captcha [] errors = false
any_late_captcha (captcha ∷ rest) errors =
    captcha && leb 2 errors || any_late_captcha rest (errors + 1)

-- An incident needs manual verification exactly when it did before, or when one of its responses
-- was a captcha behind at least two consecutive errors: nothing later takes that back.
pub incident_after-manual :
    (responses : List Bool) (errors : ℕ) (active : Option IncidentStatus)
    → is_manual (incident_after responses errors active)
      ≡ is_manual active || any_late_captcha responses errors
unfolding incident_after next_challenge_incident_status requires_manual_challenge_verification
incident_after-manual [] errors active = ground arith
incident_after-manual (captcha ∷ rest) errors none =
    incident_after-manual rest (errors + 1) _ ∙ ground arith
incident_after-manual (captcha ∷ rest) errors (some s) =
    incident_after-manual rest (errors + 1) _ ∙ ground arith

-- Each time in a list is at least `gap` after the one before it.
abbrev pub IsSpaced : ℕ → Option ℕ → List ℕ → Type 0
IsSpaced gap last [] = Unit
IsSpaced gap none (t ∷ ts) = IsSpaced gap (some t) ts
IsSpaced gap (some last) (t ∷ ts) = (last + gap ≤ t) × IsSpaced gap (some t) ts

-- Whenever the checks come, two reminders are at least 24 hours apart.
pub reminders-IsSpaced :
    (checks : List ℕ) (last : Option ℕ) → IsSpaced 86400000 last (reminders checks last)
unfolding reminders should_send_manual_reminder
reminders-IsSpaced [] last = tt
reminders-IsSpaced (now ∷ rest) none = reminders-IsSpaced rest (some now)
reminders-IsSpaced (now ∷ rest) (some last) =
    if_cases (IsSpaced 86400000 (some last)) (leb manual_reminder_interval_ms (now - last))
      (λ h. (ground arith, reminders-IsSpaced rest (some now)))
      (λ _. reminders-IsSpaced rest (some last))
