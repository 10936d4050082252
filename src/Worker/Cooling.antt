-- ===== src/Worker/Cooling.antt =====
-- apps/worker/src/modules/olx-protection-cooling.ts and olx-parity-policy.ts: how long a parity check
-- waits after a protection incident. Dates are valid and in milliseconds, `coolingSeconds` is whole;
-- the `reason` texts are left out.
use auto_monitor_bot.Base.{
  ℕ, ◌+◌, ◌-◌, ◌*◌, ◌/◌, ◌≤◌, max, ◌≡◌, Bool, true, false, not, ◌&&◌, ◌||◌, Option, none, some,
  arith, ltb, leb, if◌then◌else◌, or_else,
}
use auto_monitor_bot.Domain.{SourceStatus, rate_limited, captcha_detected}
use auto_monitor_bot.Worker.Incident.{IncidentStatus, resolved}

pub record CoolingInput : Type 0 where
  pub detected_at : Option ℕ
  pub cooldown_until : Option ℕ
  pub status : Option IncidentStatus
  pub recovered_at : Option ℕ
  pub cooling_seconds : ℕ
  pub now : ℕ

-- `OlxProtectionCoolingState`.
pub record CoolingState : Type 0 where
  pub is_active : Bool
  pub until : Option ℕ
  pub remaining_seconds : ℕ

abbrev pub is_resolved : Option IncidentStatus → Bool
is_resolved (some resolved) = true
is_resolved _ = false

abbrev reached : Option ℕ → ℕ → Bool
reached none detected_at = false
reached (some t) detected_at = leb detected_at t

abbrev pub is_recovered : CoolingInput → ℕ → Bool
is_recovered i detected_at = is_resolved i.status && reached i.recovered_at detected_at

abbrev until_at : CoolingInput → ℕ → ℕ
until_at i detected_at =
    let recovered = is_recovered i detected_at in
    max ((if recovered then or_else i.recovered_at 0 else detected_at) + i.cooling_seconds * 1000)
      (if recovered then 0 else or_else i.cooldown_until 0)

unfoldable pub olx_protection_cooling_state : CoolingInput → CoolingState
olx_protection_cooling_state i = elim i.detected_at [
  | none ↦ record { is_active = false; until = none; remaining_seconds = 0 }
  | some d ↦ record {
    is_active = ltb 0 (until_at i d - i.now);
    until = some (until_at i d);
    remaining_seconds = (until_at i d - i.now + 999) / 1000;
  }
]

abbrev is_protected : SourceStatus → Bool
is_protected rate_limited = true
is_protected captcha_detected = true
is_protected _ = false

abbrev pauses : Option ℕ → ℕ → Bool
pauses none now = false
pauses (some t) now = ltb now t

-- `olxParityPermission`, with the incident's part of its input as a `CoolingInput`.
unfoldable pub olx_parity_permission : SourceStatus → Option ℕ → CoolingInput → Bool
olx_parity_permission status paused_until i =
    if is_protected status
    then false
    else if pauses paused_until i.now
    then false
    else not (olx_protection_cooling_state i).is_active

-- A parity check that is allowed comes when the source's pause is over and a full cooling time has
-- passed since the incident was detected; with an incident that is not resolved, also when the
-- server's own cooldown is over.
pub olx_parity_permission-cooled :
    (status : SourceStatus) (paused_until : Option ℕ) (i : CoolingInput) (d : ℕ)
    → olx_parity_permission status paused_until i ≡ true
    → i.detected_at ≡ some d
    → (or_else paused_until 0 ≤ i.now)
      × (d + i.cooling_seconds * 1000 ≤ i.now)
      × ((is_resolved i.status || leb (or_else i.cooldown_until 0) i.now) ≡ true)
unfolding olx_parity_permission olx_protection_cooling_state
olx_parity_permission-cooled status paused_until i d h e = ground arith
