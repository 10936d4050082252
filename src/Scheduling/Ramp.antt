-- ===== src/Scheduling/Ramp.antt =====
-- How apps/api/src/modules/monitoring/olx-realtime-cadence.ts comes back from a protection
-- incident, alone and inside effective-cadence.ts.
use auto_monitor_bot.Base.{ℕ, ◌+◌, ◌*◌, ◌≤◌, ◌<◌, ◌≡◌, false, ◌⊎◌, Option, none, some, arith}
use auto_monitor_bot.Scheduling.Cadence.{
  Incident, decide_olx_realtime_cadence, CadenceInput, resolve_olx_effective_cadence,
}

-- As time goes on the cadence after an incident never slows down again, and it is never faster
-- than the configured interval and jitter.
pub decide_olx_realtime_cadence-ramps :
    (interval jitter ramp_seconds : ℕ) (incident : Option Incident) (now later : ℕ)
    → now ≤ later
    → let d = decide_olx_realtime_cadence interval jitter ramp_seconds incident in
      ((d later).interval_seconds ≤ (d now).interval_seconds)
      × ((d later).jitter_seconds ≤ (d now).jitter_seconds)
      × (interval ≤ (d later).interval_seconds)
      × (jitter ≤ (d later).jitter_seconds)
unfolding decide_olx_realtime_cadence
decide_olx_realtime_cadence-ramps interval jitter ramp_seconds none now later h = ground arith
decide_olx_realtime_cadence-ramps interval jitter ramp_seconds (some i) now later h = ground arith

-- While an incident is unresolved, or in the first half of the recovery ramp, the cadence that the
-- scheduler applies is at least sixty seconds with ten of jitter, whatever the persisted cadence
-- and the canary say.
pub resolve_olx_effective_cadence-incident :
    (i : CadenceInput) (interval jitter ramp_seconds now : ℕ) (incident : Incident)
    → i.recovery ≡ decide_olx_realtime_cadence interval jitter ramp_seconds (some incident) now
    → ((incident.is_resolved ≡ false)
        ⊎ (incident.recovered_at ≡ none)
        ⊎ ((t : ℕ) × (incident.recovered_at ≡ some t)
            × (0 < ramp_seconds)
            × (2 * now < 2 * t + ramp_seconds * 1000)))
    → (60 ≤ (resolve_olx_effective_cadence i).interval_seconds)
      × (10 ≤ (resolve_olx_effective_cadence i).jitter_seconds)
unfolding decide_olx_realtime_cadence resolve_olx_effective_cadence
resolve_olx_effective_cadence-incident i interval jitter ramp_seconds now incident e h =
    ground arith
