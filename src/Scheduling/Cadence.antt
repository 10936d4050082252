-- ===== src/Scheduling/Cadence.antt =====
-- apps/api/src/modules/monitoring/olx-realtime-cadence.ts (`decideOlxRealtimeCadence`) and
-- effective-cadence.ts (`resolveOlxEffectiveCadence`).
-- Seconds are natural numbers, so `positiveInteger` falls back at 0 only and `nonNegativeInteger`
-- never; `reason` texts are left out, as nothing reads them.
use auto_monitor_bot.Base.{
  ℕ, ◌-◌, ◌*◌, max, Bool, true, false, not, ◌&&◌, Option, none, some, ltb, ◌==◌, if◌then◌else◌,
}

-- `OlxRealtimeCadenceMode`.
pub data RealtimeMode : Type 0 where
  healthy recovery_initial recovery_ramp : RealtimeMode

-- `OlxRealtimeCadenceDecision`.
pub record RealtimeCadence : Type 0 where
  pub mode : RealtimeMode
  pub interval_seconds : ℕ
  pub jitter_seconds : ℕ

-- `ProtectionIncidentTiming`, with whether its status is RESOLVED.
pub record Incident : Type 0 where
  pub is_resolved : Bool
  pub recovered_at : Option ℕ

abbrev pub recovery_initial_interval_seconds : ℕ
recovery_initial_interval_seconds = 60

abbrev pub recovery_initial_jitter_seconds : ℕ
recovery_initial_jitter_seconds = 10

abbrev pub recovery_ramp_interval_seconds : ℕ
recovery_ramp_interval_seconds = 30

abbrev pub recovery_ramp_jitter_seconds : ℕ
recovery_ramp_jitter_seconds = 6

abbrev positive_integer : ℕ → ℕ → ℕ
positive_integer value fallback = if ltb 0 value then max 1 value else fallback

-- `recoveryInitial`.
abbrev pub initial : ℕ → ℕ → RealtimeCadence
initial interval jitter = record {
  mode = recovery_initial;
  interval_seconds = max interval recovery_initial_interval_seconds;
  jitter_seconds = max jitter recovery_initial_jitter_seconds;
}

abbrev ramp : ℕ → ℕ → RealtimeCadence
ramp interval jitter = record {
  mode = recovery_ramp;
  interval_seconds = max interval recovery_ramp_interval_seconds;
  jitter_seconds = max jitter recovery_ramp_jitter_seconds;
}

-- The stage that a resolved incident is in; `elapsedSeconds < rampSeconds / 2` in milliseconds.
abbrev staged : ℕ → ℕ → ℕ → ℕ → ℕ → RealtimeCadence → RealtimeCadence
staged interval jitter ramp_seconds recovered_at now well =
    let elapsed_ms = now - recovered_at in
    if ramp_seconds == 0
    then well
    else if ltb (2 * elapsed_ms) (ramp_seconds * 1000)
    then initial interval jitter
    else if ltb elapsed_ms (ramp_seconds * 1000)
    then ramp interval jitter
    else well

abbrev by_recovery : Bool → Option ℕ → ℕ → ℕ → ℕ → ℕ → RealtimeCadence → RealtimeCadence
by_recovery true (some t) interval jitter ramp_seconds now well =
    staged interval jitter ramp_seconds t now well
by_recovery _ _ interval jitter ramp_seconds now well = initial interval jitter

unfoldable pub decide_olx_realtime_cadence :
    (interval jitter ramp_seconds : ℕ) → Option Incident → (now : ℕ) → RealtimeCadence
decide_olx_realtime_cadence configured_interval jitter ramp_seconds incident now =
    let interval = positive_integer configured_interval 20 in
    let well : RealtimeCadence = record {
      mode = healthy;
      interval_seconds = interval;
      jitter_seconds = jitter;
    } in
    elim incident [
      | none ↦ well
      | some i ↦ by_recovery i.is_resolved i.recovered_at interval jitter ramp_seconds now well
    ]

-- `EffectiveCadenceMode`.
pub data EffectiveMode : Type 0 where
  standard live recovery canary protected : EffectiveMode

-- `valueSource`.
pub data ValueSource : Type 0 where
  active_incident recovery_ramp_source canary_policy live_baseline standard_state
        persisted_override :
      ValueSource

-- `EffectiveCadenceDecision`.
pub record EffectiveCadence : Type 0 where
  pub mode : EffectiveMode
  pub interval_seconds : ℕ
  pub jitter_seconds : ℕ
  pub value_source : ValueSource

pub record CadencePair : Type 0 where
  pub interval_seconds : ℕ
  pub jitter_seconds : ℕ

abbrev pub same_pair : CadencePair → CadencePair → Bool
same_pair a b = a.interval_seconds == b.interval_seconds && a.jitter_seconds == b.jitter_seconds

pub record CadenceInput : Type 0 where
  pub persisted : CadencePair
  pub live_pair : CadencePair
  pub standard_pair : CadencePair
  pub protection_active : Bool
  pub canary_accelerated : Bool
  pub canary_pair : CadencePair
  pub recovery : RealtimeCadence

abbrev pub effective : EffectiveMode → CadencePair → ValueSource → EffectiveCadence
effective mode p source = record {
  mode = mode;
  interval_seconds = p.interval_seconds;
  jitter_seconds = p.jitter_seconds;
  value_source = source;
}

-- `baseCadence`.
abbrev base_cadence : CadenceInput → EffectiveCadence
base_cadence i =
    if same_pair i.persisted i.live_pair
    then effective live i.persisted live_baseline
    else effective standard i.persisted
        (if same_pair i.persisted i.standard_pair then standard_state else persisted_override)

abbrev recovery_pair : RealtimeCadence → CadencePair
recovery_pair r = record {
  interval_seconds = r.interval_seconds;
  jitter_seconds = r.jitter_seconds;
}

abbrev pub is_healthy : RealtimeMode → Bool
is_healthy healthy = true
is_healthy _ = false

-- `canary_accelerated` says that the canary's mode is CANARY or PROMOTED.
unfoldable pub resolve_olx_effective_cadence : CadenceInput → EffectiveCadence
resolve_olx_effective_cadence i =
    if i.protection_active
    then effective protected (recovery_pair i.recovery) active_incident
    else if not (is_healthy i.recovery.mode)
    then effective recovery (recovery_pair i.recovery) recovery_ramp_source
    else if i.canary_accelerated
    then effective canary i.canary_pair canary_policy
    else base_cadence i
