-- ===== src/Worker/Deadlines.antt =====
-- apps/worker/src/modules/olx-outage-detection.ts (a missed realtime run) and scheduled-job-policy.ts
-- (a queued job that comes too late). Dates are valid and in milliseconds; the `reason` texts are
-- left out.
use auto_monitor_bot.Base.{
  ℕ, ◌+◌, ◌-◌, ◌*◌, ◌≤◌, ◌<◌, max, ◌≡◌, refl, Bool, true, false, not, ◌||◌, Option, none, some,
  arith, ltb, leb, if◌then◌else◌, or_else, ◌⊎◌, inl, inr, Option-cases,
}
use auto_monitor_bot.Domain.{
  ListingSource, is_olx, Lane, realtime, backfill, coverage, manual, is_realtime_lane,
  is_backfill_lane,
}

-- `OlxOutageSchedule`.
pub record OutageSchedule : Type 0 where
  pub next_expected_run_at : ℕ
  pub started_at : ℕ
  pub jitter_seconds : ℕ
  pub scheduler_tolerance_seconds : ℕ

-- `OlxOutageDecision`.
pub record OutageDecision : Type 0 where
  pub outage_detected : Bool
  pub deadline_at : Option ℕ

abbrev no_outage : OutageDecision
no_outage = record { outage_detected = false; deadline_at = none }

abbrev pub deadline : OutageSchedule → ℕ
deadline s = s.next_expected_run_at + (s.jitter_seconds + s.scheduler_tolerance_seconds) * 1000

abbrev missed : OutageSchedule → OutageDecision
missed s = record {
  outage_detected = ltb (deadline s) s.started_at;
  deadline_at = some (deadline s);
}

unfoldable pub detect_olx_scheduled_outage :
    ListingSource → Lane → Option ℕ → Option OutageSchedule → OutageDecision
detect_olx_scheduled_outage source lane (some last_success) (some s) =
    if not (is_olx source) || not (is_realtime_lane lane)
    then no_outage
    else if leb s.next_expected_run_at last_success
    then no_outage
    else missed s
detect_olx_scheduled_outage source lane _ _ = no_outage

-- An outage is detected only for a realtime run of OLX, with a success and a schedule on record,
-- and only when more than the jitter and the tolerance has passed both since that success and since
-- the time at which the run was expected. Missing evidence is never an outage.
pub detect_olx_scheduled_outage-missed :
    (source : ListingSource) (lane : Lane) (last_success : Option ℕ)
    (schedule : Option OutageSchedule)
    → (detect_olx_scheduled_outage source lane last_success schedule).outage_detected ≡ true
    → (source ≡ ListingSource.olx)
      × (lane ≡ realtime)
      × ((t : ℕ) × (s : OutageSchedule) × (last_success ≡ some t)
          × (schedule ≡ some s)
          × (max t s.next_expected_run_at
                + (s.jitter_seconds + s.scheduler_tolerance_seconds) * 1000
              < s.started_at))
unfolding detect_olx_scheduled_outage
detect_olx_scheduled_outage-missed source lane none none h = cc
detect_olx_scheduled_outage-missed source lane none (some s) h = cc
detect_olx_scheduled_outage-missed source lane (some t) none h = cc
detect_olx_scheduled_outage-missed source lane (some t) (some s) h =
    (ground arith, ground arith, (t, s, refl, refl, ground arith))

-- `ScheduledOlxJobTrigger`.
pub data Trigger : Type 0 where
  scheduled manual_trigger backfill_trigger recovery coverage_trigger : Trigger

pub record ScheduledJob : Type 0 where
  pub source : ListingSource
  pub lane : Option Lane
  pub trigger : Option Trigger
  pub scheduled_at : Option ℕ
  pub is_manual : Bool

abbrev pub realtime_job_max_execution_lag_ms : ℕ
realtime_job_max_execution_lag_ms = 8000

abbrev pub backfill_job_max_execution_lag_ms : ℕ
backfill_job_max_execution_lag_ms = 30000

abbrev pub job_trigger : ScheduledJob → Trigger
job_trigger j = or_else j.trigger (if j.is_manual then manual_trigger else scheduled)

abbrev default_lane : Trigger → Lane
default_lane coverage_trigger = coverage
default_lane backfill_trigger = backfill
default_lane recovery = backfill
default_lane manual_trigger = manual
default_lane scheduled = realtime

abbrev pub job_lane : ScheduledJob → Lane
job_lane j = or_else j.lane (default_lane (job_trigger j))

abbrev pub is_durable : Trigger → Bool
is_durable manual_trigger = true
is_durable recovery = true
is_durable coverage_trigger = true
is_durable _ = false

abbrev is_manual_lane : Lane → Bool
is_manual_lane manual = true
is_manual_lane _ = false

-- The work that is never dropped for being late.
abbrev pub is_exempt : ScheduledJob → Bool
is_exempt j = not (is_olx j.source) || is_durable (job_trigger j) || is_manual_lane (job_lane j)

abbrev pub max_execution_lag_ms : Lane → ℕ
max_execution_lag_ms lane =
    if is_backfill_lane lane
    then backfill_job_max_execution_lag_ms
    else realtime_job_max_execution_lag_ms

-- `scheduledOlxJobExecutionState(...).stale`; a time that is missing or does not parse is `none`.
unfoldable pub scheduled_olx_job_is_stale : ScheduledJob → ℕ → Bool
scheduled_olx_job_is_stale j executed_at = if is_exempt j then false else (elim j.scheduled_at [
  | none ↦ true
  | some t ↦ ltb (max_execution_lag_ms (job_lane j)) (executed_at - t)
])

-- A job that is not stale and has no exemption shows its time, and runs at most eight seconds after
-- it, or thirty for a backfill.
pub scheduled_olx_job_is_stale-fresh :
    (j : ScheduledJob) (executed_at : ℕ)
    → is_exempt j ≡ false
    → scheduled_olx_job_is_stale j executed_at ≡ false
    → (t : ℕ) × (j.scheduled_at ≡ some t)
      × (executed_at ≤ t + 30000)
      × ((executed_at ≤ t + 8000) ⊎ (job_lane j ≡ backfill))
unfolding scheduled_olx_job_is_stale
scheduled_olx_job_is_stale-fresh j executed_at e h = elim (Option-cases j.scheduled_at) [
  | inl k ↦ absurd (ground (arith, k))
  | inr (t, k) ↦ (t, k, ground (arith, k), ground (arith, k))
]
