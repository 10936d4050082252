-- ===== src/Monitoring/Orchestrator.antt =====
-- apps/api/src/modules/monitoring/orchestrator.ts: the state of `MonitoringOrchestrator`, the realtime
-- part of `tick`, and the sleep of `scheduleNext`. Dates are milliseconds. The interval that the
-- cadence policies and the random jitter give a source is an argument.
use auto_monitor_bot.Base.{
  ℕ, suc, ◌+◌, ◌-◌, ◌*◌, max, min, Bool, true, false, not, ◌&&◌, List, [], ◌∷◌, Option, none, some,
  ltb, if◌then◌else◌, or_else, filter, sort_by,
}
use auto_monitor_bot.Domain.{ListingSource, SourceStatus, disabled, Lane, realtime}
use auto_monitor_bot.Worker.Deadlines.{Trigger, scheduled}
use auto_monitor_bot.Monitoring.Jobs.{MonitoringStatus, stopped}
use auto_monitor_bot.Scheduling.Backfill.{BackfillProfile}
use auto_monitor_bot.Monitoring.Deadlines.{source_order, realtime_collector_priority}

-- `MonitoringState`, the row of the monitoring.
pub record MonitoringState : Type 0 where
  pub status : MonitoringStatus
  pub generation : ℕ
  pub started_at : Option ℕ
  pub stopped_at : Option ℕ
  pub next_tick_at : Option ℕ
  pub last_tick_at : Option ℕ
  pub next_backfill_tick_at : Option ℕ
  pub last_backfill_tick_at : Option ℕ
  pub next_coverage_tick_at : Option ℕ
  pub last_coverage_tick_at : Option ℕ

-- The row that `ensureState` creates.
unfoldable pub created_state : MonitoringState
created_state = record {
  status = stopped;
  generation = 0;
  started_at = none;
  stopped_at = none;
  next_tick_at = none;
  last_tick_at = none;
  next_backfill_tick_at = none;
  last_backfill_tick_at = none;
  next_coverage_tick_at = none;
  last_coverage_tick_at = none;
}

-- What the orchestrator reads of a `Source`.
pub record SourceRow : Type 0 where
  pub source : ListingSource
  pub enabled : Bool
  pub status : SourceStatus
  pub paused_until : Option ℕ
  pub next_check_at : Option ℕ

-- A job that the orchestrator enqueues, with what its id is made of.
pub record EnqueuedJob : Type 0 where
  pub source : ListingSource
  pub trigger : Trigger
  pub lane : Lane
  pub generation : ℕ
  pub id_time : ℕ
  pub priority : Option ℕ
  pub profile : Option BackfillProfile

abbrev is_disabled : SourceStatus → Bool
is_disabled disabled = true
is_disabled _ = false

abbrev pub is_after : ℕ → Option ℕ → Bool
is_after now none = false
is_after now (some at) = ltb now at

-- `sourceDue`.
unfoldable pub source_due : SourceRow → ℕ → Bool
source_due s now =
    not (is_disabled s.status)
    && not (is_after now s.paused_until)
    && not (is_after now s.next_check_at)

-- `prioritizeRealtimeSources`.
unfoldable pub prioritize_realtime_sources : List SourceRow → List SourceRow
prioritize_realtime_sources sources =
    sort_by (λ a b. ltb (source_order a.source) (source_order b.source)) sources

-- The job and the new deadline of one due source.
unfoldable pub realtime_job : ℕ → ℕ → SourceRow → EnqueuedJob
realtime_job generation now s = record {
  source = s.source;
  trigger = scheduled;
  lane = realtime;
  generation = generation;
  id_time = or_else s.next_check_at now;
  priority = realtime_collector_priority s.source;
  profile = none;
}

unfoldable pub rescheduled : (SourceRow → ℕ) → ℕ → SourceRow → SourceRow
rescheduled interval_ms now s = record s { next_check_at = some (now + interval_ms s) }

-- The loop of `tick` over the sources: the jobs that it enqueues, and the sources behind it.
unfoldable pub tick_sources :
    (SourceRow → ℕ) → ℕ → ℕ → List SourceRow → List EnqueuedJob × List SourceRow
tick_sources interval_ms generation now [] = ([], [])
tick_sources interval_ms generation now (s ∷ sources) =
    let rest = tick_sources interval_ms generation now sources in
    if not (source_due s now)
    then (rest.0, s ∷ rest.1)
    else (realtime_job generation now s ∷ rest.0, rescheduled interval_ms now s ∷ rest.1)

-- `tick` up to its background part: the sources that some filter targets, OLX first.
unfoldable pub tick_realtime :
    (SourceRow → ℕ)
    → (ListingSource → Bool)
    → ℕ
    → ℕ
    → List SourceRow
    → List EnqueuedJob × List SourceRow
tick_realtime interval_ms is_target generation now sources =
    tick_sources interval_ms generation now
      (prioritize_realtime_sources (filter (λ s. s.enabled && is_target s.source) sources))

-- The staggered first deadlines of `start` and `resumeIfRunning`, for the enabled sources in their
-- order; `index` counts the due ones before.
unfoldable pub stagger_from : ℕ → ℕ → List SourceRow → List SourceRow
stagger_from now index [] = []
stagger_from now index (s ∷ sources) =
    let next = stagger_from now (suc index) sources in
    let same = stagger_from now index sources in
    if s.enabled && not (is_after now s.next_check_at)
    then record s { next_check_at = some (now + index * 3000) } ∷ next
    else s ∷ same

-- The time until the earliest deadline, as `scheduleNext` finds it.
unfoldable pub nearest_deadline_ms : ℕ → ℕ → List (Option ℕ) → ℕ
nearest_deadline_ms now most [] = most
nearest_deadline_ms now most (none ∷ deadlines) = nearest_deadline_ms now most deadlines
nearest_deadline_ms now most (some at ∷ deadlines) =
    min (at - now) (nearest_deadline_ms now most deadlines)

-- The sleep of `scheduleNext`, between `SCHEDULER_MIN_SLEEP_MS` and `SCHEDULER_MAX_SLEEP_MS`; the
-- deadlines are not read where the database fails.
unfoldable pub schedule_next_ms : ℕ → ℕ → ℕ → Option (List (Option ℕ)) → ℕ
schedule_next_ms least most now none = max least (min most most)
schedule_next_ms least most now (some deadlines) =
    max least (min most (nearest_deadline_ms now most deadlines))
