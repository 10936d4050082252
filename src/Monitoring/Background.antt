-- ===== src/Monitoring/Background.antt =====
-- apps/api/src/modules/monitoring/orchestrator.ts: `tickBackground` and `enqueueBackfill`. What the
-- database answers on the way is an argument. Dates are milliseconds.
use auto_monitor_bot.Base.{
  ℕ, ◌+◌, ◌≤◌, ◌<◌, max, ◌≡◌, Bool, true, false, not, ◌&&◌, List, [], ◌∷◌, ◌++◌, Option, none, some,
  arith, ltb, leb, ◌==◌, if◌then◌else◌, or_else, is_some, any, find, count_by,
}
use auto_monitor_bot.Domain.{ListingSource, auto_ria, olx, mock, backfill, coverage, is_olx}
use auto_monitor_bot.Worker.Deadlines.{backfill_trigger, recovery, coverage_trigger}
use auto_monitor_bot.Scheduling.Backfill.{
  BackfillProfile, Evidence, Decision, decide_adaptive_backfill, backfill_due, full,
}
use auto_monitor_bot.Monitoring.Jobs.{is_running}
use auto_monitor_bot.Monitoring.Deadlines.{
  source_order, startup_coverage_deadline, next_coverage_tick_after_attempt,
  startup_backfill_deadline, defer_origin_sensitive_backfill_after_realtime,
  next_backfill_tick_after_attempt,
}
use auto_monitor_bot.Monitoring.Orchestrator.{MonitoringState, SourceRow, EnqueuedJob, is_after}

-- The configuration that the background part reads.
pub record BackgroundEnv : Type 0 where
  pub auto_ria_public : Bool
  pub backfill_interval_seconds : ℕ
  pub olx_backfill_min_interval_seconds : ℕ
  pub backfill_initial_delay_seconds : ℕ
  pub coverage_initial_delay_seconds : ℕ
  pub coverage_interval_seconds : ℕ

-- What the database answers: whether a recovery of a source is due, OLX's evidence, and, for each
-- source, what `backgroundGenerationCurrent` finds.
pub record Answers : Type 0 where
  pub recovery_due : ListingSource → Bool
  pub evidence : Evidence
  pub is_current : ListingSource → Bool

abbrev first_started : Evidence → Option ℕ
first_started e = elim e.runs [ [] ↦ none | r ∷ rs ↦ some r.started_at ]

-- The decision on OLX, with the interval that the configuration asks for at least.
unfoldable pub scheduled_decision : BackgroundEnv → Answers → ℕ → Decision
scheduled_decision env a now =
    let d = decide_adaptive_backfill a.evidence env.backfill_interval_seconds now in
    record d { interval_seconds = max d.interval_seconds env.olx_backfill_min_interval_seconds }

abbrev backfill_job : ℕ → ℕ → Bool → Option BackfillProfile → SourceRow → EnqueuedJob
backfill_job generation now recovers profile s = record {
  source = s.source;
  trigger = if recovers then recovery else backfill_trigger;
  lane = backfill;
  generation = generation;
  id_time = now;
  priority = none;
  profile = profile;
}

-- What the loop of `enqueueBackfill` does with a source: it goes on, with or without a job, or ends.
pub data Turn : Type 0 where
  enqueues : Bool → Option BackfillProfile → Turn
  skips ends : Turn

abbrev pub is_auto_ria : ListingSource → Bool
is_auto_ria auto_ria = true
is_auto_ria _ = false

-- `BACKFILL_SOURCES`.
abbrev pub is_backfill_source : ListingSource → Bool
is_backfill_source auto_ria = false
is_backfill_source mock = false
is_backfill_source _ = true

abbrev recovery_pending : Answers → SourceRow → Bool
recovery_pending a s = is_olx s.source && ltb 0 (or_else a.evidence.pending_recovery_count 0)

unfoldable pub backfill_turn : BackgroundEnv → Answers → ℕ → SourceRow → Turn
backfill_turn env a now s =
    if is_auto_ria s.source
    then (if env.auto_ria_public
          && a.recovery_due s.source
          && not (is_after now s.paused_until)
          && a.is_current s.source
        then enqueues true none
        else skips)
    else if not (is_backfill_source s.source)
    then skips
    else if is_after now s.paused_until
    then skips
    else if is_olx s.source
        && not (backfill_due (first_started a.evidence) (scheduled_decision env a now) now)
    then skips
    else if recovery_pending a s && not (a.recovery_due s.source)
    then skips
    else if not (a.is_current s.source)
    then ends
    else enqueues (recovery_pending a s)
        (some (if is_olx s.source then (scheduled_decision env a now).profile else full))

-- The loop of `enqueueBackfill`.
unfoldable pub backfill_jobs : BackgroundEnv → Answers → ℕ → ℕ → List SourceRow → List EnqueuedJob
backfill_jobs env a generation now [] = []
backfill_jobs env a generation now (s ∷ sources) =
    let rest = backfill_jobs env a generation now sources in
    elim (backfill_turn env a now s) [
      | enqueues recovers profile ↦ backfill_job generation now recovers profile s ∷ rest
      | skips ↦ rest
      | ends ↦ []
    ]

abbrev pub must_defer : (ListingSource → Bool) → List SourceRow → Bool
must_defer realtime_enqueued sources =
    any
      (λ s.
        is_backfill_source s.source
        && defer_origin_sensitive_backfill_after_realtime s.source realtime_enqueued)
      sources

-- `enqueueBackfill`: the jobs, and whether it is deferred.
unfoldable pub enqueue_backfill :
    BackgroundEnv
    → Answers
    → (ListingSource → Bool)
    → ℕ
    → ℕ
    → List SourceRow
    → List EnqueuedJob × Bool
enqueue_backfill env a realtime_enqueued generation now sources =
    if must_defer realtime_enqueued sources
    then ([], true)
    else (backfill_jobs env a generation now sources, false)

-- What a background tick has done before its write, and what it writes.
pub record BackgroundPlan : Type 0 where
  pub jobs : List EnqueuedJob
  pub generation : ℕ
  pub next_backfill_tick_at : ℕ
  pub next_coverage_tick_at : ℕ
  pub backfilled : Bool
  pub covered : Bool
  pub now : ℕ

abbrev pub is_past : ℕ → Option ℕ → Bool
is_past now none = false
is_past now (some at) = leb at now

abbrev olx_row : List SourceRow → Option SourceRow
olx_row sources = find (λ s. is_olx s.source) sources

abbrev pub covers : ℕ → Answers → Option SourceRow → Bool
covers now a none = false
covers now a (some s) = not (is_after now s.paused_until) && a.is_current s.source

abbrev coverage_job : ℕ → ℕ → EnqueuedJob
coverage_job generation due_at = record {
  source = olx;
  trigger = coverage_trigger;
  lane = coverage;
  generation = generation;
  id_time = due_at;
  priority = none;
  profile = none;
}

-- `tickBackground` up to its write, from the state that the tick read.
unfoldable pub plan_background :
    BackgroundEnv
    → Answers
    → (ListingSource → Bool)
    → ℕ
    → List SourceRow
    → MonitoringState
    → BackgroundPlan
plan_background env a realtime_enqueued now sources m =
    let backfill_due_now = is_past now m.next_backfill_tick_at in
    let coverage_due_now = is_past now m.next_coverage_tick_at in
    let attempt = enqueue_backfill env a realtime_enqueued m.generation now sources in
    let covering = coverage_due_now && covers now a (olx_row sources) in
    record {
      jobs =
          (if backfill_due_now then attempt.0 else [])
          ++ (if covering
              then coverage_job m.generation (or_else m.next_coverage_tick_at now) ∷ []
              else []);
      generation = m.generation;
      next_backfill_tick_at =
          if not (is_some m.next_backfill_tick_at)
          then startup_backfill_deadline now none (some env.backfill_initial_delay_seconds)
          else if backfill_due_now
          then next_backfill_tick_after_attempt now (some env.backfill_interval_seconds) attempt.1
          else or_else m.next_backfill_tick_at now;
      next_coverage_tick_at =
          if not (is_some m.next_coverage_tick_at)
          then startup_coverage_deadline now none env.coverage_initial_delay_seconds
          else if coverage_due_now
          then next_coverage_tick_after_attempt now env.coverage_interval_seconds
          else or_else m.next_coverage_tick_at now;
      backfilled = backfill_due_now && not attempt.1;
      covered = covering;
      now = now;
    }

-- The write of `tickBackground`: it meets the row only in the generation that the tick read, running.
unfoldable pub write_background : BackgroundPlan → MonitoringState → MonitoringState
write_background p m =
    if m.generation == p.generation && is_running m.status
    then record m {
      next_backfill_tick_at = some p.next_backfill_tick_at;
      next_coverage_tick_at = some p.next_coverage_tick_at;
      last_backfill_tick_at = if p.backfilled then some p.now else m.last_backfill_tick_at;
      last_coverage_tick_at = if p.covered then some p.now else m.last_coverage_tick_at;
    }
    else m

-- A job of the backfill lane.
abbrev pub is_backfill_job : EnqueuedJob → Bool
is_backfill_job j = elim j.lane [ backfill ↦ true | _ ↦ false ]

-- A background tick leaves both deadlines no earlier than its time, and a deadline that it found due
-- behind it. Where OLX or RST was just scanned in realtime, it puts no backfill on a queue: it only
-- tries again ten seconds later, and records no cycle.
pub plan_background-deadlines :
    (env : BackgroundEnv) (a : Answers) (realtime_enqueued : ListingSource → Bool) (now : ℕ)
    (sources : List SourceRow) (m : MonitoringState)
    → let p = plan_background env a realtime_enqueued now sources m in
      (now ≤ p.next_backfill_tick_at)
      × (now ≤ p.next_coverage_tick_at)
      × (is_past now m.next_backfill_tick_at ≡ true → now < p.next_backfill_tick_at)
      × (is_past now m.next_coverage_tick_at ≡ true → now < p.next_coverage_tick_at)
      × (must_defer realtime_enqueued sources ≡ true
          → is_past now m.next_backfill_tick_at ≡ true
          → (p.next_backfill_tick_at ≡ now + 10000)
            × (p.backfilled ≡ false)
            × (any is_backfill_job p.jobs ≡ false))
unfolding plan_background enqueue_backfill startup_backfill_deadline startup_coverage_deadline
    next_backfill_tick_after_attempt next_coverage_tick_after_attempt
plan_background-deadlines env a realtime_enqueued now sources m = (
  ground arith,
  ground arith,
  λ d. ground arith,
  λ d. ground arith,
  λ x d. (ground arith, ground arith, ground arith),
)

-- A row of a source that may get a background job: it is not paused, and the source's check found the
-- tick's generation current and running.
abbrev pub is_permitted : Answers → ℕ → ListingSource → SourceRow → Bool
is_permitted a now source s =
    source_order s.source == source_order source
    && a.is_current s.source
    && not (is_after now s.paused_until)

backfill_jobs-permitted :
    (env : BackgroundEnv) (a : Answers) (generation now : ℕ) (source : ListingSource)
    (sources : List SourceRow)
    → count_by
        (λ j. source_order j.source == source_order source)
        (backfill_jobs env a generation now sources)
      ≤ count_by (λ s. is_permitted a now source s) sources
unfolding backfill_jobs backfill_turn
backfill_jobs-permitted env a generation now source [] = omega arith
backfill_jobs-permitted env a generation now source (s ∷ sources) =
    let rest = backfill_jobs-permitted env a generation now source sources in ground arith

-- No source gets more backfill jobs than it has rows that are not paused and whose generation, asked
-- for right before the job is put on its queue, is still the running one; so none of a paused source,
-- and none of a tick that a stop or a restart has overtaken.
pub enqueue_backfill-permitted :
    (env : BackgroundEnv) (a : Answers) (realtime_enqueued : ListingSource → Bool)
    (generation now : ℕ) (source : ListingSource) (sources : List SourceRow)
    → count_by
        (λ j. source_order j.source == source_order source)
        (enqueue_backfill env a realtime_enqueued generation now sources).0
      ≤ count_by (λ s. is_permitted a now source s) sources
unfolding enqueue_backfill
enqueue_backfill-permitted env a realtime_enqueued generation now source sources =
    ground (arith, backfill_jobs-permitted env a generation now source sources)
