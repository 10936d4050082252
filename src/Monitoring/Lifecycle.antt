-- ===== src/Monitoring/Lifecycle.antt =====
-- apps/api/src/modules/monitoring/orchestrator.ts: `start`, `stop` and `resumeIfRunning`, and their
-- histories with the writes of the ticks. `start` is cut at its awaits. The histories leave
-- `resumeIfRunning` out, which runs once, when the process starts. Dates are milliseconds.
use auto_monitor_bot.Base.{
  ℕ, suc, ◌≤◌, ◌<◌, ◌≡◌, refl, Bool, true, false, not, ◌&&◌, ◌||◌, List, [], ◌∷◌, Option, none,
  some, arith, if◌then◌else◌, is_some,
}
use auto_monitor_bot.Worker.Deadlines.{manual_trigger}
use auto_monitor_bot.Monitoring.Jobs.{
  MonitoringStatus, running, stopped, starting, is_running, MonitoringView, CollectorJob,
  scheduled_job_is_stale,
}
use auto_monitor_bot.Monitoring.Deadlines.{startup_coverage_deadline, startup_backfill_deadline}
use auto_monitor_bot.Monitoring.Orchestrator.{MonitoringState, created_state}
use auto_monitor_bot.Monitoring.Background.{BackgroundPlan, BackgroundEnv, write_background}

-- The row of the monitoring, and what the object remembers of it: `running`, and, of a `start` under
-- way, the status that it read.
pub record Monitor : Type 0 where
  pub state : MonitoringState
  pub is_active : Bool
  pub start_read : Option MonitoringStatus

unfoldable pub new_monitor : Monitor
unfolding created_state
new_monitor = record { state = created_state; is_active = false; start_read = none }

abbrev pub is_stopped : MonitoringStatus → Bool
is_stopped stopped = true
is_stopped _ = false

-- `start` up to the status `STARTING`.
unfoldable pub begin_start : Monitor → Monitor
begin_start m =
    if is_running m.state.status && m.is_active
    then m
    else record m { state = record m.state { status = starting }; start_read = some m.state.status }

-- The end of `start`, with its update.
unfoldable pub finish_start : BackgroundEnv → ℕ → Monitor → Monitor
finish_start env now m = elim m.start_read [
  | none ↦ m
  | some read ↦ record {
    state = record m.state {
      status = running;
      generation = if is_running read then m.state.generation else suc m.state.generation;
      started_at = some now;
      stopped_at = none;
      next_backfill_tick_at =
          some (startup_backfill_deadline now none (some env.backfill_initial_delay_seconds));
      next_coverage_tick_at =
          some (startup_coverage_deadline now none env.coverage_initial_delay_seconds);
    };
    is_active = true;
    start_read = none;
  }
]

-- `stop`.
unfoldable pub stop : ℕ → Monitor → Monitor
stop now m = record m {
  state = record m.state {
    status = stopped;
    stopped_at = if is_stopped m.state.status then m.state.stopped_at else some now;
    next_tick_at = none;
    next_backfill_tick_at = none;
    next_coverage_tick_at = none;
  };
  is_active = false;
}

abbrev is_interrupted : MonitoringStatus → Bool
is_interrupted running = true
is_interrupted starting = true
is_interrupted _ = false

-- `resumeIfRunning`: an interrupted monitoring goes on in its generation.
unfoldable pub resume_if_running : BackgroundEnv → ℕ → Monitor → Monitor
resume_if_running env now m = if not (is_interrupted m.state.status) then m else record m {
  state = record m.state {
    next_backfill_tick_at = some (
        startup_backfill_deadline now m.state.next_backfill_tick_at
          (some env.backfill_initial_delay_seconds));
    next_coverage_tick_at = some (
        startup_coverage_deadline now m.state.next_coverage_tick_at
          env.coverage_initial_delay_seconds);
  };
  is_active = true;
}

-- The write of a realtime tick.
unfoldable pub write_tick : ℕ → Monitor → Monitor
write_tick now m = record m { state = record m.state { last_tick_at = some now } }

-- `tick` finds the monitoring not running.
unfoldable pub observe_status : Monitor → Monitor
observe_status m = if is_running m.state.status then m else record m { is_active = false }

-- The write of `scheduleNext`.
unfoldable pub write_next_tick : ℕ → Monitor → Monitor
write_next_tick at m = record m { state = record m.state { next_tick_at = some at } }

pub data MonitorEvent : Type 0 where
  start_begins observes : MonitorEvent
  start_ends stops ticks sleeps_until : ℕ → MonitorEvent
  background_writes : BackgroundPlan → MonitorEvent

unfoldable pub monitor_step : BackgroundEnv → MonitorEvent → Monitor → Monitor
monitor_step env start_begins m = begin_start m
monitor_step env observes m = observe_status m
monitor_step env (start_ends now) m = finish_start env now m
monitor_step env (stops now) m = stop now m
monitor_step env (ticks now) m = write_tick now m
monitor_step env (sleeps_until at) m = write_next_tick at m
monitor_step env (background_writes p) m = record m { state = write_background p m.state }

unfoldable pub run_monitor : BackgroundEnv → List MonitorEvent → Monitor → Monitor
run_monitor env [] m = m
run_monitor env (ev ∷ evs) m = run_monitor env evs (monitor_step env ev m)

-- A monitoring that does not run has no deadline of the background part.
abbrev pub is_quiet : MonitoringState → Bool
is_quiet s =
    not (is_stopped s.status)
    || not (is_some s.next_backfill_tick_at) && not (is_some s.next_coverage_tick_at)

step-is_quiet :
    (env : BackgroundEnv) (ev : MonitorEvent) (m : Monitor)
    → is_quiet m.state ≡ true
    → is_quiet (monitor_step env ev m).state ≡ true
unfolding monitor_step begin_start observe_status finish_start stop write_tick write_next_tick
    write_background
step-is_quiet env start_begins m h = ground arith
step-is_quiet env observes m h = ground arith
step-is_quiet env (start_ends now) m h = ground arith
step-is_quiet env (stops now) m h = ground arith
step-is_quiet env (ticks now) m h = ground arith
step-is_quiet env (sleeps_until at) m h = ground arith
step-is_quiet env (background_writes p) m h = ground arith

step-generation :
    (env : BackgroundEnv) (ev : MonitorEvent) (m : Monitor)
    → m.state.generation ≤ (monitor_step env ev m).state.generation
unfolding monitor_step begin_start observe_status finish_start stop write_tick write_next_tick
    write_background
step-generation env start_begins m = ground arith
step-generation env observes m = ground arith
step-generation env (start_ends now) m = ground arith
step-generation env (stops now) m = ground arith
step-generation env (ticks now) m = ground arith
step-generation env (sleeps_until at) m = ground arith
step-generation env (background_writes p) m = ground arith

run_monitor-generation :
    (env : BackgroundEnv) (evs : List MonitorEvent) (m : Monitor)
    → m.state.generation ≤ (run_monitor env evs m).state.generation
unfolding run_monitor
run_monitor-generation env [] m = omega arith
run_monitor-generation env (ev ∷ evs) m =
    omega (arith, step-generation env ev m, run_monitor-generation env evs (monitor_step env ev m))

run_monitor-is_quiet :
    (env : BackgroundEnv) (evs : List MonitorEvent) (m : Monitor)
    → is_quiet m.state ≡ true
    → is_quiet (run_monitor env evs m).state ≡ true
unfolding run_monitor
run_monitor-is_quiet env [] m h = h
run_monitor-is_quiet env (ev ∷ evs) m h =
    run_monitor-is_quiet env evs (monitor_step env ev m) (step-is_quiet env ev m h)

-- In any history of starts, stops and writes of ticks, those of ticks that began in an earlier
-- generation included: a monitoring that is stopped has neither a backfill nor a coverage deadline,
-- and the background write of a tick then changes nothing.
pub run_monitor-stays_stopped :
    (env : BackgroundEnv) (evs : List MonitorEvent) (p : BackgroundPlan)
    → let s = (run_monitor env evs new_monitor).state in
      is_stopped s.status ≡ true
      → (s.next_backfill_tick_at ≡ none)
        × (s.next_coverage_tick_at ≡ none)
        × (write_background p s ≡ s)
unfolding write_background new_monitor created_state
run_monitor-stays_stopped env evs p h =
    let quiet = run_monitor-is_quiet env evs new_monitor refl in
    (ground arith, ground arith, ground arith)

-- The view of a worker.
abbrev pub view_of : ℕ → MonitoringState → MonitoringView
view_of pending s = record {
  status = s.status;
  generation = s.generation;
  pending_recovery_count = pending;
}

abbrev pub is_by_hand : CollectorJob → Bool
is_by_hand job = elim job.trigger [
  | none ↦ job.manual
  | some manual_trigger ↦ true
  | some _ ↦ false
]

-- A stop and a start begin a new generation: from then on, and whatever happens later, a worker drops
-- every job of the generations before, except those that were asked for by hand; and the background
-- writes of the ticks of those generations change nothing.
pub run_monitor-drops_old_jobs :
    (env : BackgroundEnv) (evs : List MonitorEvent) (m : Monitor)
    (stopped_at started_at now pending : ℕ) (job : CollectorJob) (generation : ℕ)
    (p : BackgroundPlan)
    → generation ≤ m.state.generation
    → job.monitoring_generation ≡ some generation
    → is_by_hand job ≡ false
    → p.generation ≡ generation
    → let later =
        run_monitor env evs (finish_start env started_at (begin_start (stop stopped_at m))) in
      (generation < later.state.generation)
      × (scheduled_job_is_stale true true now (some (view_of pending later.state)) job ≡ true)
      × (write_background p later.state ≡ later.state)
unfolding begin_start finish_start stop scheduled_job_is_stale write_background
run_monitor-drops_old_jobs env evs m stopped_at started_at now pending job generation p g e b q =
    let restarted = finish_start env started_at (begin_start (stop stopped_at m)) in
    let grown = run_monitor-generation env evs restarted in
    (ground arith, ground arith, ground arith)
