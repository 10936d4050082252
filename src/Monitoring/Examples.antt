-- ===== src/Monitoring/Examples.antt =====
-- The monitoring at concrete inputs.
use auto_monitor_bot.Base.{
  any, max, ℕ, ◌+◌, ◌≤◌, ◌<◌, ◌≡◌, refl, true, false, ◌&&◌, List, [], ◌∷◌, Option, none, some,
  arith, ◌==◌, count_by, All, IsSortedBy,
}
use auto_monitor_bot.Domain.{ListingSource, auto_ria, olx, rst, backfill, active, is_olx}
use auto_monitor_bot.Worker.Deadlines.{recovery}
use auto_monitor_bot.Scheduling.Backfill.{Evidence}
use auto_monitor_bot.Monitoring.Deadlines.{source_order}
use auto_monitor_bot.Monitoring.Jobs.{
  CollectorJob, CollectorEnv, resolve_lane, scheduled_job_is_stale, stopped,
}
use auto_monitor_bot.Monitoring.Collisions.{
  Resubmission, is_coalesced, resubmission, retry_lock_collision, resubmissions, retries_left,
  resubmissions-bounded,
}
use auto_monitor_bot.Monitoring.Orchestrator.{
  SourceRow, MonitoringState, created_state, source_due, tick_realtime,
}
use auto_monitor_bot.Monitoring.Ticks.{is_of, job_before, tick_realtime-due}
use auto_monitor_bot.Monitoring.Background.{
  BackgroundEnv, Answers, BackgroundPlan, is_past, must_defer, plan_background, write_background,
  plan_background-deadlines, is_backfill_job,
}
use auto_monitor_bot.Monitoring.Lifecycle.{
  Monitor, MonitorEvent, start_begins, start_ends, stops, background_writes, new_monitor,
  begin_start, finish_start, stop, view_of, monitor_step, run_monitor, run_monitor-stays_stopped,
  run_monitor-drops_old_jobs,
}
use auto_monitor_bot.Monitoring.Protection.{
  IncidentEvent, records, probes, resolves, is_unresolved, run_incidents, run_incidents-one_active,
}
use auto_monitor_bot.Base.{◌-◌}
use auto_monitor_bot.Domain.{realtime}
use auto_monitor_bot.Monitoring.Dispatch.{
  DispatchEnv, handed_on, single_inline_count, has_burst, dispatch_listings,
  dispatch_listings-handed_on,
}

abbrev row : ListingSource → Option ℕ → SourceRow
row source next_check_at = record {
  source = source;
  enabled = true;
  status = active;
  paused_until = none;
  next_check_at = next_check_at;
}

abbrev rows : List SourceRow
rows = row rst (some 5000) ∷ row olx none ∷ row auto_ria (some 90000) ∷ []

tick_realtime-due_example :
    let out = tick_realtime (λ s. 30000) (λ s. true) 1 6000 rows in
    (count_by (λ j. source_order j.source == source_order olx) out.0
      ≡ count_by (λ s. (s.enabled && true) && (is_of s olx && source_due s 6000)) rows)
    × IsSortedBy job_before out.0
    × All (λ s. source_due s 6000 ≡ false) out.1
tick_realtime-due_example =
    tick_realtime-due (λ s. 30000) (λ s. true) 1 6000 rows olx (λ s. omega arith)

abbrev env : BackgroundEnv
env = record {
  auto_ria_public = true;
  backfill_interval_seconds = 900;
  olx_backfill_min_interval_seconds = 600;
  backfill_initial_delay_seconds = 120;
  coverage_initial_delay_seconds = 30;
  coverage_interval_seconds = 300;
}

abbrev no_evidence : Evidence
no_evidence = record {
  runs = [];
  unresolved_observation_count = 0;
  pending_recovery_count = none;
  unresolved_recovery = none;
  realtime_anomaly_at = none;
  adverse_audit_at = none;
}

abbrev answers : Answers
answers = record { recovery_due = λ s. true; evidence = no_evidence; is_current = λ s. true }

abbrev due_state : MonitoringState
due_state = record {
  status = stopped;
  generation = 1;
  started_at = none;
  stopped_at = none;
  next_tick_at = none;
  last_tick_at = none;
  next_backfill_tick_at = some 5000;
  last_backfill_tick_at = none;
  next_coverage_tick_at = some 5500;
  last_coverage_tick_at = none;
}

plan_background-deadlines_example :
    let p = plan_background env answers is_olx 6000 rows due_state in
    (6000 ≤ p.next_backfill_tick_at)
    × (6000 ≤ p.next_coverage_tick_at)
    × (is_past 6000 (some 5000) ≡ true → 6000 < p.next_backfill_tick_at)
    × (is_past 6000 (some 5500) ≡ true → 6000 < p.next_coverage_tick_at)
    × (must_defer is_olx rows ≡ true
        → is_past 6000 (some 5000) ≡ true
        → (p.next_backfill_tick_at ≡ 6000 + 10000)
          × (p.backfilled ≡ false)
          × (any is_backfill_job p.jobs ≡ false))
plan_background-deadlines_example = plan_background-deadlines env answers is_olx 6000 rows due_state

-- A background tick of the first generation writes behind the stop.
abbrev late_plan : BackgroundPlan
late_plan = record {
  jobs = [];
  generation = 1;
  next_backfill_tick_at = 900000;
  next_coverage_tick_at = 400000;
  backfilled = true;
  covered = true;
  now = 6000;
}

abbrev stopped_history : List MonitorEvent
stopped_history = start_begins ∷ start_ends 1000 ∷ stops 7000 ∷ background_writes late_plan ∷ []

stopped_monitor : Monitor
unfolding run_monitor monitor_step begin_start finish_start stop write_background new_monitor
    created_state
stopped_monitor = run_monitor env stopped_history new_monitor

run_monitor-stays_stopped_example :
    let s = (run_monitor env stopped_history new_monitor).state in
    (s.next_backfill_tick_at ≡ none)
    × (s.next_coverage_tick_at ≡ none)
    × (write_background late_plan s ≡ s)
unfolding stopped_monitor
run_monitor-stays_stopped_example = run_monitor-stays_stopped env stopped_history late_plan refl

abbrev old_job : CollectorJob
old_job = record {
  source = olx;
  trigger = some recovery;
  lane = some backfill;
  manual = false;
  lock_retry_count = none;
  backfill_profile = none;
  monitoring_generation = some 1;
  scheduled_at = some 5000;
}

abbrev monitor : Monitor
monitor = record { state = due_state; is_active = true; start_read = none }

run_monitor-drops_old_jobs_example :
    let later =
      run_monitor env
        (background_writes late_plan ∷ [])
        (finish_start env 8000 (begin_start (stop 7000 monitor))) in
    (1 < later.state.generation)
    × (scheduled_job_is_stale true true 9000 (some (view_of 2 later.state)) old_job ≡ true)
    × (write_background late_plan later.state ≡ later.state)
run_monitor-drops_old_jobs_example =
    run_monitor-drops_old_jobs env (background_writes late_plan ∷ []) monitor 7000 8000 9000 2
      old_job 1 late_plan (omega arith) refl refl refl

abbrev collector_env : CollectorEnv
collector_env = record {
  limits = record {
    default_pages = 3;
    olx_full_pages = 20;
    max_candidates = 1000;
    max_duration_ms = 90000;
  };
  auto_ria_public = true;
  coverage_duration_ms = 20000;
  scan_duration_ms = 15000;
  realtime_max_candidates = 100;
  lock_retry_max = 3;
  lock_retry_delay_ms = 2000;
}

retried : Option Resubmission
unfolding retry_lock_collision is_coalesced resubmission resolve_lane
retried = retry_lock_collision collector_env 40000 old_job (resolve_lane old_job)

resubmissions-bounded_example :
    resubmissions collector_env (40000 ∷ 30000 ∷ 20000 ∷ []) old_job
    ≤ retries_left collector_env old_job
resubmissions-bounded_example =
    resubmissions-bounded collector_env (40000 ∷ 30000 ∷ 20000 ∷ []) old_job

abbrev incident_events : List IncidentEvent
incident_events =
    records false 1000 61000
    ∷ probes 61000
    ∷ records true 62000 182000
    ∷ resolves 183000
    ∷ records false 190000 250000
    ∷ []

run_incidents-one_active_example : count_by is_unresolved (run_incidents incident_events []) ≤ 1
run_incidents-one_active_example = run_incidents-one_active incident_events [] (omega arith)

abbrev dispatch_env : DispatchEnv
dispatch_env = record {
  flash_enabled = true;
  flash_min_items = 3;
  flash_max_items = 3;
  inline_limit = 2;
}

abbrev batch : List ℕ
batch = 11 ∷ 12 ∷ 13 ∷ 14 ∷ 15 ∷ []

dispatch_listings-handed_on_example :
    let out = dispatch_listings dispatch_env realtime batch 1 in
    (handed_on out.0 ≡ batch)
    × (single_inline_count out.0 ≤ 2 - 1)
    × (1 + single_inline_count out.0 ≤ out.1)
    × (out.1 ≤ max 1 2)
    × (has_burst out.0 ≡ true → out.1 ≡ max 1 2)
dispatch_listings-handed_on_example = dispatch_listings-handed_on dispatch_env realtime batch 1
