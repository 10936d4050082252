-- ===== src/Monitoring/Collisions.antt =====
-- apps/worker/src/processors/collector-run-helpers.ts: `retryLockCollision`, and where the jobs of a
-- collector run.
use auto_monitor_bot.Base.{
  ℕ, suc, ◌+◌, ◌-◌, ◌*◌, ◌≤◌, ◌<◌, max, ◌≡◌, refl, Bool, true, false, not, ◌&&◌, ◌||◌, List, [],
  ◌∷◌, Option, none, some, arith, ltb, leb, if◌then◌else◌, or_else, if_cases, subst,
}
use auto_monitor_bot.Domain.{
  ListingSource, auto_ria, Lane, is_olx, is_rst, is_realtime_lane, is_backfill_lane,
  is_background_discovery_lane,
}
use auto_monitor_bot.Scheduling.Backfill.{BackfillProfile, full}
use auto_monitor_bot.Monitoring.Jobs.{
  BackfillBudgetLimits, backfill_scan_budget, CollectorJob, CollectorEnv, is_recovery_trigger,
  resolve_lane,
}
use auto_monitor_bot.Monitoring.Queues.{
  collector_lock_scope, Queue, collector_queue_for_job, hot, background, every_role,
  worker_role_consumes_queue, is_hot_queue, is_background_queue,
}

-- What `retryLockCollision` puts on a queue.
pub record Resubmission : Type 0 where
  pub job : CollectorJob
  pub queue : Queue
  pub delay : ℕ

abbrev is_auto_ria : ListingSource → Bool
is_auto_ria auto_ria = true
is_auto_ria _ = false

abbrev max_retries : CollectorEnv → Lane → ℕ
max_retries env lane = if is_background_discovery_lane lane then 1 else env.lock_retry_max

-- The early returns of `retryLockCollision`: the job is left to the run that holds the lock.
unfoldable pub is_coalesced : CollectorEnv → CollectorJob → Lane → Bool
is_coalesced env job lane =
    is_olx job.source && is_realtime_lane lane
    || is_rst job.source && is_background_discovery_lane lane
    || leb (max_retries env lane) (or_else job.lock_retry_count 0)

-- The job behind them, with the milliseconds that the lock still has, 0 where it has no expiry.
unfoldable pub resubmission : CollectorEnv → ℕ → CollectorJob → Lane → Resubmission
resubmission env ttl job lane =
    let retry_count = or_else job.lock_retry_count 0 in
    let delay = env.lock_retry_delay_ms * (retry_count + 1) in
    record {
      job = record job { lane = some lane; lock_retry_count = some (retry_count + 1) };
      queue = collector_queue_for_job job lane;
      delay =
          if (is_olx job.source || is_auto_ria job.source)
            && is_recovery_trigger job.trigger
            && is_backfill_lane lane
            && ltb 0 ttl
          then max delay (ttl + 250)
          else delay;
    }

-- `retryLockCollision`.
unfoldable pub retry_lock_collision : CollectorEnv → ℕ → CollectorJob → Lane → Option Resubmission
retry_lock_collision env ttl job lane =
    if is_coalesced env job lane then none else some (resubmission env ttl job lane)

-- How often a job that finds its lock taken each time, with the given rests of the lock, is put back.
unfoldable pub resubmissions : CollectorEnv → List ℕ → CollectorJob → ℕ
resubmissions env [] job = 0
resubmissions env (ttl ∷ ttls) job =
    let again = λ (o : Option Resubmission). elim o as (λ _. ℕ) [
      | none ↦ 0
      | some r ↦ suc (resubmissions env ttls r.job)
    ] in
    again (retry_lock_collision env ttl job (resolve_lane job))

-- Putting a job back keeps its lane.
resolve_lane-resubmitted :
    (job : CollectorJob) (n : ℕ)
    → resolve_lane (record job { lane = some (resolve_lane job); lock_retry_count = some n })
      ≡ resolve_lane job
unfolding resolve_lane
resolve_lane-resubmitted job n = ground arith

resubmitted :
    (env : CollectorEnv) (ttl : ℕ) (job : CollectorJob) (r : Resubmission)
    → retry_lock_collision env ttl job (resolve_lane job) ≡ some r
    → resubmission env ttl job (resolve_lane job) ≡ r
unfolding retry_lock_collision
resubmitted env ttl job r h = ground arith

resubmission-same_place :
    (env : CollectorEnv) (ttl : ℕ) (job : CollectorJob)
    → let x = resubmission env ttl job (resolve_lane job) in
      (resolve_lane x.job ≡ resolve_lane job)
      × (x.queue ≡ collector_queue_for_job job (resolve_lane job))
      × (collector_queue_for_job x.job (resolve_lane x.job) ≡ x.queue)
      × (collector_lock_scope x.job (resolve_lane x.job)
          ≡ collector_lock_scope job (resolve_lane job))
      × (is_olx job.source
              && is_recovery_trigger job.trigger
              && is_backfill_lane (resolve_lane job)
              && ltb 0 ttl
            ≡ true
          → ttl < x.delay)
unfolding resubmission collector_queue_for_job collector_lock_scope
resubmission-same_place env ttl job =
    let same = resolve_lane-resubmitted job (or_else job.lock_retry_count 0 + 1) in
    rw same (refl, refl, refl, refl, λ e. ground arith)

-- A job that is put back goes to the queue that it came from, in its lane, for its lock, and not
-- before OLX's lock of a recovery, where it has an expiry, is over.
pub retry_lock_collision-same_place :
    (env : CollectorEnv) (ttl : ℕ) (job : CollectorJob) (r : Resubmission)
    → retry_lock_collision env ttl job (resolve_lane job) ≡ some r
    → (resolve_lane r.job ≡ resolve_lane job)
      × (r.queue ≡ collector_queue_for_job job (resolve_lane job))
      × (collector_queue_for_job r.job (resolve_lane r.job) ≡ r.queue)
      × (collector_lock_scope r.job (resolve_lane r.job)
          ≡ collector_lock_scope job (resolve_lane job))
      × (is_olx job.source
              && is_recovery_trigger job.trigger
              && is_backfill_lane (resolve_lane job)
              && ltb 0 ttl
            ≡ true
          → ttl < r.delay)
unfolding retry_lock_collision
retry_lock_collision-same_place env ttl job r h =
    subst
      (λ x.
        (resolve_lane x.job ≡ resolve_lane job)
        × (x.queue ≡ collector_queue_for_job job (resolve_lane job))
        × (collector_queue_for_job x.job (resolve_lane x.job) ≡ x.queue)
        × (collector_lock_scope x.job (resolve_lane x.job)
            ≡ collector_lock_scope job (resolve_lane job))
        × (is_olx job.source
                && is_recovery_trigger job.trigger
                && is_backfill_lane (resolve_lane job)
                && ltb 0 ttl
              ≡ true
            → ttl < x.delay))
      (resubmitted env ttl job r h) (resubmission-same_place env ttl job)

abbrev pub retries_left : CollectorEnv → CollectorJob → ℕ
retries_left env job =
    (if is_olx job.source && is_realtime_lane (resolve_lane job)
      then 0
      else if is_rst job.source && is_background_discovery_lane (resolve_lane job)
      then 0
      else max_retries env (resolve_lane job))
    - or_else job.lock_retry_count 0

retries_left-coalesced :
    (env : CollectorEnv) (ttl : ℕ) (job : CollectorJob)
    → is_coalesced env job (resolve_lane job) ≡ false
    → suc (retries_left env (resubmission env ttl job (resolve_lane job)).job)
      ≤ retries_left env job
unfolding is_coalesced resubmission
retries_left-coalesced env ttl job h =
    rw (resolve_lane-resubmitted job (or_else job.lock_retry_count 0 + 1)) (ground arith)

-- However often a job finds its lock taken, it is put back no more often than its lane allows: never
-- in OLX's realtime and in RST's background lanes, once in the other background lanes, and else as
-- often as configured, less the retries that it has behind it.
pub resubmissions-bounded :
    (env : CollectorEnv) (ttls : List ℕ) (job : CollectorJob)
    → resubmissions env ttls job ≤ retries_left env job
unfolding resubmissions retry_lock_collision
resubmissions-bounded env [] job = omega arith
resubmissions-bounded env (ttl ∷ ttls) job =
    let rest = resubmissions-bounded env ttls (resubmission env ttl job (resolve_lane job)).job in
    if_cases
      (λ (o : Option Resubmission).
        (elim o as (λ _. ℕ) [ none ↦ 0 | some r ↦ suc (resubmissions env ttls r.job) ])
        ≤ retries_left env job)
      (is_coalesced env job (resolve_lane job)) (λ coalesced. omega arith)
      (λ retried. omega (arith, rest, retries_left-coalesced env ttl job retried))

-- Every queue is consumed by exactly one of the dedicated workers, and by the worker of every role;
-- and the queues of collector jobs by the hot worker, whichever job and lane.
pub worker_role_consumes_queue-one_role :
    (q : Queue) (job : CollectorJob) (lane : Lane)
    → (worker_role_consumes_queue every_role q ≡ true)
      × (worker_role_consumes_queue hot q ≡ not (worker_role_consumes_queue background q))
      × (worker_role_consumes_queue hot (collector_queue_for_job job lane) ≡ true)
unfolding worker_role_consumes_queue is_hot_queue is_background_queue collector_queue_for_job
worker_role_consumes_queue-one_role q job lane = (ground arith, ground arith, ground arith)

-- A light backfill asks for no more than a full one would, in pages, candidates and time; and of the
-- budgets of a configuration with positive limits, every one is positive.
pub backfill_scan_budget-bounded :
    (source : ListingSource) (lane : Lane) (requested : Option BackfillProfile)
    (limits : BackfillBudgetLimits)
    → 0 < limits.default_pages
    → let budget = backfill_scan_budget source lane requested limits in
      let whole = backfill_scan_budget source lane (some full) limits in
      (budget.max_pages ≤ whole.max_pages)
      × (budget.max_candidates ≤ whole.max_candidates)
      × (budget.max_duration_ms ≤ whole.max_duration_ms)
      × (0 < budget.max_pages)
      × (0 < budget.max_candidates)
      × (1000 ≤ budget.max_duration_ms)
unfolding backfill_scan_budget
backfill_scan_budget-bounded source lane requested limits h =
    (ground arith, ground arith, ground arith, ground arith, ground arith, ground arith)
