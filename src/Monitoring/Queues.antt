-- ===== src/Monitoring/Queues.antt =====
-- apps/worker/src/processors/collector-run-helpers.ts and apps/worker/src/modules/worker-roles.ts: where
-- a collector job is queued, which lock it takes, and which worker consumes a queue.
use auto_monitor_bot.Base.{Bool, true, false, ◌||◌, if◌then◌else◌}
use auto_monitor_bot.Domain.{Lane, realtime, backfill, coverage, manual, is_rst, is_backfill_lane}
use auto_monitor_bot.Monitoring.Jobs.{CollectorJob, coverage_only}

-- The scopes of `collectorLockScope`.
pub data LockScope : Type 0 where
  origin_scope coverage_scope realtime_scope backfill_scope manual_scope : LockScope

abbrev scope_of_lane : Lane → LockScope
scope_of_lane realtime = realtime_scope
scope_of_lane backfill = backfill_scope
scope_of_lane coverage = coverage_scope
scope_of_lane manual = manual_scope

unfoldable pub collector_lock_scope : CollectorJob → Lane → LockScope
collector_lock_scope job lane =
    if is_rst job.source
    then origin_scope
    else if coverage_only job lane
    then coverage_scope
    else scope_of_lane lane

-- `QUEUE_NAMES`.
pub data Queue : Type 0 where
  collector_run collector_coverage collector_backfill listing_detected listing_enrich : Queue
  telegram_send telegram_flash telegram_update observation_replay vehicle_check : Queue

-- `collectorQueueForJob`.
unfoldable pub collector_queue_for_job : CollectorJob → Lane → Queue
collector_queue_for_job job lane =
    if coverage_only job lane
    then collector_coverage
    else if is_backfill_lane lane
    then collector_backfill
    else collector_run

-- `WorkerRole`.
pub data WorkerRole : Type 0 where
  hot background every_role : WorkerRole

-- `HOT_QUEUES` and `BACKGROUND_QUEUES`.
unfoldable pub is_hot_queue : Queue → Bool
is_hot_queue observation_replay = false
is_hot_queue vehicle_check = false
is_hot_queue _ = true

unfoldable pub is_background_queue : Queue → Bool
is_background_queue observation_replay = true
is_background_queue vehicle_check = true
is_background_queue _ = false

-- `workerRoleConsumesQueue`.
unfoldable pub worker_role_consumes_queue : WorkerRole → Queue → Bool
worker_role_consumes_queue every_role q = is_hot_queue q || is_background_queue q
worker_role_consumes_queue hot q = is_hot_queue q
worker_role_consumes_queue background q = is_background_queue q
