-- ===== src/Lib.antt =====
-- Verification library of auto-monitor-bot, a monitor of car listings. An API with a scheduler
-- (apps/api) enqueues collector runs; workers (apps/worker) fetch the search pages of the sources,
-- match listings against filters, and hand them to Telegram; both share packages/shared (types and
-- utilities) and packages/db (PostgreSQL); Redis carries queues, leases and rate limits. What makes
-- the program hard is to stay within what the origin of OLX tolerates: one request at a time, pauses
-- after a protection response, experiments with a faster cadence that are rolled back, and a slow
-- recovery. The library models that logic, and the way of a listing to Telegram, in the source's words.
--
-- Files and what they model:
--   Base, with its children: tests on numbers, lists, sorting, texts; no code of the repository.
--   Domain: enumerations of packages/shared/src/types/listing.ts, types/monitoring.ts and
--     packages/db/prisma/schema.prisma.
--   Shared/Metrics: packages/shared/src/utils/metrics.ts.
--   Protection/Pauses: packages/shared/src/utils/jitter.ts (`protectionPauseSeconds`) and
--     apps/worker/src/modules/source-protection-policy.ts.
--   Origin: apps/worker/src/modules/olx-request-coordinator.ts. Origin/Request has the entries of its
--     queue, Origin/Canary the class `RealtimeQuietCanary`, Origin/State the fields, the constructor
--     and the waiting times of `OlxRequestCoordinator`, Origin/Coordinator/Drain its `run` (`submit`)
--     and `drain`, and Origin/Coordinator its `execute`, cut at the awaits. `Event` and `step` are
--     the points at which the event loop goes on, `run_events` is a history of them. Origin/Steps has
--     a proof rule for invariants; the other files are named for what they prove.
--   Scheduling/Backfill: apps/api/src/modules/monitoring/backfill-policy.ts. Scheduling/Cadence and
--     Scheduling/History: olx-realtime-cadence.ts and effective-cadence.ts beside it.
--     Scheduling/CadenceCanary: olx-cadence-canary-policy.ts beside it. Model has the data of each.
--   Worker: policies of apps/worker/src/modules. OriginPolicy: `createOlxOriginPolicy` of
--     olx-request-coordinator.ts; Cooling: olx-protection-cooling.ts, olx-parity-policy.ts; Incident:
--     challenge-incident-policy.ts; RecoveryProgress: recovery-progress.ts; Deadlines:
--     olx-outage-detection.ts, scheduled-job-policy.ts; LaneArbiter: olx-lane-arbiter.ts;
--     Parallel: bounded-parallel.ts, with Pending and Completion about it.
--   Delivery: Gate and Spacing: packages/shared/src/utils/telegram-send-gate.ts with its Redis scripts;
--     Completeness: apps/worker/src/modules/completeness-contract.ts; Dispatch:
--     first-notification-dispatch.ts beside it; Burst: `splitFirstSignalListings` of
--     telegram-first-signal.ts, telegram-flash-policy.ts, realtime-dispatch-policy.ts.
--   Lease: who may act. Leadership: apps/worker/src/modules/hot-worker-leadership.ts, with the Redis key
--     that its instances share; Collector: collector-lease.ts; Claim: hot-duplicate-guard.ts; Telegram:
--     telegram-send-lease.ts, all beside it. Exclusion and Stopping are named for what they prove.
--   Quota: apps/worker/src/modules/auto-ria-quota.ts. Budget has the script of Redis and the counters in
--     memory, Agreement compares them, History has the histories of requests that Window is about.
--   Filters: Freshness: packages/shared/src/utils/freshness.ts, with Periods about it; Geography: the
--     selection in packages/shared/src/data/ukraine-regions.ts; Data, Checks and Engine:
--     apps/worker/src/modules/filter-engine.ts, with Refinement, Enrichment and Match about
--     it.
--   Recovery: the recovery of coverage in apps/worker/src/modules/source-search-plan.ts. Plan has
--     `planCoverageRecovery` and the functions beside it, State and Scan `markSourceSearchSuccess` on
--     the fields of a recovery, Windows is about histories of scans. Alert: recovery-unresolved-alert.ts
--     beside it, with Chronic about a chronic episode.
--   Login: Limit: apps/api/src/modules/dashboard-login-rate-limit.ts and the login handler of
--     apps/api/src/routes/dashboard-auth.ts; Attempts is about sequences of logins.
--   Telegram: apps/worker/src/modules/telegram-service.ts. Policy has its statuses, retry delays and the
--     classification of failures, Card the row of a card with its conditional updates, Senders
--     `sendListingLinkToChat` run by several senders, cut at the awaits (`run_delivery` is a history),
--     Send the calls of the Bot API, Cleanup `cleanupListingTelegramMessage`; Receipt, Accepted,
--     Fencing and Retry are about the histories. FirstSignals: the transaction of `queueTelegramFirstSignals` in
--     telegram-first-signal.ts beside it, for one chat, with Bundles, Listed and Admission about it.
--   Monitoring: Orchestrator, Background and Lifecycle: apps/api/src/modules/monitoring/orchestrator.ts;
--     Deadlines: coverage-schedule.ts, startup-backfill-policy.ts and realtime-source-priority.ts
--     beside it; Jobs, Queues and Collisions: apps/worker/src/processors/collector-run-helpers.ts with
--     apps/worker/src/modules/backfill-profile.ts and worker-roles.ts; Response:
--     `handleExternalProtection` there, with source-health-ownership.ts; Dispatch: `dispatchListings`;
--     Protection: challenge-incident.ts. Ticks is about the orchestrator.
--   Hygiene: SearchStates: packages/shared/src/utils/source-search-state-hygiene.ts, with Groups,
--     Preserved and Successors about it; Overlap and Duplicates: filter-hygiene.ts beside it, with
--     Symmetry about it.
--   Each Examples module holds tests and the theorems at concrete inputs.
--
-- How the parts interact: the coordinator asks the origin policy before each request (a guard that
-- resolves or rejects, as an event); the scheduler's effective cadence is computed from the recovery
-- ramp and the cadence canary; the canary reads the summaries of Shared/Metrics. A
-- scan plans a recovery by the missed deadline of Worker/Deadlines and paces it by
-- Worker/RecoveryProgress; the filter engine asks Filters/Freshness and Filters/Geography. The
-- orchestrator's background tick asks Scheduling/Backfill, and the generation that a start of it begins
-- is what Monitoring/Jobs compares before a worker runs a job.
--
-- Conventions: times are whole milliseconds in the native numbers, and one clock value stands for
-- each synchronous stretch of code; the differences of times that the source clamps at 0 are
-- subtractions that stop at 0. An optional number is an `Option`; a ratio stands in percent; dates
-- are valid. A promise is an id, an `AbortController` a flag. The loops are structural: `drain_loop`
-- runs over the queue that it shortens, so no fuel is needed. The texts of reasons are left out, or
-- are values where the code stores them.
--
-- An error of Telegram is the record of what the expressions of the source find in its message; the
-- random factor of a retry delay counts thousandths and is computed exactly.
--
-- Not modelled: the collectors' parsing of pages, HTTP, Prisma and BullMQ, the Telegram client, the
-- normalisation and recognition of texts by regular expressions, the calendar of `Intl`, the validation
-- of the attributes of a category, the dashboard, the scripts, and the code that logs or reports. Of a
-- scan's transaction, what does not take part in a recovery: cursors, fingerprints, counters of pages
-- and requests.
pub mod Base
pub mod Domain
pub mod Shared
pub mod Protection
pub mod Origin
pub mod Scheduling
pub mod Worker
pub mod Delivery
pub mod Lease
pub mod Quota
pub mod Filters
pub mod Recovery
pub mod Login
pub mod Telegram
pub mod Hygiene
pub mod Monitoring
