-- ===== src/Origin/Request.antt =====
-- apps/worker/src/modules/olx-request-coordinator.ts: request classes, counters, queue entries,
-- what an operation returns or throws, and the order of the queue.
use Prim.Native.String.{String}
use auto_monitor_bot.Base.{ℕ, Bool, true, false, ◌&&◌, ◌||◌, List, Option, ltb, ◌==◌, sort_by}

-- `OlxRequestClass`.
pub data RequestClass : Type 0 where
  realtime coverage backfill recovery enrichment : RequestClass

-- `REQUEST_PRIORITY`.
abbrev pub request_priority : RequestClass → ℕ
request_priority realtime = 0
request_priority recovery = 1
request_priority coverage = 2
request_priority backfill = 3
request_priority enrichment = 4

abbrev pub is_realtime : RequestClass → Bool
is_realtime realtime = true
is_realtime _ = false

-- `RequestCounters`: one number for each class.
pub record RequestCounters : Type 0 where
  pub of_realtime : ℕ
  pub of_coverage : ℕ
  pub of_backfill : ℕ
  pub of_recovery : ℕ
  pub of_enrichment : ℕ

abbrev pub counter : RequestCounters → RequestClass → ℕ
counter n realtime = n.of_realtime
counter n coverage = n.of_coverage
counter n backfill = n.of_backfill
counter n recovery = n.of_recovery
counter n enrichment = n.of_enrichment

-- `counters[requestClass] = value`.
abbrev pub set_counter : RequestClass → ℕ → RequestCounters → RequestCounters
set_counter realtime v n = record n { of_realtime = v }
set_counter coverage v n = record n { of_coverage = v }
set_counter backfill v n = record n { of_backfill = v }
set_counter recovery v n = record n { of_recovery = v }
set_counter enrichment v n = record n { of_enrichment = v }

abbrev pub empty_counters : RequestCounters
empty_counters = record {
  of_realtime = 0;
  of_coverage = 0;
  of_backfill = 0;
  of_recovery = 0;
  of_enrichment = 0;
}

-- `OlxProtectionClassification`.
pub data Protection : Type 0 where
  rate_limited challenge access_denied : Protection

-- The `classification` of a value that an operation returns.
pub data Classification : Type 0 where
  success empty_result not_modified : Classification
  protected : Protection → Classification
  unclassified : String → Classification

-- What an operation resolves with, as `observeOutcome` reads it: `plain` is a value that is no
-- object; `none` a classification that is no text, or no `retryAfterSeconds`.
pub data Outcome : Type 0 where
  plain : Outcome
  outcome : (classification : Option Classification) (retry_after_seconds : Option ℕ) → Outcome

-- What a request is rejected with: the three error classes of the file, any other `Error` by its
-- name, and a thrown value that is no `Error`.
pub data Failure : Type 0 where
  circuit_open : Protection → (retry_after_seconds : ℕ) → Failure
  origin_deferred : Failure
  preempted : RequestClass → Failure
  error : String → Failure
  thrown : Failure

abbrev pub failure_name : Failure → String
failure_name (circuit_open _ _) = "OlxCircuitOpenError"
failure_name origin_deferred = "OlxOriginDeferredError"
failure_name (preempted _) = "OlxRequestPreemptedError"
failure_name (error name) = name
failure_name thrown = "UNKNOWN_ERROR"

abbrev pub is_preempted : Failure → Bool
is_preempted (preempted _) = true
is_preempted _ = false

-- `QueueEntry`; `id` stands for the caller's promise and its operation.
pub record Entry : Type 0 where
  pub id : ℕ
  pub request_class : RequestClass
  pub enqueued_at : ℕ
  pub coordinator_wait_ms : Option ℕ
  pub applied_post_finish_quiet_ms : Option ℕ
  pub operation_started_at : Option ℕ

-- The comparator of `sortQueue` is negative: by priority, then by age.
abbrev pub entry_before : Entry → Entry → Bool
entry_before left right =
    ltb (request_priority left.request_class) (request_priority right.request_class)
    || (request_priority left.request_class == request_priority right.request_class
        && ltb left.enqueued_at right.enqueued_at)

unfoldable pub sort_queue : List Entry → List Entry
unfolding sort_by
sort_queue queue = sort_by entry_before queue
