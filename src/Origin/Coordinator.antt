-- ===== src/Origin/Coordinator.antt =====
-- apps/worker/src/modules/olx-request-coordinator.ts: the methods of `OlxRequestCoordinator`, as
-- steps between its awaits. Of the child Drain, `submit` is `run`; `drain` with `drain_loop` is the worker loop, which
-- stops at a sleep and is taken up by `wake`; `guard_passed`, `guard_failed`, `operation_resolved`
-- and `operation_rejected` take `execute` up behind its two awaits. An `onStarted` that throws is
-- `guard_passed` with `operation_rejected` behind it.
mod Drain
unfoldable pub use Drain.*
use auto_monitor_bot.Base.{
  ℕ, ◌+◌, ◌-◌, ◌*◌, max, Bool, true, false, not, ◌&&◌, List, [], ◌∷◌, ◌++◌, Option, none, some, ltb,
  ◌==◌, if◌then◌else◌, or_else, length, filter,
}
use auto_monitor_bot.Origin.Request.{
  RequestClass, is_realtime, counter, set_counter, Protection, rate_limited, challenge,
  access_denied, Classification, protected, Outcome, plain, outcome, Failure, preempted,
  failure_name, is_preempted, Entry, sort_queue,
}
use auto_monitor_bot.Origin.Canary.{observe_queue_depth, observe_failure, observe_result}
use auto_monitor_bot.Origin.State.{
  Config, Settlement, resolved, rejected, Execution, Stats, Coordinator, is_after, circuit_error,
  post_finish_quiet_ms, wait_ms,
}

-- The pending call of `execute` for an id, in one of its two waits, and the others.
unfoldable pub take_execution : Bool → ℕ → List Execution → Option (Execution × List Execution)
take_execution operating id [] = none
take_execution operating id (x ∷ xs) =
    let rest = take_execution operating id xs in
    if has_id id x && (if operating then x.operating else not x.operating)
    then some (x, xs)
    else (elim rest [ none ↦ none | some (y, ys) ↦ some (y, x ∷ ys) ])

abbrev clear_active : ℕ → Option ℕ → Option ℕ
clear_active id none = none
clear_active id (some active) = if active == id then none else some active

-- The `finally` of `execute`, before it drains; `x` is no longer among the executions.
unfoldable pub release_slot : ℕ → Bool → Entry → Coordinator → Coordinator
release_slot now was_preempted e s =
    let hot = is_realtime e.request_class in
    let c = e.request_class in
    let n = s.stats in
    record s {
      active_realtime = if hot then s.active_realtime - 1 else s.active_realtime;
      last_realtime_finished_at = if hot then some now else s.last_realtime_finished_at;
      active_background = if hot then s.active_background else s.active_background - 1;
      active_background_entry =
          if hot then s.active_background_entry else clear_active e.id s.active_background_entry;
      stats =
          if was_preempted
          then n
          else record n { completed = set_counter c (counter n.completed c + 1) n.completed };
      last_request_finished_at = if was_preempted then s.last_request_finished_at else some now;
      last_completed_request_class =
          if was_preempted then s.last_completed_request_class else some c;
    }

-- The `catch` of `execute`: a preempted background request goes back to the queue.
unfoldable pub catch_failure : ℕ → Entry → Failure → Coordinator → Coordinator
catch_failure now e f s =
    if not (is_realtime e.request_class) && is_preempted f
    then release_slot now true e (record s {
      stats = record (s.stats) { realtime_preemptions = s.stats.realtime_preemptions + 1 };
      queue = sort_queue (s.queue ++ e ∷ []);
    })
    else release_slot now false e (
        settle e.id (rejected f) (record s {
          canary =
              if is_realtime e.request_class
              then observe_failure s.canary (failure_name f)
              else s.canary;
        }))

-- `assertRequestAllowed` resolves: the operation starts, unless the request was aborted meanwhile.
unfoldable pub guard_passed : ℕ → ℕ → Coordinator → Coordinator
guard_passed now id s = elim (take_execution false id s.executing) [
  | none ↦ s
  | some (x, xs) ↦
      let e = x.entry in
      if x.aborted
      then drain now (catch_failure now e (preempted e.request_class) (record s { executing = xs }))
      else record s {
        executing =
            record {
              entry = record e { operation_started_at = some now };
              operating = true;
              aborted = false;
            }
            ∷ xs;
      }
]

unfoldable pub guard_failed : ℕ → ℕ → Failure → Coordinator → Coordinator
guard_failed now id f s = elim (take_execution false id s.executing) [
  | none ↦ s
  | some (x, xs) ↦ drain now (catch_failure now x.entry f (record s { executing = xs }))
]

unfoldable pub operation_rejected : ℕ → ℕ → Failure → Coordinator → Coordinator
operation_rejected now id f s = elim (take_execution true id s.executing) [
  | none ↦ s
  | some (x, xs) ↦ drain now (catch_failure now x.entry f (record s { executing = xs }))
]

-- `requestElapsedMs`.
abbrev request_elapsed_ms : ℕ → Entry → ℕ
request_elapsed_ms now e = elim e.operation_started_at [
  | none ↦ or_else e.coordinator_wait_ms 0
  | some t ↦ or_else e.coordinator_wait_ms 0 + now - t
]

abbrev pub protection_of : Option Classification → Option Protection
protection_of (some (protected p)) = some p
protection_of _ = none

abbrev count_protection : Protection → Stats → Stats
count_protection rate_limited n = record n { rate_limited = n.rate_limited + 1 }
count_protection challenge n = record n { challenges = n.challenges + 1 }
count_protection access_denied n = record n { access_denied = n.access_denied + 1 }

abbrev applied_candidate : Option ℕ → ℕ → Bool
applied_candidate none candidate = false
applied_candidate (some quiet) candidate = quiet == candidate

abbrev pub local_pause_ms : Protection → Config → ℕ
local_pause_ms challenge c = c.challenge_pause_ms
local_pause_ms _ c = c.rate_limit_pause_ms

-- Opens the circuit, never for less than it is open already. `retryAfterSeconds` is whole.
unfoldable pub open_circuit : ℕ → Protection → Option ℕ → Coordinator → Coordinator
open_circuit now p retry_after s =
    let pause = max (local_pause_ms p s.config) (or_else retry_after 0 * 1000) in
    record s {
      stats = count_protection p s.stats;
      circuit_open_until =
          some (elim s.circuit_open_until [ none ↦ now + pause | some t ↦ max t (now + pause) ]);
      circuit_classification = p;
    }

abbrev pub is_some_protection : Option Protection → Bool
is_some_protection none = false
is_some_protection (some p) = true

abbrev canary_observes : ℕ → Entry → Option Classification → Coordinator → Coordinator
canary_observes now e classification s = record s {
  canary = observe_result s.canary (record {
    request_class = e.request_class;
    classification = classification;
    elapsed_ms = request_elapsed_ms now e;
    used_candidate_quiet =
        applied_candidate e.applied_post_finish_quiet_ms s.canary.candidate_quiet_ms;
    protection_observed = is_some_protection (protection_of classification);
  });
}

-- `observeOutcome`, with its result.
unfoldable pub observe_outcome : ℕ → Entry → Outcome → Coordinator → Coordinator × Bool
observe_outcome now e plain s = (s, false)
observe_outcome now e (outcome classification retry_after) s =
    let observed = canary_observes now e classification s in
    elim (protection_of classification) [
      | none ↦ (observed, false)
      | some p ↦ (open_circuit now p retry_after observed, true)
    ]

-- The operation resolves: a protection response is kept even if the request was aborted.
unfoldable pub operation_resolved : ℕ → ℕ → Outcome → Coordinator → Coordinator
operation_resolved now id value s = elim (take_execution true id s.executing) [
  | none ↦ s
  | some (x, xs) ↦
      let e = x.entry in
      let (observed, protection_observed) =
        observe_outcome now e value (record s { executing = xs }) in
      drain now (
        if not protection_observed && x.aborted
        then catch_failure now e (preempted e.request_class) observed
        else release_slot now false e (settle e.id (resolved value) observed))
]

pub data Event : Type 0 where
  submits : ℕ → RequestClass → Event
  wakes : Event
  guard_passes : ℕ → Event
  guard_fails : ℕ → Failure → Event
  operation_resolves : ℕ → Outcome → Event
  operation_rejects : ℕ → Failure → Event

unfoldable pub step : ℕ → Event → Coordinator → Coordinator
step now (submits id c) s = submit now id c s
step now wakes s = wake now s
step now (guard_passes id) s = guard_passed now id s
step now (guard_fails id f) s = guard_failed now id f s
step now (operation_resolves id v) s = operation_resolved now id v s
step now (operation_rejects id f) s = operation_rejected now id f s

-- A history: events with their times.
unfoldable pub run_events : List (ℕ × Event) → Coordinator → Coordinator
run_events [] s = s
run_events ((now, ev) ∷ evs) s = run_events evs (step now ev s)
