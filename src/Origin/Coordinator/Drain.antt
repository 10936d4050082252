-- ===== src/Origin/Coordinator/Drain.antt =====
-- apps/worker/src/modules/olx-request-coordinator.ts: `run` and `drain` of `OlxRequestCoordinator`, up to
-- the start of a request.
use auto_monitor_bot.Base.{
  ℕ, ◌+◌, ◌-◌, max, Bool, true, false, List, [], ◌∷◌, ◌++◌, Option, none, some, ltb, ◌==◌,
  if◌then◌else◌, length, filter,
}
use auto_monitor_bot.Origin.Request.{
  RequestClass, is_realtime, counter, set_counter, Failure, Entry, sort_queue,
}
use auto_monitor_bot.Origin.Canary.{observe_queue_depth}
use auto_monitor_bot.Origin.State.{
  Settlement, rejected, Execution, Stats, Coordinator, is_after, circuit_error,
  post_finish_quiet_ms, wait_ms,
}

abbrev pub in_flight : Coordinator → ℕ
in_flight s = s.active_realtime + s.active_background

abbrev pub has_id : ℕ → Execution → Bool
has_id id x = x.entry.id == id

-- `preemptActiveBackground`: aborts the controller that the active background entry holds.
unfoldable pub abort_entry : Option ℕ → List Execution → List Execution
abort_entry none xs = xs
abort_entry (some id) [] = []
abort_entry (some id) (x ∷ xs) =
    (if has_id id x then record x { aborted = true } else x) ∷ abort_entry (some id) xs

unfoldable pub preempt_active_background : Coordinator → Coordinator
preempt_active_background s = record s {
  executing = abort_entry s.active_background_entry s.executing;
}

-- `rejectQueuedForOpenCircuit`.
abbrev pub reject_all : Failure → List Entry → List (ℕ × Settlement) → List (ℕ × Settlement)
reject_all f [] out = out
reject_all f (e ∷ es) out = reject_all f es ((e.id, rejected f) ∷ out)

unfoldable pub reject_queued_for_open_circuit : ℕ → Coordinator → Coordinator
reject_queued_for_open_circuit now s = record s {
  queue = [];
  settled = reject_all (circuit_error now s) s.queue s.settled;
}

abbrev pub count_wait : RequestClass → ℕ → Stats → Stats
count_wait c waited n = record n {
  started = set_counter c (counter n.started c + 1) n.started;
  total_wait_ms = set_counter c (counter n.total_wait_ms c + waited) n.total_wait_ms;
  last_wait_ms = set_counter c waited n.last_wait_ms;
  max_wait_ms = set_counter c (max (counter n.max_wait_ms c) waited) n.max_wait_ms;
}

abbrev pub admit : ℕ → ℕ → Entry → Entry
admit waited quiet e = record e {
  coordinator_wait_ms = some waited;
  applied_post_finish_quiet_ms = some quiet;
}

-- The part of `drain` behind the wait, with the start of `execute` up to its first await.
unfoldable pub start_entry : ℕ → Entry → List Entry → Coordinator → Coordinator
start_entry now e rest s =
    let waited = now - e.enqueued_at in
    let quiet = post_finish_quiet_ms s e.request_class in
    let hot = is_realtime e.request_class in
    record s {
      queue = rest;
      stats = count_wait e.request_class waited s.stats;
      executing =
          record { entry = admit waited quiet e; operating = false; aborted = false } ∷ s.executing;
      active_realtime = if hot then s.active_realtime + 1 else s.active_realtime;
      active_background = if hot then s.active_background else s.active_background + 1;
      active_background_entry = if hot then s.active_background_entry else some e.id;
      last_background_started_at = if hot then s.last_background_started_at else some now;
    }

-- The `while` of `drain` on the queue; at a sleep `draining` stays set. The `drain` that the
-- `finally` calls again would find this loop's condition false, and is left out.
unfoldable pub drain_loop : ℕ → List Entry → Coordinator → Coordinator
drain_loop now [] s = record s { draining = false }
drain_loop now (e ∷ rest) s =
    let started = drain_loop now rest (start_entry now e rest s) in
    if ltb (in_flight s) s.config.max_in_flight
    then (if is_after s.circuit_open_until now
        then record (reject_queued_for_open_circuit now s) { draining = false }
        else if ltb 0 (wait_ms now s e.request_class)
        then s
        else started)
    else record s { draining = false }

unfoldable pub drain : ℕ → Coordinator → Coordinator
drain now s = if s.draining then s else drain_loop now s.queue (record s { draining = true })

-- The loop goes on behind its sleep.
unfoldable pub wake : ℕ → Coordinator → Coordinator
wake now s = if s.draining then drain_loop now s.queue s else s

abbrev pub new_entry : ℕ → ℕ → RequestClass → Entry
new_entry now id c = record {
  id = id;
  request_class = c;
  enqueued_at = now;
  coordinator_wait_ms = none;
  applied_post_finish_quiet_ms = none;
  operation_started_at = none;
}

abbrev pub realtime_depth : List Entry → ℕ
realtime_depth queue = length (filter (λ e. is_realtime e.request_class) queue)

-- The body of the promise that `run` returns, before it drains.
unfoldable pub enqueue : ℕ → ℕ → RequestClass → Coordinator → Coordinator
enqueue now id c s =
    let queue = sort_queue (s.queue ++ new_entry now id c ∷ []) in
    let queued = record s { queue = queue } in
    if is_realtime c
    then preempt_active_background
        (record queued { canary = observe_queue_depth s.canary (realtime_depth queue) })
    else queued

abbrev pub settle : ℕ → Settlement → Coordinator → Coordinator
settle id r s = record s { settled = (id, r) ∷ s.settled }

-- `run`.
unfoldable pub submit : ℕ → ℕ → RequestClass → Coordinator → Coordinator
submit now id c s =
    if is_after s.circuit_open_until now
    then settle id (rejected (circuit_error now s)) s
    else drain now (enqueue now id c s)
