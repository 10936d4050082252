-- ===== src/Origin/Order.antt =====
-- apps/worker/src/modules/olx-request-coordinator.ts: which request `drain` starts, and when.
use auto_monitor_bot.Base.{
  ℕ, ◌+◌, ◌≤◌, ◌≡◌, refl, sym, subst, ◌-◌, ◌⊎◌, inl, inr, Bool, true, false, not, Option, none,
  if◌then◌else◌, ◌&&◌, List, [], ◌∷◌, ◌++◌, some, arith, ltb, if_cases, All, IsSortedBy,
  sort_by-IsSortedBy,
}
use auto_monitor_bot.Origin.Request.{
  RequestClass, is_realtime, Entry, Failure, is_preempted, Outcome, plain, outcome, entry_before,
  sort_queue,
}
use auto_monitor_bot.Origin.State.{
  Execution, Coordinator, CoordinatorOptions, new_coordinator, is_after, wait_ms, remaining,
  post_finish_quiet_ms,
}
use auto_monitor_bot.Origin.Flight.{run_events-InFlight, new_coordinator-InFlight}
use auto_monitor_bot.Origin.Steps.{Keeps, step-keeps, drain-keeps}
use auto_monitor_bot.Origin.Coordinator.{
  in_flight, admit, reject_queued_for_open_circuit, start_entry, enqueue, submit,
  preempt_active_background, release_slot, catch_failure, observe_outcome, open_circuit, drain,
  drain_loop, Event, step, run_events,
}

abbrev pub IsQueueSorted : List Entry → Type 0
IsQueueSorted = IsSortedBy entry_before

sort_queue-IsQueueSorted : (es : List Entry) → IsQueueSorted (sort_queue es)
unfolding sort_queue
sort_queue-IsQueueSorted =
    sort_by-IsSortedBy entry_before (λ x y h. ground arith) (λ x y z h k. ground arith)

abbrev Sorted : Coordinator → Type 0
Sorted s = IsQueueSorted s.queue

catches :
    (now : ℕ) (e : Entry) (f : Failure) (s : Coordinator)
    → Sorted s
    → Sorted (catch_failure now e f s)
unfolding catch_failure release_slot
catches now e f s p =
    if_cases Sorted (not (is_realtime e.request_class) && is_preempted f)
      (λ _. sort_queue-IsQueueSorted (s.queue ++ e ∷ [])) (λ _. p)

queue-observe_outcome :
    (now : ℕ) (e : Entry) (v : Outcome) (s : Coordinator)
    → (observe_outcome now e v s).0.queue ≡ s.queue
unfolding observe_outcome open_circuit
queue-observe_outcome now e plain s = refl
queue-observe_outcome now e (outcome c r) s = ground arith

IsQueueSorted-tail :
    (e : Entry) (rest queue : List Entry)
    → queue ≡ e ∷ rest
    → IsQueueSorted queue
    → IsQueueSorted rest
IsQueueSorted-tail e rest queue h p =
    let q : IsQueueSorted (e ∷ rest) = subst IsQueueSorted h p in q.1

execute-Keeps : (now : ℕ) → Keeps now Sorted (λ e. Sorted)
unfolding reject_queued_for_open_circuit release_slot start_entry
execute-Keeps now = record {
  takes = λ operating id s x xs p h. p;
  operates = λ e s q. q;
  catches = catches now;
  observes = λ e v s q. subst IsQueueSorted (sym (queue-observe_outcome now e v s)) q;
  resolves = λ e v s q. q;
  loop = record {
    pauses = λ b s p. p;
    denies = λ s p c. tt;
    starts = λ e rest s p q room c w. IsQueueSorted-tail e rest s.queue q p;
  };
}

enqueue-Sorted : (now id : ℕ) (c : RequestClass) (s : Coordinator) → Sorted (enqueue now id c s)
unfolding enqueue preempt_active_background
enqueue-Sorted now id c s =
    if_cases Sorted (is_realtime c) (λ _. sort_queue-IsQueueSorted _)
      (λ _. sort_queue-IsQueueSorted _)

submit-Sorted :
    (now id : ℕ) (c : RequestClass) (s : Coordinator) → Sorted s → Sorted (submit now id c s)
unfolding submit
submit-Sorted now id c s p =
    if_cases Sorted (is_after s.circuit_open_until now) (λ _. p)
      (λ _. drain-keeps now Sorted (execute-Keeps now).loop _ (enqueue-Sorted now id c s))

run_events-Sorted :
    (evs : List (ℕ × Event)) (s : Coordinator) → Sorted s → Sorted (run_events evs s)
unfolding run_events
run_events-Sorted [] s p = p
run_events-Sorted ((now, ev) ∷ evs) s p =
    run_events-Sorted evs (step now ev s)
      (step-keeps now Sorted (λ e. Sorted) (execute-Keeps now) (submit-Sorted now) ev s p)

-- A period of `quiet` since a time, if there is one, is over.
abbrev pub IsOver : Option ℕ → ℕ → ℕ → Type 0
IsOver none quiet now = Unit
IsOver (some t) quiet now = t + quiet ≤ now

-- Every quiet period that applies to a class is over: after the last request, and for background
-- work also after the last realtime request and after the last start of background work.
pub record IsPaced (now : ℕ) (s : Coordinator) (c : RequestClass) : Type 0 where
  pub post_finish : IsOver s.last_request_finished_at (post_finish_quiet_ms s c) now
  pub realtime_quiet :
      (is_realtime c ≡ true)
      ⊎ IsOver s.last_realtime_finished_at s.config.background_quiet_after_realtime_ms now
  pub background_pacing :
      (is_realtime c ≡ true)
      ⊎ IsOver s.last_background_started_at s.config.background_min_interval_ms now

remaining-IsOver :
    (at : Option ℕ) (quiet now : ℕ) → remaining at quiet now ≡ 0 → IsOver at quiet now
remaining-IsOver none quiet now h = tt
remaining-IsOver (some t) quiet now h = ground arith

applies-IsOver :
    (hot : Bool) (at : Option ℕ) (quiet now : ℕ)
    → (if hot then 0 else remaining at quiet now) ≡ 0
    → (hot ≡ true) ⊎ IsOver at quiet now
applies-IsOver true at quiet now h = inl refl
applies-IsOver false at quiet now h = inr (remaining-IsOver at quiet now h)

wait_ms-IsPaced :
    (now : ℕ) (s : Coordinator) (c : RequestClass) → wait_ms now s c ≡ 0 → IsPaced now s c
unfolding wait_ms
wait_ms-IsPaced now s c h = record {
  post_finish = remaining-IsOver _ _ now (omega (arith, h));
  realtime_quiet = applies-IsOver (is_realtime c) _ _ now (omega (arith, h));
  background_pacing = applies-IsOver (is_realtime c) _ _ now (omega (arith, h));
}

abbrev pub started_execution : ℕ → Coordinator → Entry → Execution
started_execution now s e = record {
  entry = admit (now - e.enqueued_at) (post_finish_quiet_ms s e.request_class) e;
  operating = false;
  aborted = false;
}

-- `u` is `s` after the start of the head of its queue, which no waiting request precedes, with the
-- slot free, the circuit closed and every wait over.
pub record Starts (now : ℕ) (s u : Coordinator) (e : Entry) (rest : List Entry) : Type 0 where
  pub head : s.queue ≡ e ∷ rest
  pub first : All (λ y. entry_before y e ≡ false) rest
  pub slot_free : in_flight s ≡ 0
  pub circuit_closed : is_after s.circuit_open_until now ≡ false
  pub paced : IsPaced now s e.request_class
  pub one_more : u.executing ≡ started_execution now s e ∷ s.executing

abbrev pub StartsOne : ℕ → Coordinator → Coordinator → Type 0
StartsOne now s u =
    (u.executing ≡ s.executing) ⊎ ((e : Entry) × (rest : List Entry) × Starts now s u e rest)

drain_loop-full :
    (now : ℕ) (queue : List Entry) (s : Coordinator)
    → in_flight s ≡ 1
    → s.config.max_in_flight ≡ 1
    → (drain_loop now queue s).executing ≡ s.executing
unfolding drain_loop
drain_loop-full now [] s h k = refl
drain_loop-full now (e ∷ rest) s h k =
    let full : ltb (in_flight s) s.config.max_in_flight ≡ false = ground arith in
    rw (full, drain_loop) refl

pub drain_loop-start_entry :
    (now : ℕ) (e : Entry) (rest : List Entry) (s : Coordinator)
    → in_flight s ≡ 0
    → s.config.max_in_flight ≡ 1
    → (drain_loop now rest (start_entry now e rest s)).executing
      ≡ started_execution now s e ∷ s.executing
unfolding start_entry
drain_loop-start_entry now e rest s h k =
    drain_loop-full now rest (start_entry now e rest s) (ground arith) k

drain_loop-StartsOne :
    (now : ℕ) (queue : List Entry) (s : Coordinator)
    → s.queue ≡ queue
    → IsQueueSorted queue
    → s.config.max_in_flight ≡ 1
    → StartsOne now s (drain_loop now queue s)
unfolding drain_loop reject_queued_for_open_circuit
drain_loop-StartsOne now [] s q p k = inl refl
drain_loop-StartsOne now (e ∷ rest) s q p k =
    if_cases (StartsOne now s) (ltb (in_flight s) s.config.max_in_flight)
      (λ room.
        if_cases (StartsOne now s) (is_after s.circuit_open_until now) (λ _. inl refl)
          (λ closed.
            if_cases (StartsOne now s) (ltb 0 (wait_ms now s e.request_class)) (λ _. inl refl)
              (λ ready. inr (
                e,
                rest,
                record {
                  head = q;
                  first = p.0;
                  slot_free = ground arith;
                  circuit_closed = closed;
                  paced = wait_ms-IsPaced now s e.request_class (ground arith);
                  one_more = drain_loop-start_entry now e rest s (ground arith) k;
                },
              ))))
      (λ _. inl refl)

drain-StartsOne :
    (now : ℕ) (s : Coordinator)
    → Sorted s
    → s.config.max_in_flight ≡ 1
    → StartsOne now s (drain now s)
unfolding drain
drain-StartsOne now s p k =
    if_cases (StartsOne now s) s.draining (λ _. inl refl)
      (λ _. resume (drain_loop-StartsOne now s.queue (record s { draining = true }) refl p k))
  where
    resume : {u : Coordinator} → StartsOne now (record s { draining = true }) u → StartsOne now s u
    resume (inl same) = inl same
    resume (inr (e, rest, st)) = inr (
      e,
      rest,
      record {
        head = st.head;
        first = st.first;
        slot_free = st.slot_free;
        circuit_closed = st.circuit_closed;
        paced = record {
          post_finish = st.paced.post_finish;
          realtime_quiet = st.paced.realtime_quiet;
          background_pacing = st.paced.background_pacing;
        };
        one_more = st.one_more;
      },
    )

-- In a state that any history leads to, `drain` starts no request, or exactly one: the head of the
-- queue, which no waiting request precedes in priority and age, while nothing is in flight, the
-- circuit is closed, and every quiet period that applies to its class is over.
pub drain-starts_head :
    (o : CoordinatorOptions) (evs : List (ℕ × Event)) (now : ℕ)
    → StartsOne now
        (run_events evs (new_coordinator o))
        (drain now (run_events evs (new_coordinator o)))
unfolding new_coordinator
drain-starts_head o evs now =
    drain-StartsOne now (run_events evs (new_coordinator o))
      (run_events-Sorted evs (new_coordinator o) tt)
      (run_events-InFlight evs (new_coordinator o) (new_coordinator-InFlight o)).limit_one
