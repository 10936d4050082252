-- ===== src/Origin/Flight.antt =====
-- apps/worker/src/modules/olx-request-coordinator.ts: how many requests `OlxRequestCoordinator` has
-- in flight.
use auto_monitor_bot.Base.{
  ℕ, suc, ◌+◌, ◌≤◌, ◌<◌, ◌≡◌, refl, Bool, true, false, not, ◌&&◌, List, [], ◌∷◌, Option, none, some,
  inl, inr, arith, if◌then◌else◌, Bool-cases, count_by, length,
}
use auto_monitor_bot.Origin.Request.{
  RequestClass, is_realtime, Entry, Failure, is_preempted, Outcome, plain, outcome,
}
use auto_monitor_bot.Origin.State.{
  Execution, resolved, Coordinator, CoordinatorOptions, is_after, new_coordinator,
}
use auto_monitor_bot.Origin.Steps.{count_by-take_execution, Keeps, step-keeps, drain-keeps}
use auto_monitor_bot.Origin.Coordinator.{
  in_flight, reject_queued_for_open_circuit, abort_entry, preempt_active_background, settle,
  start_entry, enqueue, submit, take_execution, release_slot, catch_failure, observe_outcome,
  open_circuit, Event, step, run_events,
}

abbrev pub is_hot : Execution → Bool
is_hot x = is_realtime x.entry.request_class

abbrev pub is_cold : Execution → Bool
is_cold x = not (is_realtime x.entry.request_class)

-- The counters agree with the pending executions, and those do not pass the limit.
pub record InFlight (s : Coordinator) : Type 0 where
  pub realtime_counted : count_by is_hot s.executing ≡ s.active_realtime
  pub background_counted : count_by is_cold s.executing ≡ s.active_background
  pub within_limit : in_flight s ≤ s.config.max_in_flight
  pub limit_one : s.config.max_in_flight ≡ 1

start_entry-InFlight :
    (now : ℕ) (e : Entry) (rest : List Entry) (s : Coordinator)
    → InFlight s
    → in_flight s < s.config.max_in_flight
    → InFlight (start_entry now e rest s)
unfolding start_entry
start_entry-InFlight now e rest s v h = ground arith

-- The state in the middle of `execute`: the entry has left the executions and still holds its slot.
record Holds (e : Entry) (s : Coordinator) : Type 0 where
  realtime_held :
      (if is_realtime e.request_class
        then suc (count_by is_hot s.executing)
        else count_by is_hot s.executing)
      ≡ s.active_realtime
  background_held :
      (if is_realtime e.request_class
        then count_by is_cold s.executing
        else suc (count_by is_cold s.executing))
      ≡ s.active_background
  still_within : in_flight s ≤ s.config.max_in_flight
  still_one : s.config.max_in_flight ≡ 1

release_slot-InFlight :
    (now : ℕ) (b : Bool) (e : Entry) (s : Coordinator)
    → Holds e s
    → InFlight (release_slot now b e s)
unfolding release_slot
release_slot-InFlight now b e s v = ground arith

catch_failure-InFlight :
    (now : ℕ) (e : Entry) (f : Failure) (s : Coordinator)
    → Holds e s
    → InFlight (catch_failure now e f s)
unfolding catch_failure
catch_failure-InFlight now e f s v =
    elim (Bool-cases (not (is_realtime e.request_class) && is_preempted f)) [
      | inl again ↦ rw (again, catch_failure) (release_slot-InFlight now true e _ (ground arith))
      | inr over ↦ rw (over, catch_failure) (release_slot-InFlight now false e _ (ground arith))
    ]

take-Holds :
    (operating : Bool) (id : ℕ) (s : Coordinator) (x : Execution) (xs : List Execution)
    → InFlight s
    → take_execution operating id s.executing ≡ some (x, xs)
    → Holds x.entry (record s { executing = xs })
take-Holds operating id s x xs v h = ground (
  arith,
  count_by-take_execution is_hot operating id s.executing h,
  count_by-take_execution is_cold operating id s.executing h,
)

observe_outcome-Holds :
    (now : ℕ) (e : Entry) (value : Outcome) (s : Coordinator)
    → Holds e s
    → Holds e (observe_outcome now e value s).0
unfolding observe_outcome open_circuit
observe_outcome-Holds now e plain s v = v
observe_outcome-Holds now e (outcome c r) s v = ground arith

abort_entry-count :
    (q : Entry → Bool) (id : Option ℕ) (xs : List Execution)
    → count_by (λ x. q x.entry) (abort_entry id xs) ≡ count_by (λ x. q x.entry) xs
unfolding abort_entry
abort_entry-count q none xs = refl
abort_entry-count q (some id) [] = refl
abort_entry-count q (some id) (x ∷ xs) = ground (arith, abort_entry-count q (some id) xs)

enqueue-InFlight :
    (now id : ℕ) (c : RequestClass) (s : Coordinator) → InFlight s → InFlight (enqueue now id c s)
unfolding enqueue preempt_active_background
enqueue-InFlight now id c s v = ground (
  arith,
  abort_entry-count (λ e. is_realtime e.request_class) s.active_background_entry s.executing,
  abort_entry-count (λ e. not (is_realtime e.request_class)) s.active_background_entry s.executing,
)

execute-Keeps : (now : ℕ) → Keeps now InFlight Holds
unfolding reject_queued_for_open_circuit
execute-Keeps now = record {
  takes = take-Holds;
  operates = λ e s q. ground arith;
  catches = catch_failure-InFlight now;
  observes = observe_outcome-Holds now;
  resolves =
      λ e v s q. release_slot-InFlight now false e (settle e.id (resolved v) s) (ground arith);
  loop = record {
    pauses = λ b s v. ground arith;
    denies = λ s v c. ground arith;
    starts = λ e rest s v q room c w. start_entry-InFlight now e rest s v room;
  };
}

submit-InFlight :
    (now id : ℕ) (c : RequestClass) (s : Coordinator) → InFlight s → InFlight (submit now id c s)
unfolding submit
submit-InFlight now id c s v = elim (Bool-cases (is_after s.circuit_open_until now)) [
  | inl closed ↦ rw (closed, submit) (ground arith)
  | inr passable ↦
      rw (passable, submit)
        (drain-keeps now InFlight (execute-Keeps now).loop _ (enqueue-InFlight now id c s v))
]

pub step-InFlight : (now : ℕ) (ev : Event) (s : Coordinator) → InFlight s → InFlight (step now ev s)
step-InFlight now ev s v =
    step-keeps now InFlight Holds (execute-Keeps now) (submit-InFlight now) ev s v

pub run_events-InFlight :
    (evs : List (ℕ × Event)) (s : Coordinator) → InFlight s → InFlight (run_events evs s)
unfolding run_events
run_events-InFlight [] s v = v
run_events-InFlight ((now, ev) ∷ evs) s v =
    run_events-InFlight evs (step now ev s) (step-InFlight now ev s v)

pub new_coordinator-InFlight : (o : CoordinatorOptions) → InFlight (new_coordinator o)
unfolding new_coordinator
new_coordinator-InFlight o = ground arith

pub length-hot-cold : (xs : List Execution) → length xs ≡ count_by is_hot xs + count_by is_cold xs
length-hot-cold [] = omega arith
length-hot-cold (x ∷ xs) = ground (arith, length-hot-cold xs)

-- For any options and any history of events, at most one request is in flight: the two active
-- counters add up to the number of pending executions, which is at most one.
pub run_events-single_flight :
    (o : CoordinatorOptions) (evs : List (ℕ × Event))
    → let s = run_events evs (new_coordinator o) in
      (length s.executing ≡ in_flight s) × (length s.executing ≤ 1)
run_events-single_flight o evs =
    let v = run_events-InFlight evs (new_coordinator o) (new_coordinator-InFlight o) in
    omega (arith, v, length-hot-cold (run_events evs (new_coordinator o)).executing)
