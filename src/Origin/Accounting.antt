-- ===== src/Origin/Accounting.antt =====
-- apps/worker/src/modules/olx-request-coordinator.ts: where the requests given to
-- `OlxRequestCoordinator` are.
use auto_monitor_bot.Base.{
  ℕ, ◌+◌, ◌≡◌, refl, ◌∙◌, Bool, not, ◌&&◌, List, [], ◌∷◌, ◌++◌, Option, none, some, arith, ◌==◌,
  if◌then◌else◌, if_cases, count_by, count_by-append, count_by-sort_by,
}
use auto_monitor_bot.Origin.Request.{
  RequestClass, is_realtime, Entry, Failure, is_preempted, Outcome, plain, outcome, sort_queue,
  entry_before,
}
use auto_monitor_bot.Origin.State.{
  Execution, Settlement, rejected, Coordinator, CoordinatorOptions, new_coordinator, is_after,
  circuit_error,
}
use auto_monitor_bot.Origin.Steps.{count_by-take_execution, Keeps, other-keeps, drain-keeps}
use auto_monitor_bot.Origin.Coordinator.{
  abort_entry, preempt_active_background, reject_queued_for_open_circuit, reject_all, new_entry,
  start_entry, enqueue, submit, take_execution, release_slot, catch_failure, observe_outcome,
  open_circuit, Event, submits, step, run_events,
}

abbrev pub one_if : Bool → ℕ
one_if b = if b then 1 else 0

-- How often a request stands in the queue, among the executions and among the settled promises.
abbrev pub tally : ℕ → Coordinator → ℕ
tally i s =
    count_by (λ e. e.id == i) s.queue
    + count_by (λ x. x.entry.id == i) s.executing
    + count_by (λ r. r.0 == i) s.settled

count_by-reject_all :
    (i : ℕ) (f : Failure) (es : List Entry) (out : List (ℕ × Settlement))
    → count_by (λ r. r.0 == i) (reject_all f es out)
      ≡ count_by (λ e. e.id == i) es + count_by (λ r. r.0 == i) out
count_by-reject_all i f [] out = omega arith
count_by-reject_all i f (e ∷ es) out =
    ground (arith, count_by-reject_all i f es ((e.id, rejected f) ∷ out))

count_by-sort_queue :
    (i : ℕ) (es : List Entry) (e : Entry)
    → count_by (λ y. y.id == i) (sort_queue (es ++ e ∷ []))
      ≡ count_by (λ y. y.id == i) es + one_if (e.id == i)
unfolding sort_queue
count_by-sort_queue i es e =
    count_by-sort_by entry_before (λ y. y.id == i) (es ++ e ∷ [])
    ∙ ground (arith, count_by-append (λ y. y.id == i) es (e ∷ []))

count_by-abort_entry :
    (i : ℕ) (active : Option ℕ) (xs : List Execution)
    → count_by (λ x. x.entry.id == i) (abort_entry active xs) ≡ count_by (λ x. x.entry.id == i) xs
unfolding abort_entry
count_by-abort_entry i none xs = refl
count_by-abort_entry i (some id) [] = refl
count_by-abort_entry i (some id) (x ∷ xs) = ground (arith, count_by-abort_entry i (some id) xs)

module _ (i n : ℕ) where
  abbrev Accounted : Coordinator → Type 0
  Accounted s = tally i s ≡ n

  abbrev InHand : Entry → Coordinator → Type 0
  InHand e s = tally i s + one_if (e.id == i) ≡ n

  takes :
      (operating : Bool) (id : ℕ) (s : Coordinator) (x : Execution) (xs : List Execution)
      → Accounted s
      → take_execution operating id s.executing ≡ some (x, xs)
      → InHand x.entry (record s { executing = xs })
  takes operating id s x xs p h =
      ground (arith, count_by-take_execution (λ y. y.entry.id == i) operating id s.executing h)

  catches :
      (now : ℕ) (e : Entry) (f : Failure) (s : Coordinator)
      → InHand e s
      → Accounted (catch_failure now e f s)
  unfolding catch_failure release_slot
  catches now e f s q =
      if_cases Accounted (not (is_realtime e.request_class) && is_preempted f)
        (λ _. ground (arith, count_by-sort_queue i s.queue e)) (λ _. ground arith)

  observes :
      (now : ℕ) (e : Entry) (v : Outcome) (s : Coordinator)
      → InHand e s
      → InHand e (observe_outcome now e v s).0
  unfolding observe_outcome open_circuit
  observes now e plain s q = q
  observes now e (outcome c r) s q = ground arith

  execute-Keeps : (now : ℕ) → Keeps now Accounted InHand
  unfolding reject_queued_for_open_circuit start_entry release_slot
  execute-Keeps now = record {
    takes = takes;
    operates = λ e s q. ground arith;
    catches = catches now;
    observes = observes now;
    resolves = λ e v s q. ground arith;
    loop = record {
      pauses = λ b s p. p;
      denies =
          λ s p c. ground (arith, count_by-reject_all i (circuit_error now s) s.queue s.settled);
      starts = λ e rest s p q room c w. ground (arith, q);
    };
  }

tally-enqueue :
    (i now id : ℕ) (c : RequestClass) (s : Coordinator)
    → tally i (enqueue now id c s) ≡ tally i s + one_if (id == i)
unfolding enqueue preempt_active_background
tally-enqueue i now id c s = ground (
  arith,
  count_by-sort_queue i s.queue (new_entry now id c),
  count_by-abort_entry i s.active_background_entry s.executing,
)

tally-submit :
    (i now id : ℕ) (c : RequestClass) (s : Coordinator)
    → tally i (submit now id c s) ≡ tally i s + one_if (id == i)
unfolding submit
tally-submit i now id c s =
    if_cases (λ u. tally i u ≡ tally i s + one_if (id == i)) (is_after s.circuit_open_until now)
      (λ _. ground arith)
      (λ _.
        drain-keeps now (Accounted i _) (execute-Keeps i _ now).loop _ (tally-enqueue i now id c s))

abbrev pub submissions_of : ℕ → Event → ℕ
submissions_of i (submits id c) = one_if (id == i)
submissions_of i _ = 0

-- How often a history submits a request.
abbrev pub submissions : ℕ → List (ℕ × Event) → ℕ
submissions i [] = 0
submissions i ((now, ev) ∷ evs) = submissions_of i ev + submissions i evs

tally-step :
    (i now : ℕ) (ev : Event) (s : Coordinator)
    → tally i (step now ev s) ≡ tally i s + submissions_of i ev
unfolding step
tally-step i now (submits id c) s = tally-submit i now id c s
tally-step i now ev s =
    other-keeps now (Accounted i _) (InHand i _) (execute-Keeps i _ now) ev s refl (omega arith)

tally-run_events :
    (i : ℕ) (evs : List (ℕ × Event)) (s : Coordinator)
    → tally i (run_events evs s) ≡ tally i s + submissions i evs
unfolding run_events
tally-run_events i [] s = omega arith
tally-run_events i ((now, ev) ∷ evs) s =
    omega (arith, tally-run_events i evs (step now ev s), tally-step i now ev s)

-- For any options and history, a request stands in the queue, among the pending executions and
-- among the settled promises exactly as often, in all, as it was submitted: none is lost (also by
-- preemption or an open circuit), and a promise made once is settled at most once.
pub run_events-accounts :
    (o : CoordinatorOptions) (i : ℕ) (evs : List (ℕ × Event))
    → tally i (run_events evs (new_coordinator o)) ≡ submissions i evs
unfolding new_coordinator
run_events-accounts o i evs = omega (arith, tally-run_events i evs (new_coordinator o))
