-- ===== src/Origin/Circuit.antt =====
-- apps/worker/src/modules/olx-request-coordinator.ts: histories while the circuit of
-- `OlxRequestCoordinator` is open.
use auto_monitor_bot.Base.{
  ℕ, ◌≤◌, ◌<◌, ◌≡◌, false, List, [], ◌∷◌, Option, none, some, arith, if_cases, All,
}
use auto_monitor_bot.Origin.Request.{RequestCounters, Entry, Failure, Outcome, plain, outcome}
use auto_monitor_bot.Origin.State.{Coordinator, is_after, until_ms}
use auto_monitor_bot.Origin.Steps.{Keeps, step-keeps}
use auto_monitor_bot.Origin.Coordinator.{
  reject_queued_for_open_circuit, enqueue, submit, preempt_active_background, release_slot,
  catch_failure, observe_outcome, open_circuit, Event, step, run_events,
}

abbrev pub Later : ℕ → Option ℕ → Type 0
Later t none = ⊥
Later t (some u) = t ≤ u

pub until-Later : (t : ℕ) (o : Option ℕ) → t ≤ until_ms o → 0 < t → Later t o
until-Later t none h p = omega arith
until-Later t (some u) h p = h

-- Started requests are counted as in `n`, and the circuit stays open at least until `t`.
abbrev pub IsShut : RequestCounters → ℕ → Coordinator → Type 0
IsShut n t s = (s.stats.started ≡ n) × Later t s.circuit_open_until

module _ (n : RequestCounters) (t now : ℕ) (early : now < t) where
  catches :
      (e : Entry) (f : Failure) (s : Coordinator)
      → IsShut n t s
      → IsShut n t (catch_failure now e f s)
  unfolding catch_failure release_slot
  catches e f s p = ground arith

  observes :
      (e : Entry) (v : Outcome) (s : Coordinator)
      → IsShut n t s
      → IsShut n t (observe_outcome now e v s).0
  unfolding observe_outcome open_circuit
  observes e plain s p = p
  observes e (outcome c r) s p = ground arith

  shut_no_start : (s : Coordinator) → IsShut n t s → is_after s.circuit_open_until now ≡ false → ⊥
  shut_no_start s p h = ground arith

  pub execute-Keeps : Keeps now (IsShut n t) (λ e. IsShut n t)
  unfolding reject_queued_for_open_circuit release_slot
  execute-Keeps = record {
    takes = λ operating id s x xs p h. p;
    operates = λ e s q. q;
    catches = catches;
    observes = observes;
    resolves = λ e v s q. ground arith;
    loop = record {
      pauses = λ b s p. p;
      denies = λ s p c. p;
      starts = λ e rest s p q room c w. absurd (shut_no_start s p c);
    };
  }

  step-IsShut : (ev : Event) (s : Coordinator) → IsShut n t s → IsShut n t (step now ev s)
  unfolding submit enqueue preempt_active_background
  step-IsShut =
      step-keeps now (IsShut n t) (λ e. IsShut n t) execute-Keeps
        λ id c s p.
          if_cases (IsShut n t) (is_after s.circuit_open_until now) (λ _. p)
            (λ h. absurd (shut_no_start s p h))

run_events-IsShut :
    (n : RequestCounters) (t : ℕ) (evs : List (ℕ × Event)) (s : Coordinator)
    → All (λ e. e.0 < t) evs
    → IsShut n t s
    → IsShut n t (run_events evs s)
unfolding run_events
run_events-IsShut n t [] s a p = p
run_events-IsShut n t ((now, ev) ∷ evs) s a p =
    run_events-IsShut n t evs (step now ev s) a.1 (step-IsShut n t now a.0 ev s p)

-- While the circuit is open until `t`, no history of events before `t` starts a request of any
-- class, and none of them closes the circuit or brings its end forward.
pub run_events-open_circuit :
    (t : ℕ) (evs : List (ℕ × Event)) (s : Coordinator)
    → s.circuit_open_until ≡ some t
    → All (λ e. e.0 < t) evs
    → ((run_events evs s).stats.started ≡ s.stats.started)
      × (t ≤ until_ms (run_events evs s).circuit_open_until)
run_events-open_circuit t evs s h a =
    let p : IsShut s.stats.started t (run_events evs s) =
      run_events-IsShut s.stats.started t evs s a (ground arith) in
    ground (arith, p)
