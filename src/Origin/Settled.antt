-- ===== src/Origin/Settled.antt =====
-- apps/worker/src/modules/olx-request-coordinator.ts: the promises of `OlxRequestCoordinator` that are
-- settled.
use mathlib.Core.List.{Memᴰ}
use auto_monitor_bot.Base.{ℕ, ◌≡◌, refl, sym, subst, not, ◌&&◌, List, [], ◌∷◌, arith, if_cases}
use auto_monitor_bot.Origin.Request.{
  RequestClass, is_realtime, Entry, Failure, is_preempted, Outcome, plain, outcome,
}
use auto_monitor_bot.Origin.State.{Settlement, rejected, Coordinator, is_after, circuit_error}
use auto_monitor_bot.Origin.Steps.{Keeps, step-keeps, drain-keeps}
use auto_monitor_bot.Origin.Coordinator.{
  reject_queued_for_open_circuit, reject_all, start_entry, enqueue, submit,
  preempt_active_background, release_slot, catch_failure, observe_outcome, open_circuit, Event,
  step, run_events,
}

module _ (r : ℕ × Settlement) (now : ℕ) where
  abbrev pub IsSettled : Coordinator → Type 0
  IsSettled s = Memᴰ r s.settled

  Memᴰ-reject_all :
      (f : Failure) (es : List Entry) (out : List (ℕ × Settlement))
      → Memᴰ r out
      → Memᴰ r (reject_all f es out)
  Memᴰ-reject_all f [] out m = m
  Memᴰ-reject_all f (e ∷ es) out m = Memᴰ-reject_all f es ((e.id, rejected f) ∷ out) (Memᴰ.tail m)

  IsSettled-catch_failure :
      (e : Entry) (f : Failure) (s : Coordinator)
      → IsSettled s
      → IsSettled (catch_failure now e f s)
  unfolding catch_failure release_slot
  IsSettled-catch_failure e f s m =
      if_cases IsSettled (not (is_realtime e.request_class) && is_preempted f) (λ _. m)
        (λ _. Memᴰ.tail m)

  settled-observe_outcome :
      (e : Entry) (v : Outcome) (s : Coordinator)
      → (observe_outcome now e v s).0.settled ≡ s.settled
  unfolding observe_outcome open_circuit
  settled-observe_outcome e plain s = refl
  settled-observe_outcome e (outcome c a) s = ground arith

  pub IsSettled-Keeps : Keeps now IsSettled (λ e. IsSettled)
  unfolding reject_queued_for_open_circuit release_slot start_entry
  IsSettled-Keeps = record {
    takes = λ operating id s x xs m h. m;
    operates = λ e s m. m;
    catches = IsSettled-catch_failure;
    observes = λ e v s m. subst (Memᴰ r) (sym (settled-observe_outcome e v s)) m;
    resolves = λ e v s m. Memᴰ.tail m;
    loop = record {
      pauses = λ b s m. m;
      denies = λ s m c. Memᴰ-reject_all (circuit_error now s) s.queue s.settled m;
      starts = λ e rest s m q room c w. m;
    };
  }

  IsSettled-submit :
      (id : ℕ) (c : RequestClass) (s : Coordinator) → IsSettled s → IsSettled (submit now id c s)
  unfolding submit enqueue preempt_active_background
  IsSettled-submit id c s m =
      if_cases IsSettled (is_after s.circuit_open_until now) (λ _. Memᴰ.tail m)
        (λ _.
          drain-keeps now IsSettled IsSettled-Keeps.loop _
            (if_cases IsSettled (is_realtime c) (λ _. m) (λ _. m)))

-- A promise that is settled stays settled with that result, whatever events follow.
pub run_events-settled :
    (r : ℕ × Settlement) (evs : List (ℕ × Event)) (s : Coordinator)
    → Memᴰ r s.settled
    → Memᴰ r (run_events evs s).settled
unfolding run_events
run_events-settled r [] s m = m
run_events-settled r ((now, ev) ∷ evs) s m = run_events-settled r evs (step now ev s) (
    step-keeps now (IsSettled r now) (λ e. IsSettled r now) (IsSettled-Keeps r now)
      (IsSettled-submit r now) ev s m)
