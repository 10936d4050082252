-- ===== src/Origin/Rollback.antt =====
-- apps/worker/src/modules/olx-request-coordinator.ts: `RealtimeQuietCanary` inside
-- `OlxRequestCoordinator`, over whole histories.
use Prim.Native.String.{String}
use auto_monitor_bot.Base.{
  Option, Bool, true, false, ◌⊎◌, ℕ, ◌≡◌, refl, not, ◌&&◌, List, [], ◌∷◌, none, some, arith,
  if_cases,
}
use auto_monitor_bot.Origin.Request.{
  RequestClass, Classification, success, empty_result, not_modified, is_realtime, Entry, Failure,
  failure_name, is_preempted, Outcome, plain, outcome, protected,
}
use auto_monitor_bot.Origin.Canary.{
  Canary, CanaryResult, rolled_back, observe_queue_depth, observe_failure, observe_result,
  observe_live,
}
use auto_monitor_bot.Origin.Evidence.{
  Evidence, new_canary-Evidence, observe_queue_depth-Evidence, observe_failure-Evidence,
  observe_result-Evidence,
}
use auto_monitor_bot.Origin.State.{Coordinator, CoordinatorOptions, new_coordinator, is_after}
use auto_monitor_bot.Origin.Steps.{Keeps, step-keeps, drain-keeps}
use auto_monitor_bot.Origin.Coordinator.{
  enqueue, submit, catch_failure, release_slot, observe_outcome, open_circuit, start_entry,
  reject_queued_for_open_circuit, preempt_active_background, Event, step, run_events,
}

-- A property of the canary that its three observations keep, every history keeps.
module _ (P : Canary → Type 0) (depth : (k : Canary) (n : ℕ) → P k → P (observe_queue_depth k n))
    (failure : (k : Canary) (r : String) → P k → P (observe_failure k r))
    (result : (k : Canary) (r : CanaryResult) → P k → P (observe_result k r)) where
  catches :
      (now : ℕ) (e : Entry) (f : Failure) (s : Coordinator)
      → P s.canary
      → P (catch_failure now e f s).canary
  unfolding catch_failure release_slot
  catches now e f s p =
      if_cases (λ (u : Coordinator). P u.canary)
        (not (is_realtime e.request_class) && is_preempted f) (λ _. p)
        (λ _.
          if_cases P (is_realtime e.request_class) (λ _. failure s.canary (failure_name f) p)
            (λ _. p))

  observes :
      (now : ℕ) (e : Entry) (v : Outcome) (s : Coordinator)
      → P s.canary
      → P (observe_outcome now e v s).0.canary
  unfolding observe_outcome open_circuit
  observes now e plain s p = p
  observes now e (outcome none r) s p = result s.canary _ p
  observes now e (outcome (some (protected q)) r) s p = result s.canary _ p
  observes now e (outcome (some c) r) s p = result s.canary _ p

  execute-Keeps : (now : ℕ) → Keeps now (λ s. P s.canary) (λ e s. P s.canary)
  unfolding reject_queued_for_open_circuit release_slot start_entry
  execute-Keeps now = record {
    takes = λ operating id s x xs p h. p;
    operates = λ e s p. p;
    catches = catches now;
    observes = observes now;
    resolves = λ e v s p. p;
    loop = record { pauses = λ b s p. p; denies = λ s p c. p; starts = λ e rest s p q room c w. p };
  }

  submits_keep :
      (now id : ℕ) (c : RequestClass) (s : Coordinator) → P s.canary → P (submit now id c s).canary
  unfolding submit enqueue preempt_active_background
  submits_keep now id c s p =
      if_cases (λ (u : Coordinator). P u.canary) (is_after s.circuit_open_until now) (λ _. p)
        (λ _.
          drain-keeps now (λ s. P s.canary) (execute-Keeps now).loop _
            (if_cases (λ (u : Coordinator). P u.canary) (is_realtime c) (λ _. depth s.canary _ p)
              (λ _. p)))

  run_events-keeps :
      (evs : List (ℕ × Event)) (s : Coordinator) → P s.canary → P (run_events evs s).canary
  unfolding run_events
  run_events-keeps [] s p = p
  run_events-keeps ((now, ev) ∷ evs) s p = run_events-keeps evs (step now ev s) (
      step-keeps now (λ s. P s.canary) (λ e s. P s.canary) (execute-Keeps now) (submits_keep now) ev
        s p)

-- The classifications of a clean answer.
abbrev pub is_clean_answer : Option Classification → Bool
is_clean_answer none = false
is_clean_answer (some c) = elim c [
  | success ↦ true
  | empty_result ↦ true
  | not_modified ↦ true
  | _ ↦ false
]

-- For any options and history, the canary's quiet period is no longer than the baseline's, its
-- samples stay within their numbers, and it runs accelerated only with the full number of baseline
-- samples, is promoted only with the full number of its own samples, and is rolled back only with a
-- reason. Whatever result comes next, one that is not clean adds no sample: it leaves those of the
-- baseline or clears them, and leaves the canary's own.
pub run_events-canary_evidence :
    (o : CoordinatorOptions) (evs : List (ℕ × Event))
    → let k = (run_events evs (new_coordinator o)).canary in
      Evidence k
      × ((r : CanaryResult)
          → is_clean_answer r.classification ≡ false
          → ((observe_result k r).baseline_samples ≡ k.baseline_samples
              ⊎ (observe_result k r).baseline_samples ≡ [])
            × ((observe_result k r).canary_samples ≡ k.canary_samples))
unfolding new_coordinator observe_result observe_live
run_events-canary_evidence o evs = (
  run_events-keeps Evidence observe_queue_depth-Evidence observe_failure-Evidence
      (λ k r v. observe_result-Evidence k k.mode r refl v) evs (new_coordinator o)
      (new_canary-Evidence _ o.realtime_quiet_canary),
  λ r u. (ground arith, ground arith),
)

-- A rollback is final: no history changes the canary again, so the baseline's quiet period and
-- the reason of the rollback stay.
pub run_events-rolled_back :
    (s : Coordinator) (evs : List (ℕ × Event))
    → s.canary.mode ≡ rolled_back
    → (run_events evs s).canary ≡ s.canary
unfolding observe_queue_depth observe_failure observe_result
run_events-rolled_back s evs h =
    run_events-keeps (λ k. k ≡ s.canary) (λ k n e. ground arith) (λ k r e. ground arith)
      (λ k r e. ground arith) evs s refl
