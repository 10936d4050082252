-- ===== src/Origin/Steps.antt =====
-- apps/worker/src/modules/olx-request-coordinator.ts: a rule for what the steps of
-- `OlxRequestCoordinator` keep, so that a proof goes through the shared parts of `execute` once.
use auto_monitor_bot.Base.{
  ℕ, ◌≡◌, Bool, true, not, ◌&&◌, List, [], ◌∷◌, some, inl, inr, arith, Bool-cases, Option-cases,
  if_cases, count_by, refl, ltb, ltb→lt, ◌<◌, false,
}
use auto_monitor_bot.Origin.Request.{RequestClass, Entry, Failure, preempted, Outcome}
use auto_monitor_bot.Origin.State.{Execution, Coordinator, resolved, is_after, wait_ms}
use auto_monitor_bot.Origin.Coordinator.{
  in_flight, reject_queued_for_open_circuit, start_entry, drain_loop, drain, wake, take_execution,
  release_slot, catch_failure, guard_passed, guard_failed, operation_rejected, observe_outcome,
  operation_resolved, settle, Event, submits, wakes, guard_passes, guard_fails, operation_resolves,
  operation_rejects, step, submit,
}

-- Taking an execution out of the list takes it out of every count.
pub count_by-take_execution :
    (p : Execution → Bool) (operating : Bool) (id : ℕ) (xs : List Execution) {x : Execution}
    {ys : List Execution}
    → take_execution operating id xs ≡ some (x, ys)
    → count_by p xs ≡ count_by p (x ∷ ys)
unfolding take_execution
count_by-take_execution p operating id [] h = cc
count_by-take_execution p operating id (z ∷ zs) h =
    elim (Option-cases (take_execution operating id zs)) [
      | inl e ↦ ground (arith, e)
      | inr ((y, rest), e) ↦ ground (arith, e, count_by-take_execution p operating id zs e)
    ]

abbrev pub operate : ℕ → Entry → Coordinator → Coordinator
operate now e s = record s {
  executing =
      record {
        entry = record e { operation_started_at = some now };
        operating = true;
        aborted = false;
      }
      ∷ s.executing;
}

abbrev pub is_submission : Event → Bool
is_submission (submits id c) = true
is_submission _ = false

-- What the worker loop keeps.
pub record DrainKeeps (now : ℕ) (P : Coordinator → Type 0) : Type 0 where
  pub pauses : (b : Bool) (s : Coordinator) → P s → P (record s { draining = b })
  pub denies :
      (s : Coordinator)
      → P s
      → is_after s.circuit_open_until now ≡ true
      → P (reject_queued_for_open_circuit now s)
  pub starts :
      (e : Entry) (rest : List Entry) (s : Coordinator)
      → P s
      → s.queue ≡ e ∷ rest
      → in_flight s < s.config.max_in_flight
      → is_after s.circuit_open_until now ≡ false
      → wait_ms now s e.request_class ≡ 0
      → P (start_entry now e rest s)

module _ (now : ℕ) (P : Coordinator → Type 0) (k : DrainKeeps now P) where
  drain_loop-keeps :
      (queue : List Entry) (s : Coordinator) → s.queue ≡ queue → P s → P (drain_loop now queue s)
  unfolding drain_loop start_entry
  drain_loop-keeps [] s q p = k.pauses false s p
  drain_loop-keeps (e ∷ rest) s q p = elim (Bool-cases (ltb (in_flight s) s.config.max_in_flight)) [
    | inr full ↦ rw (full, drain_loop) (k.pauses false s p)
    | inl room ↦ elim (Bool-cases (is_after s.circuit_open_until now)) [
      | inl closed ↦ rw (room, drain_loop, closed) (k.pauses false _ (k.denies s p closed))
      | inr passable ↦ elim (Bool-cases (ltb 0 (wait_ms now s e.request_class))) [
        | inl early ↦ rw (room, drain_loop, passable, early) p
        | inr ready ↦
            rw (room, drain_loop, passable, ready)
              (drain_loop-keeps rest (start_entry now e rest s) refl
                (k.starts e rest s p q (ltb→lt _ _ room) passable (ground arith)))
      ]
    ]
  ]

  pub drain-keeps : (s : Coordinator) → P s → P (drain now s)
  unfolding drain
  drain-keeps s p =
      if_cases P s.draining (λ _. p)
        (λ _. drain_loop-keeps s.queue (record s { draining = true }) refl (k.pauses true s p))

  pub wake-keeps : (s : Coordinator) → P s → P (wake now s)
  unfolding wake
  wake-keeps s p = if_cases P s.draining (λ _. drain_loop-keeps s.queue s refl p) (λ _. p)

-- `P` holds between two steps, `Q` while `execute` has an entry in hand.
pub record Keeps (now : ℕ) (P : Coordinator → Type 0) (Q : Entry → Coordinator → Type 0)
    : Type 0 where
  pub takes :
      (operating : Bool) (id : ℕ) (s : Coordinator) (x : Execution) (xs : List Execution)
      → P s
      → take_execution operating id s.executing ≡ some (x, xs)
      → Q x.entry (record s { executing = xs })
  pub operates : (e : Entry) (s : Coordinator) → Q e s → P (operate now e s)
  pub catches : (e : Entry) (f : Failure) (s : Coordinator) → Q e s → P (catch_failure now e f s)
  pub observes :
      (e : Entry) (v : Outcome) (s : Coordinator) → Q e s → Q e (observe_outcome now e v s).0
  pub resolves :
      (e : Entry) (v : Outcome) (s : Coordinator)
      → Q e s
      → P (release_slot now false e (settle e.id (resolved v) s))
  pub loop : DrainKeeps now P

module _ (now : ℕ) (P : Coordinator → Type 0) (Q : Entry → Coordinator → Type 0)
    (k : Keeps now P Q) where
  guard_passed-keeps : (id : ℕ) (s : Coordinator) → P s → P (guard_passed now id s)
  unfolding guard_passed
  guard_passed-keeps id s p = elim (Option-cases (take_execution false id s.executing)) [
    | inl e ↦ rw (e, guard_passed) p
    | inr ((x, xs), e) ↦ elim (Bool-cases x.aborted) [
      | inl a ↦
          rw (e, guard_passed, a)
            (drain-keeps now P k.loop _
              (k.catches x.entry (preempted x.entry.request_class) _ (k.takes false id s x xs p e)))
      | inr a ↦ rw (e, guard_passed, a) (k.operates x.entry _ (k.takes false id s x xs p e))
    ]
  ]

  guard_failed-keeps : (id : ℕ) (f : Failure) (s : Coordinator) → P s → P (guard_failed now id f s)
  unfolding guard_failed
  guard_failed-keeps id f s p = elim (Option-cases (take_execution false id s.executing)) [
    | inl e ↦ rw (e, guard_failed) p
    | inr ((x, xs), e) ↦
        rw (e, guard_failed)
          (drain-keeps now P k.loop _ (k.catches x.entry f _ (k.takes false id s x xs p e)))
  ]

  operation_rejected-keeps :
      (id : ℕ) (f : Failure) (s : Coordinator) → P s → P (operation_rejected now id f s)
  unfolding operation_rejected
  operation_rejected-keeps id f s p = elim (Option-cases (take_execution true id s.executing)) [
    | inl e ↦ rw (e, operation_rejected) p
    | inr ((x, xs), e) ↦
        rw (e, operation_rejected)
          (drain-keeps now P k.loop _ (k.catches x.entry f _ (k.takes true id s x xs p e)))
  ]

  operation_resolved-keeps :
      (id : ℕ) (v : Outcome) (s : Coordinator) → P s → P (operation_resolved now id v s)
  unfolding operation_resolved
  operation_resolved-keeps id v s p = elim (Option-cases (take_execution true id s.executing)) [
    | inl e ↦ rw (e, operation_resolved) p
    | inr ((x, xs), e) ↦
        let q = k.observes x.entry v _ (k.takes true id s x xs p e) in
        elim (Bool-cases
          (not (observe_outcome now x.entry v (record s { executing = xs })).1 && x.aborted)) [
            | inl a ↦
                rw (e, operation_resolved, a)
                  (drain-keeps now P k.loop _
                    (k.catches x.entry (preempted x.entry.request_class) _ q))
            | inr a ↦
                rw (e, operation_resolved, a)
                  (drain-keeps now P k.loop _ (k.resolves x.entry v _ q))
          ]
  ]

  -- What the shared parts keep, every step keeps that submits nothing.
  pub other-keeps :
      (ev : Event) (s : Coordinator) → is_submission ev ≡ false → P s → P (step now ev s)
  unfolding step
  other-keeps (submits id c) s h p = cc
  other-keeps wakes s h p = wake-keeps now P k.loop s p
  other-keeps (guard_passes id) s h p = guard_passed-keeps id s p
  other-keeps (guard_fails id f) s h p = guard_failed-keeps id f s p
  other-keeps (operation_resolves id v) s h p = operation_resolved-keeps id v s p
  other-keeps (operation_rejects id f) s h p = operation_rejected-keeps id f s p

  -- With `run` every step.
  pub step-keeps :
      ((id : ℕ) (c : RequestClass) (s : Coordinator) → P s → P (submit now id c s))
      → (ev : Event) (s : Coordinator) → P s
      → P (step now ev s)
  unfolding step
  step-keeps submitted (submits id c) s p = submitted id c s p
  step-keeps submitted ev s p = other-keeps ev s refl p
