-- ===== src/Origin/Protected.antt =====
-- apps/worker/src/modules/olx-request-coordinator.ts: what `OlxRequestCoordinator` does with a
-- protection response.
use mathlib.Core.List.{Memᴰ}
use auto_monitor_bot.Base.{
  ℕ, ◌+◌, ◌*◌, ◌≤◌, ◌<◌, ◌≡◌, refl, true, false, List, Option, some, arith, or_else,
}
use auto_monitor_bot.Origin.Request.{Outcome, outcome, Protection, protected}
use auto_monitor_bot.Origin.State.{Execution, resolved, Coordinator, until_ms}
use auto_monitor_bot.Origin.Steps.{DrainKeeps, drain-keeps}
use auto_monitor_bot.Origin.Coordinator.{
  reject_queued_for_open_circuit, start_entry, take_execution, release_slot, settle,
  observe_outcome, open_circuit, drain, local_pause_ms, operation_resolved,
}
use auto_monitor_bot.Origin.Circuit.{until-Later, IsShut, execute-Keeps}
use auto_monitor_bot.Origin.Settled.{IsSettled, IsSettled-Keeps}

-- The circuit after a protection response.
abbrev pub OpenFor : ℕ → Protection → Option ℕ → Coordinator → Coordinator → Type 0
OpenFor now p retry_after s u =
    let t = until_ms u.circuit_open_until in
    (now + local_pause_ms p s.config ≤ t)
    × (now + or_else retry_after 0 * 1000 ≤ t)
    × (until_ms s.circuit_open_until ≤ t)

circuit_open_until-loop :
    (now : ℕ) (c : Option ℕ) (p : Protection)
    → DrainKeeps now (λ s. (s.circuit_open_until ≡ c) × (s.circuit_classification ≡ p))
unfolding reject_queued_for_open_circuit start_entry
circuit_open_until-loop now c p = record {
  pauses = λ b s h. h;
  denies = λ s h o. h;
  starts = λ e rest s h q room o w. h;
}

module _ (now id : ℕ) (s : Coordinator) (x : Execution) (xs : List Execution) (p : Protection)
    (retry_after : Option ℕ) (taken : take_execution true id s.executing ≡ some (x, xs)) where
  abbrev value : Outcome
  value = outcome (some (protected p)) retry_after

  -- The state before the `drain` of `execute`'s `finally`.
  abbrev observed : Coordinator
  observed = (observe_outcome now x.entry value (record s { executing = xs })).0

  abbrev closing : Coordinator
  closing = release_slot now false x.entry (settle x.entry.id (resolved value) observed)

  operation_resolved-closing : operation_resolved now id value s ≡ drain now closing
  unfolding operation_resolved observe_outcome
  operation_resolved-closing = rw (taken, operation_resolved) refl

  closing-OpenFor : OpenFor now p retry_after s closing × (closing.circuit_classification ≡ p)
  unfolding observe_outcome open_circuit release_slot
  closing-OpenFor = ground arith

  closing-IsSettled : IsSettled (x.entry.id, resolved value) now closing
  unfolding release_slot
  closing-IsSettled = Memᴰ.head refl

  closing-started : closing.stats.started ≡ s.stats.started
  unfolding observe_outcome open_circuit release_slot
  closing-started = ground arith

-- With a local pause that is not zero: when the operation of a pending request, aborted or not,
-- resolves with a protection response, its promise is resolved with that response, the circuit
-- takes its class and is open for the local pause and for `retryAfterSeconds`, and no shorter than
-- before, and no other request is started.
pub operation_resolved-protected :
    (now id : ℕ) (s : Coordinator) (x : Execution) (xs : List Execution) (p : Protection)
    (retry_after : Option ℕ)
    → take_execution true id s.executing ≡ some (x, xs)
    → 0 < local_pause_ms p s.config
    → let v = outcome (some (protected p)) retry_after in
      let u = operation_resolved now id v s in
      OpenFor now p retry_after s u
      × (u.circuit_classification ≡ p)
      × Memᴰ (x.entry.id, resolved v) u.settled
      × (u.stats.started ≡ s.stats.started)
operation_resolved-protected now id s x xs p retry_after taken pause =
    rw (operation_resolved-closing now id s x xs p retry_after taken)
      (open_for, kept.1, settled, started)
  where
    c : Coordinator
    c = closing now id s x xs p retry_after taken

    opened : OpenFor now p retry_after s c × (c.circuit_classification ≡ p)
    opened = closing-OpenFor now id s x xs p retry_after taken

    kept :
        ((drain now c).circuit_open_until ≡ c.circuit_open_until)
        × ((drain now c).circuit_classification ≡ p)
    kept = drain-keeps now _ (circuit_open_until-loop now c.circuit_open_until p) c (refl, opened.1)

    open_for : OpenFor now p retry_after s (drain now c)
    open_for = rw kept.0 opened.0

    settled :
        Memᴰ (x.entry.id, resolved (outcome (some (protected p)) retry_after)) (drain now c).settled
    settled =
        drain-keeps now _ (IsSettled-Keeps _ now).loop c
          (closing-IsSettled now id s x xs p retry_after taken)

    t : ℕ
    t = now + local_pause_ms p s.config

    shut : IsShut s.stats.started t c
    shut = (
      closing-started now id s x xs p retry_after taken,
      until-Later t c.circuit_open_until opened.0.0 (omega arith),
    )

    started : (drain now c).stats.started ≡ s.stats.started
    started = (drain-keeps now _ (execute-Keeps s.stats.started t now (omega arith)).loop c shut).0
