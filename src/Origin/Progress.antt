-- ===== src/Origin/Progress.antt =====
-- apps/worker/src/modules/olx-request-coordinator.ts: when `drain` and its sleep go on.
use auto_monitor_bot.Base.{
  ℕ, ◌≡◌, sym, true, false, List, ◌∷◌, arith, if◌then◌else◌, if_cases, subst,
}
use auto_monitor_bot.Origin.Request.{Entry}
use auto_monitor_bot.Origin.State.{
  Coordinator, CoordinatorOptions, new_coordinator, is_after, wait_ms,
}
use auto_monitor_bot.Origin.Flight.{run_events-InFlight, new_coordinator-InFlight}
use auto_monitor_bot.Origin.Coordinator.{in_flight, drain, drain_loop, wake, Event, run_events}
use auto_monitor_bot.Origin.Order.{started_execution, drain_loop-start_entry}

-- The head of the queue may start.
pub record IsReady (now : ℕ) (s : Coordinator) (e : Entry) (rest : List Entry) : Type 0 where
  pub head : s.queue ≡ e ∷ rest
  pub slot_free : in_flight s ≡ 0
  pub circuit_closed : is_after s.circuit_open_until now ≡ false
  pub no_wait : wait_ms now s e.request_class ≡ 0

drain_loop-IsReady :
    (now : ℕ) (s : Coordinator) (e : Entry) (rest : List Entry)
    → s.config.max_in_flight ≡ 1
    → IsReady now s e rest
    → (drain_loop now (e ∷ rest) s).executing ≡ started_execution now s e ∷ s.executing
unfolding drain_loop
drain_loop-IsReady now s e rest k ready = ground (
  arith,
  ready.slot_free,
  ready.circuit_closed,
  ready.no_wait,
  drain_loop-start_entry now e rest s ready.slot_free k,
)

module _ (now : ℕ) (e : Entry) (rest : List Entry) where
  abbrev StartsReady : Coordinator → Coordinator → Type 0
  StartsReady s u = u.executing ≡ started_execution now s e ∷ s.executing

  queue-StartsReady :
      (s : Coordinator)
      → s.config.max_in_flight ≡ 1
      → IsReady now s e rest
      → StartsReady s (drain_loop now s.queue s)
  queue-StartsReady s k ready =
      subst (λ q. StartsReady s (drain_loop now q s)) (sym ready.head)
        (drain_loop-IsReady now s e rest k ready)

  wake-StartsReady :
      (s : Coordinator)
      → s.draining ≡ true
      → s.config.max_in_flight ≡ 1
      → IsReady now s e rest
      → StartsReady s (wake now s)
  unfolding wake
  wake-StartsReady s h k ready =
      if_cases (StartsReady s) s.draining (λ _. queue-StartsReady s k ready)
        (λ g. absurd (ground arith))

  draining-IsReady :
      (s : Coordinator) → IsReady now s e rest → IsReady now (record s { draining = true }) e rest
  unfolding wait_ms
  draining-IsReady s ready = record {
    head = ready.head;
    slot_free = ready.slot_free;
    circuit_closed = ready.circuit_closed;
    no_wait = ready.no_wait;
  }

  drain-StartsReady :
      (s : Coordinator)
      → s.draining ≡ false
      → s.config.max_in_flight ≡ 1
      → IsReady now s e rest
      → StartsReady s (drain now s)
  unfolding drain
  drain-StartsReady s h k ready =
      if_cases (StartsReady s) s.draining (λ g. absurd (ground arith))
        (λ _. queue-StartsReady (record s { draining = true }) k (draining-IsReady s ready))

-- In a state that any history leads to: when nothing is in flight, the circuit is closed and no wait
-- is left for the head of the queue, then a `drain` that is not running yet starts that request, and
-- so does the end of the sleep of one that is.
pub drain-starts_ready :
    (o : CoordinatorOptions) (evs : List (ℕ × Event)) (now : ℕ) (e : Entry) (rest : List Entry)
    → IsReady now (run_events evs (new_coordinator o)) e rest
    → let s = run_events evs (new_coordinator o) in
      ((if s.draining then wake now s else drain now s).executing
        ≡ started_execution now s e ∷ s.executing)
drain-starts_ready o evs now e rest ready =
    let s = run_events evs (new_coordinator o) in
    let one =
      (run_events-InFlight evs (new_coordinator o) (new_coordinator-InFlight o)).limit_one in
    if_cases (StartsReady now e rest s) s.draining (λ h. wake-StartsReady now e rest s h one ready)
      (λ h. drain-StartsReady now e rest s h one ready)
