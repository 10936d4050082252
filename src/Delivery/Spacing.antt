-- ===== src/Delivery/Spacing.antt =====
-- What the gate of packages/shared/src/utils/telegram-send-gate.ts promises: space between the slots,
-- and the order of those that wait for one.
use auto_monitor_bot.Base.{
  ℕ, ◌+◌, ◌≤◌, ◌<◌, ◌≡◌, refl, true, List, [], ◌∷◌, Option, none, some, arith, ◌==◌, subst, sym,
  All, any, Bool-cases, inl, inr,
}
use auto_monitor_bot.Delivery.Gate.{
  Slot, Waiter, Gate, current_slot, live_waiters, without, least, reserve, defer, defer_for,
  wait_turn, GateEvent, reserves, defers, event_time, slots_given,
}

-- No slot is given before `t`.
abbrev IsBlocked : ℕ → Option Slot → Type 0
IsBlocked t none = ⊥
IsBlocked t (some s) = (t ≤ s.value) × (t ≤ s.expires_at)

current_slot-IsBlocked :
    (t now : ℕ) (s : Option Slot) → now < t → IsBlocked t s → t ≤ current_slot now s
current_slot-IsBlocked t now none h b = absurd b
current_slot-IsBlocked t now (some s) h b = ground arith

reserve-IsBlocked :
    (t now interval member lease : ℕ) (g : Gate)
    → now < t
    → IsBlocked t g.slot
    → (0 < (reserve now interval member lease g).0)
      × ((reserve now interval member lease g).1.slot ≡ g.slot)
unfolding reserve
reserve-IsBlocked t now interval member lease g h b =
    ground (arith, current_slot-IsBlocked t now g.slot h b)

defer_for-IsBlocked :
    (t now delay : ℕ) (g : Gate)
    → now < t
    → IsBlocked t g.slot
    → IsBlocked t (defer_for now delay g).slot
unfolding defer_for defer
defer_for-IsBlocked t now delay g h b = ground (arith, current_slot-IsBlocked t now g.slot h b)

slots_given-IsBlocked :
    (t : ℕ) (evs : List GateEvent) (g : Gate)
    → All (λ ev. event_time ev < t) evs
    → IsBlocked t g.slot
    → slots_given evs g ≡ 0
unfolding slots_given
slots_given-IsBlocked t [] g a b = refl
slots_given-IsBlocked t (reserves now interval member lease ∷ evs) g a b =
    let (positive, same) = reserve-IsBlocked t now interval member lease g a.0 b in
    let rest : slots_given evs (reserve now interval member lease g).1 ≡ 0 =
      slots_given-IsBlocked t evs (reserve now interval member lease g).1 a.1
        (subst (IsBlocked t) (sym same) b) in
    ground arith
slots_given-IsBlocked t (defers now delay ∷ evs) g a b =
    slots_given-IsBlocked t evs (defer_for now delay g) a.1
      (defer_for-IsBlocked t now delay g a.0 b)

-- After a slot is given, no history of reservations and deferrals gives another before the minimum
-- interval is over.
pub slots_given-spaced :
    (now interval member lease : ℕ) (g : Gate) (evs : List GateEvent)
    → (reserve now interval member lease g).0 ≡ 0
    → All (λ ev. event_time ev < now + interval) evs
    → slots_given evs (reserve now interval member lease g).1 ≡ 0
unfolding reserve
slots_given-spaced now interval member lease g evs h a =
    slots_given-IsBlocked (now + interval) evs _ a (ground arith)

-- After Telegram asked to wait for some time, no history gives a slot before that time is over.
pub slots_given-deferred :
    (now delay : ℕ) (g : Gate) (evs : List GateEvent)
    → 0 < delay
    → All (λ ev. event_time ev < now + delay) evs
    → slots_given evs (defer_for now delay g) ≡ 0
unfolding defer_for defer
slots_given-deferred now delay g evs h a =
    slots_given-IsBlocked (now + delay) evs _ a (ground arith)

least-le : (member t : ℕ) (ws : List Waiter) → t ≤ least member ws → All (λ w. t ≤ w.member) ws
least-le member t [] h = tt
least-le member t (w ∷ ws) h = (omega (arith, h), least-le member t ws (omega (arith, h)))

All-without :
    (member : ℕ) (ws : List Waiter)
    → All (λ w. member ≤ w.member) (without member ws)
    → All (λ w. member ≤ w.member) ws
All-without member [] a = tt
All-without member (w ∷ ws) a = elim (Bool-cases (w.member == member)) [
  | inl e ↦ (ground arith, All-without member ws (rw e at a))
  | inr e ↦ let b = rw e at a in (b.0, All-without member ws b.1)
]

-- A slot is given only when the last one is over, and only to the first in the order: no waiter
-- whose lease is alive comes before it.
pub reserve-first :
    (now interval member lease : ℕ) (g : Gate)
    → (reserve now interval member lease g).0 ≡ 0
    → (current_slot now g.slot ≤ now) × All (λ w. member ≤ w.member) (live_waiters now g)
unfolding reserve
reserve-first now interval member lease g h = (
  ground arith,
  All-without member (live_waiters now g) (least-le member member _ (ground arith)),
)

-- A waiter that is refused sleeps for a positive time that its lease outlives: when it wakes it is
-- still among the live waiters of the state that it left.
pub wait_turn-waits :
    (interval now member d : ℕ) (g : Gate)
    → (wait_turn interval now member g).0 ≡ some d
    → (0 < d)
      × (any (λ w. w.member == member) (live_waiters (now + d) (wait_turn interval now member g).1)
          ≡ true)
unfolding wait_turn reserve
wait_turn-waits interval now member d g h = ground arith
