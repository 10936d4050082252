-- ===== src/Lease/Telegram.antt =====
-- apps/worker/src/modules/telegram-send-lease.ts: `withRenewableTelegramLease`, cut at its awaits. How
-- a renewal settles is an argument, `none` where it rejects.
use auto_monitor_bot.Base.{
  ℕ, ◌+◌, ◌≡◌, refl, Bool, true, false, not, ◌||◌, List, [], ◌∷◌, Option, none, some, arith,
  or_else, if◌then◌else◌,
}

-- `failure` and `pending`, and how many assertions wait for the pending renewal.
pub record SendLease : Type 0 where
  pub failure : Bool
  pub pending : Bool
  pub waiting : ℕ

abbrev pub new_send_lease : SendLease
new_send_lease = record { failure = false; pending = false; waiting = 0 }

pub data SendLeaseEvent : Type 0 where
  timer_fires assert_owned : SendLeaseEvent
  renewal_settles : Option Bool → SendLeaseEvent

-- A step, with the number of assertions that return in it.
unfoldable pub send_lease_step : SendLeaseEvent → SendLease → ℕ × SendLease
send_lease_step timer_fires s = (0, if s.failure then s else record s { pending = true })
send_lease_step assert_owned s =
    (0, if s.failure then s else record s { pending = true; waiting = s.waiting + 1 })
send_lease_step (renewal_settles reply) s =
    let failure = s.failure || not (or_else reply false) in
    if s.pending
    then (
      if failure then 0 else s.waiting,
      record { failure = failure; pending = false; waiting = 0 },
    )
    else (0, s)

unfoldable pub owned : List SendLeaseEvent → SendLease → ℕ
owned [] s = 0
owned (ev ∷ evs) s = (send_lease_step ev s).0 + owned evs (send_lease_step ev s).1

pub data IsRefusal : Option Bool → Type 0 where
  denied : IsRefusal (some false)
  rejects : IsRefusal none

owned-failure : (evs : List SendLeaseEvent) (s : SendLease) → s.failure ≡ true → owned evs s ≡ 0
unfolding owned send_lease_step
owned-failure [] s h = refl
owned-failure (timer_fires ∷ evs) s h =
    let rest = owned-failure evs (send_lease_step timer_fires s).1 (ground arith) in ground arith
owned-failure (assert_owned ∷ evs) s h =
    let rest = owned-failure evs (send_lease_step assert_owned s).1 (ground arith) in ground arith
owned-failure (renewal_settles reply ∷ evs) s h =
    let rest = owned-failure evs (send_lease_step (renewal_settles reply) s).1 (ground arith) in
    ground arith

-- One renewal that is refused or rejects ends the ownership: the assertions that wait for it fail,
-- and no later one returns, whatever later renewals say.
pub owned-refused :
    (evs : List SendLeaseEvent) (s : SendLease) (reply : Option Bool)
    → s.pending ≡ true
    → IsRefusal reply
    → owned (renewal_settles reply ∷ evs) s ≡ 0
unfolding owned send_lease_step
owned-refused evs s reply p denied =
    let rest =
      owned-failure evs (send_lease_step (renewal_settles (some false)) s).1 (ground arith) in
    ground arith
owned-refused evs s reply p rejects =
    let rest = owned-failure evs (send_lease_step (renewal_settles none) s).1 (ground arith) in
    ground arith
