-- ===== src/Lease/Collector.antt =====
-- apps/worker/src/modules/collector-lease.ts: `CollectorLease`, cut at the awaits of its callbacks.
-- `renew` and `owns` are the caller's; how they settle is an argument, `none` where they reject.
-- Times are milliseconds.
use auto_monitor_bot.Base.{
  ℕ, ◌+◌, ◌≤◌, ◌<◌, ◌≡◌, refl, Bool, true, false, not, ◌||◌, List, [], ◌∷◌, Option, none, some,
  arith, leb, or_else, if◌then◌else◌, All,
}

pub record Lease : Type 0 where
  pub ttl_ms : ℕ
  pub expires_at : ℕ
  pub renewing : Bool
  pub stopped : Bool
  pub aborted : Bool

unfoldable pub new_lease : ℕ → ℕ → Lease
new_lease now ttl_ms = record {
  ttl_ms = ttl_ms;
  expires_at = now + ttl_ms;
  renewing = false;
  stopped = false;
  aborted = false;
}

abbrev pub lose : Lease → Lease
lose l = record l { aborted = true }

-- `check`, which throws where the lease is aborted behind it.
unfoldable pub check : ℕ → Lease → Lease
check now l = if l.stopped || leb l.expires_at now then lose l else l

-- `renew` up to its await: where the check throws, the `catch` and the `finally` follow.
unfoldable pub renew_starts : ℕ → Lease → Lease
renew_starts now l =
    if l.renewing || l.stopped || l.aborted
    then l
    else let checked = check now l in
      if checked.aborted then lose checked else record checked { renewing = true }

-- `renew` behind its await.
unfoldable pub renew_settles : ℕ → Option Bool → Lease → Lease
renew_settles now reply l =
    if not l.renewing
    then l
    else let checked = check now l in
      record (elim reply [
        | none ↦ lose l
        | some renewed ↦
            if checked.aborted
            then lose checked
            else if renewed
            then record checked { expires_at = now + checked.ttl_ms }
            else lose checked
      ]) { renewing = false }

unfoldable pub stop : Lease → Lease
stop l = record l { stopped = true }

-- `assertOwnership` up to its await, and behind it: whether it goes on, and the lease.
unfoldable pub assert_starts : ℕ → Lease → Bool × Lease
assert_starts now l = let checked = check now l in (not checked.aborted, checked)

unfoldable pub assert_settles : ℕ → Option Bool → Lease → Bool × Lease
assert_settles now owns l =
    let checked = check now (if or_else owns false then l else lose l) in
    (not checked.aborted, checked)

pub data LeaseEvent : Type 0 where
  renewal_starts assertion_starts stops : LeaseEvent
  renewal_settles assertion_settles : Option Bool → LeaseEvent

-- A step, with whether an assertion that settles in it returns.
unfoldable pub lease_step : ℕ → LeaseEvent → Lease → Bool × Lease
lease_step now renewal_starts l = (false, renew_starts now l)
lease_step now assertion_starts l = (false, (assert_starts now l).1)
lease_step now stops l = (false, stop l)
lease_step now (renewal_settles reply) l = (false, renew_settles now reply l)
lease_step now (assertion_settles owns) l = assert_settles now owns l

-- How many assertions of a history return.
unfoldable pub returned : List (ℕ × LeaseEvent) → Lease → ℕ
returned [] l = 0
returned ((now, ev) ∷ evs) l =
    (if (lease_step now ev l).0 then 1 else 0) + returned evs (lease_step now ev l).1

-- The lease cannot be owned from `t` on.
abbrev pub IsOver : ℕ → Lease → Type 0
IsOver t l = (l.aborted || l.stopped || leb l.expires_at t) ≡ true

lease_step-IsOver :
    (t now : ℕ) (ev : LeaseEvent) (l : Lease)
    → t ≤ now
    → IsOver t l
    → ((lease_step now ev l).0 ≡ false) × IsOver t (lease_step now ev l).1
unfolding lease_step renew_starts renew_settles stop assert_starts assert_settles check
lease_step-IsOver t now renewal_starts l h v = ground arith
lease_step-IsOver t now assertion_starts l h v = ground arith
lease_step-IsOver t now stops l h v = ground arith
lease_step-IsOver t now (renewal_settles reply) l h v = ground arith
lease_step-IsOver t now (assertion_settles owns) l h v = ground arith

-- A lease that is lost, stopped, or past its expiry at `t` is never owned again: no assertion that
-- settles from then on returns, whatever renewals were under way or are acknowledged late.
pub returned-IsOver :
    (t : ℕ) (evs : List (ℕ × LeaseEvent)) (l : Lease)
    → All (λ e. t ≤ e.0) evs
    → IsOver t l
    → returned evs l ≡ 0
unfolding returned
returned-IsOver t [] l a v = refl
returned-IsOver t ((now, ev) ∷ evs) l a v =
    let (fails, over) = lease_step-IsOver t now ev l a.0 v in
    let rest = returned-IsOver t evs (lease_step now ev l).1 a.1 over in ground arith

-- A renewal that settles keeps the lease only if it was acknowledged, and in time: then the lease
-- runs from that moment for its whole time. Otherwise it is lost, or expires as before.
pub renew_settles-kept :
    (now : ℕ) (reply : Option Bool) (l : Lease)
    → l.renewing ≡ true
    → (renew_settles now reply l).aborted ≡ false
    → (reply ≡ some true)
      × (l.stopped ≡ false)
      × (now < l.expires_at)
      × ((renew_settles now reply l).expires_at ≡ now + l.ttl_ms)
unfolding renew_settles check
renew_settles-kept now reply l r h = ground arith
