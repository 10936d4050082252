-- ===== src/Lease/Stopping.antt =====
-- apps/worker/src/modules/hot-worker-leadership.ts: the ends of a leadership.
use auto_monitor_bot.Base.{ℕ, ◌≡◌, Bool, true, false, List, [], ◌∷◌, Option, some, arith, ◌⊎◌}
use auto_monitor_bot.Lease.Leadership.{
  Phase, idle, releasing, waiting, finished, Instance, System, change, run_election_cycle, execute,
  demote, handle_reply, command_fails, promotion_settles, assert_ownership, stop, stop_goes_on,
  Event, cycle_starts, executes, replies, fails, stops, stop_continues, promotion, asserts, step,
  run_events,
}

-- `assertOwnership` fails closed: it returns only for a leader whose own value the key shows, and
-- behind an error the instance does not lead.
pub assert_ownership-fails_closed :
    (i : ℕ) (current : Option ℕ) (x : Instance)
    → ((assert_ownership i current x).0 ≡ false) × ((assert_ownership i current x).1.leader ≡ false)
      ⊎ (current ≡ some i) × (x.leader ≡ true) × (assert_ownership i current x ≡ (true, x))
unfolding assert_ownership demote
assert_ownership-fails_closed i current x = ground arith

-- What waits when `stop` is over: nothing, or its release.
abbrev is_settling : Phase → Bool
is_settling idle = true
is_settling (releasing r) = true
is_settling _ = false

abbrev pub IsStopped : Instance → Type 0
IsStopped x = (x.stopping ≡ finished) × (x.leader ≡ false) × (is_settling x.phase ≡ true)

step-IsStopped :
    (ttl now : ℕ) (ev : Event) (s : System) (j : ℕ)
    → IsStopped (s.instances j)
    → IsStopped ((step ttl now ev s).instances j)
unfolding step execute run_election_cycle handle_reply command_fails stop stop_goes_on
    promotion_settles assert_ownership demote
step-IsStopped ttl now (executes i) s j v = ground arith
step-IsStopped ttl now (cycle_starts i) s j v = ground arith
step-IsStopped ttl now (replies i) s j v = ground arith
step-IsStopped ttl now (fails i) s j v = ground arith
step-IsStopped ttl now (stops i) s j v = ground arith
step-IsStopped ttl now (stop_continues i) s j v = ground arith
step-IsStopped ttl now (promotion i resolves) s j v = ground arith
step-IsStopped ttl now (asserts i current) s j v = ground arith

run_events_keep :
    (ttl : ℕ) (evs : List (ℕ × Event)) (s : System) (j : ℕ)
    → IsStopped (s.instances j)
    → IsStopped ((run_events ttl evs s).instances j)
unfolding run_events
run_events_keep ttl [] s j v = v
run_events_keep ttl ((now, ev) ∷ evs) s j v =
    run_events_keep ttl evs (step ttl now ev s) j (step-IsStopped ttl now ev s j v)

-- Once `stop` has gone past the cycle that it waits for, no history makes the instance a leader
-- again, whatever commands were under way.
pub run_events-IsStopped :
    (ttl : ℕ) (evs : List (ℕ × Event)) (s : System) (j : ℕ)
    → (s.instances j).stopping ≡ waiting
    → (s.instances j).phase ≡ idle
    → IsStopped ((run_events ttl evs (change j stop_goes_on s)).instances j)
unfolding stop_goes_on demote
run_events-IsStopped ttl evs s j w p =
    run_events_keep ttl evs (change j stop_goes_on s) j (ground arith)
