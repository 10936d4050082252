-- ===== src/Lease/Examples.antt =====
-- The leases at concrete histories.
use auto_monitor_bot.Base.{
  ◌≢◌, ℕ, ◌≤◌, ◌<◌, ◌≡◌, refl, ◌⊎◌, true, false, List, [], ◌∷◌, none, some, arith, ltb,
}
use auto_monitor_bot.Lease.Leadership.{
  System, Instance, Event, cycle_starts, executes, replies, promotion, start_system, holds,
  run_events, step, execute, run_election_cycle, handle_reply, demote, command_fails,
  promotion_settles, stop, stop_goes_on, assert_ownership,
}
use auto_monitor_bot.Lease.Exclusion.{run_events-one_leader}
use auto_monitor_bot.Lease.Collector.{
  Lease, LeaseEvent, renewal_settles, assertion_settles, new_lease, returned, returned-IsOver,
}
use auto_monitor_bot.Lease.Claim.{
  ClaimEvent, by_token, claims, releases, claim_hot_listing, claim_run, claim_hot_listing-exclusive,
}

-- Instance 1 is promoted, and stalls; its lease runs out, and instance 2 takes over.
abbrev failover : List (ℕ × Event)
failover =
    (1000, cycle_starts 1)
    ∷ (1001, executes 1)
    ∷ (1002, replies 1)
    ∷ (1003, promotion 1 true)
    ∷ (6100, cycle_starts 2)
    ∷ (6101, executes 2)
    ∷ (6102, replies 2)
    ∷ []

-- What a test of a history computes with.
electing : System
unfolding run_events step execute run_election_cycle handle_reply demote command_fails
    promotion_settles stop stop_goes_on assert_ownership
electing = run_events 5000 failover start_system

run_events-one_leader_example :
    let s = run_events 5000 failover start_system in
    ((s.instances 1).leader ≡ true
      → (0 < s.granted_until 1) × (holds 6200 1 s ≡ ltb 6200 (s.granted_until 1)))
    × (◌≢◌ {A = ℕ} 1 2
        → (s.instances 1).leader ≡ true
        → (s.instances 2).leader ≡ true
        → (s.granted_until 1 ≤ 6200) ⊎ (s.granted_until 2 ≤ 6200))
run_events-one_leader_example =
    run_events-one_leader 5000 failover 6200 1 2 (omega arith) (omega arith)

abbrev leading : Instance
leading = (run_events 5000 failover start_system).instances 1

abbrev late_renewal : List (ℕ × LeaseEvent)
late_renewal = (31000, renewal_settles (some true)) ∷ (31001, assertion_settles (some true)) ∷ []

abbrev renewing_lease : Lease
renewing_lease = record (new_lease 1000 30000) { renewing = true }

returned-IsOver_example : returned late_renewal renewing_lease ≡ 0
unfolding new_lease
returned-IsOver_example =
    returned-IsOver 31000 late_renewal renewing_lease (omega arith, (omega arith, tt)) refl

abbrev rivals : List (ℕ × ClaimEvent)
rivals = (2000, claims 8 true) ∷ (3000, releases (by_token 8) true) ∷ (4000, claims 9 false) ∷ []

claim_hot_listing-exclusive_example :
    (claim_hot_listing 60 5000 9 true
      (claim_run 60 rivals (claim_hot_listing 60 1000 7 true none).1)).0
    ≡ none
unfolding claim_hot_listing
claim_hot_listing-exclusive_example =
    claim_hot_listing-exclusive 60 1000 7 5000 9 none rivals refl
      ((omega arith, tt), ((omega arith, omega arith), ((omega arith, tt), tt))) (omega arith)
