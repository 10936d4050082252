-- ===== src/Origin/Examples.antt =====
-- Histories of the coordinator: tests of its steps, and its theorems at concrete inputs.
use mathlib.Core.List.{Memᴰ}
use auto_monitor_bot.Base.{
  ◌⊎◌, [], false, ℕ, ◌≡◌, refl, ◌≤◌, List, [], ◌∷◌, none, some, true, false, pos, negsuc, arith,
  length,
}
use auto_monitor_bot.Origin.Request.{
  realtime, backfill, coverage, outcome, success, protected, Protection, sort_queue, preempted,
  error,
}
use auto_monitor_bot.Origin.Canary
use auto_monitor_bot.Origin.Canary.{CanaryOptions}
use auto_monitor_bot.Origin.Evidence.{Evidence}
use auto_monitor_bot.Origin.State.{
  CoordinatorOptions, Coordinator, Execution, resolved, new_coordinator, until_ms, wait_ms,
}
use auto_monitor_bot.Origin.Coordinator.{
  in_flight, Event, submits, guard_passes, operation_resolves, operation_rejects, step, run_events,
  submit, drain, drain_loop, wake, start_entry, reject_queued_for_open_circuit, enqueue,
  preempt_active_background, abort_entry, take_execution, release_slot, catch_failure, guard_passed,
  guard_failed, operation_resolved, operation_rejected, observe_outcome, open_circuit,
}
use auto_monitor_bot.Origin.Flight.{run_events-single_flight}
use auto_monitor_bot.Origin.Accounting.{tally, run_events-accounts}
use auto_monitor_bot.Origin.Circuit.{run_events-open_circuit}
use auto_monitor_bot.Origin.Protected.{OpenFor, operation_resolved-protected}
use auto_monitor_bot.Origin.Order.{StartsOne, drain-starts_head}
use auto_monitor_bot.Origin.Rollback.{is_clean_answer, run_events-canary_evidence}

abbrev options : CoordinatorOptions
options = record {
  max_background_concurrency = pos 3;
  background_min_interval_ms = pos 1000;
  background_quiet_after_realtime_ms = negsuc 4;
  post_finish_quiet_ms = none;
  rate_limit_pause_ms = some (pos 60000);
  challenge_pause_ms = none;
  realtime_quiet_canary = record {
    enabled = some true;
    candidate_quiet_ms = some (pos 150);
    qualification_requests = some (pos 2);
    evaluation_requests = some (pos 2);
    p95_growth_percent = none;
    queue_depth_limit = none;
  };
}

-- What a test of a step computes with.
machine : Coordinator
unfolding new_coordinator run_events step submit drain drain_loop wake start_entry
    reject_queued_for_open_circuit enqueue preempt_active_background abort_entry take_execution
    release_slot catch_failure guard_passed guard_failed operation_resolved operation_rejected
    observe_outcome open_circuit sort_queue wait_ms Canary.quiet_ms_for Canary.observe_queue_depth
    Canary.observe_failure Canary.observe_result Canary.observe_live Canary.observe_qualifying
    Canary.observe_accelerated Canary.judge Canary.trim_to_last Canary.percentile95
machine = new_coordinator options

-- A backfill is preempted by a realtime request, and goes back to the queue.
abbrev preemption : List (ℕ × Event)
preemption =
    (1000, submits 7 backfill)
    ∷ (1010, guard_passes 7)
    ∷ (1020, submits 8 realtime)
    ∷ (1030, operation_rejects 7 (preempted backfill))
    ∷ (1040, guard_passes 8)
    ∷ []

preemption_runs :
    let s = run_events preemption (new_coordinator options) in
    (length s.queue ≡ 1)
    × (length s.executing ≡ 1)
    × (s.active_realtime ≡ 1)
    × (s.stats.realtime_preemptions ≡ 1)
unfolding machine
preemption_runs = (refl, refl, refl, refl)

-- The realtime request then meets a 429, and the queued backfill is rejected.
abbrev incident : List (ℕ × Event)
incident =
    (1000, submits 7 backfill)
    ∷ (1010, guard_passes 7)
    ∷ (1020, submits 8 realtime)
    ∷ (1030, operation_resolves 7 (outcome (some (protected Protection.rate_limited)) (some 90)))
    ∷ []

incident_runs :
    let s = run_events incident (new_coordinator options) in
    (length s.queue ≡ 0)
    × (length s.settled ≡ 2)
    × (s.circuit_open_until ≡ some 91030)
    × (in_flight s ≡ 0)
unfolding machine
incident_runs = (refl, refl, refl, refl)

abbrev before_response : Coordinator
before_response =
    run_events ((1000, submits 7 backfill) ∷ (1010, guard_passes 7) ∷ []) (new_coordinator options)

abbrev after_incident : Coordinator
after_incident = run_events incident (new_coordinator options)

run_events-single_flight_example :
    let s = run_events preemption (new_coordinator options) in
    (length s.executing ≡ in_flight s) × (length s.executing ≤ 1)
run_events-single_flight_example = run_events-single_flight options preemption

run_events-accounts_example : tally 7 (run_events preemption (new_coordinator options)) ≡ 1
run_events-accounts_example = run_events-accounts options 7 preemption

abbrev probes : List (ℕ × Event)
probes = (2000, submits 9 realtime) ∷ (91029, submits 10 coverage) ∷ []

run_events-open_circuit_example :
    ((run_events probes after_incident).stats.started ≡ after_incident.stats.started)
    × (91030 ≤ until_ms (run_events probes after_incident).circuit_open_until)
unfolding machine
run_events-open_circuit_example =
    run_events-open_circuit 91030 probes after_incident refl (omega arith)

abbrev taken : Execution
taken = record {
  entry = record {
    id = 7;
    request_class = backfill;
    enqueued_at = 1000;
    coordinator_wait_ms = some 0;
    applied_post_finish_quiet_ms = some 350;
    operation_started_at = some 1010;
  };
  operating = true;
  aborted = false;
}

operation_resolved-protected_example :
    let u =
      operation_resolved 1030 7
        (outcome (some (protected Protection.challenge)) none)
        before_response in
    OpenFor 1030 Protection.challenge none before_response u
    × (u.circuit_classification ≡ Protection.challenge)
    × Memᴰ (7, resolved (outcome (some (protected Protection.challenge)) none)) u.settled
    × (u.stats.started ≡ before_response.stats.started)
unfolding machine
operation_resolved-protected_example =
    operation_resolved-protected 1030 7 before_response taken [] Protection.challenge none refl
      (omega arith)

drain-starts_head_example :
    StartsOne 5000
      (run_events preemption (new_coordinator options))
      (drain 5000 (run_events preemption (new_coordinator options)))
drain-starts_head_example = drain-starts_head options preemption 5000

-- Two clean realtime requests qualify the canary, which then rolls back at a challenge.
abbrev experiment : List (ℕ × Event)
experiment =
    (1000, submits 1 realtime)
    ∷ (1010, guard_passes 1)
    ∷ (1100, operation_resolves 1 (outcome (some success) none))
    ∷ (2000, submits 2 realtime)
    ∷ (2010, guard_passes 2)
    ∷ (2100, operation_resolves 2 (outcome (some success) none))
    ∷ (3000, submits 3 realtime)
    ∷ (3010, guard_passes 3)
    ∷ (3020, operation_rejects 3 (error "TimeoutError"))
    ∷ []

run_events-canary_evidence_example :
    let k = (run_events experiment (new_coordinator options)).canary in
    Evidence k
    × ((r : Canary.CanaryResult)
        → is_clean_answer r.classification ≡ false
        → ((Canary.observe_result k r).baseline_samples ≡ k.baseline_samples
            ⊎ (Canary.observe_result k r).baseline_samples ≡ [])
          × ((Canary.observe_result k r).canary_samples ≡ k.canary_samples))
run_events-canary_evidence_example = run_events-canary_evidence options experiment
