-- ===== src/Worker/Examples.antt =====
-- The policies of apps/worker/src/modules at concrete inputs.
use auto_monitor_bot.Base.{
  ℕ, ◌+◌, ◌<◌, ◌≡◌, refl, ◌⊎◌, false, List, [], ◌∷◌, none, some, arith, if◌then◌else◌, ◌==◌,
}
use auto_monitor_bot.Worker.Parallel.{Outcome, ok, failed, map_with_concurrency, run_promises}
use auto_monitor_bot.Worker.Completion.{run_promises-maps}
use auto_monitor_bot.Worker.RecoveryProgress.{ProgressInput, decide_recovery_progress}
use auto_monitor_bot.Worker.LaneArbiter.{
  new_arbiter, ArbiterEvent, starts, finishes, asks, wait_for_backfill_window, grants, arbiter_step,
}

abbrev stuck : ProgressInput
stuck = record {
  current_progress_page = some 4;
  attempted_progress_page = some 3;
  current_consecutive_no_progress = 2;
  slot_unavailable = false;
  base_backoff_ms = none;
  max_backoff_ms = none;
}

stuck_delay : (decide_recovery_progress stuck).retry_delay_ms ≡ 20000
unfolding decide_recovery_progress
stuck_delay = refl

abbrev scans : List ArbiterEvent
scans =
    asks 100 9000 500
    ∷ starts
    ∷ asks 900 9000 500
    ∷ finishes 1000
    ∷ asks 1200 9000 500
    ∷ asks 1500 9000 500
    ∷ asks 1600 9000 500
    ∷ []

one_grant : grants scans new_arbiter ≡ 1
unfolding grants arbiter_step wait_for_backfill_window
one_grant = refl

-- The items are 0, 1, 2; the last one fails.
abbrev halves : ℕ → Outcome ℕ ℕ
halves i = if i == 2 then failed 7 else ok (i + 10)

run_promises-maps_example :
    let s = run_promises 3 halves (1 ∷ 0 ∷ 0 ∷ []) (map_with_concurrency 3 2) in
    (s.in_flight ≡ [])
    × (((i : ℕ) × (e : ℕ) × (i < 3) × (halves i ≡ failed e) × (s.first_error ≡ some e))
        ⊎ ((s.first_error ≡ none) × ((r : ℕ) × (halves 1 ≡ ok r) × (s.results 1 ≡ some r))))
run_promises-maps_example =
    run_promises-maps 3 2 halves (1 ∷ 0 ∷ 0 ∷ []) 1 (omega arith) (omega arith)
