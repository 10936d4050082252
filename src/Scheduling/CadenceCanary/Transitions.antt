-- ===== src/Scheduling/CadenceCanary/Transitions.antt =====
-- When the state machine of apps/api/src/modules/monitoring/olx-cadence-canary-policy.ts runs faster.
use auto_monitor_bot.Base.{
  Bool, truthy, ℕ, ◌≤◌, max, ◌≡◌, ◌≢◌, ◌⊎◌, inl, inr, true, false, not, List, [], ◌∷◌, none, some,
  arith, if_cases, Option-cases, length, All, find, find-none,
}
use auto_monitor_bot.Scheduling.CadenceCanary.{
  CanaryMode, baseline, canary, promoted, rolled_back, disabled, CanaryInput, Transition,
  no_transition, enter_canary, promote, rollback, disable, decide_olx_cadence_canary,
  evaluate_accelerated, accelerated_rollback_reason, base_decision, qualify, is_accelerated,
  canary_runs, consecutive_clean_runs, qualification_runs_of, qualification_p95, is_clean_run,
  is_hard_latency, CadenceRun, describe_dirty_run, warned,
}

-- The edges of the state machine; a disabled experiment may be enabled again.
pub data Edge : CanaryMode → Transition → CanaryMode → Type 0 where
  stay : {m : CanaryMode} → Edge m no_transition m
  enable : Edge disabled no_transition baseline
  enter : {m : CanaryMode} → is_accelerated m ≡ false → Edge m enter_canary canary
  promotes : Edge canary promote promoted
  rolls_back : {m : CanaryMode} → is_accelerated m ≡ true → Edge m rollback rolled_back
  disables : {m : CanaryMode} → m ≢ disabled → Edge m disable disabled

-- Every decision follows an edge of the state machine, labelled with its transition.
pub decide_olx_cadence_canary-Edge :
    (i : CanaryInput)
    → Edge i.state.mode (decide_olx_cadence_canary i).transition (decide_olx_cadence_canary i).mode
unfolding decide_olx_cadence_canary evaluate_accelerated qualify base_decision
decide_olx_cadence_canary-Edge i =
    grind (arith, stay, enable, enter, promotes, rolls_back, disables)

-- A decision has the faster cadence of the canary only in the modes CANARY and PROMOTED; in all
-- others it has the base cadence.
pub decide_olx_cadence_canary-cadence :
    (i : CanaryInput)
    → let d = decide_olx_cadence_canary i in
      ((is_accelerated d.mode ≡ true)
        × (d.interval_seconds ≡ i.config.canary_interval_seconds)
        × (d.jitter_seconds ≡ i.config.canary_jitter_seconds))
      ⊎ ((is_accelerated d.mode ≡ false)
          × (d.interval_seconds ≡ i.config.base_interval_seconds)
          × (d.jitter_seconds ≡ i.config.base_jitter_seconds))
unfolding decide_olx_cadence_canary evaluate_accelerated qualify base_decision
decide_olx_cadence_canary-cadence i = ground arith

-- What an input shows that lets an accelerated experiment go on.
pub record IsQuiet (i : CanaryInput) : Type 0 where
  pub no_signal : (i.protection_active ≡ false) × (i.queue_overflow ≡ false)
  pub enough_samples : i.config.hot_path_minimum_samples ≤ i.hot_path_sample_count
  pub all_clean : All (λ r. not (is_clean_run r) ≡ false) (canary_runs i)
  pub no_hard_latency : All (λ r. is_hard_latency i.config.maximum_p95_ms r ≡ false) (canary_runs i)

evaluate_accelerated-IsQuiet :
    (i : CanaryInput)
    → is_accelerated (evaluate_accelerated i).mode ≡ true
    → accelerated_rollback_reason i ≡ none
unfolding evaluate_accelerated
evaluate_accelerated-IsQuiet i h = elim (Option-cases (accelerated_rollback_reason i)) [
  | inl k ↦ k
  | inr (r, k) ↦ absurd (ground (arith, k))
]

-- The first run that is not clean has a description that is not empty.
abbrev is_described : CanaryInput → Bool
is_described i = elim (find (λ r. not (is_clean_run r)) (canary_runs i)) [
  | none ↦ true
  | some r ↦ elim (describe_dirty_run r) [ warned w ↦ truthy (some w) | _ ↦ true ]
]

rollback_reason-none :
    (i : CanaryInput)
    → is_described i ≡ true
    → accelerated_rollback_reason i ≡ none
    → (i.protection_active ≡ false)
      × (i.queue_overflow ≡ false)
      × (find (λ r. not (is_clean_run r)) (canary_runs i) ≡ none)
      × (find (is_hard_latency i.config.maximum_p95_ms) (canary_runs i) ≡ none)
unfolding accelerated_rollback_reason
rollback_reason-none i described h = ground arith

-- An experiment that is accelerated stays so only while there is no protection signal and no queue
-- overflow, the hot path has its samples, and every canary run is clean and within the hard
-- latency limit; provided that no run is unclean for a warning with an empty text.
pub decide_olx_cadence_canary-IsQuiet :
    (i : CanaryInput)
    → is_described i ≡ true
    → is_accelerated i.state.mode ≡ true
    → is_accelerated (decide_olx_cadence_canary i).mode ≡ true
    → IsQuiet i
unfolding decide_olx_cadence_canary
decide_olx_cadence_canary-IsQuiet i described a h = record {
  no_signal = (quiet.0, quiet.1);
  enough_samples = ground arith;
  all_clean = find-none _ (canary_runs i) quiet.2;
  no_hard_latency = find-none _ (canary_runs i) quiet.3;
}
  where
    goes_on : decide_olx_cadence_canary i ≡ evaluate_accelerated i
    goes_on = ground arith

    quiet :
        (i.protection_active ≡ false)
        × (i.queue_overflow ≡ false)
        × (find (λ r. not (is_clean_run r)) (canary_runs i) ≡ none)
        × (find (is_hard_latency i.config.maximum_p95_ms) (canary_runs i) ≡ none)
    quiet = rollback_reason-none i described (evaluate_accelerated-IsQuiet i (rw goes_on at h))

consecutive_clean_runs-clean :
    (runs : List CadenceRun) → All (λ r. is_clean_run r ≡ true) (consecutive_clean_runs runs)
unfolding consecutive_clean_runs
consecutive_clean_runs-clean [] = tt
consecutive_clean_runs-clean (r ∷ rs) =
    if_cases (All (λ r. is_clean_run r ≡ true)) (is_clean_run r)
      (λ h. (h, consecutive_clean_runs-clean rs)) (λ _. tt)

-- The experiment enters its canary only with as many clean runs in a row, since the qualification
-- began, as are required, whose 95th percentile is known and within its limit, with the samples of
-- the hot path, and without a protection signal or queue overflow.
pub decide_olx_cadence_canary-enters :
    (i : CanaryInput)
    → (decide_olx_cadence_canary i).transition ≡ enter_canary
    → (max 1 i.config.qualification_runs ≤ length (qualification_runs_of i))
      × All (λ r. is_clean_run r ≡ true) (qualification_runs_of i)
      × ((p95 : ℕ) × (qualification_p95 i ≡ some p95)
          × (p95 ≤ i.config.qualification_maximum_p95_ms)
          × ((decide_olx_cadence_canary i).baseline_p95_ms ≡ some p95))
      × (i.config.hot_path_minimum_samples ≤ i.hot_path_sample_count)
      × (i.protection_active ≡ false)
      × (i.queue_overflow ≡ false)
unfolding decide_olx_cadence_canary evaluate_accelerated qualify base_decision
decide_olx_cadence_canary-enters i h = elim (Option-cases (qualification_p95 i)) [
  | inl k ↦ absurd (ground (arith, k))
  | inr (p95, k) ↦ (
    ground (arith, k),
    consecutive_clean_runs-clean _,
    (p95, k, ground (arith, k), ground (arith, k)),
    ground (arith, k),
    ground (arith, k),
    ground (arith, k),
  )
]
