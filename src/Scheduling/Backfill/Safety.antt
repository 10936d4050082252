-- ===== src/Scheduling/Backfill/Safety.antt =====
-- What `decideAdaptiveBackfill` of apps/api/src/modules/monitoring/backfill-policy.ts guarantees.
use auto_monitor_bot.Base.{
  ℕ, ◌+◌, ◌≤◌, ◌<◌, max, ◌≡◌, inl, inr, true, false, List, none, some, arith, Option-cases, or_else,
  find, is_some,
}
use auto_monitor_bot.Domain.{is_success}
use auto_monitor_bot.Scheduling.Backfill.{
  BackfillProfile, full, light, Run, Evidence, Mode, recovery, lean, periodic_full, protection,
  Decision, consecutive_clean_runs, is_protected_run, decide_protected, decide_clean, decide_recent,
  decide_unprotected, decide_adaptive_backfill, lean_interval_seconds, latest_run,
}

-- A decision is as deep as its mode says, and never comes more often than the base interval.
abbrev is_deep : Mode → BackfillProfile
is_deep recovery = full
is_deep periodic_full = full
is_deep _ = light

pub record IsSound (base : ℕ) (d : Decision) : Type 0 where
  pub depth : d.profile ≡ is_deep d.mode
  pub not_faster : max 1 base ≤ d.interval_seconds

lean_interval-le : (b : ℕ) → b ≤ lean_interval_seconds b
unfolding lean_interval_seconds
lean_interval-le b = omega arith

decide_clean-IsSound :
    (runs : List Run) (base now : ℕ) → IsSound base (decide_clean runs (max 1 base) now)
unfolding decide_clean
decide_clean-IsSound runs base now = ground (arith, lean_interval-le (max 1 base))

decide_recent-IsSound :
    (e : Evidence) (latest : Run) (base now : ℕ)
    → IsSound base (decide_recent e latest (max 1 base) now)
unfolding decide_recent
decide_recent-IsSound e latest base now = ground (arith, decide_clean-IsSound e.runs base now)

decide_unprotected-IsSound :
    (e : Evidence) (base now : ℕ) → IsSound base (decide_unprotected e (max 1 base) now)
unfolding decide_unprotected
decide_unprotected-IsSound e base now = elim (Option-cases (latest_run e.runs)) [
  | inl h ↦ ground (arith, h, lean_interval-le (max 1 base))
  | inr (r, h) ↦
      ground (arith, h, lean_interval-le (max 1 base), decide_recent-IsSound e r base now)
]

decide_protected-IsSound :
    (r : Run) (runs : List Run) (base now : ℕ) (d : Decision)
    → decide_protected r runs (max 1 base) now ≡ some d
    → IsSound base d
unfolding decide_protected
decide_protected-IsSound r runs base now d h = ground (arith, lean_interval-le (max 1 base))

-- Every decision is full-depth exactly in the modes RECOVERY and PERIODIC_FULL, and its interval is
-- never below the configured one (nor below one second).
pub decide_adaptive_backfill-IsSound :
    (e : Evidence) (base now : ℕ) → IsSound base (decide_adaptive_backfill e base now)
unfolding decide_adaptive_backfill
decide_adaptive_backfill-IsSound e base now = elim (Option-cases (find is_protected_run e.runs)) [
  | inl h ↦ ground (arith, h, decide_unprotected-IsSound e base now)
  | inr (r, h) ↦ elim (Option-cases (decide_protected r e.runs (max 1 base) now)) [
    | inl k ↦ ground (arith, h, k, decide_unprotected-IsSound e base now)
    | inr (d, k) ↦ ground (arith, h, k, decide_protected-IsSound r e.runs base now d k)
  ]
]

-- In the thirty minutes after the latest protected run nothing deepens the scan: the decision is
-- PROTECTION, light, and waits at least thirty minutes, whatever other evidence there is.
pub decide_adaptive_backfill-protected :
    (e : Evidence) (base now : ℕ) (r : Run)
    → find is_protected_run e.runs ≡ some r
    → now < r.started_at + 1800000
    → let d = decide_adaptive_backfill e base now in
      (d.mode ≡ protection) × (d.profile ≡ light) × (1800 ≤ d.interval_seconds)
unfolding decide_adaptive_backfill decide_protected
decide_adaptive_backfill-protected e base now r h early =
    rw (h, decide_adaptive_backfill) (ground arith)

-- The evidence of a backfill at rest.
pub record Rested (e : Evidence) (now : ℕ) : Type 0 where
  pub nothing_pending : or_else e.pending_recovery_count 0 ≡ 0
  pub nothing_unresolved :
      (is_some e.unresolved_recovery ≡ false) × (e.unresolved_observation_count ≡ 0)
  pub latest_fresh :
      (r : Run) × (latest_run e.runs ≡ some r)
      × (now ≤ r.started_at + 900000)
      × (is_success r.status ≡ true)
  pub eight_clean : 8 ≤ consecutive_clean_runs e.runs

decide_clean-lean :
    (runs : List Run) (base now : ℕ)
    → (decide_clean runs base now).mode ≡ lean
    → 8 ≤ consecutive_clean_runs runs
unfolding decide_clean
decide_clean-lean runs base now h = ground arith

decide_recent-lean :
    (e : Evidence) (latest : Run) (base now : ℕ)
    → (decide_recent e latest base now).mode ≡ lean
    → (e.unresolved_observation_count ≡ 0)
      × (is_success latest.status ≡ true)
      × (8 ≤ consecutive_clean_runs e.runs)
unfolding decide_recent
decide_recent-lean e latest base now h = ground (arith, decide_clean-lean e.runs base now)

decide_unprotected-lean :
    (e : Evidence) (base now : ℕ) → (decide_unprotected e base now).mode ≡ lean → Rested e now
unfolding decide_unprotected
decide_unprotected-lean e base now h = elim (Option-cases (latest_run e.runs)) [
  | inl k ↦ absurd (ground (arith, k))
  | inr (r, k) ↦ record {
    nothing_pending = ground (arith, k);
    nothing_unresolved = ground (arith, k, decide_recent-lean e r base now);
    latest_fresh = (r, k, ground (arith, k), ground (arith, k, decide_recent-lean e r base now));
    eight_clean = ground (arith, k, decide_recent-lean e r base now);
  }
]

-- Without a protected run in the evidence, the lean mode is only decided with all of: no pending
-- and no unresolved recovery, no unresolved observation, a latest run that succeeded and is at most
-- fifteen minutes old, and eight clean runs in a row.
pub decide_adaptive_backfill-lean :
    (e : Evidence) (base now : ℕ)
    → find is_protected_run e.runs ≡ none
    → (decide_adaptive_backfill e base now).mode ≡ lean
    → Rested e now
unfolding decide_adaptive_backfill
decide_adaptive_backfill-lean e base now k h =
    decide_unprotected-lean e (max 1 base) now (rw (k, decide_adaptive_backfill) at h)
