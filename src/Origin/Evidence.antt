-- ===== src/Origin/Evidence.antt =====
-- apps/worker/src/modules/olx-request-coordinator.ts: on what evidence `RealtimeQuietCanary` runs
-- with the shorter quiet period.
use Prim.Native.String.{String}
use auto_monitor_bot.Base.{
  ℕ, ◌-◌, ◌≤◌, ◌≢◌, min, ◌≡◌, refl, true, List, [], ◌∷◌, ◌++◌, none, arith, length, length-append,
  length-drop,
}
use auto_monitor_bot.Origin.Canary

pub record Evidence (k : Canary.Canary) : Type 0 where
  pub shorter : k.candidate_quiet_ms ≤ k.baseline_quiet_ms
  pub some_needed : (1 ≤ k.qualification_requests) × (1 ≤ k.evaluation_requests)
  pub baseline_kept : length k.baseline_samples ≤ k.qualification_requests
  pub canary_kept : length k.canary_samples ≤ k.evaluation_requests
  pub accelerated_qualified :
      Canary.is_accelerated k.mode ≡ true → length k.baseline_samples ≡ k.qualification_requests
  pub promoted_evaluated :
      k.mode ≡ Canary.promoted → length k.canary_samples ≡ k.evaluation_requests
  pub rolled_back_reasoned : k.mode ≡ Canary.rolled_back → k.rollback_reason ≢ none

length-trim_to_last :
    (xs : List ℕ) (limit : ℕ) → length (Canary.trim_to_last xs limit) ≡ min limit (length xs)
unfolding Canary.trim_to_last
length-trim_to_last xs limit = omega (arith, length-drop (length xs - limit) xs)

pub new_canary-Evidence :
    (baseline : ℕ) (o : Canary.CanaryOptions) → Evidence (Canary.new_canary baseline o)
unfolding Canary.new_canary
new_canary-Evidence baseline o = ground arith

pub observe_queue_depth-Evidence :
    (k : Canary.Canary) (depth : ℕ) → Evidence k → Evidence (Canary.observe_queue_depth k depth)
unfolding Canary.observe_queue_depth
observe_queue_depth-Evidence k depth v = ground arith

pub observe_failure-Evidence :
    (k : Canary.Canary) (reason : String) → Evidence k → Evidence (Canary.observe_failure k reason)
unfolding Canary.observe_failure
observe_failure-Evidence k reason v = ground arith

observe_qualifying-Evidence :
    (k : Canary.Canary) (elapsed_ms : ℕ)
    → k.mode ≡ Canary.qualifying
    → Evidence k
    → Evidence (Canary.observe_qualifying k elapsed_ms)
unfolding Canary.observe_qualifying
observe_qualifying-Evidence k elapsed_ms m v = ground (
  arith,
  length-trim_to_last (k.baseline_samples ++ elapsed_ms ∷ []) k.qualification_requests,
  length-append k.baseline_samples (elapsed_ms ∷ []),
)

judge-Evidence :
    (k : Canary.Canary)
    → Canary.is_accelerated k.mode ≡ true
    → Evidence k
    → Evidence (Canary.judge k)
unfolding Canary.judge
judge-Evidence k m v = ground arith

observe_accelerated-Evidence :
    (k : Canary.Canary) (elapsed_ms : ℕ)
    → Canary.is_accelerated k.mode ≡ true
    → Evidence k
    → Evidence (Canary.observe_accelerated k elapsed_ms)
unfolding Canary.observe_accelerated
observe_accelerated-Evidence k elapsed_ms m v = judge-Evidence _ m (
    ground (
      arith,
      length-trim_to_last (k.canary_samples ++ elapsed_ms ∷ []) k.evaluation_requests,
      length-append k.canary_samples (elapsed_ms ∷ []),
    ))

observe_live-Evidence :
    (k : Canary.Canary) (m : Canary.CanaryMode) (r : Canary.CanaryResult)
    → k.mode ≡ m
    → m ≢ Canary.disabled
    → m ≢ Canary.rolled_back
    → Evidence k
    → Evidence (Canary.observe_live k r)
unfolding Canary.observe_live
observe_live-Evidence k Canary.disabled r h d b v = absurd (d refl)
observe_live-Evidence k Canary.rolled_back r h d b v = absurd (b refl)
observe_live-Evidence k Canary.qualifying r h d b v =
    ground (arith, observe_qualifying-Evidence k r.elapsed_ms h v)
observe_live-Evidence k Canary.canary r h d b v =
    ground (arith, observe_accelerated-Evidence k r.elapsed_ms (ground arith) v)
observe_live-Evidence k Canary.promoted r h d b v =
    ground (arith, observe_accelerated-Evidence k r.elapsed_ms (ground arith) v)

pub observe_result-Evidence :
    (k : Canary.Canary) (m : Canary.CanaryMode) (r : Canary.CanaryResult)
    → k.mode ≡ m
    → Evidence k
    → Evidence (Canary.observe_result k r)
unfolding Canary.observe_result
observe_result-Evidence k Canary.disabled r h v = rw (h, Canary.observe_result) v
observe_result-Evidence k Canary.rolled_back r h v = rw (h, Canary.observe_result) v
observe_result-Evidence k m r h v =
    ground (arith, observe_live-Evidence k m r h (λ e. cc) (λ e. cc) v)
