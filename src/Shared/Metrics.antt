-- ===== src/Shared/Metrics.antt =====
-- packages/shared/src/utils/metrics.ts: summaries of latency samples and the decisions on them.
-- Samples are whole milliseconds; a ratio stands as a percentage.
pub mod Percentiles
use auto_monitor_bot.Base.{
  ℕ, ◌+◌, ◌-◌, ◌*◌, ◌/◌, max, min, Bool, true, false, ◌&&◌, ◌||◌, List, [], ◌∷◌, ◌++◌, Option, none,
  some, ltb, leb, if◌then◌else◌, or_else, is_some, length, get_elem?, filter, sort_by,
}

-- `MetricSummary`.
pub record MetricSummary : Type 0 where
  pub count : ℕ
  pub avg : Option ℕ
  pub min : Option ℕ
  pub max : Option ℕ
  pub p50 : Option ℕ
  pub p95 : Option ℕ
  pub p99 : Option ℕ

-- `percentile(sorted, percent / 100)`: `Math.ceil(n * value)` is exact at 50, 95 and 99 percent.
unfoldable pub percentile : List ℕ → ℕ → ℕ
percentile sorted percent =
    let n = length sorted in
    or_else (get_elem? sorted (min (n - 1) ((n * percent + 99) / 100 - 1))) 0

abbrev pub sum : List ℕ → ℕ
sum [] = 0
sum (x ∷ xs) = x + sum xs

-- `Math.round(sum / n)` for a positive `n`.
abbrev round_div : ℕ → ℕ → ℕ
round_div a n = (2 * a + n) / (2 * n)

abbrev empty_summary : MetricSummary
empty_summary = record {
  count = 0;
  avg = none;
  min = none;
  max = none;
  p50 = none;
  p95 = none;
  p99 = none;
}

-- The summary of samples that are sorted and not empty.
unfoldable pub summarize_sorted : List ℕ → MetricSummary
summarize_sorted sorted = record {
  count = length sorted;
  avg = some (round_div (sum sorted) (length sorted));
  min = get_elem? sorted 0;
  max = get_elem? sorted (length sorted - 1);
  p50 = some (percentile sorted 50);
  p95 = some (percentile sorted 95);
  p99 = some (percentile sorted 99);
}

unfoldable pub summarize_metric : List ℕ → MetricSummary
summarize_metric [] = empty_summary
summarize_metric (x ∷ xs) = summarize_sorted (sort_by ltb (x ∷ xs))

pub record MinimumSamples : Type 0 where
  pub p50 : ℕ
  pub p95 : ℕ
  pub p99 : ℕ

-- `LATENCY_PERCENTILE_MIN_SAMPLES`.
abbrev pub latency_percentile_min_samples : MinimumSamples
latency_percentile_min_samples = record { p50 = 5; p95 = 30; p99 = 100 }

-- `QualifiedMetricSummary`; `is_ready` stands for its `status`.
pub record QualifiedSummary : Type 0 where
  pub count : ℕ
  pub max : Option ℕ
  pub p50 : Option ℕ
  pub p95 : Option ℕ
  pub p99 : Option ℕ
  pub is_ready : Bool

abbrev pub shown_if : Bool → Option ℕ → Option ℕ
shown_if ready value = if ready then value else none

unfoldable pub qualify_metric_summary : MetricSummary → MinimumSamples → QualifiedSummary
qualify_metric_summary s least = record {
  count = s.count;
  max = s.max;
  p50 = shown_if (leb least.p50 s.count) s.p50;
  p95 = shown_if (leb least.p95 s.count) s.p95;
  p99 = shown_if (leb least.p99 s.count) s.p99;
  is_ready = leb least.p95 s.count;
}

pub data RegressionStatus : Type 0 where
  pass fail insufficient_data : RegressionStatus

-- `LatencyRegressionDecision`, without its text.
pub record RegressionDecision : Type 0 where
  pub status : RegressionStatus
  pub baseline_p95_ms : Option ℕ
  pub candidate_p95_ms : Option ℕ
  pub maximum_candidate_p95_ms : Option ℕ

-- `Math.round(baseline * Math.max(1, maximumGrowthRatio))`, with the ratio in percent.
abbrev pub growth_limit : ℕ → ℕ → ℕ
growth_limit baseline percent = (baseline * max 100 percent + 50) / 100

abbrev insufficient : MetricSummary → MetricSummary → RegressionDecision
insufficient baseline candidate = record {
  status = insufficient_data;
  baseline_p95_ms = baseline.p95;
  candidate_p95_ms = candidate.p95;
  maximum_candidate_p95_ms = none;
}

abbrev judged : ℕ → ℕ → ℕ → RegressionDecision
judged b c percent = record {
  status = if leb c (growth_limit b percent) then pass else fail;
  baseline_p95_ms = some b;
  candidate_p95_ms = some c;
  maximum_candidate_p95_ms = some (growth_limit b percent);
}

unfoldable pub evaluate_latency_regression :
    MetricSummary → MetricSummary → Option ℕ → ℕ → RegressionDecision
evaluate_latency_regression baseline candidate minimum_samples percent =
    let least = max 1 (or_else minimum_samples latency_percentile_min_samples.p95) in
    let none_yet = insufficient baseline candidate in
    if ltb baseline.count least || ltb candidate.count least then none_yet else (elim baseline.p95 [
      | none ↦ none_yet
      | some b ↦ elim candidate.p95 [ none ↦ none_yet | some c ↦ judged b c percent ]
    ])

-- `durationMs`: both ends known, and not negative.
unfoldable pub duration_ms : Option ℕ → Option ℕ → Option ℕ
duration_ms (some start) (some end) = if leb start end then some (end - start) else none
duration_ms _ _ = none

-- `pushDuration`.
unfoldable pub push_duration : List ℕ → Option ℕ → Option ℕ → List ℕ
push_duration target start end = elim (duration_ms start end) [
  | none ↦ target
  | some d ↦ target ++ d ∷ []
]

-- `splitSessionJournalLatencies` on the times `firstSeenAt`: catch-up and steady state.
unfoldable pub split_session : List ℕ → ℕ → ℕ → List ℕ × List ℕ
split_session first_seen started_at catch_up_window_ms =
    let current = filter (λ t. leb started_at t) first_seen in
    let catch_up_until = started_at + catch_up_window_ms in
    (filter (λ t. leb t catch_up_until) current, filter (λ t. ltb catch_up_until t) current)
