-- ===== src/Shared/Examples.antt =====
-- The summaries of packages/shared/src/utils/metrics.ts on a concrete sample.
use auto_monitor_bot.Base.{ℕ, ◌≡◌, refl, List, [], ◌∷◌, some, sort_by, insert_by}
use auto_monitor_bot.Shared.Metrics.{percentile, summarize_sorted, summarize_metric}

abbrev samples : List ℕ
samples = 40 ∷ 10 ∷ 30 ∷ 20 ∷ 90 ∷ []

samples_p50 : (summarize_metric samples).p50 ≡ some 30
unfolding summarize_metric summarize_sorted percentile sort_by insert_by
samples_p50 = refl
