-- ===== src/Monitoring/Ticks.antt =====
-- apps/api/src/modules/monitoring/orchestrator.ts: what a realtime tick enqueues, and when the next one is.
use auto_monitor_bot.Base.{
  ℕ, ◌+◌, ◌≤◌, ◌<◌, max, min, ◌≡◌, refl, Bool, false, not, ◌&&◌, List, [], ◌∷◌, Option, none, some,
  arith, ltb, ◌==◌, or_else, filter, sort_by, All, IsSortedBy, sort_by-IsSortedBy, count_by,
  count_by-sort_by, if_cases, ◌∙◌,
}
use auto_monitor_bot.Domain.{ListingSource}
use auto_monitor_bot.Monitoring.Deadlines.{source_order}
use auto_monitor_bot.Monitoring.Orchestrator.{
  SourceRow, EnqueuedJob, source_due, prioritize_realtime_sources, realtime_job, rescheduled,
  tick_sources, tick_realtime, nearest_deadline_ms, schedule_next_ms,
}

abbrev pub is_of : SourceRow → ListingSource → Bool
is_of s source = source_order s.source == source_order source

tick_sources-due :
    (interval_ms : SourceRow → ℕ) (generation now : ℕ) (source : ListingSource)
    (sources : List SourceRow)
    → let out = tick_sources interval_ms generation now sources in
      count_by (λ j. source_order j.source == source_order source) out.0
      ≡ count_by (λ s. is_of s source && source_due s now) sources
unfolding tick_sources realtime_job
tick_sources-due interval_ms generation now source [] = refl
tick_sources-due interval_ms generation now source (s ∷ sources) =
    let rest = tick_sources-due interval_ms generation now source sources in ground arith

tick_sources-settled :
    (interval_ms : SourceRow → ℕ) (generation now : ℕ) (sources : List SourceRow)
    → ((s : SourceRow) → 0 < interval_ms s)
    → All (λ s. source_due s now ≡ false) (tick_sources interval_ms generation now sources).1
unfolding tick_sources source_due rescheduled
tick_sources-settled interval_ms generation now [] pos = tt
tick_sources-settled interval_ms generation now (s ∷ sources) pos =
    let rest = tick_sources-settled interval_ms generation now sources pos in
    if_cases
      (λ (out : List EnqueuedJob × List SourceRow). All (λ x. source_due x now ≡ false) out.1)
      (not (source_due s now)) (λ idle. (ground arith, rest)) (λ due. (ground (arith, pos s), rest))

-- The order of `prioritizeRealtimeSources`, of rows and of jobs.
abbrev row_before : SourceRow → SourceRow → Bool
row_before a b = ltb (source_order a.source) (source_order b.source)

abbrev pub job_before : EnqueuedJob → EnqueuedJob → Bool
job_before a b = ltb (source_order a.source) (source_order b.source)

tick_sources-behind :
    (interval_ms : SourceRow → ℕ) (generation now : ℕ) (x : SourceRow) (sources : List SourceRow)
    → All (λ y. row_before y x ≡ false) sources
    → All
        (λ j. job_before j (realtime_job generation now x) ≡ false)
        (tick_sources interval_ms generation now sources).0
unfolding tick_sources realtime_job
tick_sources-behind interval_ms generation now x [] a = tt
tick_sources-behind interval_ms generation now x (s ∷ sources) a =
    let rest = tick_sources-behind interval_ms generation now x sources a.1 in
    if_cases
      (λ (out : List EnqueuedJob × List SourceRow).
        All (λ j. job_before j (realtime_job generation now x) ≡ false) out.0)
      (not (source_due s now)) (λ idle. rest) (λ due. (a.0, rest))

tick_sources-IsSortedBy :
    (interval_ms : SourceRow → ℕ) (generation now : ℕ) (sources : List SourceRow)
    → IsSortedBy row_before sources
    → IsSortedBy job_before (tick_sources interval_ms generation now sources).0
unfolding tick_sources
tick_sources-IsSortedBy interval_ms generation now [] a = tt
tick_sources-IsSortedBy interval_ms generation now (s ∷ sources) a =
    let rest = tick_sources-IsSortedBy interval_ms generation now sources a.1 in
    if_cases (λ (out : List EnqueuedJob × List SourceRow). IsSortedBy job_before out.0)
      (not (source_due s now)) (λ idle. rest)
      (λ due. (tick_sources-behind interval_ms generation now s sources a.0, rest))

count_by-filter {ℓ} :
    {A : Type ℓ} (p q : A → Bool) (xs : List A)
    → count_by p (filter q xs) ≡ count_by (λ x. q x && p x) xs
count_by-filter p q [] = refl
count_by-filter p q (x ∷ xs) = let rest = count_by-filter p q xs in ground arith

-- A realtime tick enqueues as many jobs of a source as the source has rows that are enabled, targeted
-- by a filter and due; it enqueues the jobs in the order of the sources, OLX's first; and where every
-- interval is positive, none of the rows is due behind it.
pub tick_realtime-due :
    (interval_ms : SourceRow → ℕ) (is_target : ListingSource → Bool) (generation now : ℕ)
    (sources : List SourceRow) (source : ListingSource)
    → ((s : SourceRow) → 0 < interval_ms s)
    → let out = tick_realtime interval_ms is_target generation now sources in
      (count_by (λ j. source_order j.source == source_order source) out.0
        ≡ count_by
            (λ s. (s.enabled && is_target s.source) && (is_of s source && source_due s now))
            sources)
      × IsSortedBy job_before out.0
      × All (λ s. source_due s now ≡ false) out.1
unfolding tick_realtime prioritize_realtime_sources
tick_realtime-due interval_ms is_target generation now sources source pos =
    let wanted = λ (s : SourceRow). s.enabled && is_target s.source in
    let picked = filter wanted sources in
    let ordered = sort_by row_before picked in
    (
      tick_sources-due interval_ms generation now source ordered
          ∙ count_by-sort_by row_before (λ s. is_of s source && source_due s now) picked
          ∙ count_by-filter (λ s. is_of s source && source_due s now) wanted sources,
      tick_sources-IsSortedBy interval_ms generation now ordered (
          sort_by-IsSortedBy row_before (λ x y h. ground arith) (λ x y z h k. ground arith) picked),
      tick_sources-settled interval_ms generation now ordered pos,
    )

nearest_deadline_ms-soon :
    (least most now sleep : ℕ) (deadlines : List (Option ℕ))
    → sleep ≤ max least (nearest_deadline_ms now most deadlines)
    → All (λ d. now + sleep ≤ max (now + least) (or_else d (now + sleep))) deadlines
unfolding nearest_deadline_ms
nearest_deadline_ms-soon least most now sleep [] h = tt
nearest_deadline_ms-soon least most now sleep (none ∷ deadlines) h =
    (omega arith, nearest_deadline_ms-soon least most now sleep deadlines h)
nearest_deadline_ms-soon least most now sleep (some at ∷ deadlines) h =
    (omega arith, nearest_deadline_ms-soon least most now sleep deadlines (omega arith))

-- The next tick comes no sooner than the least sleep and no later than the longest one, whether the
-- database answers or not; and no later than any of the deadlines that it finds, except where the
-- least sleep goes beyond it.
pub schedule_next_ms-bounded :
    (least most now : ℕ) (deadlines : List (Option ℕ))
    → least ≤ most
    → let sleep = schedule_next_ms least most now (some deadlines) in
      (least ≤ sleep)
      × (sleep ≤ most)
      × (schedule_next_ms least most now none ≡ most)
      × All (λ d. now + sleep ≤ max (now + least) (or_else d (now + sleep))) deadlines
unfolding schedule_next_ms
schedule_next_ms-bounded least most now deadlines h = (
  omega arith,
  omega arith,
  omega arith,
  nearest_deadline_ms-soon least most now
      (max least (min most (nearest_deadline_ms now most deadlines))) deadlines (omega arith),
)
