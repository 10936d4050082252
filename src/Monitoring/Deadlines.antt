-- ===== src/Monitoring/Deadlines.antt =====
-- apps/api/src/modules/monitoring/coverage-schedule.ts, startup-backfill-policy.ts and
-- realtime-source-priority.ts. Dates are milliseconds; a configured number of seconds is a number here,
-- and `none` where it is not finite.
use auto_monitor_bot.Base.{
  ℕ, ◌+◌, ◌*◌, max, Bool, ◌&&◌, ◌||◌, Option, none, some, ltb, leb, if◌then◌else◌, or_else,
}
use auto_monitor_bot.Domain.{
  ListingSource, auto_ria, olx, rst, cars_ua, automoto, mock, is_olx, is_rst,
}

-- `startupCoverageDeadline`.
unfoldable pub startup_coverage_deadline : ℕ → Option ℕ → ℕ → ℕ
startup_coverage_deadline now none initial_delay_seconds = now + initial_delay_seconds * 1000
startup_coverage_deadline now (some persisted) initial_delay_seconds =
    if leb persisted now then now else persisted

-- `nextCoverageTickAfterAttempt`.
unfoldable pub next_coverage_tick_after_attempt : ℕ → ℕ → ℕ
next_coverage_tick_after_attempt now interval_seconds = now + max 15 interval_seconds * 1000

abbrev pub min_startup_backfill_delay_seconds : ℕ
min_startup_backfill_delay_seconds = 60

abbrev pub deferred_backfill_retry_seconds : ℕ
deferred_backfill_retry_seconds = 10

-- `startupBackfillDeadline`.
unfoldable pub startup_backfill_deadline : ℕ → Option ℕ → Option ℕ → ℕ
startup_backfill_deadline now existing configured_delay_seconds =
    let floor =
      now + max min_startup_backfill_delay_seconds (or_else configured_delay_seconds 0) * 1000 in
    if ltb floor (or_else existing 0) then or_else existing 0 else floor

-- `deferOriginSensitiveBackfillAfterRealtime`.
unfoldable pub defer_origin_sensitive_backfill_after_realtime :
    ListingSource → (ListingSource → Bool) → Bool
defer_origin_sensitive_backfill_after_realtime source realtime_enqueued =
    (is_olx source || is_rst source) && realtime_enqueued source

-- `nextBackfillTickAfterAttempt`.
unfoldable pub next_backfill_tick_after_attempt : ℕ → Option ℕ → Bool → ℕ
next_backfill_tick_after_attempt now normal_interval_seconds deferred =
    now
    + (if deferred
        then deferred_backfill_retry_seconds
        else max 1 (or_else normal_interval_seconds 1))
      * 1000

-- `SOURCE_ORDER`.
unfoldable pub source_order : ListingSource → ℕ
source_order olx = 0
source_order auto_ria = 1
source_order rst = 2
source_order cars_ua = 3
source_order automoto = 4
source_order mock = 5

-- `realtimeCollectorPriority`.
unfoldable pub realtime_collector_priority : ListingSource → Option ℕ
realtime_collector_priority source = if is_olx source then some 1 else none
