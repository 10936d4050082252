-- ===== src/Domain.antt =====
-- The enumerations that the parts of the repository share: packages/shared/src/types/listing.ts,
-- packages/shared/src/types/monitoring.ts and packages/db/prisma/schema.prisma.
use auto_monitor_bot.Base.{Bool, true, false}

-- `ListingSource`.
pub data ListingSource : Type 0 where
  auto_ria olx rst cars_ua automoto mock : ListingSource

-- `ListingDiscoveryLane`.
pub data Lane : Type 0 where
  realtime backfill coverage manual : Lane

-- `CollectorRunStatus`.
pub data RunStatus : Type 0 where
  running success limited skipped cancelled_by_user failed rate_limited captcha_detected : RunStatus

-- `SourceStatus`.
pub data SourceStatus : Type 0 where
  active paused limited error rate_limited captcha_detected disabled : SourceStatus

-- `TimestampConfidence`.
pub data TimestampConfidence : Type 0 where
  high medium low unknown : TimestampConfidence

abbrev pub is_olx : ListingSource → Bool
is_olx olx = true
is_olx _ = false

abbrev pub is_rst : ListingSource → Bool
is_rst rst = true
is_rst _ = false

abbrev pub is_realtime_lane : Lane → Bool
is_realtime_lane realtime = true
is_realtime_lane _ = false

abbrev pub is_backfill_lane : Lane → Bool
is_backfill_lane backfill = true
is_backfill_lane _ = false

-- `isBackgroundDiscoveryLane`.
abbrev pub is_background_discovery_lane : Lane → Bool
is_background_discovery_lane backfill = true
is_background_discovery_lane coverage = true
is_background_discovery_lane _ = false

abbrev pub is_success : RunStatus → Bool
is_success success = true
is_success _ = false
