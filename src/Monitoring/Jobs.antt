-- ===== src/Monitoring/Jobs.antt =====
-- apps/worker/src/processors/collector-run-helpers.ts and apps/worker/src/modules/backfill-profile.ts: what
-- a collector job scans, and when it is dropped as stale. Times are milliseconds.
use auto_monitor_bot.Base.{
  ℕ, ◌+◌, max, min, Bool, true, false, not, ◌&&◌, ◌||◌, Option, none, some, ◌==◌, if◌then◌else◌,
  or_else,
}
use auto_monitor_bot.Domain.{
  ListingSource, auto_ria, Lane, realtime, backfill, coverage, manual, is_olx, is_backfill_lane,
}
use auto_monitor_bot.Scheduling.Backfill.{BackfillProfile, full, light}
use auto_monitor_bot.Worker.Deadlines.{
  Trigger, scheduled, manual_trigger, backfill_trigger, recovery, coverage_trigger,
  scheduled_olx_job_is_stale,
}

-- `BackfillBudgetLimits` and `BackfillScanBudget`.
pub record BackfillBudgetLimits : Type 0 where
  pub default_pages : ℕ
  pub olx_full_pages : ℕ
  pub max_candidates : ℕ
  pub max_duration_ms : ℕ

pub record BackfillScanBudget : Type 0 where
  pub max_pages : ℕ
  pub max_candidates : ℕ
  pub max_duration_ms : ℕ
  pub profile : BackfillProfile

abbrev is_full : BackfillProfile → Bool
is_full full = true
is_full light = false

-- `backfillScanBudget`.
unfoldable pub backfill_scan_budget :
    ListingSource → Lane → Option BackfillProfile → BackfillBudgetLimits → BackfillScanBudget
backfill_scan_budget source lane requested limits =
    let profile = if is_backfill_lane lane then or_else requested full else full in
    let full_pages =
      if is_olx source
      then max 1 (max limits.default_pages limits.olx_full_pages)
      else max 1 limits.default_pages in
    let full_candidates = max 1 limits.max_candidates in
    let full_duration = max 1000 limits.max_duration_ms in
    if not (is_backfill_lane lane) || is_full profile
    then record {
      max_pages = full_pages;
      max_candidates = full_candidates;
      max_duration_ms = full_duration;
      profile = full;
    }
    else record {
      max_pages = min full_pages (if is_olx source then 4 else limits.default_pages);
      max_candidates = min full_candidates 250;
      max_duration_ms = min full_duration 30000;
      profile = light;
    }

-- What the modelled functions read of `CollectorRunJob`.
pub record CollectorJob : Type 0 where
  pub source : ListingSource
  pub trigger : Option Trigger
  pub lane : Option Lane
  pub manual : Bool
  pub lock_retry_count : Option ℕ
  pub backfill_profile : Option BackfillProfile
  pub monitoring_generation : Option ℕ
  pub scheduled_at : Option ℕ

abbrev pub is_coverage_trigger : Option Trigger → Bool
is_coverage_trigger (some coverage_trigger) = true
is_coverage_trigger _ = false

abbrev pub is_recovery_trigger : Option Trigger → Bool
is_recovery_trigger (some recovery) = true
is_recovery_trigger _ = false

abbrev pub is_coverage_lane : Lane → Bool
is_coverage_lane coverage = true
is_coverage_lane _ = false

abbrev lane_of_trigger : Option Trigger → Bool → Lane
lane_of_trigger (some backfill_trigger) by = backfill
lane_of_trigger (some recovery) by = backfill
lane_of_trigger (some manual_trigger) by = manual
lane_of_trigger _ by = if by then manual else realtime

-- `resolveLane`.
unfoldable pub resolve_lane : CollectorJob → Lane
resolve_lane job =
    if is_coverage_trigger job.trigger
    then coverage
    else or_else job.lane (lane_of_trigger job.trigger job.manual)

abbrev trigger_of_lane : Option Lane → Bool → Trigger
trigger_of_lane (some Lane.manual) by = manual_trigger
trigger_of_lane (some coverage) by = if by then manual_trigger else coverage_trigger
trigger_of_lane (some backfill) by = if by then manual_trigger else backfill_trigger
trigger_of_lane _ by = if by then manual_trigger else scheduled

-- `resolveTrigger`.
unfoldable pub resolve_trigger : CollectorJob → Trigger
resolve_trigger job = or_else job.trigger (trigger_of_lane job.lane job.manual)

-- `isCoverage` of a job in a lane, as the functions below write it.
abbrev pub coverage_only : CollectorJob → Lane → Bool
coverage_only job lane = is_coverage_trigger job.trigger || is_coverage_lane lane

-- The environment that the functions read.
pub record CollectorEnv : Type 0 where
  pub limits : BackfillBudgetLimits
  pub auto_ria_public : Bool
  pub coverage_duration_ms : ℕ
  pub scan_duration_ms : ℕ
  pub realtime_max_candidates : ℕ
  pub lock_retry_max : ℕ
  pub lock_retry_delay_ms : ℕ

pub record ScanOptions : Type 0 where
  pub scan_lane : Lane
  pub max_pages : ℕ
  pub max_candidates : ℕ
  pub deadline_at : ℕ
  pub profile : Option BackfillProfile
  pub is_recovery : Bool
  pub is_coverage_only : Bool
  pub olx_protection_cooling : Bool
  pub olx_protection_probe : Bool

abbrev is_auto_ria : ListingSource → Bool
is_auto_ria auto_ria = true
is_auto_ria _ = false

-- `scanDurationMs`.
unfoldable pub scan_duration_ms : CollectorEnv → Lane → ℕ
scan_duration_ms env coverage = env.coverage_duration_ms
scan_duration_ms env backfill = env.limits.max_duration_ms
scan_duration_ms env _ = env.scan_duration_ms

-- `scanOptions`.
unfoldable pub scan_options : CollectorEnv → ℕ → CollectorJob → Lane → Bool → Bool → ScanOptions
scan_options env now job lane cooling probe =
    let only = coverage_only job lane in
    let budget = backfill_scan_budget job.source lane job.backfill_profile env.limits in
    let duration =
      if only
      then env.coverage_duration_ms
      else if is_backfill_lane lane
      then budget.max_duration_ms
      else scan_duration_ms env lane in
    record {
      scan_lane = lane;
      max_pages =
          if only
          then 1
          else if not (is_backfill_lane lane)
          then 1
          else if is_auto_ria job.source && env.auto_ria_public
          then max 2 (min 3 budget.max_pages)
          else budget.max_pages;
      max_candidates =
          if only
          then env.realtime_max_candidates
          else if is_backfill_lane lane
          then budget.max_candidates
          else env.realtime_max_candidates;
      deadline_at = now + duration;
      profile = if is_backfill_lane lane && not only then some budget.profile else none;
      is_recovery = is_recovery_trigger job.trigger;
      is_coverage_only = only;
      olx_protection_cooling = cooling;
      olx_protection_probe = probe;
    }

-- `MonitoringStatus`.
pub data MonitoringStatus : Type 0 where
  running stopped starting pausing failing rate_limiting captcha_blocked : MonitoringStatus

-- What `scheduledJobState` reads of the database: the status and the generation, and how many searches
-- of the job's source wait for a recovery.
pub record MonitoringView : Type 0 where
  pub status : MonitoringStatus
  pub generation : ℕ
  pub pending_recovery_count : ℕ

abbrev pub is_running : MonitoringStatus → Bool
is_running running = true
is_running _ = false

abbrev is_manual_trigger : Trigger → Bool
is_manual_trigger manual_trigger = true
is_manual_trigger _ = false

abbrev is_other_generation : Option ℕ → ℕ → Bool
is_other_generation none current = false
is_other_generation (some g) current = not (current == g)

-- `scheduledJobState(...).stale`, with the options `checkExecutionLag` and `checkRecoveryPending`; the
-- database has no row of the monitoring where the view is `none`.
unfoldable pub scheduled_job_is_stale :
    Bool → Bool → ℕ → Option MonitoringView → CollectorJob → Bool
scheduled_job_is_stale check_lag check_pending now view job =
    let trigger = or_else job.trigger (if job.manual then manual_trigger else scheduled) in
    let late =
      scheduled_olx_job_is_stale
        (record {
          source = job.source;
          lane = job.lane;
          trigger = job.trigger;
          scheduled_at = job.scheduled_at;
          is_manual = job.manual;
        })
        now in
    if is_manual_trigger trigger then false else if check_lag && late then true else (elim view [
      | none ↦ true
      | some v ↦
          if not (is_running v.status)
          then true
          else if is_other_generation job.monitoring_generation v.generation
          then true
          else (is_olx job.source || is_auto_ria job.source)
            && is_recovery_trigger (some trigger)
            && check_pending
            && v.pending_recovery_count == 0
    ])
