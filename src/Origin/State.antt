-- ===== src/Origin/State.antt =====
-- apps/worker/src/modules/olx-request-coordinator.ts: the state of `OlxRequestCoordinator`, its
-- constructor, the circuit and the waiting times.
-- Times are whole milliseconds of one clock, read once in each synchronous stretch of code;
-- `Number.NEGATIVE_INFINITY` is `none`.
use auto_monitor_bot.Base.{
  ℕ, ◌+◌, ◌-◌, ◌/◌, max, min, Bool, false, List, [], Option, none, some, ℤ, max_zero, ltb,
  if◌then◌else◌,
}
use auto_monitor_bot.Origin.Request.{
  RequestClass, is_realtime, RequestCounters, empty_counters, Protection, rate_limited, Failure,
  circuit_open, Outcome, Entry,
}
use auto_monitor_bot.Origin.Canary.{Canary, CanaryOptions, new_canary, quiet_ms_for, option_or}

pub record CoordinatorOptions : Type 0 where
  pub max_background_concurrency : ℤ
  pub background_min_interval_ms : ℤ
  pub background_quiet_after_realtime_ms : ℤ
  pub post_finish_quiet_ms : Option ℤ
  pub rate_limit_pause_ms : Option ℤ
  pub challenge_pause_ms : Option ℤ
  pub realtime_quiet_canary : CanaryOptions

pub record Config : Type 0 where
  pub max_in_flight : ℕ
  pub background_min_interval_ms : ℕ
  pub background_quiet_after_realtime_ms : ℕ
  pub rate_limit_pause_ms : ℕ
  pub challenge_pause_ms : ℕ

-- What became of a caller's promise.
pub data Settlement : Type 0 where
  resolved : Outcome → Settlement
  rejected : Failure → Settlement

-- A run of `execute` that has not reached its `finally`: its entry, whether the guard has let it
-- through to its operation, and whether its `AbortController` has been aborted.
pub record Execution : Type 0 where
  pub entry : Entry
  pub operating : Bool
  pub aborted : Bool

pub record Stats : Type 0 where
  pub started : RequestCounters
  pub completed : RequestCounters
  pub total_wait_ms : RequestCounters
  pub last_wait_ms : RequestCounters
  pub max_wait_ms : RequestCounters
  pub rate_limited : ℕ
  pub challenges : ℕ
  pub access_denied : ℕ
  pub realtime_preemptions : ℕ

-- `executing` and `settled` stand for the pending calls of `execute` and for the promises that are
-- settled, the latest first.
pub record Coordinator : Type 0 where
  pub config : Config
  pub stats : Stats
  pub queue : List Entry
  pub executing : List Execution
  pub settled : List (ℕ × Settlement)
  pub active_realtime : ℕ
  pub active_background : ℕ
  pub active_background_entry : Option ℕ
  pub last_realtime_finished_at : Option ℕ
  pub last_request_finished_at : Option ℕ
  pub last_background_started_at : Option ℕ
  pub draining : Bool
  pub circuit_open_until : Option ℕ
  pub circuit_classification : Protection
  pub last_completed_request_class : Option RequestClass
  pub canary : Canary

-- `OLX_REQUEST_POST_FINISH_QUIET_MS`.
abbrev pub olx_request_post_finish_quiet_ms : ℕ
olx_request_post_finish_quiet_ms = 350

abbrev empty_stats : Stats
empty_stats = record {
  started = empty_counters;
  completed = empty_counters;
  total_wait_ms = empty_counters;
  last_wait_ms = empty_counters;
  max_wait_ms = empty_counters;
  rate_limited = 0;
  challenges = 0;
  access_denied = 0;
  realtime_preemptions = 0;
}

unfoldable pub new_coordinator : CoordinatorOptions → Coordinator
unfolding new_canary
new_coordinator o = record {
  config = record {
    max_in_flight = min 1 (max 1 (max_zero o.max_background_concurrency));
    background_min_interval_ms = max_zero o.background_min_interval_ms;
    background_quiet_after_realtime_ms = max_zero o.background_quiet_after_realtime_ms;
    rate_limit_pause_ms = max 1000 (option_or o.rate_limit_pause_ms 90000);
    challenge_pause_ms = max 1000 (option_or o.challenge_pause_ms 900000);
  };
  stats = empty_stats;
  queue = [];
  executing = [];
  settled = [];
  active_realtime = 0;
  active_background = 0;
  active_background_entry = none;
  last_realtime_finished_at = none;
  last_request_finished_at = none;
  last_background_started_at = none;
  draining = false;
  circuit_open_until = none;
  circuit_classification = rate_limited;
  last_completed_request_class = none;
  canary =
      new_canary (option_or o.post_finish_quiet_ms olx_request_post_finish_quiet_ms)
        o.realtime_quiet_canary;
}

-- `this.circuitOpenUntil > now`.
abbrev pub is_after : Option ℕ → ℕ → Bool
is_after none now = false
is_after (some t) now = ltb now t

-- `Math.max(0, last + quiet - now)`.
abbrev pub remaining : Option ℕ → ℕ → ℕ → ℕ
remaining none quiet now = 0
remaining (some last) quiet now = last + quiet - now

abbrev pub until_ms : Option ℕ → ℕ
until_ms none = 0
until_ms (some t) = t

-- `circuitError()`: the seconds left, rounded up, and at least one.
abbrev pub circuit_error : ℕ → Coordinator → Failure
circuit_error now s =
    circuit_open s.circuit_classification
      (max 1 ((until_ms s.circuit_open_until - now + 999) / 1000))

-- The quiet period before the next request of a class, and how long it still has to wait.
abbrev pub post_finish_quiet_ms : Coordinator → RequestClass → ℕ
post_finish_quiet_ms s c = quiet_ms_for s.canary c s.last_completed_request_class

unfoldable pub wait_ms : ℕ → Coordinator → RequestClass → ℕ
wait_ms now s c =
    let for_post_finish = remaining s.last_request_finished_at (post_finish_quiet_ms s c) now in
    let for_realtime_quiet =
      if is_realtime c
      then 0
      else remaining s.last_realtime_finished_at s.config.background_quiet_after_realtime_ms now in
    let for_background_pacing =
      if is_realtime c
      then 0
      else remaining s.last_background_started_at s.config.background_min_interval_ms now in
    max for_post_finish (max for_realtime_quiet for_background_pacing)
