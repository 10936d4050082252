-- ===== src/Protection/Pauses.antt =====
-- packages/shared/src/utils/jitter.ts (`backoffDelayMs`, `protectionPauseSeconds`) and
-- apps/worker/src/modules/source-protection-policy.ts. Seconds and error counts are natural numbers.
pub mod Bounds
use auto_monitor_bot.Base.{
  ℕ, ◌+◌, ◌-◌, ◌*◌, ◌/◌, ◌^◌, max, min, Bool, true, false, ◌&&◌, Option, none, some, ltb, leb, ◌==◌,
  if◌then◌else◌, or_else,
}
use auto_monitor_bot.Domain.{ListingSource, is_olx, is_rst}

unfoldable pub backoff_delay_ms : ℕ → ℕ → ℕ
backoff_delay_ms consecutive_errors base_seconds =
    base_seconds * min (2 ^ (consecutive_errors - 1)) 16 * 1000

-- `Math.ceil(a / b)` for a positive `b`.
abbrev pub ceil_div : ℕ → ℕ → ℕ
ceil_div a b = (a + (b - 1)) / b

-- `retryAfter > 0`.
abbrev is_positive : Option ℕ → Bool
is_positive none = false
is_positive (some n) = ltb 0 n

pub record PauseInput : Type 0 where
  pub retry_after_seconds : Option ℕ
  pub consecutive_errors : Option ℕ
  pub base_seconds : ℕ
  pub max_seconds : ℕ

unfoldable pub protection_pause_seconds : PauseInput → ℕ
protection_pause_seconds i =
    let max_seconds = max 1 i.max_seconds in
    let required_multiplier = max 1 (ceil_div max_seconds (max 1 i.base_seconds)) in
    let multiplier = min (2 ^ or_else i.consecutive_errors 0) required_multiplier in
    if is_positive i.retry_after_seconds
    then min (max (or_else i.retry_after_seconds 0) 30) max_seconds
    else min (max 1 i.base_seconds * multiplier) max_seconds

abbrev pub rst_repeated_captcha_threshold : ℕ
rst_repeated_captcha_threshold = 3

abbrev pub rst_repeated_captcha_pause_seconds : ℕ
rst_repeated_captcha_pause_seconds = 24 * 60 * 60

abbrev pub rst_persistent_captcha_threshold : ℕ
rst_persistent_captcha_threshold = 6

abbrev pub rst_persistent_captcha_pause_seconds : ℕ
rst_persistent_captcha_pause_seconds = 3 * 24 * 60 * 60

abbrev pub rst_long_lived_captcha_threshold : ℕ
rst_long_lived_captcha_threshold = 10

abbrev pub rst_long_lived_captcha_pause_seconds : ℕ
rst_long_lived_captcha_pause_seconds = 7 * 24 * 60 * 60

abbrev pub olx_access_denied_base_pause_seconds : ℕ
olx_access_denied_base_pause_seconds = 6 * 60 * 60

abbrev pub olx_access_denied_max_pause_seconds : ℕ
olx_access_denied_max_pause_seconds = 24 * 60 * 60

pub record CaptchaInput : Type 0 where
  pub source : ListingSource
  pub consecutive_errors : ℕ
  pub prior_probe_attempts : Option ℕ
  pub base_seconds : ℕ
  pub max_seconds : ℕ

unfoldable pub captcha_pause_seconds : CaptchaInput → ℕ
captcha_pause_seconds i =
    let repeated_attempts = max i.consecutive_errors (or_else i.prior_probe_attempts 0) in
    let general = protection_pause_seconds (record {
      retry_after_seconds = none;
      consecutive_errors = some i.consecutive_errors;
      base_seconds = i.base_seconds;
      max_seconds = i.max_seconds;
    }) in
    if is_rst i.source && leb rst_long_lived_captcha_threshold repeated_attempts
    then rst_long_lived_captcha_pause_seconds
    else if is_rst i.source && leb rst_persistent_captcha_threshold repeated_attempts
    then rst_persistent_captcha_pause_seconds
    else if is_rst i.source && leb rst_repeated_captcha_threshold repeated_attempts
    then rst_repeated_captcha_pause_seconds
    else general

pub record RateLimitInput : Type 0 where
  pub source : ListingSource
  pub response_status : Option ℕ
  pub retry_after_seconds : Option ℕ
  pub consecutive_errors : ℕ
  pub base_seconds : ℕ
  pub max_seconds : ℕ

abbrev pub is_forbidden : Option ℕ → Bool
is_forbidden none = false
is_forbidden (some status) = status == 403

unfoldable pub rate_limit_pause_seconds : RateLimitInput → ℕ
rate_limit_pause_seconds i =
    let multiplier = min 4 (2 ^ i.consecutive_errors) in
    if is_olx i.source && is_forbidden i.response_status
    then min (olx_access_denied_base_pause_seconds * multiplier) olx_access_denied_max_pause_seconds
    else protection_pause_seconds (record {
      retry_after_seconds = i.retry_after_seconds;
      consecutive_errors = some i.consecutive_errors;
      base_seconds = i.base_seconds;
      max_seconds = i.max_seconds;
    })
