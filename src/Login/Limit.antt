-- ===== src/Login/Limit.antt =====
-- apps/api/src/modules/dashboard-login-rate-limit.ts, and the handler of the login in
-- apps/api/src/routes/dashboard-auth.ts that calls it. A time is in seconds, as the TTL of Redis is; a
-- missing TTL counts as 0. Users and clients are numbers, in place of the digests that name the keys;
-- whether a password is right is an argument. A payload that is not valid ends before, and the fields of
-- the answer are left out.
use auto_monitor_bot.Base.{
  ℕ, ◌+◌, ◌-◌, ◌*◌, max, Bool, true, false, not, ◌&&◌, ◌||◌, List, [], ◌∷◌, Option, none, some, ltb,
  leb, ◌==◌, if◌then◌else◌,
}

abbrev pub window_seconds : ℕ
window_seconds = 15 * 60

abbrev pub global_max_attempts : ℕ
global_max_attempts = 120

abbrev pub client_max_attempts : ℕ
client_max_attempts = 30

abbrev pub account_client_max_failures : ℕ
account_client_max_failures = 10

-- A counter of Redis with its expiry.
pub record Counter : Type 0 where
  pub count : ℕ
  pub expires_at : ℕ

pub record Counters : Type 0 where
  pub all_logins : Option Counter
  pub client : ℕ → Option Counter
  pub account_client : ℕ → ℕ → Option Counter

-- `GET`.
abbrev pub count_at : ℕ → Option Counter → ℕ
count_at now none = 0
count_at now (some c) = if ltb now c.expires_at then c.count else 0

-- `TTL`.
abbrev pub ttl_at : ℕ → Option Counter → ℕ
ttl_at now none = 0
ttl_at now (some c) = c.expires_at - now

-- `LimitStatus`.
pub record LimitStatus : Type 0 where
  pub blocked : Bool
  pub retry_after_seconds : ℕ

-- `loginRateLimitStatus`.
unfoldable pub login_rate_limit_status : ℕ → ℕ → ℕ → Counters → LimitStatus
login_rate_limit_status now user client s =
    let blocked =
      leb global_max_attempts (count_at now s.all_logins)
      || leb client_max_attempts (count_at now (s.client client))
      || leb account_client_max_failures (count_at now (s.account_client user client)) in
    record {
      blocked = blocked;
      retry_after_seconds =
          if blocked
          then max 1 (
              max (ttl_at now s.all_logins)
                (max (ttl_at now (s.client client)) (ttl_at now (s.account_client user client))))
          else 0;
    }

-- A turn of the loop of `incrementWindowCounters`.
unfoldable pub increment_window_counter : ℕ → Option Counter → Option Counter
increment_window_counter now none = some (record { count = 1; expires_at = now + window_seconds })
increment_window_counter now (some c) =
    if ltb now c.expires_at
    then some (record c { count = c.count + 1 })
    else some (record { count = 1; expires_at = now + window_seconds })

abbrev put {ℓ} : {A : Type ℓ} → (ℕ → A) → ℕ → A → ℕ → A
put f i a j = if i == j then a else f j

-- `recordLoginAttempt`.
unfoldable pub record_login_attempt : ℕ → ℕ → Counters → Counters
record_login_attempt now client s = record s {
  all_logins = increment_window_counter now s.all_logins;
  client = put s.client client (increment_window_counter now (s.client client));
}

-- `recordLoginFailure`.
unfoldable pub record_login_failure : ℕ → ℕ → ℕ → Counters → Counters
record_login_failure now user client s = record s {
  account_client = put s.account_client user (
      put (s.account_client user) client
        (increment_window_counter now (s.account_client user client)));
}

-- `clearLoginFailures`.
unfoldable pub clear_login_failures : ℕ → ℕ → Counters → Counters
clear_login_failures user client s = record s {
  account_client = put s.account_client user (put (s.account_client user) client none);
}

-- The answers: 503 before and behind the check of the password, 429, 401, and success.
pub data Answer : Type 0 where
  unavailable limited unrecorded invalid welcome : Answer

-- A login; the flags say whether Redis answers before and behind the check of the password.
pub record Login : Type 0 where
  pub now : ℕ
  pub user : ℕ
  pub client : ℕ
  pub valid : Bool
  pub reachable : Bool
  pub still_reachable : Bool

-- The handler of `/dashboard-auth/login`.
unfoldable pub log_in : Login → Counters → Answer × Counters
log_in l s =
    let limit = login_rate_limit_status l.now l.user l.client s in
    let attempted = record_login_attempt l.now l.client s in
    if not l.reachable
    then (unavailable, s)
    else if limit.blocked
    then (limited, s)
    else if not l.still_reachable
    then (unrecorded, attempted)
    else if not l.valid
    then (invalid, record_login_failure l.now l.user l.client attempted)
    else (welcome, clear_login_failures l.user l.client attempted)

-- The password is checked.
abbrev pub is_checked : Answer → Bool
is_checked unavailable = false
is_checked limited = false
is_checked _ = true

-- How many passwords that a client sends are checked in a sequence of logins.
unfoldable pub checked_passwords : ℕ → List Login → Counters → ℕ
checked_passwords client [] s = 0
checked_passwords client (l ∷ ls) s =
    let rest = checked_passwords client ls (log_in l s).1 in
    if l.client == client && is_checked (log_in l s).0 then 1 + rest else rest
