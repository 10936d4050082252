-- ===== src/Login/Examples.antt =====
-- The rate limit of logins at concrete states.
use auto_monitor_bot.Base.{
  ℕ, ◌≤◌, ◌≡◌, refl, true, false, [], ◌∷◌, none, some, arith, ◌==◌, if◌then◌else◌,
}
use auto_monitor_bot.Login.Limit.{
  Counters, Login, log_in, login_rate_limit_status, record_login_attempt, record_login_failure,
  clear_login_failures, increment_window_counter, checked_passwords,
}
use auto_monitor_bot.Login.Attempts.{checked_passwords-bounded}

-- Client 5 has failed nine times for user 1.
abbrev failing : Counters
failing = record {
  all_logins = some (record { count = 40; expires_at = 900 });
  client = λ c. if c == 5 then some (record { count = 9; expires_at = 950 }) else none;
  account_client = λ u c. if c == 5 then some (record { count = 9; expires_at = 960 }) else none;
}

abbrev guess : ℕ → Login
guess now = record {
  now = now;
  user = 1;
  client = 5;
  valid = false;
  reachable = true;
  still_reachable = true;
}

-- The tenth failure blocks the next login.
test_blocks : checked_passwords 5 (guess 700 ∷ guess 710 ∷ []) failing ≡ 1
unfolding checked_passwords log_in login_rate_limit_status record_login_attempt record_login_failure
    increment_window_counter clear_login_failures
test_blocks = refl

checked_passwords-bounded_example : checked_passwords 5 (guess 700 ∷ guess 710 ∷ []) failing ≤ 60
checked_passwords-bounded_example =
    checked_passwords-bounded 5 700 (guess 700 ∷ guess 710 ∷ []) failing
      (omega arith, omega arith, (omega arith, omega arith, tt))
