-- ===== src/Login/Attempts.antt =====
-- apps/api/src/routes/dashboard-auth.ts: how many passwords a client can try.
use auto_monitor_bot.Base.{
  ℕ, ◌+◌, ◌-◌, ◌*◌, ◌≤◌, ◌<◌, ◌≡◌, Bool, true, false, ◌&&◌, List, [], ◌∷◌, Option, none, some,
  arith, ltb, ◌==◌, if◌then◌else◌,
}
use auto_monitor_bot.Login.Limit.{
  Counter, Counters, Login, window_seconds, client_max_attempts, login_rate_limit_status,
  increment_window_counter, record_login_attempt, record_login_failure, clear_login_failures,
  log_in, is_checked, checked_passwords,
}

-- The logins are at the times from `t` on, in order, and before `last`.
abbrev pub IsOrdered : ℕ → ℕ → List Login → Type 0
IsOrdered t last [] = Unit
IsOrdered t last (l ∷ ls) = (t ≤ l.now) × (l.now < last) × IsOrdered l.now last ls

-- A counter that has not expired.
abbrev pub is_counted : ℕ → Option Counter → Bool
is_counted t none = false
is_counted t (some c) = ltb t c.expires_at

-- How many attempts a counter leaves from `t` on, before `last`.
abbrev left : ℕ → ℕ → Option Counter → ℕ
left t last none = client_max_attempts
left t last (some c) =
    if ltb t c.expires_at
    then client_max_attempts - c.count + (if ltb c.expires_at last then client_max_attempts else 0)
    else client_max_attempts

log_in-left :
    (client t start : ℕ) (l : Login) (s : Counters)
    → t ≤ l.now
    → start ≤ l.now
    → l.now < start + window_seconds
    → (if l.client == client && is_checked (log_in l s).0 then 1 else 0)
        + left l.now (start + window_seconds) ((log_in l s).1.client client)
      ≤ left t (start + window_seconds) (s.client client)
unfolding log_in login_rate_limit_status record_login_attempt record_login_failure
    clear_login_failures increment_window_counter
log_in-left client t start l s a b c = ground arith

checked_passwords-left :
    (client t start : ℕ) (ls : List Login) (s : Counters)
    → start ≤ t
    → IsOrdered t (start + window_seconds) ls
    → checked_passwords client ls s ≤ left t (start + window_seconds) (s.client client)
unfolding checked_passwords
checked_passwords-left client t start [] s h o = omega arith
checked_passwords-left client t start (l ∷ ls) s h o =
    let rest =
      checked_passwords-left client l.now start ls (log_in l s).1 (omega (arith, h, o.0)) o.2 in
    ground (arith, log_in-left client t start l s o.0 (omega (arith, h, o.0)) o.1, rest)

-- Of the logins that are handled one after another within any 15 minutes, from any state of the
-- counters and for any users, at most 60 that a client sends have their password checked; at most 30
-- where no counter of the client is alive at the start.
pub checked_passwords-bounded :
    (client start : ℕ) (ls : List Login) (s : Counters)
    → IsOrdered start (start + window_seconds) ls
    → checked_passwords client ls s ≤ (
        if is_counted start (s.client client) then 2 * client_max_attempts else client_max_attempts)
checked_passwords-bounded client start ls s o =
    ground (arith, checked_passwords-left client start start ls s (omega arith) o)

-- A login that is blocked is told a time after which it is not blocked any more, if nothing is counted
-- in between.
pub login_rate_limit_status-retries :
    (now user client : ℕ) (s : Counters)
    → (login_rate_limit_status now user client s).blocked ≡ true
    → (login_rate_limit_status
        (now + (login_rate_limit_status now user client s).retry_after_seconds)
        user
        client
        s).blocked
      ≡ false
unfolding login_rate_limit_status
login_rate_limit_status-retries now user client s h = ground arith
