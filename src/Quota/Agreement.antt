-- ===== src/Quota/Agreement.antt =====
-- apps/worker/src/modules/auto-ria-quota.ts: the script against the counters in memory.
use auto_monitor_bot.Base.{
  ℕ, zero, suc, ◌≤◌, ◌<◌, ◌≡◌, refl, Bool, List, [], ◌∷◌, ◌++◌, arith, leb, if_cases, filter,
  insert_by, All,
}
use auto_monitor_bot.Quota.Budget.{
  QuotaKind, QuotaConfig, QuotaStore, is_recent, kind_limit, auto_ria_hourly_search_budget,
  quota_denial_reason, rolling_retry_after_seconds, push_times, zadd_times, consume_memory_quota,
  quota_script,
}

abbrev pub IsPast : ℕ → List ℕ → Type 0
IsPast now ts = All (λ t. t ≤ now) ts

insert_by-append : (now : ℕ) (ts : List ℕ) → IsPast now ts → insert_by leb now ts ≡ ts ++ now ∷ []
unfolding insert_by
insert_by-append now [] a = refl
insert_by-append now (t ∷ ts) a = ground (arith, insert_by-append now ts a.1)

IsPast-append : (now : ℕ) (ts : List ℕ) → IsPast now ts → IsPast now (ts ++ now ∷ [])
IsPast-append now [] a = (omega arith, tt)
IsPast-append now (t ∷ ts) a = (a.0, IsPast-append now ts a.1)

zadd_times-push_times :
    (n now : ℕ) (ts : List ℕ) → IsPast now ts → zadd_times n now ts ≡ push_times n now ts
unfolding zadd_times push_times
zadd_times-push_times zero now ts a = refl
zadd_times-push_times (suc n) now ts a =
    rw (insert_by-append now ts a)
      (zadd_times-push_times n now (ts ++ now ∷ []) (IsPast-append now ts a))

IsPast-filter : (p : ℕ → Bool) (now : ℕ) (ts : List ℕ) → IsPast now ts → IsPast now (filter p ts)
IsPast-filter p now [] a = tt
IsPast-filter p now (t ∷ ts) a =
    if_cases (IsPast now) (p t) (λ _. (a.0, IsPast-filter p now ts a.1))
      (λ _. IsPast-filter p now ts a.1)

kind_limit-le :
    (c : QuotaConfig) (kind : QuotaKind)
    → 0 < c.hourly_request_limit
    → kind_limit c kind ≤ c.hourly_request_limit
unfolding auto_ria_hourly_search_budget
kind_limit-le c kind h = ground arith

-- Where a request alone is within the hourly limit of its kind, and the stored times are not later
-- than now, the script decides as the counters in memory do, and leaves the same store: the same
-- reason, the same counts, and the same time to wait.
pub quota_script-memory :
    (c : QuotaConfig) (kind : QuotaKind) (cost month now : ℕ) (s : QuotaStore)
    → 0 < c.hourly_request_limit
    → 0 < cost
    → cost ≤ kind_limit c kind
    → IsPast now s.rolling
    → quota_script c kind cost month now s ≡ consume_memory_quota c kind cost month now s
unfolding quota_script consume_memory_quota quota_denial_reason rolling_retry_after_seconds
quota_script-memory c kind cost month now s h pos small past = ground (
  arith,
  kind_limit-le c kind h,
  zadd_times-push_times cost now (filter (is_recent now) s.rolling)
      (IsPast-filter (is_recent now) now s.rolling past),
)
