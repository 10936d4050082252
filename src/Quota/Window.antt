-- ===== src/Quota/Window.antt =====
-- apps/worker/src/modules/auto-ria-quota.ts: what a history of requests is granted.
use auto_monitor_bot.Base.{
  ℕ, ◌+◌, ◌≤◌, ◌<◌, max, ◌≡◌, refl, ◌⊎◌, inl, inr, Bool, true, false, not, ◌&&◌, List, [], ◌∷◌,
  none, arith, leb, ◌==◌, if◌then◌else◌, if_cases, filter, count_by, Bool-cases, is_some,
}
use auto_monitor_bot.Quota.Budget.{
  QuotaKind, is_paid, QuotaConfig, QuotaDecision, QuotaStore, QuotaStores, is_recent, kind_limit,
  denied, auto_ria_hourly_search_budget, quota_denial_reason, push_times, zadd_times,
  consume_memory_quota, quota_script, consume_auto_ria_quota, paid_methods_disabled,
}
use auto_monitor_bot.Quota.History.{
  Request, Grant, answer, add_grant, run_requests, no_requests, same, granted_within,
  granted_in_month, IsOrdered, store, length-zadd_times, length-push_times, count_by-zadd_times,
  count_by-push_times, count_by-le, count_by-filter,
}

-- What a store's answer does to its counts, for the hour that ends at `v` and the month `m`.
record IsCharged (c : QuotaConfig) (cost month now v m : ℕ) (d : QuotaDecision) (s t : QuotaStore)
    : Type 0 where
  recent :
      now ≤ v
      → count_by (is_recent v) t.rolling
        ≡ (if not (is_some d.reason) && is_recent v now then cost else 0)
          + count_by (is_recent v) s.rolling
  hourly :
      now ≤ v → is_some d.reason ≡ false → count_by (is_recent v) t.rolling ≤ c.hourly_request_limit
  monthly : t.monthly m ≡ (if not (is_some d.reason) && m == month then cost else 0) + s.monthly m
  total :
      is_some d.reason ≡ false → m ≡ month → t.monthly m + c.soft_reserve ≤ c.total_request_limit

kind_limit-le :
    (c : QuotaConfig) (kind : QuotaKind)
    → 0 < c.hourly_request_limit
    → kind_limit c kind ≤ c.hourly_request_limit
unfolding auto_ria_hourly_search_budget
kind_limit-le c kind h = ground arith

quota_script-IsCharged :
    (c : QuotaConfig) (kind : QuotaKind) (cost month now v m : ℕ) (s : QuotaStore)
    → 0 < c.hourly_request_limit
    → IsCharged c cost month now v m
        (quota_script c kind cost month now s).0
        s
        (quota_script c kind cost month now s).1
unfolding quota_script
quota_script-IsCharged c kind cost month now v m s h =
    let kept = filter (is_recent now) s.rolling in
    let limit = kind_limit-le c kind h in
    let pushed = count_by-zadd_times (is_recent v) cost now kept in
    let longer = length-zadd_times cost now kept in
    let bound = count_by-le (is_recent v) (zadd_times cost now kept) in
    record {
      recent = λ le. ground (arith, count_by-filter v now s.rolling le, pushed);
      hourly = λ le e. ground (arith, limit, longer, bound);
      monthly = ground arith;
      total = λ e f. ground (arith, f);
    }

consume_memory_quota-IsCharged :
    (c : QuotaConfig) (kind : QuotaKind) (cost month now v m : ℕ) (s : QuotaStore)
    → IsCharged c cost month now v m
        (consume_memory_quota c kind cost month now s).0
        s
        (consume_memory_quota c kind cost month now s).1
unfolding consume_memory_quota quota_denial_reason
consume_memory_quota-IsCharged c kind cost month now v m s =
    let kept = filter (is_recent now) s.rolling in
    let pushed = count_by-push_times (is_recent v) cost now kept in
    let longer = length-push_times cost now kept in
    let bound = count_by-le (is_recent v) (push_times cost now kept) in
    record {
      recent = λ le. ground (arith, count_by-filter v now s.rolling le, pushed);
      hourly = λ le e. ground (arith, longer, bound);
      monthly = ground arith;
      total = λ e f. ground (arith, f);
    }

-- What holds of a store and the grants that it counts, at the clock value `t`.
record IsKept (c : QuotaConfig) (b : Bool) (t v m : ℕ) (s : QuotaStores) (log : List Grant)
    : Type 0 where
  within : granted_within b v log ≤ c.hourly_request_limit
  counts : t ≤ v → count_by (is_recent v) (store b s).rolling ≡ granted_within b v log
  sums : (store b s).monthly m ≡ granted_in_month b m log
  totals :
      ((store b s).monthly m ≡ 0) ⊎ ((store b s).monthly m + c.soft_reserve ≤ c.total_request_limit)

charged-IsKept :
    (c : QuotaConfig) (b : Bool) (t v m : ℕ) (s u : QuotaStores) (log : List Grant) (r : Request)
    (d : QuotaDecision)
    → same b r.reachable ≡ true
    → t ≤ r.now
    → IsCharged c (max 1 r.cost) r.month r.now v m d (store b s) (store b u)
    → IsKept c b t v m s log
    → IsKept c b r.now v m u (add_grant d r log)
unfolding granted_within granted_in_month
charged-IsKept c b t v m s u log r d own le ch k = elim (Bool-cases (leb r.now v)) [
  | inl later ↦
      let recent = ch.recent (ground arith) in
      let counts = k.counts (ground arith) in
      record {
        within = ground (arith, k.within, ch.hourly (ground arith), recent, counts);
        counts = λ h. ground (arith, recent, counts);
        sums = ground (arith, ch.monthly, k.sums);
        totals = ground (arith, k.totals, ch.total, ch.monthly);
      }
  | inr earlier ↦ record {
    within = ground (arith, k.within);
    counts = λ h. ground arith;
    sums = ground (arith, ch.monthly, k.sums);
    totals = ground (arith, k.totals, ch.total, ch.monthly);
  }
]

-- Another store's answer, or a denial that no store sees.
unseen-IsKept :
    (c : QuotaConfig) (b : Bool) (t v m : ℕ) (s u : QuotaStores) (log : List Grant) (r : Request)
    (d : QuotaDecision)
    → (same b r.reachable ≡ false) ⊎ (is_some d.reason ≡ true)
    → t ≤ r.now
    → store b u ≡ store b s
    → IsKept c b t v m s log
    → IsKept c b r.now v m u (add_grant d r log)
unfolding granted_within granted_in_month
unseen-IsKept c b t v m s u log r d other le e k = record {
  within = ground (arith, k.within);
  counts = λ h. ground (arith, k.counts (ground arith));
  sums = ground (arith, k.sums);
  totals = ground (arith, k.totals);
}

answer-IsKept :
    (c : QuotaConfig) (b : Bool) (t v m : ℕ) (s : QuotaStores) (log : List Grant) (r : Request)
    → 0 < c.hourly_request_limit
    → t ≤ r.now
    → IsKept c b t v m s log
    → IsKept c b r.now v m (answer c r s).1 (add_grant (answer c r s).0 r log)
unfolding consume_auto_ria_quota
answer-IsKept c true t v m s log r pos le k =
    let P =
      λ (a : QuotaDecision × QuotaStores). IsKept c true r.now v m a.1 (add_grant a.0 r log) in
    if_cases P (is_paid r.kind && not c.paid_enrichment_enabled)
      (λ h.
        unseen-IsKept c true t v m s s log r (denied paid_methods_disabled 0 0 none) (inr refl) le
          refl k)
      (λ h.
        if_cases P r.reachable
          (λ up.
            charged-IsKept c true t v m s _ log r
              (quota_script c r.kind (max 1 r.cost) r.month r.now s.redis).0 (ground arith) le
              (quota_script-IsCharged c r.kind (max 1 r.cost) r.month r.now v m s.redis pos) k)
          (λ down.
            unseen-IsKept c true t v m s _ log r
              (consume_memory_quota c r.kind (max 1 r.cost) r.month r.now s.memory).0
              (inl (ground arith)) le refl k))
answer-IsKept c false t v m s log r pos le k =
    let P =
      λ (a : QuotaDecision × QuotaStores). IsKept c false r.now v m a.1 (add_grant a.0 r log) in
    if_cases P (is_paid r.kind && not c.paid_enrichment_enabled)
      (λ h.
        unseen-IsKept c false t v m s s log r (denied paid_methods_disabled 0 0 none) (inr refl) le
          refl k)
      (λ h.
        if_cases P r.reachable
          (λ up.
            unseen-IsKept c false t v m s _ log r
              (quota_script c r.kind (max 1 r.cost) r.month r.now s.redis).0 (inl (ground arith)) le
              refl k)
          (λ down.
            charged-IsKept c false t v m s _ log r
              (consume_memory_quota c r.kind (max 1 r.cost) r.month r.now s.memory).0 (ground arith)
              le (consume_memory_quota-IsCharged c r.kind (max 1 r.cost) r.month r.now v m s.memory)
              k))

run_requests-IsKept :
    (c : QuotaConfig) (b : Bool) (t v m : ℕ) (s : QuotaStores) (log : List Grant)
    (rs : List Request)
    → 0 < c.hourly_request_limit
    → IsOrdered t rs
    → IsKept c b t v m s log
    → (u : ℕ) × IsKept c b u v m (run_requests c rs s log).0 (run_requests c rs s log).1
unfolding run_requests
run_requests-IsKept c b t v m s log [] pos o k = (t, k)
run_requests-IsKept c b t v m s log (r ∷ rs) pos o k =
    run_requests-IsKept c b r.now v m (answer c r s).1 (add_grant (answer c r s).0 r log) rs pos o.1
      (answer-IsKept c b t v m s log r pos o.0 k)

no_requests-IsKept : (c : QuotaConfig) (b : Bool) (v m : ℕ) → IsKept c b 0 v m no_requests []
unfolding granted_within granted_in_month
no_requests-IsKept c b v m = record {
  within = ground arith;
  counts = λ h. ground arith;
  sums = ground arith;
  totals = inl (ground arith);
}

-- For any history of requests of any kinds and costs, in the order of a clock that does not go
-- back, where the hourly limit is not zero: the costs that Redis granted in any hour sum up to no more
-- than that limit, and so do, counted apart, those that the process granted in its place.
pub run_requests-hourly :
    (c : QuotaConfig) (rs : List Request) (b : Bool) (v : ℕ)
    → 0 < c.hourly_request_limit
    → IsOrdered 0 rs
    → granted_within b v (run_requests c rs no_requests []).1 ≤ c.hourly_request_limit
run_requests-hourly c rs b v pos o =
    (run_requests-IsKept c b 0 v 0 no_requests [] rs pos o (no_requests-IsKept c b v 0)).1.within

-- For any such history: what either store granted in a month is nothing, or leaves the soft reserve
-- of the total limit.
pub run_requests-total :
    (c : QuotaConfig) (rs : List Request) (b : Bool) (m : ℕ)
    → 0 < c.hourly_request_limit
    → IsOrdered 0 rs
    → (granted_in_month b m (run_requests c rs no_requests []).1 ≡ 0)
      ⊎ (granted_in_month b m (run_requests c rs no_requests []).1 + c.soft_reserve
          ≤ c.total_request_limit)
run_requests-total c rs b m pos o =
    let k =
      (run_requests-IsKept c b 0 0 m no_requests [] rs pos o (no_requests-IsKept c b 0 m)).1 in
    ground (arith, k.sums, k.totals)
