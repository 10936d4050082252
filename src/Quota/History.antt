-- ===== src/Quota/History.antt =====
-- apps/worker/src/modules/auto-ria-quota.ts: a history of requests, and what it is granted.
use auto_monitor_bot.Base.{
  ℕ, zero, suc, ◌+◌, ◌≤◌, max, ◌≡◌, refl, Bool, true, false, not, ◌&&◌, List, [], ◌∷◌, ◌++◌, arith,
  leb, ◌==◌, if◌then◌else◌, length, filter, insert_by, count_by, count_by-append,
  count_by-insert_by, is_some, length-append, length-insert_by,
}
use auto_monitor_bot.Quota.Budget.{
  QuotaKind, QuotaConfig, QuotaDecision, QuotaStore, QuotaStores, is_recent, push_times, zadd_times,
  consume_auto_ria_quota,
}

pub record Request : Type 0 where
  pub kind : QuotaKind
  pub cost : ℕ
  pub month : ℕ
  pub now : ℕ
  pub reachable : Bool

-- A request that was allowed; `counted` is its cost, `by_redis` the store that counts it.
pub record Grant : Type 0 where
  pub at : ℕ
  pub counted : ℕ
  pub charged : ℕ
  pub by_redis : Bool

abbrev pub grant_of : Request → Grant
grant_of r = record {
  at = r.now;
  counted = max 1 r.cost;
  charged = r.month;
  by_redis = r.reachable;
}

abbrev pub answer : QuotaConfig → Request → QuotaStores → QuotaDecision × QuotaStores
answer c r s = consume_auto_ria_quota c r.kind r.cost r.month r.now r.reachable s

abbrev pub add_grant : QuotaDecision → Request → List Grant → List Grant
add_grant d r log = if is_some d.reason then log else grant_of r ∷ log

unfoldable pub run_requests :
    QuotaConfig → List Request → QuotaStores → List Grant → QuotaStores × List Grant
run_requests c [] s log = (s, log)
run_requests c (r ∷ rs) s log =
    run_requests c rs (answer c r s).1 (add_grant (answer c r s).0 r log)

abbrev pub no_requests : QuotaStores
no_requests = record {
  redis = record { monthly = λ m. 0; rolling = [] };
  memory = record { monthly = λ m. 0; rolling = [] };
}

abbrev pub same : Bool → Bool → Bool
same true b = b
same false b = not b

-- What a store granted in the hour that ends at `v`.
unfoldable pub granted_within : Bool → ℕ → List Grant → ℕ
granted_within b v [] = 0
granted_within b v (g ∷ log) =
    let rest = granted_within b v log in
    if same b g.by_redis && is_recent v g.at && leb g.at v then g.counted + rest else rest

-- What a store granted in a month.
unfoldable pub granted_in_month : Bool → ℕ → List Grant → ℕ
granted_in_month b m [] = 0
granted_in_month b m (g ∷ log) =
    let rest = granted_in_month b m log in
    if same b g.by_redis && m == g.charged then g.counted + rest else rest

-- The clock does not go back.
abbrev pub IsOrdered : ℕ → List Request → Type 0
IsOrdered t [] = Unit
IsOrdered t (r ∷ rs) = (t ≤ r.now) × IsOrdered r.now rs

abbrev pub store : Bool → QuotaStores → QuotaStore
store true s = s.redis
store false s = s.memory

pub length-zadd_times : (n now : ℕ) (ts : List ℕ) → length (zadd_times n now ts) ≡ n + length ts
unfolding zadd_times
length-zadd_times zero now ts = omega arith
length-zadd_times (suc n) now ts =
    ground (arith, length-zadd_times n now (insert_by leb now ts), length-insert_by leb now ts)

pub length-push_times : (n now : ℕ) (ts : List ℕ) → length (push_times n now ts) ≡ n + length ts
unfolding push_times
length-push_times zero now ts = omega arith
length-push_times (suc n) now ts =
    ground (arith, length-push_times n now (ts ++ now ∷ []), length-append ts (now ∷ []))

pub count_by-zadd_times :
    (p : ℕ → Bool) (n now : ℕ) (ts : List ℕ)
    → count_by p (zadd_times n now ts) ≡ (if p now then n else 0) + count_by p ts
unfolding zadd_times
count_by-zadd_times p zero now ts = ground arith
count_by-zadd_times p (suc n) now ts =
    ground
      (arith, count_by-zadd_times p n now (insert_by leb now ts), count_by-insert_by leb p now ts)

pub count_by-push_times :
    (p : ℕ → Bool) (n now : ℕ) (ts : List ℕ)
    → count_by p (push_times n now ts) ≡ (if p now then n else 0) + count_by p ts
unfolding push_times
count_by-push_times p zero now ts = ground arith
count_by-push_times p (suc n) now ts =
    ground (arith, count_by-push_times p n now (ts ++ now ∷ []), count_by-append p ts (now ∷ []))

pub count_by-le : (p : ℕ → Bool) (ts : List ℕ) → count_by p ts ≤ length ts
count_by-le p [] = omega arith
count_by-le p (t ∷ ts) = ground (arith, count_by-le p ts)

-- What is recent later is recent now.
pub count_by-filter :
    (v now : ℕ) (ts : List ℕ)
    → now ≤ v
    → count_by (is_recent v) (filter (is_recent now) ts) ≡ count_by (is_recent v) ts
count_by-filter v now [] h = refl
count_by-filter v now (t ∷ ts) h = let rest = count_by-filter v now ts h in ground arith
