-- ===== src/Shared/Metrics/Percentiles.antt =====
-- The percentiles of packages/shared/src/utils/metrics.ts against their definition by rank.
use native.Mathlib.Nat.{mul-le-mul_left}
use mathlib.Core.Option.{some-injective}
use auto_monitor_bot.Base.{
  ℕ, zero, suc, ◌+◌, ◌-◌, ◌*◌, ◌/◌, ◌≤◌, ◌<◌, min, ◌≡◌, refl, sym, ap, ◌∙◌, subst, false, List, [],
  ◌∷◌, some, arith, ltb, leb, or_else, length, get_elem?, count_by, count_by-sort_by,
  length-sort_by, sort_by, IsSortedBy, sort_by-IsSortedBy, All,
}
use auto_monitor_bot.Shared.Metrics.{percentile, summarize_sorted, summarize_metric}

All-get_elem? {ℓ} :
    {A : Type ℓ} (P : A → Type 0) (xs : List A) (i : ℕ) {v : A}
    → All P xs
    → get_elem? xs i ≡ some v
    → P v
All-get_elem? P [] i a h = cc
All-get_elem? P (x ∷ xs) zero a h = subst P (some-injective _ _ h) a.0
All-get_elem? P (x ∷ xs) (suc i) a h = All-get_elem? P xs i a.1 h

-- In a sorted list the element at an index has that many elements, and one, up to it.
rank-get_elem? :
    (xs : List ℕ) (i : ℕ) {v : ℕ}
    → IsSortedBy ltb xs
    → get_elem? xs i ≡ some v
    → suc i ≤ count_by (λ y. leb y v) xs
rank-get_elem? [] i s h = cc
rank-get_elem? (x ∷ xs) zero s h = ground arith
rank-get_elem? (x ∷ xs) (suc i) {v} s h =
    ground (arith, rank-get_elem? xs i s.1 h, All-get_elem? (λ y. ltb y x ≡ false) xs i s.0 h)

get_elem?_mono :
    (xs : List ℕ) (i j : ℕ) {v w : ℕ}
    → IsSortedBy ltb xs
    → i ≤ j
    → get_elem? xs i ≡ some v
    → get_elem? xs j ≡ some w
    → v ≤ w
get_elem?_mono [] i j s l h k = cc
get_elem?_mono (x ∷ xs) zero zero s l h k = ground arith
get_elem?_mono (x ∷ xs) zero (suc j) s l h k =
    ground (arith, All-get_elem? (λ y. ltb y x ≡ false) xs j s.0 k)
get_elem?_mono (x ∷ xs) (suc i) zero s l h k = absurd (omega arith)
get_elem?_mono (x ∷ xs) (suc i) (suc j) s l h k = get_elem?_mono xs i j s.1 (omega arith) h k

get_elem?-some {ℓ} :
    {A : Type ℓ} (xs : List A) (i : ℕ) → i < length xs → (v : A) × (get_elem? xs i ≡ some v)
get_elem?-some [] i h = absurd (omega arith)
get_elem?-some (x ∷ xs) zero h = (x, refl)
get_elem?-some (x ∷ xs) (suc i) h = get_elem?-some xs i (omega arith)

-- The index of a percentile, for a percentage between 1 and 100.
abbrev rank_index : ℕ → ℕ → ℕ
rank_index n percent = min (n - 1) ((n * percent + 99) / 100 - 1)

percentile-get_elem? :
    (sorted : List ℕ) (percent : ℕ)
    → 0 < length sorted
    → get_elem? sorted (rank_index (length sorted) percent) ≡ some (percentile sorted percent)
unfolding percentile
percentile-get_elem? sorted percent h =
    let (v, e) = get_elem?-some sorted (rank_index (length sorted) percent) (omega arith) in
    e ∙ ap some (sym (ap (λ o. or_else o 0) e))

-- At least so many percent of the samples are no larger than the percentile.
percentile-rank :
    (sorted : List ℕ) (percent : ℕ)
    → IsSortedBy ltb sorted
    → 0 < length sorted
    → percent ≤ 100
    → length sorted * percent ≤ 100 * count_by (λ y. leb y (percentile sorted percent)) sorted
percentile-rank sorted percent s h p =
    enough (length sorted) percent _ h p
      (rank-get_elem? sorted _ s (percentile-get_elem? sorted percent h))
  where
    enough :
        (n percent c : ℕ)
        → 0 < n
        → percent ≤ 100
        → suc (rank_index n percent) ≤ c
        → n * percent ≤ 100 * c
    enough n percent c h p k = omega (arith, k, mul-le-mul_left n p)

percentile_mono :
    (sorted : List ℕ) (p q : ℕ)
    → IsSortedBy ltb sorted
    → 0 < length sorted
    → p ≤ q
    → percentile sorted p ≤ percentile sorted q
percentile_mono sorted p q s h l =
    get_elem?_mono sorted _ _ s (omega (arith, mul-le-mul_left (length sorted) l))
      (percentile-get_elem? sorted p h) (percentile-get_elem? sorted q h)

-- The 95th percentile that a summary shows is one by rank: at least 95 percent of the samples, in
-- whatever order they came, are no larger; and the percentiles are ordered.
pub summarize_metric-percentiles :
    (values : List ℕ)
    → 0 < length values
    → (p50 p95 p99 : ℕ) × ((summarize_metric values).p50 ≡ some p50)
      × ((summarize_metric values).p95 ≡ some p95)
      × ((summarize_metric values).p99 ≡ some p99)
      × (p50 ≤ p95)
      × (p95 ≤ p99)
      × ((summarize_metric values).count ≡ length values)
      × (length values * 95 ≤ 100 * count_by (λ y. leb y p95) values)
unfolding summarize_metric summarize_sorted
summarize_metric-percentiles [] h = absurd (omega arith)
summarize_metric-percentiles (x ∷ xs) h = (
  percentile sorted 50,
  percentile sorted 95,
  percentile sorted 99,
  refl,
  refl,
  refl,
  percentile_mono sorted 50 95 ordered nonempty (omega arith),
  percentile_mono sorted 95 99 ordered nonempty (omega arith),
  same_length,
  omega (
    arith,
    percentile-rank sorted 95 ordered nonempty (omega arith),
    count_by-sort_by ltb (λ y. leb y (percentile sorted 95)) (x ∷ xs),
    same_length,
  ),
)
  where
    sorted : List ℕ
    sorted = sort_by ltb (x ∷ xs)

    ordered : IsSortedBy ltb sorted
    ordered = sort_by-IsSortedBy ltb (λ a b k. ground arith) (λ a b c k l. ground arith) (x ∷ xs)

    same_length : length sorted ≡ length (x ∷ xs)
    same_length = length-sort_by ltb (x ∷ xs)

    nonempty : 0 < length sorted
    nonempty = omega (arith, same_length)
