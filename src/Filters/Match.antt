-- ===== src/Filters/Match.antt =====
-- apps/worker/src/modules/filter-engine.ts: what a match says, and which filters match.
use auto_monitor_bot.Base.{
  str_eq_refl, ℕ, ◌≡◌, ◌≤◌, refl, inl, inr, Bool, true, false, List, [], ◌∷◌, Option, none, some,
  arith, Bool-cases, or_else, sym, All, get_elem?, zero, suc, str_eq, filter,
}
use Prim.Native.String.{String}
use package.text.Mathlib.TextEquality.{eq_iff}
use auto_monitor_bot.Filters.Geography.{includes_id, map_list}
use auto_monitor_bot.Filters.Freshness.{is_reliable_fresh_listing}
use auto_monitor_bot.Filters.Data.{
  year, engine_volume, engine_power, doors, seats, mileage, customs, bargain, price,
  RejectionReason, match, Listing, Bounds, Filter,
}
use auto_monitor_bot.Filters.Checks.{
  Tools, Verdict, passes, rejects, lacks, number_in_range, check_range, check_flag, vehicle_price,
  check_geography, source_fails, geo_matches, has_keyword,
}
use auto_monitor_bot.Filters.Engine.{
  vehicle_checks, reasons_of, unknowns_of, outcome_of, is_vehicle_pair, evaluate_listing_filter,
  listing_matches_filter, match_filters_detailed,
}

-- A number within bounds; it need not be known where there are none.
abbrev IsWithin : Bounds → Option ℕ → Type 0
IsWithin b (some v) = (or_else b.from 0 ≤ v) × (v ≤ or_else b.to v)
IsWithin b none = (b.from ≡ none) × (b.to ≡ none)

abbrev IsAsWanted : Option Bool → Option Bool → Type 0
IsAsWanted none value = Unit
IsAsWanted (some w) value = value ≡ some w

-- What a match promises.
pub record IsSatisfied (t : Tools) (l : Listing) (f : Filter) (now : ℕ) : Type 0 where
  pub enabled : f.enabled ≡ true
  pub from_source : source_fails t l f ≡ false
  pub fresh : is_reliable_fresh_listing t.zoned l.fresh f.freshness_mode now ≡ true
  pub in_year : IsWithin f.year l.year
  pub in_volume : IsWithin f.engine_volume l.engine_volume
  pub in_power : IsWithin f.engine_power l.engine_power
  pub in_doors : IsWithin f.doors l.doors
  pub in_seats : IsWithin f.seats l.seats
  pub in_price : IsWithin f.price (vehicle_price l)
  pub in_mileage : IsWithin f.mileage l.mileage
  pub cleared : IsAsWanted f.customs_cleared l.customs_cleared
  pub bargains : IsAsWanted f.bargain_possible l.bargain_possible
  pub in_place : geo_matches t l f ≡ true
  pub not_excluded : has_keyword t l f.exclude_keywords ≡ false

check_range-IsWithin :
    (o : Option ℕ) (b : Bounds) (r : RejectionReason) → check_range o b r ≡ passes → IsWithin b o
unfolding check_range number_in_range
check_range-IsWithin none b r h = ground arith
check_range-IsWithin (some v) b r h = ground arith

check_flag-IsAsWanted :
    (o w : Option Bool) (r : RejectionReason) → check_flag o w r ≡ passes → IsAsWanted w o
unfolding check_flag
check_flag-IsAsWanted o none r h = tt
check_flag-IsAsWanted none (some w) r h = ground arith
check_flag-IsAsWanted (some v) (some w) r h = ground arith

outcome_of-match : (vs : List Verdict) → outcome_of vs ≡ match → All (λ v. v ≡ passes) vs
unfolding outcome_of reasons_of unknowns_of
outcome_of-match [] h = tt
outcome_of-match (passes ∷ vs) h = (refl, outcome_of-match vs h)
outcome_of-match (rejects r ∷ vs) h = ground arith
outcome_of-match (lacks r ∷ vs) h = ground arith

All-get_elem? {ℓ κ} :
    {A : Type ℓ} (P : A → Type κ) (xs : List A) (i : ℕ) (x : A)
    → All P xs
    → get_elem? xs i ≡ some x
    → P x
All-get_elem? P [] i x a e = ground arith
All-get_elem? P (y ∷ ys) zero x a e = ground (arith, a.0)
All-get_elem? P (y ∷ ys) (suc i) x a e = All-get_elem? P ys i x a.1 e

vehicle_match-IsSatisfied :
    (t : Tools) (l : Listing) (f : Filter) (now : ℕ)
    → All (λ v. v ≡ passes) (vehicle_checks t l f now)
    → IsSatisfied t l f now
unfolding vehicle_checks check_geography
vehicle_match-IsSatisfied t l f now a =
    let check = λ (i : ℕ).
      λ (v : Verdict). All-get_elem? (λ w. w ≡ passes) (vehicle_checks t l f now) i v a in
    record {
      enabled = ground (arith, check 0 _ refl);
      from_source = ground (arith, check 1 _ refl);
      fresh = ground (arith, check 2 _ refl);
      in_year = check_range-IsWithin l.year f.year year (check 12 _ refl);
      in_volume =
          check_range-IsWithin l.engine_volume f.engine_volume engine_volume (check 13 _ refl);
      in_power = check_range-IsWithin l.engine_power f.engine_power engine_power (check 14 _ refl);
      in_doors = check_range-IsWithin l.doors f.doors doors (check 15 _ refl);
      in_seats = check_range-IsWithin l.seats f.seats seats (check 16 _ refl);
      in_price = check_range-IsWithin (vehicle_price l) f.price price (check 17 _ refl);
      in_mileage = check_range-IsWithin l.mileage f.mileage mileage (check 18 _ refl);
      cleared = check_flag-IsAsWanted l.customs_cleared f.customs_cleared customs (check 19 _ refl);
      bargains =
          check_flag-IsAsWanted l.bargain_possible f.bargain_possible bargain (check 20 _ refl);
      in_place = ground (arith, check 21 _ refl);
      not_excluded = ground (arith, check 22 _ refl);
    }

-- A car matches a filter for cars only where the filter is enabled and takes the source, the listing
-- is fresh and in the selected place, each number that the filter bounds is known and within its
-- bounds, each flag that it wants is known and as wanted, and no excluded keyword is found.
pub listing_matches_filter-IsSatisfied :
    (t : Tools) (l : Listing) (f : Filter) (now : ℕ)
    → is_vehicle_pair l f ≡ true
    → listing_matches_filter t l f now ≡ true
    → IsSatisfied t l f now
unfolding listing_matches_filter evaluate_listing_filter
listing_matches_filter-IsSatisfied t l f now car h =
    vehicle_match-IsSatisfied t l f now (outcome_of-match (vehicle_checks t l f now) (ground arith))

-- No two filters have the same id.
abbrev pub IsDistinct : List Filter → Type 0
IsDistinct [] = Unit
IsDistinct (f ∷ fs) = All (λ g. str_eq f.id g.id ≡ false) fs × IsDistinct fs

str_eq_comm : (s u : String) → str_eq s u ≡ false → str_eq u s ≡ false
str_eq_comm s u h = elim (Bool-cases (str_eq u s)) [
  | inl equal ↦ absurd (ground (arith, h, (eq_iff s u).1 (sym ((eq_iff u s).0 equal))))
  | inr differs ↦ differs
]

All-comm :
    (f : Filter) (fs : List Filter)
    → All (λ g. str_eq f.id g.id ≡ false) fs
    → All (λ g. str_eq g.id f.id ≡ false) fs
All-comm f [] a = tt
All-comm f (g ∷ gs) a = (str_eq_comm f.id g.id a.0, All-comm f gs a.1)

evaluate_listing_filter-filter_id :
    (t : Tools) (l : Listing) (f : Filter) (now : ℕ)
    → (evaluate_listing_filter t l f now).filter_id ≡ f.id
unfolding evaluate_listing_filter
evaluate_listing_filter-filter_id t l f now = ground arith

module _ (t : Tools) (l : Listing) (now : ℕ) where
  abbrev matched_ids : List Filter → List String
  matched_ids fs =
      map_list (λ e. e.filter_id)
        (filter (λ e. e.matched) (map_list (λ f. evaluate_listing_filter t l f now) fs))

  matched_ids-other :
      (fs : List Filter) (g : Filter)
      → All (λ f. str_eq f.id g.id ≡ false) fs
      → includes_id (matched_ids fs) g.id ≡ false
  matched_ids-other [] g a = refl
  matched_ids-other (f ∷ fs) g a =
      ground (arith, matched_ids-other fs g a.1, evaluate_listing_filter-filter_id t l f now, a.0)

  filter-same :
      (p q : Filter → Bool) (fs : List Filter) → All (λ f. p f ≡ q f) fs → filter p fs ≡ filter q fs
  filter-same p q [] a = refl
  filter-same p q (f ∷ fs) a = ground (arith, a.0, filter-same p q fs a.1)

  -- A filter in front with another id changes nothing for those behind.
  matched_ids-behind :
      (f : Filter) (fs gs : List Filter)
      → All (λ g. str_eq f.id g.id ≡ false) gs
      → All (λ g. includes_id (matched_ids fs) g.id ≡ listing_matches_filter t l g now) gs
      → All (λ g. includes_id (matched_ids (f ∷ fs)) g.id ≡ listing_matches_filter t l g now) gs
  matched_ids-behind f fs [] d a = tt
  matched_ids-behind f fs (g ∷ gs) d a = (
    ground (arith, a.0, d.0, evaluate_listing_filter-filter_id t l f now),
    matched_ids-behind f fs gs d.1 a.1,
  )

  matched_ids-own :
      (fs : List Filter)
      → IsDistinct fs
      → All (λ f. includes_id (matched_ids fs) f.id ≡ listing_matches_filter t l f now) fs
  unfolding listing_matches_filter
  matched_ids-own [] d = tt
  matched_ids-own (f ∷ fs) d = (
    ground (
      arith,
      matched_ids-other fs f (All-comm f fs d.0),
      evaluate_listing_filter-filter_id t l f now,
      str_eq_refl f.id,
    ),
    matched_ids-behind f fs fs d.0 (matched_ids-own fs d.1),
  )

  -- For filters with distinct ids, those that `matchFiltersDetailed` finds by a set of ids are the
  -- filters that match the listing one by one, in their order.
  pub match_filters_detailed-matches :
      (fs : List Filter)
      → IsDistinct fs
      → (match_filters_detailed t l fs now).matched
        ≡ filter (λ f. listing_matches_filter t l f now) fs
  unfolding match_filters_detailed
  match_filters_detailed-matches fs d = filter-same _ _ fs (matched_ids-own fs d)
