-- ===== src/Filters/Periods.antt =====
-- packages/shared/src/utils/freshness.ts: how the periods compare, and the order of the listings.
use auto_monitor_bot.Base.{
  ℕ, ◌≤◌, ◌≡◌, refl, Bool, true, false, ◌&&◌, List, [], ◌∷◌, Option, none, some, arith, ltb, leb,
  filter, count_by, count_by-sort_by, IsSortedBy, sort_by-IsSortedBy, or_else, ◌∙◌, is_some, All,
}
use Prim.Native.String.{String}
use auto_monitor_bot.Filters.Freshness.{
  FreshnessMode, last_hour, today, last_24_hours, last_3_days, last_7_days, all_time, other,
  FreshnessListing, freshness_cutoff, is_fresh_listing, is_reliable_fresh_listing, newer,
  sort_listings_newest_first, filter_reliable_fresh_listings, parse_date,
}

-- The length of a period that moves with the clock.
abbrev pub rank : FreshnessMode → Option ℕ
rank last_hour = some 1
rank last_24_hours = some 24
rank last_3_days = some 72
rank last_7_days = some 168
rank _ = none

abbrev pub covers : FreshnessMode → FreshnessMode → Bool
covers all_time narrow = true
covers wide narrow = elim (rank wide) [
  | none ↦ false
  | some w ↦ elim (rank narrow) [ none ↦ false | some n ↦ leb n w ]
]

-- A listing that is fresh for a period of the last hours is fresh for every longer one, and every
-- listing is fresh for all time.
pub is_reliable_fresh_listing-covers :
    (zoned : ℕ → ℕ) (l : FreshnessListing) (narrow wide : FreshnessMode) (now : ℕ)
    → covers wide narrow ≡ true
    → is_reliable_fresh_listing zoned l narrow now ≡ true
    → is_reliable_fresh_listing zoned l wide now ≡ true
unfolding is_reliable_fresh_listing is_fresh_listing freshness_cutoff
is_reliable_fresh_listing-covers zoned l narrow last_hour now c h = ground arith
is_reliable_fresh_listing-covers zoned l narrow last_24_hours now c h = ground arith
is_reliable_fresh_listing-covers zoned l narrow last_3_days now c h = ground arith
is_reliable_fresh_listing-covers zoned l narrow last_7_days now c h = ground arith
is_reliable_fresh_listing-covers zoned l narrow all_time now c h = refl
is_reliable_fresh_listing-covers zoned l narrow today now c h = ground arith
is_reliable_fresh_listing-covers zoned l narrow other now c h = ground arith

count_by-filter {ℓ} :
    {A : Type ℓ} (q p : A → Bool) (xs : List A)
    → count_by p (filter q xs) ≡ count_by (λ x. q x && p x) xs
count_by-filter q p [] = refl
count_by-filter q p (x ∷ xs) = let rest = count_by-filter q p xs in ground arith

abbrev pub published : FreshnessListing → ℕ
published l = or_else (parse_date l.published_at) 0

abbrev pub is_younger : FreshnessListing → FreshnessListing → Bool
is_younger a b = ltb (published b) (published a)

module _ (locale_less : String → String → Bool)
    (locale_asym : (a b : String) → locale_less a b ≡ true → locale_less b a ≡ false)
    (locale_trans : (a b c : String)
      → locale_less b a ≡ false
      → locale_less c b ≡ false
      → locale_less c a ≡ false) where
  newer_asym :
      (a b : FreshnessListing) → newer locale_less a b ≡ true → newer locale_less b a ≡ false
  unfolding newer
  newer_asym a b h = ground (arith, locale_asym b.external_id a.external_id)

  newer_trans :
      (a b c : FreshnessListing)
      → newer locale_less b a ≡ false
      → newer locale_less c b ≡ false
      → newer locale_less c a ≡ false
  unfolding newer
  newer_trans a b c h g = ground (
    arith,
    locale_trans a.external_id b.external_id c.external_id,
    locale_trans c.external_id b.external_id a.external_id,
  )

  All-older :
      (a : FreshnessListing) (ls : List FreshnessListing)
      → All (λ b. newer locale_less b a ≡ false) ls
      → All (λ b. is_younger b a ≡ false) ls
  unfolding newer
  All-older a [] h = tt
  All-older a (b ∷ ls) h = (ground (arith, h.0), All-older a ls h.1)

  IsSortedBy-is_younger :
      (ls : List FreshnessListing) → IsSortedBy (newer locale_less) ls → IsSortedBy is_younger ls
  IsSortedBy-is_younger [] h = tt
  IsSortedBy-is_younger (a ∷ ls) h = (All-older a ls h.0, IsSortedBy-is_younger ls h.1)

  -- For an order of the ids that is a strict weak order: the result holds each listing that is fresh as
  -- often as the input does, and no other, and no listing stands behind one that was published before
  -- it; a listing without a date counts as the oldest.
  pub filter_reliable_fresh_listings-newest_first :
      (zoned : ℕ → ℕ) (ls : List FreshnessListing) (mode : FreshnessMode) (now : ℕ)
      (p : FreshnessListing → Bool)
      → IsSortedBy is_younger (filter_reliable_fresh_listings locale_less zoned ls mode now)
        × (count_by p (filter_reliable_fresh_listings locale_less zoned ls mode now)
            ≡ count_by (λ l. is_reliable_fresh_listing zoned l mode now && p l) ls)
  unfolding filter_reliable_fresh_listings sort_listings_newest_first
  filter_reliable_fresh_listings-newest_first zoned ls mode now p =
      let fresh = filter (λ l. is_reliable_fresh_listing zoned l mode now) ls in
      (
        IsSortedBy-is_younger _
            (sort_by-IsSortedBy (newer locale_less) newer_asym newer_trans fresh),
        count_by-sort_by (newer locale_less) p fresh
            ∙ count_by-filter (λ l. is_reliable_fresh_listing zoned l mode now) p ls,
      )

-- A listing does not become fresh again: if it is fresh at a time for a period of the last hours, and
-- its dates were not in the future at an earlier time, it was fresh at that time.
pub is_reliable_fresh_listing-expires :
    (zoned : ℕ → ℕ) (l : FreshnessListing) (mode : FreshnessMode) (now later : ℕ)
    → is_some (rank mode) ≡ true
    → now ≤ later
    → or_else (parse_date l.published_at) 0 ≤ now
    → or_else (parse_date l.first_seen_at) 0 ≤ now
    → is_reliable_fresh_listing zoned l mode later ≡ true
    → is_reliable_fresh_listing zoned l mode now ≡ true
unfolding is_reliable_fresh_listing is_fresh_listing freshness_cutoff
is_reliable_fresh_listing-expires zoned l mode now later r le p f h = ground arith
