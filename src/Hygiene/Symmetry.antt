-- ===== src/Hygiene/Symmetry.antt =====
-- packages/shared/src/utils/filter-hygiene.ts: which way round two filters are compared does not matter.
use auto_monitor_bot.Base.{
  ℕ, ◌≡◌, refl, sym, ap, subst, ◌∙◌, Bool, true, false, not, ◌&&◌, ◌||◌, List, [], ◌∷◌, Option,
  none, some, arith, leb, ◌==◌, if◌then◌else◌, any, all, any-append, filter, max, str_eq, str_eq-eq,
  str_eq_refl, opt_str_eq, or_else, is_some, Bool-cases, inl, inr,
}
use Prim.Native.String.{String}
use auto_monitor_bot.Filters.Data.{Bounds}
use auto_monitor_bot.Filters.Geography.{
  GeoTables, includes_id, compact, map_list, is_empty, or_empty, normalize_region_ids,
  normalize_city_ids,
}
use auto_monitor_bot.Hygiene.Overlap.{
  Candidate, Texts, same_flag, normalized_list, meets, normalized_lists_overlap,
  text_constraints_overlap, scalar_constraints_overlap, range_constraints_overlap, region_cover,
  covered_regions, region_overlaps, selections_overlap, model_constraints_overlap,
  geo_constraints_overlap, required_keywords_are_excluded, filters_materially_overlap,
}

both_ways : (a b : Bool) → (a ≡ true → b ≡ true) → (b ≡ true → a ≡ true) → a ≡ b
both_ways true b f g = sym (f refl)
both_ways false true f g = g refl
both_ways false false f g = refl

pub str_eq_sym : (a b : String) → str_eq a b ≡ str_eq b a
str_eq_sym a b =
    let turned : (x y : String) → str_eq x y ≡ true → str_eq y x ≡ true =
      λ x y e. subst (λ z. str_eq z x ≡ true) (str_eq-eq x y e) (str_eq_refl x) in
    both_ways (str_eq a b) (str_eq b a) (turned a b) (turned b a)

meets_cons :
    (ys xs : List String) (x : String) → meets ys (x ∷ xs) ≡ (includes_id ys x || meets ys xs)
meets_cons [] xs x = refl
meets_cons (y ∷ ys) xs x = ground (arith, meets_cons ys xs x, str_eq_sym x y)

meets_none : (ys : List String) → meets ys [] ≡ false
meets_none [] = refl
meets_none (y ∷ ys) = meets_none ys

meets_sym : (xs ys : List String) → meets xs ys ≡ meets ys xs
meets_sym [] ys = sym (meets_none ys)
meets_sym (x ∷ xs) ys = ap (λ b. includes_id ys x || b) (meets_sym xs ys) ∙ sym (meets_cons ys xs x)

lists_sym : (xs ys : List String) → normalized_lists_overlap xs ys ≡ normalized_lists_overlap ys xs
unfolding normalized_lists_overlap
lists_sym xs ys = ground (arith, meets_sym xs ys)

either_way :
    (p q d e i j : Bool)
    → d ≡ e
    → (if p || q then true else d || i || j) ≡ (if q || p then true else e || j || i)
either_way p q d e i j h = ground arith

text_sym :
    (includes : String → String → Bool) (normalize : String → String) (a b : Option String)
    → text_constraints_overlap includes normalize a b
      ≡ text_constraints_overlap includes normalize b a
unfolding text_constraints_overlap
text_sym includes normalize a b =
    let x = normalize (or_empty a) in
    let y = normalize (or_empty b) in
    either_way (str_eq x "") (str_eq y "") (str_eq x y) (str_eq y x) (includes x y) (includes y x)
      (str_eq_sym x y)

number_sym :
    (a b : Option ℕ) → scalar_constraints_overlap ◌==◌ a b ≡ scalar_constraints_overlap ◌==◌ b a
unfolding scalar_constraints_overlap
number_sym none none = refl
number_sym none (some b) = refl
number_sym (some a) none = refl
number_sym (some a) (some b) = ground arith

flag_sym :
    (a b : Option Bool)
    → scalar_constraints_overlap same_flag a b ≡ scalar_constraints_overlap same_flag b a
unfolding scalar_constraints_overlap
flag_sym none none = refl
flag_sym none (some b) = refl
flag_sym (some a) none = refl
flag_sym (some a) (some b) = ground arith

range_sym : (a b : Bounds) → range_constraints_overlap a b ≡ range_constraints_overlap b a
unfolding range_constraints_overlap
range_sym a b = ground arith

-- A number within bounds.
abbrev pub is_within : ℕ → Bounds → Bool
is_within v b =
    (elim b.from [ none ↦ true | some from ↦ leb from v ])
    && (elim b.to [ none ↦ true | some to ↦ leb v to ])

-- Two ranges overlap exactly where some number lies in both.
range_constraints_overlap-is_within :
    (a b : Bounds)
    → (range_constraints_overlap a b ≡ true → (v : ℕ) × (is_within v a && is_within v b ≡ true))
      × ((v : ℕ) → is_within v a && is_within v b ≡ true → range_constraints_overlap a b ≡ true)
unfolding range_constraints_overlap
range_constraints_overlap-is_within a b =
    (λ h. (max (or_else a.from 0) (or_else b.from 0), ground arith), λ v h. ground arith)

-- A member of a list, and the tests that it passes.
any-witness : (f : String → Bool) (rs : List String) → any f rs ≡ true → (r : String) × (f r ≡ true)
any-witness f [] h = absurd (ground arith)
any-witness f (r ∷ rs) h = elim (Bool-cases (f r)) [
  | inl here ↦ (r, here)
  | inr there ↦ any-witness f rs (ground arith)
]

any-member :
    (f : String → Bool) (rs : List String) (r : String)
    → includes_id rs r ≡ true
    → f r ≡ true
    → any f rs ≡ true
any-member f [] r m h = absurd (ground arith)
any-member f (x ∷ rs) r m h = elim (Bool-cases (str_eq x r)) [
  | inl same ↦
      let moved : f x ≡ true = subst (λ t. f t ≡ true) (sym (str_eq-eq x r same)) h in ground arith
  | inr other ↦ ground (arith, any-member f rs r)
]

region_overlaps_sym :
    (a b : Option (Option (List String))) → region_overlaps a b ≡ region_overlaps b a
region_overlaps_sym none none = refl
region_overlaps_sym none (some b) = refl
region_overlaps_sym (some a) none = refl
region_overlaps_sym (some none) (some none) = refl
region_overlaps_sym (some none) (some (some b)) = refl
region_overlaps_sym (some (some a)) (some none) = refl
region_overlaps_sym (some (some a)) (some (some b)) = meets_sym a b

overlaps-is_some :
    (a b : Option (Option (List String))) → region_overlaps a b ≡ true → is_some b ≡ true
overlaps-is_some none b h = absurd (ground arith)
overlaps-is_some (some a) none h = absurd (ground arith)
overlaps-is_some (some a) (some b) h = refl

-- A city of a region brings the region among those of the cities.
group_of-region :
    (g : GeoTables) (cities : List String) (r : String)
    → is_empty (filter (λ c. opt_str_eq (g.city_region c) (some r)) cities) ≡ false
    → includes_id (compact (map_list g.city_region cities)) r ≡ true
group_of-region g [] r h = absurd (ground arith)
group_of-region g (c ∷ cities) r h = ground (arith, group_of-region g cities r)

region_cover-region :
    (g : GeoTables) (regions cities : List String) (r : String)
    → is_some (region_cover g regions cities r) ≡ true
    → includes_id (covered_regions g regions cities) r ≡ true
unfolding region_cover covered_regions
region_cover-region g regions cities r h =
    any-append (λ i. str_eq i r) regions (compact (map_list g.city_region cities))
    ∙ ground (arith, group_of-region g cities r)

module _ (g : GeoTables) (regions cities others towns : List String) where
  found_both_ways :
      any
          (λ r. region_overlaps (region_cover g regions cities r) (region_cover g others towns r))
          (covered_regions g regions cities)
        ≡ true
      → any
          (λ r. region_overlaps (region_cover g others towns r) (region_cover g regions cities r))
          (covered_regions g others towns)
        ≡ true
  found_both_ways h =
      let w =
        any-witness
          (λ r. region_overlaps (region_cover g regions cities r) (region_cover g others towns r))
          (covered_regions g regions cities) h in
      let r = w.0 in
      any-member
        (λ r. region_overlaps (region_cover g others towns r) (region_cover g regions cities r))
        (covered_regions g others towns) r
        (region_cover-region g others towns r
          (overlaps-is_some (region_cover g regions cities r) (region_cover g others towns r) w.1))
        (region_overlaps_sym (region_cover g others towns r) (region_cover g regions cities r)
          ∙ w.1)

unrestricted :
    (p q a b : Bool) → a ≡ b → (if p || q then true else a) ≡ (if q || p then true else b)
unrestricted p q a b h = ground arith

selections_sym :
    (g : GeoTables) (regions cities others towns : List String)
    → selections_overlap g regions cities others towns
      ≡ selections_overlap g others towns regions cities
unfolding selections_overlap
selections_sym g regions cities others towns =
    let there =
      any (λ r. region_overlaps (region_cover g regions cities r) (region_cover g others towns r))
        (covered_regions g regions cities) in
    let back =
      any (λ r. region_overlaps (region_cover g others towns r) (region_cover g regions cities r))
        (covered_regions g others towns) in
    unrestricted (is_empty regions && is_empty cities) (is_empty others && is_empty towns) there
      back
      (both_ways there back (found_both_ways g regions cities others towns)
        (found_both_ways g others towns regions cities))

and_sym : (a b : Bool) → a && b ≡ b && a
and_sym a b = ground arith

-- Two filters overlap exactly where they overlap the other way round: the analysis of a pair does not
-- depend on the order in which its filters stand, whatever the texts are normalised to.
pub filters_materially_overlap-swapped :
    (t : Texts) (left right : Candidate)
    → filters_materially_overlap t left right ≡ filters_materially_overlap t right left
unfolding filters_materially_overlap model_constraints_overlap geo_constraints_overlap
filters_materially_overlap-swapped t left right =
    let plain = normalized_list t.comes_before t.normalize_text in
    let vehicle = normalized_list t.comes_before t.normalize_vehicle_text in
    let excluded = required_keywords_are_excluded t in
    λ i.
      all (λ b. b)
        (str_eq_sym (or_else left.category_key "vehicle.car")
            (or_else right.category_key "vehicle.car") i
          ∷ lists_sym (plain left.sources) (plain right.sources) i
          ∷ number_sym left.auto_ria_category_id right.auto_ria_category_id i
          ∷ number_sym left.auto_ria_mark_id right.auto_ria_mark_id i
          ∷ number_sym left.auto_ria_model_id right.auto_ria_model_id i
          ∷ text_sym t.includes t.normalize_vehicle_text left.brand right.brand i
          ∷ lists_sym (vehicle (or_empty left.model ∷ left.model_names))
              (vehicle (or_empty right.model ∷ right.model_names)) i
          ∷ text_sym t.includes t.normalize_text left.generation right.generation i
          ∷ lists_sym (plain left.body_types) (plain right.body_types) i
          ∷ lists_sym (plain left.fuel_types) (plain right.fuel_types) i
          ∷ lists_sym (plain left.gearboxes) (plain right.gearboxes) i
          ∷ lists_sym (plain left.drive_types) (plain right.drive_types) i
          ∷ lists_sym (plain left.colors) (plain right.colors) i
          ∷ lists_sym (plain left.conditions) (plain right.conditions) i
          ∷ range_sym left.year right.year i
          ∷ range_sym left.price right.price i
          ∷ range_sym left.mileage right.mileage i
          ∷ range_sym left.engine_volume right.engine_volume i
          ∷ range_sym left.engine_power right.engine_power i
          ∷ range_sym left.doors right.doors i
          ∷ range_sym left.seats right.seats i
          ∷ flag_sym left.customs_cleared right.customs_cleared i
          ∷ flag_sym left.bargain_possible right.bargain_possible i
          ∷ selections_sym t.geo (normalize_region_ids t.geo left.regions)
              (normalize_city_ids t.geo left.cities) (normalize_region_ids t.geo right.regions)
              (normalize_city_ids t.geo right.cities) i
          ∷ lists_sym (plain left.keywords) (plain right.keywords) i
          ∷ and_sym (not (excluded left right)) (not (excluded right left)) i
          ∷ [])
