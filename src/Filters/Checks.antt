-- ===== src/Filters/Checks.antt =====
-- apps/worker/src/modules/filter-engine.ts: the checks of a listing against a filter. The source pushes to two arrays, of the reasons of a
-- rejection and of what is unknown; here each check gives one of three verdicts, and `note` pushes
-- it. The check's reason stands for the text of an unknown. The normalisation and the recognition
-- of texts, which packages/shared does by regular expressions, are parameters.
use auto_monitor_bot.Base.{
  ℕ, Bool, true, false, not, ◌&&◌, ◌||◌, List, [], ◌∷◌, Option, none, some, ltb, if◌then◌else◌, any,
  is_some, str_eq, opt_str_eq, truthy,
}
use Prim.Native.String.{String, ◌++◌ as append}
use package.text.Mathlib.Text.{find? as find_text}
use auto_monitor_bot.Domain.{ListingSource, auto_ria, olx, rst, cars_ua, automoto, mock}
use auto_monitor_bot.Filters.Geography.{
  GeoTables, unique, map_list, or_else_try, or_empty, is_empty, listing_matches_geo_selection,
}
use auto_monitor_bot.Filters.Data.{
  CategoryKey, vehicle_car, laptop, phone, desktop, gpu, console, escooter, generic,
  RejectionReason, category_attribute, price, geography, excluded_keyword, required_keyword,
  VehicleAttribute, AttributeValue, text, number, Listing, Bounds, Filter,
}

-- What the engine calls in packages/shared.
pub record Tools : Type 0 where
  pub normalize_text : String → String
  pub normalize_vehicle_text : String → String
  -- `inferVehicleAttributes`.
  pub infer : String → VehicleAttribute → Option String
  -- `vehicleAttributeMatches`, without a haystack.
  pub attribute_matches : VehicleAttribute → List String → String → Bool
  pub geo : GeoTables
  pub zoned : ℕ → ℕ

pub data Verdict : Type 0 where
  passes : Verdict
  rejects : RejectionReason → Verdict
  lacks : RejectionReason → Verdict

-- `includes` of a text.
abbrev pub includes_text : String → String → Bool
includes_text s t = is_some (find_text s t)

abbrev same_source : ListingSource → ListingSource → Bool
same_source auto_ria auto_ria = true
same_source olx olx = true
same_source rst rst = true
same_source cars_ua cars_ua = true
same_source automoto automoto = true
same_source mock mock = true
same_source _ _ = false

abbrev pub same_category : CategoryKey → CategoryKey → Bool
same_category vehicle_car vehicle_car = true
same_category laptop laptop = true
same_category phone phone = true
same_category desktop desktop = true
same_category gpu gpu = true
same_category console console = true
same_category escooter escooter = true
same_category generic generic = true
same_category _ _ = false

-- `filter(Boolean)` of texts, and `join(" ")`.
abbrev pub present_texts : List (Option String) → List String
present_texts [] = []
present_texts (none ∷ xs) = present_texts xs
present_texts (some s ∷ xs) = let rest = present_texts xs in if str_eq s "" then rest else s ∷ rest

unfoldable pub join_texts : List String → String
join_texts [] = ""
join_texts (s ∷ []) = s
join_texts (s ∷ t ∷ ts) = append (append s " ") (join_texts (t ∷ ts))

-- What a test that failed becomes.
abbrev pub reject_if : Bool → RejectionReason → Verdict
reject_if b r = if b then rejects r else passes

-- Where a value is missing, a check that fails for it is unknown.
abbrev pub lacking : Bool → RejectionReason → Verdict
lacking known r = if known then rejects r else lacks r

-- `numberInRange`.
unfoldable pub number_in_range : Option ℕ → Bounds → Bool
number_in_range value b = if not (is_some b.from) && not (is_some b.to) then true else (elim value [
  | none ↦ false
  | some v ↦
      not (elim b.from [ none ↦ false | some from ↦ ltb v from ])
      && not (elim b.to [ none ↦ false | some to ↦ ltb to v ])
])

-- `checkRange`.
unfoldable pub check_range : Option ℕ → Bounds → RejectionReason → Verdict
check_range value b r = if not (is_some b.from) && not (is_some b.to) then passes else (elim value [
  | none ↦ lacks r
  | some v ↦ if number_in_range (some v) b then passes else rejects r
])

abbrev same_bool : Bool → Bool → Bool
same_bool true b = b
same_bool false b = not b

-- The tests of CUSTOMS and BARGAIN.
unfoldable pub check_flag : Option Bool → Option Bool → RejectionReason → Verdict
check_flag value none r = passes
check_flag none (some wanted) r = lacks r
check_flag (some v) (some wanted) r = if same_bool v wanted then passes else rejects r

-- `evaluateMinimum`.
unfoldable pub evaluate_minimum : AttributeValue → Option ℕ → Verdict
evaluate_minimum value none = passes
evaluate_minimum (number v) (some least) =
    if ltb v least then rejects category_attribute else passes
evaluate_minimum _ (some least) = lacks category_attribute

abbrev pub is_olx_currency : String → Option String → Bool
is_olx_currency code currency = opt_str_eq currency (some code)

-- The price that a car's filter is compared with, and another category's.
unfoldable pub vehicle_price : Listing → Option ℕ
vehicle_price l = elim l.price_normalized [
  | none ↦ if opt_str_eq l.currency_original (some "USD") then l.price_original else none
  | some p ↦ some p
]

unfoldable pub category_price : Listing → Option ℕ
category_price l = if opt_str_eq l.currency_original (some "UAH") then l.price_original else none

unfoldable pub check_category_price : Option ℕ → Bounds → Verdict
check_category_price value b =
    if not (is_some value) && (is_some b.from || is_some b.to)
    then lacks price
    else if not (number_in_range value b)
    then rejects price
    else passes

module _ (t : Tools) where
  -- `matchesName`.
  unfoldable pub matches_name : Option String → String → String → Bool
  matches_name value expected haystack =
      let wanted = t.normalize_vehicle_text expected in
      let known = t.normalize_vehicle_text (or_empty value) in
      if str_eq wanted ""
      then true
      else if str_eq known wanted || includes_text known wanted
      then true
      else includes_text (t.normalize_vehicle_text haystack) wanted

  -- `textOptionMatches`.
  unfoldable pub text_option_matches : List String → Option String → String → Bool
  text_option_matches expected value haystack =
      if is_empty expected
      then true
      else any
          (λ e.
            includes_text (t.normalize_text (or_empty value)) (t.normalize_text e)
            || includes_text (t.normalize_text haystack) (t.normalize_text e))
          expected

  -- `evaluateIncludes`.
  unfoldable pub evaluate_includes : AttributeValue → List String → Verdict
  evaluate_includes value [] = passes
  evaluate_includes (text v) (e ∷ es) =
      if any (λ n. includes_text (t.normalize_text v) (t.normalize_text n)) (e ∷ es)
      then passes
      else rejects category_attribute
  evaluate_includes _ (e ∷ es) = lacks category_attribute

  -- `checkEnum`.
  unfoldable pub check_enum :
      VehicleAttribute → Listing → Filter → String → RejectionReason → Verdict
  check_enum key l f haystack r =
      if is_empty (f.vehicle key)
      then passes
      else (let known =
            or_else_try (t.infer (or_empty (l.vehicle key)) key) (t.infer haystack key) in
          elim known [
            | none ↦ lacks r
            | some k ↦ if t.attribute_matches key (f.vehicle key) k then passes else rejects r
          ])

  abbrev model_names : Filter → List String
  model_names f = unique (present_texts (f.model ∷ map_list some f.model_names))

  unfoldable pub name_fails : Listing → Filter → String → Bool
  name_fails l f haystack = elim f.brand [
    | none ↦ false
    | some b ↦ not (str_eq b "") && not (matches_name l.brand b haystack)
  ]

  unfoldable pub model_fails : Listing → Filter → String → Bool
  model_fails l f haystack =
      not (is_empty (model_names f))
      && not (any (λ m. matches_name l.model m haystack) (model_names f))

  unfoldable pub generation_fails : Filter → String → Bool
  generation_fails f haystack = elim f.generation [
    | none ↦ false
    | some g ↦
        not (str_eq g "") && not (includes_text (t.normalize_text haystack) (t.normalize_text g))
  ]

  abbrev pub source_fails : Listing → Filter → Bool
  source_fails l f =
      not (is_empty f.sources) && not (any (λ s. same_source s l.fresh.source) f.sources)

  abbrev pub geo_matches : Listing → Filter → Bool
  geo_matches l f = listing_matches_geo_selection t.geo l.region l.city f.regions f.cities

  -- GEOGRAPHY of a car.
  unfoldable pub check_geography : Listing → Filter → Verdict
  check_geography l f =
      let mismatch =
        truthy l.region
        && not (is_empty f.regions)
        && not (listing_matches_geo_selection t.geo l.region none f.regions []) in
      if geo_matches l f
      then passes
      else if not mismatch
          && (not (truthy l.city) && not (is_empty f.cities)
              || not (truthy l.region) && not (truthy l.city))
      then lacks geography
      else rejects geography

  abbrev keyword_haystack : Listing → String
  keyword_haystack l = t.normalize_text (join_texts (present_texts (l.title ∷ l.description ∷ [])))

  abbrev pub has_keyword : Listing → List String → Bool
  has_keyword l keywords =
      any (λ k. includes_text (keyword_haystack l) (t.normalize_text k)) keywords

  abbrev pub keyword_checks : Listing → Filter → List Verdict
  keyword_checks l f =
      reject_if (has_keyword l f.exclude_keywords) excluded_keyword
      ∷ reject_if (not (is_empty f.keywords) && not (has_keyword l f.keywords)) required_keyword
      ∷ []
