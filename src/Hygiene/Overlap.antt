-- ===== src/Hygiene/Overlap.antt =====
-- packages/shared/src/utils/filter-hygiene.ts: whether two filters may find the same listings. The
-- normalisation of texts, the order of `localeCompare`, `includes` and the tables of regions are
-- parameters. A list that is missing counts as empty, as the source has it.
use auto_monitor_bot.Base.{
  ℕ, Bool, true, false, not, ◌&&◌, ◌||◌, List, [], ◌∷◌, ◌++◌, Option, none, some, leb, ◌==◌,
  if◌then◌else◌, any, all, filter, max, min, str_eq, opt_str_eq, or_else, sort_by,
}
use Prim.Native.String.{String}
use auto_monitor_bot.Filters.Data.{Bounds}
use auto_monitor_bot.Filters.Geography.{
  GeoTables, includes_id, unique, compact, map_list, or_empty, is_empty, normalize_region_ids,
  normalize_city_ids,
}

-- `FilterHygieneCandidate`; the criteria of a category stand as `stableJsonValue` prints them.
pub record Candidate : Type 0 where
  pub id : String
  pub name : String
  pub enabled : Bool
  pub category_key : Option String
  pub category_schema_version : Option ℕ
  pub category_criteria : Option String
  pub unknown_policy : Option String
  pub shadow_mode : Option Bool
  pub sources : List String
  pub auto_ria_category_id : Option ℕ
  pub auto_ria_mark_id : Option ℕ
  pub auto_ria_model_id : Option ℕ
  pub brand : Option String
  pub model : Option String
  pub model_names : List String
  pub generation : Option String
  pub body_types : List String
  pub fuel_types : List String
  pub gearboxes : List String
  pub drive_types : List String
  pub colors : List String
  pub engine_volume : Bounds
  pub engine_power : Bounds
  pub doors : Bounds
  pub seats : Bounds
  pub conditions : List String
  pub customs_cleared : Option Bool
  pub bargain_possible : Option Bool
  pub freshness_mode : Option String
  pub year : Bounds
  pub price : Bounds
  pub mileage : Bounds
  pub regions : List String
  pub cities : List String
  pub keywords : List String
  pub exclude_keywords : List String

pub record Texts : Type 0 where
  pub normalize_text : String → String
  pub normalize_vehicle_text : String → String
  pub includes : String → String → Bool
  pub comes_before : String → String → Bool
  pub geo : GeoTables

abbrev pub same_flag : Bool → Bool → Bool
same_flag true b = b
same_flag false b = not b

-- `normalizedList`.
unfoldable pub normalized_list :
    (String → String → Bool) → (String → String) → List String → List String
normalized_list comes_before normalize values =
    sort_by comes_before (unique (filter (λ v. not (str_eq v "")) (map_list normalize values)))

abbrev pub meets : List String → List String → Bool
meets left right = any (λ x. includes_id right x) left

-- `normalizedListsOverlap`.
unfoldable pub normalized_lists_overlap : List String → List String → Bool
normalized_lists_overlap left right =
    if is_empty left || is_empty right then true else meets left right

-- `textConstraintsOverlap`.
unfoldable pub text_constraints_overlap :
    (String → String → Bool) → (String → String) → Option String → Option String → Bool
text_constraints_overlap includes normalize left right =
    let a = normalize (or_empty left) in
    let b = normalize (or_empty right) in
    if str_eq a "" || str_eq b "" then true else str_eq a b || includes a b || includes b a

-- `scalarConstraintsOverlap`.
unfoldable pub scalar_constraints_overlap {ℓ} :
    {A : Type ℓ} → (A → A → Bool) → Option A → Option A → Bool
scalar_constraints_overlap same none right = true
scalar_constraints_overlap same (some a) none = true
scalar_constraints_overlap same (some a) (some b) = same a b

-- The larger and the smaller of two bounds; a missing one is infinite.
abbrev lower : Option ℕ → Option ℕ → Option ℕ
lower none b = b
lower (some a) none = some a
lower (some a) (some b) = some (max a b)

abbrev upper : Option ℕ → Option ℕ → Option ℕ
upper none b = b
upper (some a) none = some a
upper (some a) (some b) = some (min a b)

abbrev at_most : Option ℕ → Option ℕ → Bool
at_most none b = true
at_most (some a) none = true
at_most (some a) (some b) = leb a b

-- `rangeConstraintsOverlap`.
unfoldable pub range_constraints_overlap : Bounds → Bounds → Bool
range_constraints_overlap left right = at_most (lower left.from right.from) (upper left.to right.to)

abbrev group_of : GeoTables → String → List String → List String
group_of g region cities = filter (λ c. opt_str_eq (g.city_region c) (some region)) cities

-- The entry of a region in `geoCoverage`: none for a region that is not in the map, and `some none` for
-- a whole region.
unfoldable pub region_cover :
    GeoTables → List String → List String → String → Option (Option (List String))
region_cover g regions cities region =
    let group = group_of g region cities in
    if includes_id regions region
    then some (if is_empty group then none else some group)
    else if is_empty group
    then none
    else some (some group)

-- The regions in that map; that one may stand several times makes no difference to the search below.
unfoldable pub covered_regions : GeoTables → List String → List String → List String
covered_regions g regions cities = regions ++ compact (map_list g.city_region cities)

abbrev pub region_overlaps : Option (Option (List String)) → Option (Option (List String)) → Bool
region_overlaps none right = false
region_overlaps (some left) none = false
region_overlaps (some none) (some right) = true
region_overlaps (some (some left)) (some none) = true
region_overlaps (some (some left)) (some (some right)) = meets left right

-- `geoConstraintsOverlap` on normalised ids.
unfoldable pub selections_overlap :
    GeoTables → List String → List String → List String → List String → Bool
selections_overlap g regions cities others towns =
    if is_empty regions && is_empty cities || is_empty others && is_empty towns
    then true
    else any
        (λ r. region_overlaps (region_cover g regions cities r) (region_cover g others towns r))
        (covered_regions g regions cities)

module _ (t : Texts) where
  abbrev plain_list : List String → List String
  plain_list values = normalized_list t.comes_before t.normalize_text values

  abbrev pub list_constraints_overlap : List String → List String → Bool
  list_constraints_overlap left right =
      normalized_lists_overlap (plain_list left) (plain_list right)

  -- `modelConstraintsOverlap`.
  unfoldable pub model_constraints_overlap : Candidate → Candidate → Bool
  model_constraints_overlap left right =
      normalized_lists_overlap
        (normalized_list t.comes_before t.normalize_vehicle_text
          (or_empty left.model ∷ left.model_names))
        (normalized_list t.comes_before t.normalize_vehicle_text
          (or_empty right.model ∷ right.model_names))

  -- `geoConstraintsOverlap`.
  unfoldable pub geo_constraints_overlap : Candidate → Candidate → Bool
  geo_constraints_overlap left right =
      selections_overlap t.geo (normalize_region_ids t.geo left.regions)
        (normalize_city_ids t.geo left.cities) (normalize_region_ids t.geo right.regions)
        (normalize_city_ids t.geo right.cities)

  -- `requiredKeywordsAreExcluded`.
  unfoldable pub required_keywords_are_excluded : Candidate → Candidate → Bool
  required_keywords_are_excluded required excluding =
      let keywords = plain_list required.keywords in
      not (is_empty keywords)
      && all (λ k. includes_id (plain_list excluding.exclude_keywords) k) keywords

  -- `filtersMateriallyOverlap`: its checks, in their order, of which the first that fails decides.
  unfoldable pub filters_materially_overlap : Candidate → Candidate → Bool
  filters_materially_overlap left right =
      all (λ b. b)
        (str_eq (or_else left.category_key "vehicle.car") (or_else right.category_key "vehicle.car")
          ∷ list_constraints_overlap left.sources right.sources
          ∷ scalar_constraints_overlap ◌==◌ left.auto_ria_category_id right.auto_ria_category_id
          ∷ scalar_constraints_overlap ◌==◌ left.auto_ria_mark_id right.auto_ria_mark_id
          ∷ scalar_constraints_overlap ◌==◌ left.auto_ria_model_id right.auto_ria_model_id
          ∷ text_constraints_overlap t.includes t.normalize_vehicle_text left.brand right.brand
          ∷ model_constraints_overlap left right
          ∷ text_constraints_overlap t.includes t.normalize_text left.generation right.generation
          ∷ list_constraints_overlap left.body_types right.body_types
          ∷ list_constraints_overlap left.fuel_types right.fuel_types
          ∷ list_constraints_overlap left.gearboxes right.gearboxes
          ∷ list_constraints_overlap left.drive_types right.drive_types
          ∷ list_constraints_overlap left.colors right.colors
          ∷ list_constraints_overlap left.conditions right.conditions
          ∷ range_constraints_overlap left.year right.year
          ∷ range_constraints_overlap left.price right.price
          ∷ range_constraints_overlap left.mileage right.mileage
          ∷ range_constraints_overlap left.engine_volume right.engine_volume
          ∷ range_constraints_overlap left.engine_power right.engine_power
          ∷ range_constraints_overlap left.doors right.doors
          ∷ range_constraints_overlap left.seats right.seats
          ∷ scalar_constraints_overlap same_flag left.customs_cleared right.customs_cleared
          ∷ scalar_constraints_overlap same_flag left.bargain_possible right.bargain_possible
          ∷ geo_constraints_overlap left right
          ∷ list_constraints_overlap left.keywords right.keywords
          ∷ (not (required_keywords_are_excluded left right)
              && not (required_keywords_are_excluded right left))
          ∷ [])
