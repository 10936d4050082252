-- ===== src/Filters/Geography.antt =====
-- packages/shared/src/data/ukraine-regions.ts: the selection of regions and cities. The tables that
-- the file builds of its data, and the normalisation of a name, are parameters; the ids in the tables
-- are not empty.
use auto_monitor_bot.Base.{
  Bool, true, false, not, ◌&&◌, List, [], ◌∷◌, Option, none, some, if◌then◌else◌, any, filter,
  str_eq, opt_str_eq, is_some,
}
use Prim.Native.String.{String}

pub record GeoTables : Type 0 where
  -- `REGION_BY_ID` and `REGION_TOKEN_TO_ID`.
  pub is_region : String → Bool
  pub region_token : String → Option String
  -- The region of a city in `CITY_BY_ID`, and `CITY_TOKEN_TO_ID`.
  pub city_region : String → Option String
  pub city_token : String → Option String
  -- `AMBIGUOUS_CITY_TOKENS`.
  pub is_ambiguous : String → Bool
  -- `normalizeGeoText`.
  pub normalize : String → String

abbrev pub or_else_try : Option String → Option String → Option String
or_else_try (some a) other = some a
or_else_try none other = other

abbrev pub includes_id : List String → String → Bool
includes_id ids id = any (λ i. str_eq i id) ids

-- `unique`.
unfoldable pub unique : List String → List String
unique [] = []
unique (x ∷ xs) = let rest = unique xs in x ∷ filter (λ y. not (str_eq y x)) rest

abbrev pub compact : List (Option String) → List String
compact [] = []
compact (none ∷ xs) = compact xs
compact (some x ∷ xs) = x ∷ compact xs

abbrev pub map_list {ℓ κ} : {A : Type ℓ} {B : Type κ} → (A → B) → List A → List B
map_list f [] = []
map_list f (x ∷ xs) = f x ∷ map_list f xs

abbrev pub or_empty : Option String → String
or_empty none = ""
or_empty (some s) = s

abbrev pub is_empty {ℓ} : {A : Type ℓ} → List A → Bool
is_empty [] = true
is_empty (x ∷ xs) = false

module _ (g : GeoTables) where
  -- `resolveRegionId`.
  unfoldable pub resolve_region_id : Option String → Option String
  resolve_region_id none = none
  resolve_region_id (some v) =
      if str_eq v "" then none else if g.is_region v then some v else g.region_token (g.normalize v)

  -- `resolveCityId`.
  unfoldable pub resolve_city_id : Option String → Option String
  resolve_city_id none = none
  resolve_city_id (some v) =
      if str_eq v ""
      then none
      else if is_some (g.city_region v)
      then some v
      else g.city_token (g.normalize v)

  -- `normalizeRegionIds`.
  unfoldable pub normalize_region_ids : List String → List String
  normalize_region_ids vs = unique (compact (map_list (λ v. resolve_region_id (some v)) vs))

  -- `normalizeCityIds`, without allowed regions.
  unfoldable pub normalize_city_ids : List String → List String
  normalize_city_ids vs = unique (compact (map_list (λ v. resolve_city_id (some v)) vs))

  -- The region of a city id that may be missing.
  abbrev pub region_of_city : Option String → Option String
  region_of_city none = none
  region_of_city (some c) = g.city_region c

  abbrev pub listing_region_id : Option String → Option String → Option String
  listing_region_id region city =
      or_else_try (resolve_region_id region) (region_of_city (resolve_city_id city))

  -- The city is known to lie outside the selected regions.
  abbrev pub vetoed : List String → Option String → Bool
  vetoed region_ids city = elim (region_of_city (resolve_city_id city)) [
    | none ↦ false
    | some r ↦
        not (is_empty region_ids)
        && not (includes_id region_ids r)
        && not (g.is_ambiguous (g.normalize (or_empty city)))
  ]

  abbrev pub includes_opt : List String → Option String → Bool
  includes_opt ids none = false
  includes_opt ids (some id) = includes_id ids id

  abbrev pub in_region : List String → List String → Option String → Bool
  in_region region_ids city_ids none = false
  in_region region_ids city_ids (some r) =
      if not (includes_id region_ids r)
      then false
      else is_empty (filter (λ c. opt_str_eq (g.city_region c) (some r)) city_ids)

  -- `listingMatchesGeoSelection`.
  unfoldable pub listing_matches_geo_selection :
      Option String → Option String → List String → List String → Bool
  listing_matches_geo_selection region city regions cities =
      let region_ids = normalize_region_ids regions in
      let city_ids = normalize_city_ids cities in
      if is_empty region_ids && is_empty city_ids
      then true
      else if vetoed region_ids city
      then false
      else if includes_opt city_ids (resolve_city_id city)
      then true
      else in_region region_ids city_ids (listing_region_id region city)
