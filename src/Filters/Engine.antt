-- ===== src/Filters/Engine.antt =====
-- apps/worker/src/modules/filter-engine.ts: the order of the checks, the outcome, and the filters that
-- a listing matches.
use auto_monitor_bot.Base.{
  ℕ, Bool, true, false, not, ◌&&◌, ◌||◌, List, [], ◌∷◌, ◌++◌, if◌then◌else◌, filter, ◌==◌, truthy,
}
use Prim.Native.String.{String}
use auto_monitor_bot.Filters.Freshness.{is_reliable_fresh_listing}
use auto_monitor_bot.Filters.Geography.{map_list, includes_id, is_empty}
use auto_monitor_bot.Filters.Data.{
  vehicle_car, gpu, RejectionReason, filter_disabled, source, category, category_attribute,
  freshness, brand, model, generation, body_type, fuel_type, gearbox, drive_type, color, condition,
  year, engine_volume, engine_power, doors, seats, price, mileage, customs, bargain, geography,
  excluded_keyword, required_keyword, no_enabled_filters, Outcome, match, no_match, unknown, body,
  fuel, gears, drive, Listing, Filter,
}
use auto_monitor_bot.Filters.Checks.{
  Tools, Verdict, passes, rejects, lacks, reject_if, lacking, check_range, check_flag,
  evaluate_minimum, evaluate_includes, vehicle_price, category_price, check_category_price,
  text_option_matches, check_enum, name_fails, model_fails, generation_fails, source_fails,
  geo_matches, check_geography, keyword_checks, same_category, present_texts, join_texts,
}

-- `FilterEvaluation`.
pub record Evaluation : Type 0 where
  pub filter_id : String
  pub matched : Bool
  pub outcome : Outcome
  pub provisional : Bool
  pub unknown_reasons : List RejectionReason
  pub reasons : List RejectionReason

module _ (t : Tools) where
  -- The checks of `evaluateListingFilter` for a car, in their order.
  unfoldable pub vehicle_checks : Listing → Filter → ℕ → List Verdict
  vehicle_checks l f now =
      let haystack = join_texts (
        present_texts (l.title ∷ l.description ∷ l.brand ∷ l.model ∷ l.color ∷ l.condition ∷ [])) in
      reject_if (not f.enabled) filter_disabled
      ∷ reject_if (source_fails t l f) source
      ∷ reject_if (not (is_reliable_fresh_listing t.zoned l.fresh f.freshness_mode now)) freshness
      ∷ reject_if (name_fails t l f haystack) brand
      ∷ reject_if (model_fails t l f haystack) model
      ∷ reject_if (generation_fails t f haystack) generation
      ∷ check_enum t body l f haystack body_type
      ∷ check_enum t fuel l f haystack fuel_type
      ∷ check_enum t gears l f haystack gearbox
      ∷ check_enum t drive l f haystack drive_type
      ∷ (if text_option_matches t f.colors l.color haystack
          then passes
          else lacking (truthy l.color) color)
      ∷ (if text_option_matches t f.conditions l.condition haystack
          then passes
          else lacking (truthy l.condition) condition)
      ∷ check_range l.year f.year year
      ∷ check_range l.engine_volume f.engine_volume engine_volume
      ∷ check_range l.engine_power f.engine_power engine_power
      ∷ check_range l.doors f.doors doors
      ∷ check_range l.seats f.seats seats
      ∷ check_range (vehicle_price l) f.price price
      ∷ check_range l.mileage f.mileage mileage
      ∷ check_flag l.customs_cleared f.customs_cleared customs
      ∷ check_flag l.bargain_possible f.bargain_possible bargain
      ∷ check_geography t l f
      ∷ keyword_checks t l f

  -- The checks of `evaluateCategoryListingFilter`, in their order.
  unfoldable pub category_checks : Listing → Filter → ℕ → List Verdict
  category_checks l f now =
      let haystack =
        join_texts
          (present_texts (l.title ∷ l.description ∷ l.brand ∷ l.model ∷ l.condition ∷ [])) in
      let attribute = l.category_attributes f.category_key in
      let gpu_key = if same_category f.category_key gpu then "model" else "gpu" in
      reject_if (not f.enabled) filter_disabled
        ∷ reject_if (not (same_category f.category_key l.category_key)) category
        ∷ reject_if (source_fails t l f) source
        ∷ reject_if (not (is_reliable_fresh_listing t.zoned l.fresh f.freshness_mode now)) freshness
        ∷ (if name_fails t l f haystack then lacking (truthy l.brand) brand else passes)
        ∷ (if model_fails t l f haystack then lacking (truthy l.model) model else passes)
        ∷ (if text_option_matches t f.conditions l.condition haystack
            then passes
            else lacking (truthy l.condition) condition)
        ∷ check_category_price (category_price l) f.price
        ∷ (if geo_matches t l f
            then passes
            else lacking (truthy l.region || truthy l.city) geography)
        ∷ keyword_checks t l f
      ++ evaluate_minimum (attribute "ramGb") f.criteria.min_ram_gb
        ∷ evaluate_minimum (attribute "storageGb") f.criteria.min_storage_gb
        ∷ evaluate_minimum (attribute "batteryHealthPercent") f.criteria.min_battery_health_percent
        ∷ evaluate_minimum (attribute "vramGb") f.criteria.min_vram_gb
        ∷ evaluate_minimum (attribute "powerW") f.criteria.min_power_w
        ∷ evaluate_minimum (attribute "rangeKm") f.criteria.min_range_km
        ∷ evaluate_includes t (attribute "cpu") f.criteria.cpu_includes
        ∷ evaluate_includes t (attribute gpu_key) f.criteria.gpu_includes
        ∷ evaluate_includes t (attribute "platform") f.criteria.platform_includes
        ∷ []

-- The two arrays of pushed reasons.
unfoldable pub reasons_of : List Verdict → List RejectionReason
reasons_of [] = []
reasons_of (rejects r ∷ vs) = r ∷ reasons_of vs
reasons_of (_ ∷ vs) = reasons_of vs

unfoldable pub unknowns_of : List Verdict → List RejectionReason
unknowns_of [] = []
unknowns_of (lacks r ∷ vs) = r ∷ unknowns_of vs
unknowns_of (_ ∷ vs) = unknowns_of vs

unfoldable pub outcome_of : List Verdict → Outcome
outcome_of vs =
    if not (is_empty (reasons_of vs))
    then no_match
    else if not (is_empty (unknowns_of vs))
    then unknown
    else match

abbrev is_match : Outcome → Bool
is_match match = true
is_match _ = false

abbrev is_no_match : Outcome → Bool
is_no_match no_match = true
is_no_match _ = false

abbrev is_unknown : Outcome → Bool
is_unknown unknown = true
is_unknown _ = false

abbrev pub is_vehicle_pair : Listing → Filter → Bool
is_vehicle_pair l f =
    same_category f.category_key vehicle_car && same_category l.category_key vehicle_car

abbrev evaluation : String → Bool → List Verdict → Evaluation
evaluation id matched vs = record {
  filter_id = id;
  matched = matched;
  outcome = outcome_of vs;
  provisional = is_unknown (outcome_of vs);
  unknown_reasons = unknowns_of vs;
  reasons = reasons_of vs;
}

-- `evaluateListingFilter`, with the time at which it reads the clock.
unfoldable pub evaluate_listing_filter : Tools → Listing → Filter → ℕ → Evaluation
evaluate_listing_filter t l f now =
    let vehicle = vehicle_checks t l f now in
    let other = category_checks t l f now in
    if is_vehicle_pair l f
    then evaluation f.id (is_match (outcome_of vehicle)) vehicle
    else evaluation f.id (not (is_no_match (outcome_of other))) other

-- `listingMatchesFilter`.
unfoldable pub listing_matches_filter : Tools → Listing → Filter → ℕ → Bool
listing_matches_filter t l f now = (evaluate_listing_filter t l f now).matched

-- The position of a reason in FILTER_REJECTION_REASONS, by which `Set` tells them apart.
unfoldable pub reason_code : RejectionReason → ℕ
reason_code filter_disabled = 0
reason_code source = 1
reason_code category = 2
reason_code category_attribute = 3
reason_code freshness = 4
reason_code brand = 5
reason_code model = 6
reason_code generation = 7
reason_code body_type = 8
reason_code fuel_type = 9
reason_code gearbox = 10
reason_code drive_type = 11
reason_code color = 12
reason_code condition = 13
reason_code year = 14
reason_code engine_volume = 15
reason_code engine_power = 16
reason_code doors = 17
reason_code seats = 18
reason_code price = 19
reason_code mileage = 20
reason_code customs = 21
reason_code bargain = 22
reason_code geography = 23
reason_code excluded_keyword = 24
reason_code required_keyword = 25
reason_code no_enabled_filters = 26

-- `[...new Set(...)]` of reasons, and `flatMap`.
unfoldable pub distinct_reasons : List RejectionReason → List RejectionReason
distinct_reasons [] = []
distinct_reasons (r ∷ rs) =
    let rest = distinct_reasons rs in r ∷ filter (λ q. not (reason_code q == reason_code r)) rest

unfoldable pub all_reasons : List Evaluation → List RejectionReason
all_reasons [] = []
all_reasons (e ∷ es) = e.reasons ++ all_reasons es

-- `FilterMatchResult`.
pub record FilterMatchResult : Type 0 where
  pub matched : List Filter
  pub evaluations : List Evaluation
  pub rejection_reasons : List RejectionReason

-- `matchFiltersDetailed`; the clock is read once.
unfoldable pub match_filters_detailed : Tools → Listing → List Filter → ℕ → FilterMatchResult
match_filters_detailed t l fs now =
    let evaluations = map_list (λ f. evaluate_listing_filter t l f now) fs in
    let matched_ids = map_list (λ e. e.filter_id) (filter (λ e. e.matched) evaluations) in
    record {
      matched = filter (λ f. includes_id matched_ids f.id) fs;
      evaluations = evaluations;
      rejection_reasons =
          if is_empty fs
          then no_enabled_filters ∷ []
          else distinct_reasons (all_reasons evaluations);
    }

-- `matchFilters`.
unfoldable pub match_filters : Tools → Listing → List Filter → ℕ → List Filter
match_filters t l fs now = (match_filters_detailed t l fs now).matched
