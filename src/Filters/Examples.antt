-- ===== src/Filters/Examples.antt =====
-- The freshness of listings and the filters at concrete inputs.
use auto_monitor_bot.Base.{
  ℕ, ◌+◌, ◌≡◌, refl, true, false, [], ◌∷◌, none, some, if◌then◌else◌, str_eq, filter,
}
use Prim.Native.String.{String}
use auto_monitor_bot.Domain.{ListingSource, olx, high}
use auto_monitor_bot.Filters.Freshness.{
  FreshnessListing, at, last_24_hours, today, is_reliable_fresh_listing, freshness_cutoff,
  start_of_today_in_kyiv,
}
use auto_monitor_bot.Filters.Geography.{
  unique, listing_matches_geo_selection, normalize_region_ids, normalize_city_ids,
  resolve_region_id, resolve_city_id,
}
use auto_monitor_bot.Filters.Data.{
  Listing, Filter, Bounds, vehicle_car, absent, match, engine_power,
}
use auto_monitor_bot.Filters.Checks.{
  Tools, vehicle_price, name_fails, matches_name, model_fails, generation_fails, check_enum,
  text_option_matches, check_range, number_in_range, check_flag, check_geography, join_texts,
}
use auto_monitor_bot.Filters.Engine.{
  evaluate_listing_filter, vehicle_checks, category_checks, outcome_of, reasons_of, unknowns_of,
  listing_matches_filter, match_filters_detailed,
}
use auto_monitor_bot.Filters.Enrichment.{Details, enrich, evaluate_listing_filter-final}
use auto_monitor_bot.Filters.Match.{
  IsSatisfied, listing_matches_filter-IsSatisfied, match_filters_detailed-matches,
}

-- A time zone two hours before UTC.
abbrev two_hours_ahead : ℕ → ℕ
two_hours_ahead t = t + 7200000

abbrev listing : ListingSource → String → ℕ → FreshnessListing
listing source id published = record {
  source = source;
  external_id = id;
  published_at = at published;
  timestamp_confidence = some high;
  first_seen_at = at published;
  falls_back_to_first_seen = false;
}

-- 23:30 and 00:30 of the wall clock, the day before and today, seen at 01:00.
test_today :
    (is_reliable_fresh_listing two_hours_ahead (listing olx "1" 945000000) today 946800000 ≡ true)
    × (is_reliable_fresh_listing two_hours_ahead (listing olx "1" 941400000) today 946800000
        ≡ false)
unfolding is_reliable_fresh_listing freshness_cutoff start_of_today_in_kyiv
test_today = (refl, refl)

abbrev tools : Tools
tools = record {
  normalize_text = λ s. s;
  normalize_vehicle_text = λ s. s;
  infer = λ s a. if str_eq s "diesel" then some "DIESEL" else none;
  attribute_matches = λ a wanted known. true;
  geo = record {
    is_region = λ s. str_eq s "kyiv";
    region_token = λ s. none;
    city_region = λ s. if str_eq s "boryspil" then some "kyiv" else none;
    city_token = λ s. none;
    is_ambiguous = λ s. false;
    normalize = λ s. s;
  };
  zoned = two_hours_ahead;
}

abbrev car : Listing
car = record {
  fresh = listing olx "1" 945000000;
  category_key = vehicle_car;
  category_attributes = λ c k. absent;
  title = some "Audi A4";
  description = some "diesel";
  brand = some "Audi";
  model = some "A4";
  color = none;
  condition = none;
  vehicle = λ a. none;
  year = some 2015;
  engine_volume = none;
  engine_power = none;
  doors = none;
  seats = none;
  mileage = some 120000;
  price_normalized = none;
  price_original = some 9000;
  currency_original = some "USD";
  customs_cleared = some true;
  bargain_possible = none;
  region = none;
  city = some "boryspil";
}

abbrev any_number : Bounds
any_number = record { from = none; to = none }

abbrev cheap_audi : String → Filter
cheap_audi id = record {
  id = id;
  enabled = true;
  category_key = vehicle_car;
  criteria = record {
    min_ram_gb = none;
    min_storage_gb = none;
    min_battery_health_percent = none;
    min_vram_gb = none;
    min_power_w = none;
    min_range_km = none;
    cpu_includes = [];
    gpu_includes = [];
    platform_includes = [];
  };
  sources = olx ∷ [];
  freshness_mode = last_24_hours;
  brand = some "Audi";
  model = none;
  model_names = "A4" ∷ "A6" ∷ [];
  generation = none;
  vehicle = λ a. [];
  colors = [];
  conditions = [];
  year = record { from = some 2010; to = none };
  engine_volume = any_number;
  engine_power = any_number;
  doors = any_number;
  seats = any_number;
  price = record { from = none; to = some 10000 };
  mileage = any_number;
  customs_cleared = some true;
  bargain_possible = none;
  regions = "kyiv" ∷ [];
  cities = [];
  keywords = "A4" ∷ [];
  exclude_keywords = "bmw" ∷ [];
}

-- The same, from 150 horse powers on.
abbrev strong_audi : Filter
strong_audi = record (cheap_audi "2") { engine_power = record { from = some 150; to = none } }

abbrev power : Details
power = record {
  year = some 1990;
  engine_volume = none;
  engine_power = some 190;
  doors = none;
  seats = none;
  mileage = none;
  price_original = none;
  customs_cleared = none;
  bargain_possible = none;
  category_attributes = λ c k. absent;
}

-- The first filter matches, the second waits for the power.
test_outcomes :
    ((evaluate_listing_filter tools car (cheap_audi "1") 946800000).outcome ≡ match)
    × ((evaluate_listing_filter tools car strong_audi 946800000).unknown_reasons
        ≡ engine_power ∷ [])
    × ((evaluate_listing_filter tools (enrich power car) strong_audi 946800000).outcome ≡ match)
unfolding evaluate_listing_filter vehicle_checks category_checks outcome_of reasons_of unknowns_of
    enrich vehicle_price is_reliable_fresh_listing freshness_cutoff name_fails matches_name
    model_fails generation_fails check_enum text_option_matches check_range number_in_range
    check_flag check_geography join_texts unique listing_matches_geo_selection normalize_region_ids
    normalize_city_ids resolve_region_id resolve_city_id
test_outcomes = (refl, refl, refl)

evaluate_listing_filter-final_example :
    ((evaluate_listing_filter tools (enrich power car) (cheap_audi "1") 946800000).outcome
      ≡ (evaluate_listing_filter tools car (cheap_audi "1") 946800000).outcome)
    × ((evaluate_listing_filter tools (enrich power car) (cheap_audi "1") 946800000).matched
        ≡ (evaluate_listing_filter tools car (cheap_audi "1") 946800000).matched)
unfolding evaluate_listing_filter vehicle_checks category_checks outcome_of reasons_of unknowns_of
    enrich vehicle_price is_reliable_fresh_listing freshness_cutoff name_fails matches_name
    model_fails generation_fails check_enum text_option_matches check_range number_in_range
    check_flag check_geography join_texts unique listing_matches_geo_selection normalize_region_ids
    normalize_city_ids resolve_region_id resolve_city_id
evaluate_listing_filter-final_example =
    evaluate_listing_filter-final tools power car (cheap_audi "1") 946800000 refl

listing_matches_filter-IsSatisfied_example : IsSatisfied tools car (cheap_audi "1") 946800000
unfolding evaluate_listing_filter vehicle_checks category_checks outcome_of reasons_of unknowns_of
    enrich vehicle_price is_reliable_fresh_listing freshness_cutoff name_fails matches_name
    model_fails generation_fails check_enum text_option_matches check_range number_in_range
    check_flag check_geography join_texts unique listing_matches_geo_selection normalize_region_ids
    normalize_city_ids resolve_region_id resolve_city_id listing_matches_filter
listing_matches_filter-IsSatisfied_example =
    listing_matches_filter-IsSatisfied tools car (cheap_audi "1") 946800000 refl refl

match_filters_detailed-matches_example :
    (match_filters_detailed tools car (cheap_audi "1" ∷ strong_audi ∷ []) 946800000).matched
    ≡ filter (λ f. listing_matches_filter tools car f 946800000) (cheap_audi "1" ∷ strong_audi ∷ [])
match_filters_detailed-matches_example =
    match_filters_detailed-matches tools car 946800000 (cheap_audi "1" ∷ strong_audi ∷ [])
      ((refl, tt), (tt, tt))
