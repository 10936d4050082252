-- ===== src/Hygiene/Examples.antt =====
-- The hygiene of search states and filters at concrete states.
use auto_monitor_bot.Base.{
  All, ℕ, ◌≡◌, refl, Bool, false, ◌&&◌, List, [], ◌∷◌, Option, none, some, str_eq, sort_by,
  insert_by,
}
use Prim.Native.String.{String}
use auto_monitor_bot.Hygiene.SearchStates.{
  SearchState, HygieneOptions, add_to_groups, distinct_texts, unique_sorted, is_orphan, group_key,
  group_states, preserved_state, redundant_states, all_redundant, is_plan_ready, scoped_states,
  orphan_states, usable_states, stale_states, left_states, selected_states,
  select_source_search_state_ids_to_delete,
}
use auto_monitor_bot.Hygiene.SearchStates.{has_id_of}
use auto_monitor_bot.Hygiene.Successors.{
  members_of, is_deleted, select_source_search_state_ids_to_delete-keeps,
}
use auto_monitor_bot.Base.{if◌then◌else◌, any, filter, is_some, true, ◌+◌}
use auto_monitor_bot.Filters.Data.{Bounds}
use auto_monitor_bot.Filters.Geography.{GeoTables}
use auto_monitor_bot.Hygiene.Overlap.{Candidate, Texts, filters_materially_overlap}
use auto_monitor_bot.Hygiene.Symmetry.{filters_materially_overlap-swapped}
use auto_monitor_bot.Hygiene.Duplicates.{
  is_exact_of, analyze_filter_hygiene, find_exact_active_filter, analyze_filter_hygiene-exact,
}

abbrev untrimmed : String → String
untrimmed t = t

-- The order of the ids below.
abbrev earlier : String → String → Bool
earlier a b = str_eq a "s1" && str_eq b "s2"

abbrev state : String → String → ℕ → SearchState
state id fingerprint updated_at = record {
  id = id;
  source = "OLX";
  fingerprint = fingerprint;
  filter_ids = "f1" ∷ [];
  updated_at = updated_at;
}

-- Two states of one search, with the fingerprints before and behind a change of the plan.
abbrev states : List SearchState
states = state "s1" "old" 1000 ∷ state "s2" "new" 2000 ∷ []

abbrev options : HygieneOptions
options = record { scope = some "OLX"; preserve_state_id = none; current_fingerprints = none }

chosen : Option SearchState
unfolding add_to_groups distinct_texts unique_sorted is_orphan group_key group_states
    preserved_state redundant_states all_redundant is_plan_ready scoped_states orphan_states
    usable_states stale_states left_states selected_states select_source_search_state_ids_to_delete
    sort_by insert_by
chosen = preserved_state earlier none states

select_source_search_state_ids_to_delete-keeps_example :
    (p : SearchState) × (has_id_of
        (members_of untrimmed earlier (state "s1" "old" 1000) states ("f1" ∷ []) options)
        p
      ≡ true)
    × (is_deleted untrimmed earlier p states ("f1" ∷ []) options ≡ false)
unfolding chosen
select_source_search_state_ids_to_delete-keeps_example =
    select_source_search_state_ids_to_delete-keeps untrimmed earlier (state "s1" "old" 1000) states
      ("f1" ∷ []) options (((λ h. refl), ((λ h. refl), tt)), (((λ h. refl), ((λ h. refl), tt)), tt))
      refl

abbrev tables : GeoTables
tables = record {
  is_region = λ r. str_eq r "kyiv";
  region_token = λ r. none;
  city_region = λ c. if str_eq c "brovary" then some "kyiv" else none;
  city_token = λ c. none;
  is_ambiguous = λ c. false;
  normalize = untrimmed;
}

abbrev plain_texts : Texts
plain_texts = record {
  normalize_text = untrimmed;
  normalize_vehicle_text = untrimmed;
  includes = str_eq;
  comes_before = earlier;
  geo = tables;
}

abbrev no_bounds : Bounds
no_bounds = record { from = none; to = none }

abbrev any_golf : String → ℕ → Candidate
any_golf id from = record {
  id = id;
  name = "Golf";
  enabled = true;
  category_key = none;
  category_schema_version = none;
  category_criteria = none;
  unknown_policy = none;
  shadow_mode = none;
  sources = [];
  auto_ria_category_id = none;
  auto_ria_mark_id = none;
  auto_ria_model_id = none;
  brand = some "vw";
  model = some "golf";
  model_names = [];
  generation = none;
  body_types = [];
  fuel_types = "diesel" ∷ [];
  gearboxes = [];
  drive_types = [];
  colors = [];
  engine_volume = no_bounds;
  engine_power = no_bounds;
  doors = no_bounds;
  seats = no_bounds;
  conditions = [];
  customs_cleared = some true;
  bargain_possible = none;
  freshness_mode = none;
  year = record { from = some from; to = some (from + 5) };
  price = no_bounds;
  mileage = no_bounds;
  regions = if str_eq id "f1" then "kyiv" ∷ [] else [];
  cities = if str_eq id "f1" then [] else "brovary" ∷ [];
  keywords = [];
  exclude_keywords = [];
}

filters_materially_overlap-swapped_example :
    filters_materially_overlap plain_texts (any_golf "f1" 2010) (any_golf "f2" 2014)
    ≡ filters_materially_overlap plain_texts (any_golf "f2" 2014) (any_golf "f1" 2010)
filters_materially_overlap-swapped_example =
    filters_materially_overlap-swapped plain_texts (any_golf "f1" 2010) (any_golf "f2" 2014)

abbrev golfs : List Candidate
golfs = any_golf "f2" 2010 ∷ any_golf "f3" 2010 ∷ any_golf "f1" 2014 ∷ []

analyze_filter_hygiene-exact_example :
    All
      (λ c.
        any (is_exact_of c.id) (analyze_filter_hygiene plain_texts (λ s. s.category_key) golfs)
        ≡ is_some (find_exact_active_filter plain_texts (λ s. s.category_key) c golfs c.id))
      (filter (λ f. f.enabled) golfs)
analyze_filter_hygiene-exact_example =
    analyze_filter_hygiene-exact plain_texts (λ s. s.category_key) golfs
      ((refl, (refl, tt)), ((refl, tt), (tt, tt)))
