-- ===== src/Filters/Enrichment.antt =====
-- apps/worker/src/modules/filter-engine.ts: what the details of a listing, when they come later, do to
-- its evaluation.
use auto_monitor_bot.Base.{
  ℕ, ◌≡◌, refl, inl, inr, Bool, false, not, ◌||◌, Option, none, some, arith, if◌then◌else◌, is_some,
  Bool-cases, opt_str_eq,
}
use Prim.Native.String.{String}
use auto_monitor_bot.Filters.Data.{
  year, engine_volume, engine_power, doors, seats, mileage, customs, bargain, gpu, price,
  CategoryKey, AttributeValue, Listing, Filter,
}
use auto_monitor_bot.Filters.Checks.{
  Tools, vehicle_price, category_price, name_fails, model_fails, check_enum, check_geography,
  same_category,
}
use auto_monitor_bot.Filters.Engine.{vehicle_checks, category_checks, evaluate_listing_filter}
use auto_monitor_bot.Filters.Refinement.{
  fill, fill_attribute, AllRefine, check_range-Refines, check_flag-Refines,
  evaluate_minimum-Refines, evaluate_includes-Refines, check_category_price-Refines,
  outcome_of-AllRefine,
}

-- Details that come later.
pub record Details : Type 0 where
  pub year : Option ℕ
  pub engine_volume : Option ℕ
  pub engine_power : Option ℕ
  pub doors : Option ℕ
  pub seats : Option ℕ
  pub mileage : Option ℕ
  pub price_original : Option ℕ
  pub customs_cleared : Option Bool
  pub bargain_possible : Option Bool
  pub category_attributes : CategoryKey → String → AttributeValue

-- The details fill what is missing, and change nothing else; the normalised price stays as it is.
unfoldable pub enrich : Details → Listing → Listing
enrich d l = record l {
  year = fill l.year d.year;
  engine_volume = fill l.engine_volume d.engine_volume;
  engine_power = fill l.engine_power d.engine_power;
  doors = fill l.doors d.doors;
  seats = fill l.seats d.seats;
  mileage = fill l.mileage d.mileage;
  price_original = fill l.price_original d.price_original;
  customs_cleared = fill l.customs_cleared d.customs_cleared;
  bargain_possible = fill l.bargain_possible d.bargain_possible;
  category_attributes =
      λ c k. fill_attribute (l.category_attributes c k) (d.category_attributes c k);
}

infixr 5 ◌and◌
abbrev ◌and◌ {ℓ κ} : {A : Type ℓ} {B : Type κ} → A → B → A × B
a and b = (a, b)

vehicle_price-fill :
    (d : Details) (l : Listing)
    → (dd : Option ℕ) × (vehicle_price (enrich d l) ≡ fill (vehicle_price l) dd)
unfolding vehicle_price enrich
vehicle_price-fill d l =
    elim (Bool-cases
      (is_some l.price_normalized || not (opt_str_eq l.currency_original (some "USD")))) [
        | inl fixed ↦ (none, ground arith)
        | inr unpriced ↦ (d.price_original, ground arith)
      ]

category_price-fill :
    (d : Details) (l : Listing)
    → (dd : Option ℕ) × (category_price (enrich d l) ≡ fill (category_price l) dd)
unfolding category_price enrich
category_price-fill d l = elim (Bool-cases (opt_str_eq l.currency_original (some "UAH"))) [
  | inl hryvnia ↦ (d.price_original, ground arith)
  | inr other ↦ (none, ground arith)
]

vehicle_checks-AllRefine :
    (t : Tools) (d : Details) (l : Listing) (f : Filter) (now : ℕ)
    → AllRefine (vehicle_checks t l f now) (vehicle_checks t (enrich d l) f now)
unfolding vehicle_checks name_fails model_fails check_enum check_geography enrich
vehicle_checks-AllRefine t d l f now =
    let price_filled = vehicle_price-fill d l in
    inl refl
    and inl refl
    and inl refl
    and inl refl
    and inl refl
    and inl refl
    and inl refl
    and inl refl
    and inl refl
    and inl refl
    and inl refl
    and inl refl
    and check_range-Refines l.year d.year f.year year
    and check_range-Refines l.engine_volume d.engine_volume f.engine_volume engine_volume
    and check_range-Refines l.engine_power d.engine_power f.engine_power engine_power
    and check_range-Refines l.doors d.doors f.doors doors
    and check_range-Refines l.seats d.seats f.seats seats
    and (rw price_filled.1 (check_range-Refines (vehicle_price l) price_filled.0 f.price price))
    and check_range-Refines l.mileage d.mileage f.mileage mileage
    and check_flag-Refines l.customs_cleared d.customs_cleared f.customs_cleared customs
    and check_flag-Refines l.bargain_possible d.bargain_possible f.bargain_possible bargain
    and inl refl
    and inl refl
    and inl refl
    and tt

category_checks-AllRefine :
    (t : Tools) (d : Details) (l : Listing) (f : Filter) (now : ℕ)
    → AllRefine (category_checks t l f now) (category_checks t (enrich d l) f now)
unfolding category_checks name_fails model_fails enrich
category_checks-AllRefine t d l f now =
    let price_filled = category_price-fill d l in
    let gpu_key = if same_category f.category_key gpu then "model" else "gpu" in
    inl refl
    and inl refl
    and inl refl
    and inl refl
    and inl refl
    and inl refl
    and inl refl
    and (rw price_filled.1 (check_category_price-Refines (category_price l) price_filled.0 f.price))
    and inl refl
    and inl refl
    and inl refl
    and evaluate_minimum-Refines (l.category_attributes f.category_key "ramGb")
        (d.category_attributes f.category_key "ramGb") f.criteria.min_ram_gb
    and evaluate_minimum-Refines (l.category_attributes f.category_key "storageGb")
        (d.category_attributes f.category_key "storageGb") f.criteria.min_storage_gb
    and evaluate_minimum-Refines (l.category_attributes f.category_key "batteryHealthPercent")
        (d.category_attributes f.category_key "batteryHealthPercent")
        f.criteria.min_battery_health_percent
    and evaluate_minimum-Refines (l.category_attributes f.category_key "vramGb")
        (d.category_attributes f.category_key "vramGb") f.criteria.min_vram_gb
    and evaluate_minimum-Refines (l.category_attributes f.category_key "powerW")
        (d.category_attributes f.category_key "powerW") f.criteria.min_power_w
    and evaluate_minimum-Refines (l.category_attributes f.category_key "rangeKm")
        (d.category_attributes f.category_key "rangeKm") f.criteria.min_range_km
    and evaluate_includes-Refines t (l.category_attributes f.category_key "cpu")
        (d.category_attributes f.category_key "cpu") f.criteria.cpu_includes
    and evaluate_includes-Refines t (l.category_attributes f.category_key gpu_key)
        (d.category_attributes f.category_key gpu_key) f.criteria.gpu_includes
    and evaluate_includes-Refines t (l.category_attributes f.category_key "platform")
        (d.category_attributes f.category_key "platform") f.criteria.platform_includes
    and tt

-- An evaluation that is not provisional stands against what the details of the listing fill in: where
-- its year, engine, doors, seats, mileage, flags, attributes and original price, though not the price
-- normalised from it, become known where they were missing, another evaluation at the same time has
-- the same outcome, and matches or not as before.
pub evaluate_listing_filter-final :
    (t : Tools) (d : Details) (l : Listing) (f : Filter) (now : ℕ)
    → (evaluate_listing_filter t l f now).provisional ≡ false
    → ((evaluate_listing_filter t (enrich d l) f now).outcome
        ≡ (evaluate_listing_filter t l f now).outcome)
      × ((evaluate_listing_filter t (enrich d l) f now).matched
          ≡ (evaluate_listing_filter t l f now).matched)
unfolding evaluate_listing_filter enrich
evaluate_listing_filter-final t d l f now h =
    let vehicle =
      outcome_of-AllRefine (vehicle_checks t l f now) (vehicle_checks t (enrich d l) f now)
        (vehicle_checks-AllRefine t d l f now) in
    let other =
      outcome_of-AllRefine (category_checks t l f now) (category_checks t (enrich d l) f now)
        (category_checks-AllRefine t d l f now) in
    ground (arith, vehicle, other)
