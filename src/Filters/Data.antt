-- ===== src/Filters/Data.antt =====
-- The listings and filters that apps/worker/src/modules/filter-engine.ts reads. A number is native;
-- the volume of an engine stands in thousandths. A text that the source tests for its truth may be
-- empty. The attributes of a category stand as `validateCategoryAttributes` leaves them.
use auto_monitor_bot.Base.{ℕ, Bool, List, Option}
use Prim.Native.String.{String}
use auto_monitor_bot.Domain.{ListingSource}
use auto_monitor_bot.Filters.Freshness.{FreshnessMode, FreshnessListing}

-- `MarketplaceCategoryKey`.
pub data CategoryKey : Type 0 where
  vehicle_car laptop phone desktop gpu console escooter generic : CategoryKey

-- `FilterRejectionReason`.
pub data RejectionReason : Type 0 where
  filter_disabled source category category_attribute freshness brand model generation :
      RejectionReason
  body_type fuel_type gearbox drive_type color condition : RejectionReason
  year engine_volume engine_power doors seats price mileage customs bargain : RejectionReason
  geography excluded_keyword required_keyword no_enabled_filters : RejectionReason

-- `TriStateFilterOutcome`.
pub data Outcome : Type 0 where
  match no_match unknown : Outcome

-- The keys of `inferVehicleAttributes` that a filter checks.
pub data VehicleAttribute : Type 0 where
  body fuel gears drive : VehicleAttribute

pub data AttributeValue : Type 0 where
  absent : AttributeValue
  text : String → AttributeValue
  number : ℕ → AttributeValue
  texts : List String → AttributeValue

-- `NormalizedListing`.
pub record Listing : Type 0 where
  pub fresh : FreshnessListing
  pub category_key : CategoryKey
  pub category_attributes : CategoryKey → String → AttributeValue
  pub title : Option String
  pub description : Option String
  pub brand : Option String
  pub model : Option String
  pub color : Option String
  pub condition : Option String
  pub vehicle : VehicleAttribute → Option String
  pub year : Option ℕ
  pub engine_volume : Option ℕ
  pub engine_power : Option ℕ
  pub doors : Option ℕ
  pub seats : Option ℕ
  pub mileage : Option ℕ
  pub price_normalized : Option ℕ
  pub price_original : Option ℕ
  pub currency_original : Option String
  pub customs_cleared : Option Bool
  pub bargain_possible : Option Bool
  pub region : Option String
  pub city : Option String

pub record Bounds : Type 0 where
  pub from : Option ℕ
  pub to : Option ℕ

-- `CategoryFilterCriteria`.
pub record Criteria : Type 0 where
  pub min_ram_gb : Option ℕ
  pub min_storage_gb : Option ℕ
  pub min_battery_health_percent : Option ℕ
  pub min_vram_gb : Option ℕ
  pub min_power_w : Option ℕ
  pub min_range_km : Option ℕ
  pub cpu_includes : List String
  pub gpu_includes : List String
  pub platform_includes : List String

-- `Filter`.
pub record Filter : Type 0 where
  pub id : String
  pub enabled : Bool
  pub category_key : CategoryKey
  pub criteria : Criteria
  pub sources : List ListingSource
  pub freshness_mode : FreshnessMode
  pub brand : Option String
  pub model : Option String
  pub model_names : List String
  pub generation : Option String
  pub vehicle : VehicleAttribute → List String
  pub colors : List String
  pub conditions : List String
  pub year : Bounds
  pub engine_volume : Bounds
  pub engine_power : Bounds
  pub doors : Bounds
  pub seats : Bounds
  pub price : Bounds
  pub mileage : Bounds
  pub customs_cleared : Option Bool
  pub bargain_possible : Option Bool
  pub regions : List String
  pub cities : List String
  pub keywords : List String
  pub exclude_keywords : List String
