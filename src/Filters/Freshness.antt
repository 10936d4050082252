-- ===== src/Filters/Freshness.antt =====
-- packages/shared/src/utils/freshness.ts. A date of the input is missing, invalid, or a time in
-- milliseconds. `zoned` stands for `Intl.DateTimeFormat` in the time zone of Kyiv: it gives the wall
-- clock's reading of a time, as a time in UTC. The order of `localeCompare` on ids is a parameter.
use auto_monitor_bot.Base.{
  ℕ, ◌+◌, ◌-◌, ◌*◌, ◌/◌, Bool, true, false, not, ◌||◌, List, Option, none, some, ltb, leb, ◌==◌,
  if◌then◌else◌, or_else, filter, sort_by,
}
use Prim.Native.String.{String}
use auto_monitor_bot.Domain.{
  ListingSource, auto_ria, olx, cars_ua, automoto, rst, mock, TimestampConfidence, unknown,
}

-- `FreshnessMode`; any other text counts as TODAY.
pub data FreshnessMode : Type 0 where
  last_hour today last_24_hours last_3_days last_7_days all_time other : FreshnessMode

pub data DateValue : Type 0 where
  missing invalid : DateValue
  at : ℕ → DateValue

-- `FreshnessListingInput`.
pub record FreshnessListing : Type 0 where
  pub source : ListingSource
  pub external_id : String
  pub published_at : DateValue
  pub timestamp_confidence : Option TimestampConfidence
  pub first_seen_at : DateValue
  pub falls_back_to_first_seen : Bool

abbrev pub max_future_publication_drift_ms : ℕ
max_future_publication_drift_ms = 2 * 60 * 1000

abbrev pub hour_ms : ℕ
hour_ms = 60 * 60 * 1000

abbrev pub day_ms : ℕ
day_ms = 24 * hour_ms

-- `SOURCE_PRIORITY`.
unfoldable pub source_priority : ListingSource → ℕ
source_priority auto_ria = 40
source_priority olx = 50
source_priority cars_ua = 30
source_priority automoto = 25
source_priority rst = 20
source_priority mock = 10

-- `parseDate`.
abbrev pub parse_date : DateValue → Option ℕ
parse_date (at t) = some t
parse_date _ = none

abbrev pub is_all_time : FreshnessMode → Bool
is_all_time all_time = true
is_all_time _ = false

abbrev is_unknown : Option TimestampConfidence → Bool
is_unknown (some unknown) = true
is_unknown _ = false

abbrev is_missing : DateValue → Bool
is_missing missing = true
is_missing _ = false

module _ (zoned : ℕ → ℕ) where
  -- `zonedDateTimeToUtc`, and `getTimeZoneOffsetMs` in it.
  abbrev pub zoned_date_time_to_utc : ℕ → ℕ
  zoned_date_time_to_utc utc_guess = utc_guess + utc_guess - zoned utc_guess

  -- `startOfTodayInKyiv`.
  unfoldable pub start_of_today_in_kyiv : ℕ → ℕ
  start_of_today_in_kyiv now = zoned_date_time_to_utc (zoned now / day_ms * day_ms)

  -- `freshnessCutoff`.
  unfoldable pub freshness_cutoff : FreshnessMode → ℕ → Option ℕ
  freshness_cutoff last_hour now = some (now - hour_ms)
  freshness_cutoff last_24_hours now = some (now - day_ms)
  freshness_cutoff last_3_days now = some (now - 3 * day_ms)
  freshness_cutoff last_7_days now = some (now - 7 * day_ms)
  freshness_cutoff all_time now = none
  freshness_cutoff today now = some (start_of_today_in_kyiv now)
  freshness_cutoff other now = some (start_of_today_in_kyiv now)

  abbrev pub is_after_cutoff : FreshnessMode → ℕ → ℕ → Bool
  is_after_cutoff mode now published = elim (freshness_cutoff mode now) [
    | none ↦ true
    | some cutoff ↦ leb cutoff published
  ]

  -- `isFreshListing`.
  unfoldable pub is_fresh_listing : DateValue → FreshnessMode → ℕ → Bool
  is_fresh_listing published mode now =
      if is_all_time mode then true else (elim (parse_date published) [
        | none ↦ false
        | some t ↦ if ltb now t then false else is_after_cutoff mode now t
      ])

  -- `isReliableFreshListing`.
  unfoldable pub is_reliable_fresh_listing : FreshnessListing → FreshnessMode → ℕ → Bool
  is_reliable_fresh_listing l mode now =
      if is_all_time mode
      then true
      else if is_unknown l.timestamp_confidence || is_missing l.published_at
      then (if l.falls_back_to_first_seen then is_fresh_listing l.first_seen_at mode now else false)
      else (elim (parse_date l.published_at) [
        | none ↦ false
        | some t ↦
            if ltb (now + max_future_publication_drift_ms) t
            then false
            else is_after_cutoff mode now t
      ])

module _ (locale_less : String → String → Bool) where
  -- `compareListingsNewestFirst(a, b) < 0`.
  unfoldable pub newer : FreshnessListing → FreshnessListing → Bool
  newer a b =
      let a_time = or_else (parse_date a.published_at) 0 in
      let b_time = or_else (parse_date b.published_at) 0 in
      if not (a_time == b_time)
      then ltb b_time a_time
      else if not (source_priority a.source == source_priority b.source)
      then ltb (source_priority b.source) (source_priority a.source)
      else locale_less b.external_id a.external_id

  -- `sortListingsNewestFirst`.
  unfoldable pub sort_listings_newest_first : List FreshnessListing → List FreshnessListing
  sort_listings_newest_first ls = sort_by newer ls

  -- `filterReliableFreshListings`.
  unfoldable pub filter_reliable_fresh_listings :
      (ℕ → ℕ) → List FreshnessListing → FreshnessMode → ℕ → List FreshnessListing
  filter_reliable_fresh_listings zoned ls mode now =
      sort_listings_newest_first (filter (λ l. is_reliable_fresh_listing zoned l mode now) ls)
