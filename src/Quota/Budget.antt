-- ===== src/Quota/Budget.antt =====
-- apps/worker/src/modules/auto-ria-quota.ts: `consumeAutoRiaQuota`, with the script that Redis runs and
-- the counters in memory that stand in for it. Both keep a counter for each month and the times of
-- the requests of the last hour, in order. The key of a month is a number that the caller takes from
-- the calendar; times are milliseconds. The expiry of the keys, behind their use, is left out, and so
-- are the limits that a decision repeats. The configuration's numbers are not negative.
use auto_monitor_bot.Base.{
  ℕ, zero, suc, ◌+◌, ◌-◌, ◌*◌, ◌/◌, min, max, Bool, true, false, not, ◌&&◌, List, [], ◌∷◌, ◌++◌,
  Option, none, some, ltb, leb, ◌==◌, if◌then◌else◌, length, get_elem?, filter, insert_by,
}

-- `AutoRiaQuotaKind`.
pub data QuotaKind : Type 0 where
  search info paid : QuotaKind

pub data DenialReason : Type 0 where
  paid_methods_disabled search_hourly_budget hourly_limit total_limit soft_reserve search_reserve :
      DenialReason

pub record QuotaConfig : Type 0 where
  pub total_request_limit : ℕ
  pub hourly_request_limit : ℕ
  pub soft_reserve : ℕ
  pub min_search_reserve : ℕ
  pub max_info_per_scan : ℕ
  pub search_requests_per_hour : ℕ
  pub paid_enrichment_enabled : Bool

-- `AutoRiaQuotaDecision`; it is allowed where there is no reason.
pub record QuotaDecision : Type 0 where
  pub reason : Option DenialReason
  pub retry_after_seconds : Option ℕ
  pub total_used : ℕ
  pub hourly_used : ℕ

pub record QuotaStore : Type 0 where
  pub monthly : ℕ → ℕ
  pub rolling : List ℕ

abbrev pub rolling_window_ms : ℕ
rolling_window_ms = 60 * 60 * 1000

abbrev pub is_search : QuotaKind → Bool
is_search search = true
is_search _ = false

abbrev pub is_paid : QuotaKind → Bool
is_paid paid = true
is_paid _ = false

-- `autoRiaHourlySearchBudget`.
unfoldable pub auto_ria_hourly_search_budget : QuotaConfig → ℕ
auto_ria_hourly_search_budget c =
    let hourly = max 1 c.hourly_request_limit in
    let detail_reserve = min c.max_info_per_scan (hourly - 1) in
    max 1 (min c.search_requests_per_hour (hourly - detail_reserve))

-- A time within the last hour; the source keeps `timestamp > now - window`.
abbrev pub is_recent : ℕ → ℕ → Bool
is_recent now at = ltb now (at + rolling_window_ms)

abbrev pub ceil_seconds : ℕ → ℕ
ceil_seconds ms = (ms + 999) / 1000

abbrev pub seconds_until : ℕ → ℕ → ℕ
seconds_until now at = max 1 (ceil_seconds (at + rolling_window_ms - now))

-- `quotaDenialReason`. Where `remainingAfter` is negative, the total limit has denied before.
unfoldable pub quota_denial_reason : QuotaConfig → QuotaKind → ℕ → ℕ → ℕ → Option DenialReason
quota_denial_reason c kind cost total_used hourly_used =
    let total_after = total_used + cost in
    let hourly_after = hourly_used + cost in
    let remaining_after = c.total_request_limit - total_after in
    if is_search kind && ltb (auto_ria_hourly_search_budget c) hourly_after
    then some search_hourly_budget
    else if ltb c.hourly_request_limit hourly_after
    then some hourly_limit
    else if ltb c.total_request_limit total_after
    then some total_limit
    else if ltb remaining_after c.soft_reserve
    then some soft_reserve
    else if not (is_search kind) && ltb remaining_after (c.soft_reserve + c.min_search_reserve)
    then some search_reserve
    else none

abbrev pub denied : DenialReason → ℕ → ℕ → Option ℕ → QuotaDecision
denied reason total_used hourly_used retry = record {
  reason = some reason;
  retry_after_seconds = retry;
  total_used = total_used;
  hourly_used = hourly_used;
}

abbrev allowed : ℕ → ℕ → QuotaDecision
allowed total_used hourly_used = record {
  reason = none;
  retry_after_seconds = none;
  total_used = total_used;
  hourly_used = hourly_used;
}

-- `rollingRetryAfterSeconds`.
unfoldable pub rolling_retry_after_seconds : List ℕ → ℕ → ℕ → ℕ
rolling_retry_after_seconds timestamps now expirations_required =
    elim (get_elem? timestamps (min (length timestamps - 1) (expirations_required - 1))) [
      | none ↦ 1
      | some target ↦ seconds_until now target
    ]

abbrev pub set_month : (ℕ → ℕ) → ℕ → ℕ → ℕ → ℕ
set_month monthly month used m = if month == m then used else monthly m

unfoldable pub push_times : ℕ → ℕ → List ℕ → List ℕ
push_times zero now ts = ts
push_times (suc n) now ts = push_times n now (ts ++ now ∷ [])

abbrev pub is_hourly : DenialReason → Bool
is_hourly hourly_limit = true
is_hourly search_hourly_budget = true
is_hourly _ = false

abbrev pub kind_limit : QuotaConfig → QuotaKind → ℕ
kind_limit c kind =
    if is_search kind then auto_ria_hourly_search_budget c else c.hourly_request_limit

-- `consumeMemoryQuota`.
unfoldable pub consume_memory_quota :
    QuotaConfig → QuotaKind → ℕ → ℕ → ℕ → QuotaStore → QuotaDecision × QuotaStore
consume_memory_quota c kind cost month now s =
    let rolling = filter (is_recent now) s.rolling in
    let total_used = s.monthly month in
    let hourly_used = length rolling in
    elim (quota_denial_reason c kind cost total_used hourly_used) [
      | some reason ↦ (
        denied reason total_used hourly_used (
            if is_hourly reason
            then some (
                rolling_retry_after_seconds rolling now
                  (max 1 (hourly_used + cost - kind_limit c kind)))
            else none),
        record s { rolling = rolling },
      )
      | none ↦ (
        allowed (total_used + cost) (hourly_used + cost),
        record {
          monthly = set_month s.monthly month (total_used + cost);
          rolling = push_times cost now rolling;
        },
      )
    ]

-- `zadd`, for each of the requests.
unfoldable pub zadd_times : ℕ → ℕ → List ℕ → List ℕ
zadd_times zero now ts = ts
zadd_times (suc n) now ts = zadd_times n now (insert_by leb now ts)

abbrev script_retry : List ℕ → ℕ → ℕ → ℕ
script_retry scores now expirations_required = elim (get_elem? scores (expirations_required - 1)) [
  | none ↦ 1
  | some target ↦ seconds_until now target
]

-- The `if` of QUOTA_LUA on the totals.
abbrev pub script_total_reason : QuotaConfig → QuotaKind → ℕ → Option DenialReason
script_total_reason c kind total_after =
    let remaining_after = c.total_request_limit - total_after in
    if ltb c.total_request_limit total_after
    then some total_limit
    else if ltb remaining_after c.soft_reserve
    then some soft_reserve
    else if not (is_search kind) && ltb remaining_after (c.soft_reserve + c.min_search_reserve)
    then some search_reserve
    else none

-- QUOTA_LUA.
unfoldable pub quota_script :
    QuotaConfig → QuotaKind → ℕ → ℕ → ℕ → QuotaStore → QuotaDecision × QuotaStore
quota_script c kind cost month now s =
    let scores = filter (is_recent now) s.rolling in
    let total_used = s.monthly month in
    let hourly_used = length scores in
    let hourly_after = hourly_used + cost in
    let kept = record s { rolling = scores } in
    let limit = kind_limit c kind in
    if ltb limit hourly_after
    then (
      denied (if is_search kind then search_hourly_budget else hourly_limit) total_used hourly_used
          (some (script_retry scores now (max 1 (hourly_after - limit)))),
      kept,
    )
    else (elim (script_total_reason c kind (total_used + cost)) [
      | some reason ↦ (denied reason total_used hourly_used none, kept)
      | none ↦ (
        allowed (total_used + cost) (hourly_used + cost),
        record {
          monthly = set_month s.monthly month (total_used + cost);
          rolling = zadd_times cost now scores;
        },
      )
    ])

-- What Redis and the process keep.
pub record QuotaStores : Type 0 where
  pub redis : QuotaStore
  pub memory : QuotaStore

-- `consumeAutoRiaQuota`; `reachable` says whether Redis answers.
unfoldable pub consume_auto_ria_quota :
    QuotaConfig → QuotaKind → ℕ → ℕ → ℕ → Bool → QuotaStores → QuotaDecision × QuotaStores
consume_auto_ria_quota c kind cost month now reachable s =
    let normalized = max 1 cost in
    if is_paid kind && not c.paid_enrichment_enabled
    then (denied paid_methods_disabled 0 0 none, s)
    else if reachable
    then (let (d, redis) = quota_script c kind normalized month now s.redis in
        (d, record s { redis = redis }))
    else (let (d, memory) = consume_memory_quota c kind normalized month now s.memory in
        (d, record s { memory = memory }))
