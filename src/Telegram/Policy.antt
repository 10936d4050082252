-- ===== src/Telegram/Policy.antt =====
-- apps/worker/src/modules/telegram-service.ts and telegram-delivery-policy.ts: the statuses of a card,
-- the retry delays and the classification of failures. Times are milliseconds.
use auto_monitor_bot.Base.{
  ℕ, zero, suc, ◌+◌, ◌-◌, ◌*◌, ◌/◌, ◌^◌, ◌≤◌, max, min, ◌≡◌, refl, ap, sym, ◌∙◌, Bool, true, false,
  not, ◌&&◌, Option, none, some, arith, leb, ◌==◌, if◌then◌else◌, or_else, List, [], ◌∷◌, get_elem?,
}

-- `TelegramNotificationStatus`.
pub data CardStatus : Type 0 where
  pending flash_pending processing retry_pending sent updated failed : CardStatus
  sending transient ambiguous delivered permanent quarantined : CardStatus

-- `TelegramDeliveryFailureState`.
pub data FailureState : Type 0 where
  failure_transient failure_ambiguous failure_permanent : FailureState

-- What the code reads of an error: `telegramRetryAfterSeconds`, and whether the message matches the
-- expressions of `isPermanentTelegramChatError`, `isTelegramMediaRejected`,
-- `isTelegramDeleteTooOldError`, `isTelegramMessageGoneError`, `isPermanentTelegramEditError`,
-- `message is not modified`, `no text in the message` and `no caption`.
pub record ApiError : Type 0 where
  pub retry_after_seconds : Option ℕ
  pub permanent_chat : Bool
  pub media_rejected : Bool
  pub delete_too_old : Bool
  pub message_gone : Bool
  pub permanent_edit : Bool
  pub not_modified : Bool
  pub no_text : Bool
  pub no_caption : Bool

-- An error that none of the expressions matches.
abbrev pub plain_error : ApiError
plain_error = record {
  retry_after_seconds = none;
  permanent_chat = false;
  media_rejected = false;
  delete_too_old = false;
  message_gone = false;
  permanent_edit = false;
  not_modified = false;
  no_text = false;
  no_caption = false;
}

abbrev pub status_index : CardStatus → ℕ
status_index pending = 0
status_index flash_pending = 1
status_index processing = 2
status_index retry_pending = 3
status_index sent = 4
status_index updated = 5
status_index failed = 6
status_index sending = 7
status_index transient = 8
status_index ambiguous = 9
status_index delivered = 10
status_index permanent = 11
status_index quarantined = 12

-- Equality of two statuses in a database condition.
abbrev pub same_status : CardStatus → CardStatus → Bool
same_status a b = status_index a == status_index b

-- `QUARANTINABLE_STATUSES`.
unfoldable pub is_quarantinable : CardStatus → Bool
is_quarantinable transient = true
is_quarantinable failed = true
is_quarantinable retry_pending = true
is_quarantinable _ = false

-- `TELEGRAM_SEND_LEASE_MS` and `TELEGRAM_MAX_DELIVERY_ATTEMPTS`.
abbrev pub telegram_send_lease_ms : ℕ
telegram_send_lease_ms = 60000

abbrev pub telegram_max_delivery_attempts : ℕ
telegram_max_delivery_attempts = 30

-- `shouldQuarantineDelivery`.
unfoldable pub should_quarantine_delivery : CardStatus → ℕ → Bool
unfolding is_quarantinable
should_quarantine_delivery status attempt_count =
    leb telegram_max_delivery_attempts attempt_count && is_quarantinable status

-- `TELEGRAM_DELIVERY_BACKOFF_BASE_MS` and `TELEGRAM_DELIVERY_BACKOFF_CAP_MS`.
abbrev pub telegram_delivery_backoff_base_ms : ℕ
telegram_delivery_backoff_base_ms = 5000

abbrev pub telegram_delivery_backoff_cap_ms : ℕ
telegram_delivery_backoff_cap_ms = 30 * 60 * 1000

-- `Math.round` of the exponential delay times 0.8 + random * 0.4, where `random` counts thousandths.
abbrev pub jittered_delay_ms : ℕ → ℕ → ℕ
jittered_delay_ms exponential random = (exponential * (8000 + min 1000 random * 4) + 5000) / 10000

abbrev pub exponential_delay_ms : ℕ → ℕ
exponential_delay_ms attempt_count =
    min telegram_delivery_backoff_cap_ms
      (telegram_delivery_backoff_base_ms * 2 ^ min 10 (attempt_count - 1))

-- `telegramDeliveryRetryDelayMs`.
unfoldable pub telegram_delivery_retry_delay_ms : ℕ → Option ℕ → ℕ → ℕ
telegram_delivery_retry_delay_ms attempt_count retry_after_seconds random =
    max
      (min telegram_delivery_backoff_cap_ms
        (jittered_delay_ms (exponential_delay_ms attempt_count) random))
      (or_else retry_after_seconds 0 * 1000)

abbrev pub truthy_number : Option ℕ → Bool
truthy_number none = false
truthy_number (some n) = not (n == 0)

-- `classifyTelegramDeliveryFailure`.
unfoldable pub classify_telegram_delivery_failure : ApiError → Bool → Bool → FailureState
classify_telegram_delivery_failure e request_started acceptance_persisted =
    if e.permanent_chat
    then failure_permanent
    else if truthy_number e.retry_after_seconds
    then failure_transient
    else if request_started && not acceptance_persisted
    then failure_ambiguous
    else failure_transient

-- `albumExtraGateDelayMs`.
unfoldable pub album_extra_gate_delay_ms : ℕ → ℕ → ℕ
album_extra_gate_delay_ms photo_count slot_ms = (min photo_count 10 - 1) * slot_ms

-- `RETRYABLE_DELIVERY_STATUSES`.
unfoldable pub is_retryable : CardStatus → Bool
is_retryable pending = true
is_retryable transient = true
is_retryable ambiguous = true
is_retryable retry_pending = true
is_retryable failed = true
is_retryable _ = false

-- `telegramRetryDueWhere`.
unfoldable pub telegram_retry_due : ℕ → Option ℕ → Bool
telegram_retry_due now none = true
telegram_retry_due now (some at) = leb at now

statuses : List CardStatus
statuses =
    pending ∷ flash_pending ∷ processing ∷ retry_pending ∷ sent ∷ updated ∷ failed ∷ sending
    ∷ transient ∷ ambiguous ∷ delivered ∷ permanent ∷ quarantined ∷ []

of_index : ℕ → CardStatus
of_index i = or_else (get_elem? statuses i) quarantined

of_index-status_index : (s : CardStatus) → of_index (status_index s) ≡ s
unfolding of_index statuses
of_index-status_index pending = refl
of_index-status_index flash_pending = refl
of_index-status_index processing = refl
of_index-status_index retry_pending = refl
of_index-status_index sent = refl
of_index-status_index updated = refl
of_index-status_index failed = refl
of_index-status_index sending = refl
of_index-status_index transient = refl
of_index-status_index ambiguous = refl
of_index-status_index delivered = refl
of_index-status_index permanent = refl
of_index-status_index quarantined = refl

-- The database's equality of statuses is equality.
pub same_status-eq : (a b : CardStatus) → same_status a b ≡ true → a ≡ b
same_status-eq a b h =
    let indices : status_index a ≡ status_index b = ground arith in
    sym (of_index-status_index a) ∙ ap of_index indices ∙ of_index-status_index b

one-le-pow : (n : ℕ) → 1 ≤ 2 ^ n
one-le-pow zero = omega arith
one-le-pow (suc n) = omega (arith, one-le-pow n)

exponential_delay_ms-lower : (a : ℕ) → telegram_delivery_backoff_base_ms ≤ exponential_delay_ms a
exponential_delay_ms-lower a = omega (arith, one-le-pow (min 10 (a - 1)))

-- A retry waits at least what Telegram asked for and at least four seconds, and at most half an hour
-- where Telegram asked for no more.
pub telegram_delivery_retry_delay_ms-bounded :
    (attempt_count : ℕ) (retry_after_seconds : Option ℕ) (random : ℕ)
    → let delay = telegram_delivery_retry_delay_ms attempt_count retry_after_seconds random in
      (or_else retry_after_seconds 0 * 1000 ≤ delay)
      × (4000 ≤ delay)
      × (delay ≤ max telegram_delivery_backoff_cap_ms (or_else retry_after_seconds 0 * 1000))
unfolding telegram_delivery_retry_delay_ms
telegram_delivery_retry_delay_ms-bounded a s r =
    let low : 4000 ≤ jittered_delay_ms (exponential_delay_ms a) r =
      omega (arith, exponential_delay_ms-lower a) in
    (omega arith, omega arith, omega arith)
