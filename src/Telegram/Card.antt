-- ===== src/Telegram/Card.antt =====
-- apps/worker/src/modules/telegram-service.ts: the receipt row of a card and the database writes of
-- `sendListingLinkToChat`, `reserveTelegramNotification` and `quarantineTelegramNotification`. A
-- conditional update gives whether it matched, with the row behind it. Times are milliseconds.
use auto_monitor_bot.Base.{
  ℕ, suc, ◌+◌, Bool, true, false, not, ◌&&◌, ◌||◌, Option, none, some, ltb, ◌==◌, if◌then◌else◌,
  or_else, is_some, truthy,
}
use Prim.Native.String.{String}
use auto_monitor_bot.Telegram.Policy.{
  CardStatus, pending, flash_pending, processing, sent, updated, sending, transient, ambiguous,
  delivered, permanent, quarantined, FailureState, failure_transient, failure_ambiguous,
  failure_permanent, same_status, telegram_send_lease_ms, should_quarantine_delivery,
  telegram_delivery_retry_delay_ms, truthy_number, telegram_retry_due,
}

pub data CardError : Type 0 where
  not_configured inline_deadline rate_limited acceptance_ambiguous chat_permanent send_failed :
      CardError
  parked_after : ℕ → CardError

-- `TelegramNotification`, without its keys and texts; a message text of an error is left out.
pub record Card : Type 0 where
  pub status : CardStatus
  pub attempt_count : ℕ
  pub message_id : Option String
  pub lease_expires_at : Option ℕ
  pub next_attempt_at : Option ℕ
  pub processing_started_at : Option ℕ
  pub last_attempt_at : Option ℕ
  pub last_error : Option CardError
  pub sent_at : Option ℕ
  pub accepted_at : Option ℕ
  pub delete_after : Option ℕ
  pub favorited_at : Option ℕ
  pub retain_until : Option ℕ
  pub retention_policy_applied_at : Option ℕ
  pub cleanup_attempted_at : Option ℕ

-- The row that `create` makes in `reserveTelegramNotification`.
unfoldable pub created_card : ℕ → Card
created_card now = record {
  status = sending;
  attempt_count = 1;
  message_id = none;
  lease_expires_at = some (now + telegram_send_lease_ms);
  next_attempt_at = none;
  processing_started_at = some now;
  last_attempt_at = some now;
  last_error = none;
  sent_at = none;
  accepted_at = none;
  delete_after = none;
  favorited_at = none;
  retain_until = none;
  retention_policy_applied_at = none;
  cleanup_attempted_at = none;
}

-- What `reserveTelegramNotification` does with the row that it read: it returns, throws
-- `TelegramDeliveryDeferredError`, or goes on to one of its three writes.
pub data Decision : Type 0 where
  already_sent : Option ℕ → Decision
  locked create : Decision
  deferred : ℕ → Decision
  park : ℕ → CardStatus → Decision
  claim : ℕ → Option ℕ → Decision

abbrev pub is_in_flight : CardStatus → Bool
is_in_flight sending = true
is_in_flight processing = true
is_in_flight _ = false

abbrev pub is_withheld : CardStatus → Bool
is_withheld flash_pending = true
is_withheld permanent = true
is_withheld quarantined = true
is_withheld _ = false

abbrev pub is_closed : CardStatus → Bool
is_closed sent = true
is_closed updated = true
is_closed delivered = true
is_closed permanent = true
is_closed quarantined = true
is_closed _ = false

abbrev pub is_later : ℕ → Option ℕ → Bool
is_later now none = false
is_later now (some at) = ltb now at

abbrev pub first_some {ℓ} : {A : Type ℓ} → Option A → Option A → Option A
first_some none b = b
first_some (some a) b = some a

-- The checks of `reserveTelegramNotification` in their order; `flash_due` tells whether a first signal
-- is due.
unfoldable pub reservation_decision : ℕ → Bool → Option Card → Decision
reservation_decision now flash_due none = create
reservation_decision now flash_due (some c) =
    if truthy c.message_id
    then already_sent (first_some c.accepted_at c.sent_at)
    else if is_withheld c.status
    then locked
    else if is_some c.accepted_at && flash_due
    then deferred (now + 1100)
    else if is_in_flight c.status && is_later now c.lease_expires_at
    then locked
    else if is_later now c.next_attempt_at
    then deferred (or_else c.next_attempt_at now)
    else if should_quarantine_delivery c.status c.attempt_count
    then park c.attempt_count c.status
    else claim c.attempt_count c.accepted_at

-- The update of `quarantineTelegramNotification`.
unfoldable pub quarantine_card : ℕ → CardStatus → Card → Bool × Card
quarantine_card attempt status c =
    if c.attempt_count == attempt && same_status c.status status
    then (
      true,
      record c {
        status = quarantined;
        next_attempt_at = none;
        lease_expires_at = none;
        last_error = some (parked_after attempt);
      },
    )
    else (false, c)

-- The update that reserves an existing row.
unfoldable pub claim_card : ℕ → ℕ → Card → Bool × Card
claim_card now attempt c =
    if c.attempt_count == attempt
      && not (is_some c.message_id)
      && not (is_closed c.status)
      && telegram_retry_due now c.next_attempt_at
      && (not (is_in_flight c.status) || not (is_later now c.lease_expires_at))
    then (
      true,
      record c {
        status = sending;
        attempt_count = suc attempt;
        processing_started_at = some now;
        last_attempt_at = some now;
        lease_expires_at = some (now + telegram_send_lease_ms);
        next_attempt_at = none;
        last_error = none;
      },
    )
    else (false, c)

-- The condition on the attempt that every write of a sender but the receipt has.
abbrev pub is_fenced : ℕ → Card → Bool
is_fenced attempt c =
    c.attempt_count == attempt && same_status c.status sending && not (is_some c.message_id)

-- The renewal of the lease.
unfoldable pub renew_card : ℕ → ℕ → Card → Bool × Card
renew_card now attempt c =
    if is_fenced attempt c && is_later now c.lease_expires_at
    then (true, record c { lease_expires_at = some (now + telegram_send_lease_ms) })
    else (false, c)

-- The update with the receipt, for the acceptance time that the reservation carried.
unfoldable pub store_receipt : ℕ → ℕ → Option ℕ → String → Card → Card
store_receipt retention_ms now accepted_at message_ids c = record c {
  message_id = some message_ids;
  status = delivered;
  lease_expires_at = none;
  last_error = none;
  sent_at = some now;
  accepted_at = some (or_else accepted_at now);
  next_attempt_at = none;
  delete_after = some (now + retention_ms);
  favorited_at = none;
  retain_until = none;
  retention_policy_applied_at = some now;
  cleanup_attempted_at = none;
}

unfoldable pub failure_status : FailureState → CardStatus
failure_status failure_transient = transient
failure_status failure_ambiguous = ambiguous
failure_status failure_permanent = permanent

abbrev pub failure_error : Bool → Option ℕ → FailureState → CardError
failure_error aborted retry_after failure =
    if aborted
    then inline_deadline
    else if truthy_number retry_after
    then rate_limited
    else (elim failure [
      | failure_ambiguous ↦ acceptance_ambiguous
      | failure_permanent ↦ chat_permanent
      | failure_transient ↦ send_failed
    ])

unfoldable pub failure_retry_at : FailureState → ℕ → ℕ → Option ℕ → ℕ → Option ℕ
failure_retry_at failure_permanent now attempt retry_after random = none
failure_retry_at _ now attempt retry_after random =
    some (now + telegram_delivery_retry_delay_ms attempt retry_after random)

-- The update in the `catch` of `sendListingLinkToChat`.
unfoldable pub fail_card : ℕ → ℕ → ℕ → Bool → Option ℕ → FailureState → Card → Bool × Card
unfolding failure_status failure_retry_at
fail_card now random attempt aborted retry_after failure c =
    if is_fenced attempt c
    then (
      true,
      record c {
        status = failure_status failure;
        next_attempt_at = failure_retry_at failure now attempt retry_after random;
        lease_expires_at = none;
        last_error = some (failure_error aborted retry_after failure);
      },
    )
    else (false, c)

-- The update without a bot, which names the row only.
unfoldable pub not_configured_card : ℕ → ℕ → ℕ → Card → Card
not_configured_card now random attempt c = record c {
  status = transient;
  next_attempt_at = some (now + telegram_delivery_retry_delay_ms attempt none random);
  lease_expires_at = none;
  last_error = some not_configured;
}

-- The writes of the first signal on a card: `stageListingForFlash`, `releaseFlashListingsToCards`, and
-- the acceptance in `syncAcceptedFlashBundle`.
unfoldable pub stage_card : ℕ → Card → Bool × Card
stage_card now c =
    if not (is_some c.message_id)
      && not (is_some c.accepted_at)
      && not (is_closed c.status)
      && not (same_status c.status sending)
      && (not (same_status c.status processing) || not (is_later now c.lease_expires_at))
    then (true, record c { status = flash_pending; lease_expires_at = none; last_error = none })
    else (false, c)

unfoldable pub release_card : Card → Card
release_card c = if same_status c.status flash_pending then record c { status = pending } else c

unfoldable pub accept_flash_card : ℕ → Card → Card
accept_flash_card accepted_at c =
    if (same_status c.status flash_pending || same_status c.status pending)
      && not (is_some c.accepted_at)
    then record c { status = pending; accepted_at = some accepted_at }
    else c

-- The update of `queueTelegramFirstSignals`.
unfoldable pub bundle_card : Card → Card
bundle_card c =
    if not (is_some c.message_id) && not (is_some c.accepted_at)
    then record c { status = flash_pending }
    else c

-- The update of `updateListingMessage` behind its edit, of a row that has a message.
unfoldable pub edited_card : Card → Card
edited_card c = if is_some c.message_id then record c { status = updated; last_error = none } else c
