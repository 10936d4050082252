-- ===== src/Telegram/Retry.antt =====
-- apps/worker/src/modules/telegram-service.ts: what becomes of a card behind a failed attempt, and that
-- a sender left alone delivers a card that is due.
use auto_monitor_bot.Base.{
  ℕ, ◌+◌, ◌<◌, ◌≡◌, Bool, true, false, not, ◌&&◌, ◌||◌, List, [], ◌∷◌, Option, none, some, arith,
  leb, is_some, if◌then◌else◌,
}
use mathlib.Core.Option.{map as map_option}
use Prim.Native.String.{String}
use auto_monitor_bot.Telegram.Policy.{
  is_quarantinable, should_quarantine_delivery, FailureState, failure_transient, failure_ambiguous,
  failure_permanent, telegram_retry_due, telegram_max_delivery_attempts, telegram_send_lease_ms,
  transient,
}
use auto_monitor_bot.Telegram.Card.{
  Card, Decision, locked, park, claim, created_card, reservation_decision, claim_card, is_fenced,
  is_closed, is_withheld, is_in_flight, is_later, renew_card, store_receipt, fail_card,
  failure_status, failure_retry_at,
}
use auto_monitor_bot.Telegram.Senders.{
  idle, over, Delivery, Deployment, read_card, decide, reserve, assert_owned_card, accept_card,
  persist_receipt, finish_sync, DeliveryEvent, reads, decides, reserves, syncs, asserts, stores,
  accepts, delivery_step, run_delivery,
}
use auto_monitor_bot.Telegram.Receipt.{has_receipt}

-- What the next sender does with a card whose attempt failed.
unfoldable pub next_decision : FailureState → ℕ → Option ℕ → Decision
next_decision failure_permanent attempt at = locked
next_decision failure_ambiguous attempt at = claim attempt at
next_decision failure_transient attempt at =
    if leb telegram_max_delivery_attempts attempt then park attempt transient else claim attempt at

-- When the attempt that holds a card fails, its row is updated; and once the retry is due and no first
-- signal waits, the next sender leaves the card alone after a permanent failure, reserves it after an
-- ambiguous one whatever the number of attempts, and after a transient one reserves it again or, from
-- the thirtieth attempt on, parks it.
pub fail_card-retried :
    (c : Card) (attempt now random later : ℕ) (aborted : Bool) (retry_after : Option ℕ)
    (failure : FailureState)
    → is_fenced attempt c ≡ true
    → let after = fail_card now random attempt aborted retry_after failure c in
      telegram_retry_due later after.1.next_attempt_at ≡ true
      → (after.0 ≡ true)
        × (reservation_decision later false (some after.1)
            ≡ next_decision failure attempt c.accepted_at)
unfolding fail_card reservation_decision next_decision telegram_retry_due should_quarantine_delivery
    is_quarantinable failure_status failure_retry_at
fail_card-retried c attempt now random later aborted retry_after failure_permanent f due =
    (ground arith, ground arith)
fail_card-retried c attempt now random later aborted retry_after failure_ambiguous f due =
    (ground arith, ground arith)
fail_card-retried c attempt now random later aborted retry_after failure_transient f due =
    (ground arith, ground arith)

-- The steps of a sender that is left alone.
abbrev pub undisturbed : ℕ → ℕ → String → ℕ → List DeliveryEvent
undisturbed now later message_ids i =
    reads now i
    ∷ decides false i
    ∷ reserves i
    ∷ asserts later i
    ∷ accepts message_ids i
    ∷ stores later i
    ∷ syncs i
    ∷ []

-- A card that a sender may reserve at a time: it does not stand yet, or it has no message, no final or
-- withheld status, no live lease and no later retry, and has attempts left.
abbrev pub is_open : ℕ → Option Card → Bool
is_open now none = true
is_open now (some c) =
    not (is_some c.message_id)
    && not (is_closed c.status)
    && not (is_withheld c.status)
    && (not (is_in_flight c.status) || not (is_later now c.lease_expires_at))
    && telegram_retry_due now c.next_attempt_at
    && not (should_quarantine_delivery c.status c.attempt_count)

-- With a bot configured, a sender that is left alone with a card that is open to it, and that is let
-- through the gate before its lease ends, delivers the card: the row has the receipt with the ids that
-- Telegram gave, and the sender is through.
pub run_delivery-delivers :
    (env : Deployment) (d : Delivery) (i now later : ℕ) (message_ids : String)
    → env.configured ≡ true
    → d.senders i ≡ idle
    → is_open now d.card ≡ true
    → later < now + telegram_send_lease_ms
    → let after = run_delivery env (undisturbed now later message_ids i) d in
      (after.senders i ≡ over)
      × (has_receipt after.card ≡ true)
      × (map_option (λ c. c.message_id) after.card ≡ some (some message_ids))
unfolding run_delivery delivery_step read_card decide reserve assert_owned_card accept_card
    persist_receipt finish_sync reservation_decision claim_card renew_card store_receipt
    created_card telegram_retry_due
run_delivery-delivers env d i now later message_ids c p o l =
    (ground arith, ground arith, ground arith)
