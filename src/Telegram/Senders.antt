-- ===== src/Telegram/Senders.antt =====
-- apps/worker/src/modules/telegram-service.ts: `sendListingLinkToChat` run by several senders for one
-- listing and chat, cut at its awaits. A sender is a number; its lease, kept by
-- `withRenewableTelegramLease`, is here the renewal that `assertOwned` waits for and those of the timer.
-- The writes of the first signals and of the enrichment happen in between. Times are milliseconds.
use auto_monitor_bot.Base.{
  ℕ, suc, Bool, true, false, List, [], ◌∷◌, Option, none, some, ◌==◌, if◌then◌else◌,
}
use Prim.Native.String.{String}
use auto_monitor_bot.Telegram.Policy.{
  CardStatus, ApiError, plain_error, classify_telegram_delivery_failure,
}
use auto_monitor_bot.Telegram.Card.{
  Card, created_card, Decision, create, park, claim, reservation_decision, quarantine_card,
  claim_card, renew_card, store_receipt, fail_card, not_configured_card, stage_card, release_card,
  accept_flash_card, bundle_card, edited_card,
}

-- What a reservation gives: `attemptCount` and `acceptedAt`.
pub record Reservation : Type 0 where
  pub attempt : ℕ
  pub accepted_at : Option ℕ

-- Where a sender stands: the next statement of it that touches the row.
pub data SenderPhase : Type 0 where
  idle over : SenderPhase
  deciding : ℕ → Option Card → SenderPhase
  parking : ℕ → CardStatus → SenderPhase
  claiming : ℕ → Reservation → SenderPhase
  creating : ℕ → SenderPhase
  unconfigured holding requesting : Reservation → SenderPhase
  storing : Reservation → String → SenderPhase
  syncing : Reservation → SenderPhase
  failing : Reservation → Bool → Bool → ApiError → SenderPhase

pub record Delivery : Type 0 where
  pub card : Option Card
  pub senders : ℕ → SenderPhase

abbrev pub new_delivery : Delivery
new_delivery = record { card = none; senders = λ _. idle }

abbrev pub set_phase : ℕ → SenderPhase → Delivery → Delivery
set_phase i p d = record d { senders = λ j. if i == j then p else d.senders j }

abbrev pub update_card : (Card → Card) → Option Card → Option Card
update_card f none = none
update_card f (some c) = some (f c)

abbrev pub set_card : (Card → Card) → Delivery → Delivery
set_card f d = record d { card = update_card f d.card }

-- What a conditional update matches; a missing row matches nothing.
abbrev pub matches : (Card → Bool × Card) → Option Card → Bool
matches f none = false
matches f (some c) = (f c).0

-- The deployment: whether a bot is configured, and `LISTING_RETENTION_HOURS` in milliseconds.
pub record Deployment : Type 0 where
  pub configured : Bool
  pub retention_ms : ℕ

abbrev pub reserved_phase : Deployment → Reservation → SenderPhase
reserved_phase env r = if env.configured then holding r else unconfigured r

-- `reserveTelegramNotification` reads the row.
unfoldable pub read_card : ℕ → ℕ → Delivery → Delivery
read_card now i d = elim (d.senders i) [ idle ↦ set_phase i (deciding now d.card) d | _ ↦ d ]

abbrev pub decided_phase : ℕ → Decision → SenderPhase
decided_phase now (park attempt status) = parking attempt status
decided_phase now (claim attempt at) = claiming now (record { attempt = attempt; accepted_at = at })
decided_phase now create = creating now
decided_phase now _ = over

-- The checks behind the reads, with whether a first signal is due.
unfoldable pub decide : Bool → ℕ → Delivery → Delivery
decide flash_due i d = elim (d.senders i) [
  | deciding now c ↦ set_phase i (decided_phase now (reservation_decision now flash_due c)) d
  | _ ↦ d
]

-- The write that the decision leads to.
unfoldable pub reserve : Deployment → ℕ → Delivery → Delivery
reserve env i d = elim (d.senders i) [
  | parking attempt status ↦
      set_phase i over (set_card (λ c. (quarantine_card attempt status c).1) d)
  | claiming now r ↦
      set_phase i
        (if matches (claim_card now r.attempt) d.card
          then reserved_phase env (record r { attempt = suc r.attempt })
          else over)
        (set_card (λ c. (claim_card now r.attempt c).1) d)
  | creating now ↦ (elim d.card [
    | none ↦
        set_phase i (reserved_phase env (record { attempt = 1; accepted_at = none }))
          (record d { card = some (created_card now) })
    | some c ↦ set_phase i over d
  ])
  | _ ↦ d
]

-- The write without a bot.
unfoldable pub give_up : ℕ → ℕ → ℕ → Delivery → Delivery
give_up now random i d = elim (d.senders i) [
  | unconfigured r ↦ set_phase i over (set_card (not_configured_card now random r.attempt) d)
  | _ ↦ d
]

abbrev renewal : ℕ → ℕ → Reservation → Delivery → Delivery
renewal now i r d = set_card (λ c. (renew_card now r.attempt c).1) d

-- The timer renews the lease, while the callback runs.
unfoldable pub renew : ℕ → ℕ → Delivery → Delivery
renew now i d = elim (d.senders i) [
  | holding r ↦ renewal now i r d
  | requesting r ↦ renewal now i r d
  | storing r m ↦ renewal now i r d
  | syncing r ↦ renewal now i r d
  | _ ↦ d
]

-- `assertOwned` behind the gate: a renewal that matches lets the request start.
unfoldable pub assert_owned_card : ℕ → ℕ → Delivery → Delivery
assert_owned_card now i d = elim (d.senders i) [
  | holding r ↦
      set_phase i
        (if matches (renew_card now r.attempt) d.card
          then requesting r
          else failing r false false plain_error)
        (renewal now i r d)
  | _ ↦ d
]

-- `sendListingCard` resolves with the ids of the messages.
unfoldable pub accept_card : String → ℕ → Delivery → Delivery
accept_card message_ids i d = elim (d.senders i) [
  | requesting r ↦ set_phase i (storing r message_ids) d
  | _ ↦ d
]

-- The receipt is stored; the update rejects where the row is gone.
unfoldable pub persist_receipt : Deployment → ℕ → ℕ → Delivery → Delivery
persist_receipt env now i d = elim (d.senders i) [
  | storing r message_ids ↦ (elim d.card [
    | none ↦ set_phase i (failing r true false plain_error) d
    | some c ↦
        set_phase i (syncing r)
          (set_card (store_receipt env.retention_ms now r.accepted_at message_ids) d)
  ])
  | _ ↦ d
]

-- `syncAcceptedListing` resolves.
unfoldable pub finish_sync : ℕ → Delivery → Delivery
finish_sync i d = elim (d.senders i) [ syncing r ↦ set_phase i over d | _ ↦ d ]

-- Whatever the sender waits for rejects: before the reservation the error leaves the function, behind
-- it the `catch` takes over with `requestStarted` and `acceptancePersisted`.
unfoldable pub reject : ApiError → ℕ → Delivery → Delivery
reject e i d = elim (d.senders i) [
  | idle ↦ d
  | holding r ↦ set_phase i (failing r false false e) d
  | requesting r ↦ set_phase i (failing r true false e) d
  | storing r m ↦ set_phase i (failing r true false e) d
  | syncing r ↦ set_phase i (failing r true true e) d
  | _ ↦ set_phase i over d
]

-- The write of the `catch`.
unfoldable pub record_failure : ℕ → ℕ → Bool → ℕ → Delivery → Delivery
record_failure now random aborted i d = elim (d.senders i) [
  | failing r started persisted e ↦ set_phase i over (
      set_card
        (λ c.
          (fail_card now random r.attempt aborted e.retry_after_seconds
            (classify_telegram_delivery_failure e started persisted) c).1)
        d)
  | _ ↦ d
]

-- The writes of the first signals and of the enrichment.
pub data SignalWrite : Type 0 where
  stages releases bundles accepts_flash edits : SignalWrite

unfoldable pub signal_write : ℕ → SignalWrite → Card → Card
signal_write now stages c = (stage_card now c).1
signal_write now releases c = release_card c
signal_write now bundles c = bundle_card c
signal_write now accepts_flash c = accept_flash_card now c
signal_write now edits c = edited_card c

pub data DeliveryEvent : Type 0 where
  reads : ℕ → ℕ → DeliveryEvent
  decides : Bool → ℕ → DeliveryEvent
  reserves syncs : ℕ → DeliveryEvent
  gives_up : ℕ → ℕ → ℕ → DeliveryEvent
  renews asserts stores : ℕ → ℕ → DeliveryEvent
  accepts : String → ℕ → DeliveryEvent
  rejects : ApiError → ℕ → DeliveryEvent
  records : ℕ → ℕ → Bool → ℕ → DeliveryEvent
  signals : ℕ → SignalWrite → DeliveryEvent

unfoldable pub delivery_step : Deployment → DeliveryEvent → Delivery → Delivery
delivery_step env (reads now i) d = read_card now i d
delivery_step env (decides flash_due i) d = decide flash_due i d
delivery_step env (reserves i) d = reserve env i d
delivery_step env (gives_up now random i) d = give_up now random i d
delivery_step env (renews now i) d = renew now i d
delivery_step env (asserts now i) d = assert_owned_card now i d
delivery_step env (accepts message_ids i) d = accept_card message_ids i d
delivery_step env (stores now i) d = persist_receipt env now i d
delivery_step env (syncs i) d = finish_sync i d
delivery_step env (rejects e i) d = reject e i d
delivery_step env (records now random aborted i) d = record_failure now random aborted i d
delivery_step env (signals now w) d = set_card (signal_write now w) d

unfoldable pub run_delivery : Deployment → List DeliveryEvent → Delivery → Delivery
run_delivery env [] d = d
run_delivery env (ev ∷ evs) d = run_delivery env evs (delivery_step env ev d)
