-- ===== src/Telegram/Fencing.antt =====
-- apps/worker/src/modules/telegram-service.ts: who holds which reservation of a card, in any
-- interleaving of the senders. The attempt of a reservation fences the writes of older senders.
use auto_monitor_bot.Base.{
  ℕ, ◌≤◌, ◌<◌, ◌≡◌, refl, ◌≢◌, Bool, true, false, List, [], ◌∷◌, Option, none, some, arith,
}
use auto_monitor_bot.Telegram.Card.{
  Card, created_card, quarantine_card, claim_card, renew_card, store_receipt, fail_card,
  not_configured_card, stage_card, release_card, accept_flash_card, bundle_card, edited_card,
}
use auto_monitor_bot.Telegram.Senders.{
  SenderPhase, unconfigured, holding, requesting, storing, syncing, failing, Delivery, new_delivery,
  Deployment, read_card, decide, reserve, give_up, renew, assert_owned_card, accept_card,
  persist_receipt, finish_sync, reject, record_failure, signal_write, DeliveryEvent, reads, decides,
  reserves, syncs, gives_up, renews, asserts, stores, accepts, rejects, records, signals,
  delivery_step, run_delivery,
}

-- The attempt of the reservation that a sender has; 0 where it has none.
abbrev pub held_attempt : SenderPhase → ℕ
held_attempt (unconfigured r) = r.attempt
held_attempt (holding r) = r.attempt
held_attempt (requesting r) = r.attempt
held_attempt (storing r m) = r.attempt
held_attempt (syncing r) = r.attempt
held_attempt (failing r started persisted e) = r.attempt
held_attempt _ = 0

abbrev pub attempts : Option Card → ℕ
attempts none = 0
attempts (some c) = c.attempt_count

-- Nobody holds a newer reservation than the row's last one, and no two senders hold the same.
abbrev IsBehind : Delivery → Type 0
IsBehind d = (i : ℕ) → held_attempt (d.senders i) ≤ attempts d.card

abbrev IsFenced : Delivery → Type 0
IsFenced d =
    (i j : ℕ)
    → i ≢ j
    → held_attempt (d.senders i) ≡ held_attempt (d.senders j)
    → held_attempt (d.senders i) ≡ 0

step-attempts :
    (env : Deployment) (ev : DeliveryEvent) (d : Delivery)
    → attempts d.card ≤ attempts (delivery_step env ev d).card
unfolding delivery_step read_card decide reserve give_up renew assert_owned_card accept_card
    persist_receipt finish_sync reject record_failure claim_card renew_card fail_card store_receipt
    quarantine_card created_card signal_write stage_card release_card bundle_card accept_flash_card
    not_configured_card edited_card
step-attempts env (reads now i) d = ground arith
step-attempts env (decides f i) d = ground arith
step-attempts env (reserves i) d = ground arith
step-attempts env (syncs i) d = ground arith
step-attempts env (gives_up now r i) d = ground arith
step-attempts env (renews now i) d = ground arith
step-attempts env (asserts now i) d = ground arith
step-attempts env (stores now i) d = ground arith
step-attempts env (accepts m i) d = ground arith
step-attempts env (rejects e i) d = ground arith
step-attempts env (records now r a i) d = ground arith
step-attempts env (signals now w) d = ground arith

step-IsBehind :
    (env : Deployment) (ev : DeliveryEvent) (d : Delivery)
    → IsBehind d
    → IsBehind (delivery_step env ev d)
unfolding delivery_step read_card decide reserve give_up renew assert_owned_card accept_card
    persist_receipt finish_sync reject record_failure claim_card renew_card fail_card store_receipt
    quarantine_card created_card signal_write stage_card release_card bundle_card accept_flash_card
    not_configured_card edited_card
step-IsBehind env (reads now i) d v j = ground (arith, v j)
step-IsBehind env (decides f i) d v j = ground (arith, v j)
step-IsBehind env (reserves i) d v j = ground (arith, v j)
step-IsBehind env (syncs i) d v j = ground (arith, v j)
step-IsBehind env (gives_up now r i) d v j = ground (arith, v j)
step-IsBehind env (renews now i) d v j = ground (arith, v j)
step-IsBehind env (asserts now i) d v j = ground (arith, v j)
step-IsBehind env (stores now i) d v j = ground (arith, v j)
step-IsBehind env (accepts m i) d v j = ground (arith, v j)
step-IsBehind env (rejects e i) d v j = ground (arith, v j)
step-IsBehind env (records now r a i) d v j = ground (arith, v j)
step-IsBehind env (signals now w) d v j = ground (arith, v j)

step-IsFenced :
    (env : Deployment) (ev : DeliveryEvent) (d : Delivery)
    → IsBehind d
    → IsFenced d
    → IsFenced (delivery_step env ev d)
unfolding delivery_step read_card decide reserve give_up renew assert_owned_card accept_card
    persist_receipt finish_sync reject record_failure claim_card
step-IsFenced env (reads now i) d b v j k ne h = ground (arith, v j k ne)
step-IsFenced env (decides f i) d b v j k ne h = ground (arith, v j k ne)
step-IsFenced env (reserves i) d b v j k ne h = ground (arith, v j k ne, b j, b k)
step-IsFenced env (syncs i) d b v j k ne h = ground (arith, v j k ne)
step-IsFenced env (gives_up now r i) d b v j k ne h = ground (arith, v j k ne)
step-IsFenced env (renews now i) d b v j k ne h = ground (arith, v j k ne)
step-IsFenced env (asserts now i) d b v j k ne h = ground (arith, v j k ne)
step-IsFenced env (stores now i) d b v j k ne h = ground (arith, v j k ne)
step-IsFenced env (accepts m i) d b v j k ne h = ground (arith, v j k ne)
step-IsFenced env (rejects e i) d b v j k ne h = ground (arith, v j k ne)
step-IsFenced env (records now r a i) d b v j k ne h = ground (arith, v j k ne)
step-IsFenced env (signals now w) d b v j k ne h = v j k ne h

abbrev pub has_reservation : SenderPhase → Bool
has_reservation (unconfigured r) = true
has_reservation (holding r) = true
has_reservation (requesting r) = true
has_reservation (storing r m) = true
has_reservation (syncing r) = true
has_reservation (failing r started persisted e) = true
has_reservation _ = false

abbrev IsCounted : Delivery → Type 0
IsCounted d = (i : ℕ) → has_reservation (d.senders i) ≡ true → 0 < held_attempt (d.senders i)

step-IsCounted :
    (env : Deployment) (ev : DeliveryEvent) (d : Delivery)
    → IsCounted d
    → IsCounted (delivery_step env ev d)
unfolding delivery_step read_card decide reserve give_up renew assert_owned_card accept_card
    persist_receipt finish_sync reject record_failure
step-IsCounted env (reads now i) d v j h = ground (arith, v j)
step-IsCounted env (decides f i) d v j h = ground (arith, v j)
step-IsCounted env (reserves i) d v j h = ground (arith, v j)
step-IsCounted env (syncs i) d v j h = ground (arith, v j)
step-IsCounted env (gives_up now r i) d v j h = ground (arith, v j)
step-IsCounted env (renews now i) d v j h = ground (arith, v j)
step-IsCounted env (asserts now i) d v j h = ground (arith, v j)
step-IsCounted env (stores now i) d v j h = ground (arith, v j)
step-IsCounted env (accepts m i) d v j h = ground (arith, v j)
step-IsCounted env (rejects e i) d v j h = ground (arith, v j)
step-IsCounted env (records now r a i) d v j h = ground (arith, v j)
step-IsCounted env (signals now w) d v j h = v j h

record IsOrdered (d : Delivery) : Type 0 where
  behind : IsBehind d
  fenced : IsFenced d
  counted : IsCounted d

run_delivery-IsOrdered :
    (env : Deployment) (evs : List DeliveryEvent) (d : Delivery)
    → IsOrdered d
    → IsOrdered (run_delivery env evs d)
unfolding run_delivery
run_delivery-IsOrdered env [] d v = v
run_delivery-IsOrdered env (ev ∷ evs) d v =
    run_delivery-IsOrdered env evs (delivery_step env ev d) (record {
      behind = step-IsBehind env ev d v.behind;
      fenced = step-IsFenced env ev d v.behind v.fenced;
      counted = step-IsCounted env ev d v.counted;
    })

-- Whether the assertion of a sender, at a time, lets its request start.
abbrev pub may_start : ℕ → ℕ → Delivery → Bool
may_start now i d = elim ((assert_owned_card now i d).senders i) [
  | requesting r ↦ (elim (d.senders i) [ holding r ↦ true | _ ↦ false ])
  | _ ↦ false
]

-- In any state that senders of one card reach, however their steps, failures, lease losses and the
-- writes of first signals interleave: of the senders that have a reservation no two have the same
-- attempt, and of those that wait to send at most one can still start its request.
pub run_delivery-one_starts :
    (env : Deployment) (evs : List DeliveryEvent) (now later i j : ℕ)
    → let d = run_delivery env evs new_delivery in
      i ≢ j
      → (has_reservation (d.senders i) ≡ true
          → has_reservation (d.senders j) ≡ true
          → held_attempt (d.senders i) ≢ held_attempt (d.senders j))
        × (may_start now i d ≡ true → may_start later j d ≡ false)
unfolding assert_owned_card renew_card
run_delivery-one_starts env evs now later i j ne =
    let d = run_delivery env evs new_delivery in
    let v = run_delivery-IsOrdered env evs new_delivery (record {
      behind = λ i. omega arith;
      fenced = λ i j ne h. refl;
      counted = λ i h. absurd (ground arith);
    }) in
    (
      λ hi hj. ground (arith, v.fenced i j ne, v.counted i hi, v.counted j hj),
      λ h. ground (arith, v.fenced i j ne, v.counted i, v.counted j),
    )
