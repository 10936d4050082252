-- ===== src/Telegram/Receipt.antt =====
-- apps/worker/src/modules/telegram-service.ts: what is kept of a stored receipt, and who holds which
-- reservation, in any interleaving of the senders.
use auto_monitor_bot.Base.{
  subst, ◌++◌, ℕ, ◌≡◌, refl, ◌⊎◌, inl, inr, Bool, true, false, ◌&&◌, ◌||◌, List, [], ◌∷◌, Option,
  none, some, arith, is_some,
}
use auto_monitor_bot.Telegram.Accepted.{
  was_accepted, ids_pass, run_delivery-IsPassed, brings-was_accepted, run_delivery-append,
}
use auto_monitor_bot.Telegram.Policy.{
  delivered, updated, is_quarantinable, same_status, should_quarantine_delivery,
}
use auto_monitor_bot.Telegram.Card.{
  Card, created_card, reservation_decision, quarantine_card, claim_card, renew_card, store_receipt,
  fail_card, stage_card, release_card, accept_flash_card, bundle_card, edited_card,
}
use auto_monitor_bot.Telegram.Senders.{
  SenderPhase, parking, unconfigured, Delivery, new_delivery, Deployment, update_card, read_card,
  decide, reserve, give_up, renew, assert_owned_card, accept_card, persist_receipt, finish_sync,
  reject, record_failure, SignalWrite, stages, releases, bundles, accepts_flash, edits,
  signal_write, DeliveryEvent, reads, decides, reserves, syncs, gives_up, renews, asserts, stores,
  accepts, rejects, records, signals, delivery_step, run_delivery,
}

-- With a bot configured, no sender gives up for want of one, and none parks a card that is not
-- quarantinable.
abbrev is_sound_phase : SenderPhase → Bool
is_sound_phase (parking attempt status) = is_quarantinable status
is_sound_phase (unconfigured r) = false
is_sound_phase _ = true

abbrev IsSound : Delivery → Type 0
IsSound d = (i : ℕ) → is_sound_phase (d.senders i) ≡ true

step-IsSound :
    (env : Deployment) (ev : DeliveryEvent) (d : Delivery)
    → env.configured ≡ true
    → IsSound d
    → IsSound (delivery_step env ev d)
unfolding delivery_step read_card decide reserve give_up renew assert_owned_card accept_card
    persist_receipt finish_sync reject record_failure reservation_decision
    should_quarantine_delivery is_quarantinable
step-IsSound env (reads now i) d c v j = ground (arith, v j)
step-IsSound env (decides f i) d c v j = ground (arith, v j)
step-IsSound env (reserves i) d c v j = ground (arith, v j)
step-IsSound env (syncs i) d c v j = ground (arith, v j)
step-IsSound env (gives_up now r i) d c v j = ground (arith, v j)
step-IsSound env (renews now i) d c v j = ground (arith, v j)
step-IsSound env (asserts now i) d c v j = ground (arith, v j)
step-IsSound env (stores now i) d c v j = ground (arith, v j)
step-IsSound env (accepts m i) d c v j = ground (arith, v j)
step-IsSound env (rejects e i) d c v j = ground (arith, v j)
step-IsSound env (records now r a i) d c v j = ground (arith, v j)
step-IsSound env (signals now w) d c v j = v j

-- A row with a receipt: its message is stored and its status is final.
abbrev pub has_receipt : Option Card → Bool
has_receipt none = false
has_receipt (some c) =
    is_some c.message_id && (same_status c.status delivered || same_status c.status updated)

abbrev pub has_message : Option Card → Bool
has_message none = false
has_message (some c) = is_some c.message_id

signal_write-receipt :
    (now : ℕ) (w : SignalWrite) (c : Card)
    → has_receipt (some c) ≡ true
    → has_receipt (some (signal_write now w c)) ≡ true
unfolding signal_write stage_card release_card bundle_card accept_flash_card edited_card
signal_write-receipt now stages c h = ground arith
signal_write-receipt now releases c h = ground arith
signal_write-receipt now bundles c h = ground arith
signal_write-receipt now accepts_flash c h = ground arith
signal_write-receipt now edits c h = ground arith

update_card-receipt :
    (f : Card → Card) (o : Option Card)
    → ((c : Card) → has_receipt (some c) ≡ true → has_receipt (some (f c)) ≡ true)
    → has_receipt o ≡ true
    → has_receipt (update_card f o) ≡ true
update_card-receipt f none h r = r
update_card-receipt f (some c) h r = h c r

step-receipt :
    (env : Deployment) (ev : DeliveryEvent) (d : Delivery)
    → IsSound d
    → has_receipt d.card ≡ true
    → has_receipt (delivery_step env ev d).card ≡ true
unfolding delivery_step read_card decide reserve give_up renew assert_owned_card accept_card
    persist_receipt finish_sync reject record_failure claim_card renew_card fail_card store_receipt
    quarantine_card is_quarantinable
step-receipt env (reads now i) d v h = ground arith
step-receipt env (decides f i) d v h = ground arith
step-receipt env (reserves i) d v h = ground (arith, v i)
step-receipt env (syncs i) d v h = ground arith
step-receipt env (gives_up now r i) d v h = ground (arith, v i)
step-receipt env (renews now i) d v h = ground (arith, v i)
step-receipt env (asserts now i) d v h = ground (arith, v i)
step-receipt env (stores now i) d v h = ground (arith, v i)
step-receipt env (accepts m i) d v h = ground (arith, v i)
step-receipt env (rejects e i) d v h = ground (arith, v i)
step-receipt env (records now r a i) d v h = ground (arith, v i)
step-receipt env (signals now w) d v h =
    update_card-receipt (signal_write now w) d.card (signal_write-receipt now w) h

run_delivery-IsSound :
    (env : Deployment) (evs : List DeliveryEvent) (d : Delivery)
    → env.configured ≡ true
    → IsSound d
    → IsSound (run_delivery env evs d)
unfolding run_delivery
run_delivery-IsSound env [] d c v = v
run_delivery-IsSound env (ev ∷ evs) d c v =
    run_delivery-IsSound env evs (delivery_step env ev d) c (step-IsSound env ev d c v)

run_delivery-receipt :
    (env : Deployment) (evs : List DeliveryEvent) (d : Delivery)
    → env.configured ≡ true
    → IsSound d
    → has_receipt d.card ≡ true
    → has_receipt (run_delivery env evs d).card ≡ true
unfolding run_delivery
run_delivery-receipt env [] d c v h = h
run_delivery-receipt env (ev ∷ evs) d c v h =
    run_delivery-receipt env evs (delivery_step env ev d) c (step-IsSound env ev d c v)
      (step-receipt env ev d v h)

-- A message stands only in a row that is delivered.
step-has_message :
    (env : Deployment) (ev : DeliveryEvent) (d : Delivery)
    → IsSound d
    → has_message d.card ≡ false
    → (has_message (delivery_step env ev d).card ≡ false)
      ⊎ (has_receipt (delivery_step env ev d).card ≡ true)
unfolding delivery_step read_card decide reserve give_up renew assert_owned_card accept_card
    persist_receipt finish_sync reject record_failure claim_card renew_card fail_card store_receipt
    quarantine_card is_quarantinable created_card signal_write stage_card release_card bundle_card
    accept_flash_card edited_card
step-has_message env (reads now i) d v h = ground (arith, v i)
step-has_message env (decides f i) d v h = ground (arith, v i)
step-has_message env (reserves i) d v h = ground (arith, v i)
step-has_message env (syncs i) d v h = ground (arith, v i)
step-has_message env (gives_up now r i) d v h = ground (arith, v i)
step-has_message env (renews now i) d v h = ground (arith, v i)
step-has_message env (asserts now i) d v h = ground (arith, v i)
step-has_message env (stores now i) d v h = ground (arith, v i)
step-has_message env (accepts m i) d v h = ground (arith, v i)
step-has_message env (rejects e i) d v h = ground (arith, v i)
step-has_message env (records now r a i) d v h = ground (arith, v i)
step-has_message env (signals now w) d v h = ground (arith, v 0)

run_delivery-has_receipt :
    (env : Deployment) (evs : List DeliveryEvent) (d : Delivery)
    → env.configured ≡ true
    → IsSound d
    → has_message d.card ≡ false
    → has_message (run_delivery env evs d).card ≡ true
    → has_receipt (run_delivery env evs d).card ≡ true
unfolding run_delivery
run_delivery-has_receipt env [] d c v h m = absurd (ground arith)
run_delivery-has_receipt env (ev ∷ evs) d c v h m =
    let next = step-IsSound env ev d c v in
    elim (step-has_message env ev d v h) [
      | inl without ↦ run_delivery-has_receipt env evs (delivery_step env ev d) c next without m
      | inr with_it ↦ run_delivery-receipt env evs (delivery_step env ev d) c next with_it
    ]

-- With a bot configured, and in any interleaving of senders, retries, lost leases, failures, writes of
-- first signals and edits: once a history has stored the ids of the messages, no later event takes the
-- receipt away. The row stays delivered, or updated, and the ids in it are ids that Telegram gave to a
-- sender of the history; only such a receipt of another sender can stand in place of the first.
pub run_delivery-keeps_receipt :
    (env : Deployment) (evs later : List DeliveryEvent)
    → env.configured ≡ true
    → has_message (run_delivery env evs new_delivery).card ≡ true
    → let card = (run_delivery env later (run_delivery env evs new_delivery)).card in
      (has_receipt card ≡ true) × (ids_pass (was_accepted (evs ++ later)) card ≡ true)
run_delivery-keeps_receipt env evs later c m =
    let start : IsSound new_delivery = λ i. refl in
    let ok = was_accepted (evs ++ later) in
    let passed =
      run_delivery-IsPassed ok env (evs ++ later) new_delivery (brings-was_accepted (evs ++ later))
        (record { stored = refl; waiting = λ i. refl }) in
    (
      run_delivery-receipt env later (run_delivery env evs new_delivery) c
          (run_delivery-IsSound env evs new_delivery c start)
          (run_delivery-has_receipt env evs new_delivery c start refl m),
      subst (λ (d : Delivery). ids_pass ok d.card ≡ true)
          (run_delivery-append env evs later new_delivery) passed.stored,
    )
