-- ===== src/Telegram/Accepted.antt =====
-- apps/worker/src/modules/telegram-service.ts: where the ids of a stored receipt come from, in any
-- interleaving of the senders.
use Prim.Native.String.{String}
use auto_monitor_bot.Base.{
  all, str_eq, str_eq_refl, ◌++◌, ℕ, ◌≡◌, refl, Bool, true, false, ◌||◌, List, [], ◌∷◌, Option,
  none, some, arith,
}
use auto_monitor_bot.Telegram.Card.{
  Card, created_card, quarantine_card, claim_card, renew_card, store_receipt, fail_card,
  not_configured_card, stage_card, release_card, accept_flash_card, bundle_card, edited_card,
}
use auto_monitor_bot.Telegram.Senders.{
  SenderPhase, storing, Delivery, Deployment, read_card, decide, reserve, give_up, renew,
  assert_owned_card, accept_card, persist_receipt, finish_sync, reject, record_failure,
  signal_write, DeliveryEvent, reads, decides, reserves, syncs, gives_up, renews, asserts, stores,
  accepts, rejects, records, signals, delivery_step, run_delivery,
}

-- Telegram accepted a sender's request in the history, and answered with these ids.
abbrev pub was_accepted : List DeliveryEvent → String → Bool
was_accepted [] m = false
was_accepted (accepts ids i ∷ evs) m = str_eq ids m || was_accepted evs m
was_accepted (ev ∷ evs) m = was_accepted evs m

-- The ids that an event brings from Telegram pass a test.
abbrev pub brings : (String → Bool) → DeliveryEvent → Bool
brings ok (accepts ids i) = ok ids
brings ok _ = true

abbrev pub waits_with : (String → Bool) → SenderPhase → Bool
waits_with ok (storing r m) = ok m
waits_with ok _ = true

abbrev pub ids_pass : (String → Bool) → Option Card → Bool
ids_pass ok none = true
ids_pass ok (some c) = elim c.message_id [ none ↦ true | some m ↦ ok m ]

-- The ids in the row, and those that senders wait to store, pass the test.
pub record IsPassed (ok : String → Bool) (d : Delivery) : Type 0 where
  pub stored : ids_pass ok d.card ≡ true
  pub waiting : (i : ℕ) → waits_with ok (d.senders i) ≡ true

step-waiting :
    (ok : String → Bool) (env : Deployment) (ev : DeliveryEvent) (d : Delivery)
    → brings ok ev ≡ true
    → ((i : ℕ) → waits_with ok (d.senders i) ≡ true)
    → (i : ℕ) → waits_with ok ((delivery_step env ev d).senders i) ≡ true
unfolding delivery_step read_card decide reserve give_up renew assert_owned_card accept_card
    persist_receipt finish_sync reject record_failure
step-waiting ok env (reads now i) d b v j = ground (arith, v j)
step-waiting ok env (decides f i) d b v j = ground (arith, v j)
step-waiting ok env (reserves i) d b v j = ground (arith, v j)
step-waiting ok env (syncs i) d b v j = ground (arith, v j)
step-waiting ok env (gives_up now r i) d b v j = ground (arith, v j)
step-waiting ok env (renews now i) d b v j = ground (arith, v j)
step-waiting ok env (asserts now i) d b v j = ground (arith, v j)
step-waiting ok env (stores now i) d b v j = ground (arith, v j)
step-waiting ok env (accepts m i) d b v j = ground (arith, v j)
step-waiting ok env (rejects e i) d b v j = ground (arith, v j)
step-waiting ok env (records now r a i) d b v j = ground (arith, v j)
step-waiting ok env (signals now w) d b v j = v j

step-stored :
    (ok : String → Bool) (env : Deployment) (ev : DeliveryEvent) (d : Delivery)
    → IsPassed ok d
    → ids_pass ok (delivery_step env ev d).card ≡ true
unfolding delivery_step read_card decide reserve give_up renew assert_owned_card accept_card
    persist_receipt finish_sync reject record_failure claim_card renew_card fail_card store_receipt
    quarantine_card created_card signal_write stage_card release_card bundle_card accept_flash_card
    edited_card not_configured_card
step-stored ok env (reads now i) d v = ground (arith, v.stored)
step-stored ok env (decides f i) d v = ground (arith, v.stored)
step-stored ok env (reserves i) d v = ground (arith, v.stored)
step-stored ok env (syncs i) d v = ground (arith, v.stored)
step-stored ok env (gives_up now r i) d v = ground (arith, v.stored)
step-stored ok env (renews now i) d v = ground (arith, v.stored)
step-stored ok env (asserts now i) d v = ground (arith, v.stored)
step-stored ok env (stores now i) d v = ground (arith, v.stored, v.waiting i)
step-stored ok env (accepts m i) d v = ground (arith, v.stored)
step-stored ok env (rejects e i) d v = ground (arith, v.stored)
step-stored ok env (records now r a i) d v = ground (arith, v.stored)
step-stored ok env (signals now w) d v = ground (arith, v.stored)

pub run_delivery-IsPassed :
    (ok : String → Bool) (env : Deployment) (evs : List DeliveryEvent) (d : Delivery)
    → all (brings ok) evs ≡ true
    → IsPassed ok d
    → IsPassed ok (run_delivery env evs d)
unfolding run_delivery
run_delivery-IsPassed ok env [] d b v = v
run_delivery-IsPassed ok env (ev ∷ evs) d b v =
    run_delivery-IsPassed ok env evs (delivery_step env ev d) (ground arith) (record {
      stored = step-stored ok env ev d v;
      waiting = step-waiting ok env ev d (ground arith) v.waiting;
    })

all-implied :
    (p q : DeliveryEvent → Bool) (evs : List DeliveryEvent)
    → ((ev : DeliveryEvent) → p ev ≡ true → q ev ≡ true)
    → all p evs ≡ true
    → all q evs ≡ true
all-implied p q [] f h = refl
all-implied p q (ev ∷ evs) f h = ground (arith, f ev, all-implied p q evs f)

brings-weaker :
    (ok other : String → Bool) (ev : DeliveryEvent)
    → ((m : String) → ok m ≡ true → other m ≡ true)
    → brings ok ev ≡ true
    → brings other ev ≡ true
brings-weaker ok other (accepts m i) f h = f m h
brings-weaker ok other (reads now i) f h = refl
brings-weaker ok other (decides b i) f h = refl
brings-weaker ok other (reserves i) f h = refl
brings-weaker ok other (syncs i) f h = refl
brings-weaker ok other (gives_up now r i) f h = refl
brings-weaker ok other (renews now i) f h = refl
brings-weaker ok other (asserts now i) f h = refl
brings-weaker ok other (stores now i) f h = refl
brings-weaker ok other (rejects e i) f h = refl
brings-weaker ok other (records now r a i) f h = refl
brings-weaker ok other (signals now w) f h = refl

was_accepted-grows :
    (ev : DeliveryEvent) (evs : List DeliveryEvent) (m : String)
    → was_accepted evs m ≡ true
    → was_accepted (ev ∷ evs) m ≡ true
was_accepted-grows ev evs m h = ground (arith, h)

brings-own :
    (ev : DeliveryEvent) (evs : List DeliveryEvent) → brings (was_accepted (ev ∷ evs)) ev ≡ true
brings-own (accepts m i) evs = ground (arith, str_eq_refl m)
brings-own (reads now i) evs = refl
brings-own (decides b i) evs = refl
brings-own (reserves i) evs = refl
brings-own (syncs i) evs = refl
brings-own (gives_up now r i) evs = refl
brings-own (renews now i) evs = refl
brings-own (asserts now i) evs = refl
brings-own (stores now i) evs = refl
brings-own (rejects e i) evs = refl
brings-own (records now r a i) evs = refl
brings-own (signals now w) evs = refl

-- What a history brings was accepted in it.
pub brings-was_accepted : (evs : List DeliveryEvent) → all (brings (was_accepted evs)) evs ≡ true
brings-was_accepted [] = refl
brings-was_accepted (ev ∷ evs) =
    let rest =
      all-implied (brings (was_accepted evs)) (brings (was_accepted (ev ∷ evs))) evs
        (λ e h.
          brings-weaker (was_accepted evs) (was_accepted (ev ∷ evs)) e (was_accepted-grows ev evs)
            h)
        (brings-was_accepted evs) in
    ground (arith, rest, brings-own ev evs)

pub run_delivery-append :
    (env : Deployment) (evs later : List DeliveryEvent) (d : Delivery)
    → run_delivery env (evs ++ later) d ≡ run_delivery env later (run_delivery env evs d)
unfolding run_delivery
run_delivery-append env [] later d = refl
run_delivery-append env (ev ∷ evs) later d =
    run_delivery-append env evs later (delivery_step env ev d)
