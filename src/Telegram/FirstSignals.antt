-- ===== src/Telegram/FirstSignals.antt =====
-- apps/worker/src/modules/telegram-first-signal.ts: the transaction of `queueTelegramFirstSignals`, for one
-- chat. `ids` are the listings that may be sent, in their order and each once; what the database knows
-- of other bundles, the texts and the digests of bundle ids are arguments. Times are milliseconds.
use auto_monitor_bot.Base.{
  ℕ, suc, Bool, true, false, not, ◌&&◌, ◌||◌, List, [], ◌∷◌, ◌++◌, Option, none, some,
  if◌then◌else◌, is_some, any, filter, find, map, str_eq,
}
use Prim.Native.String.{String}
use auto_monitor_bot.Telegram.Policy.{CardStatus, flash_pending, pending, permanent, quarantined}
use auto_monitor_bot.Telegram.Card.{is_in_flight, is_closed, is_later}
use auto_monitor_bot.Delivery.Burst.{split_first_signal_listings}

-- A receipt of the chat. The id of a message is never empty, so only its presence is kept.
pub record Receipt : Type 0 where
  pub listing_id : String
  pub status : CardStatus
  pub has_message : Bool
  pub accepted_at : Option ℕ
  pub next_attempt_at : Option ℕ
  pub flash_bundle_id : Option String

-- What the transaction hands on: the receipts, the bundles to queue, and the listings whose details are
-- to be sent.
pub record Admitted : Type 0 where
  pub receipts : List Receipt
  pub bundles : List String
  pub details : List String

abbrev pub has : List String → String → Bool
has texts t = any (λ x. str_eq x t) texts

abbrev pub receipt_of : List Receipt → String → Option Receipt
receipt_of receipts id = find (λ r. str_eq r.listing_id id) receipts

abbrev pub new_receipt : String → Receipt
new_receipt id = record {
  listing_id = id;
  status = pending;
  has_message = false;
  accepted_at = none;
  next_attempt_at = none;
  flash_bundle_id = none;
}

-- `createMany` with `skipDuplicates`.
unfoldable pub create_missing : List String → List Receipt → List Receipt
create_missing [] receipts = receipts
create_missing (id ∷ ids) receipts =
    create_missing ids
      (if is_some (receipt_of receipts id) then receipts else receipts ++ new_receipt id ∷ [])

-- What the loop makes of a listing.
pub data Admission : Type 0 where
  closed details waits fresh : Admission
  bundled : String → Admission

abbrev pub is_dead : CardStatus → Bool
is_dead permanent = true
is_dead quarantined = true
is_dead _ = false

abbrev pub bundle_admission : (String → Option CardStatus) → Option String → Admission
bundle_admission bundle_status none = fresh
bundle_admission bundle_status (some b) = elim (bundle_status b) [
  | none ↦ fresh
  | some status ↦ if is_dead status then waits else bundled b
]

-- The checks of the loop, in their order.
unfoldable pub admission : ℕ → (String → Option CardStatus) → Option Receipt → Admission
admission now bundle_status none = fresh
admission now bundle_status (some r) =
    if r.has_message || is_closed r.status
    then closed
    else if is_some r.accepted_at
    then details
    else if is_in_flight r.status
    then waits
    else if is_later now r.next_attempt_at
    then waits
    else bundle_admission bundle_status r.flash_bundle_id

abbrev pub is_fresh : Admission → Bool
is_fresh fresh = true
is_fresh _ = false

abbrev pub is_details : Admission → Bool
is_details details = true
is_details _ = false

abbrev pub add : List String → String → List String
add texts t = if has texts t then texts else texts ++ t ∷ []

abbrev pub with_bundle : Admission → List String → List String
with_bundle (bundled b) bundles = add bundles b
with_bundle _ bundles = bundles

-- The bundles that the receipts name already.
unfoldable pub known_bundles : (String → Admission) → List String → List String → List String
known_bundles admitted [] bundles = bundles
known_bundles admitted (id ∷ ids) bundles =
    known_bundles admitted ids (with_bundle (admitted id) bundles)

-- The update of the receipts of a group.
unfoldable pub bundle_receipts : List String → String → List Receipt → List Receipt
bundle_receipts group b receipts =
    map
      (λ r.
        if has group r.listing_id && not r.has_message && not (is_some r.accepted_at)
        then record r { status = flash_pending; flash_bundle_id = some b }
        else r)
      receipts

-- The loop over the groups.
unfoldable pub bundle_groups :
    (ℕ → List String → String)
    → ℕ
    → List (List String)
    → List Receipt
    → List String
    → List Receipt × List String
bundle_groups bundle_id index [] receipts bundles = (receipts, bundles)
bundle_groups bundle_id index (group ∷ groups) receipts bundles =
    let b = bundle_id index group in
    bundle_groups bundle_id (suc index) groups (bundle_receipts group b receipts) (add bundles b)

abbrev pub admitted_as :
    ℕ → (String → Option CardStatus) → List String → List Receipt → String → Admission
admitted_as now bundle_status ids receipts id =
    admission now bundle_status (receipt_of (create_missing ids receipts) id)

-- The transaction for one chat; it is given up where a text cannot be built.
unfoldable pub admit_chat :
    (List String → Bool)
    → ℕ
    → (ℕ → List String → String)
    → (String → Option CardStatus)
    → ℕ
    → List String
    → List Receipt
    → List String
    → Option Admitted
admit_chat renders max_items bundle_id bundle_status now ids receipts bundles =
    let created = create_missing ids receipts in
    let admitted = admitted_as now bundle_status ids receipts in
    let known = known_bundles admitted ids bundles in
    elim (split_first_signal_listings renders (filter (λ id. is_fresh (admitted id)) ids)
      max_items) [
        | none ↦ none
        | some groups ↦
            let out = bundle_groups bundle_id 0 groups created known in
            some (record {
              receipts = out.0;
              bundles = out.1;
              details = filter (λ id. is_details (admitted id)) ids;
            })
      ]
