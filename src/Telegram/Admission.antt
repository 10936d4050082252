-- ===== src/Telegram/Admission.antt =====
-- apps/worker/src/modules/telegram-first-signal.ts: no listing is lost in the transaction of
-- `queueTelegramFirstSignals`.
use auto_monitor_bot.Base.{
  false, not, ◌&&◌, ◌||◌, Option-cases, ◌⊎◌, ℕ, ◌≡◌, refl, ap, sym, subst, ◌∙◌, Bool, true, ◌||◌,
  List, [], ◌∷◌, Option, none, some, arith, if◌then◌else◌, is_some, filter, Bool-cases, inl, inr,
}
use Prim.Native.String.{String}
use auto_monitor_bot.Telegram.Policy.{permanent, quarantined, CardStatus}
use auto_monitor_bot.Telegram.FirstSignals.{
  bundle_admission, Receipt, Admitted, has, receipt_of, create_missing, details, fresh, bundled,
  admission, is_fresh, is_details, known_bundles, bundle_groups, admitted_as, admit_chat,
}
use auto_monitor_bot.Telegram.Card.{is_in_flight, is_closed, is_later}
use auto_monitor_bot.Telegram.Bundles.{
  has_bundle, is_named, is_placed-is_named, bundle_groups-named, is_ready, bundle_groups-joins,
}
use auto_monitor_bot.Delivery.Burst.{concat, split_first_signal_listings-IsSplit}
use auto_monitor_bot.Telegram.Listed.{has-filter, create_missing-has, known_bundles-has, All-rows}

admission-ready :
    (now : ℕ) (bundle_status : String → Option CardStatus) (o : Option Receipt)
    → is_some o ≡ true
    → is_fresh (admission now bundle_status o) ≡ true
    → is_ready o ≡ true
unfolding admission
admission-ready now bundle_status none s f = absurd (ground arith)
admission-ready now bundle_status (some r) s f = ground arith

-- The bundle that a receipt names has failed for good.
abbrev pub is_failed_bundle : (String → Option CardStatus) → Option String → Bool
is_failed_bundle bundle_status none = false
is_failed_bundle bundle_status (some b) = elim (bundle_status b) [
  | none ↦ false
  | some permanent ↦ true
  | some quarantined ↦ true
  | some _ ↦ false
]

-- A receipt is due: nothing is sent and it is not closed; and its first signal was accepted, or no send
-- of it is under way, its next attempt is not later, and its bundle has not failed for good.
abbrev pub is_due : ℕ → (String → Option CardStatus) → Receipt → Bool
is_due now bundle_status r =
    not r.has_message
    && not (is_closed r.status)
    && (is_some r.accepted_at
        || not (is_in_flight r.status)
          && not (is_later now r.next_attempt_at)
          && not (is_failed_bundle bundle_status r.flash_bundle_id))

-- A listing is taken care of: its detail card is to be sent where its first signal was accepted, and
-- else a bundle is to be queued that its receipt names.
abbrev pub is_cared_for : Receipt → Admitted → String → Bool
is_cared_for r out id =
    if is_some r.accepted_at
    then has out.details id
    else is_named out.bundles (receipt_of out.receipts id)

is_due-details :
    (now : ℕ) (bundle_status : String → Option CardStatus) (r : Receipt)
    → is_due now bundle_status r ≡ true
    → is_some r.accepted_at ≡ true
    → admission now bundle_status (some r) ≡ details
unfolding admission
is_due-details now bundle_status r d a = ground arith

is_due-bundle :
    (now : ℕ) (bundle_status : String → Option CardStatus) (r : Receipt)
    → is_due now bundle_status r ≡ true
    → is_some r.accepted_at ≡ false
    → (admission now bundle_status (some r) ≡ bundle_admission bundle_status r.flash_bundle_id)
      × (is_failed_bundle bundle_status r.flash_bundle_id ≡ false)
unfolding admission
is_due-bundle now bundle_status r d a = (ground arith, ground arith)

-- A bundle that has not failed is queued again, and a listing without one is fresh.
bundle_admission-cases :
    (bundle_status : String → Option CardStatus) (o : Option String)
    → is_failed_bundle bundle_status o ≡ false
    → (bundle_admission bundle_status o ≡ fresh)
      ⊎ ((b : String) × (o ≡ some b) × (bundle_admission bundle_status o ≡ bundled b))
bundle_admission-cases bundle_status none h = inl refl
bundle_admission-cases bundle_status (some b) h = elim (Option-cases (bundle_status b)) [
  | inl missing ↦ inl (ground arith)
  | inr (status, e) ↦ inr (b, refl, ground (arith, e))
]

module _ (renders : List String → Bool) (max_items : ℕ) (bundle_id : ℕ → List String → String)
    (bundle_status : String → Option CardStatus) (now : ℕ) where
  -- What the transaction hands on, by the groups of its fresh listings.
  abbrev grouped : List String → List Receipt → List String → List (List String) → Admitted
  grouped ids receipts bundles groups =
      let admitted = admitted_as now bundle_status ids receipts in
      let out =
        bundle_groups bundle_id 0 groups (create_missing ids receipts)
          (known_bundles admitted ids bundles) in
      record {
        receipts = out.0;
        bundles = out.1;
        details = filter (λ id. is_details (admitted id)) ids;
      }

  details-is_cared_for :
      (ids : List String) (receipts : List Receipt) (bundles : List String)
      (groups : List (List String)) (id : String)
      → admitted_as now bundle_status ids receipts id ≡ details
      → has ids id ≡ true
      → has (grouped ids receipts bundles groups).details id ≡ true
  details-is_cared_for ids receipts bundles groups id e member =
      has-filter (λ t. is_details (admitted_as now bundle_status ids receipts t)) ids id member
        (ap is_details e)

  fresh-is_cared_for :
      (ids : List String) (receipts : List Receipt) (bundles : List String)
      (groups : List (List String)) (id : String)
      → admitted_as now bundle_status ids receipts id ≡ fresh
      → concat groups ≡ filter (λ t. is_fresh (admitted_as now bundle_status ids receipts t)) ids
      → has ids id ≡ true
      → let out = grouped ids receipts bundles groups in
        is_named out.bundles (receipt_of out.receipts id) ≡ true
  fresh-is_cared_for ids receipts bundles groups id e g member =
      let admitted = admitted_as now bundle_status ids receipts in
      let out = grouped ids receipts bundles groups in
      is_placed-is_named out.bundles (receipt_of out.receipts id) (
        bundle_groups-joins bundle_id 0 groups (create_missing ids receipts)
          (known_bundles admitted ids bundles) id
          (admission-ready now bundle_status (receipt_of (create_missing ids receipts) id)
            (create_missing-has ids receipts id member) (ap is_fresh e))
          (subst (λ rows. has rows id ≡ true) (sym g)
            (has-filter (λ t. is_fresh (admitted t)) ids id member (ap is_fresh e))))

  bundled-is_cared_for :
      (ids : List String) (receipts : List Receipt) (bundles : List String)
      (groups : List (List String)) (id b : String) (r : Receipt)
      → admitted_as now bundle_status ids receipts id ≡ bundled b
      → receipt_of (create_missing ids receipts) id ≡ some r
      → r.flash_bundle_id ≡ some b
      → has ids id ≡ true
      → let out = grouped ids receipts bundles groups in
        is_named out.bundles (receipt_of out.receipts id) ≡ true
  bundled-is_cared_for ids receipts bundles groups id b r e h f member =
      let admitted = admitted_as now bundle_status ids receipts in
      let known = known_bundles admitted ids bundles in
      bundle_groups-named bundle_id 0 groups (create_missing ids receipts) known id (
        ap (λ o. is_named known o) h
        ∙ ap (λ o. has_bundle known o) f
        ∙ known_bundles-has admitted ids bundles id b member e)

  grouped-is_cared_for :
      (ids : List String) (receipts : List Receipt) (bundles : List String)
      (groups : List (List String)) (id : String) (r : Receipt)
      → receipt_of (create_missing ids receipts) id ≡ some r
      → is_due now bundle_status r ≡ true
      → concat groups ≡ filter (λ t. is_fresh (admitted_as now bundle_status ids receipts t)) ids
      → has ids id ≡ true
      → is_cared_for r (grouped ids receipts bundles groups) id ≡ true
  grouped-is_cared_for ids receipts bundles groups id r h due g member =
      let as_receipt = ap (λ o. admission now bundle_status o) h in
      elim (Bool-cases (is_some r.accepted_at)) [
        | inl accepted ↦ ground (
          arith,
          details-is_cared_for ids receipts bundles groups id
              (as_receipt ∙ is_due-details now bundle_status r due accepted) member,
        )
        | inr unsent ↦
            let (as_bundle, alive) = is_due-bundle now bundle_status r due unsent in
            elim (bundle_admission-cases bundle_status r.flash_bundle_id alive) [
              | inl none_yet ↦ ground (
                arith,
                fresh-is_cared_for ids receipts bundles groups id
                    (as_receipt ∙ as_bundle ∙ none_yet) g member,
              )
              | inr (b, f, e) ↦ ground (
                arith,
                bundled-is_cared_for ids receipts bundles groups id b r (as_receipt ∙ as_bundle ∙ e)
                    h f member,
              )
            ]
      ]

  -- Where each listing alone can be rendered, the transaction for a chat succeeds and loses no listing
  -- that is due: its detail card is to be sent where its first signal was accepted, and else a bundle is
  -- to be queued that its receipt names, the old one or a new one. Not due is a listing that is sent or
  -- closed, and, before its first signal was accepted, one with a send under way, with a later next
  -- attempt, or with a bundle that has failed for good.
  pub admit_chat-is_cared_for :
      (ids : List String) (receipts : List Receipt) (bundles : List String) (id : String)
      (r : Receipt)
      → ((t : String) → renders (t ∷ []) ≡ true)
      → has ids id ≡ true
      → receipt_of (create_missing ids receipts) id ≡ some r
      → is_due now bundle_status r ≡ true
      → (out : Admitted) × (admit_chat renders max_items bundle_id bundle_status now ids receipts
            bundles
          ≡ some out)
        × (is_cared_for r out id ≡ true)
  unfolding admit_chat
  admit_chat-is_cared_for ids receipts bundles id r single member h due =
      let admitted = admitted_as now bundle_status ids receipts in
      let rows = filter (λ t. is_fresh (admitted t)) ids in
      let split =
        split_first_signal_listings-IsSplit renders rows max_items (All-rows renders rows single) in
      let groups = split.0 in
      (
        grouped ids receipts bundles groups,
        ap
            (λ (o : Option (List (List String))). elim o [
              | none ↦ none
              | some gs ↦ some (grouped ids receipts bundles gs)
            ])
            split.1,
        grouped-is_cared_for ids receipts bundles groups id r h due split.2.0 member,
      )
