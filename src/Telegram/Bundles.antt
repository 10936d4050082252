-- ===== src/Telegram/Bundles.antt =====
-- apps/worker/src/modules/telegram-first-signal.ts: what the loop over the groups of
-- `queueTelegramFirstSignals` leaves of a receipt.
use auto_monitor_bot.Base.{
  ℕ, suc, ◌≡◌, Bool, true, false, not, ◌&&◌, ◌||◌, List, [], ◌∷◌, Option, none, some, arith,
  is_some, any-append, str_eq, str_eq-eq, str_eq_refl, Bool-cases, inl, inr,
}
use Prim.Native.String.{String}
use auto_monitor_bot.Telegram.Policy.{flash_pending, same_status}
use auto_monitor_bot.Telegram.FirstSignals.{
  Receipt, has, add, receipt_of, bundle_receipts, bundle_groups,
}
use auto_monitor_bot.Delivery.Burst.{concat}

abbrev pub has_bundle : List String → Option String → Bool
has_bundle bundles none = false
has_bundle bundles (some b) = has bundles b

-- The receipt of a listing waits for its first signal.
abbrev pub is_ready : Option Receipt → Bool
is_ready none = false
is_ready (some r) = not r.has_message && not (is_some r.accepted_at)

-- The receipt of a listing waits in one of the bundles.
abbrev pub is_placed : List String → Option Receipt → Bool
is_placed bundles none = false
is_placed bundles (some r) =
    not r.has_message
    && not (is_some r.accepted_at)
    && same_status r.status flash_pending
    && has_bundle bundles r.flash_bundle_id

pub has-add :
    (texts : List String) (t u : String) → has (add texts t) u ≡ (has texts u || str_eq t u)
has-add texts t u = ground (arith, any-append (λ x. str_eq x u) texts (t ∷ []), str_eq-eq t u)

has_bundle-add :
    (bundles : List String) (b : String) (o : Option String)
    → has_bundle bundles o ≡ true
    → has_bundle (add bundles b) o ≡ true
has_bundle-add bundles b none h = h
has_bundle-add bundles b (some c) h = ground (arith, has-add bundles b c)

bundle_receipts-placed :
    (group : List String) (b : String) (bundles : List String) (id : String) (rs : List Receipt)
    → is_placed bundles (receipt_of rs id) ≡ true
    → is_placed (add bundles b) (receipt_of (bundle_receipts group b rs) id) ≡ true
unfolding bundle_receipts
bundle_receipts-placed group b bundles id [] h = absurd (ground arith)
bundle_receipts-placed group b bundles id (r ∷ rs) h = ground (
  arith,
  bundle_receipts-placed group b bundles id rs,
  has-add bundles b b,
  str_eq_refl b,
  has_bundle-add bundles b r.flash_bundle_id,
)

bundle_receipts-ready :
    (group : List String) (b : String) (bundles : List String) (id : String) (rs : List Receipt)
    → is_ready (receipt_of rs id) ≡ true
    → is_ready (receipt_of (bundle_receipts group b rs) id) ≡ true
unfolding bundle_receipts
bundle_receipts-ready group b bundles id [] h = absurd (ground arith)
bundle_receipts-ready group b bundles id (r ∷ rs) h =
    ground (arith, bundle_receipts-ready group b bundles id rs)

bundle_receipts-joins :
    (group : List String) (b : String) (bundles : List String) (id : String) (rs : List Receipt)
    → is_ready (receipt_of rs id) ≡ true
    → has group id ≡ true
    → is_placed (add bundles b) (receipt_of (bundle_receipts group b rs) id) ≡ true
unfolding bundle_receipts
bundle_receipts-joins group b bundles id [] h g = absurd (ground arith)
bundle_receipts-joins group b bundles id (r ∷ rs) h g = ground (
  arith,
  bundle_receipts-joins group b bundles id rs,
  has-add bundles b b,
  str_eq_refl b,
  str_eq-eq r.listing_id id,
)

-- The loop over the groups leaves no listing of a group without its bundle.
pub bundle_groups-has :
    (bundle_id : ℕ → List String → String) (index : ℕ) (groups : List (List String))
    (rs : List Receipt) (bundles : List String) (b : String)
    → has bundles b ≡ true
    → has (bundle_groups bundle_id index groups rs bundles).1 b ≡ true
unfolding bundle_groups
bundle_groups-has bundle_id index [] rs bundles b h = h
bundle_groups-has bundle_id index (g ∷ groups) rs bundles b h =
    let c = bundle_id index g in
    bundle_groups-has bundle_id (suc index) groups (bundle_receipts g c rs) (add bundles c) b
      (ground (arith, has-add bundles c b))

bundle_groups-placed :
    (bundle_id : ℕ → List String → String) (index : ℕ) (groups : List (List String))
    (rs : List Receipt) (bundles : List String) (id : String)
    → is_placed bundles (receipt_of rs id) ≡ true
    → let out = bundle_groups bundle_id index groups rs bundles in
      is_placed out.1 (receipt_of out.0 id) ≡ true
unfolding bundle_groups
bundle_groups-placed bundle_id index [] rs bundles id h = h
bundle_groups-placed bundle_id index (g ∷ groups) rs bundles id h =
    let c = bundle_id index g in
    bundle_groups-placed bundle_id (suc index) groups (bundle_receipts g c rs) (add bundles c) id
      (bundle_receipts-placed g c bundles id rs h)

pub bundle_groups-joins :
    (bundle_id : ℕ → List String → String) (index : ℕ) (groups : List (List String))
    (rs : List Receipt) (bundles : List String) (id : String)
    → is_ready (receipt_of rs id) ≡ true
    → has (concat groups) id ≡ true
    → let out = bundle_groups bundle_id index groups rs bundles in
      is_placed out.1 (receipt_of out.0 id) ≡ true
unfolding bundle_groups
bundle_groups-joins bundle_id index [] rs bundles id h m = absurd (ground arith)
bundle_groups-joins bundle_id index (g ∷ groups) rs bundles id h m =
    let c = bundle_id index g in
    elim (Bool-cases (has g id)) [
      | inl here ↦
          bundle_groups-placed bundle_id (suc index) groups (bundle_receipts g c rs) (add bundles c)
            id (bundle_receipts-joins g c bundles id rs h here)
      | inr there ↦
          bundle_groups-joins bundle_id (suc index) groups (bundle_receipts g c rs) (add bundles c)
            id (bundle_receipts-ready g c bundles id rs h)
            (ground (arith, any-append (λ x. str_eq x id) g (concat groups)))
    ]

-- The receipt of a listing names one of the bundles.
abbrev pub is_named : List String → Option Receipt → Bool
is_named bundles none = false
is_named bundles (some r) = has_bundle bundles r.flash_bundle_id

pub is_placed-is_named :
    (bundles : List String) (o : Option Receipt)
    → is_placed bundles o ≡ true
    → is_named bundles o ≡ true
is_placed-is_named bundles none h = h
is_placed-is_named bundles (some r) h = ground arith

bundle_receipts-named :
    (group : List String) (b : String) (bundles : List String) (id : String) (rs : List Receipt)
    → is_named bundles (receipt_of rs id) ≡ true
    → is_named (add bundles b) (receipt_of (bundle_receipts group b rs) id) ≡ true
unfolding bundle_receipts
bundle_receipts-named group b bundles id [] h = absurd (ground arith)
bundle_receipts-named group b bundles id (r ∷ rs) h = ground (
  arith,
  bundle_receipts-named group b bundles id rs,
  has-add bundles b b,
  str_eq_refl b,
  has_bundle-add bundles b r.flash_bundle_id,
)

pub bundle_groups-named :
    (bundle_id : ℕ → List String → String) (index : ℕ) (groups : List (List String))
    (rs : List Receipt) (bundles : List String) (id : String)
    → is_named bundles (receipt_of rs id) ≡ true
    → let out = bundle_groups bundle_id index groups rs bundles in
      is_named out.1 (receipt_of out.0 id) ≡ true
unfolding bundle_groups
bundle_groups-named bundle_id index [] rs bundles id h = h
bundle_groups-named bundle_id index (g ∷ groups) rs bundles id h =
    let c = bundle_id index g in
    bundle_groups-named bundle_id (suc index) groups (bundle_receipts g c rs) (add bundles c) id
      (bundle_receipts-named g c bundles id rs h)
