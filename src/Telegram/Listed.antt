-- ===== src/Telegram/Listed.antt =====
-- apps/worker/src/modules/telegram-first-signal.ts: the listings of a transaction in the lists that it
-- makes of them.
use auto_monitor_bot.Base.{
  ◌||◌, ◌≡◌, ap, sym, subst, ◌∙◌, Bool, true, ◌||◌, List, [], ◌∷◌, ◌++◌, arith, if◌then◌else◌,
  is_some, filter, str_eq, str_eq-eq, str_eq_refl, All, Bool-cases, inl, inr,
}
use Prim.Native.String.{String}
use auto_monitor_bot.Telegram.FirstSignals.{
  Receipt, has, receipt_of, create_missing, Admission, closed, details, waits, fresh, bundled,
  new_receipt, with_bundle, known_bundles,
}
use auto_monitor_bot.Telegram.Bundles.{has-add}

pub has-filter :
    (p : String → Bool) (ids : List String) (id : String)
    → has ids id ≡ true
    → p id ≡ true
    → has (filter p ids) id ≡ true
has-filter p [] id h q = absurd (ground arith)
has-filter p (x ∷ ids) id h q = elim (Bool-cases (str_eq x id)) [
  | inl same ↦
      let moved : p x ≡ true = subst (λ t. p t ≡ true) (sym (str_eq-eq x id same)) q in ground arith
  | inr other ↦ ground (arith, has-filter p ids id)
]

receipt_of-append :
    (rs : List Receipt) (r : Receipt) (id : String)
    → is_some (receipt_of (rs ++ r ∷ []) id)
      ≡ (is_some (receipt_of rs id) || str_eq r.listing_id id)
receipt_of-append [] r id = ground arith
receipt_of-append (x ∷ rs) r id = ground (arith, receipt_of-append rs r id)

-- The receipts behind one listing of `createMany`.
abbrev with_receipt : String → List Receipt → List Receipt
with_receipt x rs = if is_some (receipt_of rs x) then rs else rs ++ new_receipt x ∷ []

create_missing-keeps :
    (ids : List String) (rs : List Receipt) (id : String)
    → is_some (receipt_of rs id) ≡ true
    → is_some (receipt_of (create_missing ids rs) id) ≡ true
unfolding create_missing
create_missing-keeps [] rs id h = h
create_missing-keeps (x ∷ ids) rs id h =
    create_missing-keeps ids (with_receipt x rs) id
      (ground (arith, receipt_of-append rs (new_receipt x) id))

pub create_missing-has :
    (ids : List String) (rs : List Receipt) (id : String)
    → has ids id ≡ true
    → is_some (receipt_of (create_missing ids rs) id) ≡ true
unfolding create_missing
create_missing-has [] rs id h = absurd (ground arith)
create_missing-has (x ∷ ids) rs id h = elim (Bool-cases (str_eq x id)) [
  | inl same ↦ create_missing-keeps ids (with_receipt x rs) id (
      subst (λ t. is_some (receipt_of (with_receipt x rs) t) ≡ true) (str_eq-eq x id same)
        (ground (arith, receipt_of-append rs (new_receipt x) x, str_eq_refl x)))
  | inr other ↦ create_missing-has ids (with_receipt x rs) id (ground arith)
]

with_bundle-keeps :
    (a : Admission) (bundles : List String) (b : String)
    → has bundles b ≡ true
    → has (with_bundle a bundles) b ≡ true
with_bundle-keeps closed bundles b h = h
with_bundle-keeps details bundles b h = h
with_bundle-keeps waits bundles b h = h
with_bundle-keeps fresh bundles b h = h
with_bundle-keeps (bundled c) bundles b h = ground (arith, has-add bundles c b)

known_bundles-keeps :
    (admitted : String → Admission) (ids bundles : List String) (b : String)
    → has bundles b ≡ true
    → has (known_bundles admitted ids bundles) b ≡ true
unfolding known_bundles
known_bundles-keeps admitted [] bundles b h = h
known_bundles-keeps admitted (x ∷ ids) bundles b h =
    known_bundles-keeps admitted ids (with_bundle (admitted x) bundles) b
      (with_bundle-keeps (admitted x) bundles b h)

pub known_bundles-has :
    (admitted : String → Admission) (ids bundles : List String) (id b : String)
    → has ids id ≡ true
    → admitted id ≡ bundled b
    → has (known_bundles admitted ids bundles) b ≡ true
unfolding known_bundles
known_bundles-has admitted [] bundles id b h e = absurd (ground arith)
known_bundles-has admitted (x ∷ ids) bundles id b h e = elim (Bool-cases (str_eq x id)) [
  | inl same ↦ known_bundles-keeps admitted ids (with_bundle (admitted x) bundles) b (
      subst (λ a. has (with_bundle a bundles) b ≡ true)
        (sym e ∙ ap admitted (sym (str_eq-eq x id same)))
        (ground (arith, has-add bundles b b, str_eq_refl b)))
  | inr other ↦
      known_bundles-has admitted ids (with_bundle (admitted x) bundles) id b (ground arith) e
]

pub All-rows :
    (renders : List String → Bool) (rows : List String)
    → ((t : String) → renders (t ∷ []) ≡ true)
    → All (λ row. renders (row ∷ []) ≡ true) rows
All-rows renders [] single = tt
All-rows renders (row ∷ rows) single = (single row, All-rows renders rows single)
