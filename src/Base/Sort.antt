-- ===== src/Base/Sort.antt =====
-- `Array.prototype.sort` with a comparator: a stable sort. `less y x` says that the comparator
-- puts `y` strictly before `x`.
use Prim.Native.Nat.{ℕ, suc, ◌+◌}
use mathlib.Core.Path.{◌≡◌, refl, ap, ◌∙◌}
use mathlib.Core.Bool.{Bool, true, false}
use mathlib.Core.Logic.{inl, inr}
use mathlib.Core.List.{List, [], ◌∷◌, ◌++◌}
use native.Mathlib.Omega.{arith}
use auto_monitor_bot.Base.Tests.{if◌then◌else◌, Bool-cases, if_cases}
use auto_monitor_bot.Base.Lists.{length, All, filter}

module _ {ℓ} {A : Type ℓ} where
  unfoldable pub insert_by : (A → A → Bool) → A → List A → List A
  insert_by less x [] = x ∷ []
  insert_by less x (y ∷ ys) =
      let rest = insert_by less x ys in if less y x then y ∷ rest else x ∷ y ∷ ys

  unfoldable pub sort_by : (A → A → Bool) → List A → List A
  unfolding insert_by
  sort_by less [] = []
  sort_by less (x ∷ xs) = insert_by less x (sort_by less xs)

  -- How many elements pass a test.
  abbrev pub count_by : (A → Bool) → List A → ℕ
  count_by p [] = 0
  count_by p (x ∷ xs) = let rest = count_by p xs in if p x then suc rest else rest

  pub count_by-append :
      (p : A → Bool) (xs ys : List A) → count_by p (xs ++ ys) ≡ count_by p xs + count_by p ys
  count_by-append p [] ys = omega arith
  count_by-append p (x ∷ xs) ys = ground (arith, count_by-append p xs ys)

  pub count_by-insert_by :
      (less : A → A → Bool) (p : A → Bool) (x : A) (xs : List A)
      → count_by p (insert_by less x xs) ≡ count_by p (x ∷ xs)
  unfolding insert_by
  count_by-insert_by less p x [] = refl
  count_by-insert_by less p x (y ∷ ys) = ground (arith, count_by-insert_by less p x ys)

  -- Sorting keeps how often each element occurs.
  pub count_by-sort_by :
      (less : A → A → Bool) (p : A → Bool) (xs : List A)
      → count_by p (sort_by less xs) ≡ count_by p xs
  unfolding sort_by
  count_by-sort_by less p [] = refl
  count_by-sort_by less p (x ∷ xs) =
      count_by-insert_by less p x (sort_by less xs) ∙ ground (arith, count_by-sort_by less p xs)

  pub length-insert_by :
      (less : A → A → Bool) (x : A) (xs : List A) → length (insert_by less x xs) ≡ suc (length xs)
  unfolding insert_by
  length-insert_by less x [] = refl
  length-insert_by less x (y ∷ ys) = ground (arith, length-insert_by less x ys)

  pub length-sort_by : (less : A → A → Bool) (xs : List A) → length (sort_by less xs) ≡ length xs
  unfolding sort_by
  length-sort_by less [] = refl
  length-sort_by less (x ∷ xs) =
      length-insert_by less x (sort_by less xs) ∙ ap suc (length-sort_by less xs)

  -- No element stands behind one that the comparator puts after it.
  abbrev pub IsSortedBy : (A → A → Bool) → List A → Type 0
  IsSortedBy less [] = Unit
  IsSortedBy less (x ∷ xs) = All (λ y. less y x ≡ false) xs × IsSortedBy less xs

module _ {ℓ} {A : Type ℓ} (less : A → A → Bool)
    (less_asym : (x y : A) → less x y ≡ true → less y x ≡ false)
    (less_trans : (x y z : A) → less y x ≡ false → less z y ≡ false → less z x ≡ false) where
  All-insert_by :
      (x z : A) (ys : List A)
      → less x z ≡ false
      → All (λ y. less y z ≡ false) ys
      → All (λ y. less y z ≡ false) (insert_by less x ys)
  unfolding insert_by
  All-insert_by x z [] h a = (h, tt)
  All-insert_by x z (y ∷ ys) h a = elim (Bool-cases (less y x)) [
    | inl before ↦ rw before (a.0, All-insert_by x z ys h a.1)
    | inr behind ↦ rw behind (h, a)
  ]

  All-less_trans :
      (x y : A) (ys : List A)
      → less y x ≡ false
      → All (λ w. less w y ≡ false) ys
      → All (λ w. less w x ≡ false) ys
  All-less_trans x y [] h a = tt
  All-less_trans x y (z ∷ ys) h a = (less_trans x y z h a.0, All-less_trans x y ys h a.1)

  insert_by-IsSortedBy :
      (x : A) (xs : List A) → IsSortedBy less xs → IsSortedBy less (insert_by less x xs)
  unfolding insert_by
  insert_by-IsSortedBy x [] s = (tt, tt)
  insert_by-IsSortedBy x (y ∷ ys) s = elim (Bool-cases (less y x)) [
    | inl before ↦
        rw before (All-insert_by x y ys (less_asym y x before) s.0, insert_by-IsSortedBy x ys s.1)
    | inr behind ↦ rw behind ((behind, All-less_trans x y ys behind s.0), s)
  ]

  -- A comparator that is a strict weak order sorts.
  pub sort_by-IsSortedBy : (xs : List A) → IsSortedBy less (sort_by less xs)
  unfolding sort_by
  sort_by-IsSortedBy [] = tt
  sort_by-IsSortedBy (x ∷ xs) = insert_by-IsSortedBy x (sort_by less xs) (sort_by-IsSortedBy xs)

-- What holds where a test passes holds of what the test leaves.
pub All-filter {ℓ κ} :
    {A : Type ℓ} (R : A → Type κ) (q : A → Bool) (xs : List A)
    → ((x : A) → q x ≡ true → R x)
    → All R (filter q xs)
All-filter R q [] h = tt
All-filter R q (x ∷ xs) h =
    if_cases (λ (ys : List _). All R ys) (q x) (λ e. (h x e, All-filter R q xs h))
      (λ e. All-filter R q xs h)

-- What holds of all members holds of them in another order.
insert_by-All {ℓ κ} :
    {A : Type ℓ} (R : A → Type κ) (less : A → A → Bool) (x : A) (xs : List A)
    → R x
    → All R xs
    → All R (insert_by less x xs)
unfolding insert_by
insert_by-All R less x [] r a = (r, tt)
insert_by-All R less x (y ∷ ys) r a =
    if_cases (λ (zs : List _). All R zs) (less y x) (λ e. (a.0, insert_by-All R less x ys r a.1))
      (λ e. (r, a))

pub sort_by-All {ℓ κ} :
    {A : Type ℓ} (R : A → Type κ) (less : A → A → Bool) (xs : List A)
    → All R xs
    → All R (sort_by less xs)
unfolding sort_by
sort_by-All R less [] a = tt
sort_by-All R less (x ∷ xs) a =
    insert_by-All R less x (sort_by less xs) a.0 (sort_by-All R less xs a.1)
