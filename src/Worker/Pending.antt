-- ===== src/Worker/Pending.antt =====
-- apps/worker/src/modules/bounded-parallel.ts: the promise that settles next.
use auto_monitor_bot.Base.{
  ℕ, zero, suc, ◌+◌, ◌≡◌, refl, inl, inr, Bool, true, List, [], ◌∷◌, none, some, arith, ◌==◌,
  if◌then◌else◌, length, count_by, Option-cases,
}
use auto_monitor_bot.Worker.Parallel.{pick}

pub by_eq : (i j : ℕ) → (i == j) ≡ true → i ≡ j
by_eq i j h = ground arith

pub count_by-pick :
    (q : ℕ → Bool) (p : ℕ) (is : List ℕ) (found : ℕ × List ℕ)
    → pick p is ≡ some found
    → count_by q is ≡ (if q found.0 then 1 else 0) + count_by q found.1
unfolding pick
count_by-pick q p [] found e = ground arith
count_by-pick q p (i ∷ []) found e = ground arith
count_by-pick q zero (i ∷ j ∷ is) found e = ground arith
count_by-pick q (suc p) (i ∷ j ∷ is) found e = elim (Option-cases (pick p (j ∷ is))) [
  | inl empty ↦ ground arith
  | inr (f, g) ↦ ground (arith, count_by-pick q p (j ∷ is) f g)
]

pub length-pick :
    (p : ℕ) (is : List ℕ) (found : ℕ × List ℕ)
    → pick p is ≡ some found
    → length is ≡ suc (length found.1)
unfolding pick
length-pick p [] found e = ground arith
length-pick p (i ∷ []) found e = ground arith
length-pick zero (i ∷ j ∷ is) found e = ground arith
length-pick (suc p) (i ∷ j ∷ is) found e = elim (Option-cases (pick p (j ∷ is))) [
  | inl empty ↦ ground arith
  | inr (f, g) ↦ ground (arith, length-pick p (j ∷ is) f g)
]

pub pick-none : (p : ℕ) (is : List ℕ) → pick p is ≡ none → length is ≡ 0
unfolding pick
pick-none p [] e = refl
pick-none p (i ∷ []) e = ground arith
pick-none zero (i ∷ j ∷ is) e = ground arith
pick-none (suc p) (i ∷ j ∷ is) e = elim (Option-cases (pick p (j ∷ is))) [
  | inl empty ↦ ground (arith, pick-none p (j ∷ is) empty)
  | inr (f, g) ↦ ground arith
]
