-- ===== src/Hygiene/Preserved.antt =====
-- packages/shared/src/utils/source-search-state-hygiene.ts: the member of a group that is kept.
use auto_monitor_bot.Base.{
  sort_by-All, ◌⊎◌, ◌<◌, length, length-sort_by, str_eq_refl, ◌≡◌, refl, ap, sym, subst, Bool, true,
  false, not, List, [], ◌∷◌, Option, none, some, arith, filter, find, sort_by, str_eq, opt_str_eq,
  All, Bool-cases, inl, inr, str_eq-eq,
}
use Prim.Native.String.{String}
use auto_monitor_bot.Hygiene.SearchStates.{
  SearchState, preserved_state, is_preserved, redundant_states, has_id_of, newer, first_of,
}

-- A test of an optional state.
abbrev pub holds_of : (SearchState → Bool) → Option SearchState → Bool
holds_of r none = true
holds_of r (some s) = r s

find-holds :
    (r q : SearchState → Bool) (xs : List SearchState)
    → All (λ x. r x ≡ true) xs
    → holds_of r (find q xs) ≡ true
find-holds r q [] a = refl
find-holds r q (x ∷ xs) a = ground (arith, a.0, find-holds r q xs a.1)

first_of-holds :
    (r : SearchState → Bool) (xs : List SearchState)
    → All (λ x. r x ≡ true) xs
    → holds_of r (first_of xs) ≡ true
first_of-holds r [] a = refl
first_of-holds r (x ∷ xs) a = a.0

-- What a search finds, or the head of a list, has what all have.
find-picks {κ} :
    (R : SearchState → Type κ) (q : SearchState → Bool) (xs : List SearchState)
    → All R xs
    → (find q xs ≡ none) ⊎ ((p : SearchState) × (find q xs ≡ some p) × R p)
find-picks R q [] a = inl refl
find-picks R q (x ∷ xs) a = elim (Bool-cases (q x)) [
  | inl here ↦ inr (x, ground arith, a.0)
  | inr there ↦ elim (find-picks R q xs a.1) [
    | inl n ↦ inl (ground (arith, n))
    | inr (p, e, r) ↦ inr (p, ground (arith, e), r)
  ]
]

first_of-picks {κ} :
    (R : SearchState → Type κ) (xs : List SearchState)
    → 0 < length xs
    → All R xs
    → (p : SearchState) × (first_of xs ≡ some p) × R p
first_of-picks R [] h a = absurd (omega (arith, h))
first_of-picks R (x ∷ xs) h a = (x, refl, a.0)

pub All-zip {ℓ κ μ} :
    {A : Type ℓ} (P : A → Type κ) (Q : A → Type μ) (xs : List A)
    → All P xs
    → All Q xs
    → All (λ x. P x × Q x) xs
All-zip P Q [] a b = tt
All-zip P Q (x ∷ xs) a b = ((a.0, b.0), All-zip P Q xs a.1 b.1)

has_id_of-weaker :
    (y : SearchState) (ys xs : List SearchState)
    → All (λ x. has_id_of ys x ≡ true) xs
    → All (λ x. has_id_of (y ∷ ys) x ≡ true) xs
has_id_of-weaker y ys [] a = tt
has_id_of-weaker y ys (x ∷ xs) a = (ground (arith, a.0), has_id_of-weaker y ys xs a.1)

pub has_id_of-own : (xs : List SearchState) → All (λ x. has_id_of xs x ≡ true) xs
has_id_of-own [] = tt
has_id_of-own (x ∷ xs) =
    (ground (arith, str_eq_refl x.id), has_id_of-weaker x xs xs (has_id_of-own xs))

pub has_id_of-filled :
    (xs : List SearchState) (s : SearchState) → has_id_of xs s ≡ true → 0 < length xs
has_id_of-filled [] s h = absurd (ground arith)
has_id_of-filled (x ∷ xs) s h = omega arith

-- A group that is not empty keeps a member.
pub preserved_state-picks {κ} :
    (before : String → String → Bool) (R : SearchState → Type κ) (preserve : Option String)
    (members : List SearchState)
    → 0 < length members
    → All R members
    → (p : SearchState) × (preserved_state before preserve members ≡ some p) × R p
unfolding preserved_state
preserved_state-picks before R preserve members h a =
    elim (find-picks R (λ s. opt_str_eq (some s.id) preserve) members a) [
      | inl n ↦
          let (p, e, r) =
            first_of-picks R (sort_by (newer before) members)
              (omega (arith, h, length-sort_by (newer before) members))
              (sort_by-All R (newer before) members a) in
          (p, ground (arith, n, e), r)
      | inr (p, e, r) ↦ (p, ground (arith, e), r)
    ]

module _ (before : String → String → Bool) where
  -- What holds of the members of a group holds of the one that is kept.
  pub preserved_state-holds :
      (r : SearchState → Bool) (preserve : Option String) (members : List SearchState)
      → All (λ x. r x ≡ true) members
      → holds_of r (preserved_state before preserve members) ≡ true
  unfolding preserved_state
  preserved_state-holds r preserve members a = ground (
    arith,
    find-holds r (λ s. opt_str_eq (some s.id) preserve) members a,
    first_of-holds r (sort_by (newer before) members)
        (sort_by-All (λ x. r x ≡ true) (newer before) members a),
  )

  others-has_id_of :
      (p : SearchState) (xs : List SearchState)
      → has_id_of (filter (λ s. not (str_eq s.id p.id)) xs) p ≡ false
  others-has_id_of p [] = refl
  others-has_id_of p (x ∷ xs) = ground (arith, others-has_id_of p xs)

  -- The member that is kept is not redundant.
  pub redundant_states-preserved :
      (preserve : Option String) (members : List SearchState) (p : SearchState)
      → preserved_state before preserve members ≡ some p
      → has_id_of (redundant_states before preserve members) p ≡ false
  unfolding redundant_states
  redundant_states-preserved preserve members p h =
      rw h (ground (arith, others-has_id_of p members))

is_preserved-id :
    (o : Option SearchState) (x s : SearchState) → x.id ≡ s.id → is_preserved o x ≡ is_preserved o s
is_preserved-id none x s e = refl
is_preserved-id (some p) x s e = ap (λ id. str_eq id p.id) e

-- A member that its group does not delete is the one that is kept.
filter-preserved :
    (o : Option SearchState) (s : SearchState) (xs : List SearchState)
    → has_id_of xs s ≡ true
    → has_id_of (filter (λ x. not (is_preserved o x)) xs) s ≡ false
    → is_preserved o s ≡ true
filter-preserved o s [] m k = absurd (ground arith)
filter-preserved o s (x ∷ xs) m k = elim (Bool-cases (str_eq x.id s.id)) [
  | inl same ↦ let moved = is_preserved-id o x s (str_eq-eq x.id s.id same) in ground arith
  | inr other ↦ filter-preserved o s xs (ground arith) (ground arith)
]

same_preserved :
    (o : Option SearchState) (s t : SearchState)
    → is_preserved o s ≡ true
    → is_preserved o t ≡ true
    → str_eq s.id t.id ≡ true
same_preserved none s t hs ht = absurd (ground arith)
same_preserved (some p) s t hs ht =
    subst (λ id. str_eq s.id id ≡ true) (sym (str_eq-eq t.id p.id ht)) hs

pub redundant_states-left :
    (before : String → String → Bool) (preserve : Option String) (members : List SearchState)
    (s t : SearchState)
    → has_id_of members s ≡ true
    → has_id_of (redundant_states before preserve members) s ≡ false
    → has_id_of members t ≡ true
    → has_id_of (redundant_states before preserve members) t ≡ false
    → str_eq s.id t.id ≡ true
unfolding redundant_states
redundant_states-left before preserve [] s t ms ks mt kt = absurd (ground arith)
redundant_states-left before preserve (x ∷ []) s t ms ks mt kt =
    subst (λ id. str_eq id t.id ≡ true) (str_eq-eq x.id s.id (ground arith)) (ground arith)
redundant_states-left before preserve (x ∷ y ∷ xs) s t ms ks mt kt =
    let o = preserved_state before preserve (x ∷ y ∷ xs) in
    same_preserved o s t (filter-preserved o s (x ∷ y ∷ xs) ms (ground arith))
      (filter-preserved o t (x ∷ y ∷ xs) mt (ground arith))
