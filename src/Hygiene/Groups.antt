-- ===== src/Hygiene/Groups.antt =====
-- packages/shared/src/utils/source-search-state-hygiene.ts: what the groups of states with the same key
-- hold, and which ids the deletion of redundant states meets.
use auto_monitor_bot.Base.{
  ◌≡◌, refl, sym, subst, ◌∙◌, Bool, true, false, not, ◌||◌, List, [], ◌∷◌, ◌++◌, Option, arith, any,
  filter, sort_by, insert_by, str_eq, str_eq-eq, str_eq_refl, All, if_cases, any-append,
  append_assoc, append_nil,
}
use Prim.Native.String.{String}
use auto_monitor_bot.Hygiene.SearchStates.{
  SearchState, Group, add_to_groups, group_key, group_states, preserved_state, is_preserved,
  redundant_states, all_redundant, has_id_of,
}

any-filter {ℓ} :
    {A : Type ℓ} (p q : A → Bool) (xs : List A) → any p xs ≡ false → any p (filter q xs) ≡ false
any-filter p q [] h = refl
any-filter p q (x ∷ xs) h = let rest = any-filter p q xs (ground arith) in ground arith

any-insert_by {ℓ} :
    {A : Type ℓ} (less : A → A → Bool) (p : A → Bool) (x : A) (xs : List A)
    → any p (insert_by less x xs) ≡ (p x || any p xs)
unfolding insert_by
any-insert_by less p x [] = refl
any-insert_by less p x (y ∷ ys) = ground (arith, any-insert_by less p x ys)

pub any-sort_by {ℓ} :
    {A : Type ℓ} (less : A → A → Bool) (p : A → Bool) (xs : List A)
    → any p (sort_by less xs) ≡ any p xs
unfolding sort_by
any-sort_by less p [] = refl
any-sort_by less p (x ∷ xs) =
    any-insert_by less p x (sort_by less xs) ∙ ground (arith, any-sort_by less p xs)

module _ (trim : String → String) (before : String → String → Bool) (p : SearchState) where
  abbrev pub own_key : String
  own_key = group_key trim before p

  -- The groups have neither the key of a state nor its id.
  abbrev pub IsAbsent : List Group → Type 0
  IsAbsent groups = All (λ g. (str_eq g.0 own_key ≡ false) × (has_id_of g.1 p ≡ false)) groups

  -- Of the groups, the one with the key of a state holds the given members, and no other has its id.
  pub data IsKeyed : List SearchState → List Group → Type 0 where
    missing : (groups : List Group) → IsAbsent groups → IsKeyed [] groups
    found :
        (k : String) (members : List SearchState) (groups : List Group)
        → str_eq k own_key ≡ true
        → IsAbsent groups
        → IsKeyed members ((k, members) ∷ groups)
    behind :
        (k : String) (others members : List SearchState) (groups : List Group)
        → str_eq k own_key ≡ false
        → has_id_of others p ≡ false
        → IsKeyed members groups
        → IsKeyed members ((k, others) ∷ groups)

  redundant_states-other :
      (preserve : Option String) (members : List SearchState)
      → has_id_of members p ≡ false
      → has_id_of (redundant_states before preserve members) p ≡ false
  unfolding redundant_states
  redundant_states-other preserve members h = ground (
    arith,
    any-filter (λ x. str_eq x.id p.id)
        (λ s. not (is_preserved (preserved_state before preserve members) s)) members h,
  )

  all_redundant-absent :
      (preserve : Option String) (groups : List Group)
      → IsAbsent groups
      → has_id_of (all_redundant before preserve groups) p ≡ false
  unfolding all_redundant
  all_redundant-absent preserve [] a = refl
  all_redundant-absent preserve ((k, members) ∷ groups) a =
      any-append (λ x. str_eq x.id p.id) (redundant_states before preserve members)
        (all_redundant before preserve groups)
      ∙ ground (
        arith,
        redundant_states-other preserve members a.0.1,
        all_redundant-absent preserve groups a.1,
      )

  -- Only its own group can delete a state.
  pub all_redundant-own :
      (preserve : Option String) (members : List SearchState) (groups : List Group)
      → IsKeyed members groups
      → has_id_of (all_redundant before preserve groups) p
        ≡ has_id_of (redundant_states before preserve members) p
  unfolding all_redundant redundant_states
  all_redundant-own preserve none_left groups (missing gs a) = all_redundant-absent preserve gs a
  all_redundant-own preserve ms groups (found k members gs e a) =
      any-append (λ x. str_eq x.id p.id) (redundant_states before preserve members)
        (all_redundant before preserve gs)
      ∙ ground (arith, all_redundant-absent preserve gs a)
  all_redundant-own preserve ms groups (behind k others members gs e o v) =
      any-append (λ x. str_eq x.id p.id) (redundant_states before preserve others)
        (all_redundant before preserve gs)
      ∙ ground
          (arith, redundant_states-other preserve others o, all_redundant-own preserve members gs v)

  has_id_of-append :
      (xs ys : List SearchState) → has_id_of (xs ++ ys) p ≡ (has_id_of xs p || has_id_of ys p)
  has_id_of-append xs ys = any-append (λ x. str_eq x.id p.id) xs ys

  -- A state with another id and key joins the groups.
  add_to_groups-IsAbsent :
      (key : String) (s : SearchState) (groups : List Group)
      → str_eq s.id p.id ≡ false
      → str_eq key own_key ≡ false
      → IsAbsent groups
      → IsAbsent (add_to_groups key s groups)
  unfolding add_to_groups
  add_to_groups-IsAbsent key s [] n e a = ((e, ground arith), tt)
  add_to_groups-IsAbsent key s ((k, members) ∷ gs) n e a =
      if_cases (λ (x : List Group). IsAbsent x) (str_eq k key)
        (λ h. ((a.0.0, has_id_of-append members (s ∷ []) ∙ ground (arith, a.0.1)), a.1))
        (λ h. (a.0, add_to_groups-IsAbsent key s gs n e a.1))

  add_to_groups-other :
      (key : String) (s : SearchState) (members : List SearchState) (groups : List Group)
      → str_eq s.id p.id ≡ false
      → str_eq key own_key ≡ false
      → IsKeyed members groups
      → IsKeyed members (add_to_groups key s groups)
  unfolding add_to_groups
  add_to_groups-other key s members groups n e (missing gs a) =
      missing (add_to_groups key s gs) (add_to_groups-IsAbsent key s gs n e a)
  add_to_groups-other key s members groups n e (found k ms gs o a) =
      if_cases (λ (x : List Group). IsKeyed ms x) (str_eq k key)
        (λ h. absurd (ground (arith, str_eq-eq k key h)))
        (λ h. found k ms (add_to_groups key s gs) o (add_to_groups-IsAbsent key s gs n e a))
  add_to_groups-other key s members groups n e (behind k others ms gs d o v) =
      if_cases (λ (x : List Group). IsKeyed ms x) (str_eq k key)
        (λ h.
          behind k (others ++ s ∷ []) ms gs d (has_id_of-append others (s ∷ []) ∙ ground (arith, o))
            v)
        (λ h.
          behind k others ms (add_to_groups key s gs) d o (add_to_groups-other key s ms gs n e v))

  -- A state with the same key joins the group.
  add_to_groups-own :
      (s : SearchState) (members : List SearchState) (groups : List Group)
      → IsKeyed members groups
      → IsKeyed (members ++ s ∷ []) (add_to_groups own_key s groups)
  unfolding add_to_groups
  add_to_groups-own s members groups (missing [] a) =
      found own_key (s ∷ []) [] (str_eq_refl own_key) tt
  add_to_groups-own s members groups (missing ((k, others) ∷ gs) a) =
      if_cases (λ (x : List Group). IsKeyed (s ∷ []) x) (str_eq k own_key)
        (λ h. absurd (ground (arith, a.0.0)))
        (λ h.
          behind k others (s ∷ []) (add_to_groups own_key s gs) a.0.0 a.0.1
            (add_to_groups-own s [] gs (missing gs a.1)))
  add_to_groups-own s members groups (found k ms gs o a) =
      if_cases (λ (x : List Group). IsKeyed (ms ++ s ∷ []) x) (str_eq k own_key)
        (λ h. found k (ms ++ s ∷ []) gs o a) (λ h. absurd (ground arith))
  add_to_groups-own s members groups (behind k others ms gs d o v) =
      if_cases (λ (x : List Group). IsKeyed (ms ++ s ∷ []) x) (str_eq k own_key)
        (λ h. absurd (ground arith))
        (λ h.
          behind k others (ms ++ s ∷ []) (add_to_groups own_key s gs) d o
            (add_to_groups-own s ms gs v))

  -- The states with the key of a state.
  abbrev pub same_key : List SearchState → List SearchState
  same_key states = filter (λ s. str_eq (group_key trim before s) own_key) states

  -- A list in which no other state has the id of a state with another key.
  abbrev pub IsIdKeyed : List SearchState → Type 0
  IsIdKeyed states =
      All (λ s. str_eq s.id p.id ≡ true → str_eq (group_key trim before s) own_key ≡ true) states

  group_states-IsKeyed :
      (states members : List SearchState) (groups : List Group)
      → IsIdKeyed states
      → IsKeyed members groups
      → IsKeyed (members ++ same_key states) (group_states trim before states groups)
  unfolding group_states
  group_states-IsKeyed [] members groups u v =
      subst (λ x. IsKeyed x groups) (sym (append_nil members)) v
  group_states-IsKeyed (s ∷ states) members groups u v =
      if_cases
        (λ (x : List SearchState).
          IsKeyed (members ++ x) (group_states trim before (s ∷ states) groups))
        (str_eq (group_key trim before s) own_key)
        (λ h.
          subst
            (λ x.
              IsKeyed x (
                group_states trim before states (add_to_groups (group_key trim before s) s groups)))
            (append_assoc members (s ∷ []) (same_key states))
            (group_states-IsKeyed states (members ++ s ∷ [])
              (add_to_groups (group_key trim before s) s groups) u.1
              (subst (λ k. IsKeyed (members ++ s ∷ []) (add_to_groups k s groups))
                (sym (str_eq-eq (group_key trim before s) own_key h))
                (add_to_groups-own s members groups v))))
        (λ h.
          group_states-IsKeyed states members (add_to_groups (group_key trim before s) s groups) u.1
            (add_to_groups-other (group_key trim before s) s members groups (ground (arith, u.0)) h
              v))

  -- The groups of a list: the one with the key of a state holds the states with that key.
  pub group_states-own :
      (states : List SearchState)
      → IsIdKeyed states
      → IsKeyed (same_key states) (group_states trim before states [])
  group_states-own states u = group_states-IsKeyed states [] [] u (missing [] tt)
