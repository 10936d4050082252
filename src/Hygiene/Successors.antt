-- ===== src/Hygiene/Successors.antt =====
-- packages/shared/src/utils/source-search-state-hygiene.ts: which of the states with the same key are left.
use auto_monitor_bot.Base.{
  All-filter, ◌≡◌, refl, ap, sym, subst, ◌∙◌, Bool, true, false, not, ◌||◌, List, [], ◌∷◌, ◌++◌,
  some, arith, filter, map, str_eq, All, if_cases, any-append, str_eq-eq,
}
use Prim.Native.String.{String}
use auto_monitor_bot.Hygiene.SearchStates.{
  SearchState, HygieneOptions, has_text, add_text, distinct_texts, group_key, group_states,
  preserved_state, redundant_states, all_redundant, has_id_of, orphan_states, usable_states,
  stale_states, left_states, scoped_states, selected_states,
  select_source_search_state_ids_to_delete,
}
use auto_monitor_bot.Hygiene.Groups.{
  any-sort_by, same_key, IsIdKeyed, all_redundant-own, group_states-own,
}
use auto_monitor_bot.Hygiene.Preserved.{
  holds_of, preserved_state-picks, All-zip, has_id_of-own, has_id_of-filled, preserved_state-holds,
  redundant_states-preserved, redundant_states-left,
}

has_text-distinct_texts :
    (t : String) (texts seen : List String)
    → has_text (distinct_texts texts seen) t ≡ (has_text seen t || has_text texts t)
unfolding distinct_texts
has_text-distinct_texts t [] seen = ground arith
has_text-distinct_texts t (u ∷ texts) seen =
    has_text-distinct_texts t texts (add_text seen u)
    ∙ ground (arith, any-append (λ x. str_eq x t) seen (u ∷ []), str_eq-eq u t)

has_text-map :
    (s : SearchState) (states : List SearchState)
    → has_text (map (λ x. x.id) states) s.id ≡ has_id_of states s
has_text-map s [] = refl
has_text-map s (x ∷ states) = ground (arith, has_text-map s states)

filter-All {ℓ κ} :
    {A : Type ℓ} (R : A → Type κ) (q : A → Bool) (xs : List A) → All R xs → All R (filter q xs)
filter-All R q [] a = tt
filter-All R q (x ∷ xs) a =
    if_cases (λ (ys : List _). All R ys) (q x) (λ e. (a.0, filter-All R q xs a.1))
      (λ e. filter-All R q xs a.1)

module _ (trim : String → String) (before : String → String → Bool) where
  -- The members of a group of the states that are left.
  abbrev pub members_of :
      SearchState → List SearchState → List String → HygieneOptions → List SearchState
  members_of s states enabled options = same_key trim before s (
      left_states trim before (scoped_states options.scope states) enabled
        options.current_fingerprints)

  abbrev pub is_deleted : SearchState → List SearchState → List String → HygieneOptions → Bool
  is_deleted s states enabled options =
      has_text
        (select_source_search_state_ids_to_delete trim before states enabled options).delete_ids
        s.id

  -- The ids of the states that the first two sweeps leave belong to one key each.
  abbrev pub IsKeyedById : SearchState → List SearchState → List String → HygieneOptions → Type 0
  IsKeyedById s states enabled options = IsIdKeyed trim before s (
      left_states trim before (scoped_states options.scope states) enabled
        options.current_fingerprints)

  abbrev is_swept : SearchState → List SearchState → List String → HygieneOptions → Bool
  is_swept s states enabled options =
      let scoped = scoped_states options.scope states in
      has_id_of
        (orphan_states trim before scoped enabled
          ++ stale_states trim before scoped enabled options.current_fingerprints)
        s

  -- Behind the first two sweeps, a state is deleted exactly where its group deletes it.
  is_deleted-own :
      (s : SearchState) (states : List SearchState) (enabled : List String)
      (options : HygieneOptions)
      → IsKeyedById s states enabled options
      → is_deleted s states enabled options ≡ (
          is_swept s states enabled options
          || has_id_of
              (redundant_states before options.preserve_state_id
                (members_of s states enabled options))
              s)
  unfolding select_source_search_state_ids_to_delete selected_states
  is_deleted-own s states enabled options u =
      let scoped = scoped_states options.scope states in
      let left = left_states trim before scoped enabled options.current_fingerprints in
      let selected = selected_states trim before states enabled options in
      any-sort_by before (λ x. str_eq x s.id) (distinct_texts (map (λ x. x.id) selected) [])
      ∙ has_text-distinct_texts s.id (map (λ x. x.id) selected) []
      ∙ has_text-map s selected
      ∙ any-append (λ x. str_eq x.id s.id)
          (orphan_states trim before scoped enabled
            ++ stale_states trim before scoped enabled options.current_fingerprints)
          (all_redundant before options.preserve_state_id (group_states trim before left []))
      ∙ ap (λ b. is_swept s states enabled options || b)
          (all_redundant-own trim before s options.preserve_state_id (same_key trim before s left)
            (group_states trim before left []) (group_states-own trim before s left u))

  -- No state that the first two sweeps leave is one that they delete.
  members_of-All :
      (s : SearchState) (states : List SearchState) (enabled : List String)
      (options : HygieneOptions)
      → All
          (λ x. not (is_swept x states enabled options) ≡ true)
          (members_of s states enabled options)
  unfolding left_states
  members_of-All s states enabled options =
      let scoped = scoped_states options.scope states in
      filter-All (λ x. not (is_swept x states enabled options) ≡ true)
        (λ x. str_eq (group_key trim before x) (group_key trim before s))
        (left_states trim before scoped enabled options.current_fingerprints)
        (All-filter (λ x. not (is_swept x states enabled options) ≡ true)
          (λ x. not (is_swept x states enabled options)) (usable_states trim before scoped enabled)
          (λ x e. e))

  -- The member that its group keeps is not deleted.
  preserved_state-is_deleted :
      (p : SearchState) (states : List SearchState) (enabled : List String)
      (options : HygieneOptions)
      → IsKeyedById p states enabled options
      → preserved_state before options.preserve_state_id (members_of p states enabled options)
        ≡ some p
      → is_deleted p states enabled options ≡ false
  preserved_state-is_deleted p states enabled options u h =
      let members = members_of p states enabled options in
      let unswept =
        preserved_state-holds before (λ x. not (is_swept x states enabled options))
          options.preserve_state_id members (members_of-All p states enabled options) in
      is_deleted-own p states enabled options u
      ∙ ground (
        arith,
        subst (λ o. holds_of (λ x. not (is_swept x states enabled options)) o ≡ true) h unswept,
        redundant_states-preserved before options.preserve_state_id members p h,
      )

  -- Where the ids of the states that the first two sweeps leave belong to one key each, a search keeps
  -- a state: behind the deletion, whichever state was to be preserved, one of the states with the key
  -- of any state that those sweeps leave is not deleted.
  pub select_source_search_state_ids_to_delete-keeps :
      (s : SearchState) (states : List SearchState) (enabled : List String)
      (options : HygieneOptions)
      → All (λ x. IsKeyedById x states enabled options) (members_of s states enabled options)
      → has_id_of (members_of s states enabled options) s ≡ true
      → (p : SearchState) × (has_id_of (members_of s states enabled options) p ≡ true)
        × (is_deleted p states enabled options ≡ false)
  select_source_search_state_ids_to_delete-keeps s states enabled options u m =
      let scoped = scoped_states options.scope states in
      let left = left_states trim before scoped enabled options.current_fingerprints in
      let members = members_of s states enabled options in
      let group = λ (k : String). filter (λ x. str_eq (group_key trim before x) k) left in
      let keyed =
        All-filter (λ x. str_eq (group_key trim before x) (group_key trim before s) ≡ true)
          (λ x. str_eq (group_key trim before x) (group_key trim before s)) left (λ x e. e) in
      let (p, e, (own, (id_keyed, same))) =
        preserved_state-picks before
          (λ x.
            (has_id_of members x ≡ true)
            × (IsKeyedById x states enabled options
                × (str_eq (group_key trim before x) (group_key trim before s) ≡ true)))
          options.preserve_state_id members (has_id_of-filled members s m)
          (All-zip (λ x. has_id_of members x ≡ true)
            (λ x.
              IsKeyedById x states enabled options
              × (str_eq (group_key trim before x) (group_key trim before s) ≡ true))
            members (has_id_of-own members)
            (All-zip (λ x. IsKeyedById x states enabled options)
              (λ x. str_eq (group_key trim before x) (group_key trim before s) ≡ true) members u
              keyed)) in
      (
        p,
        own,
        preserved_state-is_deleted p states enabled options id_keyed (
            subst
              (λ (k : String). preserved_state before options.preserve_state_id (group k) ≡ some p)
              (sym (str_eq-eq (group_key trim before p) (group_key trim before s) same)) e),
      )

  -- Where the ids of the states that the first two sweeps leave belong to one key each, no two states
  -- of a group are left: those that are not deleted have one id.
  pub select_source_search_state_ids_to_delete-one_left :
      (s t : SearchState) (states : List SearchState) (enabled : List String)
      (options : HygieneOptions)
      → IsKeyedById s states enabled options
      → IsKeyedById t states enabled options
      → group_key trim before s ≡ group_key trim before t
      → has_id_of (members_of s states enabled options) s ≡ true
      → has_id_of (members_of t states enabled options) t ≡ true
      → is_deleted s states enabled options ≡ false
      → is_deleted t states enabled options ≡ false
      → s.id ≡ t.id
  select_source_search_state_ids_to_delete-one_left s t states enabled options u v e ms mt ks kt =
      let scoped = scoped_states options.scope states in
      let left = left_states trim before scoped enabled options.current_fingerprints in
      let group = λ (k : String). filter (λ x. str_eq (group_key trim before x) k) left in
      str_eq-eq s.id t.id (
        redundant_states-left before options.preserve_state_id (members_of s states enabled options)
          s t ms (ground (arith, is_deleted-own s states enabled options u))
          (subst (λ k. has_id_of (group k) t ≡ true) (sym e) mt)
          (subst
            (λ k. has_id_of (redundant_states before options.preserve_state_id (group k)) t ≡ false)
            (sym e) (ground (arith, is_deleted-own t states enabled options v))))
