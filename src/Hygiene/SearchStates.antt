-- ===== src/Hygiene/SearchStates.antt =====
-- packages/shared/src/utils/source-search-state-hygiene.ts: which states of source searches are deleted.
-- `trim` and the order of `localeCompare` are the platform's, and come as arguments. Dates are
-- milliseconds; a set of ids is the list of its members.
use auto_monitor_bot.Base.{
  ℕ, Bool, true, false, not, ◌&&◌, ◌||◌, List, [], ◌∷◌, ◌++◌, Option, none, some, ltb, ◌==◌,
  if◌then◌else◌, is_some, length, any, all, filter, find, sort_by, map, str_eq, opt_str_eq, truthy,
}
use Prim.Native.String.{String, ◌++◌ as append}

-- `SourceSearchStateHygieneRow`.
pub record SearchState : Type 0 where
  pub id : String
  pub source : String
  pub fingerprint : String
  pub filter_ids : List String
  pub updated_at : ℕ

-- `SourceSearchStateHygieneOptions`.
pub record HygieneOptions : Type 0 where
  pub scope : Option String
  pub preserve_state_id : Option String
  pub current_fingerprints : Option (List String)

-- `SourceSearchStateHygieneSelection`.
pub record HygieneSelection : Type 0 where
  pub delete_ids : List String
  pub plan_ready : Bool

abbrev pub has_text : List String → String → Bool
has_text texts t = any (λ x. str_eq x t) texts

-- `Set.add`.
abbrev pub add_text : List String → String → List String
add_text texts t = if has_text texts t then texts else texts ++ t ∷ []

abbrev pub join : List String → String
join [] = ""
join (t ∷ []) = t
join (t ∷ u ∷ ts) = append t (append "\u{1f}" (join (u ∷ ts)))

-- A group of states, with its key in the map.
abbrev pub Group : Type 0
Group = String × List SearchState

-- A state is put behind the others of its key.
unfoldable pub add_to_groups : String → SearchState → List Group → List Group
add_to_groups key s [] = (key, s ∷ []) ∷ []
add_to_groups key s ((k, members) ∷ groups) =
    let rest = add_to_groups key s groups in
    if str_eq k key then (k, members ++ s ∷ []) ∷ groups else (k, members) ∷ rest

-- A set from a list.
unfoldable pub distinct_texts : List String → List String → List String
distinct_texts [] seen = seen
distinct_texts (t ∷ ts) seen = distinct_texts ts (add_text seen t)

abbrev pub first_of : List SearchState → Option SearchState
first_of [] = none
first_of (s ∷ states) = some s

abbrev pub is_preserved : Option SearchState → SearchState → Bool
is_preserved none s = false
is_preserved (some p) s = str_eq s.id p.id

abbrev pub is_current : Option (List String) → SearchState → Bool
is_current none s = true
is_current (some current) s = has_text current s.fingerprint

abbrev pub has_id_of : List SearchState → SearchState → Bool
has_id_of states s = any (λ x. str_eq x.id s.id) states

unfoldable pub is_plan_ready : Option (List String) → List SearchState → Bool
is_plan_ready none usable = true
is_plan_ready (some current) usable =
    all (λ fingerprint. any (λ s. str_eq s.fingerprint fingerprint) usable) current

unfoldable pub scoped_states : Option String → List SearchState → List SearchState
scoped_states scope states =
    if truthy scope then filter (λ s. opt_str_eq (some s.source) scope) states else states

module _ (before : String → String → Bool) where
  -- The order of a group's members: the newest first, and then by their ids.
  abbrev pub newer : SearchState → SearchState → Bool
  newer a b = ltb b.updated_at a.updated_at || (a.updated_at == b.updated_at && before a.id b.id)

  -- The member of a group that is kept.
  unfoldable pub preserved_state : Option String → List SearchState → Option SearchState
  preserved_state preserve members =
      let named = find (λ s. opt_str_eq (some s.id) preserve) members in
      if is_some named then named else first_of (sort_by newer members)

  -- The members of a group that are deleted.
  unfoldable pub redundant_states : Option String → List SearchState → List SearchState
  redundant_states preserve members =
      if ltb (length members) 2
      then []
      else filter (λ s. not (is_preserved (preserved_state preserve members) s)) members

  unfoldable pub all_redundant : Option String → List Group → List SearchState
  all_redundant preserve [] = []
  all_redundant preserve ((k, members) ∷ groups) =
      redundant_states preserve members ++ all_redundant preserve groups

module _ (trim : String → String) (before : String → String → Bool) where
  -- `uniqueSorted`.
  unfoldable pub unique_sorted : List String → List String
  unique_sorted texts =
      sort_by before (distinct_texts (filter (λ t. not (str_eq t "")) (map trim texts)) [])

  unfoldable pub is_orphan : List String → SearchState → Bool
  is_orphan enabled s =
      let ids = unique_sorted s.filter_ids in
      length ids == 0 || all (λ id. not (has_text enabled id)) ids

  unfoldable pub group_key : SearchState → String
  group_key s = append s.source (append "\u{1f}" (join (unique_sorted s.filter_ids)))

  -- The groups of the states that are left.
  unfoldable pub group_states : List SearchState → List Group → List Group
  group_states [] groups = groups
  group_states (s ∷ states) groups = group_states states (add_to_groups (group_key s) s groups)

  unfoldable pub orphan_states : List SearchState → List String → List SearchState
  orphan_states scoped enabled = filter (is_orphan enabled) scoped

  unfoldable pub usable_states : List SearchState → List String → List SearchState
  usable_states scoped enabled =
      filter (λ s. not (has_id_of (orphan_states scoped enabled) s)) scoped

  -- The states that the plan's sweep deletes, once all of the plan's fingerprints have a state.
  unfoldable pub stale_states :
      List SearchState → List String → Option (List String) → List SearchState
  stale_states scoped enabled current =
      if is_plan_ready current (usable_states scoped enabled)
      then filter (λ s. not (is_current current s)) (usable_states scoped enabled)
      else []

  -- The states that the first two sweeps leave.
  unfoldable pub left_states :
      List SearchState → List String → Option (List String) → List SearchState
  left_states scoped enabled current =
      filter
        (λ s.
          not (has_id_of (orphan_states scoped enabled ++ stale_states scoped enabled current) s))
        (usable_states scoped enabled)

  -- The states that the three sweeps delete, in their order.
  unfoldable pub selected_states :
      List SearchState → List String → HygieneOptions → List SearchState
  selected_states states enabled options =
      let scoped = scoped_states options.scope states in
      (orphan_states scoped enabled ++ stale_states scoped enabled options.current_fingerprints)
      ++ all_redundant before options.preserve_state_id
          (group_states (left_states scoped enabled options.current_fingerprints) [])

  -- `selectSourceSearchStateIdsToDelete`.
  unfoldable pub select_source_search_state_ids_to_delete :
      List SearchState → List String → HygieneOptions → HygieneSelection
  select_source_search_state_ids_to_delete states enabled options = record {
    delete_ids =
        sort_by before
          (distinct_texts (map (λ s. s.id) (selected_states states enabled options)) []);
    plan_ready =
        is_plan_ready options.current_fingerprints
          (usable_states (scoped_states options.scope states) enabled);
  }
