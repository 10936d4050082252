-- ===== src/Hygiene/Duplicates.antt =====
-- packages/shared/src/utils/filter-hygiene.ts: the signature of a filter, the search for an equal one and
-- the analysis of all pairs. `JSON.stringify` of a signature is a parameter; the messages are left out.
use auto_monitor_bot.Base.{
  ap, ℕ, ◌≡◌, refl, sym, ◌∙◌, Bool, true, false, not, ◌&&◌, ◌||◌, List, [], ◌∷◌, ◌++◌, Option, none,
  some, arith, if◌then◌else◌, any, any-append, filter, find, is_some, str_eq, or_else, All,
  str_eq_refl,
}
use Prim.Native.String.{String}
use auto_monitor_bot.Filters.Geography.{or_empty}
use auto_monitor_bot.Hygiene.Overlap.{Candidate, Texts, normalized_list, filters_materially_overlap}
use auto_monitor_bot.Hygiene.Symmetry.{str_eq_sym}

-- The object that `effectiveFilterSignature` prints, by the kinds of its fields.
pub record Signature : Type 0 where
  pub category_key : String
  pub category_schema_version : ℕ
  pub category_criteria : String
  pub unknown_policy : String
  pub shadow_mode : Bool
  pub lists : List (List String)
  pub texts : List (Option String)
  pub numbers : List (Option ℕ)
  pub flags : List (Option Bool)

pub data WarningKind : Type 0 where
  exact_duplicate material_overlap duplicate_name : WarningKind

-- `FilterHygieneWarning`.
pub record Warning : Type 0 where
  pub kind : WarningKind
  pub is_danger : Bool
  pub filter_ids : String × String
  pub filter_names : String × String

abbrev pub is_exact : Warning → Bool
is_exact w = elim w.kind [ exact_duplicate ↦ true | _ ↦ false ]

-- A warning of an exact duplicate that names an id.
abbrev pub is_exact_of : String → Warning → Bool
is_exact_of id w = is_exact w && (str_eq w.filter_ids.0 id || str_eq w.filter_ids.1 id)

abbrev warning : WarningKind → Bool → Candidate → Candidate → List Warning
warning kind is_danger left right =
    (record {
      kind = kind;
      is_danger = is_danger;
      filter_ids = (left.id, right.id);
      filter_names = (left.name, right.name);
    })
    ∷ []

module _ (t : Texts) (print : Signature → String) where
  -- `normalizedValue`.
  unfoldable pub normalized_value : Option String → Option String
  normalized_value value =
      let normalized = t.normalize_text (or_empty value) in
      if str_eq normalized "" then none else some normalized

  abbrev plain : List String → List String
  plain values = normalized_list t.comes_before t.normalize_text values

  unfoldable pub signature_of : Candidate → Signature
  signature_of f = record {
    category_key = or_else f.category_key "vehicle.car";
    category_schema_version = or_else f.category_schema_version 1;
    category_criteria = or_else f.category_criteria "{}";
    unknown_policy = or_else f.unknown_policy "MAX_COVERAGE";
    shadow_mode = or_else f.shadow_mode false;
    lists =
        plain f.sources
        ∷ plain f.model_names
        ∷ plain f.body_types
        ∷ plain f.fuel_types
        ∷ plain f.gearboxes
        ∷ plain f.drive_types
        ∷ plain f.colors
        ∷ plain f.conditions
        ∷ plain f.regions
        ∷ plain f.cities
        ∷ plain f.keywords
        ∷ plain f.exclude_keywords
        ∷ [];
    texts =
        normalized_value f.brand
        ∷ normalized_value f.model
        ∷ normalized_value f.generation
        ∷ normalized_value f.freshness_mode
        ∷ [];
    numbers =
        f.auto_ria_category_id ∷ f.auto_ria_mark_id ∷ f.auto_ria_model_id ∷ f.engine_volume.from
        ∷ f.engine_volume.to ∷ f.engine_power.from ∷ f.engine_power.to ∷ f.doors.from ∷ f.doors.to
        ∷ f.seats.from ∷ f.seats.to ∷ f.year.from ∷ f.year.to ∷ f.price.from ∷ f.price.to
        ∷ f.mileage.from ∷ f.mileage.to ∷ [];
    flags = f.customs_cleared ∷ f.bargain_possible ∷ [];
  }

  -- `effectiveFilterSignature`.
  unfoldable pub effective_filter_signature : Candidate → String
  effective_filter_signature f = print (signature_of f)

  -- `findExactActiveFilter`.
  unfoldable pub find_exact_active_filter : Candidate → List Candidate → String → Option Candidate
  find_exact_active_filter candidate filters exclude_id =
      let signature = effective_filter_signature candidate in
      find
        (λ f.
          f.enabled
          && not (str_eq f.id exclude_id)
          && str_eq (effective_filter_signature f) signature)
        filters

  -- The body of the loops of `analyzeFilterHygiene`.
  unfoldable pub pair_warnings : Candidate → Candidate → List Warning
  pair_warnings left right =
      if str_eq (effective_filter_signature left) (effective_filter_signature right)
      then warning exact_duplicate true left right
      else if filters_materially_overlap t left right
      then warning material_overlap false left right
      else if str_eq (t.normalize_text left.name) (t.normalize_text right.name)
      then warning duplicate_name false left right
      else []

  unfoldable pub row_warnings : Candidate → List Candidate → List Warning
  row_warnings left [] = []
  row_warnings left (right ∷ rest) = pair_warnings left right ++ row_warnings left rest

  unfoldable pub active_warnings : List Candidate → List Warning
  active_warnings [] = []
  active_warnings (left ∷ rest) = row_warnings left rest ++ active_warnings rest

  -- `analyzeFilterHygiene`.
  unfoldable pub analyze_filter_hygiene : List Candidate → List Warning
  analyze_filter_hygiene filters = active_warnings (filter (λ f. f.enabled) filters)

  abbrev pub same : Candidate → Candidate → Bool
  same a b = str_eq (effective_filter_signature a) (effective_filter_signature b)

  -- What the search looks for among the active filters.
  abbrev pub is_other : Candidate → Candidate → Bool
  is_other c f = not (str_eq f.id c.id) && same f c

  abbrev pub HaveOtherIds : Candidate → List Candidate → Type 0
  HaveOtherIds c cs = All (λ d. str_eq c.id d.id ≡ false) cs

  abbrev pub HasDistinctIds : List Candidate → Type 0
  HasDistinctIds [] = Unit
  HasDistinctIds (c ∷ cs) = HaveOtherIds c cs × HasDistinctIds cs

  any_found :
      (c : Candidate) (fs : List Candidate)
      → is_some (find_exact_active_filter c fs c.id) ≡ any (is_other c) (filter (λ f. f.enabled) fs)
  unfolding find_exact_active_filter
  any_found c [] = refl
  any_found c (f ∷ fs) = ground (arith, any_found c fs)

  -- The filters of a row that a warning of it names together with an id.
  abbrev is_warned : Candidate → String → Candidate → Bool
  is_warned left id r = same left r && (str_eq left.id id || str_eq r.id id)

  row_warnings-exact :
      (left : Candidate) (rest : List Candidate) (id : String)
      → any (is_exact_of id) (row_warnings left rest) ≡ any (is_warned left id) rest
  unfolding row_warnings pair_warnings
  row_warnings-exact left [] id = refl
  row_warnings-exact left (right ∷ rest) id =
      any-append (is_exact_of id) (pair_warnings left right) (row_warnings left rest)
      ∙ ground (arith, row_warnings-exact left rest id)

  -- Where no filter of a list has an id, no warning names it.
  row-unnamed :
      (c left : Candidate) (rest : List Candidate)
      → str_eq c.id left.id ≡ false
      → HaveOtherIds c rest
      → any (is_warned left c.id) rest ≡ false
  row-unnamed c left [] h a = refl
  row-unnamed c left (r ∷ rest) h a =
      ground
        (arith, row-unnamed c left rest h a.1, a.0, str_eq_sym c.id left.id, str_eq_sym c.id r.id)

  active_warnings-unnamed :
      (c : Candidate) (cs : List Candidate)
      → HaveOtherIds c cs
      → any (is_exact_of c.id) (active_warnings cs) ≡ false
  unfolding active_warnings
  active_warnings-unnamed c [] a = refl
  active_warnings-unnamed c (l ∷ cs) a =
      any-append (is_exact_of c.id) (row_warnings l cs) (active_warnings cs)
      ∙ ground (
        arith,
        row_warnings-exact l cs c.id,
        row-unnamed c l cs a.0 a.1,
        active_warnings-unnamed c cs a.1,
      )

  -- The first filter of a list.
  others_of :
      (l : Candidate) (cs : List Candidate)
      → HaveOtherIds l cs
      → any (is_warned l l.id) cs ≡ any (is_other l) cs
  others_of l [] h = refl
  others_of l (c ∷ cs) h = ground (
    arith,
    others_of l cs h.1,
    h.0,
    str_eq_refl l.id,
    str_eq_sym l.id c.id,
    str_eq_sym (effective_filter_signature l) (effective_filter_signature c),
  )

  -- A later filter of a list: a row names it where it is the row's duplicate.
  abbrev IsNamedOnce : Candidate → List Candidate → Candidate → Type 0
  IsNamedOnce l cs c = any (is_warned l c.id) cs ≡ same l c

  IsNamedOnce-later :
      (l x : Candidate) (xs cs : List Candidate)
      → HaveOtherIds x cs
      → HaveOtherIds l cs
      → All (IsNamedOnce l xs) cs
      → All (IsNamedOnce l (x ∷ xs)) cs
  IsNamedOnce-later l x xs [] d o a = tt
  IsNamedOnce-later l x xs (c ∷ cs) d o a =
      (ground (arith, a.0, d.0, o.0), IsNamedOnce-later l x xs cs d.1 o.1 a.1)

  row-named :
      (l : Candidate) (cs : List Candidate)
      → HaveOtherIds l cs
      → HasDistinctIds cs
      → All (IsNamedOnce l cs) cs
  row-named l [] o d = tt
  row-named l (x ∷ xs) o d = (
    ground (arith, row-unnamed x l xs (str_eq_sym x.id l.id ∙ o.0) d.0, str_eq_refl x.id, o.0),
    IsNamedOnce-later l x xs xs d.0 o.1 (row-named l xs o.1 d.1),
  )

  -- The warnings name a filter where another one of the list has its signature.
  abbrev IsWarned : List Candidate → Candidate → Type 0
  IsWarned cs c = any (is_exact_of c.id) (active_warnings cs) ≡ any (is_other c) cs

  IsWarned-later :
      (l : Candidate) (xs cs : List Candidate)
      → HaveOtherIds l cs
      → All (IsNamedOnce l xs) cs
      → All (IsWarned xs) cs
      → All (IsWarned (l ∷ xs)) cs
  unfolding active_warnings
  IsWarned-later l xs [] o n w = tt
  IsWarned-later l xs (c ∷ cs) o n w = (
    any-append (is_exact_of c.id) (row_warnings l xs) (active_warnings xs)
        ∙ ground (arith, row_warnings-exact l xs c.id, n.0, w.0, o.0),
    IsWarned-later l xs cs o.1 n.1 w.1,
  )

  active_warnings-IsWarned : (cs : List Candidate) → HasDistinctIds cs → All (IsWarned cs) cs
  unfolding active_warnings
  active_warnings-IsWarned [] d = tt
  active_warnings-IsWarned (l ∷ cs) d = (
    any-append (is_exact_of l.id) (row_warnings l cs) (active_warnings cs)
        ∙ ground (
          arith,
          row_warnings-exact l cs l.id,
          others_of l cs d.0,
          active_warnings-unnamed l cs d.0,
          str_eq_refl l.id,
        ),
    IsWarned-later l cs cs d.0 (row-named l cs d.0 d.1) (active_warnings-IsWarned cs d.1),
  )

  found-All :
      (filters active cs : List Candidate)
      → active ≡ filter (λ f. f.enabled) filters
      → All (IsWarned active) cs
      → All
          (λ c.
            any (is_exact_of c.id) (active_warnings active)
            ≡ is_some (find_exact_active_filter c filters c.id))
          cs
  found-All filters active [] e a = tt
  found-All filters active (c ∷ cs) e a = (
    a.0 ∙ ap (λ fs. any (is_other c) fs) e ∙ sym (any_found c filters),
    found-All filters active cs e a.1,
  )

  -- Where the ids of the active filters differ, the analysis and the search agree on every active
  -- filter: a warning of an exact duplicate names it, on either side, exactly where the search, without
  -- the filter itself, finds another active one with its signature, whatever a signature prints as.
  pub analyze_filter_hygiene-exact :
      (filters : List Candidate)
      → HasDistinctIds (filter (λ f. f.enabled) filters)
      → All
          (λ c.
            any (is_exact_of c.id) (analyze_filter_hygiene filters)
            ≡ is_some (find_exact_active_filter c filters c.id))
          (filter (λ f. f.enabled) filters)
  unfolding analyze_filter_hygiene
  analyze_filter_hygiene-exact filters h =
      let active = filter (λ f. f.enabled) filters in
      found-All filters active active refl (active_warnings-IsWarned active h)
