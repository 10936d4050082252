-- ===== src/Scheduling/History.antt =====
-- apps/api/src/modules/monitoring/effective-cadence.ts: `effectiveCadenceIdentityChanged` and
-- `recordEffectiveCadence`, over the one row of a source in `effective_cadence` and its rows in
-- `effective_cadence_history`, latest first. The transaction is one step; `reason` is left out.
use auto_monitor_bot.Base.{
  ℕ, ◌≡◌, refl, sym, subst, ◌∙◌, Bool, true, false, not, ◌||◌, List, [], ◌∷◌, Option, none, some,
  arith, ◌==◌, if◌then◌else◌, Bool-cases, inl, inr,
}
use auto_monitor_bot.Scheduling.Cadence.{
  EffectiveMode, standard, live, recovery, canary, protected, ValueSource, active_incident,
  recovery_ramp_source, canary_policy, live_baseline, standard_state, persisted_override,
  EffectiveCadence,
}

-- A row of the table or of its history.
pub record CadenceRow : Type 0 where
  pub cadence : EffectiveCadence
  pub changed_at : ℕ
  pub next_expected_run_at : Option ℕ

pub record CadenceStore : Type 0 where
  pub current : Option CadenceRow
  pub history : List CadenceRow

unfoldable pub mode_code : EffectiveMode → ℕ
mode_code standard = 0
mode_code live = 1
mode_code recovery = 2
mode_code canary = 3
mode_code protected = 4

unfoldable pub source_code : ValueSource → ℕ
source_code active_incident = 0
source_code recovery_ramp_source = 1
source_code canary_policy = 2
source_code live_baseline = 3
source_code standard_state = 4
source_code persisted_override = 5

abbrev differs : EffectiveCadence → EffectiveCadence → Bool
differs current next =
    not (mode_code current.mode == mode_code next.mode)
    || not (current.interval_seconds == next.interval_seconds)
    || not (current.jitter_seconds == next.jitter_seconds)
    || not (source_code current.value_source == source_code next.value_source)

unfoldable pub effective_cadence_identity_changed : Option CadenceRow → EffectiveCadence → Bool
effective_cadence_identity_changed none next = true
effective_cadence_identity_changed (some row) next = differs row.cadence next

abbrev updated : Option CadenceRow → EffectiveCadence → Option ℕ → ℕ → Bool → CadenceRow
updated none d next_at observed_at changed = record {
  cadence = d;
  changed_at = observed_at;
  next_expected_run_at = next_at;
}
updated (some row) d next_at observed_at changed = record {
  cadence = d;
  changed_at = if changed then observed_at else row.changed_at;
  next_expected_run_at = next_at;
}

unfoldable pub record_effective_cadence :
    EffectiveCadence → Option ℕ → ℕ → CadenceStore → CadenceStore
record_effective_cadence d next_at observed_at s =
    let changed = effective_cadence_identity_changed s.current d in
    let entry : CadenceRow = record {
      cadence = d;
      changed_at = observed_at;
      next_expected_run_at = next_at;
    } in
    record {
      current = some (updated s.current d next_at observed_at changed);
      history = if changed then entry ∷ s.history else s.history;
    }

-- A list of observations, each with its next run and its time.
unfoldable pub record_all : List (EffectiveCadence × Option ℕ × ℕ) → CadenceStore → CadenceStore
record_all [] s = s
record_all ((d, next_at, at) ∷ ds) s = record_all ds (record_effective_cadence d next_at at s)

-- Each row of a history differs from the one before it.
abbrev pub Alternates : List CadenceRow → Type 0
Alternates [] = Unit
Alternates (r ∷ []) = Unit
Alternates (r ∷ q ∷ rs) = (differs q.cadence r.cadence ≡ true) × Alternates (q ∷ rs)

-- The current row and the latest row of the history show the same cadence since the same time.
abbrev pub Agrees : Option CadenceRow → List CadenceRow → Type 0
Agrees none [] = Unit
Agrees none (r ∷ rs) = ⊥
Agrees (some c) [] = ⊥
Agrees (some c) (r ∷ rs) = (r.cadence ≡ c.cadence) × (r.changed_at ≡ c.changed_at)

pub record IsConsistent (s : CadenceStore) : Type 0 where
  pub alternates : Alternates s.history
  pub agrees : Agrees s.current s.history

mode_code-injective : (a b : EffectiveMode) → mode_code a ≡ mode_code b → a ≡ b
unfolding mode_code
mode_code-injective a b h = ground arith

source_code-injective : (a b : ValueSource) → source_code a ≡ source_code b → a ≡ b
unfolding source_code
source_code-injective a b h = ground arith

eq_of_differs : (a b : EffectiveCadence) → differs a b ≡ false → a ≡ b
eq_of_differs a b h =
    ground (
      arith,
      mode_code-injective a.mode b.mode,
      source_code-injective a.value_source b.value_source,
    )

recorded :
    (d : EffectiveCadence) (next_at : Option ℕ) (at : ℕ) (c : Option CadenceRow)
    (h : List CadenceRow)
    → Alternates h
    → Agrees c h
    → IsConsistent (record_effective_cadence d next_at at (record { current = c; history = h }))
unfolding record_effective_cadence effective_cadence_identity_changed
recorded d next_at at none [] a g = record { alternates = tt; agrees = (refl, refl) }
recorded d next_at at none (r ∷ rs) a g = absurd g
recorded d next_at at (some c) [] a g = absurd g
recorded d next_at at (some c) (r ∷ rs) a g = elim (Bool-cases (differs c.cadence d)) [
  | inl changed ↦ rw changed (record {
    alternates = (subst (λ x. differs x d ≡ true) (sym g.0) changed, a);
    agrees = (refl, refl);
  })
  | inr same ↦
      rw same (record { alternates = a; agrees = (g.0 ∙ eq_of_differs c.cadence d same, g.1) })
]

record_all-IsConsistent :
    (ds : List (EffectiveCadence × Option ℕ × ℕ)) (s : CadenceStore)
    → IsConsistent s
    → IsConsistent (record_all ds s)
unfolding record_all
record_all-IsConsistent [] s v = v
record_all-IsConsistent ((d, next_at, at) ∷ ds) s v =
    record_all-IsConsistent ds (record_effective_cadence d next_at at s)
      (recorded d next_at at s.current s.history v.alternates v.agrees)

-- From empty tables, any sequence of observed cadences leaves a history in which each row differs
-- from the row before it in mode, interval, jitter or value source, and whose latest row shows
-- the current cadence and the time since when it holds.
pub record_all-history :
    (ds : List (EffectiveCadence × Option ℕ × ℕ))
    → IsConsistent (record_all ds (record { current = none; history = [] }))
record_all-history ds = record_all-IsConsistent ds _ (record { alternates = tt; agrees = tt })
