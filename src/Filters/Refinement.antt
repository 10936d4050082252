-- ===== src/Filters/Refinement.antt =====
-- apps/worker/src/modules/filter-engine.ts: how the verdict of a check changes where a missing value
-- is filled.
use auto_monitor_bot.Base.{
  ℕ, ◌≡◌, refl, ◌⊎◌, inl, inr, Bool, true, false, not, ◌&&◌, ◌||◌, List, [], ◌∷◌, Option, none,
  some, arith, if_cases, is_some, Bool-cases, ap,
}
use Prim.Native.String.{String}
use auto_monitor_bot.Filters.Geography.{is_empty}
use auto_monitor_bot.Filters.Data.{
  price, RejectionReason, unknown, AttributeValue, absent, text, number, texts, Bounds,
}
use auto_monitor_bot.Filters.Checks.{
  Tools, Verdict, passes, rejects, lacks, number_in_range, check_range, check_flag,
  evaluate_minimum, evaluate_includes, check_category_price,
}
use auto_monitor_bot.Filters.Engine.{reasons_of, unknowns_of, outcome_of}

abbrev pub fill {ℓ} : {A : Type ℓ} → Option A → Option A → Option A
fill none d = d
fill (some v) d = some v

abbrev pub fill_attribute : AttributeValue → AttributeValue → AttributeValue
fill_attribute absent d = d
fill_attribute v d = v

-- A verdict may only change if it was that something is unknown.
abbrev pub Refines : Verdict → Verdict → Type 0
Refines v w = (w ≡ v) ⊎ ((r : RejectionReason) × (v ≡ lacks r))

abbrev pub AllRefine : List Verdict → List Verdict → Type 0
AllRefine [] [] = Unit
AllRefine (v ∷ vs) (w ∷ ws) = Refines v w × AllRefine vs ws
AllRefine _ _ = ⊥

pub check_range-Refines :
    (o d : Option ℕ) (b : Bounds) (r : RejectionReason)
    → Refines (check_range o b r) (check_range (fill o d) b r)
unfolding check_range
check_range-Refines none d b r =
    if_cases (λ v. Refines v (check_range d b r)) (not (is_some b.from) && not (is_some b.to))
      (λ free. inl (ground arith)) (λ bound. inr (r, refl))
check_range-Refines (some v) d b r = inl refl

pub check_flag-Refines :
    (o d : Option Bool) (w : Option Bool) (r : RejectionReason)
    → Refines (check_flag o w r) (check_flag (fill o d) w r)
unfolding check_flag
check_flag-Refines o d none r = inl refl
check_flag-Refines none d (some w) r = inr (r, refl)
check_flag-Refines (some v) d (some w) r = inl refl

pub evaluate_minimum-Refines :
    (a d : AttributeValue) (m : Option ℕ)
    → Refines (evaluate_minimum a m) (evaluate_minimum (fill_attribute a d) m)
unfolding evaluate_minimum
evaluate_minimum-Refines a d none = inl refl
evaluate_minimum-Refines absent d (some m) = inr (_, refl)
evaluate_minimum-Refines (text s) d (some m) = inl refl
evaluate_minimum-Refines (number n) d (some m) = inl refl
evaluate_minimum-Refines (texts ss) d (some m) = inl refl

pub evaluate_includes-Refines :
    (t : Tools) (a d : AttributeValue) (es : List String)
    → Refines (evaluate_includes t a es) (evaluate_includes t (fill_attribute a d) es)
unfolding evaluate_includes
evaluate_includes-Refines t a d [] = inl refl
evaluate_includes-Refines t absent d (e ∷ es) = inr (_, refl)
evaluate_includes-Refines t (text s) d (e ∷ es) = inl refl
evaluate_includes-Refines t (number n) d (e ∷ es) = inl refl
evaluate_includes-Refines t (texts ss) d (e ∷ es) = inl refl

pub check_category_price-Refines :
    (o d : Option ℕ) (b : Bounds)
    → Refines (check_category_price o b) (check_category_price (fill o d) b)
unfolding check_category_price number_in_range
check_category_price-Refines none d b = elim (Bool-cases (is_some b.from || is_some b.to)) [
  | inl bound ↦ inr (price, ground arith)
  | inr free ↦ inl (ground arith)
]
check_category_price-Refines (some v) d b = inl refl

reasons_of-AllRefine :
    (vs ws : List Verdict)
    → AllRefine vs ws
    → is_empty (reasons_of vs) ≡ false
    → is_empty (reasons_of ws) ≡ false
unfolding reasons_of
reasons_of-AllRefine [] [] a h = h
reasons_of-AllRefine [] (w ∷ ws) a h = elim a [ ]
reasons_of-AllRefine (passes ∷ vs) [] a h = elim a [ ]
reasons_of-AllRefine (rejects r ∷ vs) [] a h = elim a [ ]
reasons_of-AllRefine (lacks r ∷ vs) [] a h = elim a [ ]
reasons_of-AllRefine (rejects r ∷ vs) (rejects q ∷ ws) a h = refl
reasons_of-AllRefine (rejects r ∷ vs) (w ∷ ws) (e, a) h = ground (arith, e)
reasons_of-AllRefine (lacks r ∷ vs) (rejects q ∷ ws) (e, a) h = refl
reasons_of-AllRefine (lacks r ∷ vs) (passes ∷ ws) (e, a) h = reasons_of-AllRefine vs ws a h
reasons_of-AllRefine (lacks r ∷ vs) (lacks q ∷ ws) (e, a) h = reasons_of-AllRefine vs ws a h
reasons_of-AllRefine (passes ∷ vs) (rejects q ∷ ws) (e, a) h = refl
reasons_of-AllRefine (passes ∷ vs) (passes ∷ ws) (e, a) h = reasons_of-AllRefine vs ws a h
reasons_of-AllRefine (passes ∷ vs) (lacks q ∷ ws) (e, a) h = reasons_of-AllRefine vs ws a h

unknowns_of-AllRefine :
    (vs ws : List Verdict) → AllRefine vs ws → is_empty (unknowns_of vs) ≡ true → ws ≡ vs
unfolding unknowns_of
unknowns_of-AllRefine [] [] a h = refl
unknowns_of-AllRefine [] (w ∷ ws) a h = elim a [ ]
unknowns_of-AllRefine (v ∷ vs) [] a h = elim a [ ]
unknowns_of-AllRefine (passes ∷ vs) (w ∷ ws) (inl e, a) h =
    ground (arith, e, unknowns_of-AllRefine vs ws a h)
unknowns_of-AllRefine (rejects r ∷ vs) (w ∷ ws) (inl e, a) h =
    ground (arith, e, unknowns_of-AllRefine vs ws a h)
unknowns_of-AllRefine (lacks r ∷ vs) (w ∷ ws) a h = ground arith
unknowns_of-AllRefine (v ∷ vs) (w ∷ ws) (inr (r, e), a) h = ground arith

-- The verdicts leave something unknown and nothing rejected, or the outcome stays.
pub outcome_of-AllRefine :
    (vs ws : List Verdict)
    → AllRefine vs ws
    → (outcome_of vs ≡ unknown) ⊎ (outcome_of ws ≡ outcome_of vs)
unfolding outcome_of
outcome_of-AllRefine vs ws a = elim (Bool-cases (is_empty (reasons_of vs))) [
  | inr rejected ↦ inr (ground (arith, reasons_of-AllRefine vs ws a rejected))
  | inl kept ↦ elim (Bool-cases (is_empty (unknowns_of vs))) [
    | inr open_question ↦ inl (ground arith)
    | inl known ↦ inr (ap outcome_of (unknowns_of-AllRefine vs ws a known))
  ]
]
