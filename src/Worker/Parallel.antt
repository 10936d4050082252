-- ===== src/Worker/Parallel.antt =====
-- apps/worker/src/modules/bounded-parallel.ts: `mapWithConcurrency`, cut at its `await`. The mapper's
-- promise for an index settles with the outcome that the mapper gives it; a history says in which
-- order the pending promises settle. An error that is thrown is not null. A limit below 1 counts as
-- 1, so it is a native number, rounded down.
use auto_monitor_bot.Base.{
  ℕ, zero, suc, ◌+◌, min, max, List, [], ◌∷◌, ◌++◌, Option, none, some, leb, ◌==◌, if◌then◌else◌,
  is_some,
}

pub data Outcome (R E : Type 0) : Type 0 where
  ok : R → Outcome R E
  failed : E → Outcome R E

-- `cursor`, `results`, `firstError`, and the indices whose promises are pending, each with the
-- worker that awaits it.
pub record Pool (R E : Type 0) : Type 0 where
  pub cursor : ℕ
  pub results : ℕ → Option R
  pub first_error : Option E
  pub in_flight : List ℕ

abbrev pub worker_count : ℕ → ℕ → ℕ
worker_count items concurrency = max 1 (min items concurrency)

-- The pending promise that settles next: the one at a position, or the last.
unfoldable pub pick : ℕ → List ℕ → Option (ℕ × List ℕ)
pick p [] = none
pick p (i ∷ []) = some (i, [])
pick zero (i ∷ j ∷ is) = some (i, j ∷ is)
pick (suc p) (i ∷ j ∷ is) = elim (pick p (j ∷ is)) [
  | none ↦ none
  | some found ↦ some (found.0, i ∷ found.1)
]

module _ {R E : Type 0} where
  -- The loop of a worker, up to the call of the mapper or to its end.
  unfoldable pub worker_goes_on : ℕ → Pool R E → Pool R E
  worker_goes_on items s =
      if is_some s.first_error
      then s
      else if leb items s.cursor
      then record s { cursor = s.cursor + 1 }
      else record s { cursor = s.cursor + 1; in_flight = s.in_flight ++ s.cursor ∷ [] }

  unfoldable pub start_workers : ℕ → ℕ → Pool R E → Pool R E
  start_workers items zero s = s
  start_workers items (suc n) s = start_workers items n (worker_goes_on items s)

  abbrev pub new_pool : Pool R E
  new_pool = record { cursor = 0; results = λ i. none; first_error = none; in_flight = [] }

  -- The call, up to the `await` of the workers.
  unfoldable pub map_with_concurrency : ℕ → ℕ → Pool R E
  map_with_concurrency items concurrency =
      if items == 0 then new_pool else start_workers items (worker_count items concurrency) new_pool

  -- What the worker does with the outcome.
  unfoldable pub settle : Outcome R E → ℕ → Pool R E → Pool R E
  settle (ok r) i s = record s { results = λ j. if i == j then some r else s.results j }
  settle (failed e) i s = record s {
    first_error = if is_some s.first_error then s.first_error else some e;
  }

  unfoldable pub promise_settles : ℕ → (ℕ → Outcome R E) → ℕ → Pool R E → Pool R E
  promise_settles items mapper p s = elim (pick p s.in_flight) [
    | none ↦ s
    | some found ↦
        worker_goes_on items (settle (mapper found.0) found.0 (record s { in_flight = found.1 }))
  ]

  unfoldable pub run_promises : ℕ → (ℕ → Outcome R E) → List ℕ → Pool R E → Pool R E
  run_promises items mapper [] s = s
  run_promises items mapper (p ∷ ps) s =
      run_promises items mapper ps (promise_settles items mapper p s)
