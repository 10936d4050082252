-- ===== src/Worker/Completion.antt =====
-- apps/worker/src/modules/bounded-parallel.ts: that the call comes to an end, and with what.
use auto_monitor_bot.Base.{
  ℕ, zero, suc, ◌+◌, ◌≤◌, ◌<◌, min, max, ◌≡◌, refl, subst, sym, ap, ◌∙◌, ◌⊎◌, inl, inr, true, false,
  List, [], ◌∷◌, none, some, arith, ltb, leb, ◌==◌, if◌then◌else◌, if_cases, length, count_by,
  count_by-append, length-append, Bool-cases, Option-cases, is_some,
}
use auto_monitor_bot.Worker.Parallel.{
  Outcome, ok, failed, Pool, worker_goes_on, start_workers, worker_count, new_pool,
  map_with_concurrency, pick, settle, promise_settles, run_promises,
}
use auto_monitor_bot.Worker.Pending.{by_eq, count_by-pick, length-pick, pick-none}

module _ {R E : Type 0} (items workers : ℕ) (mapper : ℕ → Outcome R E) where
  -- What a promise that has settled left behind.
  abbrev IsSettled : ℕ → Pool R E → Type 0
  IsSettled j s =
      ((r : R) × (mapper j ≡ ok r) × (s.results j ≡ some r))
      ⊎ ((e : E) × (mapper j ≡ failed e) × (is_some s.first_error ≡ true))

  -- Seen from the index `j`, after `steps` settled promises; `busy` workers have not gone on yet.
  record IsPool (j steps busy : ℕ) (s : Pool R E) : Type 0 where
    once : count_by (λ i. i == j) s.in_flight ≤ (if ltb j (min s.cursor items) then 1 else 0)
    settled : j < s.cursor → j < items → count_by (λ i. i == j) s.in_flight ≡ 0 → IsSettled j s
    error :
        is_some s.first_error ≡ true
        → (i : ℕ) × (e : E) × (i < items) × (mapper i ≡ failed e) × (s.first_error ≡ some e)
    bounded : length s.in_flight + busy ≤ workers
    working : is_some s.first_error ≡ false → s.cursor < items → 0 < length s.in_flight + busy
    progress : (length s.in_flight + busy ≡ 0) ⊎ (length s.in_flight + steps ≤ min s.cursor items)

  worker_goes_on-IsPool :
      (j steps busy : ℕ) (s : Pool R E)
      → IsPool j steps (suc busy) s
      → IsPool j steps busy (worker_goes_on items s)
  unfolding worker_goes_on
  worker_goes_on-IsPool j steps busy s k =
      let counted = count_by-append (λ i. i == j) s.in_flight (s.cursor ∷ []) in
      let longer = length-append s.in_flight (s.cursor ∷ []) in
      if_cases (IsPool j steps busy) (is_some s.first_error)
        (λ failing. record {
          once = k.once;
          settled = k.settled;
          error = k.error;
          bounded = ground (arith, k.bounded);
          working = λ a b. ground arith;
          progress = ground (arith, k.progress);
        })
        (λ fine.
          if_cases (IsPool j steps busy) (leb items s.cursor)
            (λ over. record {
              once = ground (arith, k.once);
              settled = λ a b c. k.settled (ground arith) b c;
              error = k.error;
              bounded = ground (arith, k.bounded);
              working = λ a b. ground arith;
              progress = ground (arith, k.progress);
            })
            (λ more. record {
              once = ground (arith, k.once, counted);
              settled = λ a b c. k.settled (ground (arith, counted)) b (ground (arith, counted));
              error = k.error;
              bounded = ground (arith, k.bounded, longer);
              working = λ a b. ground (arith, longer);
              progress = ground (arith, k.progress, longer);
            }))

  start_workers-IsPool :
      (j steps n busy : ℕ) (s : Pool R E)
      → IsPool j steps (n + busy) s
      → IsPool j steps busy (start_workers items n s)
  unfolding start_workers
  start_workers-IsPool j steps zero busy s k = subst (λ b. IsPool j steps b s) (omega arith) k
  start_workers-IsPool j steps (suc n) busy s k =
      start_workers-IsPool j steps n busy (worker_goes_on items s) (
        worker_goes_on-IsPool j steps (n + busy) s
          (subst (λ b. IsPool j steps b s) (omega arith) k))

  -- A promise that settles: its worker goes on next.
  settle-IsPool :
      (o : Outcome R E) (j steps p : ℕ) (s : Pool R E) (found : ℕ × List ℕ)
      → mapper found.0 ≡ o
      → pick p s.in_flight ≡ some found
      → ((i : ℕ) → IsPool i steps 0 s)
      → IsPool j (suc steps) 1 (settle o found.0 (record s { in_flight = found.1 }))
  unfolding settle
  settle-IsPool (ok r) j steps p s found m e ks =
      let k = ks j in
      let counted = count_by-pick (λ i. i == j) p s.in_flight found e in
      let shorter = length-pick p s.in_flight found e in
      record {
        once = ground (arith, k.once, counted);
        settled = λ a b c. elim (Bool-cases (found.0 == j)) [
          | inl same ↦
              let here = by_eq found.0 j same in inl (r, sym (ap mapper here) ∙ m, ground arith)
          | inr other ↦ elim (k.settled a b (ground (arith, counted))) [
            | inl (r', q, h) ↦ inl (r', q, ground arith)
            | inr h ↦ inr h
          ]
        ];
        error = k.error;
        bounded = ground (arith, k.bounded, shorter);
        working = λ a b. ground arith;
        progress = ground (arith, k.progress, shorter);
      }
  settle-IsPool (failed x) j steps p s found m e ks =
      let k = ks j in
      let own = ks found.0 in
      let counted = count_by-pick (λ i. i == j) p s.in_flight found e in
      let counted_own = count_by-pick (λ i. i == found.0) p s.in_flight found e in
      let shorter = length-pick p s.in_flight found e in
      record {
        once = ground (arith, k.once, counted);
        settled = λ a b c. elim (Bool-cases (found.0 == j)) [
          | inl same ↦
              let here = by_eq found.0 j same in inr (x, sym (ap mapper here) ∙ m, ground arith)
          | inr other ↦ elim (k.settled a b (ground (arith, counted))) [
            | inl h ↦ inl h
            | inr (y, q, h) ↦ inr (y, q, ground arith)
          ]
        ];
        error = λ a. elim (Bool-cases (is_some s.first_error)) [
          | inl before ↦ let (i, y, lt, q, h) = k.error before in (i, y, lt, q, ground arith)
          | inr first ↦ (found.0, x, ground (arith, own.once, counted_own), m, ground arith)
        ];
        bounded = ground (arith, k.bounded, shorter);
        working = λ a b. ground arith;
        progress = ground (arith, k.progress, shorter);
      }

  promise_settles-IsPool :
      (j steps p : ℕ) (s : Pool R E)
      → ((i : ℕ) → IsPool i steps 0 s)
      → IsPool j (suc steps) 0 (promise_settles items mapper p s)
  unfolding promise_settles
  promise_settles-IsPool j steps p s ks = elim (Option-cases (pick p s.in_flight)) [
    | inl empty ↦
        let k = ks j in
        let still = pick-none p s.in_flight empty in
        rw (promise_settles, empty)
          (record {
            once = k.once;
            settled = k.settled;
            error = k.error;
            bounded = k.bounded;
            working = k.working;
            progress = inl (omega (arith, still));
          })
    | inr (found, e) ↦
        rw (promise_settles, e)
          (worker_goes_on-IsPool j (suc steps) 0 _
            (settle-IsPool (mapper found.0) j steps p s found refl e ks))
  ]

  run_promises-IsPool :
      (j steps : ℕ) (ps : List ℕ) (s : Pool R E)
      → ((i : ℕ) → IsPool i steps 0 s)
      → IsPool j (length ps + steps) 0 (run_promises items mapper ps s)
  unfolding run_promises
  run_promises-IsPool j steps [] s ks = subst (λ n. IsPool j n 0 s) (omega arith) (ks j)
  run_promises-IsPool j steps (p ∷ ps) s ks =
      subst (λ n. IsPool j n 0 (run_promises items mapper ps (promise_settles items mapper p s)))
        (omega arith)
        (run_promises-IsPool j (suc steps) ps (promise_settles items mapper p s)
          (λ i. promise_settles-IsPool i steps p s ks))

map_with_concurrency-IsPool :
    {R E : Type 0} (items concurrency j : ℕ) (mapper : ℕ → Outcome R E)
    → IsPool items
        (worker_count items concurrency)
        mapper
        j
        0
        0
        (map_with_concurrency items concurrency)
unfolding map_with_concurrency
map_with_concurrency-IsPool items concurrency j mapper =
    if_cases (IsPool items (worker_count items concurrency) mapper j 0 0) (items == 0)
      (λ none_given. record {
        once = ground arith;
        settled = λ a b c. absurd (omega (arith, a));
        error = λ a. ground arith;
        bounded = ground arith;
        working = λ a b. ground arith;
        progress = inl (omega arith);
      })
      (λ given.
        start_workers-IsPool items (worker_count items concurrency) mapper j 0
          (worker_count items concurrency) 0 new_pool
          (record {
            once = ground arith;
            settled = λ a b c. absurd (omega (arith, a));
            error = λ a. ground arith;
            bounded = ground arith;
            working = λ a b. ground arith;
            progress = inr (omega arith);
          }))

length-zero : {A : Type 0} (xs : List A) → length xs ≡ 0 → xs ≡ []
length-zero [] e = refl
length-zero (x ∷ xs) e = absurd (omega (arith, e))

cursor_over :
    (items cursor pending : ℕ) → (cursor < items → 0 < pending + 0) → pending ≡ 0 → items ≤ cursor
cursor_over items cursor pending h e = ground (arith, h)

-- However the promises settle, never more of them are pending at once than the limit says, and than
-- there are items; a limit below 1 counts as 1.
pub run_promises-bounded :
    {R E : Type 0} (items concurrency : ℕ) (mapper : ℕ → Outcome R E) (order : List ℕ)
    → length (run_promises items mapper order (map_with_concurrency items concurrency)).in_flight
      ≤ max 1 (min items concurrency)
run_promises-bounded items concurrency mapper order =
    let k =
      run_promises-IsPool items (worker_count items concurrency) mapper 0 0 order _
        (λ i. map_with_concurrency-IsPool items concurrency i mapper) in
    ground (arith, k.bounded)

-- In whatever order the promises settle: when as many have settled as there are items, no call is
-- pending, so that the workers have returned; and then either the error of one of the items is
-- thrown, or there is none and each item's place holds the mapper's result for it.
pub run_promises-maps :
    {R E : Type 0} (items concurrency : ℕ) (mapper : ℕ → Outcome R E) (order : List ℕ) (j : ℕ)
    → items ≤ length order
    → j < items
    → let s = run_promises items mapper order (map_with_concurrency items concurrency) in
      (s.in_flight ≡ [])
      × (((i : ℕ) × (e : E) × (i < items) × (mapper i ≡ failed e) × (s.first_error ≡ some e))
          ⊎ ((s.first_error ≡ none) × ((r : R) × (mapper j ≡ ok r) × (s.results j ≡ some r))))
run_promises-maps items concurrency mapper order j enough lt =
    let k =
      run_promises-IsPool items (worker_count items concurrency) mapper j 0 order _
        (λ i. map_with_concurrency-IsPool items concurrency i mapper) in
    let s = run_promises items mapper order (map_with_concurrency items concurrency) in
    let over = length-zero s.in_flight (ground (arith, k.progress)) in
    let gone = ap length over in
    let uncounted = ap (count_by (λ i. i == j)) over in
    let all_taken = λ (f : is_some s.first_error ≡ false).
      cursor_over items s.cursor (length s.in_flight) (λ lt'. k.working f lt') gone in
    (
      over,
      elim (Bool-cases (is_some s.first_error)) [
        | inl failing ↦ inl (k.error failing)
        | inr fine ↦ elim (k.settled (omega (arith, all_taken fine, lt)) lt uncounted) [
          | inl (r, m, h) ↦ inr (ground arith, (r, m, h))
          | inr (e, m, h) ↦ absurd (ground arith)
        ]
      ],
    )
