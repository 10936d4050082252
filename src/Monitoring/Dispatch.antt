-- ===== src/Monitoring/Dispatch.antt =====
-- apps/worker/src/processors/collector-run-helpers.ts: `dispatchListings`, down to the calls that it makes
-- for its listings, in their order. What a call returns or throws stays with its listing.
use auto_monitor_bot.Base.{
  false, ℕ, zero, suc, length-take, ◌+◌, ◌-◌, ◌≤◌, max, ◌≡◌, refl, ap, ◌∙◌, Bool, true, List, [],
  ◌∷◌, ◌++◌, arith, if◌then◌else◌, length, take, drop, take-append-drop, if_cases,
}
use auto_monitor_bot.Domain.{Lane, is_background_discovery_lane}
use auto_monitor_bot.Delivery.Burst.{
  plan_telegram_flash_bundle, plan_realtime_dispatch, plan_realtime_dispatch-cuts,
}

-- The environment of the dispatch.
pub record DispatchEnv : Type 0 where
  pub flash_enabled : Bool
  pub flash_min_items : ℕ
  pub flash_max_items : ℕ
  pub inline_limit : ℕ

-- `dispatchFlashListings` for a chunk, or `dispatchListing` with and without `allowInline`.
pub data DispatchCall {ℓ} (A : Type ℓ) : Type ℓ where
  flash_listings : List A → DispatchCall A
  inline_listing queued_listing : A → DispatchCall A

module _ {ℓ} {A : Type ℓ} where
  -- The loop over the offsets; each turn leaves fewer listings, so as many turns as listings are enough.
  unfoldable pub flash_chunks : ℕ → ℕ → List A → List (DispatchCall A)
  flash_chunks zero size listings = []
  flash_chunks (suc turns) size [] = []
  flash_chunks (suc turns) size (x ∷ xs) =
      let rest = flash_chunks turns size (drop size (x ∷ xs)) in
      flash_listings (take size (x ∷ xs)) ∷ rest

  abbrev each : (A → DispatchCall A) → List A → List (DispatchCall A)
  each f [] = []
  each f (x ∷ xs) = f x ∷ each f xs

  -- `dispatchListings`: the calls, and the inline budget behind them.
  unfoldable pub dispatch_listings : DispatchEnv → Lane → List A → ℕ → List (DispatchCall A) × ℕ
  dispatch_listings env lane listings used =
      let flash =
        plan_telegram_flash_bundle listings lane env.flash_enabled env.flash_min_items
          env.flash_max_items in
      let plan =
        plan_realtime_dispatch listings
          (if is_background_discovery_lane lane then 0 else env.inline_limit - used) in
      if flash.enabled
      then (flash_chunks (length listings) (length flash.flash) listings, max used env.inline_limit)
      else (each inline_listing plan.0 ++ each queued_listing plan.1, used + length plan.0)

  -- The listings of the calls.
  abbrev pub handed_on : List (DispatchCall A) → List A
  handed_on [] = []
  handed_on (flash_listings xs ∷ calls) = xs ++ handed_on calls
  handed_on (inline_listing x ∷ calls) = x ∷ handed_on calls
  handed_on (queued_listing x ∷ calls) = x ∷ handed_on calls

  -- The listings that a run handles one by one ahead of its queue; those of bursts are not among them.
  abbrev pub single_inline_count : List (DispatchCall A) → ℕ
  single_inline_count [] = 0
  single_inline_count (inline_listing x ∷ calls) = suc (single_inline_count calls)
  single_inline_count (c ∷ calls) = single_inline_count calls

  drop-shorter :
      (size : ℕ) (x : A) (xs : List A) → 1 ≤ size → length (drop size (x ∷ xs)) ≤ length xs
  drop-shorter zero x xs h = absurd (omega (arith, h))
  drop-shorter (suc zero) x xs h = omega arith
  drop-shorter (suc (suc size)) x [] h = omega arith
  drop-shorter (suc (suc size)) x (y ∷ xs) h =
      omega (arith, drop-shorter (suc size) y xs (omega arith))

  flash_chunks-handed_on :
      (turns size : ℕ) (listings : List A)
      → 1 ≤ size
      → length listings ≤ turns
      → handed_on (flash_chunks turns size listings) ≡ listings
  unfolding flash_chunks
  flash_chunks-handed_on zero size [] s h = refl
  flash_chunks-handed_on zero size (x ∷ xs) s h = absurd (omega (arith, h))
  flash_chunks-handed_on (suc turns) size [] s h = refl
  flash_chunks-handed_on (suc turns) size (x ∷ xs) s h =
      ap (λ ys. take size (x ∷ xs) ++ ys)
        (flash_chunks-handed_on turns size (drop size (x ∷ xs)) s
          (omega (arith, drop-shorter size x xs s)))
      ∙ take-append-drop size (x ∷ xs)

  flash_chunks-inline :
      (turns size : ℕ) (listings : List A)
      → single_inline_count (flash_chunks turns size listings) ≡ 0
  unfolding flash_chunks
  flash_chunks-inline zero size listings = refl
  flash_chunks-inline (suc turns) size [] = refl
  flash_chunks-inline (suc turns) size (x ∷ xs) =
      flash_chunks-inline turns size (drop size (x ∷ xs))

  queued-handed_on : (xs : List A) → handed_on (each queued_listing xs) ≡ xs
  queued-handed_on [] = refl
  queued-handed_on (x ∷ xs) = ap (λ ys. x ∷ ys) (queued-handed_on xs)

  each-handed_on :
      (xs ys : List A) → handed_on (each inline_listing xs ++ each queued_listing ys) ≡ xs ++ ys
  each-handed_on [] ys = queued-handed_on ys
  each-handed_on (x ∷ xs) ys = ap (λ zs. x ∷ zs) (each-handed_on xs ys)

  queued-inline : (xs : List A) → single_inline_count (each queued_listing xs) ≡ 0
  queued-inline [] = refl
  queued-inline (x ∷ xs) = queued-inline xs

  each-inline :
      (xs ys : List A)
      → single_inline_count (each inline_listing xs ++ each queued_listing ys) ≡ length xs
  each-inline [] ys = queued-inline ys
  each-inline (x ∷ xs) ys = ap suc (each-inline xs ys)

  -- A call for a burst takes at least one listing.
  flash-filled :
      (env : DispatchEnv) (lane : Lane) (listings : List A)
      → let flash =
          plan_telegram_flash_bundle listings lane env.flash_enabled env.flash_min_items
            env.flash_max_items in
        flash.enabled ≡ true → 1 ≤ length flash.flash
  unfolding plan_telegram_flash_bundle
  flash-filled env lane listings h =
      ground (arith, length-take (max (max 2 env.flash_min_items) env.flash_max_items) listings)

  abbrev pub has_burst : List (DispatchCall A) → Bool
  has_burst [] = false
  has_burst (flash_listings xs ∷ calls) = true
  has_burst (c ∷ calls) = has_burst calls

  queued-has_burst : (xs : List A) → has_burst (each queued_listing xs) ≡ false
  queued-has_burst [] = refl
  queued-has_burst (x ∷ xs) = queued-has_burst xs

  each-has_burst :
      (xs ys : List A) → has_burst (each inline_listing xs ++ each queued_listing ys) ≡ false
  each-has_burst [] ys = queued-has_burst ys
  each-has_burst (x ∷ xs) ys = each-has_burst xs ys

  -- A batch loses no listing and keeps the order: the calls, one after another, take the listings as
  -- they came, in bursts or one by one. Of those that go one by one, a run handles no more ahead of its
  -- queue than its budget has left, and takes them off it. A burst is handled whatever is left of the
  -- budget, and uses it up.
  pub dispatch_listings-handed_on :
      (env : DispatchEnv) (lane : Lane) (listings : List A) (used : ℕ)
      → let out = dispatch_listings env lane listings used in
        (handed_on out.0 ≡ listings)
        × (single_inline_count out.0 ≤ env.inline_limit - used)
        × (used + single_inline_count out.0 ≤ out.1)
        × (out.1 ≤ max used env.inline_limit)
        × (has_burst out.0 ≡ true → out.1 ≡ max used env.inline_limit)
  unfolding dispatch_listings
  dispatch_listings-handed_on env lane listings used =
      let flash =
        plan_telegram_flash_bundle listings lane env.flash_enabled env.flash_min_items
          env.flash_max_items in
      let slots = if is_background_discovery_lane lane then 0 else env.inline_limit - used in
      let plan = plan_realtime_dispatch listings slots in
      let cuts = plan_realtime_dispatch-cuts listings slots in
      if_cases
        (λ (out : List (DispatchCall A) × ℕ).
          (handed_on out.0 ≡ listings)
          × (single_inline_count out.0 ≤ env.inline_limit - used)
          × (used + single_inline_count out.0 ≤ out.1)
          × (out.1 ≤ max used env.inline_limit)
          × (has_burst out.0 ≡ true → out.1 ≡ max used env.inline_limit))
        flash.enabled
        (λ burst.
          let none_inline = flash_chunks-inline (length listings) (length flash.flash) listings in
          (
            flash_chunks-handed_on (length listings) (length flash.flash) listings
                (flash-filled env lane listings burst) (omega arith),
            omega (arith, none_inline),
            omega (arith, none_inline),
            omega arith,
            λ b. refl,
          ))
        (λ single.
          let inline = each-inline plan.0 plan.1 in
          (
            each-handed_on plan.0 plan.1 ∙ cuts.0,
            ground (arith, inline, cuts.1),
            omega (arith, inline),
            ground (arith, cuts.1),
            λ b. absurd (ground (arith, each-has_burst plan.0 plan.1)),
          ))
