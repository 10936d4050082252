-- ===== src/Delivery/Burst.antt =====
-- apps/worker/src/modules/telegram-first-signal.ts: `splitFirstSignalListings`; telegram-flash-policy.ts
-- and realtime-dispatch-policy.ts beside it: how a burst of listings is cut into messages. That the
-- text of a bundle can be built, without an error, is a parameter, `renders`. Limits are not negative.
use auto_monitor_bot.Base.{
  ℕ, ◌≤◌, ◌<◌, max, min, ◌≡◌, refl, subst, Bool, true, false, not, ◌&&◌, ◌||◌, List, [], ◌∷◌, ◌++◌,
  Option, none, some, arith, ltb, if◌then◌else◌, if_cases, length, length-append, take, drop, All,
  take-append-drop, length-take, sym, ap, ◌∙◌, append_assoc, append_nil, inl, inr, ◌⊎◌,
}
use auto_monitor_bot.Domain.{Lane, is_realtime_lane}

module _ {ℓ} {A : Type ℓ} where
  abbrev pub is_filled : List A → Bool
  is_filled [] = false
  is_filled (x ∷ xs) = true

  abbrev pub concat : List (List A) → List A
  concat [] = []
  concat (g ∷ gs) = g ++ concat gs

  -- The loop of `splitFirstSignalListings`; `none` where it throws.
  unfoldable pub split_rows :
      (List A → Bool) → ℕ → List A → List A → List (List A) → Option (List (List A))
  split_rows renders max_items [] group groups =
      some (if is_filled group then groups ++ group ∷ [] else groups)
  split_rows renders max_items (row ∷ rows) group groups =
      let fits = ltb (length group) (max 1 max_items) && renders (group ++ row ∷ []) in
      let rest = split_rows renders max_items rows (group ++ row ∷ []) groups in
      let closed = split_rows renders max_items rows (row ∷ []) (groups ++ group ∷ []) in
      if not (renders (row ∷ []))
      then none
      else if not fits && is_filled group
      then closed
      else rest

  -- `splitFirstSignalListings`.
  unfoldable pub split_first_signal_listings : (List A → Bool) → List A → ℕ → Option (List (List A))
  split_first_signal_listings renders rows max_items = split_rows renders max_items rows [] []

  -- What a message may hold.
  abbrev pub IsMessage : (List A → Bool) → ℕ → List A → Type 0
  IsMessage renders max_items group =
      (0 < length group) × (length group ≤ max 1 max_items) × (renders group ≡ true)

  -- The groups hold the rows in their order, and each is a message.
  abbrev pub IsSplit : (List A → Bool) → ℕ → List A → List (List A) → Type ℓ
  IsSplit renders max_items rows groups =
      (concat groups ≡ rows) × All (IsMessage renders max_items) groups

  concat-append : (gs : List (List A)) (g : List A) → concat (gs ++ g ∷ []) ≡ concat gs ++ g
  concat-append [] g = append_nil g
  concat-append (h ∷ gs) g = ap (◌++◌ h) (concat-append gs g) ∙ sym (append_assoc h (concat gs) g)

  All-append :
      (P : List A → Type 0) (gs : List (List A)) (g : List A)
      → All P gs
      → P g
      → All P (gs ++ g ∷ [])
  All-append P [] g a p = (p, tt)
  All-append P (h ∷ gs) g a p = (a.0, All-append P gs g a.1 p)

  -- The outcome of the loop, for the rows in their order.
  abbrev Splits : (List A → Bool) → ℕ → List A → Option (List (List A)) → Type ℓ
  Splits renders n rows o =
      (result : List (List A)) × (o ≡ some result) × IsSplit renders n rows result

  extended-IsMessage :
      (renders : List A → Bool) (n : ℕ) (group : List A) (row : A)
      → renders (row ∷ []) ≡ true
      → (not (ltb (length group) (max 1 n) && renders (group ++ row ∷ [])) && is_filled group)
        ≡ false
      → IsMessage renders n (group ++ row ∷ [])
  extended-IsMessage renders n [] row r h = (omega arith, omega arith, r)
  extended-IsMessage renders n (x ∷ xs) row r h =
      let longer = length-append (x ∷ xs) (row ∷ []) in
      (ground (arith, longer), ground (arith, longer), ground arith)

  filled-IsMessage :
      (renders : List A → Bool) (n : ℕ) (group : List A)
      → (is_filled group ≡ false) ⊎ IsMessage renders n group
      → is_filled group ≡ true
      → IsMessage renders n group
  filled-IsMessage renders n group (inl e) f = ground arith
  filled-IsMessage renders n group (inr m) f = m

  -- What is read so far, and what is left.
  split_rows-IsSplit :
      (renders : List A → Bool) (n : ℕ) (rows group : List A) (groups : List (List A))
      → All (λ row. renders (row ∷ []) ≡ true) rows
      → All (IsMessage renders n) groups
      → (is_filled group ≡ false) ⊎ IsMessage renders n group
      → Splits renders n (concat groups ++ (group ++ rows)) (split_rows renders n rows group groups)
  unfolding split_rows
  split_rows-IsSplit renders n [] [] groups a ms m =
      (groups, refl, (sym (append_nil (concat groups)), ms))
  split_rows-IsSplit renders n [] (x ∷ xs) groups a ms (inl e) = ground arith
  split_rows-IsSplit renders n [] (x ∷ xs) groups a ms (inr m) = (
    groups ++ (x ∷ xs) ∷ [],
    refl,
    (
      concat-append groups (x ∷ xs) ∙ ap (◌++◌ (concat groups)) (sym (append_nil (x ∷ xs))),
      All-append (IsMessage renders n) groups (x ∷ xs) ms m,
    ),
  )
  split_rows-IsSplit renders n (row ∷ rows) group groups a ms m =
      let P = Splits renders n (concat groups ++ (group ++ row ∷ rows)) in
      if_cases P (not (renders (row ∷ []))) (λ broken. ground (arith, a.0))
        (λ alone.
          if_cases P
            (not (ltb (length group) (max 1 n) && renders (group ++ row ∷ [])) && is_filled group)
            (λ full.
              let message = filled-IsMessage renders n group m (ground arith) in
              let path =
                ap (λ x. x ++ (row ∷ rows)) (concat-append groups group)
                ∙ append_assoc (concat groups) group (row ∷ rows) in
              subst
                (λ x.
                  Splits renders n x (split_rows renders n rows (row ∷ []) (groups ++ group ∷ [])))
                path
                (split_rows-IsSplit renders n rows (row ∷ []) (groups ++ group ∷ []) a.1
                  (All-append (IsMessage renders n) groups group ms message)
                  (inr (omega arith, omega arith, a.0))))
            (λ room.
              subst (λ x. Splits renders n x (split_rows renders n rows (group ++ row ∷ []) groups))
                (ap (◌++◌ (concat groups)) (append_assoc group (row ∷ []) rows))
                (split_rows-IsSplit renders n rows (group ++ row ∷ []) groups a.1 ms
                  (inr (extended-IsMessage renders n group row a.0 room)))))

  -- Where each listing alone can be rendered, the split returns, and nothing of the burst is lost: the
  -- messages, one after another, are the listings in their order, and each holds at least one
  -- listing, no more than the limit, and a text that can be built. A limit of 0 counts as 1.
  pub split_first_signal_listings-IsSplit :
      (renders : List A → Bool) (rows : List A) (max_items : ℕ)
      → All (λ row. renders (row ∷ []) ≡ true) rows
      → (groups : List (List A)) × (split_first_signal_listings renders rows max_items
          ≡ some groups)
        × IsSplit renders max_items rows groups
  unfolding split_first_signal_listings
  split_first_signal_listings-IsSplit renders rows max_items a =
      split_rows-IsSplit renders max_items rows [] [] a tt (inl refl)

-- `TelegramFlashPlan`.
pub record FlashPlan {ℓ} (A : Type ℓ) : Type ℓ where
  pub enabled : Bool
  pub flash : List A
  pub remainder : List A

-- `planTelegramFlashBundle`.
unfoldable pub plan_telegram_flash_bundle {ℓ} :
    {A : Type ℓ} → List A → Lane → Bool → ℕ → ℕ → FlashPlan A
plan_telegram_flash_bundle listings lane enabled min_items max_items =
    let least = max 2 min_items in
    let most = max least max_items in
    if not enabled || not (is_realtime_lane lane) || ltb (length listings) least
    then record { enabled = false; flash = []; remainder = listings }
    else record { enabled = true; flash = take most listings; remainder = drop most listings }

-- `planRealtimeDispatch`: the inline and the queued items.
unfoldable pub plan_realtime_dispatch {ℓ} : {A : Type ℓ} → List A → ℕ → List A × List A
plan_realtime_dispatch items slots =
    let inline = min (length items) slots in (take inline items, drop inline items)

-- A plan cuts the items in two and loses none; only a prefix within the slots is sent inline.
pub plan_realtime_dispatch-cuts {ℓ} :
    {A : Type ℓ} (items : List A) (slots : ℕ)
    → ((plan_realtime_dispatch items slots).0 ++ (plan_realtime_dispatch items slots).1 ≡ items)
      × (length (plan_realtime_dispatch items slots).0 ≤ slots)
unfolding plan_realtime_dispatch
plan_realtime_dispatch-cuts items slots = (
  take-append-drop (min (length items) slots) items,
  omega (arith, length-take (min (length items) slots) items),
)
