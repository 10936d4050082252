-- ===== src/Worker/OriginPolicy.antt =====
-- apps/worker/src/modules/olx-request-coordinator.ts: `createOlxOriginPolicy`, the check before each
-- request, with its memo of the source's row. The row that the database shows at a time is a
-- parameter, read at the time that the code takes before its query; so is whether the guard on the
-- worker's leadership passes. Times are milliseconds.
use auto_monitor_bot.Base.{
  ℕ, ◌+◌, ◌≤◌, ◌<◌, ◌≡◌, refl, Bool, true, false, not, ◌||◌, List, [], ◌∷◌, Option, none, some,
  arith, ltb, leb, if◌then◌else◌, if_cases, or_else, ap, subst, ◌∙◌, Option-cases, inl, inr,
}
use auto_monitor_bot.Domain.{SourceStatus, active, limited}
use auto_monitor_bot.Origin.Request.{RequestClass, is_realtime}

pub record SourceRow : Type 0 where
  pub enabled : Bool
  pub status : SourceStatus
  pub paused_until : Option ℕ

pub record Cached : Type 0 where
  pub enabled : Bool
  pub status : Option SourceStatus
  pub paused_until_ms : ℕ
  pub expires_at : ℕ

abbrev pub memo_ms : ℕ
memo_ms = 2000

unfoldable pub cache_row : ℕ → Option SourceRow → Cached
cache_row now none = record {
  enabled = false;
  status = none;
  paused_until_ms = 0;
  expires_at = now + memo_ms;
}
cache_row now (some row) = record {
  enabled = row.enabled;
  status = some row.status;
  paused_until_ms = or_else row.paused_until 0;
  expires_at = now + memo_ms;
}

-- `["ACTIVE", "LIMITED"].includes(status)`.
abbrev pub allows_background : Option SourceStatus → Bool
allows_background (some active) = true
allows_background (some limited) = true
allows_background _ = false

abbrev denies : ℕ → RequestClass → Cached → Bool
denies now request_class c =
    not c.enabled
    || ltb now c.paused_until_ms
    || (if is_realtime request_class then false else not (allows_background c.status))

module _ (row_at : ℕ → Option SourceRow) where
  abbrev refreshed : ℕ → Option Cached → Cached
  refreshed now none = cache_row now (row_at now)
  refreshed now (some c) = if leb c.expires_at now then cache_row now (row_at now) else c

  -- One check: whether the request may go, and the memo after it. A failed guard keeps the memo.
  unfoldable pub check_origin : ℕ → Bool → RequestClass → Option Cached → Bool × Option Cached
  check_origin now false request_class cached = (false, cached)
  check_origin now true request_class cached =
      let c = refreshed now cached in (not (denies now request_class c), some c)

  -- The memo after checks at given times, in order.
  unfoldable pub check_all : List (ℕ × Bool × RequestClass) → Option Cached → Option Cached
  check_all [] cached = cached
  check_all ((now, passes, c) ∷ rest) cached = check_all rest (check_origin now passes c cached).1

  -- A memo shows the row of the time at which it was read.
  abbrev IsRead : Option Cached → Type 0
  IsRead none = Unit
  IsRead (some c) = (t : ℕ) × (c ≡ cache_row t (row_at t))

  refreshed-IsRead :
      (now : ℕ) (cached : Option Cached) → IsRead cached → IsRead (some (refreshed now cached))
  refreshed-IsRead now none v = (now, refl)
  refreshed-IsRead now (some c) v =
      if_cases (λ r. IsRead (some r)) (leb c.expires_at now) (λ _. (now, refl)) (λ _. v)

  check_all-IsRead :
      (checks : List (ℕ × Bool × RequestClass)) (cached : Option Cached)
      → IsRead cached
      → IsRead (check_all checks cached)
  unfolding check_all check_origin
  check_all-IsRead [] cached v = v
  check_all-IsRead ((now, false, c) ∷ rest) cached v = check_all-IsRead rest cached v
  check_all-IsRead ((now, true, c) ∷ rest) cached v =
      check_all-IsRead rest (some (refreshed now cached)) (refreshed-IsRead now cached v)

  expires_at-cache_row :
      (t : ℕ) (row : Option SourceRow) → (cache_row t row).expires_at ≡ t + memo_ms
  unfolding cache_row
  expires_at-cache_row t none = refl
  expires_at-cache_row t (some row) = refl

  -- The row, read at `t`, lets a request through at `now`.
  pub record Permits (t now : ℕ) (request_class : RequestClass) : Type 0 where
    pub recent : now < t + 2000
    pub row : SourceRow
    pub row_read : row_at t ≡ some row
    pub enabled : row.enabled ≡ true
    pub not_paused : or_else row.paused_until 0 ≤ now
    pub background_allowed :
        (is_realtime request_class || allows_background (some row.status)) ≡ true

  Permits-read :
      (t now : ℕ) (request_class : RequestClass)
      → now < t + memo_ms
      → denies now request_class (cache_row t (row_at t)) ≡ false
      → Permits t now request_class
  unfolding cache_row
  Permits-read t now request_class recent h = elim (Option-cases (row_at t)) [
    | inl e ↦ absurd (ground (arith, e))
    | inr (row, e) ↦ record {
      recent = recent;
      row = row;
      row_read = e;
      enabled = ground (arith, e);
      not_paused = ground (arith, e);
      background_allowed = ground (arith, e);
    }
  ]

  refreshed-fresh : (now : ℕ) (cached : Option Cached) → now < (refreshed now cached).expires_at
  refreshed-fresh now none = ground (arith, expires_at-cache_row now (row_at now))
  refreshed-fresh now (some c) = ground (arith, expires_at-cache_row now (row_at now))

  -- After any checks from an empty memo, a request that is let through is let through by a row of
  -- the database that was read less than two seconds ago: enabled, its pause over at that moment,
  -- and ACTIVE or LIMITED where the request is not realtime.
  pub check_origin-Permits :
      (checks : List (ℕ × Bool × RequestClass)) (now : ℕ) (passes : Bool)
      (request_class : RequestClass)
      → (check_origin now passes request_class (check_all checks none)).0 ≡ true
      → (t : ℕ) × Permits t now request_class
  unfolding check_origin
  check_origin-Permits checks now false request_class h = cc
  check_origin-Permits checks now true request_class h =
      let c = refreshed now (check_all checks none) in
      let (t, e) = refreshed-IsRead now (check_all checks none) (check_all-IsRead checks none tt) in
      (
        t,
        Permits-read t now request_class
            (subst (λ k. now < k) (ap (λ k. k.expires_at) e ∙ expires_at-cache_row t (row_at t))
              (refreshed-fresh now (check_all checks none)))
            (subst (λ k. denies now request_class k ≡ false) e (ground arith)),
      )
