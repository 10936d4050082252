-- ===== src/Lease/Claim.antt =====
-- apps/worker/src/modules/hot-duplicate-guard.ts: the claim on a listing before it is sent, over the
-- Redis key of that listing.
-- A token is a number; times are milliseconds. Where Redis fails, the claim is given without a token.
use auto_monitor_bot.Base.{
  ℕ, ◌+◌, ◌*◌, ◌<◌, ◌≡◌, ◌≢◌, refl, Bool, true, false, not, ◌&&◌, List, [], ◌∷◌, Option, none, some,
  arith, ltb, ◌==◌, if◌then◌else◌, All,
}

pub record ClaimKey : Type 0 where
  pub token : ℕ
  pub expires_at : ℕ

-- `HotListingClaim`, without its key.
pub data Claim : Type 0 where
  by_token : ℕ → Claim
  unguarded : Claim

abbrev pub is_taken : ℕ → Option ClaimKey → Bool
is_taken now none = false
is_taken now (some k) = ltb now k.expires_at

abbrev is_token : ℕ → Option ClaimKey → Bool
is_token token none = false
is_token token (some k) = k.token == token

-- `claimHotListing`; `reachable` says whether Redis answers.
unfoldable pub claim_hot_listing :
    ℕ → ℕ → ℕ → Bool → Option ClaimKey → Option Claim × Option ClaimKey
claim_hot_listing ttl_seconds now token reachable key =
    if not reachable then (some unguarded, key) else if is_taken now key then (none, key) else (
      some (by_token token),
      some (record { token = token; expires_at = now + ttl_seconds * 1000 }),
    )

-- `releaseHotListingClaim`, with RELEASE_HOT_LISTING_CLAIM_LUA.
unfoldable pub release_hot_listing_claim : ℕ → Claim → Bool → Option ClaimKey → Option ClaimKey
release_hot_listing_claim now unguarded reachable key = key
release_hot_listing_claim now (by_token token) reachable key =
    if reachable && is_taken now key && is_token token key then none else key

pub data ClaimEvent : Type 0 where
  claims : (token : ℕ) (reachable : Bool) → ClaimEvent
  releases : (claim : Claim) (reachable : Bool) → ClaimEvent

unfoldable pub claim_step : ℕ → ℕ → ClaimEvent → Option ClaimKey → Option ClaimKey
claim_step ttl now (claims token reachable) key = (claim_hot_listing ttl now token reachable key).1
claim_step ttl now (releases claim reachable) key =
    release_hot_listing_claim now claim reachable key

unfoldable pub claim_run : ℕ → List (ℕ × ClaimEvent) → Option ClaimKey → Option ClaimKey
claim_run ttl [] key = key
claim_run ttl ((now, ev) ∷ evs) key = claim_run ttl evs (claim_step ttl now ev key)

-- The event does not release the claim of `token`.
abbrev pub Spares : ℕ → ClaimEvent → Type 0
Spares token (releases (by_token other) reachable) = other ≢ token
Spares token _ = Unit

claim_step-kept :
    (ttl now token until : ℕ) (ev : ClaimEvent)
    → now < until
    → Spares token ev
    → claim_step ttl now ev (some (record { token = token; expires_at = until }))
      ≡ some (record { token = token; expires_at = until })
unfolding claim_step claim_hot_listing release_hot_listing_claim
claim_step-kept ttl now token until (claims other reachable) h n = ground arith
claim_step-kept ttl now token until (releases unguarded reachable) h n = ground arith
claim_step-kept ttl now token until (releases (by_token other) reachable) h n = ground arith

claim_run-kept :
    (ttl token until : ℕ) (evs : List (ℕ × ClaimEvent))
    → All (λ e. (e.0 < until) × Spares token e.1) evs
    → claim_run ttl evs (some (record { token = token; expires_at = until }))
      ≡ some (record { token = token; expires_at = until })
unfolding claim_run
claim_run-kept ttl token until [] a = refl
claim_run-kept ttl token until ((now, ev) ∷ evs) a =
    rw (claim_step-kept ttl now token until ev a.0.0 a.0.1) (claim_run-kept ttl token until evs a.1)

-- A token that Redis has given the claim keeps it: until its time is over, or the same token releases
-- it, no history of claims and releases by others gives the claim to another token.
pub claim_hot_listing-exclusive :
    (ttl now token at other : ℕ) (key : Option ClaimKey) (evs : List (ℕ × ClaimEvent))
    → (claim_hot_listing ttl now token true key).0 ≡ some (by_token token)
    → All (λ e. (e.0 < now + ttl * 1000) × Spares token e.1) evs
    → at < now + ttl * 1000
    → (claim_hot_listing ttl at other true
        (claim_run ttl evs (claim_hot_listing ttl now token true key).1)).0
      ≡ none
unfolding claim_hot_listing
claim_hot_listing-exclusive ttl now token at other key evs h a l =
    let kept = claim_run-kept ttl token (now + ttl * 1000) evs a in ground (arith, kept)
