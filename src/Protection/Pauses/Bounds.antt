-- ===== src/Protection/Pauses/Bounds.antt =====
-- How long the pauses of packages/shared/src/utils/jitter.ts and
-- apps/worker/src/modules/source-protection-policy.ts are, and how they grow.
use native.Mathlib.Nat.{
  pow-suc, pow-le-pow_right, mul-le-mul_left, mul-le-mul_right, div-add-mod, mod-lt, le_trans,
}
use auto_monitor_bot.Base.{
  ℕ, zero, suc, ◌+◌, ◌-◌, ◌*◌, ◌^◌, ◌≤◌, ◌<◌, max, min, ◌≡◌, refl, ◌⊎◌, none, some, inl, inr, arith,
  or_else,
}
use auto_monitor_bot.Domain.{olx, rst}
use auto_monitor_bot.Protection.Pauses.{
  protection_pause_seconds, ceil_div, CaptchaInput, captcha_pause_seconds, RateLimitInput,
  rate_limit_pause_seconds,
}

le_or_lt : (a b : ℕ) → (a ≤ b) ⊎ (b < a)
le_or_lt a b = omega arith

lt→le : {a b : ℕ} → a < b → a ≤ b
lt→le h = omega arith

lt-two_pow : (n : ℕ) → n < 2 ^ n
lt-two_pow zero = omega arith
lt-two_pow (suc n) = rw (pow-suc 2 n) (omega (arith, lt-two_pow n))

le-mul-ceil_div : (a b : ℕ) → 0 < b → a ≤ b * ceil_div a b
le-mul-ceil_div a b h = omega (arith, div-add-mod (a + (b - 1)) b, mod-lt (a + (b - 1)) h)

-- A multiplier may be cut off where the product has passed the maximum.
min-mul-min : (b p q m : ℕ) → m ≤ b * q → min (b * min p q) m ≡ min (b * p) m
min-mul-min b p q m h = elim (le_or_lt p q) [
  | inl small ↦ let e : min p q ≡ p = omega arith in rw e refl
  | inr large ↦
      let e : min p q ≡ q = omega arith in rw e (omega (arith, h, mul-le-mul_left b (lt→le large)))
]

-- Without a hint of the server the pause is the base, doubled for each prior error, up to the
-- maximum: that the multiplier is cut off early changes nothing.
pub protection_pause_seconds-doubles :
    (n base most : ℕ)
    → protection_pause_seconds (record {
      retry_after_seconds = none;
      consecutive_errors = some n;
      base_seconds = base;
      max_seconds = most;
    })
      ≡ min (max 1 base * 2 ^ n) (max 1 most)
unfolding protection_pause_seconds
protection_pause_seconds-doubles n base most = min-mul-min (max 1 base) (2 ^ n) _ (max 1 most) (
    le_trans (le-mul-ceil_div (max 1 most) (max 1 base) (omega arith))
      (mul-le-mul_left (max 1 base) (omega arith)))

abbrev pub pause_after : ℕ → ℕ → ℕ → ℕ
pause_after n base most = protection_pause_seconds (record {
  retry_after_seconds = none;
  consecutive_errors = some n;
  base_seconds = base;
  max_seconds = most;
})

doubled : (n base : ℕ) → 2 ^ n ≤ max 1 base * 2 ^ n
doubled n base = omega (arith, mul-le-mul_right (2 ^ n) positive)
  where
    positive : 1 ≤ max 1 base
    positive = omega arith

grows : (n base : ℕ) → max 1 base * 2 ^ n ≤ max 1 base * 2 ^ suc n
grows n base = mul-le-mul_left (max 1 base) (omega (arith, pow-suc 2 n))

-- The pause grows with the number of prior errors, is at least one second and at most the maximum,
-- and is at the maximum once there are as many errors as the maximum has seconds.
pub protection_pause_seconds-escalates :
    (n base most : ℕ)
    → (1 ≤ pause_after n base most)
      × (pause_after n base most ≤ pause_after (suc n) base most)
      × (pause_after n base most ≤ max 1 most)
      × (pause_after (most + n) base most ≡ max 1 most)
protection_pause_seconds-escalates n base most =
    rw
      (
        protection_pause_seconds-doubles n base most,
        protection_pause_seconds-doubles (suc n) base most,
        protection_pause_seconds-doubles (most + n) base most,
      )
      (
        omega (arith, doubled n base, lt-two_pow n),
        omega (arith, grows n base),
        omega arith,
        omega (arith, doubled (most + n) base, lt-two_pow (most + n)),
      )

-- An OLX 403 pauses between 6 and 24 hours whatever the configuration and the server's hint, and
-- two errors more reach 24 hours.
pub rate_limit_pause_seconds-olx_forbidden :
    (i : RateLimitInput)
    → i.source ≡ olx
    → i.response_status ≡ some 403
    → (21600 ≤ rate_limit_pause_seconds i)
      × (rate_limit_pause_seconds i ≤ 86400)
      × (rate_limit_pause_seconds (record i { consecutive_errors = i.consecutive_errors + 2 })
          ≡ 86400)
unfolding rate_limit_pause_seconds
rate_limit_pause_seconds-olx_forbidden i s r =
    ground (arith, lt-two_pow i.consecutive_errors, four_le i.consecutive_errors)
  where
    two_le : (n : ℕ) → 2 ≤ n + 2
    two_le n = omega arith

    four_le : (n : ℕ) → 4 ≤ 2 ^ (n + 2)
    four_le n = pow-le-pow_right {n = 2} (omega arith) (two_le n)

abbrev pub attempts : CaptchaInput → ℕ
attempts i = max i.consecutive_errors (or_else i.prior_probe_attempts 0)

-- For RST the pause never shrinks as attempts are repeated from the third on, and it is between one
-- and seven days, whether errors or prior probes count more.
pub captcha_pause_seconds-rst :
    (i j : CaptchaInput)
    → i.source ≡ rst
    → j.source ≡ rst
    → 3 ≤ attempts i
    → attempts i ≤ attempts j
    → (86400 ≤ captcha_pause_seconds i)
      × (captcha_pause_seconds i ≤ captcha_pause_seconds j)
      × (captcha_pause_seconds j ≤ 604800)
unfolding captcha_pause_seconds
captcha_pause_seconds-rst i j a b h k = ground arith
