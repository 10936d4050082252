-- ===== src/Worker/RecoveryProgress.antt =====
-- apps/worker/src/modules/recovery-progress.ts: the progress of a recovery through the pages of a
-- search, and the delay of its next attempt. Pages and counts are natural numbers; a reason stands
-- with whether it is BACKGROUND_SLOT_UNAVAILABLE.
use auto_monitor_bot.Base.{
  ℕ, ◌+◌, ◌-◌, ◌*◌, ◌^◌, ◌≤◌, min, max, ◌≡◌, Bool, false, List, [], ◌∷◌, Option, none, some, arith,
  ltb, if◌then◌else◌, ◌∙◌, or_else,
}
use native.Mathlib.Nat.{pow-le-pow_right, mul-le-mul_left}

pub record ProgressInput : Type 0 where
  pub current_progress_page : Option ℕ
  pub attempted_progress_page : Option ℕ
  pub current_consecutive_no_progress : ℕ
  pub slot_unavailable : Bool
  pub base_backoff_ms : Option ℕ
  pub max_backoff_ms : Option ℕ

-- `RecoveryProgressDecision`.
pub record ProgressDecision : Type 0 where
  pub progress_page : ℕ
  pub progressed : Bool
  pub consecutive_no_progress : ℕ
  pub retry_delay_ms : ℕ

abbrev pub current_page : ProgressInput → ℕ
current_page i = max 1 (or_else i.current_progress_page 1)

abbrev pub base_backoff : ProgressInput → ℕ
base_backoff i = max 1000 (or_else i.base_backoff_ms 5000)

abbrev pub backoff_cap : ProgressInput → ℕ
backoff_cap i = max (base_backoff i) (or_else i.max_backoff_ms 300000)

unfoldable pub decide_recovery_progress : ProgressInput → ProgressDecision
decide_recovery_progress i =
    let current = current_page i in
    let attempted = max 1 (or_else i.attempted_progress_page current) in
    let page = max current attempted in
    let progressed = ltb current page in
    let failures = if progressed then 0 else i.current_consecutive_no_progress + 1 in
    let base = base_backoff i in
    record {
      progress_page = page;
      progressed = progressed;
      consecutive_no_progress = failures;
      retry_delay_ms =
          if progressed
          then 1000
          else if i.slot_unavailable
          then base
          else min (backoff_cap i) (base * 2 ^ min 10 (failures - 1));
    }

abbrev attempt : ProgressInput → Option ℕ → ProgressInput
attempt i page = record i { attempted_progress_page = page }

-- Attempts at a recovery, each with the page that it reached, with the page and the count carried
-- on to the next.
unfoldable pub attempts : ProgressInput → List (Option ℕ) → ProgressInput
attempts i [] = i
attempts i (page ∷ pages) =
    let d = decide_recovery_progress (attempt i page) in
    attempts
      (record (attempt i page) {
        current_progress_page = some d.progress_page;
        current_consecutive_no_progress = d.consecutive_no_progress;
      })
      pages

abbrev pub max_page : List (Option ℕ) → ℕ
max_page [] = 1
max_page (p ∷ ps) = max (or_else p 1) (max_page ps)

-- After any attempts the page is the furthest of the one to begin with and those attempted.
pub attempts-furthest :
    (pages : List (Option ℕ)) (i : ProgressInput)
    → current_page (attempts i pages) ≡ max (current_page i) (max_page pages)
unfolding attempts decide_recovery_progress
attempts-furthest [] i = omega arith
attempts-furthest (none ∷ pages) i = attempts-furthest pages _ ∙ omega arith
attempts-furthest (some p ∷ pages) i = attempts-furthest pages _ ∙ omega arith

-- While no attempt reaches a new page, the delay never shrinks until it is capped.
pub decide_recovery_progress-backs_off :
    (i : ProgressInput) (n m : ℕ)
    → (decide_recovery_progress i).progressed ≡ false
    → n ≤ m
    → (decide_recovery_progress (record i { current_consecutive_no_progress = n })).retry_delay_ms
      ≤ (decide_recovery_progress (record i { current_consecutive_no_progress = m })).retry_delay_ms
unfolding decide_recovery_progress
decide_recovery_progress-backs_off i n m h l = ground (arith, delay (base_backoff i) n m l)
  where
    delay : (b n m : ℕ) → n ≤ m → b * 2 ^ min 10 (n + 1 - 1) ≤ b * 2 ^ min 10 (m + 1 - 1)
    delay b n m l = mul-le-mul_left b (pow-le-pow_right {n = 2} (omega arith) (omega arith))
