-- ===== src/Delivery/Dispatch.antt =====
-- apps/worker/src/modules/first-notification-dispatch.ts: the first notification of a listing. What
-- its dependencies do is an argument: how the inline send stands at its deadline, and which calls
-- throw. The calls are listed in their order; a result is absent where a call threw. What becomes of
-- a send that is in flight at the deadline belongs to the caller's later history and is left out.
use auto_monitor_bot.Base.{
  ℕ, max, ◌≡◌, ◌⊎◌, Bool, true, false, not, ◌&&◌, List, [], ◌∷◌, Option, none, some, arith,
  if◌then◌else◌, any,
}
use auto_monitor_bot.Domain.{Lane, is_background_discovery_lane}

pub data InlineResult : Type 0 where
  sent failed in_flight : InlineResult

pub record DispatchInput : Type 0 where
  pub discovery_lane : Lane
  pub inline_enabled : Bool
  pub ambiguous_retry_delay_ms : ℕ

-- Whether each of the dependencies resolves.
pub record Dependencies : Type 0 where
  pub inline_result : InlineResult
  pub enqueue_enrichment : Bool
  pub enqueue_telegram : Bool
  pub warn_inline_failure : Bool
  pub warn_enrichment_failure : Bool

pub data SendPriority : Type 0 where
  telegram_send backfill_telegram : SendPriority

pub data Call : Type 0 where
  sends_inline enqueues_enrichment warns_inline_failure warns_enrichment_failure : Call
  enqueues_telegram : SendPriority → Option ℕ → Call

pub data DispatchResult : Type 0 where
  inline_result in_flight_result queued : DispatchResult

-- A call that has to resolve for the rest to go on.
abbrev require : Bool → Call → Option DispatchResult × List Call → Option DispatchResult × List Call
require true c rest = (rest.0, c ∷ rest.1)
require false c rest = (none, c ∷ [])

abbrev returns : DispatchResult → Option DispatchResult × List Call
returns r = (some r, [])

abbrev after_enrichment : Dependencies → Option DispatchResult × List Call
after_enrichment d =
    if d.enqueue_enrichment then (some inline_result, enqueues_enrichment ∷ []) else (
      (require d.warn_enrichment_failure warns_enrichment_failure (returns inline_result)).0,
      enqueues_enrichment
          ∷ (require d.warn_enrichment_failure warns_enrichment_failure (returns inline_result)).1,
    )

abbrev after_inline :
    DispatchInput → Dependencies → InlineResult → Option DispatchResult × List Call
after_inline i d failed =
    require d.warn_inline_failure warns_inline_failure
      (require d.enqueue_telegram (enqueues_telegram telegram_send none) (returns queued))
after_inline i d in_flight = require d.warn_inline_failure warns_inline_failure (
    require d.enqueue_telegram
      (enqueues_telegram telegram_send (some (max 1 i.ambiguous_retry_delay_ms)))
      (returns in_flight_result))
after_inline i d sent = after_enrichment d

unfoldable pub dispatch_first_notification :
    DispatchInput → Dependencies → Option DispatchResult × List Call
dispatch_first_notification i d =
    let background = is_background_discovery_lane i.discovery_lane in
    let rest = after_inline i d d.inline_result in
    if not background && i.inline_enabled
    then (rest.0, sends_inline ∷ rest.1)
    else require d.enqueue_telegram
        (enqueues_telegram (if background then backfill_telegram else telegram_send) none)
        (returns queued)

abbrev pub is_send : Call → Bool
is_send sends_inline = true
is_send _ = false

abbrev pub is_immediate : Call → Bool
is_immediate (enqueues_telegram p none) = true
is_immediate _ = false

abbrev pub is_enqueue : Call → Bool
is_enqueue (enqueues_telegram p delay) = true
is_enqueue _ = false

abbrev pub is_inline_result : DispatchResult → Bool
is_inline_result inline_result = true
is_inline_result _ = false

-- A listing that the code reports as handled has either been sent inline, and is not queued for
-- Telegram, or it has been handed to the durable queue; and a send that may still succeed is never
-- repeated at once: its fallback waits for at least a millisecond.
pub dispatch_first_notification-handed_over :
    (i : DispatchInput) (d : Dependencies) (r : DispatchResult)
    → (dispatch_first_notification i d).0 ≡ some r
    → let calls = (dispatch_first_notification i d).1 in
      (any is_enqueue calls ≡ not (is_inline_result r))
      × ((is_inline_result r ≡ false) ⊎ ((any is_send calls ≡ true) × (d.inline_result ≡ sent)))
      × ((any is_immediate calls ≡ false)
          ⊎ (any is_send calls ≡ false)
          ⊎ (d.inline_result ≡ failed))
unfolding dispatch_first_notification
dispatch_first_notification-handed_over i d r h = ground arith
