-- ===== src/Delivery/Gate.antt =====
-- packages/shared/src/utils/telegram-send-gate.ts: the two scripts that Redis runs as one step each,
-- over the three keys of a chat, and the loop of `TelegramSendGate.waitForSlot`. A member stands as
-- the number of its place in the order of the texts; times are milliseconds of Redis.
use auto_monitor_bot.Base.{
  ℕ, ◌+◌, ◌-◌, ◌*◌, ◌/◌, min, max, not, List, [], ◌∷◌, Option, none, some, ltb, ◌==◌, if◌then◌else◌,
  filter,
}

-- The key of the next slot, with its expiry; the waiters with their leases, under two keys that
-- expire together.
pub record Slot : Type 0 where
  pub value : ℕ
  pub expires_at : ℕ

pub record Waiter : Type 0 where
  pub member : ℕ
  pub lease_until : ℕ

pub record Gate : Type 0 where
  pub slot : Option Slot
  pub waiters : List Waiter
  pub waiters_expire_at : ℕ

-- `GET KEYS[1]`, or 0.
abbrev pub current_slot : ℕ → Option Slot → ℕ
current_slot now none = 0
current_slot now (some s) = if ltb now s.expires_at then s.value else 0

abbrev pub lease_ms : ℕ → ℕ
lease_ms lease = max 5000 lease

-- The waiters that neither the keys' expiry nor the script's sweep removes.
abbrev pub live_waiters : ℕ → Gate → List Waiter
live_waiters now g =
    filter (λ w. ltb now w.lease_until) (if ltb now g.waiters_expire_at then g.waiters else [])

-- `ZREM` and `HDEL`; `ZADD` and `HSET`.
abbrev pub without : ℕ → List Waiter → List Waiter
without member ws = filter (λ w. not (w.member == member)) ws

abbrev pub queued_waiters : ℕ → ℕ → ℕ → Gate → List Waiter
queued_waiters now member lease g =
    record { member = member; lease_until = now + lease_ms lease }
    ∷ without member (live_waiters now g)

-- `ZRANGE KEYS[2] 0 0`, with `member` among the waiters: all scores are 0.
abbrev pub least : ℕ → List Waiter → ℕ
least member [] = member
least member (w ∷ ws) = min w.member (least member ws)

-- `TELEGRAM_RATE_GATE_RESERVE_LUA`, with the delay that it returns.
unfoldable pub reserve : ℕ → ℕ → ℕ → ℕ → Gate → ℕ × Gate
reserve now interval member lease g =
    let queued = queued_waiters now member lease g in
    let current = current_slot now g.slot in
    let expire_at = now + lease_ms lease * 2 in
    let waiting : Gate = record {
      slot = g.slot;
      waiters = queued;
      waiters_expire_at = expire_at;
    } in
    if not (least member queued == member)
    then (if ltb now current then current - now else 25, waiting)
    else if ltb now current
    then (current - now, waiting)
    else (
      0,
      record {
        slot = some (record { value = now + interval; expires_at = now + max 5000 (interval * 5) });
        waiters = without member queued;
        waiters_expire_at = expire_at;
      },
    )

-- `TELEGRAM_RATE_GATE_DEFER_LUA`.
unfoldable pub defer : ℕ → ℕ → Gate → Gate
defer now delay g =
    let next = max (current_slot now g.slot) (now + delay) in
    record g {
      slot = some (record { value = next; expires_at = now + max 5000 (next - now + delay) });
    }

-- `deferFor`.
unfoldable pub defer_for : ℕ → ℕ → Gate → Gate
defer_for now milliseconds g = if milliseconds == 0 then g else defer now milliseconds g

-- The lease that `waitForSlot` asks for, and its sleep after a delay.
abbrev pub waiter_lease_ms : ℕ → ℕ
waiter_lease_ms interval = max 5000 (interval * 10)

abbrev pub sleep_ms : ℕ → ℕ → ℕ
sleep_ms interval delay = min delay (max 25 (waiter_lease_ms interval / 2))

-- One turn of the loop of `waitForSlot`: the sleep before the next turn, or none behind a slot.
unfoldable pub wait_turn : ℕ → ℕ → ℕ → Gate → Option ℕ × Gate
wait_turn interval now member g =
    let (delay, u) = reserve now interval member (waiter_lease_ms interval) g in
    (if delay == 0 then none else some (sleep_ms interval delay), u)

pub data GateEvent : Type 0 where
  reserves : (now interval member lease : ℕ) → GateEvent
  defers : (now milliseconds : ℕ) → GateEvent

abbrev pub event_time : GateEvent → ℕ
event_time (reserves now interval member lease) = now
event_time (defers now milliseconds) = now

unfoldable pub gate_step : GateEvent → Gate → Gate
gate_step (reserves now interval member lease) g = (reserve now interval member lease g).1
gate_step (defers now milliseconds) g = defer_for now milliseconds g

abbrev slot_count : ℕ → ℕ
slot_count delay = if delay == 0 then 1 else 0

-- The slots that are given in a history.
unfoldable pub slots_given : List GateEvent → Gate → ℕ
slots_given [] g = 0
slots_given (reserves now interval member lease ∷ evs) g =
    slot_count (reserve now interval member lease g).0
    + slots_given evs (reserve now interval member lease g).1
slots_given (defers now milliseconds ∷ evs) g = slots_given evs (defer_for now milliseconds g)
