-- ===== src/Worker/LaneArbiter.antt =====
-- apps/worker/src/modules/olx-lane-arbiter.ts: `OlxLaneArbiter`, with `runRealtime` as the steps of its
-- start and its `finally`. Times are milliseconds; the epoch -1 of no reservation is `none`.
use auto_monitor_bot.Base.{
  ℕ, ◌+◌, ◌-◌, ◌≤◌, ◌<◌, ◌≡◌, Bool, true, false, ◌||◌, List, [], ◌∷◌, Option, none, some, arith,
  ltb, leb, ◌==◌, if◌then◌else◌,
}

pub record Arbiter : Type 0 where
  pub active_realtime_scans : ℕ
  pub last_realtime_finished_at : ℕ
  pub last_reserved_backfill_epoch : Option ℕ

abbrev pub new_arbiter : Arbiter
new_arbiter = record {
  active_realtime_scans = 0;
  last_realtime_finished_at = 0;
  last_reserved_backfill_epoch = none;
}

abbrev pub realtime_starts : Arbiter → Arbiter
realtime_starts a = record a { active_realtime_scans = a.active_realtime_scans + 1 }

abbrev pub realtime_finishes : ℕ → Arbiter → Arbiter
realtime_finishes now a = record a {
  active_realtime_scans = a.active_realtime_scans - 1;
  last_realtime_finished_at = now;
}

abbrev pub is_epoch : Option ℕ → ℕ → Bool
is_epoch none t = false
is_epoch (some e) t = e == t

-- `waitForBackfillWindow`, with its answer.
unfoldable pub wait_for_backfill_window : ℕ → ℕ → ℕ → Arbiter → Bool × Arbiter
wait_for_backfill_window now deadline quiet a =
    if leb deadline now
    then (false, a)
    else if ltb 0 a.active_realtime_scans
        || ltb 0 (a.last_realtime_finished_at + quiet - now)
        || is_epoch a.last_reserved_backfill_epoch a.last_realtime_finished_at
    then (false, a)
    else (true, record a { last_reserved_backfill_epoch = some a.last_realtime_finished_at })

pub data ArbiterEvent : Type 0 where
  starts : ArbiterEvent
  finishes : (now : ℕ) → ArbiterEvent
  asks : (now deadline quiet : ℕ) → ArbiterEvent

abbrev granted : Bool × Arbiter → ℕ
granted (true, a) = 1
granted (false, a) = 0

unfoldable pub arbiter_step : ArbiterEvent → Arbiter → Arbiter
arbiter_step starts a = realtime_starts a
arbiter_step (finishes now) a = realtime_finishes now a
arbiter_step (asks now deadline quiet) a = (wait_for_backfill_window now deadline quiet a).1

-- The windows granted, the realtime scans that finish and the scans that start in a history.
unfoldable pub grants : List ArbiterEvent → Arbiter → ℕ
grants [] a = 0
grants (asks now deadline quiet ∷ evs) a =
    granted (wait_for_backfill_window now deadline quiet a)
    + grants evs (wait_for_backfill_window now deadline quiet a).1
grants (ev ∷ evs) a = grants evs (arbiter_step ev a)

abbrev pub finished : List ArbiterEvent → ℕ
finished [] = 0
finished (finishes now ∷ evs) = finished evs + 1
finished (ev ∷ evs) = finished evs

-- Whether a window could still be reserved in the current epoch.
abbrev pub is_open : Arbiter → ℕ
is_open a = if is_epoch a.last_reserved_backfill_epoch a.last_realtime_finished_at then 0 else 1

grant-is_open :
    (now deadline quiet : ℕ) (a : Arbiter)
    → granted (wait_for_backfill_window now deadline quiet a)
        + is_open (wait_for_backfill_window now deadline quiet a).1
      ≡ is_open a
unfolding wait_for_backfill_window
grant-is_open now deadline quiet a = ground arith

is_open-le : (a : Arbiter) → is_open a ≤ 1
is_open-le a = ground arith

grants-le : (evs : List ArbiterEvent) (a : Arbiter) → grants evs a ≤ finished evs + is_open a
unfolding grants arbiter_step
grants-le [] a = omega arith
grants-le (starts ∷ evs) a = grants-le evs (realtime_starts a)
grants-le (finishes now ∷ evs) a =
    omega (arith, grants-le evs (realtime_finishes now a), is_open-le (realtime_finishes now a))
grants-le (asks now deadline quiet ∷ evs) a = omega (
  arith,
  grants-le evs (wait_for_backfill_window now deadline quiet a).1,
  grant-is_open now deadline quiet a,
)

-- In any history from any state, there is at most one deep page per finished realtime scan, and one
-- at the beginning.
pub grants-finished : (evs : List ArbiterEvent) (a : Arbiter) → grants evs a ≤ finished evs + 1
grants-finished evs a = omega (arith, grants-le evs a, is_open-le a)

-- A window is granted only before its deadline, with no realtime scan running and the quiet time
-- since the last one over; asked again at once, or at any later time before a realtime scan
-- finishes, it is refused.
pub wait_for_backfill_window-granted :
    (now deadline quiet again deadline' quiet' : ℕ) (a : Arbiter)
    → (wait_for_backfill_window now deadline quiet a).0 ≡ true
    → (now < deadline)
      × (a.active_realtime_scans ≡ 0)
      × (a.last_realtime_finished_at + quiet ≤ now)
      × ((wait_for_backfill_window again deadline' quiet'
            (wait_for_backfill_window now deadline quiet a).1).0
          ≡ false)
unfolding wait_for_backfill_window
wait_for_backfill_window-granted now deadline quiet again deadline' quiet' a h = ground arith
