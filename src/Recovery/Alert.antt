-- ===== src/Recovery/Alert.antt =====
-- apps/worker/src/modules/recovery-unresolved-alert.ts: whether a recovery window that ends unresolved is
-- reported. Windows stand newest first. Times are milliseconds; `none` stands for a database error.
use auto_monitor_bot.Base.{
  ℕ, ◌-◌, ◌*◌, Bool, true, false, not, ◌&&◌, List, [], ◌∷◌, Option, none, some, ltb, leb, ◌==◌,
  if◌then◌else◌, is_some, any, find, map, length,
}
use auto_monitor_bot.Recovery.Plan.{
  UnresolvedReason, public_offset_cap, unstable_pagination, non_partitionable_range,
  source_exhausted_before_boundary,
}

-- `CoverageRecoveryWindow`, as far as the alerts read it; `state` stands for its search state.
pub record AlertWindow : Type 0 where
  pub id : ℕ
  pub state : ℕ
  pub is_unresolved : Bool
  pub reason : Option UnresolvedReason
  pub unresolved_at : Option ℕ
  pub acknowledged_at : Option ℕ

abbrev pub reason_index : UnresolvedReason → ℕ
reason_index public_offset_cap = 0
reason_index unstable_pagination = 1
reason_index non_partitionable_range = 2
reason_index source_exhausted_before_boundary = 3

abbrev pub same_reason : UnresolvedReason → Option UnresolvedReason → Bool
same_reason r none = false
same_reason r (some s) = reason_index r == reason_index s

-- An unresolved window of a search state with a reason.
abbrev pub is_of_key : ℕ → UnresolvedReason → AlertWindow → Bool
is_of_key state reason w = w.is_unresolved && w.state == state && same_reason reason w.reason

abbrev pub quiet_ms : ℕ
quiet_ms = 12 * 3600000

abbrev pub is_since : ℕ → Option ℕ → Bool
is_since since none = false
is_since since (some at) = leb since at

-- The checks of `shouldSendRecoveryUnresolvedAlert` on the windows of the database.
unfoldable pub alert_wanted : ℕ → ℕ → ℕ → UnresolvedReason → List AlertWindow → Bool
alert_wanted now state id reason windows =
    let notified = any (λ w. is_of_key state reason w && is_some w.acknowledged_at) windows in
    let recent =
      any
        (λ w.
          is_of_key state reason w && is_since (now - quiet_ms) w.unresolved_at && not (w.id == id))
        windows in
    let fresh = if not notified then true else not recent in
    elim (find (λ w. w.id == id) windows) [
      | none ↦ true
      | some w ↦ if is_some w.acknowledged_at then false else fresh
    ]

-- `shouldSendRecoveryUnresolvedAlert`.
unfoldable pub should_send_recovery_unresolved_alert :
    ℕ → ℕ → ℕ → Option UnresolvedReason → Option (List AlertWindow) → Bool
should_send_recovery_unresolved_alert now state id none windows = true
should_send_recovery_unresolved_alert now state id (some reason) none = true
should_send_recovery_unresolved_alert now state id (some reason) (some windows) =
    alert_wanted now state id reason windows

-- `markRecoveryUnresolvedAlerted`.
unfoldable pub mark_recovery_unresolved_alerted : ℕ → ℕ → List AlertWindow → List AlertWindow
mark_recovery_unresolved_alerted now id windows =
    map (λ w. if w.id == id then record w { acknowledged_at = some now } else w) windows

abbrev pub ended : ℕ → UnresolvedReason → ℕ → ℕ → AlertWindow
ended state reason id now = record {
  id = id;
  state = state;
  is_unresolved = true;
  reason = some reason;
  unresolved_at = some now;
  acknowledged_at = none;
}

-- A chronic episode: windows of one search state end unresolved for one reason at the given times, and
-- each is reported where the check wants it. The result tells which ones are.
unfoldable pub episode : ℕ → UnresolvedReason → List ℕ → List AlertWindow → List Bool
episode state reason [] windows = []
episode state reason (now ∷ times) windows =
    let id = length windows in
    let all = ended state reason id now ∷ windows in
    let wanted = should_send_recovery_unresolved_alert now state id (some reason) (some all) in
    let next = if wanted then mark_recovery_unresolved_alerted now id all else all in
    wanted ∷ episode state reason times next

-- What the policy says of the same times: the first window is reported, and later ones only where the
-- one before it lies more than twelve hours back.
unfoldable pub quiet_alerts : Option ℕ → List ℕ → List Bool
quiet_alerts last [] = []
quiet_alerts none (now ∷ times) = true ∷ quiet_alerts (some now) times
quiet_alerts (some last) (now ∷ times) = ltb last (now - quiet_ms) ∷ quiet_alerts (some now) times
