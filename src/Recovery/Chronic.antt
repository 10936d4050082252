-- ===== src/Recovery/Chronic.antt =====
-- apps/worker/src/modules/recovery-unresolved-alert.ts: which windows of a chronic episode are reported.
use auto_monitor_bot.Base.{
  ℕ, suc, ◌-◌, ◌≤◌, ◌<◌, ◌≡◌, refl, Bool, true, false, not, ◌&&◌, List, [], ◌∷◌, Option, none, some,
  arith, ltb, leb, ◌==◌, if◌then◌else◌, is_some, any, All, length, ap, sym, subst, ◌∙◌,
}
use auto_monitor_bot.Recovery.Plan.{UnresolvedReason}
use auto_monitor_bot.Recovery.Alert.{
  AlertWindow, is_of_key, is_since, quiet_ms, alert_wanted, should_send_recovery_unresolved_alert,
  mark_recovery_unresolved_alerted, ended, episode, quiet_alerts,
}

abbrev is_before : ℕ → Option ℕ → Bool
is_before last none = false
is_before last (some at) = leb at last

module _ (state : ℕ) (reason : UnresolvedReason) where
  -- The windows of an episode up to a time, with ids below a bound.
  abbrev IsOld : ℕ → ℕ → List AlertWindow → Type 0
  IsOld n last windows =
      All
        (λ w.
          (is_of_key state reason w ≡ true) × (w.id < n) × (is_before last w.unresolved_at ≡ true))
        windows

  abbrev recently : ℕ → ℕ → List AlertWindow → Bool
  recently since n windows =
      any (λ w. is_of_key state reason w && is_since since w.unresolved_at && not (w.id == n))
        windows

  abbrev ended_at : ℕ → List AlertWindow → Bool
  ended_at last windows =
      any (λ w. is_of_key state reason w && is_since last w.unresolved_at) windows

  abbrev notified : List AlertWindow → Bool
  notified windows = any (λ w. is_of_key state reason w && is_some w.acknowledged_at) windows

  recently-late :
      (since n last : ℕ) (windows : List AlertWindow)
      → IsOld n last windows
      → last < since
      → recently since n windows ≡ false
  recently-late since n last [] a h = refl
  recently-late since n last (w ∷ ws) a h =
      let rest = recently-late since n last ws a.1 h in ground (arith, a.0)

  recently-soon :
      (since n last : ℕ) (windows : List AlertWindow)
      → IsOld n last windows
      → ended_at last windows ≡ true
      → since ≤ last
      → recently since n windows ≡ true
  recently-soon since n last [] a e h = absurd (ground arith)
  recently-soon since n last (w ∷ ws) a e h = ground (arith, a.0, recently-soon since n last ws a.1)

  mark-old :
      (now n last : ℕ) (windows : List AlertWindow)
      → IsOld n last windows
      → mark_recovery_unresolved_alerted now n windows ≡ windows
  unfolding mark_recovery_unresolved_alerted
  mark-old now n last [] a = refl
  mark-old now n last (w ∷ ws) a = let rest = mark-old now n last ws a.1 in ground (arith, a.0)

  IsOld-later :
      (n last now : ℕ) (windows : List AlertWindow)
      → last ≤ now
      → IsOld n last windows
      → IsOld (suc n) now windows
  IsOld-later n last now [] h a = tt
  IsOld-later n last now (w ∷ ws) h a =
      ((a.0.0, omega (arith, a.0.1), ground (arith, a.0)), IsOld-later n last now ws h a.1)

  -- The times do not go back.
  abbrev pub IsForward : ℕ → List ℕ → Type 0
  IsForward last [] = Unit
  IsForward last (now ∷ times) = (last ≤ now) × IsForward now times

  alert_wanted-later :
      (now n last : ℕ) (windows : List AlertWindow)
      → IsOld n last windows
      → ended_at last windows ≡ true
      → notified windows ≡ true
      → alert_wanted now state n reason (ended state reason n now ∷ windows)
        ≡ ltb last (now - quiet_ms)
  unfolding alert_wanted
  alert_wanted-later now n last windows a e m = ground (
    arith,
    recently-late (now - quiet_ms) n last windows a,
    recently-soon (now - quiet_ms) n last windows a e,
  )

  -- The windows behind the report of a new one.
  abbrev reported : Bool → ℕ → ℕ → List AlertWindow → List AlertWindow
  reported wanted now n windows =
      let all = ended state reason n now ∷ windows in
      if wanted then mark_recovery_unresolved_alerted now n all else all

  abbrev acknowledged : Bool → ℕ → ℕ → AlertWindow
  acknowledged wanted now n = record (ended state reason n now) {
    acknowledged_at = if wanted then some now else none;
  }

  reported-new :
      (wanted : Bool) (now n last : ℕ) (windows : List AlertWindow)
      → IsOld n last windows
      → reported wanted now n windows ≡ acknowledged wanted now n ∷ windows
  unfolding mark_recovery_unresolved_alerted
  reported-new true now n last windows a = ground (arith, mark-old now n last windows a)
  reported-new false now n last windows a = refl

  episode-later :
      (n last : ℕ) (times : List ℕ) (windows : List AlertWindow)
      → length windows ≡ n
      → IsOld n last windows
      → ended_at last windows ≡ true
      → notified windows ≡ true
      → IsForward last times
      → episode state reason times windows ≡ quiet_alerts (some last) times
  unfolding episode quiet_alerts should_send_recovery_unresolved_alert
  episode-later n last [] windows l a e m f = refl
  episode-later n last (now ∷ times) windows l a e m f =
      let wanted =
        alert_wanted now state (length windows) reason
          (ended state reason (length windows) now ∷ windows) in
      let b = ltb last (now - quiet_ms) in
      let new = acknowledged wanted now (length windows) in
      let old : IsOld (length windows) last windows = subst (λ k. IsOld k last windows) (sym l) a in
      let rest =
        episode-later (suc (length windows)) now times (new ∷ windows) refl
          (
            (ground arith, omega arith, ground arith),
            IsOld-later (length windows) last now windows f.0 old,
          )
          (ground arith) (ground (arith, m)) f.1 in
      ap (λ ws. wanted ∷ episode state reason times ws)
        (reported-new wanted now (length windows) last windows old)
      ∙ ap (λ xs. wanted ∷ xs) rest
      ∙ ap (λ x. x ∷ quiet_alerts (some now) times)
          (alert_wanted-later now (length windows) last windows old e m)

  alert_wanted-first :
      (now : ℕ) → alert_wanted now state 0 reason (ended state reason 0 now ∷ []) ≡ true
  unfolding alert_wanted
  alert_wanted-first now = ground arith

  -- In an episode whose windows end unresolved for one reason, at times that do not go back, the first
  -- one is reported, and a later one exactly where the window before it, reported or not, lies more
  -- than twelve hours back.
  pub episode-quiet_alerts :
      (first : ℕ) (times : List ℕ)
      → IsForward first times
      → episode state reason (first ∷ times) [] ≡ quiet_alerts none (first ∷ times)
  unfolding episode quiet_alerts should_send_recovery_unresolved_alert
  episode-quiet_alerts first times f =
      let wanted = alert_wanted first state 0 reason (ended state reason 0 first ∷ []) in
      ap (λ ws. wanted ∷ episode state reason times ws) (reported-new wanted first 0 first [] tt)
      ∙ ap (λ b. b ∷ episode state reason times (acknowledged b first 0 ∷ []))
          (alert_wanted-first first)
      ∙ ap (λ xs. true ∷ xs)
          (episode-later 1 first times (acknowledged true first 0 ∷ []) refl
            ((ground arith, omega arith, ground arith), tt) (ground arith) (ground arith) f)
