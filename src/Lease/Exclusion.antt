-- ===== src/Lease/Exclusion.antt =====
-- apps/worker/src/modules/hot-worker-leadership.ts: who the leader is, over any history of instances.
use auto_monitor_bot.Base.{
  ℕ, ◌≤◌, ◌<◌, ◌≡◌, refl, Bool, true, false, ◌||◌, List, [], ◌∷◌, Option, none, some, arith, ltb,
  ◌⊎◌, ◌≢◌,
}
use auto_monitor_bot.Lease.Leadership.{
  renewing, acquiring, releasing, promoting, Instance, System, start_system, holds,
  run_election_cycle, execute, handle_reply, command_fails, promotion_settles, assert_ownership,
  stop, stop_goes_on, Event, cycle_starts, executes, replies, fails, stops, stop_continues,
  promotion, asserts, step, run_events,
}

-- While Redis's last grant to an instance lasts, the key is that instance's.
abbrev pub IsExclusive : ℕ → System → Type 0
IsExclusive now s =
    (j : ℕ)
    → now < s.granted_until j
    → s.key ≡ some (record { owner = j; expires_at = s.granted_until j })

-- `GET` shows an instance exactly while Redis's last grant to it lasts.
abbrev pub IsGranted : ℕ → System → Type 0
IsGranted now s = (j : ℕ) → holds now j s ≡ ltb now (s.granted_until j)

execute-IsGranted :
    (ttl now i : ℕ) (s : System) → 0 < ttl → IsGranted now s → IsGranted now (execute ttl now i s)
unfolding execute
execute-IsGranted ttl now i s pos v j = ground (arith, v i, v j)

step-IsGranted :
    (ttl now : ℕ) (ev : Event) (s : System)
    → 0 < ttl
    → IsGranted now s
    → IsGranted now (step ttl now ev s)
unfolding step
step-IsGranted ttl now (executes i) s pos v = execute-IsGranted ttl now i s pos v
step-IsGranted ttl now (cycle_starts i) s pos v = v
step-IsGranted ttl now (replies i) s pos v = v
step-IsGranted ttl now (fails i) s pos v = v
step-IsGranted ttl now (stops i) s pos v = v
step-IsGranted ttl now (stop_continues i) s pos v = v
step-IsGranted ttl now (promotion i r) s pos v = v
step-IsGranted ttl now (asserts i c) s pos v = v

later-IsGranted :
    (t now : ℕ) (s : System) → t ≤ now → IsGranted t s → IsExclusive t s → IsGranted now s
later-IsGranted t now s l v x j = ground (arith, v j, x j)

-- A step at a time keeps it.
execute-IsExclusive :
    (ttl now i : ℕ) (s : System) → IsExclusive now s → IsExclusive now (execute ttl now i s)
unfolding execute
execute-IsExclusive ttl now i s v j h = ground (arith, v i, v j)

step-IsExclusive :
    (ttl now : ℕ) (ev : Event) (s : System)
    → IsExclusive now s
    → IsExclusive now (step ttl now ev s)
unfolding step
step-IsExclusive ttl now (executes i) s v = execute-IsExclusive ttl now i s v
step-IsExclusive ttl now (cycle_starts i) s v = v
step-IsExclusive ttl now (replies i) s v = v
step-IsExclusive ttl now (fails i) s v = v
step-IsExclusive ttl now (stops i) s v = v
step-IsExclusive ttl now (stop_continues i) s v = v
step-IsExclusive ttl now (promotion i r) s v = v
step-IsExclusive ttl now (asserts i c) s v = v

-- An instance that leads, or is about to, has been granted the key.
abbrev leads : Instance → Bool
leads x =
    x.leader
    || (elim x.phase [ acquiring (some r) ↦ r | renewing r ↦ true | promoting ↦ true | _ ↦ false ])

abbrev pub IsEarned : System → Type 0
IsEarned s = (j : ℕ) → leads (s.instances j) ≡ true → 0 < s.granted_until j

-- A release is only sent by an instance that does not lead.
abbrev pub IsModest : System → Type 0
IsModest s =
    (j : ℕ) (r : Option Bool) → (s.instances j).phase ≡ releasing r → (s.instances j).leader ≡ false

step-IsEarned :
    (ttl now : ℕ) (ev : Event) (s : System)
    → 0 < ttl
    → IsModest s
    → IsEarned s
    → IsEarned (step ttl now ev s)
unfolding step execute run_election_cycle handle_reply command_fails stop stop_goes_on
    promotion_settles assert_ownership
step-IsEarned ttl now (executes i) s pos m v j h = ground (arith, v j, m j none)
step-IsEarned ttl now (cycle_starts i) s pos m v j h = ground (arith, v j)
step-IsEarned ttl now (replies i) s pos m v j h = ground (arith, v j)
step-IsEarned ttl now (fails i) s pos m v j h = ground (arith, v j)
step-IsEarned ttl now (stops i) s pos m v j h = ground (arith, v j)
step-IsEarned ttl now (stop_continues i) s pos m v j h = ground (arith, v j)
step-IsEarned ttl now (promotion i r) s pos m v j h = ground (arith, v j)
step-IsEarned ttl now (asserts i c) s pos m v j h = ground (arith, v j)

step-IsModest : (ttl now : ℕ) (ev : Event) (s : System) → IsModest s → IsModest (step ttl now ev s)
unfolding step execute run_election_cycle handle_reply command_fails stop stop_goes_on
    promotion_settles assert_ownership
step-IsModest ttl now (executes i) s m j r h = ground (arith, m j none, m j r)
step-IsModest ttl now (cycle_starts i) s m j r h = ground (arith, m j r)
step-IsModest ttl now (replies i) s m j r h = ground (arith, m j r)
step-IsModest ttl now (fails i) s m j r h = ground (arith, m j r)
step-IsModest ttl now (stops i) s m j r h = ground (arith, m j r)
step-IsModest ttl now (stop_continues i) s m j r h = ground (arith, m j r)
step-IsModest ttl now (promotion i resolves) s m j r h = ground (arith, m j r)
step-IsModest ttl now (asserts i c) s m j r h = ground (arith, m j r)

pub record IsSafe (now : ℕ) (s : System) : Type 0 where
  pub exclusive : IsExclusive now s
  pub granted : IsGranted now s
  pub earned : IsEarned s
  pub modest : IsModest s

later-IsSafe : (t now : ℕ) (s : System) → t ≤ now → IsSafe t s → IsSafe now s
later-IsSafe t now s l v = record {
  exclusive = λ j h. v.exclusive j (omega arith);
  granted = later-IsGranted t now s l v.granted v.exclusive;
  earned = v.earned;
  modest = v.modest;
}

step-IsSafe :
    (ttl now : ℕ) (ev : Event) (s : System)
    → 0 < ttl
    → IsSafe now s
    → IsSafe now (step ttl now ev s)
step-IsSafe ttl now ev s pos v = record {
  exclusive = step-IsExclusive ttl now ev s v.exclusive;
  granted = step-IsGranted ttl now ev s pos v.granted;
  earned = step-IsEarned ttl now ev s pos v.modest v.earned;
  modest = step-IsModest ttl now ev s v.modest;
}

-- The times of a history, from `t` to `end`, do not go back.
abbrev pub IsForward : ℕ → List (ℕ × Event) → ℕ → Type 0
IsForward t [] end = t ≤ end
IsForward t ((now, ev) ∷ evs) end = (t ≤ now) × IsForward now evs end

run_events-IsSafe :
    (ttl t : ℕ) (evs : List (ℕ × Event)) (end : ℕ) (s : System)
    → 0 < ttl
    → IsForward t evs end
    → IsSafe t s
    → IsSafe end (run_events ttl evs s)
unfolding run_events
run_events-IsSafe ttl t [] end s pos f v = later-IsSafe t end s f v
run_events-IsSafe ttl t ((now, ev) ∷ evs) end s pos f v =
    run_events-IsSafe ttl now evs end (step ttl now ev s) pos f.1
      (step-IsSafe ttl now ev s pos (later-IsSafe t now s f.0 v))

start_system-IsSafe : (now : ℕ) → IsSafe now start_system
start_system-IsSafe now = record {
  exclusive = λ j h. absurd (omega arith);
  granted = λ j. ground arith;
  earned = λ j h. absurd (ground arith);
  modest = λ j r h. refl;
}

-- For any instances and any history whose times do not go back: an instance that leads has been
-- granted the key by Redis, whose `GET` shows it exactly as long as its last grant lasts; and of two
-- instances that lead, the grant of one is over.
pub run_events-one_leader :
    (ttl : ℕ) (evs : List (ℕ × Event)) (now i j : ℕ)
    → 0 < ttl
    → IsForward 0 evs now
    → let s = run_events ttl evs start_system in
      ((s.instances i).leader ≡ true
        → (0 < s.granted_until i) × (holds now i s ≡ ltb now (s.granted_until i)))
      × (i ≢ j
          → (s.instances i).leader ≡ true
          → (s.instances j).leader ≡ true
          → (s.granted_until i ≤ now) ⊎ (s.granted_until j ≤ now))
run_events-one_leader ttl evs now i j pos f =
    let s = run_events ttl evs start_system in
    let v = run_events-IsSafe ttl 0 evs now start_system pos f (start_system-IsSafe 0) in
    (
      λ li. (v.earned i (ground arith), v.granted i),
      λ ne li lj. ground (arith, v.exclusive i, v.exclusive j),
    )
