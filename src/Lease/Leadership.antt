-- ===== src/Lease/Leadership.antt =====
-- apps/worker/src/modules/hot-worker-leadership.ts: `HotWorkerLeadership`, for several instances that
-- share the Redis key of the leader. An instance is a number, which also stands for its `leaseValue`.
-- Each `await` of a Redis command is three steps: the command is sent, Redis executes it at a time,
-- and the reply is handled; it may fail at any moment, executed or not. Times are milliseconds.
use auto_monitor_bot.Base.{
  ℕ, ◌+◌, Bool, true, false, not, ◌&&◌, ◌||◌, List, [], ◌∷◌, Option, none, some, ltb, ◌==◌,
  if◌then◌else◌,
}

-- The command or callback that a cycle waits for; a command with its reply, once executed.
pub data Phase : Type 0 where
  idle : Phase
  renewing acquiring releasing : Option Bool → Phase
  promoting : Phase

-- How far `stop` has come.
pub data Stopping : Type 0 where
  live waiting finished : Stopping

pub record Instance : Type 0 where
  pub leader : Bool
  pub stopping : Stopping
  pub phase : Phase

abbrev pub new_instance : Instance
new_instance = record { leader = false; stopping = live; phase = idle }

pub record Key : Type 0 where
  pub owner : ℕ
  pub expires_at : ℕ

-- `granted_until` records, for the statements, until when Redis last granted the key to an instance.
pub record System : Type 0 where
  pub key : Option Key
  pub instances : ℕ → Instance
  pub granted_until : ℕ → ℕ

abbrev pub start_system : System
start_system = record { key = none; instances = λ _. new_instance; granted_until = λ _. 0 }

abbrev pub update {ℓ} : {A : Type ℓ} → (ℕ → A) → ℕ → A → ℕ → A
update f i a j = if i == j then a else f j

abbrev pub is_live : ℕ → Option Key → Bool
is_live now none = false
is_live now (some k) = ltb now k.expires_at

abbrev pub is_owner : ℕ → Option Key → Bool
is_owner i none = false
is_owner i (some k) = k.owner == i

-- `GET` shows the instance.
abbrev pub holds : ℕ → ℕ → System → Bool
holds now i s = is_live now s.key && is_owner i s.key

abbrev pub is_live_stopping : Stopping → Bool
is_live_stopping live = true
is_live_stopping _ = false

abbrev is_idle : Phase → Bool
is_idle idle = true
is_idle _ = false

abbrev granted : ℕ → ℕ → ℕ → System → System
granted ttl now i s = record s {
  key = some (record { owner = i; expires_at = now + ttl });
  granted_until = update s.granted_until i (now + ttl);
}

abbrev deleted : ℕ → System → System
deleted i s = record s { key = none; granted_until = update s.granted_until i 0 }

abbrev pub put : ℕ → Instance → System → System
put i x s = record s { instances = update s.instances i x }

-- `runElectionCycle` with the start of `runElectionCycleInner`.
unfoldable pub run_election_cycle : Instance → Instance
run_election_cycle x =
    if not (is_live_stopping x.stopping) || not (is_idle x.phase)
    then x
    else record x { phase = if x.leader then renewing none else acquiring none }

-- Redis executes the command that the instance waits for: `SET ... PX ... NX`, RENEW_SCRIPT and
-- RELEASE_SCRIPT.
unfoldable pub execute : ℕ → ℕ → ℕ → System → System
execute ttl now i s = elim (s.instances i).phase [
  | acquiring none ↦
      let x = record (s.instances i) { phase = acquiring (some (not (is_live now s.key))) } in
      put i x (if is_live now s.key then s else granted ttl now i s)
  | renewing none ↦
      let x = record (s.instances i) { phase = renewing (some (holds now i s)) } in
      put i x (if holds now i s then granted ttl now i s else s)
  | releasing none ↦
      let x = record (s.instances i) { phase = releasing (some true) } in
      put i x (if holds now i s then deleted i s else s)
  | _ ↦ s
]

-- `demote`; `onDemoted` is the caller's.
unfoldable pub demote : Instance → Instance
demote x = record x { leader = false }

-- The code behind an `await`, up to the next one. A promoted instance goes on to `onPromoted`; behind
-- the release, `stop` is finished, and a failed promotion ends its cycle.
unfoldable pub handle_reply : Instance → Instance
unfolding demote
handle_reply x = elim x.phase [
  | renewing (some true) ↦ record x { phase = idle }
  | renewing (some false) ↦ record (demote x) { phase = idle }
  | acquiring (some true) ↦ record x { leader = true; phase = promoting }
  | acquiring (some false) ↦ record x { phase = idle }
  | releasing (some r) ↦ record x { phase = idle }
  | _ ↦ x
]

-- The awaited command rejects: the outer `catch`, or the `catch` on the release.
unfoldable pub command_fails : Instance → Instance
unfolding demote
command_fails x = elim x.phase [
  | renewing r ↦ record (demote x) { phase = idle }
  | acquiring r ↦ record (demote x) { phase = idle }
  | releasing r ↦ record x { phase = idle }
  | _ ↦ x
]

-- `onPromoted` settles: on a rejection the instance is demoted and releases the key.
unfoldable pub promotion_settles : Bool → Instance → Instance
unfolding demote
promotion_settles resolves x = elim x.phase [
  | promoting ↦
      if resolves then record x { phase = idle } else record (demote x) { phase = releasing none }
  | _ ↦ x
]

-- `assertOwnership`, with the value that its `GET` showed: whether it returns, and the instance.
unfoldable pub assert_ownership : ℕ → Option ℕ → Instance → Bool × Instance
unfolding demote
assert_ownership i current x = if not x.leader then (false, x) else (elim current [
  | none ↦ (false, demote x)
  | some v ↦ if v == i then (true, x) else (false, demote x)
])

-- `stop` up to its first await, and behind the cycle that it waits for.
unfoldable pub stop : Instance → Instance
stop x = if is_live_stopping x.stopping then record x { stopping = waiting } else x

abbrev is_waiting : Stopping → Bool
is_waiting waiting = true
is_waiting _ = false

unfoldable pub stop_goes_on : Instance → Instance
unfolding demote
stop_goes_on x =
    if is_waiting x.stopping && is_idle x.phase
    then record (demote x) { stopping = finished; phase = releasing none }
    else x

pub data Event : Type 0 where
  cycle_starts executes replies fails stops stop_continues : ℕ → Event
  promotion : ℕ → Bool → Event
  asserts : ℕ → Option ℕ → Event

abbrev pub change : ℕ → (Instance → Instance) → System → System
change i f s = put i (f (s.instances i)) s

unfoldable pub step : ℕ → ℕ → Event → System → System
step ttl now (cycle_starts i) s = change i run_election_cycle s
step ttl now (executes i) s = execute ttl now i s
step ttl now (replies i) s = change i handle_reply s
step ttl now (fails i) s = change i command_fails s
step ttl now (stops i) s = change i stop s
step ttl now (stop_continues i) s = change i stop_goes_on s
step ttl now (promotion i resolves) s = change i (promotion_settles resolves) s
step ttl now (asserts i current) s = change i (λ x. (assert_ownership i current x).1) s

unfoldable pub run_events : ℕ → List (ℕ × Event) → System → System
run_events ttl [] s = s
run_events ttl ((now, ev) ∷ evs) s = run_events ttl evs (step ttl now ev s)
