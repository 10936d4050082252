-- ===== src/Monitoring/Protection.antt =====
-- apps/worker/src/modules/challenge-incident.ts and `handleExternalProtection` of
-- apps/worker/src/processors/collector-run-helpers.ts: what a protection response of a source leaves behind.
-- Incidents of a source stand newest first. Times are milliseconds; texts are left out.
use auto_monitor_bot.Base.{
  ℕ, suc, ◌≤◌, ◌≡◌, refl, Bool, true, false, not, ◌&&◌, List, [], ◌∷◌, Option, none, some, arith,
  if◌then◌else◌, is_some, find, map, count_by, if_cases,
}
use auto_monitor_bot.Worker.Incident.{
  IncidentStatus, is_manual, cooldown, manual_verification_required, probe_pending, repeated,
  resolved, next_challenge_incident_status,
}

-- `ChallengeIncident`.
pub record Incident : Type 0 where
  pub status : IncidentStatus
  pub detected_at : ℕ
  pub cooldown_until : Option ℕ
  pub probe_attempts : ℕ
  pub last_probe_at : Option ℕ
  pub recovered_at : Option ℕ

abbrev pub is_unresolved : Incident → Bool
is_unresolved i = elim i.status [ resolved ↦ false | _ ↦ true ]

abbrev pub is_manual_incident : Incident → Bool
is_manual_incident i = elim i.status [ manual_verification_required ↦ true | _ ↦ false ]

abbrev may_be_probed : Incident → Bool
may_be_probed i = elim i.status [
  | cooldown ↦ true
  | repeated ↦ true
  | manual_verification_required ↦ true
  | _ ↦ false
]

-- An update of the newest incident that passes a test.
unfoldable pub update_first :
    (Incident → Bool) → (Incident → Incident) → List Incident → List Incident
update_first p f [] = []
update_first p f (i ∷ is) = let rest = update_first p f is in if p i then f i ∷ is else i ∷ rest

abbrev status_of : Option Incident → Option IncidentStatus
status_of none = none
status_of (some i) = some i.status

abbrev is_manual_status : IncidentStatus → Bool
is_manual_status manual_verification_required = true
is_manual_status _ = false

-- What `recordChallengeIncident` returns.
pub record Recorded : Type 0 where
  pub incidents : List Incident
  pub was_active : Bool
  pub manual_required : Bool
  pub manual_new : Bool

-- `recordChallengeIncident`.
unfoldable pub record_challenge_incident : Bool → ℕ → ℕ → List Incident → Recorded
record_challenge_incident manual now cooldown_until incidents =
    let active = find is_unresolved incidents in
    let status = next_challenge_incident_status (status_of active) manual in
    record {
      incidents =
          if is_some active
          then update_first is_unresolved
              (λ i. record i { status = status; cooldown_until = some cooldown_until }) incidents
          else (record {
            status = status;
            detected_at = now;
            cooldown_until = some cooldown_until;
            probe_attempts = 0;
            last_probe_at = none;
            recovered_at = none;
          })
            ∷ incidents;
      was_active = is_some active;
      manual_required = is_manual_status status;
      manual_new = is_manual_status status && not (is_manual (status_of active));
    }

-- `markChallengeProbePending`.
unfoldable pub mark_challenge_probe_pending : ℕ → List Incident → List Incident
mark_challenge_probe_pending now incidents =
    update_first may_be_probed
      (λ i. record i {
        status = probe_pending;
        probe_attempts = suc i.probe_attempts;
        last_probe_at = some now;
      })
      incidents

-- `resolveChallengeIncidents`.
unfoldable pub resolve_challenge_incidents : ℕ → List Incident → List Incident
resolve_challenge_incidents now incidents =
    map
      (λ i. if is_unresolved i then record i { status = resolved; recovered_at = some now } else i)
      incidents

pub data IncidentEvent : Type 0 where
  records : Bool → ℕ → ℕ → IncidentEvent
  probes resolves : ℕ → IncidentEvent

unfoldable pub incident_step : IncidentEvent → List Incident → List Incident
incident_step (records manual now until) is =
    (record_challenge_incident manual now until is).incidents
incident_step (probes now) is = mark_challenge_probe_pending now is
incident_step (resolves now) is = resolve_challenge_incidents now is

unfoldable pub run_incidents : List IncidentEvent → List Incident → List Incident
run_incidents [] is = is
run_incidents (ev ∷ evs) is = run_incidents evs (incident_step ev is)

update_first-unresolved :
    (p : Incident → Bool) (f : Incident → Incident) (is : List Incident)
    → ((i : Incident) → p i ≡ true → is_unresolved i ≡ true)
    → ((i : Incident) → is_unresolved (f i) ≡ true)
    → count_by is_unresolved (update_first p f is) ≡ count_by is_unresolved is
unfolding update_first
update_first-unresolved p f [] a b = refl
update_first-unresolved p f (i ∷ is) a b =
    ground (arith, update_first-unresolved p f is a b, a i, b i)

resolved-unresolved :
    (now : ℕ) (is : List Incident) → count_by is_unresolved (resolve_challenge_incidents now is) ≡ 0
unfolding resolve_challenge_incidents
resolved-unresolved now [] = refl
resolved-unresolved now (i ∷ is) = ground (arith, resolved-unresolved now is)

none_unresolved :
    (is : List Incident) → is_some (find is_unresolved is) ≡ false → count_by is_unresolved is ≡ 0
none_unresolved [] h = refl
none_unresolved (i ∷ is) h = ground (arith, none_unresolved is)

next_status-unresolved :
    (i : Incident) (active : Option IncidentStatus) (manual : Bool) (until : ℕ)
    → is_unresolved (record i {
      status = next_challenge_incident_status active manual;
      cooldown_until = some until;
    })
      ≡ true
unfolding next_challenge_incident_status
next_status-unresolved i active manual until = ground arith

step-unresolved :
    (ev : IncidentEvent) (is : List Incident)
    → count_by is_unresolved is ≤ 1
    → count_by is_unresolved (incident_step ev is) ≤ 1
unfolding incident_step record_challenge_incident mark_challenge_probe_pending
step-unresolved (records manual now until) is h =
    let status = next_challenge_incident_status (status_of (find is_unresolved is)) manual in
    if_cases (λ (xs : List Incident). count_by is_unresolved xs ≤ 1)
      (is_some (find is_unresolved is))
      (λ active. omega (
        arith,
        h,
        update_first-unresolved is_unresolved
            (λ i. record i { status = status; cooldown_until = some until }) is (λ i e. e)
            (λ i. next_status-unresolved i (status_of (find is_unresolved is)) manual until),
      ))
      (λ quiet. ground (arith, none_unresolved is quiet))
step-unresolved (probes now) is h = omega (
  arith,
  h,
  update_first-unresolved may_be_probed
      (λ i. record i {
        status = probe_pending;
        probe_attempts = suc i.probe_attempts;
        last_probe_at = some now;
      })
      is (λ i e. ground arith) (λ i. refl),
)
step-unresolved (resolves now) is h = omega (arith, resolved-unresolved now is)

-- However protection responses, probes and recoveries of a source follow one another, where at
-- most one incident of it is unresolved before, at most one is behind them.
pub run_incidents-one_active :
    (evs : List IncidentEvent) (is : List Incident)
    → count_by is_unresolved is ≤ 1
    → count_by is_unresolved (run_incidents evs is) ≤ 1
unfolding run_incidents
run_incidents-one_active [] is h = h
run_incidents-one_active (ev ∷ evs) is h =
    run_incidents-one_active evs (incident_step ev is) (step-unresolved ev is h)
