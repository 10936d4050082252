-- ===== src/Delivery/Completeness.antt =====
-- apps/worker/src/modules/completeness-contract.ts, with the accepted statuses of
-- telegram-delivery-policy.ts: what an observation's records say of it, and the summary of the facts
-- that an audit found. A fact's texts are left out; a group's sample is its length, and its time in
-- milliseconds, or `none` where it is absent or not finite.
use auto_monitor_bot.Base.{
  ℕ, ◌+◌, min, ◌≡◌, ◌⊎◌, Bool, true, false, not, ◌&&◌, ◌||◌, List, [], ◌∷◌, Option, none, some,
  arith, ◌==◌, if◌then◌else◌, All, Option-cases, Bool-cases, inl, inr,
}

pub data NotificationStatus : Type 0 where
  pending flash_pending processing retry_pending sent updated failed sending transient ambiguous
        delivered permanent quarantined :
      NotificationStatus

abbrev pub is_accepted : Option NotificationStatus → Bool
is_accepted (some sent) = true
is_accepted (some updated) = true
is_accepted (some delivered) = true
is_accepted _ = false

pub data ObservationDecision : Type 0 where
  undecided rejected matched duplicate dispatched notified failed_decision : ObservationDecision

-- `ObservationContractInput`, with whether `listingMode` is SHADOW.
pub record ObservationInput : Type 0 where
  pub decision : ObservationDecision
  pub has_normalized_snapshot : Bool
  pub has_listing : Bool
  pub is_shadow : Bool
  pub notification_status : Option NotificationStatus
  pub notification_accepted : Bool
  pub observation_accepted : Bool

-- `ObservationContractOutcome`.
pub data ObservationOutcome : Type 0 where
  notified_outcome rejected_outcome duplicate_outcome shadowed recovery_pending failed_replayable
        impossible :
      ObservationOutcome

abbrev kept_outcome : ObservationInput → ObservationOutcome → ObservationOutcome
kept_outcome i o = if not i.has_normalized_snapshot && not i.has_listing then impossible else o

abbrev notified_by : ObservationInput → Bool
notified_by i =
    i.observation_accepted
    || (i.has_listing && i.notification_accepted && is_accepted i.notification_status)

unfoldable pub classify_observation_contract : ObservationInput → ObservationOutcome
classify_observation_contract i = elim i.decision [
  | notified ↦ if notified_by i then notified_outcome else impossible
  | rejected ↦ rejected_outcome
  | duplicate ↦ duplicate_outcome
  | matched ↦ if i.has_listing && i.is_shadow then shadowed else kept_outcome i recovery_pending
  | failed_decision ↦ kept_outcome i failed_replayable
  | _ ↦ kept_outcome i recovery_pending
]

-- `CompletenessIssueCode`.
pub data IssueCode : Type 0 where
  known_id_without_observation listing_without_observation telegram_without_listing
        observation_dangling_listing notified_without_accepted_notification
        dispatch_without_notification_state stale_replayable_observation
        boundary_ahead_of_incomplete_observation pending_state_without_window
        pending_window_without_state verified_without_evidence :
      IssueCode

pub data Recovery : Type 0 where
  replayable continuity_only : Recovery

-- The `recovery` of `classifyCompletenessFact`; `none` is the severity IMPOSSIBLE.
unfoldable pub classify_completeness_fact : IssueCode → Option Recovery
classify_completeness_fact known_id_without_observation = some continuity_only
classify_completeness_fact stale_replayable_observation = some replayable
classify_completeness_fact boundary_ahead_of_incomplete_observation = some replayable
classify_completeness_fact _ = none

-- `CompletenessFactGroup`.
pub record FactGroup : Type 0 where
  pub code : IssueCode
  pub total_count : ℕ
  pub sample_count : ℕ
  pub oldest_recoverable_at : Option ℕ

pub record Summary : Type 0 where
  pub total_count : ℕ
  pub sample_count : ℕ
  pub impossible_count : ℕ
  pub replayable : ℕ
  pub continuity_only : ℕ
  pub oldest_recoverable_at : Option ℕ

abbrev empty_summary : Summary
empty_summary = record {
  total_count = 0;
  sample_count = 0;
  impossible_count = 0;
  replayable = 0;
  continuity_only = 0;
  oldest_recoverable_at = none;
}

abbrev older : Option ℕ → Option ℕ → Option ℕ
older none b = b
older (some a) none = some a
older (some a) (some b) = some (min a b)

abbrev add_group : FactGroup → Summary → Option Recovery → Summary
add_group g s none = record s { impossible_count = s.impossible_count + g.total_count }
add_group g s (some replayable) = record s {
  replayable = s.replayable + g.total_count;
  oldest_recoverable_at = older s.oldest_recoverable_at g.oldest_recoverable_at;
}
add_group g s (some continuity_only) = record s {
  continuity_only = s.continuity_only + g.total_count;
}

-- The loop of `summarizeCompletenessGroups` with its two sums.
unfoldable pub summarize_from : Summary → List FactGroup → Summary
summarize_from s [] = s
summarize_from s (g ∷ gs) =
    summarize_from
      (add_group g
        (record s {
          total_count = s.total_count + g.total_count;
          sample_count = s.sample_count + g.sample_count;
        })
        (classify_completeness_fact g.code))
      gs

unfoldable pub summarize_completeness_groups : List FactGroup → Summary
summarize_completeness_groups groups = summarize_from empty_summary groups

-- `ok`, `fullyRecoverable` and `clean` of the summary.
abbrev pub is_ok : Summary → Bool
is_ok s = s.impossible_count == 0

abbrev pub is_fully_recoverable : Summary → Bool
is_fully_recoverable s = s.impossible_count == 0 && s.continuity_only == 0

abbrev pub is_clean : Summary → Bool
is_clean s = s.total_count == 0

abbrev pub recoverable_count : Summary → ℕ
recoverable_count s = s.replayable + s.continuity_only

-- The group holds no facts, or facts that can be recovered.
abbrev pub IsRecoverable : FactGroup → Type 0
IsRecoverable g =
    (g.total_count ≡ 0) ⊎ ((r : Recovery) × (classify_completeness_fact g.code ≡ some r))

abbrev Adds : Summary → Type 0
Adds s = s.total_count ≡ s.impossible_count + s.replayable + s.continuity_only

summarize_from-Adds : (gs : List FactGroup) (s : Summary) → Adds s → Adds (summarize_from s gs)
unfolding summarize_from classify_completeness_fact
summarize_from-Adds [] s h = h
summarize_from-Adds (g ∷ gs) s h = summarize_from-Adds gs _ (ground arith)

summarize_from-impossible :
    (gs : List FactGroup) (s : Summary)
    → (summarize_from s gs).impossible_count ≡ 0
    → (s.impossible_count ≡ 0) × All IsRecoverable gs
unfolding summarize_from
summarize_from-impossible [] s h = (h, tt)
summarize_from-impossible (g ∷ gs) s h =
    let (a, b) = summarize_from-impossible gs _ h in
    (elim (Option-cases (classify_completeness_fact g.code)) [
      | inl e ↦ (ground (arith, e), (inl (ground (arith, e)), b))
      | inr (r, e) ↦ (ground (arith, e), (inr (r, e), b))
    ])

-- The counts of a summary add up to the facts found; it is `ok` only when every group that is not
-- empty can be recovered; and `clean` means `ok` and fully recoverable.
pub summarize_completeness_groups-adds :
    (groups : List FactGroup)
    → let s = summarize_completeness_groups groups in
      (s.total_count ≡ s.impossible_count + recoverable_count s)
      × ((is_ok s ≡ false) ⊎ All IsRecoverable groups)
      × ((is_clean s ≡ false) ⊎ (is_fully_recoverable s ≡ true))
unfolding summarize_completeness_groups
summarize_completeness_groups-adds groups =
    let s = summarize_from empty_summary groups in
    let adds = summarize_from-Adds groups empty_summary (omega arith) in
    (
      omega (arith, adds),
      elim (Bool-cases (is_ok s)) [
        | inl ok ↦ inr (summarize_from-impossible groups empty_summary (ground arith)).1
        | inr bad ↦ inl bad
      ],
      ground (arith, adds),
    )
