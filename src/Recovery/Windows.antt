-- ===== src/Recovery/Windows.antt =====
-- apps/worker/src/modules/source-search-plan.ts: when a recovery is pending, and what closes it.
use auto_monitor_bot.Base.{
  ◌∙◌, All-filter, Option-cases, inl, inr, All, filter, map, sort_by-All, ◌||◌, ℕ, ◌≤◌, ◌≡◌, refl,
  ◌⊎◌, Bool, true, false, not, ◌&&◌, List, [], ◌∷◌, Option, none, some, arith, ltb, if_cases,
  or_else, is_some, length, all, length-sort_by,
}
use auto_monitor_bot.Domain.{is_backfill_lane}
use auto_monitor_bot.Recovery.Plan.{
  Transition, known_tail, cutoff, oldest_date, plan_coverage_recovery, is_auto_ria,
  coverage_verification_has_durable_evidence, decide_coverage_recovery_transition,
}
use auto_monitor_bot.Recovery.State.{
  is_coverage_lane, Window, SearchState, RecoveryConfig, Scan, trusted, is_suspicious,
  sorted_windows, other_windows, first_window, scan_plan, try_else,
}
use auto_monitor_bot.Recovery.Scan.{
  is_pending_window, written_windows, updated_window, sibling_window, scan_method, anchors_match,
  scan_evidence, scan_transition, scan_window, durable_cutoff, scan_windows, update_search_state,
  mark_source_search_success, run_scans,
}

abbrev has_windows : List Window → Bool
has_windows [] = false
has_windows _ = true

-- A recovery is pending exactly while a window is, and the windows that count as pending are rows with
-- that status.
abbrev pub IsConsistent : SearchState → Type 0
IsConsistent s =
    (has_windows s.pending_windows ≡ s.coverage_recovery_pending)
    × All (λ w. is_pending_window w ≡ true) s.pending_windows

same_length :
    (vs ws : List Window) → length vs ≡ length ws → is_some (first_window vs) ≡ has_windows ws
same_length [] [] e = refl
same_length [] (w ∷ ws) e = ground (arith, e)
same_length (v ∷ vs) [] e = ground (arith, e)
same_length (v ∷ vs) (w ∷ ws) e = refl

first_window-sorted :
    (s : SearchState) → is_some (first_window (sorted_windows s)) ≡ has_windows s.pending_windows
first_window-sorted s =
    same_length (sorted_windows s) s.pending_windows
      (length-sort_by (λ a b. ltb a.required_cutoff_at b.required_cutoff_at) s.pending_windows)

-- A pending recovery is requested by every scan, and a request has a cutoff.
scan_plan-requested :
    (c : RecoveryConfig) (o : Scan) (s : SearchState)
    → ((scan_plan c o s).requested ≡ true) ⊎ (s.coverage_recovery_pending ≡ false)
unfolding scan_plan plan_coverage_recovery
scan_plan-requested c o s = ground arith

filter-closed :
    (o : Scan) (updated : Window) (ws : List Window)
    → is_pending_window updated ≡ false
    → filter is_pending_window (map (sibling_window o updated) ws) ≡ []
filter-closed o updated [] h = refl
filter-closed o updated (w ∷ ws) h = ground (arith, filter-closed o updated ws h)

-- Of a pending window and its siblings, behind the update, some stay pending where it closes none.
updated_window-pending :
    (t : Transition) (o : Scan) (cut : Option ℕ) (w : Window) (ws : List Window)
    → is_pending_window w ≡ true
    → let updated = updated_window t o cut w in
      has_windows (filter is_pending_window (updated ∷ map (sibling_window o updated) ws))
      ≡ not (t.unresolved || t.verified)
updated_window-pending t o cut w ws h =
    ground (arith, filter-closed o (updated_window t o cut w) ws)

other_windows-All :
    (ws : List Window)
    → All (λ w. is_pending_window w ≡ true) ws
    → All (λ w. is_pending_window w ≡ true) (other_windows ws)
other_windows-All [] a = tt
other_windows-All (w ∷ ws) a = a.1

first_window-pending :
    (ws : List Window) (w : Window)
    → All (λ w. is_pending_window w ≡ true) ws
    → first_window ws ≡ some w
    → is_pending_window w ≡ true
first_window-pending [] w a h = absurd (ground (arith, h))
first_window-pending (v ∷ ws) w a h = ground (arith, a.0, h)

sorted_windows-All :
    (s : SearchState)
    → All (λ w. is_pending_window w ≡ true) s.pending_windows
    → All (λ w. is_pending_window w ≡ true) (sorted_windows s)
sorted_windows-All s a =
    sort_by-All (λ w. is_pending_window w ≡ true)
      (λ a b. ltb a.required_cutoff_at b.required_cutoff_at) s.pending_windows a

scan_window-pending :
    (c : RecoveryConfig) (o : Scan) (s : SearchState) (w : Window)
    → All (λ w. is_pending_window w ≡ true) s.pending_windows
    → scan_window c o s ≡ some w
    → is_pending_window w ≡ true
unfolding scan_window
scan_window-pending c o s w a h = elim (Option-cases (first_window (sorted_windows s))) [
  | inl missing ↦ ground (arith, missing, h)
  | inr (v, e) ↦
      ground (arith, e, h, first_window-pending (sorted_windows s) v (sorted_windows-All s a) e)
]

-- Without a window nothing is pending, and no recovery is requested.
scan_window-missing :
    (c : RecoveryConfig) (o : Scan) (s : SearchState)
    → scan_window c o s ≡ none
    → (has_windows s.pending_windows ≡ false) × ((scan_plan c o s).requested ≡ false)
unfolding scan_window
scan_window-missing c o s h =
    (ground (arith, h, first_window-sorted s), ground (arith, h, first_window-sorted s))

-- With a window, a recovery is requested.
scan_window-requested :
    (c : RecoveryConfig) (o : Scan) (s : SearchState) (w : Window)
    → scan_window c o s ≡ some w
    → has_windows s.pending_windows ≡ s.coverage_recovery_pending
    → (scan_plan c o s).requested ≡ true
unfolding scan_window
scan_window-requested c o s w e h =
    ground (arith, e, h, first_window-sorted s, scan_plan-requested c o s)

written_windows-has_windows :
    (c : RecoveryConfig) (o : Scan) (s : SearchState) (x : Option Window)
    → scan_window c o s ≡ x
    → IsConsistent s
    → has_windows (written_windows c o s x).0 ≡ (scan_transition c o s).required
unfolding written_windows scan_transition decide_coverage_recovery_transition
written_windows-has_windows c o s none e h =
    let none_left = scan_window-missing c o s e in ground (arith, none_left.0, none_left.1, h.0)
written_windows-has_windows c o s (some w) e h =
    let requested = scan_window-requested c o s w e h.0 in
    let updated =
      updated_window-pending (scan_transition c o s) o (durable_cutoff c o s) w
        (other_windows (sorted_windows s)) (scan_window-pending c o s w h.1 e) in
    if_cases
      (λ (ws : List Window × List Window). has_windows ws.0 ≡ (scan_transition c o s).required)
      (not (is_coverage_lane o.lane)
        && (not s.coverage_recovery_pending && (scan_plan c o s).requested
            || is_backfill_lane o.lane
            || (scan_transition c o s).verified))
      (λ writes. updated ∙ ground (arith, writes, requested))
      (λ reads. ground (arith, e, reads, requested))

written_windows-All :
    (c : RecoveryConfig) (o : Scan) (s : SearchState) (x : Option Window)
    → scan_window c o s ≡ x
    → All (λ w. is_pending_window w ≡ true) s.pending_windows
    → All (λ w. is_pending_window w ≡ true) (written_windows c o s x).0
unfolding written_windows
written_windows-All c o s none e a = tt
written_windows-All c o s (some w) e a =
    let updated = updated_window (scan_transition c o s) o (durable_cutoff c o s) w in
    if_cases (λ (ws : List Window × List Window). All (λ w. is_pending_window w ≡ true) ws.0)
      (not (is_coverage_lane o.lane)
        && (not s.coverage_recovery_pending && (scan_plan c o s).requested
            || is_backfill_lane o.lane
            || (scan_transition c o s).verified))
      (λ writes.
        All-filter (λ w. is_pending_window w ≡ true) is_pending_window
          (updated ∷ map (sibling_window o updated) (other_windows (sorted_windows s))) (λ x e. e))
      (λ reads. (
        scan_window-pending c o s w a e,
        other_windows-All (sorted_windows s) (sorted_windows-All s a),
      ))

update_search_state-IsConsistent :
    (c : RecoveryConfig) (o : Scan) (s : SearchState)
    → IsConsistent s
    → IsConsistent (update_search_state c o s)
unfolding update_search_state scan_windows
update_search_state-IsConsistent c o s h = (
  written_windows-has_windows c o s (scan_window c o s) refl h,
  written_windows-All c o s (scan_window c o s) refl h.1,
)

mark_source_search_success-IsConsistent :
    (c : RecoveryConfig) (o : Scan) (s : SearchState)
    → IsConsistent s
    → IsConsistent (mark_source_search_success c o s)
unfolding mark_source_search_success
mark_source_search_success-IsConsistent c o s h =
    if_cases IsConsistent o.same_shard (λ _. update_search_state-IsConsistent c (trusted o) s h)
      (λ _. h)

-- For any history of scans, of any lanes: where a search and its windows agree at the start, a
-- recovery is pending at the end exactly while a window of the search is, and each of these windows
-- has the status of a pending one.
pub run_scans-IsConsistent :
    (c : RecoveryConfig) (os : List Scan) (s : SearchState)
    → IsConsistent s
    → IsConsistent (run_scans c os s)
unfolding run_scans
run_scans-IsConsistent c [] s h = h
run_scans-IsConsistent c (o ∷ os) s h =
    run_scans-IsConsistent c os (mark_source_search_success c o s)
      (mark_source_search_success-IsConsistent c o s h)

-- A date, no later than another.
abbrev HasWithin : Option ℕ → ℕ → Type 0
HasWithin o b = (d : ℕ) × (o ≡ some d) × (d ≤ b)

or_else-HasWithin : (o : Option ℕ) (e b : ℕ) → HasWithin o b → HasWithin (some (or_else o e)) b
or_else-HasWithin none e b (d, q, le) = ground (arith, q)
or_else-HasWithin (some a) e b (d, q, le) = (a, refl, ground (arith, q))

try_else-HasWithin : (o p : Option ℕ) (b : ℕ) → HasWithin o b → HasWithin (try_else o p) b
try_else-HasWithin none p b (d, q, le) = ground (arith, q)
try_else-HasWithin (some a) p b h = h

oldest_date-le : (o p : Option ℕ) (b : ℕ) → HasWithin o b → HasWithin (oldest_date o p) b
oldest_date-le none p b (d, e, le) = ground (arith, e)
oldest_date-le (some a) none b h = h
oldest_date-le (some a) (some q) b (d, e, le) =
    if_cases (λ x. HasWithin (some x) b) (ltb q a) (λ lt. (q, refl, ground (arith, e)))
      (λ ge. (a, refl, ground (arith, e)))

-- A request has a cutoff, no later than the one that is required already.
scan_plan-cutoff :
    (c : RecoveryConfig) (o : Scan) (s : SearchState) (b : ℕ)
    → s.coverage_recovery_pending ≡ true
    → s.coverage_recovery_cutoff_at ≡ some b
    → HasWithin (scan_plan c o s).required_cutoff_at b
unfolding scan_plan plan_coverage_recovery
scan_plan-cutoff c o s b p h = rw p (
    or_else-HasWithin _ _ b
      (oldest_date-le _ _ b (oldest_date-le _ _ b (oldest_date-le _ _ b (b, h, omega arith)))))

durable_cutoff-older :
    (c : RecoveryConfig) (o : Scan) (s : SearchState) (b : ℕ)
    → s.coverage_recovery_pending ≡ true
    → s.coverage_recovery_cutoff_at ≡ some b
    → HasWithin (durable_cutoff c o s) b
unfolding durable_cutoff
durable_cutoff-older c o s b p h =
    try_else-HasWithin _ _ b (oldest_date-le _ _ b (scan_plan-cutoff c o s b p h))

-- A pending recovery is closed by a scan only in the backfill lane and of its own search, and only
-- with a reason why it stays unresolved, or with evidence: ids that reach the anchors which were
-- frozen for its only window, or a listing that is at least as old as the required cutoff. Of a
-- suspicious response only a reason that AUTO.RIA gives counts.
pub mark_source_search_success-closes :
    (c : RecoveryConfig) (o : Scan) (s : SearchState) (b : ℕ)
    → s.coverage_recovery_pending ≡ true
    → s.coverage_recovery_cutoff_at ≡ some b
    → (mark_source_search_success c o s).coverage_recovery_pending ≡ false
    → (o.same_shard ≡ true)
      × (is_backfill_lane o.lane ≡ true)
      × ((is_some o.unresolved_reason ≡ true)
            × (is_suspicious o && not (is_auto_ria o.source) ≡ false)
          ⊎ (is_suspicious o ≡ false)
            × (o.coverage_verified ≡ true)
            × ((scan_method o ≡ some known_tail)
                  × (anchors_match o s ≡ true)
                  × (length s.pending_windows ≤ 1)
                ⊎ (scan_method o ≡ some cutoff)
                  × ((x : ℕ) × (o.oldest_observed_at ≡ some x) × (x ≤ b))))
unfolding mark_source_search_success update_search_state scan_transition
    decide_coverage_recovery_transition scan_evidence coverage_verification_has_durable_evidence
    trusted
mark_source_search_success-closes c o s b p h e =
    let (d, q, le) = scan_plan-cutoff c (trusted o) s b p h in
    ground (arith, q, le, scan_plan-requested c (trusted o) s)

mark_source_search_success-stays :
    (c : RecoveryConfig) (o : Scan) (s : SearchState) (b : ℕ)
    → is_backfill_lane o.lane ≡ false
    → s.coverage_recovery_pending ≡ true
    → s.coverage_recovery_cutoff_at ≡ some b
    → ((mark_source_search_success c o s).coverage_recovery_pending ≡ true)
      × HasWithin (mark_source_search_success c o s).coverage_recovery_cutoff_at b
unfolding mark_source_search_success update_search_state scan_transition
    decide_coverage_recovery_transition trusted
mark_source_search_success-stays c o s b l p h =
    let (d, q, le) = durable_cutoff-older c (trusted o) s b p h in
    let requested = scan_plan-requested c (trusted o) s in
    if_cases
      (λ (x : SearchState).
        (x.coverage_recovery_pending ≡ true) × HasWithin x.coverage_recovery_cutoff_at b)
      o.same_shard (λ own. (ground (arith, requested), (d, ground (arith, requested, q), le)))
      (λ other. (p, (b, h, omega arith)))

-- No history of scans outside the backfill lane closes a pending recovery, or brings its cutoff
-- forward.
pub run_scans-stays_pending :
    (c : RecoveryConfig) (os : List Scan) (s : SearchState) (b : ℕ)
    → all (λ o. not (is_backfill_lane o.lane)) os ≡ true
    → s.coverage_recovery_pending ≡ true
    → s.coverage_recovery_cutoff_at ≡ some b
    → ((run_scans c os s).coverage_recovery_pending ≡ true)
      × ((d : ℕ) × ((run_scans c os s).coverage_recovery_cutoff_at ≡ some d) × (d ≤ b))
unfolding run_scans
run_scans-stays_pending c [] s b l p h = (p, (b, h, omega arith))
run_scans-stays_pending c (o ∷ os) s b l p h =
    let (still, (d, q, le)) = mark_source_search_success-stays c o s b (ground arith) p h in
    let (end, (e, r, le')) =
      run_scans-stays_pending c os (mark_source_search_success c o s) d (ground arith) still q in
    (end, (e, r, omega (arith, le, le')))
