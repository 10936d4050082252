-- ===== src/Delivery/Examples.antt =====
-- The gate, the completeness contract and the bursts at concrete inputs.
use auto_monitor_bot.Base.{◌≡◌, refl, List, [], ◌∷◌, none, some, arith, ℕ, Bool, leb, length}
use auto_monitor_bot.Delivery.Burst.{
  split_first_signal_listings, split_rows, IsSplit, split_first_signal_listings-IsSplit,
}
use auto_monitor_bot.Delivery.Gate.{
  Gate, reserve, defer, defer_for, wait_turn, GateEvent, reserves, defers, gate_step, slots_given,
}
use auto_monitor_bot.Delivery.Spacing.{slots_given-spaced}
use auto_monitor_bot.Delivery.Completeness.{
  FactGroup, stale_replayable_observation, telegram_without_listing, classify_completeness_fact,
  summarize_completeness_groups, summarize_from,
}

abbrev empty_gate : Gate
empty_gate = record { slot = none; waiters = []; waiters_expire_at = 0 }

abbrev burst : List GateEvent
burst =
    reserves 1100 1000 7 10000
    ∷ reserves 1200 1000 3 10000
    ∷ defers 1500 4000
    ∷ reserves 1900 1000 3 10000
    ∷ []

-- What a test of the gate computes with.
gate : Gate
unfolding reserve defer defer_for wait_turn gate_step slots_given
gate = empty_gate

slots_given-spaced_example : slots_given burst (reserve 1000 1000 5 10000 empty_gate).1 ≡ 0
unfolding gate
slots_given-spaced_example =
    slots_given-spaced 1000 1000 5 10000 empty_gate burst refl
      (omega arith, (omega arith, (omega arith, (omega arith, tt))))

abbrev groups : List FactGroup
groups =
    record {
      code = stale_replayable_observation;
      total_count = 3;
      sample_count = 2;
      oldest_recoverable_at = some 500;
    }
    ∷ record {
      code = telegram_without_listing;
      total_count = 1;
      sample_count = 1;
      oldest_recoverable_at = none;
    }
    ∷ []

groups_total : (summarize_completeness_groups groups).total_count ≡ 4
unfolding summarize_completeness_groups summarize_from classify_completeness_fact
groups_total = refl

-- A text holds three listings; four come in a burst.
abbrev three_fit : List ℕ → Bool
three_fit rows = leb (length rows) 3

test_split :
    split_first_signal_listings three_fit (1 ∷ 2 ∷ 3 ∷ 4 ∷ []) 20
    ≡ some ((1 ∷ 2 ∷ 3 ∷ []) ∷ (4 ∷ []) ∷ [])
unfolding split_first_signal_listings split_rows
test_split = refl

split_first_signal_listings-IsSplit_example :
    (groups : List (List ℕ)) × (split_first_signal_listings three_fit (1 ∷ 2 ∷ 3 ∷ 4 ∷ []) 20
      ≡ some groups)
    × IsSplit three_fit 20 (1 ∷ 2 ∷ 3 ∷ 4 ∷ []) groups
split_first_signal_listings-IsSplit_example =
    split_first_signal_listings-IsSplit three_fit (1 ∷ 2 ∷ 3 ∷ 4 ∷ []) 20
      (refl, (refl, (refl, (refl, tt))))
