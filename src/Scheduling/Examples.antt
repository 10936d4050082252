-- ===== src/Scheduling/Examples.antt =====
-- The scheduling policies of apps/api/src/modules/monitoring at concrete inputs.
use auto_monitor_bot.Base.{ℕ, ◌+◌, sort_by, insert_by, true, false, [], ◌∷◌, none, some}
use auto_monitor_bot.Domain.{success}
use auto_monitor_bot.Scheduling.CadenceCanary.{
  CadenceRun, CanaryConfig, CanaryInput, baseline, decide_olx_cadence_canary, is_clean_run,
  evaluate_accelerated, accelerated_rollback_reason, growth_limit_ms, current_p95, qualify,
  consecutive_clean_runs,
}
use auto_monitor_bot.Scheduling.CadenceCanary.Transitions.{Edge, decide_olx_cadence_canary-Edge}
use auto_monitor_bot.Shared.Metrics.{summarize_metric, summarize_sorted, percentile}

abbrev quick_run : ℕ → ℕ → CadenceRun
quick_run id at = record {
  id = id;
  status = success;
  started_at = at;
  finished_at = some (at + 900);
  recovered_count = 0;
  semantic_warnings = [];
  error_message = none;
}

abbrev config : CanaryConfig
config = record {
  enabled = true;
  qualification_runs = 2;
  promotion_runs = 3;
  hot_path_minimum_samples = 5;
  p95_minimum_samples = 2;
  qualification_maximum_p95_ms = 2000;
  maximum_p95_ms = 3000;
  p95_growth_percent = 125;
  base_interval_seconds = 20;
  base_jitter_seconds = 4;
  canary_interval_seconds = 15;
  canary_jitter_seconds = 3;
}

abbrev qualifying : CanaryInput
qualifying = record {
  state = record {
    mode = baseline;
    qualification_started_at = 1000;
    canary_started_at = none;
    baseline_p95_ms = none;
    rollback_reason = none;
  };
  config = config;
  runs = quick_run 2 22000 ∷ quick_run 1 2000 ∷ [];
  hot_path_sample_count = 6;
  protection_active = false;
  queue_overflow = false;
  now = 30000;
}

-- What a test of a decision computes with.
deciding : CanaryInput
unfolding decide_olx_cadence_canary evaluate_accelerated accelerated_rollback_reason growth_limit_ms
    current_p95 qualify consecutive_clean_runs is_clean_run summarize_metric summarize_sorted
    percentile sort_by insert_by
deciding = qualifying

decide_olx_cadence_canary-Edge_example :
    Edge baseline
      (decide_olx_cadence_canary qualifying).transition
      (decide_olx_cadence_canary qualifying).mode
decide_olx_cadence_canary-Edge_example = decide_olx_cadence_canary-Edge qualifying
