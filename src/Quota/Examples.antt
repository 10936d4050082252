-- ===== src/Quota/Examples.antt =====
-- The quota at concrete histories.
use auto_monitor_bot.Base.{◌≤◌, ◌≡◌, refl, true, false, List, [], ◌∷◌, arith, insert_by}
use auto_monitor_bot.Quota.Budget.{
  search, info, QuotaConfig, QuotaStore, quota_script, consume_memory_quota,
  auto_ria_hourly_search_budget, quota_denial_reason, push_times, zadd_times,
  consume_auto_ria_quota,
}
use auto_monitor_bot.Quota.Agreement.{quota_script-memory}
use auto_monitor_bot.Quota.History.{
  Request, run_requests, granted_within, granted_in_month, no_requests,
}
use auto_monitor_bot.Quota.Window.{run_requests-hourly}

abbrev config : QuotaConfig
config = record {
  total_request_limit = 100;
  hourly_request_limit = 5;
  soft_reserve = 10;
  min_search_reserve = 20;
  max_info_per_scan = 2;
  search_requests_per_hour = 4;
  paid_enrichment_enabled = false;
}

abbrev busy : QuotaStore
busy = record { monthly = λ m. 30; rolling = 1000 ∷ 2000 ∷ 3000 ∷ [] }

quota_script-memory_example :
    quota_script config search 2 7 3601500 busy
    ≡ consume_memory_quota config search 2 7 3601500 busy
unfolding auto_ria_hourly_search_budget
quota_script-memory_example =
    quota_script-memory config search 2 7 3601500 busy (omega arith) (omega arith) (omega arith)
      (omega arith, (omega arith, (omega arith, tt)))

abbrev requests : List Request
requests =
    record { kind = search; cost = 2; month = 7; now = 1000; reachable = true }
    ∷ record { kind = info; cost = 0; month = 7; now = 2000; reachable = false }
    ∷ record { kind = search; cost = 2; month = 7; now = 3000; reachable = true }
    ∷ record { kind = info; cost = 1; month = 7; now = 3602000; reachable = true }
    ∷ []

run_requests-hourly_example :
    granted_within true 3602000 (run_requests config requests no_requests []).1 ≤ 5
run_requests-hourly_example =
    run_requests-hourly config requests true 3602000 (omega arith)
      (omega arith, (omega arith, (omega arith, (omega arith, tt))))

-- The second search is over the budget of searches, which leaves two requests for details.
test_granted :
    (granted_within true 3000 (run_requests config requests no_requests []).1 ≡ 2)
    × (granted_within true 3602000 (run_requests config requests no_requests []).1 ≡ 1)
    × (granted_in_month false 7 (run_requests config requests no_requests []).1 ≡ 1)
unfolding run_requests granted_within granted_in_month consume_auto_ria_quota quota_script
    auto_ria_hourly_search_budget zadd_times consume_memory_quota quota_denial_reason push_times
    insert_by
test_granted = (refl, refl, refl)
