-- ===== src/Protection/Examples.antt =====
-- The pauses of packages/shared/src/utils/jitter.ts and source-protection-policy.ts at concrete inputs.
use auto_monitor_bot.Base.{◌≡◌, refl}
use auto_monitor_bot.Protection.Pauses.{protection_pause_seconds}
use auto_monitor_bot.Protection.Pauses.Bounds.{pause_after}

third_pause : pause_after 3 300 3600 ≡ 2400
unfolding protection_pause_seconds
third_pause = refl
