-- ===== src/Retry/Saved.antt =====
-- src/pef_action.cpp, `saveConfig` and `main`: settings that were saved are the ones that the next start
-- loads.
use platform_event_filter.Common.{◌%◌, ◌≡◌, refl, min, arith}
use platform_event_filter.Retry.{
  Settings, File, written, dump, save_config, load, assign, assign_retry_count,
  assign_time_interval, assign_alerts_limit, to_unsigned, min_int, max_retry, max_interval,
  max_alerts_limit,
}
use platform_event_filter.Retry.Start.{WithinLimits, to_int-pos}

-- Settings within their limits that are written to the file are loaded as they were.
pub load-save_config :
    (s : Settings) (file : File) → WithinLimits s → load (save_config s written file) ≡ s
unfolding load save_config dump assign assign_retry_count assign_time_interval assign_alerts_limit
    to_unsigned min_int
load-save_config s file h =
    let count : min s.retry_count max_retry % 256 ≡ s.retry_count = omega (arith, h.count) in
    let interval : min s.time_interval max_interval % 4294967296 ≡ s.time_interval =
      omega (arith, h.interval) in
    let alerts : min s.alerts_limit max_alerts_limit % 256 ≡ s.alerts_limit =
      omega (arith, h.alerts) in
    rw
      (
        to_int-pos s.retry_count (omega (arith, h.count)),
        to_int-pos s.time_interval (omega (arith, h.interval)),
        to_int-pos s.alerts_limit (omega (arith, h.alerts)),
      )
      (rw (count, interval, alerts) refl)
