-- ===== src/Tests/Settings.antt =====
-- The settings of the retries.
use platform_event_filter.Common.{◌≡◌, true, arith}
use platform_event_filter.Common.Int.{pos}
use platform_event_filter.Retry.{
  Settings, Server, File, missing, config, field, absent, written, cut_short, load, save_config,
  start, to_int, signed, to_unsigned,
}
use platform_event_filter.Retry.Start.{WithinLimits, load-WithinLimits}
use platform_event_filter.Retry.Saved.{load-save_config}
use platform_event_filter.Retry.Steps.{
  IsSound, Reachable, started, stepped, retry_enable, retry_count, after, Reachable-IsSound,
}
use platform_event_filter.Retry.{set_retry_enable, set_retry_count}

abbrev five : Settings
five = record { retry_enable = true; retry_count = 5; time_interval = 60; alerts_limit = 20 }

five_within : WithinLimits five
five_within = record { count = omega arith; interval = omega arith; alerts = omega arith }

load-save_config_example : load (save_config five written missing) ≡ five
load-save_config_example = load-save_config five missing five_within

-- A file whose count is above its limit.
abbrev large : File
large = config (record {
  retry_enable = field true;
  retry_count = field (pos 300);
  time_interval = absent;
  alerts_limit = field (pos 20);
})

load-WithinLimits_example : WithinLimits (load large)
unfolding to_int signed to_unsigned
load-WithinLimits_example = load-WithinLimits large (tt, tt, tt)

-- Retries are turned on, and the count is set, whose save fails.
abbrev one_step : Server
one_step = after (start missing) (set_retry_enable true written (start missing))

abbrev two_steps : Server
two_steps = after one_step (set_retry_count 5 cut_short one_step)

two_steps-Reachable : Reachable missing two_steps
two_steps-Reachable =
    stepped (stepped started (retry_enable true written)) (retry_count 5 cut_short)

Reachable-IsSound_example : IsSound two_steps
Reachable-IsSound_example = Reachable-IsSound missing two_steps tt two_steps-Reachable

abbrev with_count : Settings → Settings
with_count s = record s { retry_count = 11 }
