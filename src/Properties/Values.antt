-- ===== src/Properties/Values.antt =====
-- src/pef_config.cpp: the values that the setters take, described without the code's masks and tests.
use platform_event_filter.Common.{ℕ, ◌%◌, ◌<◌, ◌≡◌, refl, Bool, true, ◌||◌, ◌==◌, arith}
use platform_event_filter.Common.Positions.{all_below, all_below_sound}
use platform_event_filter.EventData.BitSpec.{same}
use platform_event_filter.Properties.{valid_filter_config, valid_severity}

eq_of_same : (a b : Bool) → same a b ≡ true → a ≡ b
eq_of_same a b h = ground arith

-- A severity of the specification: unspecified, or one of the six levels, which have a bit each.
abbrev pub is_severity : ℕ → Bool
is_severity s = s == 0 || s == 1 || s == 2 || s == 4 || s == 8 || s == 16 || s == 32

-- All bits below the upper two clear.
abbrev pub is_plain_config : ℕ → Bool
is_plain_config v = v % 64 == 0

config_table : (v : ℕ) → v < 256 → same (valid_filter_config v) (is_plain_config v) ≡ true
unfolding valid_filter_config all_below
config_table v h =
    all_below_sound (λ v. same (valid_filter_config v) (is_plain_config v)) 256 v refl h

severity_table : (v : ℕ) → v < 256 → same (valid_severity v) (is_severity v) ≡ true
unfolding valid_severity all_below
severity_table v h = all_below_sound (λ v. same (valid_severity v) (is_severity v)) 256 v refl h

-- Of the bytes, FilterConfig takes those whose low six bits are clear, EventSeverity those of a level.
pub filter_values :
    (v : ℕ)
    → v < 256
    → (valid_filter_config v ≡ is_plain_config v) × (valid_severity v ≡ is_severity v)
filter_values v h = (eq_of_same _ _ (config_table v h), eq_of_same _ _ (severity_table v h))
