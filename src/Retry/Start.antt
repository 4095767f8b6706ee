-- ===== src/Retry/Start.antt =====
-- src/pef_action.cpp, `main`: the retry settings that are read from the file.
use platform_event_filter.Common.{
  ℕ, ◌-◌, ◌%◌, ◌^◌, ◌≤◌, ◌<◌, ◌≡◌, refl, min, ltb, Bool, true, false, arith,
}
use native.Mathlib.Nat.{mod-le}
use platform_event_filter.Common.Int.{ℤ, pos, negsuc}
use platform_event_filter.Retry.{
  Settings, Field, absent, mistyped, field, Config, File, missing, broken, config, max_retry,
  max_interval, max_alerts_limit, defaults, to_unsigned, signed, to_int, min_int, assign,
  assign_alerts_limit, assign_time_interval, assign_retry_count, load,
}

-- Each number is within its limit.
pub record WithinLimits (s : Settings) : Type 0 where
  pub count : s.retry_count ≤ max_retry
  pub interval : s.time_interval ≤ max_interval
  pub alerts : s.alerts_limit ≤ max_alerts_limit

-- An integer that is kept in an `int`.
pub to_int-pos : (n : ℕ) → n < 2 ^ 31 → to_int (pos n) ≡ pos n
unfolding to_int to_unsigned signed
to_int-pos n h =
    let small : n % 2 ^ 32 ≡ n = omega arith in
    let below : ltb n (2 ^ 31) ≡ true = ground arith in rw (small, below) refl

pub to_int-negsuc : (n : ℕ) → n < 2 ^ 31 → to_int (negsuc n) ≡ negsuc n
unfolding to_int to_unsigned signed
to_int-negsuc n h =
    let above : ltb (2 ^ 32 - 1 - n % 2 ^ 32) (2 ^ 31) ≡ false = ground arith in
    let same : 2 ^ 32 - 1 - (2 ^ 32 - 1 - n % 2 ^ 32) ≡ n = omega arith in rw (above, same) refl

abbrev pub IsNatural : ℤ → Type 0
IsNatural (pos n) = Unit {0}
IsNatural (negsuc n) = ⊥

-- The number under a key is not negative as an `int`, if there is one.
abbrev pub NotNegative : Field ℤ → Type 0
NotNegative absent = Unit {0}
NotNegative mistyped = Unit {0}
NotNegative (field z) = IsNatural (to_int z)

abbrev pub NoNegatives : File → Type 0
NoNegatives missing = Unit {0}
NoNegatives broken = Unit {0}
NoNegatives (config c) =
    NotNegative c.retry_count × NotNegative c.time_interval × NotNegative c.alerts_limit

clamped :
    (w : ℕ) (z : ℤ) (limit : ℕ)
    → limit < 2 ^ w
    → IsNatural z
    → to_unsigned w (min_int z limit) ≤ limit
unfolding to_unsigned min_int
clamped w (pos n) limit h p = omega (arith, mod-le (min n limit) (2 ^ w))
clamped w (negsuc n) limit h p = absurd p

-- An assignment keeps what it must where each way that it can go does.
assign-WithinLimits :
    (f : Field ℤ) (set : ℤ → Settings) (rest : Settings → Settings) (s : Settings)
    → NotNegative f
    → WithinLimits s
    → ((z : ℤ) → IsNatural (to_int z) → WithinLimits (set z))
    → ((t : Settings) → WithinLimits t → WithinLimits (rest t))
    → WithinLimits (assign f (pos 0) set rest s)
unfolding assign to_int to_unsigned signed
assign-WithinLimits absent set rest s p h k r = r _ (k (pos 0) tt)
assign-WithinLimits mistyped set rest s p h k r = h
assign-WithinLimits (field z) set rest s p h k r = r _ (k z p)

alerts-WithinLimits :
    (c : Config) (s : Settings)
    → NotNegative c.alerts_limit
    → WithinLimits s
    → WithinLimits (assign_alerts_limit c s)
unfolding assign_alerts_limit
alerts-WithinLimits c s p h =
    assign-WithinLimits c.alerts_limit _ _ s p h
      (λ z p. record {
        count = h.count;
        interval = h.interval;
        alerts = clamped 8 (to_int z) max_alerts_limit (omega arith) p;
      })
      (λ t q. q)

interval-WithinLimits :
    (c : Config) (s : Settings)
    → NotNegative c.time_interval
    → NotNegative c.alerts_limit
    → WithinLimits s
    → WithinLimits (assign_time_interval c s)
unfolding assign_time_interval
interval-WithinLimits c s p q h =
    assign-WithinLimits c.time_interval _ _ s p h
      (λ z p. record {
        count = h.count;
        interval = clamped 32 (to_int z) max_interval (omega arith) p;
        alerts = h.alerts;
      })
      (λ t. alerts-WithinLimits c t q)

count-WithinLimits :
    (c : Config) (s : Settings)
    → NoNegatives (config c)
    → WithinLimits s
    → WithinLimits (assign_retry_count c s)
unfolding assign_retry_count
count-WithinLimits c s (p, q, r) h =
    assign-WithinLimits c.retry_count _ _ s p h
      (λ z p. record {
        count = clamped 8 (to_int z) max_retry (omega arith) p;
        interval = h.interval;
        alerts = h.alerts;
      })
      (λ t. interval-WithinLimits c t q r)

defaults-WithinLimits : (b : Bool) → WithinLimits (record defaults { retry_enable = b })
defaults-WithinLimits b = record {
  count = omega arith;
  interval = omega arith;
  alerts = omega arith;
}

enable-WithinLimits :
    (c : Config) (f : Field Bool)
    → NoNegatives (config c)
    → WithinLimits
        (assign f false (λ v. record defaults { retry_enable = v }) (assign_retry_count c) defaults)
unfolding assign
enable-WithinLimits c absent h = count-WithinLimits c _ h (defaults-WithinLimits false)
enable-WithinLimits c mistyped h = defaults-WithinLimits false
enable-WithinLimits c (field v) h = count-WithinLimits c _ h (defaults-WithinLimits v)

-- Whatever the file is, if none of its numbers is negative as a 32-bit `int` then the settings that are loaded
-- are within their limits.
pub load-WithinLimits : (file : File) → NoNegatives file → WithinLimits (load file)
unfolding load
load-WithinLimits missing h = defaults-WithinLimits false
load-WithinLimits broken h = defaults-WithinLimits false
load-WithinLimits (config c) h = enable-WithinLimits c c.retry_enable h

-- A negative count gets past the upper bound: from -256 to -1 it is loaded as itself plus 256, and
-- from -246 on that is more than the limit.
pub load-negative_count :
    (enable : Bool) (n : ℕ)
    → n < 256
    → (load (
        config (record {
          retry_enable = field enable;
          retry_count = field (negsuc n);
          time_interval = absent;
          alerts_limit = absent;
        }))).retry_count
      ≡ 255 - n
unfolding load assign_retry_count assign_time_interval assign_alerts_limit assign to_unsigned
    min_int
load-negative_count enable n h = rw (to_int-negsuc n (omega arith)) (omega arith)
