-- ===== src/Common/Words.antt =====
-- The bits of a number.
pub use Prim.Native.Nat.{ℕ, zero, suc, ◌+◌, ◌-◌, ◌*◌, ◌/◌, ◌%◌, ◌^◌, ◌≤◌, ◌<◌, min, bit_and, bit_or}
pub use mathlib.Core.Path.{◌≡◌, refl, ap, ◌∙◌}
pub use mathlib.Core.Logic.{◌≢◌, inl, inr}
pub use mathlib.Core.Bool.{Bool, true, false, not, ◌&&◌, ◌||◌}
pub use native.Mathlib.Omega.{arith}
pub use platform_event_filter.Common.Tests.{◌==◌, Bool-cases, if◌then◌else◌}

abbrev pub odd : ℕ → Bool
odd a = a % 2 == 1

-- Bit `k`, the lowest being bit 0.
unfoldable pub bit : ℕ → ℕ → Bool
bit zero a = odd a
bit (suc k) a = bit k (a / 2)
