-- ===== src/Common/Texts.antt =====
-- Texts: joining them, and `std::to_string`.
use Prim.Native.Nat.{ℕ, zero, suc, ◌+◌, ◌/◌, ◌%◌}
use Prim.Native.String.{String, slice, ◌++◌}
use text.Mathlib.Text.{◌==◌}
use mathlib.Core.Path.{◌≡◌, refl}
use mathlib.Core.Bool.{Bool}
use platform_event_filter.Common.Tests.{ltb, if◌then◌else◌}

infixl 65 ◌&◌
abbrev pub ◌&◌ : String → String → String
s & t = s ++ t

infix 50 ◌===◌
abbrev pub ◌===◌ : String → String → Bool
s === t = s == t

abbrev pub is_empty : String → Bool
is_empty s = s == ""

unfoldable pub digit : ℕ → String
digit d = slice "0123456789" d (d + 1)

unfoldable pub to_string_from : ℕ → ℕ → String → String
to_string_from zero n text = text
to_string_from (suc fuel) n text =
    let more = to_string_from fuel (n / 10) (digit (n % 10) ++ text) in
    if ltb n 10 then digit n ++ text else more

-- `n + 1` rounds are enough: each divides `n` by ten.
unfoldable pub to_string : ℕ → String
unfolding to_string_from digit
to_string n = to_string_from (suc n) n ""

to_string_test : to_string 4096 ≡ "4096"
unfolding to_string
to_string_test = refl
