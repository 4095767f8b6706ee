-- ===== src/SensorPath.antt =====
-- include/pef_utils.hpp: `retrieveSensorTypeFromPath` and `getSensorNameFromPath`.
-- include/sdrutils.hpp: `getSensorTypeStringFromPath` has the same text as the first.
pub mod Laws
use Prim.Native.Nat.{ℕ, zero, suc, ◌+◌, ◌-◌, ◌%◌, ◌^◌}
use Prim.Native.Char.{code}
use Prim.Native.String.{String, [], ◌∷◌}
use mathlib.Core.Bool.{Bool, ◌&&◌}
use mathlib.Core.Option.{Option, none, some}
use platform_event_filter.Common.{◌==◌, leb, if◌then◌else◌}

-- Positions count characters; every cut is at a slash, so it falls between characters of a UTF-8 text.
-- `size_t` is 64 bits wide, and `npos` its greatest value.
abbrev pub npos : ℕ
npos = 2 ^ 64 - 1

-- a - b in `size_t`.
abbrev pub sub_size : ℕ → ℕ → ℕ
sub_size a b = (a + 2 ^ 64 - b) % 2 ^ 64

-- The last slash at or before `limit`; `i` is the position of the head of the rest.
rfind_from : String → ℕ → ℕ → Option ℕ → Option ℕ
rfind_from [] i limit best = best
rfind_from (c ∷ s) i limit best =
    rfind_from s (suc i) limit (if code c == b'/' && leb i limit then some i else best)

-- `path.rfind('/', limit)`
unfoldable pub rfind : String → ℕ → Option ℕ
unfolding rfind_from
rfind path limit = rfind_from path 0 limit none

drop_chars : ℕ → String → String
drop_chars zero s = s
drop_chars (suc n) [] = []
drop_chars (suc n) (c ∷ s) = drop_chars n s

take_chars : ℕ → String → String
take_chars n [] = []
take_chars zero (c ∷ s) = []
take_chars (suc n) (c ∷ s) = c ∷ take_chars n s

-- `path.substr(pos, n)`
unfoldable pub substr : String → ℕ → ℕ → String
unfolding take_chars drop_chars
substr path pos n = take_chars n (drop_chars pos path)

unfoldable pub type_before : String → ℕ → Option ℕ → String
type_before path type_end none = path
type_before path type_end (some type_start) =
    substr path (type_start + 1) (sub_size type_end (type_start + 1))

unfoldable pub type_until : String → Option ℕ → String
type_until path none = path
type_until path (some type_end) = type_before path type_end (rfind path (sub_size type_end 1))

unfoldable pub retrieve_sensor_type_from_path : String → String
unfolding type_before type_until rfind substr
retrieve_sensor_type_from_path path = type_until path (rfind path npos)

unfoldable pub name_after : String → Option ℕ → String
name_after path none = path
name_after path (some name_start) = substr path (name_start + 1) npos

unfoldable pub get_sensor_name_from_path : String → String
unfolding name_after rfind substr
get_sensor_name_from_path path = name_after path (rfind path npos)
