-- ===== src/ConfigUpdate/Entries.antt =====
-- include/pef_config_update.hpp: `findEntryNo`, the number in the last part of an object's path.
use Prim.Native.Char.{code}
use Prim.Native.String.{String, [], ◌∷◌}
use platform_event_filter.Common.{ℕ, ◌+◌, ◌-◌, ◌*◌, ◌≡◌, refl, Bool, ◌||◌, ◌==◌, if◌then◌else◌}
use platform_event_filter.Validation.{is_digit}

abbrev pub is_separator : ℕ → Bool
is_separator c = c == b'/' || c == b'\\'

-- `path.substr(path.find_last_of("/\\") + 1)`: what follows the last separator, else all of it.
unfoldable pub after_last : String → String → String
after_last [] kept = kept
after_last (c ∷ path) kept = after_last path (if is_separator (code c) then path else kept)

-- From the first digit on.
unfoldable pub from_digit : String → String
from_digit [] = []
from_digit (c ∷ entry) =
    let rest = from_digit entry in if is_digit (code c) then c ∷ entry else rest

-- `atoi` of a text with no blank or sign before the digits, for numbers that an `int` holds.
unfoldable pub atoi_from : ℕ → String → ℕ
atoi_from value [] = value
atoi_from value (c ∷ entry) =
    let rest = atoi_from (10 * value + (code c - b'0')) entry in
    if is_digit (code c) then rest else value

unfoldable pub find_entry_no : String → ℕ
unfolding after_last from_digit atoi_from
find_entry_no path = atoi_from 0 (from_digit (after_last path path))

entry_of_path :
    (find_entry_no "/xyz/openbmc_project/PefAlertManager/EventFilterTable/Entry37" ≡ 37)
    × (find_entry_no "/xyz/v2/Entry" ≡ 0)
    × (find_entry_no "List4" ≡ 4)
unfolding find_entry_no
entry_of_path = (refl, refl, refl)
