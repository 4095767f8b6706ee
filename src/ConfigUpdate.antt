-- ===== src/ConfigUpdate.antt =====
-- include/pef_config_update.hpp: the monitors by which the action daemon writes changed properties back to
-- the configuration file.
pub mod Overlay
pub mod WriteBack
pub mod Columns
pub mod Entries
pub mod EntryNumbers
pub mod Monitors
pub mod Lists
use platform_event_filter.Common.{
  ℕ, zero, suc, ◌+◌, ◌-◌, ◌*◌, min, ltb, if◌then◌else◌, List, [], ◌∷◌, String, length, take,
}
use platform_event_filter.Common.Int.{pos}
use platform_event_filter.Tables.{Cell, number, Row, put}

module _ {A : Type 0} where
  -- An element changed where it stands.
  unfoldable pub change_at : ℕ → (A → A) → List A → List A
  change_at i f [] = []
  change_at zero f (x ∷ xs) = f x ∷ xs
  change_at (suc i) f (x ∷ xs) = x ∷ change_at i f xs

-- The loop `table[start + i][property] = values[i]`, from one row on.
unfoldable pub put_values : String → ℕ → List Cell → List Row → List Row
put_values property row [] rows = rows
put_values property row (v ∷ values) rows =
    put_values property (suc row) values (change_at row (put property v) rows)

-- The rows of the list, as many as there are values and rows of the table left.
unfoldable pub put_in_list : ℕ → ℕ → String → List Cell → List Row → List Row
put_in_list size bucket property values rows =
    let start : ℕ = bucket * size in
    let max_count : ℕ = if ltb start (length rows) then length rows - start else 0 in
    let count : ℕ = min (length values) max_count in
    put_values property start (take count values) rows

-- Numbers as cells.
unfoldable pub numbers : List ℕ → List Cell
numbers [] = []
numbers (n ∷ ns) = number (pos n) ∷ numbers ns
