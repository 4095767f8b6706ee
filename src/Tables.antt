-- ===== src/Tables.antt =====
-- src/pef_config.cpp, `parsePefConfToDbus`: the rows of a table of the configuration file, the four lists
-- they are put in, and the array properties of a list.
-- JSON is the library's (nlohmann): a row is an object, whose numbers and texts are read and written by their
-- keys.
pub mod Groups
use platform_event_filter.Common.{
  ℕ, zero, suc, ◌/◌, ◌==◌, ltb, if◌then◌else◌, Bool, Option, none, some, List, [], ◌∷◌, ◌++◌,
  String, ◌===◌, is_empty,
}
use platform_event_filter.Common.Int.{ℤ, pos}
use platform_event_filter.Retry.{to_unsigned}

-- What the object has under a key.
pub data Cell : Type 0 where
  absent other : Cell
  number : ℤ → Cell
  string : String → Cell

abbrev pub Row : Type 0
Row = String → Cell

-- `row.value(key, 0)`: `none` is the exception for a value of another type.
unfoldable pub value_or_zero : Cell → Option ℤ
value_or_zero absent = some (pos 0)
value_or_zero other = none
value_or_zero (string s) = none
value_or_zero (number z) = some z

-- `row[key] = cell`
unfoldable pub put : String → Cell → Row → Row
put key cell row = λ k. if k === key then cell else row k

-- `push_back` of a cast value, after the values of the rows before.
unfoldable pub cons_cast : ℕ → Option ℤ → Option (List ℕ) → Option (List ℕ)
cons_cast w none rest = none
cons_cast w (some z) none = none
cons_cast w (some z) (some rest) = some (to_unsigned w z ∷ rest)

-- The vector of one property: `static_cast<uintW_t>(row.value(key, 0))` of each row.
unfoldable pub column : ℕ → String → List Row → Option (List ℕ)
column w key [] = some []
column w key (row ∷ rows) = cons_cast w (value_or_zero (row key)) (column w key rows)

-- `std::map<int, std::vector<Json>>` with the keys 0 to 3.
abbrev pub Buckets : Type 0 → Type 0
Buckets A = ℕ → List A

unfoldable pub bucket_of_index : ℕ → ℕ → ℕ
bucket_of_index size idx = let bucket = idx / size in if ltb 3 bucket then 3 else bucket

module _ {A : Type 0} where
  unfoldable pub push_back : ℕ → A → Buckets A → Buckets A
  push_back bucket x buckets = λ k. if k == bucket then buckets k ++ (x ∷ []) else buckets k

  -- The loop that puts the rows from the index on into buckets.
  unfoldable pub fill : ℕ → ℕ → List A → Buckets A → Buckets A
  fill size idx [] buckets = buckets
  fill size idx (x ∷ xs) buckets =
      fill size (suc idx) xs (push_back (bucket_of_index size idx) x buckets)

  -- Ten rows a list for event filters and alert strings, fifteen for alert policies.
  unfoldable pub group_rows : ℕ → List A → Buckets A
  group_rows size rows = fill size 0 rows (λ k. [])
