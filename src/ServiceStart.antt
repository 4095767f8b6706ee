-- ===== src/ServiceStart.antt =====
-- src/pef_config.cpp, `parsePefConfToDbus`: the objects that the service makes of the configuration file
-- and of the LAN interfaces, one after the other, until an exception ends the start.
pub mod Tables
pub mod ConfProperties
pub mod ConfInfo
pub mod Selectors
pub mod Channels
pub mod Readable
pub mod Order
use platform_event_filter.Common.{
  ℕ, zero, suc, ◌+◌, Bool, if◌then◌else◌, Option, none, some, List, [], ◌∷◌, ◌++◌, String, ◌&◌,
  to_string, map,
}
use platform_event_filter.Common.Int.{ℤ, pos, negsuc}
use platform_event_filter.Retry.{to_unsigned}
use platform_event_filter.Tables.{Cell, absent, other, number, string, Row, column, group_rows}
use platform_event_filter.LanStart.{Shown}

-- What a read of the JSON data gives: an exception of the library, undefined behaviour, or a value.
pub data Read (A : Type 0) : Type 0 where
  failed undefined : Read A
  value : A → Read A

infixl 5 ◌>>=◌
abbrev pub ◌>>=◌ : {A B : Type 0} → Read A → (A → Read B) → Read B
failed >>= f = failed
undefined >>= f = undefined
value a >>= f = f a

abbrev pub of_option : {A : Type 0} → Option A → Read A
of_option none = failed
of_option (some a) = value a

-- The value of a property.
pub data PropertyValue : Type 0 where
  num : ℕ → PropertyValue
  text : String → PropertyValue
  nums : List ℕ → PropertyValue
  texts : List String → PropertyValue

-- A property has a name, and a value of one of the kinds under a key of the row.
pub data Kind : Type 0 where
  byte_kind word_kind text_kind : Kind

pub record Registered : Type 0 where
  pub name : String
  pub key : String
  pub kind : Kind

-- An object with its path, its interface and its properties; or one of a LAN interface.
pub data DbusObject : Type 0 where
  object : (path interface : String) → List (String × PropertyValue) → DbusObject
  lan_object : (iface : String) → Shown → DbusObject

-- `static_cast<uintW_t>(row[key])`: of a constant row, where `operator[]` is undefined without the key.
unfoldable pub number_of : ℕ → Cell → Read PropertyValue
number_of w absent = undefined
number_of w other = failed
number_of w (string s) = failed
number_of w (number z) = value (num (to_unsigned w z))

unfoldable pub string_of : Cell → Read PropertyValue
string_of absent = undefined
string_of other = failed
string_of (string s) = value (text s)
string_of (number z) = failed

unfoldable pub read_cell : Kind → Cell → Read PropertyValue
read_cell byte_kind cell = number_of 8 cell
read_cell word_kind cell = number_of 16 cell
read_cell text_kind cell = string_of cell

unfoldable pub read_properties : List Registered → Row → Read (List (String × PropertyValue))
read_properties [] row = value []
read_properties (r ∷ registered) row = do
  v ← read_cell r.kind (row r.key)
  rest ← read_properties registered row
  value ((r.name, v) ∷ rest)

-- The object of a row.
unfoldable pub row_object : String → String → List Registered → Row → Read DbusObject
row_object path interface registered row =
    read_properties registered row >>= λ ps. value (object path interface ps)

unfoldable pub row_objects : String → String → List Registered → List Row → List (Read DbusObject)
row_objects path interface registered rows = map (row_object path interface registered) rows

-- A vector of a list: numbers of a width, or texts.
pub data Vector : Type 0 where
  numeric : (w : ℕ) (key : String) → Vector
  textual : (key : String) → Vector

-- `row.value(key, "")`: `none` is the exception for a value of another type.
unfoldable pub text_or_empty : Cell → Option String
text_or_empty absent = some ""
text_or_empty other = none
text_or_empty (string s) = some s
text_or_empty (number z) = none

unfoldable pub cons_text : Option String → Option (List String) → Option (List String)
cons_text none rest = none
cons_text (some s) none = none
cons_text (some s) (some rest) = some (s ∷ rest)

unfoldable pub text_column : String → List Row → Option (List String)
text_column key [] = some []
text_column key (row ∷ rows) = cons_text (text_or_empty (row key)) (text_column key rows)

unfoldable pub read_column : Vector → List Row → Read (String × PropertyValue)
read_column (numeric w key) rows = of_option (column w key rows) >>= λ ns. value (key, nums ns)
read_column (textual key) rows = of_option (text_column key rows) >>= λ ss. value (key, texts ss)

unfoldable pub list_properties : List Vector → List Row → Read (List (String × PropertyValue))
list_properties [] rows = value []
list_properties (c ∷ columns) rows = do
  p ← read_column c rows
  rest ← list_properties columns rows
  value (p ∷ rest)

-- A list without a row has no object.
unfoldable pub list_object : String → String → List Vector → List Row → List (Read DbusObject)
list_object path interface columns [] = []
list_object path interface columns (row ∷ rows) =
    (list_properties columns (row ∷ rows) >>= λ ps. value (object path interface ps)) ∷ []

-- The objects of the four lists of a table.
unfoldable pub list_objects :
    (ℕ → String) → String → List Vector → (ℕ → List Row) → List (Read DbusObject)
list_objects path interface columns lists =
    list_object (path 0) interface columns (lists 0)
    ++ (list_object (path 1) interface columns (lists 1)
        ++ (list_object (path 2) interface columns (lists 2)
            ++ list_object (path 3) interface columns (lists 3)))

-- How a start ends early: by an exception of the JSON library, which is caught, or by one of the D-Bus library,
-- which is not.
pub data Ending : Type 0 where
  caught thrown : Ending

-- Nothing is known of a start with undefined behaviour.
pub data Start : Type 0 where
  undefined_behaviour : Start
  finished : List DbusObject → Start
  ended : Ending → List DbusObject → Start

-- The objects on the bus, where they are determined.
unfoldable pub objects_of : Start → Option (List DbusObject)
objects_of undefined_behaviour = none
objects_of (finished objects) = some objects
objects_of (ended ending objects) = some objects

-- Each object is put on the bus after those before it, if the D-Bus library takes it.
unfoldable pub show_all :
    (List DbusObject → DbusObject → Bool) → List (Read DbusObject) → List DbusObject → Start
show_all takes [] objects = finished objects
show_all takes (failed ∷ reads) objects = ended caught objects
show_all takes (undefined ∷ reads) objects = undefined_behaviour
show_all takes (value o ∷ reads) objects =
    let rest = show_all takes reads (objects ++ (o ∷ [])) in
    if takes objects o then rest else ended thrown objects
