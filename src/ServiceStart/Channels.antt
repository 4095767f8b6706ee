-- ===== src/ServiceStart/Channels.antt =====
-- src/pef_config.cpp and include/pef_config_update.hpp: the LanChannel property of a destination that a client
-- writes is brought to the file by the monitor, and a later start shows it.
use native.Mathlib.Nat.{mod-eq_of_lt}
use platform_event_filter.Common.{
  ℕ, ◌^◌, ◌<◌, ◌==◌, ◌≡◌, ◌≢◌, refl, ap, ◌∙◌, arith, inl, inr, Bool-cases, true, false, some, List,
  [], ◌∷◌, ◌++◌, String, ◌&◌, to_string, All,
}
use platform_event_filter.Common.Int.{ℤ, pos, negsuc}
use platform_event_filter.Retry.{to_unsigned, to_int}
use platform_event_filter.Tables.{number, Row, put}
use platform_event_filter.ConfigUpdate.Entries.{find_entry_no, after_last}
use platform_event_filter.ConfigUpdate.EntryNumbers.{find_entry_no-to_string}
use platform_event_filter.ConfigUpdate.Monitors.{
  Document, document, byte, change_first, put_scalar, equals_int, is_destination_cell,
  update_destinations, update_json_file, destination_selector_changed,
}
use platform_event_filter.ServiceStart.{
  value, PropertyValue, num, DbusObject, object, read_cell, number_of, byte_kind, read_properties,
  row_object,
}
use platform_event_filter.ServiceStart.Tables.{
  int_of, int_text, destination_properties, destination_object, destination_objects,
}
use platform_event_filter.ServiceStart.Selectors.{destinations_of}

-- The path of the destination with a number.
abbrev pub entry_path : ℕ → String
entry_path n = "/xyz/openbmc_project/PefAlertManager/DestinationSelector/Entry" & to_string n

-- The path that the service makes is one of which the monitor reads the number back.
find_entry_no-entry_path : (n : ℕ) → find_entry_no (entry_path n) ≡ n
unfolding after_last
find_entry_no-entry_path n =
    find_entry_no-to_string "/xyz/openbmc_project/PefAlertManager/DestinationSelector/Entry"
      (refl, (refl, (refl, (refl, (refl, tt))))) n

-- The row is that of the destination with a number, read as a 32-bit `int`.
abbrev pub IsEntry : ℕ → Row → Type 0
IsEntry n row = (z : ℤ) × (row "LanDestination" ≡ number z) × (to_int z ≡ pos n)

-- The row is that of another destination.
abbrev pub IsOther : ℕ → Row → Type 0
IsOther n row = (z : ℤ) × (row "LanDestination" ≡ number z) × (to_int z ≢ pos n)

equals_int-other : (n : ℕ) (z : ℤ) → z ≢ pos n → equals_int n z ≡ false
unfolding equals_int
equals_int-other n (pos m) h = elim (Bool-cases (n == m)) [
  | inl e ↦ let same : m ≡ n = ground arith in absurd (h (ap pos same))
  | inr e ↦ e
]
equals_int-other n (negsuc m) h = refl

is_self : (n : ℕ) → equals_int n (pos n) ≡ true
unfolding equals_int
is_self n = ground arith

is_destination_cell-IsOther :
    (n : ℕ) (row : Row) → IsOther n row → is_destination_cell n (row "LanDestination") ≡ some false
unfolding is_destination_cell
is_destination_cell-IsOther n row (z, e, h) = rw (e) (ap some (equals_int-other n (to_int z) h))

is_destination_cell_self :
    (n : ℕ) (row : Row) → IsEntry n row → is_destination_cell n (row "LanDestination") ≡ some true
unfolding is_destination_cell
is_destination_cell_self n row (z, e, h) = rw (e, is_destination_cell, h) (ap some (is_self n))

-- The first row of the destination is the one that is changed.
change_first-row :
    (n : ℕ) (change : Row → Row) (before after : List Row) (row : Row)
    → All (IsOther n) before
    → IsEntry n row
    → change_first
        (λ r. is_destination_cell n (r "LanDestination"))
        change
        (before ++ (row ∷ after))
      ≡ some (before ++ (change row ∷ after))
unfolding change_first
change_first-row n change [] after row h e =
    rw (change_first, is_destination_cell_self n row e) refl
change_first-row n change (r ∷ before) after row h e =
    rw
      (
        change_first,
        is_destination_cell-IsOther n r h.0,
        change_first-row n change before after row h.1 e,
      )
      refl

destination_objects-append :
    (before after : List Row)
    → destination_objects (before ++ after)
      ≡ destination_objects before ++ destination_objects after
unfolding destination_objects
destination_objects-append [] after = refl
destination_objects-append (r ∷ before) after =
    ap (λ rest. destination_object r ∷ rest) (destination_objects-append before after)

abbrev pub shown_entry : ℕ → ℕ → PropertyValue → DbusObject
shown_entry n v t =
    object (entry_path n) "xyz.openbmc_project.pef.DestinationSelectorTable"
      (("LanChannel", num v) ∷ ("DestinationSelector", t) ∷ [])

put-destination_object :
    (n v : ℕ) (t : PropertyValue) (row : Row)
    → v < 2 ^ 8
    → IsEntry n row
    → read_cell byte_kind (row "DestinationType") ≡ value t
    → destination_object (put "LanChannel" (number (pos v)) row) ≡ value (shown_entry n v t)
unfolding destination_object int_of int_text row_object read_properties destination_properties put
    read_cell number_of to_unsigned
put-destination_object n v t row h (z, e, same) k =
    let type : number_of 8 (row "DestinationType") ≡ value t = k in
    rw (destination_object, e, int_of, same, type, mod-eq_of_lt h) refl

-- After a client's write of the LanChannel of destination n, a start from the file that the monitor's callback
-- leaves shows the new value in the object of the first row with that destination, and the objects of the
-- other rows as before, if the rows before name other destinations, converted to a 32-bit `int` as the code does,
-- and the row has a type.
pub destination_selector_changed-lan_channel :
    (d : Document) (before after : List Row) (row : Row) (n v : ℕ) (t : PropertyValue)
    → d.destinations ≡ before ++ (row ∷ after)
    → All (IsOther n) before
    → IsEntry n row
    → read_cell byte_kind (row "DestinationType") ≡ value t
    → v < 2 ^ 8
    → destinations_of (
        destination_selector_changed true (entry_path n) (("LanChannel", byte v) ∷ []) (document d))
      ≡ destination_objects before ++ (value (shown_entry n v t) ∷ destination_objects after)
unfolding destination_selector_changed update_destinations update_json_file put_scalar
    destination_objects
destination_selector_changed-lan_channel d before after row n v t rows others dest type h =
    let found =
      change_first-row n (put_scalar "LanChannel" (byte v)) before after row others dest in
    rw (destination_selector_changed, update_destinations, find_entry_no-entry_path n, rows, found)
      (destination_objects-append before (put "LanChannel" (number (pos v)) row ∷ after)
        ∙ ap (λ o. destination_objects before ++ (o ∷ destination_objects after))
            (put-destination_object n v t row h dest type))
