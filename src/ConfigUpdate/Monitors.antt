-- ===== src/ConfigUpdate/Monitors.antt =====
-- include/pef_config_update.hpp: the callbacks of `startEventFilterTableMonitor`,
-- `startAlertPolicyTableMonitor`, `startPefConfInfoMonitor` and `startDestinationSelectorMonitor`.
use text.Mathlib.Text.{find?}
use platform_event_filter.Common.{
  ℕ, zero, suc, ◌+◌, ◌%◌, ◌==◌, ◌||◌, Bool, true, false, if◌then◌else◌, Option, none, some, List,
  [], ◌∷◌, String, ◌===◌, ◌&◌, to_string,
}
use platform_event_filter.Common.Int.{ℤ, pos, negsuc}
use platform_event_filter.Retry.{to_int}
use platform_event_filter.Tables.{Cell, absent, other, number, string, Row, put, value_or_zero}
use platform_event_filter.ConfigUpdate.{put_in_list, numbers}
use platform_event_filter.ConfigUpdate.Entries.{find_entry_no}

-- The tables of the file that the callbacks change.
pub record Document : Type 0 where
  pub conf_info : List Row
  pub event_filters : List Row
  pub alert_policies : List Row
  pub destinations : List Row

-- The file: `parseJsonData` discards it, or reads it.
pub data ConfigFile : Type 0 where
  unreadable : ConfigFile
  document : Document → ConfigFile

-- The value of a changed property.
pub data Changed : Type 0 where
  byte word : ℕ → Changed
  bytes words : List ℕ → Changed
  str : String → Changed
  strs : List String → Changed

unfoldable pub texts : List String → List Cell
texts [] = []
texts (s ∷ ss) = string s ∷ texts ss

-- The first of the lists whose name stands in the path, with as many numbers left to try.
unfoldable pub find_bucket : String → String → ℕ → ℕ → ℕ → Option ℕ
find_bucket path name first zero idx = none
find_bucket path name first (suc left) idx =
    let more = find_bucket path name first left (suc idx) in
    elim (find? path (name & to_string (first + idx))) [ some at ↦ some idx | none ↦ more ]

unfoldable pub event_filter_bucket : String → Option ℕ
event_filter_bucket path = find_bucket path "List" 1 4 0

unfoldable pub alert_policy_bucket : String → Option ℕ
alert_policy_bucket path = find_bucket path "PolicyList_eth" 0 4 0

-- `entryVal == value`, of an `int`.
unfoldable pub equals_int : ℕ → ℤ → Bool
equals_int n (pos m) = n == m
equals_int n (negsuc m) = false

-- The first row that a test takes is changed; `none` is an exception of the test.
unfoldable pub change_first : (Row → Option Bool) → (Row → Row) → List Row → Option (List Row)
change_first test change [] = some []
change_first test change (row ∷ rows) =
    let more = change_first test change rows in
    elim (test row) [
      | none ↦ none
      | some true ↦ some (change row ∷ rows)
      | some false ↦ elim more [ none ↦ none | some rest ↦ some (row ∷ rest) ]
    ]

unfoldable pub put_scalar : String → Changed → Row → Row
put_scalar property (byte n) row = put property (number (pos n)) row
put_scalar property (word n) row = put property (number (pos n)) row
put_scalar property _ row = row

-- `row.value("EventFilterTableEntry", 0)` compared with the number of the path.
unfoldable pub is_filter_entry : ℕ → Row → Option Bool
is_filter_entry entry row = elim (value_or_zero (row "EventFilterTableEntry")) [
  | none ↦ none
  | some z ↦ some (equals_int entry (to_int z))
]

-- A policy row without an entry number is taken for the entry 0.
unfoldable pub is_policy_cell : ℕ → Cell → Option Bool
is_policy_cell entry absent = some (entry == 0)
is_policy_cell entry other = none
is_policy_cell entry (string s) = none
is_policy_cell entry (number z) = some (equals_int entry (to_int z))

unfoldable pub legacy_event_filter : String → String → Changed → List Row → Option (List Row)
legacy_event_filter path property changed rows =
    change_first (is_filter_entry (find_entry_no path)) (put_scalar property changed) rows

unfoldable pub legacy_alert_policy : String → String → ℕ → List Row → Option (List Row)
legacy_alert_policy path property val rows =
    change_first (λ row. is_policy_cell (find_entry_no path) (row "AlertPolicyTableEntry"))
      (put property (number (pos (val % 256)))) rows

unfoldable pub update_event_filters :
    Option ℕ → String → String → Changed → List Row → Option (List Row)
update_event_filters (some bucket) path property (bytes values) rows =
    some (put_in_list 10 bucket property (numbers values) rows)
update_event_filters (some bucket) path property (words values) rows =
    some (put_in_list 10 bucket property (numbers values) rows)
update_event_filters bucket path property changed rows =
    legacy_event_filter path property changed rows

-- `none` also where the callback returns before it changes anything.
unfoldable pub update_alert_policies :
    Option ℕ → String → String → Changed → List Row → Option (List Row)
update_alert_policies (some bucket) path property (bytes values) rows =
    some (put_in_list 15 bucket property (numbers values) rows)
update_alert_policies (some bucket) path property (strs values) rows =
    some (put_in_list 15 bucket property (texts values) rows)
update_alert_policies bucket path property (byte n) rows = legacy_alert_policy path property n rows
update_alert_policies bucket path property (word n) rows = legacy_alert_policy path property n rows
update_alert_policies bucket path property changed rows = none

-- `updateJsonFile`: the file keeps what it has where it cannot be opened.
unfoldable pub update_json_file : Bool → Document → ConfigFile → ConfigFile
update_json_file opened dat file = if opened then document dat else file

-- `none`: an exception, after which nothing is written.
unfoldable pub save_event_filters : Option (List Row) → Bool → Document → ConfigFile
save_event_filters none opened d = document d
save_event_filters (some rows) opened d =
    update_json_file opened (record d { event_filters = rows }) (document d)

-- The callback of the event filters, for the object's path and the first of the changed properties.
unfoldable pub event_filter_changed :
    Bool → String → Option (String × Changed) → ConfigFile → ConfigFile
event_filter_changed opened path none file = file
event_filter_changed opened path (some p) unreadable = unreadable
event_filter_changed opened path (some (property, changed)) (document d) =
    save_event_filters
      (update_event_filters (event_filter_bucket path) path property changed d.event_filters) opened
      d

-- A key of PEFConfInfo, and what `std::get` makes of its value: `none` is `bad_variant_access`, which no
-- handler of the callback takes.
unfoldable pub conf_cell : String → Changed → Option Cell
conf_cell property (word n) =
    if (property === "LastSWProcessedEventID") || (property === "LastBMCProcessedEventID")
    then some (number (pos n))
    else none
conf_cell property (str s) =
    if (property === "Subject") || (property === "Message") then some (string s) else none
conf_cell property (byte n) =
    if ((property === "LastSWProcessedEventID") || (property === "LastBMCProcessedEventID"))
      || ((property === "Subject") || (property === "Message"))
    then none
    else some (number (pos n))
conf_cell property _ = none

unfoldable pub put_all : String → Cell → List Row → List Row
put_all property cell [] = []
put_all property cell (row ∷ rows) = put property cell row ∷ put_all property cell rows

-- `int entryNumber = entry["LanDestination"]`, compared with the number of the path.
unfoldable pub is_destination_cell : ℕ → Cell → Option Bool
is_destination_cell entry (number z) = some (equals_int entry (to_int z))
is_destination_cell entry _ = none

-- The loop over the changed properties.
unfoldable pub update_destinations : ℕ → List (String × Changed) → List Row → Option (List Row)
update_destinations entry [] rows = some rows
update_destinations entry ((property, changed) ∷ rest) rows =
    elim (change_first (λ row. is_destination_cell entry (row "LanDestination"))
      (put_scalar property changed) rows) [
        | none ↦ none
        | some rows' ↦ update_destinations entry rest rows'
      ]

unfoldable pub destination_selector_changed :
    Bool → String → List (String × Changed) → ConfigFile → ConfigFile
destination_selector_changed opened path changes unreadable = unreadable
destination_selector_changed opened path changes (document d) =
    elim (update_destinations (find_entry_no path) changes d.destinations) [
      | none ↦ document d
      | some rows ↦ update_json_file opened (record d { destinations = rows }) (document d)
    ]

-- `merge_patch` of the document into a copy of one of its tables, of the JSON library.
module _ (merged : List Row → Document → Document) where
  unfoldable pub alert_policy_changed :
      Bool → String → Option (String × Changed) → ConfigFile → ConfigFile
  alert_policy_changed opened path none file = file
  alert_policy_changed opened path (some p) unreadable = unreadable
  alert_policy_changed opened path (some (property, changed)) (document d) =
      elim (update_alert_policies (alert_policy_bucket path) path property changed
        d.alert_policies) [
          | none ↦ document d
          | some rows ↦
              update_json_file opened (merged rows (record d { alert_policies = rows }))
                (document d)
        ]

  -- The property and its value are those of the first change; `none` is an exception that leaves the
  -- callback.
  unfoldable pub conf_info_changed : Bool → String × Changed → ConfigFile → Option ConfigFile
  conf_info_changed opened (property, changed) file = elim (conf_cell property changed) [
    | none ↦ none
    | some cell ↦ elim file [
      | unreadable ↦ some unreadable
      | document d ↦
          let rows : List Row = put_all property cell d.conf_info in
          some (update_json_file opened (merged rows (record d { conf_info = rows })) (document d))
    ]
  ]
