-- ===== src/Filter/Table.antt =====
-- src/pef_action.cpp: `getImmediateChildObjectPathCount`, and the loop of `eventFilteringProcess` over
-- the groups of the event filter table.
use platform_event_filter.Common.{
  ℕ, zero, suc, ◌+◌, if◌then◌else◌, List, [], ◌∷◌, ◌++◌, String, to_string, ◌&◌,
}
use text.Mathlib.Text.{starts_with}
use platform_event_filter.EventData.{EventMsgData}
use platform_event_filter.Exec.{Event, Exec, pure, catch_sdbus, or_throw, ◌>>=◌}
use platform_event_filter.Exec.Keeps.{Emits, Emits-pure, Emits-bind}
use platform_event_filter.Bus.{Bus, Column}
use platform_event_filter.Bus.Calls.{call, read, lookup, get_bytes, get_words, call_rules}
use platform_event_filter.Filter.{EvtFilterTblEntry}
use platform_event_filter.Filter.Rows.{Columns, match_table}

abbrev pub event_filter_table_intf : String
event_filter_table_intf = "xyz.openbmc_project.pef.EventFilterTable"

abbrev pub event_filter_table_path : String
event_filter_table_path = "/xyz/openbmc_project/PefAlertManager/EventFilterTable"

unfoldable pub byte_column : List (String × Column) → String → Exec (List ℕ)
byte_column values key = do c ← or_throw (lookup key values); get_bytes c

unfoldable pub word_column : List (String × Column) → String → Exec (List ℕ)
word_column values key = do c ← or_throw (lookup key values); get_words c

pub Emits-byte_column :
    {P : Event → Type 0} (values : List (String × Column)) (key : String)
    → Emits P (byte_column values key)
unfolding byte_column
Emits-byte_column values key = search call_rules

Emits-word_column :
    {P : Event → Type 0} (values : List (String × Column)) (key : String)
    → Emits P (word_column values key)
unfolding word_column
Emits-word_column values key = search call_rules

unfoldable pub read_columns : List (String × Column) → Exec Columns
read_columns values = do
  config ← byte_column values "FilterConfig"
  g1 ← byte_column values "GenIDByte1"
  g2 ← byte_column values "GenIDByte2"
  type ← byte_column values "SensorType"
  num ← byte_column values "SensorNum"
  trigger ← byte_column values "EventTrigger"
  mask1 ← byte_column values "EventData1ANDMask"
  cmp11 ← byte_column values "EventData1Cmp1"
  cmp12 ← byte_column values "EventData1Cmp2"
  mask2 ← byte_column values "EventData2ANDMask"
  cmp21 ← byte_column values "EventData2Cmp1"
  cmp22 ← byte_column values "EventData2Cmp2"
  mask3 ← byte_column values "EventData3ANDMask"
  cmp31 ← byte_column values "EventData3Cmp1"
  cmp32 ← byte_column values "EventData3Cmp2"
  offset ← word_column values "EventData1OffsetMask"
  action ← byte_column values "EvtFilterAction"
  policy ← byte_column values "AlertPolicyNum"
  severity ← byte_column values "EventSeverity"
  pure (record {
    filter_config = config;
    gen_id_byte1 = g1;
    gen_id_byte2 = g2;
    sensor_type = type;
    sensor_num = num;
    event_trigger = trigger;
    event_data1_and_mask = mask1;
    event_data1_cmp1 = cmp11;
    event_data1_cmp2 = cmp12;
    event_data2_and_mask = mask2;
    event_data2_cmp1 = cmp21;
    event_data2_cmp2 = cmp22;
    event_data3_and_mask = mask3;
    event_data3_cmp1 = cmp31;
    event_data3_cmp2 = cmp32;
    event_data1_offset_mask = offset;
    evt_filter_action = action;
    alert_policy_num = policy;
    event_severity = severity;
  })

Emits-read_columns :
    {P : Event → Type 0} (values : List (String × Column)) → Emits P (read_columns values)
unfolding read_columns
Emits-read_columns values =
    search (Emits-pure, Emits-bind, Emits-byte_column, Emits-word_column) depth 50

-- The paths that begin with the parent's and a slash.
count_children : String → List String → ℕ
count_children prefix [] = 0
count_children prefix (path ∷ paths) =
    let rest = count_children prefix paths in if starts_with path prefix then rest + 1 else rest

module _ (bus : Bus) where
  unfoldable pub get_immediate_child_object_path_count : String → Exec ℕ
  unfolding count_children
  get_immediate_child_object_path_count parent_path =
      catch_sdbus
        (do
          reply ← call (λ n. bus.subtree_paths n parent_path)
          paths ← read reply
          pure (count_children (parent_path & "/") paths))
        (pure 0)

  -- The `try` block for one group; an error reply is logged and then read all the same.
  unfoldable pub match_group : EventMsgData → ℕ → Exec (List EvtFilterTblEntry)
  match_group msg group_index = do
    reply ← call (λ n.
        bus.get_all n (event_filter_table_path & "/List" & to_string group_index)
          event_filter_table_intf)
    values ← read reply
    columns ← read_columns values
    pure (match_table msg columns)

  -- The groups from `group_index` on, `n` of them.
  unfoldable pub match_groups : EventMsgData → ℕ → ℕ → Exec (List EvtFilterTblEntry)
  match_groups msg zero group_index = pure []
  match_groups msg (suc n) group_index = do
    here ← catch_sdbus (match_group msg group_index) (pure [])
    rest ← match_groups msg n (group_index + 1)
    pure (here ++ rest)

  module _ {P : Event → Type 0} where
    pub Emits-count : (path : String) → Emits P (get_immediate_child_object_path_count path)
    unfolding get_immediate_child_object_path_count
    Emits-count path = search call_rules depth 8

    Emits-group : (msg : EventMsgData) (group_index : ℕ) → Emits P (match_group msg group_index)
    unfolding match_group
    Emits-group msg group_index = search (call_rules, Emits-read_columns) depth 9

    pub Emits-groups :
        (msg : EventMsgData) (n group_index : ℕ) → Emits P (match_groups msg n group_index)
    unfolding match_groups
    Emits-groups msg zero group_index = search call_rules
    Emits-groups msg (suc n) group_index = search (call_rules, Emits-group, Emits-groups msg n)
