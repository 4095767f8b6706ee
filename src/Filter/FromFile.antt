-- ===== src/Filter/FromFile.antt =====
-- src/pef_config.cpp, `parsePefConfToDbus`, and src/pef_action.cpp, `eventFilteringProcess`: the rows of
-- the configuration file that the daemon matches, by way of the lists that the service shows.
pub mod ListRows
pub mod Collected
use mathlib.Core.List.{append_assoc, append-nil}
use platform_event_filter.Common.{
  ℕ, zero, suc, ◌+◌, ◌-◌, ◌≤◌, ◌<◌, ◌≡◌, refl, sym, ap, ◌∙◌, arith, inl, inr, Bool-cases, Bool,
  true, false, if◌then◌else◌, Option, none, some, Option-cases, List, [], ◌∷◌, ◌++◌, String, length,
  get_elem?, drop, drop-nil,
}
use platform_event_filter.Common.Options.{◌>>=◌}
use platform_event_filter.Common.Int.{ℤ}
use platform_event_filter.EventData.{EventMsgData}
use platform_event_filter.Exec.Adds.{Adds}
use platform_event_filter.Bus.{Bus}
use platform_event_filter.Retry.{to_unsigned}
use platform_event_filter.Tables.{Cell, Row, value_or_zero, cons_cast, column, group_rows}
use platform_event_filter.Tables.Groups.{group_rows-append}
use platform_event_filter.ConfigUpdate.Lists.{shown}
use platform_event_filter.Filter.{EvtFilterTblEntry, accepts}
use platform_event_filter.Filter.Rows.{Columns, row, push_if, match_rows, match_table}
use platform_event_filter.Filter.Table.{match_groups}
use platform_event_filter.Filter.Groups.{collected, Answers, match_groups_asked}

-- A number of the row, cast; `none` is a value of another type.
abbrev pub cast_value : ℕ → Option ℤ → Option ℕ
cast_value w none = none
cast_value w (some z) = some (to_unsigned w z)

abbrev pub cast : ℕ → String → Row → Option ℕ
cast w key r = cast_value w (value_or_zero (r key))

-- The filter that a row of the file describes.
unfoldable pub entry_of : Row → Option EvtFilterTblEntry
entry_of r = do
  config ← cast 8 "FilterConfig" r
  g1 ← cast 8 "GenIDByte1" r
  g2 ← cast 8 "GenIDByte2" r
  type ← cast 8 "SensorType" r
  num ← cast 8 "SensorNum" r
  trigger ← cast 8 "EventTrigger" r
  mask1 ← cast 8 "EventData1ANDMask" r
  cmp11 ← cast 8 "EventData1Cmp1" r
  cmp12 ← cast 8 "EventData1Cmp2" r
  mask2 ← cast 8 "EventData2ANDMask" r
  cmp21 ← cast 8 "EventData2Cmp1" r
  cmp22 ← cast 8 "EventData2Cmp2" r
  mask3 ← cast 8 "EventData3ANDMask" r
  cmp31 ← cast 8 "EventData3Cmp1" r
  cmp32 ← cast 8 "EventData3Cmp2" r
  offset ← cast 16 "EventData1OffsetMask" r
  action ← cast 8 "EvtFilterAction" r
  policy ← cast 8 "AlertPolicyNum" r
  severity ← cast 8 "EventSeverity" r
  some (record {
    filter_config = config;
    evt_filter_action = action;
    alert_policy_num = policy;
    event_severity = severity;
    gen_id_byte1 = g1;
    gen_id_byte2 = g2;
    sensor_type = type;
    sensor_num = num;
    event_trigger = trigger;
    event_data1_offset_mask = offset;
    event_data1_and_mask = mask1;
    event_data1_cmp1 = cmp11;
    event_data1_cmp2 = cmp12;
    event_data2_and_mask = mask2;
    event_data2_cmp1 = cmp21;
    event_data2_cmp2 = cmp22;
    event_data3_and_mask = mask3;
    event_data3_cmp1 = cmp31;
    event_data3_cmp2 = cmp32;
  })

-- The filters of the rows that accept an event, in the order of the rows.
unfoldable pub accepted : EventMsgData → List Row → List EvtFilterTblEntry
accepted msg [] = []
accepted msg (r ∷ rows) = push_if msg (entry_of r) (accepted msg rows)

-- What list `k` of the service shows, read as the columns of a group.
pub record Shows (rows : List Row) (k : ℕ) (c : Columns) : Type 0 where
  pub config : shown 10 rows k "FilterConfig" ≡ some c.filter_config
  pub g1 : shown 10 rows k "GenIDByte1" ≡ some c.gen_id_byte1
  pub g2 : shown 10 rows k "GenIDByte2" ≡ some c.gen_id_byte2
  pub type : shown 10 rows k "SensorType" ≡ some c.sensor_type
  pub num : shown 10 rows k "SensorNum" ≡ some c.sensor_num
  pub trigger : shown 10 rows k "EventTrigger" ≡ some c.event_trigger
  pub mask1 : shown 10 rows k "EventData1ANDMask" ≡ some c.event_data1_and_mask
  pub cmp11 : shown 10 rows k "EventData1Cmp1" ≡ some c.event_data1_cmp1
  pub cmp12 : shown 10 rows k "EventData1Cmp2" ≡ some c.event_data1_cmp2
  pub mask2 : shown 10 rows k "EventData2ANDMask" ≡ some c.event_data2_and_mask
  pub cmp21 : shown 10 rows k "EventData2Cmp1" ≡ some c.event_data2_cmp1
  pub cmp22 : shown 10 rows k "EventData2Cmp2" ≡ some c.event_data2_cmp2
  pub mask3 : shown 10 rows k "EventData3ANDMask" ≡ some c.event_data3_and_mask
  pub cmp31 : shown 10 rows k "EventData3Cmp1" ≡ some c.event_data3_cmp1
  pub cmp32 : shown 10 rows k "EventData3Cmp2" ≡ some c.event_data3_cmp2
  pub offset : shown 10 rows k "EventData1OffsetMask" ≡ some c.event_data1_offset_mask
  pub action : shown 10 rows k "EvtFilterAction" ≡ some c.evt_filter_action
  pub policy : shown 10 rows k "AlertPolicyNum" ≡ some c.alert_policy_num
  pub severity : shown 10 rows k "EventSeverity" ≡ some c.event_severity
