-- ===== src/Filter/Rows.antt =====
-- src/pef_action.cpp, `eventFilteringProcess`: the columns of one event filter group, and the loop over
-- their rows.
use platform_event_filter.Common.{
  ℕ, zero, suc, ◌+◌, if◌then◌else◌, Option, none, some, List, [], ◌∷◌, get_elem?, length,
}
use platform_event_filter.Common.Options.{◌>>=◌}
use platform_event_filter.EventData.{EventMsgData}
use platform_event_filter.Filter.{EvtFilterTblEntry, accepts}

pub record Columns : Type 0 where
  pub filter_config : List ℕ
  pub gen_id_byte1 : List ℕ
  pub gen_id_byte2 : List ℕ
  pub sensor_type : List ℕ
  pub sensor_num : List ℕ
  pub event_trigger : List ℕ
  pub event_data1_and_mask : List ℕ
  pub event_data1_cmp1 : List ℕ
  pub event_data1_cmp2 : List ℕ
  pub event_data2_and_mask : List ℕ
  pub event_data2_cmp1 : List ℕ
  pub event_data2_cmp2 : List ℕ
  pub event_data3_and_mask : List ℕ
  pub event_data3_cmp1 : List ℕ
  pub event_data3_cmp2 : List ℕ
  pub event_data1_offset_mask : List ℕ
  pub evt_filter_action : List ℕ
  pub alert_policy_num : List ℕ
  pub event_severity : List ℕ

-- Row `idx`: `none` where `idx` is past the end of some column, which the loop skips.
unfoldable pub row : Columns → ℕ → Option EvtFilterTblEntry
row c idx = do
  config ← get_elem? c.filter_config idx
  g1 ← get_elem? c.gen_id_byte1 idx
  g2 ← get_elem? c.gen_id_byte2 idx
  type ← get_elem? c.sensor_type idx
  num ← get_elem? c.sensor_num idx
  trigger ← get_elem? c.event_trigger idx
  mask1 ← get_elem? c.event_data1_and_mask idx
  cmp11 ← get_elem? c.event_data1_cmp1 idx
  cmp12 ← get_elem? c.event_data1_cmp2 idx
  mask2 ← get_elem? c.event_data2_and_mask idx
  cmp21 ← get_elem? c.event_data2_cmp1 idx
  cmp22 ← get_elem? c.event_data2_cmp2 idx
  mask3 ← get_elem? c.event_data3_and_mask idx
  cmp31 ← get_elem? c.event_data3_cmp1 idx
  cmp32 ← get_elem? c.event_data3_cmp2 idx
  offset ← get_elem? c.event_data1_offset_mask idx
  action ← get_elem? c.evt_filter_action idx
  policy ← get_elem? c.alert_policy_num idx
  severity ← get_elem? c.event_severity idx
  some (record {
    filter_config = config;
    evt_filter_action = action;
    alert_policy_num = policy;
    event_severity = severity;
    gen_id_byte1 = g1;
    gen_id_byte2 = g2;
    sensor_type = type;
    sensor_num = num;
    event_trigger = trigger;
    event_data1_offset_mask = offset;
    event_data1_and_mask = mask1;
    event_data1_cmp1 = cmp11;
    event_data1_cmp2 = cmp12;
    event_data2_and_mask = mask2;
    event_data2_cmp1 = cmp21;
    event_data2_cmp2 = cmp22;
    event_data3_and_mask = mask3;
    event_data3_cmp1 = cmp31;
    event_data3_cmp2 = cmp32;
  })

unfoldable pub push_if :
    EventMsgData → Option EvtFilterTblEntry → List EvtFilterTblEntry → List EvtFilterTblEntry
push_if msg none rest = rest
push_if msg (some e) rest = if accepts msg e then e ∷ rest else rest

-- The rows from `idx` on, `n` of them.
unfoldable pub match_rows : EventMsgData → Columns → ℕ → ℕ → List EvtFilterTblEntry
unfolding push_if
match_rows msg c zero idx = []
match_rows msg c (suc n) idx = push_if msg (row c idx) (match_rows msg c n (idx + 1))

unfoldable pub match_table : EventMsgData → Columns → List EvtFilterTblEntry
match_table msg c = match_rows msg c (length c.filter_config) 0
