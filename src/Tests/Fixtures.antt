-- ===== src/Tests/Fixtures.antt =====
-- A system with one filter group, whose services answer.
use platform_event_filter.Common.{
  true, false, if◌then◌else◌, none, some, List, [], ◌∷◌, String, ◌===◌,
}
use platform_event_filter.EventData.{EventMsgData}
use platform_event_filter.Bus.{Bus, Reply, raised, message, Value, u8, str, Column, bytes, words}
use platform_event_filter.Filter.{EvtFilterTblEntry}
use platform_event_filter.Filter.Rows.{Columns}
use platform_event_filter.Action.Power.{PefConfInfo}

abbrev pub answer : {A : Type 0} → A → Reply A
answer a = message (record { is_error = false; body = some a })

-- A filter for any temperature threshold event, which asks for power off and an alert.
abbrev pub hot : EvtFilterTblEntry
hot = record {
  filter_config = 0x80;
  evt_filter_action = 0x03;
  alert_policy_num = 0x01;
  event_severity = 0x10;
  gen_id_byte1 = 0xFF;
  gen_id_byte2 = 0x20;
  sensor_type = 0x01;
  sensor_num = 0xFF;
  event_trigger = 0x01;
  event_data1_offset_mask = 0x0200;
  event_data1_and_mask = 0x0F;
  event_data1_cmp1 = 0xFF;
  event_data1_cmp2 = 0x09;
  event_data2_and_mask = 0x00;
  event_data2_cmp1 = 0x00;
  event_data2_cmp2 = 0x00;
  event_data3_and_mask = 0x00;
  event_data3_cmp1 = 0x00;
  event_data3_cmp2 = 0x00;
}

abbrev pub hot_event : EventMsgData
hot_event = record {
  record_id = 7;
  generator_id1 = 0x00;
  generator_id2 = 0x20;
  sensor_num = 0x30;
  sensor_type = 0x01;
  event_type = 0x01;
  event_data1 = 0x59;
  event_data2 = 0x50;
  event_data3 = 0x4B;
  msg_str = "";
}

-- Two rows: the first is disabled.
abbrev pub two_rows : Columns
two_rows = record {
  filter_config = 0x00 ∷ 0x80 ∷ [];
  gen_id_byte1 = 0xFF ∷ 0xFF ∷ [];
  gen_id_byte2 = 0x20 ∷ 0x20 ∷ [];
  sensor_type = 0x01 ∷ 0x01 ∷ [];
  sensor_num = 0xFF ∷ 0xFF ∷ [];
  event_trigger = 0x01 ∷ 0x01 ∷ [];
  event_data1_and_mask = 0x0F ∷ 0x0F ∷ [];
  event_data1_cmp1 = 0xFF ∷ 0xFF ∷ [];
  event_data1_cmp2 = 0x09 ∷ 0x09 ∷ [];
  event_data2_and_mask = 0x00 ∷ 0x00 ∷ [];
  event_data2_cmp1 = 0x00 ∷ 0x00 ∷ [];
  event_data2_cmp2 = 0x00 ∷ 0x00 ∷ [];
  event_data3_and_mask = 0x00 ∷ 0x00 ∷ [];
  event_data3_cmp1 = 0x00 ∷ 0x00 ∷ [];
  event_data3_cmp2 = 0x00 ∷ 0x00 ∷ [];
  event_data1_offset_mask = 0x0200 ∷ 0x0200 ∷ [];
  evt_filter_action = 0x02 ∷ 0x03 ∷ [];
  alert_policy_num = 0x01 ∷ 0x01 ∷ [];
  event_severity = 0x10 ∷ 0x10 ∷ [];
}

abbrev pub filter_table : List (String × Column)
filter_table =
    ("FilterConfig", bytes two_rows.filter_config)
    ∷ ("GenIDByte1", bytes two_rows.gen_id_byte1)
    ∷ ("GenIDByte2", bytes two_rows.gen_id_byte2)
    ∷ ("SensorType", bytes two_rows.sensor_type)
    ∷ ("SensorNum", bytes two_rows.sensor_num)
    ∷ ("EventTrigger", bytes two_rows.event_trigger)
    ∷ ("EventData1ANDMask", bytes two_rows.event_data1_and_mask)
    ∷ ("EventData1Cmp1", bytes two_rows.event_data1_cmp1)
    ∷ ("EventData1Cmp2", bytes two_rows.event_data1_cmp2)
    ∷ ("EventData2ANDMask", bytes two_rows.event_data2_and_mask)
    ∷ ("EventData2Cmp1", bytes two_rows.event_data2_cmp1)
    ∷ ("EventData2Cmp2", bytes two_rows.event_data2_cmp2)
    ∷ ("EventData3ANDMask", bytes two_rows.event_data3_and_mask)
    ∷ ("EventData3Cmp1", bytes two_rows.event_data3_cmp1)
    ∷ ("EventData3Cmp2", bytes two_rows.event_data3_cmp2)
    ∷ ("EventData1OffsetMask", words two_rows.event_data1_offset_mask)
    ∷ ("EvtFilterAction", bytes two_rows.evt_filter_action)
    ∷ ("AlertPolicyNum", bytes two_rows.alert_policy_num)
    ∷ ("EventSeverity", bytes two_rows.event_severity)
    ∷ []

-- Power off is allowed and logged; alerts are not.
abbrev pub off_only : PefConfInfo
off_only = record {
  pef_control = 0x03;
  pef_action_gbl_control = 0x02;
  pef_startup_dly = 0;
  pef_alert_startup_dly = 0;
}

abbrev pub property : String → Reply Value
property name =
    if name === "PEFControl"
    then answer (u8 0x03)
    else if name === "ArmPEFPostponeTmr"
    then answer (u8 0x00)
    else if name === "CurrentPowerState"
    then answer (str "xyz.openbmc_project.State.Chassis.PowerState.On")
    else raised

abbrev pub conf_values : List (String × Value)
conf_values =
    ("PEFControl", u8 0x03)
    ∷ ("PEFActionGblControl", u8 0x02)
    ∷ ("PEFStartupDly", u8 0)
    ∷ ("PEFAlertStartupDly", u8 0)
    ∷ []

abbrev pub host : Bus
host = record {
  opens = λ n. true;
  channel_map = λ n. answer ((1, "eth0") ∷ []);
  subtree_paths =
      λ n path. answer ("/xyz/openbmc_project/PefAlertManager/EventFilterTable/List1" ∷ []);
  get_all = λ n path intf. answer filter_table;
  get_conf = λ n. answer conf_values;
  get = λ n path intf name. property name;
  get_bool = λ n intf name. raised;
  get_string = λ n intf name. raised;
  set = λ n. answer tt;
  mail_status = λ n. answer 0;
  retry_queued = λ n. answer false;
  trap_raises = λ n. false;
  resolves = λ n name. false;
  interfaces = λ n. [];
  current_time = λ n. "";
  sensor_num_map = λ n. none;
}

-- The same with the postpone timer at 5.
abbrev pub timed : String → Reply Value
timed name =
    if name === "PEFControl"
    then answer (u8 0x03)
    else if name === "ArmPEFPostponeTmr"
    then answer (u8 0x05)
    else raised
