-- ===== src/Filter.antt =====
-- include/pef_utils.hpp: `EvtFilterTblEntry`; src/pef_action.cpp, `eventFilteringProcess`: the tests
-- that a row of the event filter table has to pass for an event.
pub mod Accepts
pub mod Rows
pub mod Matches
pub mod Collected
pub mod Table
pub mod Groups
pub mod FromFile
use platform_event_filter.Common.{
  ℕ, suc, ◌+◌, ◌*◌, ◌%◌, ◌^◌, Bool, true, false, not, ◌&&◌, ◌||◌, ◌==◌, ◌!=◌, if◌then◌else◌,
  bit_and,
}
use platform_event_filter.EventData.{EventMsgData, pef_eve_data_match}

-- The field `entry` of the struct stays 0 and is left out.
pub record EvtFilterTblEntry : Type 0 where
  pub filter_config : ℕ
  pub evt_filter_action : ℕ
  pub alert_policy_num : ℕ
  pub event_severity : ℕ
  pub gen_id_byte1 : ℕ
  pub gen_id_byte2 : ℕ
  pub sensor_type : ℕ
  pub sensor_num : ℕ
  pub event_trigger : ℕ
  pub event_data1_offset_mask : ℕ
  pub event_data1_and_mask : ℕ
  pub event_data1_cmp1 : ℕ
  pub event_data1_cmp2 : ℕ
  pub event_data2_and_mask : ℕ
  pub event_data2_cmp1 : ℕ
  pub event_data2_cmp2 : ℕ
  pub event_data3_and_mask : ℕ
  pub event_data3_cmp1 : ℕ
  pub event_data3_cmp2 : ℕ

-- A field of the filter and a field of the event differ, and the filter's is not the wildcard.
abbrev pub differs : ℕ → ℕ → Bool
differs wanted actual = wanted != 0xFF && wanted != actual

-- The test of the generator, the sensor and the event type: true where the row is skipped.
unfoldable pub source_differs : EventMsgData → EvtFilterTblEntry → Bool
source_differs msg e =
    differs e.gen_id_byte1 msg.generator_id1
    || (differs e.gen_id_byte2 msg.generator_id2
        || (0 == msg.sensor_type
            || (differs e.sensor_type msg.sensor_type
                || (differs e.sensor_num msg.sensor_num
                    || differs e.event_trigger msg.event_type))))

-- `OffsetMask << (eventData[0] & 0x0F)`, kept in 16 bits.
unfoldable pub offset_bit : EventMsgData → ℕ
offset_bit msg = (1 * 2 ^ bit_and msg.event_data1 0x0F) % 2 ^ 16

-- The body of the loop over the rows: `false` is `continue`, `true` is `push_back`.
unfoldable pub accepts : EventMsgData → EvtFilterTblEntry → Bool
accepts msg e =
    if 0 == bit_and e.filter_config 0x80
    then false
    else if source_differs msg e
    then false
    else if 0
        == pef_eve_data_match msg.event_data1 e.event_data1_and_mask e.event_data1_cmp1
            e.event_data1_cmp2
    then false
    else if 0
        == pef_eve_data_match msg.event_data2 e.event_data2_and_mask e.event_data2_cmp1
            e.event_data2_cmp2
    then false
    else if 0
        == pef_eve_data_match msg.event_data3 e.event_data3_and_mask e.event_data3_cmp1
            e.event_data3_cmp2
    then false
    else if 0 == bit_and (offset_bit msg) e.event_data1_offset_mask
    then false
    else true
