-- ===== src/Alert.antt =====
-- src/pef_action.cpp and include/pef_action.hpp: what an alert says of an event.
pub mod Names
pub mod Snmp
pub mod Smtp
use platform_event_filter.Common.{
  ℕ, Bool, true, false, not, ◌&&◌, ◌||◌, ◌==◌, if◌then◌else◌, bit_and, Option, none, some, List, [],
  ◌∷◌, String, ◌&◌, is_empty,
}
use Names.{find, threshold_event_table, generic_event_table, sensor_specific_event_table}
use platform_event_filter.EventData.{EventMsgData}

-- `EventTypeCode`
abbrev pub threshold : ℕ
threshold = 0x1

abbrev pub generic : ℕ
generic = 0x3

abbrev pub sensor_specific : ℕ
sensor_specific = 0x6f

-- `eventType & 0x7f`, `eventData[0] & 0x0F` and the direction bit.
abbrev pub type_code : EventMsgData → ℕ
type_code msg = bit_and msg.event_type 0x7f

abbrev pub event_offset : EventMsgData → ℕ
event_offset msg = bit_and msg.event_data1 0x0f

abbrev pub is_assert : EventMsgData → Bool
is_assert msg = bit_and msg.event_type 0x80 == 0

-- `sendSNMPAlert`: the severity and the direction.
unfoldable pub snmp_severity : EventMsgData → String × String
snmp_severity msg =
    let severity : String =
      if event_offset msg == 0x02 || event_offset msg == 0x09
      then "Critical"
      else if event_offset msg == 0x00 || event_offset msg == 0x07
      then "Warning"
      else "" in
    if not (type_code msg == sensor_specific)
    then (if not (is_assert msg) then ("OK", "Deasserted") else (severity, "Asserted"))
    else ("Information", "Asserted")

-- `sendSmtpAlert`: the severity.
unfoldable pub smtp_severity : EventMsgData → String
smtp_severity msg =
    let severity : String =
      if event_offset msg == 0x02 || event_offset msg == 0x09
      then "Critical"
      else if event_offset msg == 0x00 || event_offset msg == 0x07
      then "Warning"
      else if event_offset msg == 0x04 || event_offset msg == 0x0B
      then "Non-Recoverable"
      else "" in
    if not (type_code msg == sensor_specific)
    then (if not (is_assert msg) then "Ok" else severity)
    else "Information"

abbrev pub or_unknown : Option String → String
or_unknown none = "unknown event"
or_unknown (some s) = s

abbrev find_in : Option (List (ℕ × String)) → ℕ → Option String
find_in none offset = none
find_in (some events) offset = find offset events

-- The event's own text, else the name in the table for its kind; `decorate` is what is done to the name
-- of a sensor-specific event.
unfoldable pub event_data_msg : (String → String) → EventMsgData → String
event_data_msg decorate msg =
    if not (is_empty msg.msg_str)
    then msg.msg_str
    else if type_code msg == threshold
    then or_unknown (find (event_offset msg) threshold_event_table)
    else if type_code msg == generic
    then or_unknown (find_in (find msg.sensor_type generic_event_table) (event_offset msg))
    else if type_code msg == sensor_specific
    then elim (find_in (find msg.sensor_type sensor_specific_event_table) (event_offset msg)) [
      | none ↦ "unknown event"
      | some name ↦ decorate name
    ]
    else "unknown event"

-- `checkSampleEvent`
unfoldable pub check_sample_event : EventMsgData → Bool
check_sample_event msg =
    if msg.sensor_num == 0x30
      && (msg.sensor_type == 0x01
          && (type_code msg == 0x01
              && (msg.event_data1 == 0x09 && (msg.event_data2 == 0xff && msg.event_data3 == 0xff))))
    then true
    else if msg.sensor_num == 0x60
        && (msg.sensor_type == 0x02
            && (type_code msg == 0x01
                && (msg.event_data1 == 0x02
                    && (msg.event_data2 == 0xff && msg.event_data3 == 0xff))))
    then true
    else if msg.sensor_num == 0x53
        && (msg.sensor_type == 0x0c
            && (type_code msg == 0x6f
                && (msg.event_data1 == 0x00
                    && (msg.event_data2 == 0xff && msg.event_data3 == 0xff))))
    then true
    else false
