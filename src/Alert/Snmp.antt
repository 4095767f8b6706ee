-- ===== src/Alert/Snmp.antt =====
-- src/pef_action.cpp: `sendSNMPAlert`.
use platform_event_filter.Common.{
  ℕ, Bool, true, false, if◌then◌else◌, none, some, List, [], ◌∷◌, String, ◌&◌, is_empty, to_string,
}
use platform_event_filter.EventData.{EventMsgData}
use platform_event_filter.Exec.{
  Event, Exec, pure, ask, emit, throw, sdbus_error, catch_sdbus, ◌>>=◌, ◌>>◌, send_trap,
  retry_alert,
}
use platform_event_filter.Exec.Keeps.{Emits}
use platform_event_filter.Bus.{Bus}
use platform_event_filter.Bus.Calls.{call, read, get_text, call_rules}
use platform_event_filter.Channels.{
  get_eth_channel_interface_map, get_interface_name_for_channel, get_ip_address, Emits-eth_map,
  Emits-ip_address,
}
use platform_event_filter.SensorPath.{retrieve_sensor_type_from_path, get_sensor_name_from_path}
use platform_event_filter.SensorNumber.{get_path_from_sensor_number}
use platform_event_filter.Alert.{snmp_severity, event_data_msg}

-- `return -1` of a `uint16_t` function.
abbrev pub failed : ℕ
failed = 0xFFFF

abbrev network_path : String
network_path = "/xyz/openbmc_project/network/config"

abbrev network_iface : String
network_iface = "xyz.openbmc_project.Network.SystemConfiguration"

module _ (bus : Bus) where
  -- The address of the interface, else of any.
  unfoldable pub bmc_ip_address : String → Exec String
  bmc_ip_address iface_name = do
    own ← get_ip_address bus (some iface_name)
    if is_empty own then get_ip_address bus none else pure own

  -- `HostName`, which an error reply does not keep from being read.
  unfoldable pub get_host_name : Exec String
  get_host_name = do
    reply ← call (λ n. bus.get n network_path network_iface "HostName")
    value ← read reply
    get_text value

  -- What the alert says: the texts in the order of the trap's arguments, and the sensor's type, which
  -- only a queued alert has.
  unfoldable pub snmp_texts :
      EventMsgData → String → String → String → String × List (String × String)
  snmp_texts msg sensor_path time_stamp host_name =
      let sensor_name : String = get_sensor_name_from_path sensor_path in
      let (severity, direction) = snmp_severity msg in
      (
        retrieve_sensor_type_from_path sensor_path,
        ("timeStamp", time_stamp)
            ∷ ("severity", severity)
            ∷ (
              "eventDataMsg",
              event_data_msg (λ name. sensor_name & " " & direction & " " & name) msg,
            )
            ∷ ("sensorName", sensor_name)
            ∷ ("direction", direction)
            ∷ ("eventSubjectSN", "")
            ∷ ("additionalData", "")
            ∷ ("hostName", host_name)
            ∷ [],
      )

  -- The `try` block that sends the alert, or queues it.
  unfoldable pub snmp_dispatch :
      Bool → EventMsgData → String × List (String × String) → ℕ → ℕ → Exec ℕ
  snmp_dispatch true msg (sensor_type, texts) channel_no destination_sel = do
    emit (retry_alert "snmp" (to_string msg.record_id) (("sensorType", sensor_type) ∷ texts))
    reply ← call bus.retry_queued
    queued ← read reply
    if queued then pure 0 else pure failed
  snmp_dispatch false msg (sensor_type, texts) channel_no destination_sel = do
    emit (send_trap msg.record_id texts channel_no destination_sel)
    raises ← ask bus.trap_raises
    if raises then throw sdbus_error else pure 0

  -- The status: 0, or `failed`. `retry_enable` is the global of that name.
  unfoldable pub send_snmp_alert : Bool → EventMsgData → ℕ → ℕ → Exec ℕ
  send_snmp_alert retry_enable msg channel_no destination_sel = do
    sensors ← ask bus.sensor_num_map
    let sensor_path = get_path_from_sensor_number sensors msg.sensor_num 0xff
    eth_map ← get_eth_channel_interface_map bus
    let iface_name = get_interface_name_for_channel channel_no eth_map
    if is_empty iface_name then pure failed else do
      address ← bmc_ip_address iface_name
      time_stamp ← ask bus.current_time
      host_name ← get_host_name
      catch_sdbus
          (snmp_dispatch retry_enable msg
            (snmp_texts msg sensor_path time_stamp (host_name & ":" & address)) channel_no
            destination_sel)
          (pure failed)

  module _ {P : Event → Type 0} where
    Emits-bmc_ip_address : (iface_name : String) → Emits P (bmc_ip_address iface_name)
    unfolding bmc_ip_address
    Emits-bmc_ip_address iface_name = search (call_rules, Emits-ip_address) depth 8

    pub Emits-get_host_name : Emits P get_host_name
    unfolding get_host_name
    Emits-get_host_name = search call_rules depth 8

    -- The only events of an alert are the trap and the request to queue it.
    module _ (trap : (r : ℕ) (t : List (String × String)) (c d : ℕ) → P (send_trap r t c d))
        (retry : (k s : String) (t : List (String × String)) → P (retry_alert k s t)) where
      Emits-snmp_dispatch :
          (retry_enable : Bool) (msg : EventMsgData) (texts : String × List (String × String))
          (channel_no destination_sel : ℕ)
          → Emits P (snmp_dispatch retry_enable msg texts channel_no destination_sel)
      unfolding snmp_dispatch
      Emits-snmp_dispatch true msg (sensor_type, texts) channel_no destination_sel =
          search (call_rules, retry) depth 10
      Emits-snmp_dispatch false msg (sensor_type, texts) channel_no destination_sel =
          search (call_rules, trap) depth 10

      pub Emits-send_snmp_alert :
          (retry_enable : Bool) (msg : EventMsgData) (channel_no destination_sel : ℕ)
          → Emits P (send_snmp_alert retry_enable msg channel_no destination_sel)
      unfolding send_snmp_alert
      Emits-send_snmp_alert retry_enable msg channel_no destination_sel =
          search
            (
              call_rules, Emits-eth_map, Emits-bmc_ip_address, Emits-get_host_name,
              Emits-snmp_dispatch,
            )
            depth 20
