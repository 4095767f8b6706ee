-- ===== src/TestDestination.antt =====
-- src/pef_config.cpp: `TestDestination`, `dispatchTestDestination`, `getInterfaceNameForChannelForTest`,
-- `getSmtpMailIDForTest` and `sendTestMailForDestination`.
pub mod Tested
use platform_event_filter.Common.{
  ℕ, suc, ◌+◌, ◌-◌, ◌%◌, ltb, leb, ◌==◌, ◌||◌, not, if◌then◌else◌, Bool, true, false, Option, none,
  some, List, [], ◌∷◌, String, ◌&◌, is_empty, to_string, get_elem?,
}
use platform_event_filter.Common.Options.{◌>>=◌}
use platform_event_filter.Bus.{Reply, raised, message, Value}
use platform_event_filter.Channels.{is_eth, eth_only}
use platform_event_filter.Notification.{Array, LanConfig, LanFile, lan_config}
use platform_event_filter.Notification.Managers.{
  Host, body_of, find_channel, text_of, send_obmc_error_notification,
}
use platform_event_filter.Notification.Fields.{ErrorNotification}

-- The answers for one test: the first number of some is that of the question.
pub record TestHost : Type 0 where
  -- sdbusplus::bus::new_default()
  pub opens : ℕ → Bool
  pub channel_map : ℕ → Reply (List (ℕ × String))
  pub lan_file : Option LanFile
  -- Get of SMTPMailID of a user
  pub smtp_mail_id : String → Reply Value
  -- ForgotPassSendMail: the address, the subject and the body
  pub send_mail : String → String → String → Reply (Unit {0})
  pub snmp : Host
  -- getTestTimestamp
  pub timestamp : String

abbrev only_eth : String → Option String
only_eth iface = if is_eth (0, iface) then some iface else none

unfoldable pub test_notification : String → ErrorNotification
test_notification timestamp = record {
  error_id = 0xFFFF;
  timestamp = timestamp;
  severity = "Information";
  message = "PEF SNMP test notification";
  event_id = "PEFTestEvent";
  event_status = "Asserted";
  event_subject_sn = "";
  add_data = "";
  ip = "PEF_SNMP_TEST";
}

-- Within one `try`.
abbrev when_open : {A : Type 0} → Bool → Option A → Option A
when_open opens o = if opens then o else none

module _ (host : TestHost) where
  unfoldable pub get_interface_name_for_channel_for_test : ℕ → Option String
  get_interface_name_for_channel_for_test channel_no = when_open (host.opens 1) (do
    channel_map ← body_of (host.channel_map 1)
    iface ← find_channel channel_no channel_map
    only_eth iface)

  unfoldable pub get_smtp_mail_id_for_test : String → Option String
  get_smtp_mail_id_for_test user_name =
      if is_empty user_name
      then none
      else when_open (host.opens 2)
          (do variant ← body_of (host.smtp_mail_id user_name); text_of (some variant))

  unfoldable pub is_sent : Reply (Unit {0}) → Bool
  is_sent raised = false
  is_sent (message m) = not m.is_error

  unfoldable pub send_test_mail_for_destination : String → ℕ → ℕ → Bool
  send_test_mail_for_destination mail_id channel_no destination_sel =
      if is_empty mail_id
      then false
      else if not (host.opens 3)
      then false
      else is_sent (
          host.send_mail mail_id "PEF Test Alert" (
            "PEF test alert triggered for channel "
            & to_string channel_no
            & " destination "
            & to_string destination_sel))

  unfoldable pub mail_to : Option String → ℕ → ℕ → Bool
  mail_to none channel_no destination_sel = false
  mail_to (some mail_id) channel_no destination_sel =
      send_test_mail_for_destination mail_id channel_no destination_sel

  -- The user of the entry: no array, no such entry, and an entry of another type fail.
  unfoldable pub test_mail : Array String → ℕ → ℕ → Bool
  test_mail none channel_no destination_sel = false
  test_mail (some users) channel_no destination_sel = elim (get_elem? users (destination_sel - 1)) [
    | none ↦ false
    | some none ↦ false
    | some (some user) ↦ mail_to (get_smtp_mail_id_for_test user) channel_no destination_sel
  ]

  unfoldable pub test_type : LanConfig → Option (Option ℕ) → ℕ → ℕ → Bool
  test_type cfg none channel_no destination_sel = false
  test_type cfg (some none) channel_no destination_sel = false
  test_type cfg (some (some type)) channel_no destination_sel =
      if leb (type % 256) 2
      then send_obmc_error_notification host.snmp (test_notification host.timestamp) channel_no
          destination_sel
      else if type % 256 == 3
      then test_mail cfg.user_names channel_no destination_sel
      else false

  unfoldable pub test_config : Option LanConfig → ℕ → ℕ → Bool
  test_config none channel_no destination_sel = false
  test_config (some cfg) channel_no destination_sel = elim cfg.types [
    | none ↦ false
    | some types ↦ test_type cfg (get_elem? types (destination_sel - 1)) channel_no destination_sel
  ]

  unfoldable pub test_interface : Option String → ℕ → ℕ → Bool
  test_interface none channel_no destination_sel = false
  test_interface (some iface) channel_no destination_sel =
      test_config (lan_config host.lan_file iface) channel_no destination_sel

  -- Every exception is caught and gives false.
  unfoldable pub dispatch_test_destination : ℕ → ℕ → Bool
  dispatch_test_destination channel_no destination_sel =
      if destination_sel == 0
      then false
      else test_interface (get_interface_name_for_channel_for_test channel_no) channel_no
          destination_sel

  unfoldable pub allowed_channel : ℕ → Option String
  allowed_channel channel_no = when_open (host.opens 0) (do
    channel_map ← body_of (host.channel_map 0)
    find_channel channel_no (eth_only channel_map))

  abbrev max_destination_sel_local : ℕ
  max_destination_sel_local = 15 - 1

  unfoldable pub test_selector : ℕ → ℕ → Bool
  test_selector channel_no destination_sel =
      if destination_sel == 0 || ltb max_destination_sel_local destination_sel
      then false
      else dispatch_test_destination channel_no destination_sel

  -- `TestSNMP`
  unfoldable pub test_snmp : ℕ → ℕ → Bool
  test_snmp channel_no destination_sel =
      send_obmc_error_notification host.snmp (test_notification host.timestamp) channel_no
        destination_sel

  unfoldable pub test_destination : ℕ → ℕ → Bool
  test_destination channel_no destination_sel =
      if ltb 15 channel_no then false else elim (allowed_channel channel_no) [
        | none ↦ false
        | some iface ↦ test_selector channel_no ((destination_sel + 1) % 256)
      ]
