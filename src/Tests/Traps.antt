-- ===== src/Tests/Traps.antt =====
-- Traps, tests of destinations, LAN properties and passwords at a concrete host.
use platform_event_filter.Common.{
  ◌∙◌, ◌≡◌, refl, arith, All, none, some, true, [], ◌∷◌, ◌===◌, to_string, if◌then◌else◌,
}
use platform_event_filter.Bus.{raised}
use platform_event_filter.Tests.Fixtures.{answer}
use platform_event_filter.Encryption.{OpenSsl}
use platform_event_filter.Notification.{
  LanConfig, LanFile, lan_config, in_interfaces, read_array, read_all, cons_read,
  get_snmp_disable_status, read_disabled, set_disabled, disable_value, format_peer_address,
}
use platform_event_filter.Channels.{eth_only}
use platform_event_filter.Notification.Managers.{
  Host, send_obmc_error_notification, eth_map, body_of, find_channel,
}
use platform_event_filter.Notification.Session.{NetSnmp}
use platform_event_filter.Notification.Fields.{
  ErrorNotification, IsTyped, add_fields, all_taken, get_field_oid_list, get_field_oid_list_lem,
}
use platform_event_filter.Notification.Sent.{Sent, send_trap-Sent}
use platform_event_filter.Notification.Delivery.{Ready, Ready-send_trap, net_takes, entry_session}
use platform_event_filter.TestDestination.{
  TestHost, test_notification, test_destination, allowed_channel, test_selector,
  dispatch_test_destination, test_interface, get_interface_name_for_channel_for_test, test_config,
  test_type,
}
use platform_event_filter.TestDestination.Tested.{Tested, test_destination-Tested}

-- A net-snmp of which every step succeeds.
abbrev all_ready : NetSnmp
all_ready = record {
  snmp_group = some ("trapper" ∷ []);
  generate_ku = λ proto password. some password;
  add_session = λ name m. true;
  create_pdu = λ m. true;
  add_uptime = λ m. true;
  add_trap_oid = λ m oid. true;
  add_variable = λ m oid type value. true;
  send = λ m. true;
}

-- Two destinations: a v2c trap, and a mail.
abbrev two_destinations : LanConfig
two_destinations = record {
  types = some (some 1 ∷ some 3 ∷ []);
  address_types = some (some 1 ∷ some 1 ∷ []);
  ipv4 = some (some "10.0.0.9" ∷ some "0.0.0.0" ∷ []);
  ipv6 = none;
  user_names = some (some "" ∷ some "admin" ∷ []);
  community = some "public";
}

abbrev one_interface : LanFile
one_interface = record {
  interfaces = some (λ iface. if iface === "eth0" then some (some two_destinations) else none);
  top = λ iface. none;
}

-- Nothing is stored.
abbrev no_ssl : OpenSsl
no_ssl = record {
  rand_key = none;
  rand_iv = none;
  bio_write = λ b. "";
  bio_read = λ s size. [];
  encrypt = λ key iv p. none;
  decrypt = λ key iv c. none;
}

abbrev over_temperature : ErrorNotification
over_temperature = record {
  error_id = 7;
  timestamp = "Thu Nov 26 15:00:00 UTC 2026";
  severity = "Critical";
  message = "CPU Asserted Upper critical";
  event_id = "CPU";
  event_status = "Asserted";
  event_subject_sn = "";
  add_data = "";
  ip = "bmc:10.0.0.2";
}

abbrev trap_host : Host
trap_host = record {
  trap_status = some true;
  snmp_conf = some (("disableSNMPv3", "yes") ∷ []);
  opens = true;
  channel_map = answer ((1, "eth0") ∷ (2, "usb0") ∷ []);
  lan_file = some one_interface;
  user_properties = λ user. raised;
  ssl = no_ssl;
  key_files = record { key = none; iv = none };
  net = all_ready;
  notification = over_temperature;
}

-- Whatever the trap says.
trap_host-Ready : (n : ErrorNotification) → Ready (record trap_host { notification = n }) 1 1
unfolding eth_map body_of eth_only find_channel lan_config in_interfaces read_array read_all
    cons_read get_snmp_disable_status read_disabled set_disabled disable_value format_peer_address
    to_string
trap_host-Ready n = record {
  enabled = refl;
  opens = refl;
  iface = "eth0";
  channel = refl;
  cfg = two_destinations;
  config = refl;
  types = 1 ∷ 3 ∷ [];
  types_read = refl;
  address_types = 1 ∷ 1 ∷ [];
  address_types_read = refl;
  ipv4 = "10.0.0.9" ∷ "0.0.0.0" ∷ [];
  ipv4_read = refl;
  ipv6 = [];
  ipv6_read = refl;
  user_names = "" ∷ "admin" ∷ [];
  user_names_read = refl;
  community = "public";
  community_read = refl;
  named = refl;
  type = 1;
  entry = refl;
  is_community = omega arith;
  is_ipv4 = refl;
  address = "10.0.0.9";
  addressed = refl;
  reachable = refl;
  v1_enabled = refl;
  v2c_enabled = refl;
}

-- net-snmp takes all of it.
all_taken_by :
    (n : ErrorNotification) → net_takes all_ready n (entry_session 1 "10.0.0.9" "public") ≡ true
unfolding net_takes get_field_oid_list all_taken
all_taken_by n = refl

send_trap-Sent_example : Sent trap_host 1 1
unfolding trap_host-Ready
send_trap-Sent_example = send_trap-Sent trap_host 1 1 (
    Ready-send_trap trap_host 1 1 (trap_host-Ready over_temperature)
    ∙ all_taken_by over_temperature)

-- The same interface, and a mail service that answers.
abbrev test_host : TestHost
test_host = record {
  opens = λ n. true;
  channel_map = λ n. answer ((1, "eth0") ∷ (2, "usb0") ∷ []);
  lan_file = some one_interface;
  smtp_mail_id = λ user. raised;
  send_mail = λ to subject body. answer tt;
  snmp = trap_host;
  timestamp = "";
}

trap_tested : test_destination test_host 1 0 ≡ true
unfolding trap_host-Ready test_destination allowed_channel test_selector dispatch_test_destination
    test_interface get_interface_name_for_channel_for_test test_config test_type body_of eth_only
    find_channel lan_config in_interfaces send_obmc_error_notification
trap_tested =
    Ready-send_trap (record trap_host { notification = test_notification "" }) 1 1
      (trap_host-Ready (test_notification ""))
    ∙ all_taken_by (test_notification "")

test_destination-Tested_example : Tested test_host 1 0
test_destination-Tested_example = test_destination-Tested test_host 1 0 (omega arith) trap_tested

get_field_oid_list_lem_example :
    All IsTyped (get_field_oid_list over_temperature)
    × (add_fields (λ oid type value. true) (get_field_oid_list over_temperature)
        ≡ some (all_taken (λ oid type value. true) (get_field_oid_list over_temperature)))
get_field_oid_list_lem_example = get_field_oid_list_lem (λ oid type value. true) over_temperature
