-- ===== src/Tests/Starts.antt =====
-- The start of the configuration service, and sensors that have their numbers.
use platform_event_filter.Common.{
  ◌≡◌, ◌≢◌, refl, arith, true, false, Option, none, some, List, [], ◌∷◌, String, ◌===◌,
  if◌then◌else◌, At,
}
use platform_event_filter.Common.Int.{pos}
use platform_event_filter.Retry.{field, to_unsigned}
use platform_event_filter.Bus.{Reply, Value, u8, u16}
use platform_event_filter.LanJson.{
  number, text, numbers, texts, Config, Container, LanJson, config_in,
}
use platform_event_filter.LanProperties.{
  LanProperties, Lan, Request, handle, set_property, valid_type,
}
use platform_event_filter.Properties.{all_valid}
use platform_event_filter.LanStart.{
  Shown, start_lan, start_config, chosen, show_lan, with_community, with_count, shown_arrays,
  shown_vectors, read_vectors, has_flat_arrays, is_array, texts_of, bytes_of, to_bytes,
  ensure_sized, fill_up, community_of, count_of,
}
use platform_event_filter.LanStart.Interfaces.{
  Channel, no_object, channel, lan_interfaces, get_available_eth_interfaces, add_channels,
  add_channel, push_name, has_name, value_or, IsInterfaces, lan_interfaces-IsInterfaces,
}
use platform_event_filter.LanStart.Restart.{none_yet, write, Writes-start_lan}
use platform_event_filter.LanStart.Legacy.{handle-start_lan}
use platform_event_filter.SensorTree.Static.{
  Sensor, static_number, number_statically, in_services, in_interfaces, has_interface, number_in,
  insert_entry, put_entry, is_sensor_number, has_entry,
}
use platform_event_filter.SensorTree.StaticNumbers.{
  IsNumbered, number_statically-IsNumbered, has_entry-number_statically,
}
use platform_event_filter.Notification.Managers.{body_of}
use platform_event_filter.Tests.Fixtures.{answer}
use platform_event_filter.Tests.Secrets.{answers, to_mail}

-- Two destinations, of which the file has one.
abbrev pub one_of_two : Config
one_of_two = λ key.
    if key === "CommunityString"
    then some (text "public")
    else if key === "NumberofDestinations"
    then some (number (pos 2))
    else if key === "IPv4"
    then some (texts ("10.0.0.9" ∷ []))
    else if key === "IPv6"
    then some (texts ("" ∷ []))
    else if key === "UserName"
    then some (texts ("" ∷ []))
    else if key === "Type"
    then some (numbers (1 ∷ []))
    else if key === "Timeout"
    then some (numbers (5 ∷ []))
    else if key === "Retries"
    then some (numbers (3 ∷ []))
    else none

abbrev pub only_eth0 : Container
only_eth0 = λ iface. if iface === "eth0" then some (some one_of_two) else none

abbrev lan_file : LanJson
lan_file = record { interfaces = some only_eth0; top = λ iface. none }

abbrev no_legacy : String → Option (Option Config)
no_legacy = λ iface. none

abbrev pub filled : LanProperties
filled = record {
  community_string = "public";
  ipv4 = "10.0.0.9" ∷ "0.0.0.0" ∷ [];
  ipv6 = "" ∷ "0000:0000:0000:0000:0000:0000:0000:0000" ∷ [];
  user_name = "" ∷ "" ∷ [];
  types = 1 ∷ 0 ∷ [];
  timeout = 5 ∷ 0 ∷ [];
  retries = 3 ∷ 0 ∷ [];
  address_type = 1 ∷ 1 ∷ [];
  shared_types = 1 ∷ 0 ∷ [];
}

abbrev started : Lan
started = record { properties = filled; file = some lan_file }

filled_shown : start_lan (some lan_file) no_legacy "eth0" ≡ Shown.full 2 filled
unfolding start_lan start_config chosen show_lan with_community with_count shown_arrays
    shown_vectors read_vectors has_flat_arrays is_array texts_of bytes_of to_bytes ensure_sized
    fill_up community_of count_of config_in to_unsigned
filled_shown = refl

abbrev two_mails : Request
two_mails = Request.set_types (3 ∷ 3 ∷ [])

abbrev after_mails : Lan
after_mails = (handle "eth0" answers two_mails started).1

Writes-start_lan_example :
    start_lan after_mails.file no_legacy "eth0" ≡ Shown.full 2 after_mails.properties
Writes-start_lan_example =
    Writes-start_lan "eth0" no_legacy 2 lan_file (some one_of_two) refl refl filled_shown
      (write answers two_mails none_yet refl (omega arith, (omega arith, (omega arith, tt))))

mails_are_shown : after_mails.properties.types ≡ 3 ∷ 3 ∷ []
unfolding handle set_property all_valid valid_type
mails_are_shown = refl

-- The interface's own file, and no LAN file yet.
abbrev pub own_file : String → Option (Option Config)
own_file = only_eth0

abbrev from_own_file : Lan
from_own_file = record { properties = filled; file = none }

own_file_shown : start_lan none own_file "eth0" ≡ Shown.full 2 filled
unfolding start_lan start_config chosen show_lan with_community with_count shown_arrays
    shown_vectors read_vectors has_flat_arrays is_array texts_of bytes_of to_bytes ensure_sized
    fill_up community_of count_of config_in to_unsigned
own_file_shown = refl

mail_taken : (handle "eth0" answers to_mail from_own_file).0 ≡ true
unfolding handle set_property all_valid valid_type
mail_taken = refl

handle-start_lan_example :
    (c : String) × (start_lan (handle "eth0" answers to_mail from_own_file).1.file own_file "eth0"
      ≡ Shown.basic c 0)
handle-start_lan_example =
    handle-start_lan "eth0" own_file answers to_mail from_own_file tt refl mail_taken

abbrev pub channels : List Channel
channels =
    channel (field true) (field "eth0")
    ∷ no_object
    ∷ channel (field false) (field "eth1")
    ∷ channel (field true) (field "ipmb")
    ∷ channel (field true) (field "eth0")
    ∷ []

abbrev pub only : List String
only = "eth0" ∷ []

pub one_found : lan_interfaces (some channels) ≡ some only
unfolding lan_interfaces get_available_eth_interfaces add_channels add_channel push_name has_name
    value_or
one_found = refl

lan_interfaces-IsInterfaces_example : IsInterfaces only × (only ≢ [])
lan_interfaces-IsInterfaces_example = lan_interfaces-IsInterfaces (some channels) only one_found

-- Three sensors: with a number, with the same number, and with the reserved one.
abbrev sensor_numbers : String → String → String → Reply (List (String × Value))
sensor_numbers = λ service path i.
    if path === "/s/fan/a"
    then answer (("SensorNumber", u8 0x30) ∷ [])
    else if path === "/s/fan/b"
    then answer (("SensorNumber", u16 0x30) ∷ [])
    else answer (("SensorNumber", u16 0x1FF) ∷ [])

abbrev valued : List (String × List String)
valued = ("xyz.openbmc_project.FanSensor", "xyz.openbmc_project.Sensor.Value" ∷ []) ∷ []

abbrev three_sensors : List Sensor
three_sensors = ("/s/fan/a", valued) ∷ ("/s/fan/b", valued) ∷ ("/s/fan/c", valued) ∷ []

one_numbered : number_statically sensor_numbers three_sensors [] ≡ (0x30, "/s/fan/a") ∷ []
unfolding number_statically static_number in_services in_interfaces has_interface number_in
    insert_entry put_entry is_sensor_number has_entry body_of
one_numbered = refl

number_statically-IsNumbered_example :
    IsNumbered sensor_numbers three_sensors (number_statically sensor_numbers three_sensors [])
number_statically-IsNumbered_example = number_statically-IsNumbered sensor_numbers three_sensors

second_number : static_number sensor_numbers ("/s/fan/b", valued) ≡ some 0x30
unfolding static_number in_services in_interfaces has_interface number_in body_of
second_number = refl

second_valid : is_sensor_number 0x30 ≡ true
unfolding is_sensor_number
second_valid = refl

has_entry-number_statically_example :
    has_entry 0x30 "/s/fan/b" (number_statically sensor_numbers three_sensors []) ≡ true
has_entry-number_statically_example =
    has_entry-number_statically sensor_numbers ("/s/fan/b", valued) three_sensors 1 0x30
      (At.tail ("/s/fan/a", valued) (At.head (("/s/fan/c", valued) ∷ []))) second_number
      second_valid
