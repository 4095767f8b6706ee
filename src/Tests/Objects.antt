-- ===== src/Tests/Objects.antt =====
-- The objects of a start of the configuration service, and what later starts show.
use platform_event_filter.Common.{
  ◌≡◌, refl, arith, true, Bool, none, some, List, [], ◌∷◌, ◌++◌, String, ◌===◌, ◌||◌, if◌then◌else◌,
  map, At, to_string,
}
use platform_event_filter.Common.Int.{pos}
use platform_event_filter.Retry.{to_unsigned, to_int, signed}
use platform_event_filter.Tables.{number, string, Row, group_rows, fill}
use platform_event_filter.LanJson.{config_in}
use platform_event_filter.LanStart.{
  Shown, start_lan, start_config, chosen, show_lan, with_community, with_count, shown_arrays,
  shown_vectors, read_vectors, has_flat_arrays, is_array, texts_of, bytes_of, to_bytes,
  ensure_sized, fill_up, community_of, count_of,
}
use platform_event_filter.ConfigUpdate.Monitors.{
  Document, document, byte, conf_info_changed, destination_selector_changed,
}
use platform_event_filter.ServiceStart.{
  byte_kind, value, DbusObject, lan_object, object, num, text, read_properties, row_object,
  row_objects, read_cell, number_of, string_of, list_objects, list_object, objects_of, show_all,
}
use platform_event_filter.ServiceStart.Tables.{
  ConfData, pef_obj, conf_properties, conf_objects, guid_objects, oem_objects, event_filter_objects,
  policy_objects, alert_string_objects, destination_object, destination_objects,
  destination_properties, int_of, int_text, table_objects, lan_object_of, lan_objects_of,
  lan_objects, parse_pef_conf_to_dbus,
}
use platform_event_filter.ServiceStart.ConfProperties.{byte_signal, set_object, kind_of}
use platform_event_filter.ServiceStart.ConfInfo.{conf_info_changed-conf_objects}
use platform_event_filter.ServiceStart.Selectors.{
  destinations_of, destination_selector_changed-destinations_of,
}
use platform_event_filter.ServiceStart.Channels
use platform_event_filter.ServiceStart.Readable.{IsReadable}
use platform_event_filter.ServiceStart.Order.{parse_pef_conf_to_dbus-IsReadable}
use platform_event_filter.Tests.Starts.{own_file, filled, channels, one_found}

abbrev conf_row : Row
conf_row = λ key. if key === "Subject" || key === "Message" then string "PEF" else number (pos 1)

abbrev destination_row : Row
destination_row = λ key. if key === "DestinationType" then number (pos 2) else number (pos 1)

abbrev document_of : Document
document_of = record {
  conf_info = conf_row ∷ [];
  event_filters = [];
  alert_policies = [];
  destinations = destination_row ∷ [];
}

abbrev conf_data : ConfData
conf_data = record { tables = document_of; system_guid = []; oem_param = []; alert_strings = [] }

abbrev conf_object : DbusObject
conf_object = object pef_obj "xyz.openbmc_project.pef.PEFConfInfo" (
    ("Version", num 1)
    ∷ ("ActionSupported", num 1)
    ∷ ("MaxEventTblEntry", num 1)
    ∷ ("PEFControl", num 1)
    ∷ ("PEFActionGblControl", num 1)
    ∷ ("PEFStartupDly", num 1)
    ∷ ("PEFAlertStartupDly", num 1)
    ∷ ("LastBMCProcessedEventID", num 1)
    ∷ ("LastSWProcessedEventID", num 1)
    ∷ ("Subject", text "PEF")
    ∷ ("Message", text "PEF")
    ∷ [])

conf_read : conf_objects (conf_row ∷ []) ≡ map value (conf_object ∷ [])
unfolding conf_objects row_objects row_object read_properties conf_properties read_cell number_of
    string_of to_unsigned to_int signed
conf_read = refl

abbrev keep_document : List Row → Document → Document
keep_document = λ rows d. d

control_kind : kind_of "PEFControl" conf_properties ≡ some byte_kind
unfolding conf_properties
control_kind = refl

conf_info_changed-conf_objects_example :
    (d' : Document) × (conf_info_changed keep_document true
        ("PEFControl", byte 3)
        (document document_of)
      ≡ some (document d'))
    × (conf_objects d'.conf_info
        ≡ map value (map (set_object "PEFControl" (num 3)) (conf_object ∷ [])))
conf_info_changed-conf_objects_example =
    conf_info_changed-conf_objects keep_document (λ rows d. refl) "PEFControl" control_kind
      (byte_signal 3 (omega arith)) document_of (conf_object ∷ []) conf_read

abbrev entry_path : String
entry_path = "/xyz/openbmc_project/PefAlertManager/DestinationSelector/Entry1"

destination_selector_changed-destinations_of_example :
    destinations_of (
      destination_selector_changed true entry_path
        (("DestinationSelector", byte 3) ∷ [])
        (document document_of))
    ≡ destinations_of (document document_of)
destination_selector_changed-destinations_of_example =
    destination_selector_changed-destinations_of true entry_path (byte 3) (document document_of)

abbrev entry_object : DbusObject
entry_object =
    object entry_path "xyz.openbmc_project.pef.DestinationSelectorTable"
      (("LanChannel", num 1) ∷ ("DestinationSelector", num 2) ∷ [])

tables_read : table_objects conf_data ≡ value conf_object ∷ value entry_object ∷ []
unfolding table_objects conf_objects guid_objects oem_objects event_filter_objects policy_objects
    alert_string_objects destination_objects destination_object destination_properties int_of
    int_text to_string row_objects row_object read_properties conf_properties read_cell number_of
    string_of to_unsigned to_int signed list_objects list_object group_rows fill
tables_read = refl

abbrev takes_all : List DbusObject → DbusObject → Bool
takes_all = λ objects o. true

abbrev eth0_object : DbusObject
eth0_object = lan_object "eth0" (Shown.full 2 filled)

lan_read : lan_objects none own_file (some ("eth0" ∷ [])) ≡ value eth0_object ∷ []
unfolding lan_objects lan_objects_of lan_object_of start_lan start_config chosen show_lan
    with_community with_count shown_arrays shown_vectors read_vectors has_flat_arrays is_array
    texts_of bytes_of to_bytes ensure_sized fill_up community_of count_of config_in to_unsigned
    to_int signed
lan_read = refl

all_shown :
    objects_of (parse_pef_conf_to_dbus none own_file takes_all (some channels) (some conf_data))
    ≡ some (conf_object ∷ entry_object ∷ eth0_object ∷ [])
unfolding parse_pef_conf_to_dbus show_all objects_of
all_shown = rw (tables_read, one_found, lan_read) refl

parse_pef_conf_to_dbus-IsReadable_example : IsReadable conf_data
parse_pef_conf_to_dbus-IsReadable_example =
    parse_pef_conf_to_dbus-IsReadable none own_file takes_all (some channels) conf_data
      (conf_object ∷ entry_object ∷ eth0_object ∷ []) "eth0" (Shown.full 2 filled) 2 all_shown
      (At.tail conf_object (At.tail entry_object (At.head [])))

-- A destination before that of the path.
abbrev zeroth_row : Row
zeroth_row = λ key. number (pos 0)

abbrev two_destinations : Document
two_destinations = record document_of { destinations = zeroth_row ∷ destination_row ∷ [] }

one_int : to_int (pos 1) ≡ pos 1
unfolding to_int to_unsigned signed
one_int = refl

zero_int : to_int (pos 0) ≡ pos 0
unfolding to_int to_unsigned signed
zero_int = refl

is_zeroth : ¬ (to_int (pos 0) ≡ pos 1)
is_zeroth q = let zero = zero_int in cc

type_read : read_cell byte_kind (destination_row "DestinationType") ≡ value (num 2)
unfolding read_cell number_of to_unsigned
type_read = refl

destination_selector_changed-lan_channel_example :
    destinations_of (
      destination_selector_changed true
        (Channels.entry_path 1)
        (("LanChannel", byte 8) ∷ [])
        (document two_destinations))
    ≡ destination_objects (zeroth_row ∷ [])
      ++ (value (Channels.shown_entry 1 8 (num 2)) ∷ destination_objects [])
destination_selector_changed-lan_channel_example =
    Channels.destination_selector_changed-lan_channel two_destinations (zeroth_row ∷ []) []
      destination_row 1 8 (num 2) refl ((pos 0, refl, is_zeroth), tt) (pos 1, refl, one_int)
      type_read (omega arith)
