-- ===== src/ServiceStart/Tables.antt =====
-- src/pef_config.cpp, `parsePefConfToDbus`: the tables of the configuration file, the properties of their
-- objects, and the whole start.
use platform_event_filter.Common.{
  ℕ, zero, suc, ◌+◌, Bool, Option, none, some, List, [], ◌∷◌, ◌++◌, String, ◌&◌, to_string, map,
}
use platform_event_filter.Common.Int.{ℤ, pos, negsuc}
use platform_event_filter.Retry.{to_int}
use platform_event_filter.Tables.{Cell, absent, other, number, string, Row, group_rows}
use platform_event_filter.LanJson.{Config, LanJson}
use platform_event_filter.LanStart.{Shown, nothing, basic, full, start_lan}
use platform_event_filter.LanStart.Interfaces.{Channel, lan_interfaces}
use platform_event_filter.ConfigUpdate.Monitors.{Document}
use platform_event_filter.Properties.Writes.{list_path}
use platform_event_filter.ServiceStart.{
  Read, failed, undefined, value, ◌>>=◌, Kind, byte_kind, word_kind, text_kind, Registered,
  DbusObject, lan_object, row_object, row_objects, Vector, numeric, textual, list_objects, caught,
  Start, ended, show_all,
}

-- The configuration file: the tables that monitors change, and the others.
pub record ConfData : Type 0 where
  pub tables : Document
  pub system_guid : List Row
  pub oem_param : List Row
  pub alert_strings : List Row

abbrev pub pef_obj : String
pef_obj = "/xyz/openbmc_project/PefAlertManager"

-- A property that is kept under its own name.
abbrev pub same_name : String → Kind → Registered
same_name name kind = record { name = name; key = name; kind = kind }

unfoldable pub conf_properties : List Registered
conf_properties =
    same_name "Version" byte_kind
    ∷ same_name "ActionSupported" byte_kind
    ∷ same_name "MaxEventTblEntry" byte_kind
    ∷ same_name "PEFControl" byte_kind
    ∷ same_name "PEFActionGblControl" byte_kind
    ∷ same_name "PEFStartupDly" byte_kind
    ∷ same_name "PEFAlertStartupDly" byte_kind
    ∷ same_name "LastBMCProcessedEventID" word_kind
    ∷ same_name "LastSWProcessedEventID" word_kind
    ∷ same_name "Subject" text_kind
    ∷ same_name "Message" text_kind
    ∷ []

-- Bytes with the numbers from `i` on, as many as are left.
unfoldable pub numbered : String → String → ℕ → ℕ → List Registered
numbered name key zero i = []
numbered name key (suc left) i =
    let r : Registered = record {
      name = name & to_string i;
      key = key & to_string i;
      kind = byte_kind;
    } in
    r ∷ numbered name key left (i + 1)

unfoldable pub conf_objects : List Row → List (Read DbusObject)
conf_objects = row_objects pef_obj "xyz.openbmc_project.pef.PEFConfInfo" conf_properties

unfoldable pub guid_objects : List Row → List (Read DbusObject)
guid_objects =
    row_objects pef_obj "xyz.openbmc_project.pef.SystemGUID"
      (numbered "SystemGUID" "SystemGUID" 16 0)

unfoldable pub oem_objects : List Row → List (Read DbusObject)
oem_objects =
    row_objects pef_obj "xyz.openbmc_project.pef.OEMParam" (numbered "OemParam" "OEMParam" 32 0)

abbrev pub event_filter_columns : List Vector
event_filter_columns =
    numeric 8 "EventFilterTableEntry"
    ∷ numeric 8 "FilterConfig"
    ∷ numeric 8 "EvtFilterAction"
    ∷ numeric 8 "AlertPolicyNum"
    ∷ numeric 8 "EventSeverity"
    ∷ numeric 8 "GenIDByte1"
    ∷ numeric 8 "GenIDByte2"
    ∷ numeric 8 "SensorType"
    ∷ numeric 8 "SensorNum"
    ∷ numeric 8 "EventTrigger"
    ∷ numeric 16 "EventData1OffsetMask"
    ∷ numeric 8 "EventData1ANDMask"
    ∷ numeric 8 "EventData1Cmp1"
    ∷ numeric 8 "EventData1Cmp2"
    ∷ numeric 8 "EventData2ANDMask"
    ∷ numeric 8 "EventData2Cmp1"
    ∷ numeric 8 "EventData2Cmp2"
    ∷ numeric 8 "EventData3ANDMask"
    ∷ numeric 8 "EventData3Cmp1"
    ∷ numeric 8 "EventData3Cmp2"
    ∷ []

unfoldable pub event_filter_objects : List Row → List (Read DbusObject)
event_filter_objects rows =
    list_objects list_path "xyz.openbmc_project.pef.EventFilterTable" event_filter_columns
      (group_rows 10 rows)

abbrev pub policy_columns : List Vector
policy_columns =
    numeric 8 "AlertPolicyGroupNum"
    ∷ numeric 8 "EnableAlert"
    ∷ numeric 8 "PolicyAction"
    ∷ numeric 8 "ChannelNo"
    ∷ numeric 8 "DestinationSel"
    ∷ textual "EventSpecificAlertStr"
    ∷ numeric 8 "AlertStingkey"
    ∷ []

unfoldable pub policy_objects : List Row → List (Read DbusObject)
policy_objects rows =
    list_objects (λ k. pef_obj & "/AlertPolicyTable/PolicyList_eth" & to_string k)
      "xyz.openbmc_project.pef.AlertPolicyTable" policy_columns (group_rows 15 rows)

abbrev pub alert_string_columns : List Vector
alert_string_columns =
    numeric 8 "AlertStringTableEntry"
    ∷ numeric 8 "EventFilterSel"
    ∷ numeric 8 "AlertStringSet"
    ∷ numeric 16 "AlertString0"
    ∷ numeric 16 "AlertString1"
    ∷ numeric 16 "AlertString2"
    ∷ []

unfoldable pub alert_string_objects : List Row → List (Read DbusObject)
alert_string_objects rows =
    list_objects (λ k. pef_obj & "/AlertStringTable/List" & to_string (k + 1))
      "xyz.openbmc_project.pef.AlertStringTable" alert_string_columns (group_rows 10 rows)

-- `std::to_string` of an `int`.
unfoldable pub int_text : ℤ → String
int_text (pos n) = to_string n
int_text (negsuc n) = "-" & to_string (n + 1)

-- `int lanDestEntry = destSelTable["LanDestination"]`, of a constant row.
unfoldable pub int_of : Cell → Read ℤ
int_of absent = undefined
int_of other = failed
int_of (string s) = failed
int_of (number z) = value (to_int z)

unfoldable pub destination_properties : List Registered
destination_properties =
    same_name "LanChannel" byte_kind
    ∷ record { name = "DestinationSelector"; key = "DestinationType"; kind = byte_kind }
    ∷ []

unfoldable pub destination_object : Row → Read DbusObject
destination_object row = int_of (row "LanDestination") >>= λ z.
    row_object (pef_obj & "/DestinationSelector/Entry" & int_text z)
      "xyz.openbmc_project.pef.DestinationSelectorTable" destination_properties row

unfoldable pub destination_objects : List Row → List (Read DbusObject)
destination_objects rows = map destination_object rows

-- What the tables of the file make, in order.
unfoldable pub table_objects : ConfData → List (Read DbusObject)
table_objects d =
    conf_objects d.tables.conf_info
    ++ (guid_objects d.system_guid
        ++ (oem_objects d.oem_param
            ++ (event_filter_objects d.tables.event_filters
                ++ (policy_objects d.tables.alert_policies
                    ++ (alert_string_objects d.alert_strings
                        ++ destination_objects d.tables.destinations)))))

unfoldable pub lan_object_of : String → Shown → List (Read DbusObject)
lan_object_of iface nothing = []
lan_object_of iface (basic community n) = value (lan_object iface (basic community n)) ∷ []
lan_object_of iface (full n properties) = value (lan_object iface (full n properties)) ∷ []

-- The objects of the LAN interfaces, whose list may end in an exception.
module _ (lan : Option LanJson) (legacy : String → Option (Option Config)) where
  unfoldable pub lan_objects_of : List String → List (Read DbusObject)
  lan_objects_of [] = []
  lan_objects_of (iface ∷ ifaces) =
      lan_object_of iface (start_lan lan legacy iface) ++ lan_objects_of ifaces

  unfoldable pub lan_objects : Option (List String) → List (Read DbusObject)
  lan_objects none = failed ∷ []
  lan_objects (some ifaces) = lan_objects_of ifaces

  -- The start: of a file that cannot be read, which throws at the first table, or of the tables and the
  -- channel configuration.
  unfoldable pub parse_pef_conf_to_dbus :
      (List DbusObject → DbusObject → Bool) → Option (List Channel) → Option ConfData → Start
  parse_pef_conf_to_dbus takes channels none = ended caught []
  parse_pef_conf_to_dbus takes channels (some d) =
      show_all takes (table_objects d ++ lan_objects (lan_interfaces channels)) []
