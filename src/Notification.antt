-- ===== src/Notification.antt =====
-- src/snmp_notification.cpp: the SNMP trap for an alert, `getManagers`, `sendTrap` and what they use.
-- D-Bus, the files, the user groups and the net-snmp library are parameters.
pub mod Delivery
pub mod Fields
pub mod LocalName
pub mod Managers
pub mod Sent
pub mod Session
use platform_event_filter.Common.{
  ℕ, ◌+◌, ◌*◌, ◌/◌, ◌-◌, ◌%◌, ◌^◌, ltb, leb, ◌==◌, ◌&&◌, ◌||◌, not, if◌then◌else◌, Bool, true,
  false, Option, none, some, List, [], ◌∷◌, String, ◌===◌, ◌&◌, is_empty, to_string, get_elem?,
  length,
}
use text.Mathlib.Text.{starts_with}
use platform_event_filter.Bus.{Reply, raised, message, Value, str}
use platform_event_filter.Bus.Calls.{lookup}
use platform_event_filter.Channels.{EthChannelMap, eth_only}

abbrev snmp_trap_port : ℕ
snmp_trap_port = 162

abbrev zero_ipv6 : String
zero_ipv6 = "0000:0000:0000:0000:0000:0000:0000:0000"

unfoldable pub format_peer_address : String → ℕ → String
format_peer_address address address_type =
    if is_empty address
    then ""
    else if (address_type == 1 && address === "0.0.0.0")
        || (address_type == 2 && address === zero_ipv6)
    then ""
    else if address_type == 2 && not (starts_with address "[")
    then "[" & address & "]:" & to_string snmp_trap_port
    else address & ":" & to_string snmp_trap_port

-- `disableStatus`
pub record DisableStatus : Type 0 where
  pub v1 : Bool
  pub v2c : Bool
  pub v3 : Bool

unfoldable pub disable_value : String → Bool
disable_value value = value === "1" || value === "true" || value === "yes"

-- One line of the file, by its first two words.
unfoldable pub set_disabled : String × String → DisableStatus → DisableStatus
set_disabled (key, value) s =
    if key === "disableSNMPv1" || key === "v1"
    then record s { v1 = disable_value value }
    else if key === "disableSNMPv2c" || key === "v2c"
    then record s { v2c = disable_value value }
    else if key === "disableSNMPv3" || key === "v3"
    then record s { v3 = disable_value value }
    else s

unfoldable pub read_disabled : List (String × String) → DisableStatus → DisableStatus
read_disabled [] s = s
read_disabled (line ∷ lines) s = read_disabled lines (set_disabled line s)

-- The lines with two words, unless the file cannot be opened.
unfoldable pub get_snmp_disable_status : Option (List (String × String)) → DisableStatus
get_snmp_disable_status none = record { v1 = false; v2c = false; v3 = false }
get_snmp_disable_status (some lines) =
    read_disabled lines (record { v1 = false; v2c = false; v3 = false })

-- The value that the file has, unless it cannot be opened; a text that is no boolean reads as false.
unfoldable pub get_trap_enabled : Option Bool → Bool
get_trap_enabled none = false
get_trap_enabled (some status) = status

-- An array of the JSON file: `none` is no array; an element is `none` if it has another type.
abbrev pub Array : Type 0 → Type 0
Array A = Option (List (Option A))

pub record LanConfig : Type 0 where
  -- numbers that are cast to bytes where they are used
  pub types : Array ℕ
  pub address_types : Array ℕ
  pub ipv4 : Array String
  pub ipv6 : Array String
  pub user_names : Array String
  -- `none`: a value of another type; an absent one is empty
  pub community : Option String

-- The LAN file: the object "Interfaces", if there is one, and the top level. Under an interface name
-- there may be a value, and in it a "Config".
pub record LanFile : Type 0 where
  pub interfaces : Option (String → Option (Option LanConfig))
  pub top : String → Option (Option LanConfig)

abbrev join_config : Option (Option LanConfig) → Option LanConfig
join_config none = none
join_config (some config) = config

unfoldable pub in_interfaces :
    Option (String → Option (Option LanConfig)) → String → Option (Option LanConfig)
in_interfaces none iface = none
in_interfaces (some interfaces) iface = interfaces iface

unfoldable pub lan_config : Option LanFile → String → Option LanConfig
lan_config none iface = none
lan_config (some file) iface = elim (in_interfaces file.interfaces iface) [
  | some found ↦ found
  | none ↦ join_config (file.top iface)
]

pub record ManagerProperty : Type 0 where
  pub ipaddress : String
  pub version : String
  pub community : String
  pub user_name : String
  pub algorithm : String
  pub encryption : String
  pub password : String

-- `push_back` of each element, cast: `none` where one has another type.
module _ {A : Type 0} where
  unfoldable pub cons_read : Option A → Option (List A) → Option (List A)
  cons_read none rest = none
  cons_read (some a) none = none
  cons_read (some a) (some rest) = some (a ∷ rest)

  unfoldable pub read_all : List (Option A) → Option (List A)
  read_all [] = some []
  read_all (a ∷ rest) = cons_read a (read_all rest)

  -- A missing array leaves the vector empty.
  unfoldable pub read_array : Array A → Option (List A)
  read_array none = some []
  read_array (some elements) = read_all elements

-- `static_cast<size_t>(destinationSel - 1)`
abbrev pub entry_index : ℕ → ℕ
entry_index destination_sel = if destination_sel == 0 then 2 ^ 64 - 1 else destination_sel - 1
