-- ===== src/Notification/Managers.antt =====
-- src/snmp_notification.cpp: `loadSnmpV3UserFromDBus`, `getManagers`, `sendTrap`,
-- `getSystemUptimeTicks`.
use platform_event_filter.Common.{
  ℕ, ◌+◌, ◌*◌, ◌/◌, ◌-◌, ◌%◌, ◌^◌, ltb, ◌==◌, ◌||◌, not, if◌then◌else◌, Bool, false, Option, none,
  some, List, [], ◌∷◌, String, ◌===◌, is_empty, get_elem?,
}
use platform_event_filter.Common.Options.{◌>>=◌}
use platform_event_filter.Bus.{Reply, raised, message, Value, str}
use platform_event_filter.Bus.Calls.{lookup}
use platform_event_filter.Channels.{EthChannelMap, eth_only}
use platform_event_filter.Encryption.{OpenSsl, KeyFiles, decrypt_string}
use platform_event_filter.Notification.Fields.{ErrorNotification}
use platform_event_filter.Notification.Session.{NetSnmp, session_of, deliver_in}
use platform_event_filter.Notification.{
  format_peer_address, DisableStatus, get_snmp_disable_status, get_trap_enabled, LanConfig, LanFile,
  lan_config, ManagerProperty, read_array, entry_index,
}

-- The answers for one trap.
pub record Host : Type 0 where
  pub trap_status : Option Bool
  pub snmp_conf : Option (List (String × String))
  -- sdbusplus::bus::new_default()
  pub opens : Bool
  -- GetChannelInterfaceMap
  pub channel_map : Reply (List (ℕ × String))
  pub lan_file : Option LanFile
  -- GetAll of an SNMP user
  pub user_properties : String → Reply (List (String × Value))
  -- OpenSSL and the key files, for the passwords
  pub ssl : OpenSsl
  pub key_files : KeyFiles
  pub net : NetSnmp
  -- what the trap says
  pub notification : ErrorNotification

-- Reading a reply; `none` is an exception, of the call or of the read.
unfoldable pub body_of : {A : Type 0} → Reply A → Option A
body_of raised = none
body_of (message m) = m.body

-- Any exception leaves the map empty.
unfoldable pub eth_map : Reply (List (ℕ × String)) → EthChannelMap
unfolding body_of
eth_map reply = elim (body_of reply) [ none ↦ [] | some channel_map ↦ eth_only channel_map ]

-- `ethMap.find(channel)`
unfoldable pub find_channel : ℕ → EthChannelMap → Option String
find_channel channel_no [] = none
find_channel channel_no ((channel, iface) ∷ rest) =
    let more = find_channel channel_no rest in if channel == channel_no then some iface else more

-- `std::get<std::string>` of what `at` finds.
unfoldable pub text_of : Option Value → Option String
text_of (some (str s)) = some s
text_of _ = none

-- `algorithm`, `encryption` and `password`; `none` where the function returns false.
unfoldable pub load_snmp_v3_user : Host → String → Option (String × String × String)
unfolding body_of
load_snmp_v3_user host user_name = do
  user_props ← body_of (host.user_properties user_name)
  algorithm ← text_of (lookup "Algorithm" user_props)
  encryption ← text_of (lookup "Encryption" user_props)
  encrypted_password ← text_of (lookup "Password" user_props)
  if is_empty (decrypt_string host.ssl host.key_files encrypted_password)
      then none
      else some (algorithm, encryption, decrypt_string host.ssl host.key_files encrypted_password)

-- The manager of the community, for the types 0 and 1.
unfoldable pub community_manager : ℕ → String → String → Option ManagerProperty
community_manager type peer community =
    if is_empty community
    then none
    else some (record {
      ipaddress = peer;
      version = if type == 0 then "v1" else "v2c";
      community = community;
      user_name = "";
      algorithm = "";
      encryption = "";
      password = "";
    })

-- The manager of the user, for the type 2.
unfoldable pub user_manager : Host → String → String → Option ManagerProperty
user_manager host peer user_name =
    if is_empty user_name
    then none
    else load_snmp_v3_user host user_name >>= λ user. some (record {
      ipaddress = peer;
      version = "v3";
      community = "";
      user_name = user_name;
      algorithm = user.0;
      encryption = user.1;
      password = user.2;
    })

unfoldable pub manager_at : Host → ℕ → String → String → List String → ℕ → Option ManagerProperty
manager_at host type peer community user_names index =
    if is_empty peer
    then none
    else if type == 0 || type == 1
    then community_manager type peer community
    else if type == 2
    then get_elem? user_names index >>= user_manager host peer
    else none

-- `rawAddress`; a type 3 has returned before.
unfoldable pub raw_address : ℕ → ℕ → List String → List String → ℕ → Option String
raw_address type address_type ipv4 ipv6 index =
    if type == 3
    then none
    else if address_type == 1
    then get_elem? ipv4 index
    else if address_type == 2
    then get_elem? ipv6 index
    else none

-- The manager of the configuration of an interface. Every early return and every exception leaves the list
-- of managers empty, as `push_back` comes last.
unfoldable pub selected_manager : Host → LanConfig → ℕ → Option ManagerProperty
selected_manager host cfg destination_sel = do
  types ← read_array cfg.types
  address_types ← read_array cfg.address_types
  ipv4 ← read_array cfg.ipv4
  ipv6 ← read_array cfg.ipv6
  user_names ← read_array cfg.user_names
  community ← cfg.community
  type ← get_elem? types (entry_index destination_sel)
  address_type ← get_elem? address_types (entry_index destination_sel)
  address ← raw_address (type % 256) (address_type % 256) ipv4 ipv6 (entry_index destination_sel)
  manager_at host (type % 256) (format_peer_address address (address_type % 256)) community
      user_names (entry_index destination_sel)

abbrev pub list_of : {A : Type 0} → Option A → List A
list_of none = []
list_of (some a) = a ∷ []

unfoldable pub find_manager : Host → ℕ → ℕ → Option ManagerProperty
find_manager host channel_no destination_sel = do
  iface ← find_channel channel_no (eth_map host.channel_map)
  cfg ← lan_config host.lan_file iface
  selected_manager host cfg destination_sel

-- `getManagers`, once the bus is open; both filters are given.
unfoldable pub get_managers : Host → ℕ → ℕ → List ManagerProperty
get_managers host channel_no destination_sel =
    list_of (find_manager host channel_no destination_sel)

unfoldable pub is_version_disabled : DisableStatus → String → Bool
is_version_disabled status version =
    if version === "v1"
    then status.v1
    else if version === "v2c"
    then status.v2c
    else if version === "v3"
    then status.v3
    else false

-- One round of the loop: whether it sends.
unfoldable pub send_to : Host → ManagerProperty → Bool
send_to host m =
    if is_version_disabled (get_snmp_disable_status host.snmp_conf) m.version
    then false
    else deliver_in host.net host.notification (session_of host.net m)

-- `trapSent` after the loop.
unfoldable pub send_to_all : Host → List ManagerProperty → Bool → Bool
send_to_all host [] trap_sent = trap_sent
send_to_all host (m ∷ managers) trap_sent = send_to_all host managers (trap_sent || send_to host m)

unfoldable pub send_trap : Host → ℕ → ℕ → Bool
send_trap host channel_no destination_sel =
    if not (get_trap_enabled host.trap_status)
    then false
    else if not host.opens
    then false
    else send_to_all host (get_managers host channel_no destination_sel) false

-- `sendOBMCErrorNotification`: a notification made of the arguments is sent.
unfoldable pub send_obmc_error_notification : Host → ErrorNotification → ℕ → ℕ → Bool
send_obmc_error_notification host notification channel_no destination_sel =
    send_trap (record host { notification = notification }) channel_no destination_sel

-- `clock_gettime`: `none` where it fails.
unfoldable pub get_system_uptime_ticks : Option (ℕ × ℕ) → ℕ
get_system_uptime_ticks none = 0
get_system_uptime_ticks (some (tv_sec, tv_nsec)) =
    let ticks : ℕ = tv_sec * 100 + tv_nsec / 10000000 in
    if ltb (2 ^ 32 - 1) ticks then 2 ^ 32 - 1 else ticks
