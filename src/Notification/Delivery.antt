-- ===== src/Notification/Delivery.antt =====
-- src/snmp_notification.cpp: the uptime that a trap carries, and a host on which `sendTrap` sends one.
use platform_event_filter.Common.{
  ℕ, ◌%◌, ◌*◌, ◌+◌, ◌/◌, ◌^◌, ◌<◌, ◌≡◌, refl, ap, inl, inr, arith, ◌==◌, ◌||◌, ◌&&◌, ◌∙◌, not,
  Bool-cases, if◌then◌else◌, Bool, true, false, some, List, String, is_empty, get_elem?,
}
use platform_event_filter.Notification.{
  format_peer_address, get_snmp_disable_status, get_trap_enabled, LanConfig, lan_config,
  ManagerProperty, read_array, entry_index,
}
use platform_event_filter.Notification.Managers.{
  Host, eth_map, find_channel, community_manager, manager_at, raw_address, selected_manager,
  find_manager, get_managers, is_version_disabled, send_to, send_to_all, send_trap,
  get_system_uptime_ticks, list_of,
}
use platform_event_filter.Notification.LocalName.{local_name}
use platform_event_filter.Notification.Fields.{
  ErrorNotification, all_taken, get_trap_oid, get_field_oid_list, get_field_oid_list_lem,
}
use platform_event_filter.Notification.Session.{
  NetSnmp, Session, v1_session, v2c_session, session_of, deliver, deliver_in, all_added,
}

-- The ticks fit 32 bits, and are the time where it does.
pub get_system_uptime_ticks_bound :
    (tv_sec tv_nsec : ℕ)
    → tv_nsec < 1000000000
    → (get_system_uptime_ticks (some (tv_sec, tv_nsec)) < 2 ^ 32)
      × (tv_sec < 42949672
          → get_system_uptime_ticks (some (tv_sec, tv_nsec)) ≡ tv_sec * 100 + tv_nsec / 10000000)
unfolding get_system_uptime_ticks
get_system_uptime_ticks_bound tv_sec tv_nsec h = (ground arith, λ small. ground arith)

-- A host that is set up for one entry: an SNMPv1 or v2c destination with an IPv4 address.
pub record Ready (host : Host) (channel_no destination_sel : ℕ) : Type 0 where
  pub enabled : host.trap_status ≡ some true
  pub opens : host.opens ≡ true
  pub iface : String
  pub channel : find_channel channel_no (eth_map host.channel_map) ≡ some iface
  pub cfg : LanConfig
  pub config : lan_config host.lan_file iface ≡ some cfg
  pub types : List ℕ
  pub types_read : read_array cfg.types ≡ some types
  pub address_types : List ℕ
  pub address_types_read : read_array cfg.address_types ≡ some address_types
  pub ipv4 : List String
  pub ipv4_read : read_array cfg.ipv4 ≡ some ipv4
  pub ipv6 : List String
  pub ipv6_read : read_array cfg.ipv6 ≡ some ipv6
  pub user_names : List String
  pub user_names_read : read_array cfg.user_names ≡ some user_names
  pub community : String
  pub community_read : cfg.community ≡ some community
  pub named : is_empty community ≡ false
  pub type : ℕ
  pub entry : get_elem? types (entry_index destination_sel) ≡ some type
  pub is_community : type < 2
  pub is_ipv4 : get_elem? address_types (entry_index destination_sel) ≡ some 1
  pub address : String
  pub addressed : get_elem? ipv4 (entry_index destination_sel) ≡ some address
  pub reachable : is_empty (format_peer_address address 1) ≡ false
  pub v1_enabled : (get_snmp_disable_status host.snmp_conf).v1 ≡ false
  pub v2c_enabled : (get_snmp_disable_status host.snmp_conf).v2c ≡ false

-- Whether net-snmp takes the session, the PDU, the uptime, the identifier of the trap and every object of the
-- notification, and sends the PDU.
unfoldable pub net_takes : NetSnmp → ErrorNotification → Session → Bool
net_takes net n s =
    net.add_session (local_name n.event_subject_sn) s
    && (net.create_pdu s
        && (net.add_uptime s
            && (net.add_trap_oid s get_trap_oid
                && (all_taken (net.add_variable s) (get_field_oid_list n) && net.send s))))

-- The session of an entry: SNMPv1 for the type 0, v2c for another, and an IPv4 address.
abbrev pub entry_session : ℕ → String → String → Session
entry_session type address community =
    if type == 0
    then v1_session (format_peer_address address 1) community
    else v2c_session (format_peer_address address 1) community

stages :
    (a b c d e f : Bool)
    → (if not a
        then false
        else if not b
        then false
        else if not c
        then false
        else if not d
        then false
        else if not e
        then false
        else f)
      ≡ (a && (b && (c && (d && (e && f)))))
stages false b c d e f = refl
stages true false c d e f = refl
stages true true false d e f = refl
stages true true true false e f = refl
stages true true true true false f = refl
stages true true true true true f = refl

deliver_lem :
    (net : NetSnmp) (n : ErrorNotification) (s : Session) → deliver net n s ≡ net_takes net n s
unfolding deliver net_takes all_added
deliver_lem net n s = rw ((get_field_oid_list_lem (net.add_variable s) n).1) (
    stages (net.add_session (local_name n.event_subject_sn) s) (net.create_pdu s) (net.add_uptime s)
      (net.add_trap_oid s get_trap_oid) (all_taken (net.add_variable s) (get_field_oid_list n))
      (net.send s))

guards_hold :
    (a b c : Bool) → a ≡ true → b ≡ true → (if not a then false else if not b then false else c) ≡ c
guards_hold a b c x y = ground arith

module _ (host : Host) (channel_no destination_sel : ℕ)
    (r : Ready host channel_no destination_sel) where
  ready_manager : ManagerProperty
  ready_manager = record {
    ipaddress = format_peer_address r.address 1;
    version = if r.type == 0 then "v1" else "v2c";
    community = r.community;
    user_name = "";
    algorithm = "";
    encryption = "";
    password = "";
  }

  selected_ready : selected_manager host r.cfg destination_sel ≡ some ready_manager
  unfolding selected_manager ready_manager raw_address manager_at community_manager
  selected_ready =
      let byte : r.type % 256 ≡ r.type = omega (arith, r.is_community) in
      let not_mail : (r.type == 3) ≡ false = ground (arith, r.is_community) in
      let by_community : (r.type == 0 || r.type == 1) ≡ true = ground (arith, r.is_community) in
      rw
        (
          r.types_read, r.address_types_read, r.ipv4_read, r.ipv6_read, r.user_names_read,
          r.community_read, r.entry, r.is_ipv4, byte, not_mail, r.addressed, r.reachable,
          by_community, r.named,
        )
        refl

  send_to_ready :
      send_to host ready_manager
      ≡ net_takes host.net host.notification (entry_session r.type r.address r.community)
  unfolding send_to ready_manager is_version_disabled session_of deliver_in
  send_to_ready = elim (Bool-cases (r.type == 0)) [
    | inl e ↦ rw (e, r.v1_enabled) (deliver_lem host.net host.notification _)
    | inr e ↦ rw (e, r.v2c_enabled) (deliver_lem host.net host.notification _)
  ]

  found_ready : find_manager host channel_no destination_sel ≡ some ready_manager
  unfolding find_manager
  found_ready = rw (r.channel, r.config) selected_ready

  pub Ready-send_trap :
      send_trap host channel_no destination_sel
      ≡ net_takes host.net host.notification (entry_session r.type r.address r.community)
  unfolding send_trap get_managers get_trap_enabled send_to_all
  Ready-send_trap =
      guards_hold (get_trap_enabled host.trap_status) host.opens
        (send_to_all host (list_of (find_manager host channel_no destination_sel)) false)
        (ap get_trap_enabled r.enabled) r.opens
      ∙ rw (found_ready) send_to_ready
