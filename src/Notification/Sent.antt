-- ===== src/Notification/Sent.antt =====
-- src/snmp_notification.cpp: when `sendTrap` sends a trap.
use platform_event_filter.Common.{
  ℕ, ◌%◌, ◌<◌, ◌≡◌, refl, ap, inl, inr, arith, Bool-cases, if◌then◌else◌, Bool, true, false, Option,
  none, some, List, String, get_elem?,
}
use platform_event_filter.Common.Options.{>>=-some}
use platform_event_filter.Notification.{
  format_peer_address, get_snmp_disable_status, get_trap_enabled, LanConfig, lan_config,
  ManagerProperty, read_array, entry_index,
}
use platform_event_filter.Notification.Managers.{
  Host, eth_map, find_channel, manager_at, raw_address, selected_manager, find_manager,
  get_managers, is_version_disabled, send_to, send_to_all, send_trap, list_of,
}
use platform_event_filter.Notification.Fields.{ErrorNotification}
use platform_event_filter.Notification.Session.{NetSnmp, found_user, session_of, deliver_in}

-- Why a trap for a channel and a destination selector was sent.
pub record Sent (host : Host) (channel_no destination_sel : ℕ) : Type 0 where
  pub enabled : host.trap_status ≡ some true
  pub iface : String
  pub channel : find_channel channel_no (eth_map host.channel_map) ≡ some iface
  pub cfg : LanConfig
  pub config : lan_config host.lan_file iface ≡ some cfg
  pub types : List ℕ
  pub readable : read_array cfg.types ≡ some types
  pub type : ℕ
  pub entry : get_elem? types (entry_index destination_sel) ≡ some type
  pub is_snmp : type % 256 < 3
  pub manager : ManagerProperty
  pub found : find_manager host channel_no destination_sel ≡ some manager
  pub not_disabled :
      is_version_disabled (get_snmp_disable_status host.snmp_conf) manager.version ≡ false
  pub in_group : manager.version ≡ "v3" → found_user host.net.snmp_group manager.user_name ≡ true

manager_at-is_snmp :
    (host : Host) (type : ℕ) (peer community : String) (user_names : List String) (index : ℕ)
    {m : ManagerProperty}
    → manager_at host type peer community user_names index ≡ some m
    → type < 3
unfolding manager_at
manager_at-is_snmp host type peer community user_names index h = ground arith

after_guard : (a b : Bool) → (if a then false else b) ≡ true → b ≡ true
after_guard a b h = ground arith

-- Only a member of the group gets a v3 session.
session-in_group :
    (net : NetSnmp) (n : ErrorNotification) (m : ManagerProperty)
    → m.version ≡ "v3"
    → deliver_in net n (session_of net m) ≡ true
    → found_user net.snmp_group m.user_name ≡ true
unfolding session_of deliver_in
session-in_group net n m v3 h = elim (Bool-cases (found_user net.snmp_group m.user_name)) [
  | inl e ↦ e
  | inr e ↦ let none_left : false ≡ true = rw (v3, e) at h in absurd cc
]

module _ (host : Host) (channel_no destination_sel : ℕ) where
  -- The configuration entry that the manager was made from.
  selected_type :
      (cfg : LanConfig) {m : ManagerProperty}
      → selected_manager host cfg destination_sel ≡ some m
      → (types : List ℕ) × (read_array cfg.types ≡ some types)
        × ((type : ℕ) × (get_elem? types (entry_index destination_sel) ≡ some type)
            × (type % 256 < 3))
  unfolding selected_manager
  selected_type cfg h =
      let (types, types_read, h1) = >>=-some (read_array cfg.types) _ h in
      let (address_types, r2, h2) = >>=-some (read_array cfg.address_types) _ h1 in
      let (ipv4, r3, h3) = >>=-some (read_array cfg.ipv4) _ h2 in
      let (ipv6, r4, h4) = >>=-some (read_array cfg.ipv6) _ h3 in
      let (user_names, r5, h5) = >>=-some (read_array cfg.user_names) _ h4 in
      let (community, r6, h6) = >>=-some cfg.community _ h5 in
      let (type, type_read, h7) = >>=-some (get_elem? types (entry_index destination_sel)) _ h6 in
      let (address_type, r8, h8) =
        >>=-some (get_elem? address_types (entry_index destination_sel)) _ h7 in
      let (address, r9, h9) =
        >>=-some
          (raw_address (type % 256) (address_type % 256) ipv4 ipv6 (entry_index destination_sel)) _
          h8 in
      (
        types,
        types_read,
        (
          type,
          type_read,
          manager_at-is_snmp host (type % 256) (format_peer_address address (address_type % 256))
              community user_names (entry_index destination_sel) h9,
        ),
      )

  sent_to_one :
      (o : Option ManagerProperty)
      → send_to_all host (list_of o) false ≡ true
      → (m : ManagerProperty) × (o ≡ some m) × (send_to host m ≡ true)
  unfolding send_to_all
  sent_to_one none h = cc
  sent_to_one (some m) h = (m, refl, h)

  send_to-not_disabled :
      (m : ManagerProperty)
      → send_to host m ≡ true
      → is_version_disabled (get_snmp_disable_status host.snmp_conf) m.version ≡ false
  unfolding send_to
  send_to-not_disabled m h = ground arith

  sent_to-in_group :
      (m : ManagerProperty)
      → send_to host m ≡ true
      → m.version ≡ "v3"
      → found_user host.net.snmp_group m.user_name ≡ true
  unfolding send_to
  sent_to-in_group m h v3 = session-in_group host.net host.notification m v3 (after_guard _ _ h)

  trap_enabled : (o : Option Bool) → get_trap_enabled o ≡ true → o ≡ some true
  unfolding get_trap_enabled
  trap_enabled none h = cc
  trap_enabled (some b) h = ap some h

  sent_parts :
      send_trap host channel_no destination_sel ≡ true
      → (get_trap_enabled host.trap_status ≡ true)
        × (send_to_all host (get_managers host channel_no destination_sel) false ≡ true)
  unfolding send_trap
  sent_parts h = ground arith

  -- A trap that is sent was enabled by the host, and by the entry that was selected: the channel has an
  -- interface with a configuration, whose type at the selector is an SNMP version that is not disabled.
  -- A v3 trap is only sent for a user in the group "snmp".
  pub send_trap-Sent :
      send_trap host channel_no destination_sel ≡ true → Sent host channel_no destination_sel
  unfolding find_manager get_managers
  send_trap-Sent h =
      let (on, sent) = sent_parts h in
      let (m, found, to_one) = sent_to_one (find_manager host channel_no destination_sel) sent in
      let (iface, channel, h1) =
        >>=-some (find_channel channel_no (eth_map host.channel_map)) _ found in
      let (cfg, config, h2) = >>=-some (lan_config host.lan_file iface) _ h1 in
      let (types, readable, (type, entry, is_snmp)) = selected_type cfg h2 in
      record {
        enabled = trap_enabled host.trap_status on;
        iface = iface;
        channel = channel;
        cfg = cfg;
        config = config;
        types = types;
        readable = readable;
        type = type;
        entry = entry;
        is_snmp = is_snmp;
        manager = m;
        found = found;
        not_disabled = send_to-not_disabled m to_one;
        in_group = sent_to-in_group m to_one;
      }
