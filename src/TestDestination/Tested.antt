-- ===== src/TestDestination/Tested.antt =====
-- src/pef_config.cpp: what `TestDestination` tested where it succeeds.
use platform_event_filter.Common.{
  ℕ, ◌+◌, ◌-◌, ◌%◌, ◌<◌, ◌≤◌, ◌≡◌, refl, ap, ◌∙◌, inl, inr, arith, Option-cases, true, Option, none,
  some, List, String, get_elem?,
}
use platform_event_filter.Notification.{LanConfig, lan_config}
use platform_event_filter.TestDestination.{
  TestHost, get_interface_name_for_channel_for_test, test_type, test_config, test_interface,
  dispatch_test_destination, allowed_channel, test_selector, test_destination,
}

-- The entry that a test for a selector used: the one at the selector itself, counted from 0, of a type that
-- is SNMP or SMTP.
pub record Tested (host : TestHost) (channel_no destination_sel : ℕ) : Type 0 where
  pub channel_bound : channel_no ≤ 15
  pub selector_bound : destination_sel < 14
  pub iface : String
  pub channel : get_interface_name_for_channel_for_test host channel_no ≡ some iface
  pub cfg : LanConfig
  pub config : lan_config host.lan_file iface ≡ some cfg
  pub types : List (Option ℕ)
  pub has_types : cfg.types ≡ some types
  pub type : ℕ
  pub entry : get_elem? types destination_sel ≡ some (some type)
  pub is_known : type % 256 ≤ 3

module _ (host : TestHost) (channel_no : ℕ) where
  type_tested :
      (cfg : LanConfig) (o : Option (Option ℕ)) (destination_sel : ℕ)
      → test_type host cfg o channel_no destination_sel ≡ true
      → (type : ℕ) × (o ≡ some (some type)) × (type % 256 ≤ 3)
  unfolding test_type
  type_tested cfg none destination_sel h = cc
  type_tested cfg (some none) destination_sel h = cc
  type_tested cfg (some (some type)) destination_sel h = (type, refl, ground arith)

  config_tested :
      (o : Option LanConfig) (destination_sel : ℕ)
      → test_config host o channel_no destination_sel ≡ true
      → (cfg : LanConfig) × (o ≡ some cfg)
        × ((types : List (Option ℕ)) × (cfg.types ≡ some types)
            × (test_type host cfg (get_elem? types (destination_sel - 1)) channel_no destination_sel
                ≡ true))
  unfolding test_config
  config_tested none destination_sel h = cc
  config_tested (some cfg) destination_sel h = elim (Option-cases cfg.types) [
    | inl e ↦ absurd (ground arith)
    | inr (types, e) ↦ (cfg, refl, (types, e, rw (e) at h))
  ]

  interface_tested :
      (o : Option String) (destination_sel : ℕ)
      → test_interface host o channel_no destination_sel ≡ true
      → (iface : String) × (o ≡ some iface)
        × (test_config host (lan_config host.lan_file iface) channel_no destination_sel ≡ true)
  unfolding test_interface
  interface_tested none destination_sel h = cc
  interface_tested (some iface) destination_sel h = (iface, refl, h)

  selector_tested :
      (destination_sel : ℕ)
      → test_selector host channel_no destination_sel ≡ true
      → (destination_sel < 15)
        × (1 ≤ destination_sel)
        × (test_interface host
              (get_interface_name_for_channel_for_test host channel_no)
              channel_no
              destination_sel
            ≡ true)
  unfolding test_selector dispatch_test_destination
  selector_tested destination_sel h = ground arith

  allowed_tested :
      (destination_sel : ℕ)
      → test_destination host channel_no destination_sel ≡ true
      → (channel_no ≤ 15) × (test_selector host channel_no ((destination_sel + 1) % 256) ≡ true)
  unfolding test_destination
  allowed_tested destination_sel h = elim (Option-cases (allowed_channel host channel_no)) [
    | inl e ↦ absurd (ground arith)
    | inr (iface, e) ↦ ground arith
  ]

  -- For a selector that is a byte, a test that succeeds was for a channel up to 15 and a selector below
  -- 14, and the entry at the selector has an SNMP or SMTP type.
  pub test_destination-Tested :
      (destination_sel : ℕ)
      → destination_sel < 256
      → test_destination host channel_no destination_sel ≡ true
      → Tested host channel_no destination_sel
  test_destination-Tested destination_sel b h =
      let (bound, selected) = allowed_tested destination_sel h in
      let sel : ℕ = (destination_sel + 1) % 256 in
      let (low, high, at_iface) = selector_tested sel selected in
      let (iface, channel, at_config) = interface_tested _ sel at_iface in
      let (cfg, config, (types, has_types, at_type)) = config_tested _ sel at_config in
      let (type, entry, known) = type_tested cfg (get_elem? types (sel - 1)) sel at_type in
      record {
        channel_bound = bound;
        selector_bound = omega arith;
        iface = iface;
        channel = channel;
        cfg = cfg;
        config = config;
        types = types;
        has_types = has_types;
        type = type;
        entry = ap (get_elem? types) {y = sel - 1} (omega arith) ∙ entry;
        is_known = known;
      }
