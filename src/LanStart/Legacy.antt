-- ===== src/LanStart/Legacy.antt =====
-- src/pef_config.cpp: a LAN interface whose configuration stands in a file of its own, as the LAN file does not
-- name it; the first write names it there.
use platform_event_filter.Common.{◌≡◌, refl, true, false, Bool, Option, none, some, String}
use platform_event_filter.LanJson.{
  LanJson, Config, container, config_in, put_value, put_lan_json, update_lan_param_config_value,
}
use platform_event_filter.LanProperties.{Lan, Answers, Request, set_property, handle}
use platform_event_filter.LanProperties.Steps.{key_of, value_of}
use platform_event_filter.LanStart.{
  Shown, chosen, start_config, start_lan, show_lan, with_community, with_count, community_of,
  count_of, shown_arrays, has_flat_arrays, is_array,
}
use platform_event_filter.LanStart.Values.{with_value}
use platform_event_filter.LanStart.Restart.{set_property-form, named-put}

-- The LAN file cannot be read, or does not name the interface.
abbrev pub IsUnnamed : String → Option LanJson → Type 0
IsUnnamed iface none = Unit
IsUnnamed iface (some file) = container file iface ≡ none

-- A start with a single value shows no vectors.
single_shown :
    (r : Request)
    → (c : String) × (show_lan (put_value (key_of r) (value_of r) (config_in none))
        ≡ Shown.basic c 0)
unfolding show_lan with_community with_count shown_arrays has_flat_arrays is_array community_of
    count_of put_value config_in key_of value_of
single_shown (Request.set_community_string v) = (v, refl)
single_shown (Request.set_ipv4 v) = ("", refl)
single_shown (Request.set_ipv6 v) = ("", refl)
single_shown (Request.set_user_name v) = ("", refl)
single_shown (Request.set_types v) = ("", refl)
single_shown (Request.set_timeout v) = ("", refl)
single_shown (Request.set_retries v) = ("", refl)
single_shown (Request.set_address_type v) = ("", refl)

module _ (iface : String) (legacy : String → Option (Option Config)) where
  single_start :
      (r : Request) (file : LanJson)
      → container file iface ≡ none
      → (c : String) × (start_lan
            (some (put_lan_json iface (key_of r) (value_of r) file))
            legacy
            iface
          ≡ Shown.basic c 0)
  unfolding start_lan start_config chosen config_in
  single_start r file h =
      let (c, e) = single_shown r in
      (c, rw (named-put iface (key_of r) (value_of r) file, chosen, config_in, h, config_in) e)

  taken_start :
      (answers : Answers) (valid : Bool) (r : Request) (s : Lan)
      → IsUnnamed iface s.file
      → answers.opened ≡ true
      → (set_property iface answers valid (with_value r s.properties) (key_of r) (value_of r) s).0
        ≡ true
      → (c : String) × (start_lan
            (set_property iface answers valid
              (with_value r s.properties)
              (key_of r)
              (value_of r)
              s).1.file
            legacy
            iface
          ≡ Shown.basic c 0)
  unfolding set_property update_lan_param_config_value
  taken_start answers false r s h e t = absurd (cc)
  taken_start answers true r s h e t = written s.file h
    where
      written :
          (file : Option LanJson)
          → IsUnnamed iface file
          → (c : String) × (start_lan
                (update_lan_param_config_value answers.opened iface (key_of r) (value_of r) file)
                legacy
                iface
              ≡ Shown.basic c 0)
      written none u = rw (e) (single_start r _ refl)
      written (some file) u = rw (e) (single_start r file u)

  -- Where the LAN file does not name an interface, whatever its own file has: after a write that is taken, and
  -- that the LAN file opens for, a later start shows no vectors and no destinations.
  pub handle-start_lan :
      (answers : Answers) (r : Request) (s : Lan)
      → IsUnnamed iface s.file
      → answers.opened ≡ true
      → (handle iface answers r s).0 ≡ true
      → (c : String) × (start_lan (handle iface answers r s).1.file legacy iface ≡ Shown.basic c 0)
  handle-start_lan answers r s h e t =
      let (valid, form) = set_property-form iface answers r s in
      rw (form) (taken_start answers valid r s h e (rw (form) at t))
