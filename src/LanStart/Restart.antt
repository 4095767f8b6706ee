-- ===== src/LanStart/Restart.antt =====
-- src/pef_config.cpp: a LAN interface that the service showed at its start, after writes of its properties:
-- what a later start shows.
use platform_event_filter.Common.{
  ℕ, ◌≡◌, refl, Bool, true, false, Option, none, some, String, eq_iff,
}
use platform_event_filter.LanJson.{
  Saved, Config, Container, LanJson, container, container_of, config_in, put_value, put_config,
  put_container, put_lan_json, update_lan_param_config_value,
}
use platform_event_filter.LanProperties.{Lan, Answers, Request, set_property, handle}
use platform_event_filter.LanStart.{chosen, start_config, Shown, start_lan}
use platform_event_filter.LanProperties.Steps.{key_of, value_of}
use platform_event_filter.LanStart.Keys.{IsShown, show_lan-full, full-IsShown}
use platform_event_filter.LanStart.Values.{with_value, Fits, put_value-IsShown}

module _ (iface : String) where
  -- The file names the interface, and its configuration is shown.
  record IsKept (n : ℕ) (t : Lan) : Type 0 where
    file : LanJson
    is_file : t.file ≡ some file
    found : Option Config
    named : container file iface ≡ some found
    shown : IsShown (config_in (some found)) n t.properties

  -- Writes to a file that can be written, one after the other.
  pub data Writes (n : ℕ) (s : Lan) : Lan → Type 0 where
    none_yet : Writes n s s
    write :
        {t : Lan} (answers : Answers) (r : Request)
        → Writes n s t
        → answers.opened ≡ true
        → Fits n r
        → Writes n s (handle iface answers r t).1

  pub set_property-form :
      (answers : Answers) (r : Request) (s : Lan)
      → (valid : Bool) × (handle iface answers r s
          ≡ set_property iface answers valid (with_value r s.properties) (key_of r) (value_of r) s)
  unfolding handle key_of value_of
  set_property-form answers (Request.set_community_string v) s = (_, refl)
  set_property-form answers (Request.set_ipv4 v) s = (_, refl)
  set_property-form answers (Request.set_ipv6 v) s = (_, refl)
  set_property-form answers (Request.set_user_name v) s = (_, refl)
  set_property-form answers (Request.set_types v) s = (_, refl)
  set_property-form answers (Request.set_timeout v) s = (_, refl)
  set_property-form answers (Request.set_retries v) s = (_, refl)
  set_property-form answers (Request.set_address_type v) s = (_, refl)

  -- After a write the interface is named, by its configuration with the new value.
  pub named-put :
      (key : String) (value : Saved) (file : LanJson)
      → container (put_lan_json iface key value file) iface
        ≡ some (some (put_value key value (config_in (container file iface))))
  unfolding put_lan_json put_container put_config
  named-put key value file = at file.interfaces
    where
      at :
          (interfaces : Option Container)
          → container (put_container iface key value interfaces file.top) iface
            ≡ some (some (put_value key value (config_in (container_of interfaces file.top iface))))
      at none = rw ((eq_iff iface iface).1 refl) refl
      at (some c) = rw ((eq_iff iface iface).1 refl) refl

  set_property-IsKept :
      (n : ℕ) (answers : Answers) (valid : Bool) (r : Request) (s : Lan)
      → answers.opened ≡ true
      → Fits n r
      → IsKept n s
      → IsKept n
          (set_property iface answers valid (with_value r s.properties) (key_of r) (value_of r) s).1
  unfolding set_property update_lan_param_config_value config_in
  set_property-IsKept n answers false r s e h k = k
  set_property-IsKept n answers true r s e h k = record {
    file = put_lan_json iface (key_of r) (value_of r) k.file;
    is_file = rw (k.is_file, update_lan_param_config_value, e) refl;
    found = some (put_value (key_of r) (value_of r) (config_in (container k.file iface)));
    named = named-put (key_of r) (value_of r) k.file;
    shown =
        put_value-IsShown (config_in (container k.file iface)) n s.properties r h
          (rw (k.named, config_in) k.shown);
  }

  handle-IsKept :
      (n : ℕ) (answers : Answers) (r : Request) (s : Lan)
      → answers.opened ≡ true
      → Fits n r
      → IsKept n s
      → IsKept n (handle iface answers r s).1
  handle-IsKept n answers r s e h k =
      let (valid, form) = set_property-form answers r s in
      rw (form) (set_property-IsKept n answers valid r s e h k)

  Writes-IsKept : {n : ℕ} {s t : Lan} → Writes n s t → IsKept n s → IsKept n t
  Writes-IsKept none_yet k = k
  Writes-IsKept (write {t} answers r w e h) k = handle-IsKept _ answers r t e h (Writes-IsKept w k)

  -- Where the file names an interface that is shown in full, and each write has a byte or text for each
  -- destination at least and the file opens: a later start shows what the writes left.
  pub Writes-start_lan :
      (legacy : String → Option (Option Config)) (n : ℕ) {s t : Lan} (file : LanJson)
      (found : Option Config)
      → s.file ≡ some file
      → container file iface ≡ some found
      → start_lan s.file legacy iface ≡ Shown.full n s.properties
      → Writes n s t
      → start_lan t.file legacy iface ≡ Shown.full n t.properties
  unfolding start_lan start_config chosen
  Writes-start_lan legacy n {s} file found is_file named shown w =
      let before : IsKept n s = record {
        file = file;
        is_file = is_file;
        found = found;
        named = named;
        shown =
            full-IsShown (config_in (some found)) n s.properties
              (rw (is_file, start_config, named, chosen) at shown);
      } in
      let after = Writes-IsKept w before in
      rw (after.is_file, start_config, after.named, chosen)
        (show_lan-full (config_in (some after.found)) n _ after.shown)
