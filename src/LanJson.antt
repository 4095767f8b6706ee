-- ===== src/LanJson.antt =====
-- src/pef_config.cpp: the LAN file, and `updateLanParamConfigValue`, which keeps each new value in it.
use platform_event_filter.Common.{ℕ, if◌then◌else◌, Bool, Option, none, some, List, String, ◌===◌}
use platform_event_filter.Common.Int.{ℤ}
use platform_event_filter.Tables.{Cell}

-- A value of the file: texts and numbers, and arrays of them; an array with other elements is `mixed`. A
-- number or boolean is the integer that it converts to.
pub data Saved : Type 0 where
  null : Saved
  number : ℤ → Saved
  text : String → Saved
  numbers : List ℕ → Saved
  texts : List String → Saved
  mixed : List Cell → Saved

-- The "Config" of an interface, by key.
abbrev pub Config : Type 0
Config = String → Option Saved

-- What stands under the name of an interface: nothing, an object without a "Config", or one with it.
abbrev pub Container : Type 0
Container = String → Option (Option Config)

-- The file: the object "Interfaces", if there is one, and the top level.
pub record LanJson : Type 0 where
  pub interfaces : Option Container
  pub top : Container

unfoldable pub put_value : String → Saved → Config → Config
put_value prop value config = λ p. if p === prop then some value else config p

-- `["Config"]`, which makes what is not there.
unfoldable pub config_in : Option (Option Config) → Config
config_in none = λ p. none
config_in (some none) = λ p. none
config_in (some (some config)) = config

-- `container[interface]["Config"][prop] = value`
unfoldable pub put_config : String → String → Saved → Container → Container
put_config iface prop value container = λ i.
    if i === iface
    then some (some (put_value prop value (config_in (container iface))))
    else container i

abbrev no_config : Container
no_config i = none

unfoldable pub put_container : String → String → Saved → Option Container → Container → LanJson
put_container iface prop value (some container) top = record {
  interfaces = some (put_config iface prop value container);
  top = top;
}
put_container iface prop value none top = record {
  interfaces = none;
  top = put_config iface prop value top;
}

unfoldable pub put_lan_json : String → String → Saved → LanJson → LanJson
put_lan_json iface prop value file = put_container iface prop value file.interfaces file.top

-- A file that cannot be read counts as empty; one that cannot be opened for writing stays.
unfoldable pub update_lan_param_config_value :
    Bool → String → String → Saved → Option LanJson → Option LanJson
update_lan_param_config_value opened iface prop value none =
    if opened
    then some (put_lan_json iface prop value (record { interfaces = none; top = no_config }))
    else none
update_lan_param_config_value opened iface prop value (some file) =
    if opened then some (put_lan_json iface prop value file) else some file

-- The object that the interfaces stand in.
abbrev pub container_of : Option Container → Container → Container
container_of (some container) top = container
container_of none top = top

abbrev pub container : LanJson → Container
container file = container_of file.interfaces file.top

unfoldable pub saved_at : String → String → LanJson → Option Saved
saved_at iface prop file = config_in (container file iface) prop
