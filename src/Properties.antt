-- ===== src/Properties.antt =====
-- src/pef_config.cpp, `parsePefConfToDbus`: the setters of the array properties of the event filter and
-- alert policy lists. A setter takes or refuses a vector; what it takes becomes the property.
pub mod Values
pub mod Writes
use platform_event_filter.Common.{
  ℕ, ◌+◌, ◌-◌, ◌/◌, ◌%◌, ◌^◌, bit_and, ltb, ◌==◌, ◌!=◌, ◌||◌, ◌&&◌, not, if◌then◌else◌, Bool, true,
  false, Option, none, some, List, [], ◌∷◌, String, ◌===◌,
}
use platform_event_filter.Exec.{Exec, pure, throw, ask, sdbus_error, catch_sdbus, ◌>>=◌, ◌>>◌}
use platform_event_filter.Bus.{Bus}
use platform_event_filter.Bus.Calls.{call, read}
use platform_event_filter.Channels.{is_eth}
use platform_event_filter.SensorNumber.{SensorNumMap}
use platform_event_filter.SensorTypes.{SensorType, sensor_types}

-- `for (v : value) if (…) return false;`
unfoldable pub all_valid : {A : Type 0} → (A → Bool) → List A → Bool
all_valid valid [] = true
all_valid valid (v ∷ value) = let rest = all_valid valid value in if valid v then rest else false

abbrev event_filter_table_max_entry : ℕ
event_filter_table_max_entry = 40

unfoldable pub valid_table_entry : ℕ → Bool
valid_table_entry entry =
    if entry == 0 then false else if ltb event_filter_table_max_entry entry then false else true

abbrev filter_config_reserved_bits : ℕ
filter_config_reserved_bits = 0x1F

unfoldable pub valid_filter_config : ℕ → Bool
valid_filter_config config =
    if bit_and config filter_config_reserved_bits != 0
    then false
    else if bit_and (config / 2 ^ 5) 0x3 == 0x3
    then false
    else if bit_and (config / 2 ^ 5) 0x3 == 0x1
    then false
    else true

-- evtFilterActionMaxValue, alertPolicyNumMaxValue
abbrev seven_bits : ℕ
seven_bits = 0x7F

unfoldable pub valid_filter_action : ℕ → Bool
valid_filter_action action = if ltb seven_bits action then false else true

unfoldable pub valid_policy_num : ℕ → Bool
valid_policy_num policy_num = if ltb seven_bits policy_num then false else true

-- `~severity + 1`, of an `int` of 32 bits.
abbrev negated : ℕ → ℕ
negated n = (2 ^ 32 - 1 - n + 1) % 2 ^ 32

unfoldable pub valid_severity : ℕ → Bool
valid_severity severity =
    if (bit_and (negated severity) severity != severity) || ltb 0x20 severity then false else true

-- The loop over `sensorTypes`.
unfoldable pub has_code : ℕ → List SensorType → Bool
has_code type [] = false
has_code type (t ∷ types) = let rest = has_code type types in if t.code == type then true else rest

unfoldable pub valid_sensor_type : ℕ → Bool
valid_sensor_type type =
    if (type == 0x00) || (type == 0xFF) then true else has_code type sensor_types

-- `left.find(num) != left.end()`
unfoldable pub has_number : ℕ → SensorNumMap → Bool
has_number num [] = false
has_number num ((n, path) ∷ rest) =
    let more = has_number num rest in if n == num then true else more

unfoldable pub valid_sensor_num : SensorNumMap → ℕ → Bool
valid_sensor_num map num = if num == 0xFF then true else has_number num map

-- Without a sensor map every vector is refused.
unfoldable pub valid_sensor_nums : Option SensorNumMap → List ℕ → Bool
valid_sensor_nums none value = false
valid_sensor_nums (some map) value = all_valid (valid_sensor_num map) value

-- The setters of the event filter lists by property; a property without a setter takes any vector.
unfoldable pub valid_event_filter : Option SensorNumMap → String → List ℕ → Bool
valid_event_filter sensors property value =
    if property === "EventFilterTableEntry"
    then all_valid valid_table_entry value
    else if property === "FilterConfig"
    then all_valid valid_filter_config value
    else if property === "EvtFilterAction"
    then all_valid valid_filter_action value
    else if property === "AlertPolicyNum"
    then all_valid valid_policy_num value
    else if property === "EventSeverity"
    then all_valid valid_severity value
    else if property === "SensorType"
    then all_valid valid_sensor_type value
    else if property === "SensorNum"
    then valid_sensor_nums sensors value
    else true

-- The alert policy lists.
unfoldable pub valid_group_num : ℕ → Bool
valid_group_num group_num = if (group_num == 0) || ltb 15 group_num then false else true

unfoldable pub valid_enable_alert : ℕ → Bool
valid_enable_alert enable = if ltb 1 enable then false else true

unfoldable pub valid_policy_action : ℕ → Bool
valid_policy_action action = if ltb 4 action then false else true

unfoldable pub valid_destination_sel : ℕ → Bool
valid_destination_sel dest_sel = if ltb 15 dest_sel then false else true

-- The setters of the alert policy lists that ask no other service.
unfoldable pub valid_alert_policy : String → List ℕ → Bool
valid_alert_policy property value =
    if property === "AlertPolicyGroupNum"
    then all_valid valid_group_num value
    else if property === "EnableAlert"
    then all_valid valid_enable_alert value
    else if property === "PolicyAction"
    then all_valid valid_policy_action value
    else if property === "DestinationSel"
    then all_valid valid_destination_sel value
    else true

-- The channel is in the map, and its interface is a LAN interface.
unfoldable pub names_eth : ℕ → List (ℕ × String) → Bool
names_eth channel_no [] = false
names_eth channel_no ((channel, iface) ∷ rest) =
    let more = names_eth channel_no rest in
    if channel == channel_no then is_eth (channel, iface) else more

-- The setter of ChannelNo: it asks the user manager for the channels once for each value.
module _ (bus : Bus) where
  unfoldable pub open_default : Exec (Unit {0})
  open_default = do opened ← ask bus.opens; if opened then pure tt else throw sdbus_error

  unfoldable pub valid_channel : ℕ → Exec Bool
  valid_channel channel_no =
      if ltb 15 channel_no
      then pure false
      else catch_sdbus
          (do
            open_default
            reply ← call bus.channel_map
            channel_map ← read reply
            pure (names_eth channel_no channel_map))
          (pure false)

  unfoldable pub valid_channels : List ℕ → Exec Bool
  valid_channels [] = pure true
  valid_channels (channel_no ∷ value) = do
    valid ← valid_channel channel_no
    if valid then valid_channels value else pure false
