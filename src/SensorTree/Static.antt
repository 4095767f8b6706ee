-- ===== src/SensorTree/Static.antt =====
-- include/sdrutils.hpp, `getSensorNumMap`: the numbers of the sensors in a build with
-- `FEATURE_STATIC_SENSOR_NUMBER`, where each sensor has its number as a property.
use platform_event_filter.Common.{
  ℕ, ◌/◌, ◌%◌, Bool, false, not, ltb, ◌==◌, ◌||◌, if◌then◌else◌, Option, none, some, List, [], ◌∷◌,
  String, ◌===◌,
}
use platform_event_filter.Common.Options.{◌>>=◌}
use platform_event_filter.Bus.{Reply, Value, u8, u16, str, strs}
use platform_event_filter.Bus.Calls.{lookup}
use platform_event_filter.Notification.Managers.{body_of}
use platform_event_filter.SensorNumber.{SensorNumMap}

-- A sensor's path, and the interfaces that each of its services has for it.
abbrev pub Sensor : Type 0
Sensor = String × List (String × List String)

abbrev sensor_number_interfaces : List String
sensor_number_interfaces =
    "xyz.openbmc_project.Sensor.Value" ∷ "xyz.openbmc_project.Sensor.EventOnly"
    ∷ "xyz.openbmc_project.Sensor.State" ∷ []

unfoldable pub has_interface : String → List String → Bool
has_interface name [] = false
has_interface name (i ∷ interfaces) = name === i || has_interface name interfaces

abbrev or_else : {A : Type 0} → Option A → Option A → Option A
or_else none later = later
or_else (some a) later = some a

-- `uint8_t` or `uint16_t`.
unfoldable pub number_in : Value → Option ℕ
number_in (u8 n) = some n
number_in (u16 n) = some n
number_in (str s) = none
number_in (strs ss) = none

-- The numbers that IPMI can enumerate.
unfoldable pub is_sensor_number : ℕ → Bool
is_sensor_number n =
    not (((n == 0xFFFF) || (n % 256 == 0xFF)) || ((n / 256 % 256 == 2) || ltb 0x3FE n))

unfoldable pub has_entry : ℕ → String → SensorNumMap → Bool
has_entry n path [] = false
has_entry n path ((m, p) ∷ map) = (n == m) || ((path === p) || has_entry n path map)

-- An entry where its number belongs, in the order of the numbers.
unfoldable pub put_entry : ℕ → String → SensorNumMap → SensorNumMap
put_entry n path [] = (n, path) ∷ []
put_entry n path ((m, p) ∷ map) =
    let rest = put_entry n path map in if ltb n m then (n, path) ∷ ((m, p) ∷ map) else (m, p) ∷ rest

-- A number or a path that is there is not inserted again.
unfoldable pub insert_entry : String → Option ℕ → SensorNumMap → SensorNumMap
insert_entry path none map = map
insert_entry path (some n) map =
    if not (is_sensor_number n)
    then map
    else if has_entry n path map
    then map
    else put_entry n path map

-- GetAll: the service, the path and the interface.
module _ (get_all : String → String → String → Reply (List (String × Value))) where
  -- The first of the interfaces, from these on, that has a number; an exception passes on to the next.
  unfoldable pub in_interfaces : String → String → List String → List String → Option Value
  in_interfaces path service offered [] = none
  in_interfaces path service offered (i ∷ interfaces) =
      let rest = in_interfaces path service offered interfaces in
      if not (has_interface i offered)
      then rest
      else or_else (body_of (get_all service path i) >>= lookup "SensorNumber") rest

  unfoldable pub in_services : String → List (String × List String) → Option Value
  in_services path [] = none
  in_services path ((service, offered) ∷ services) =
      or_else (in_interfaces path service offered sensor_number_interfaces)
        (in_services path services)

  -- The number of a sensor, if one is found and it has one of the two types.
  unfoldable pub static_number : Sensor → Option ℕ
  static_number (path, services) = in_services path services >>= number_in

  -- The loop over the sensors.
  unfoldable pub number_statically : List Sensor → SensorNumMap → SensorNumMap
  number_statically [] map = map
  number_statically (s ∷ sensors) map =
      number_statically sensors (insert_entry s.0 (static_number s) map)
