-- ===== src/SensorTypes.antt =====
-- include/sdrutils.hpp: the table `sensorTypes`, `getSensorTypeFromPath`, `getSensorEventTypeFromPath`,
-- `getEventType`, `getSensorNumberFromPath`; and src/pef_config.cpp: the methods that list the sensors,
-- `getSensorNumNameMap`, `getSensorNumNameMapByType`, `getSensorNumNameMapForType` and
-- `getAvailableSensorTypes`. A build without `FEATURE_APISENSOR_SUPPORT`.
pub mod Laws
use platform_event_filter.Common.{
  ℕ, ◌%◌, ◌^◌, ltb, leb, ◌==◌, ◌||◌, Bool, true, false, if◌then◌else◌, Option, none, some, List, [],
  ◌∷◌, String, ◌===◌,
}
use platform_event_filter.SensorNumber.{SensorNumMap}
use platform_event_filter.SensorPath.{retrieve_sensor_type_from_path, get_sensor_name_from_path}

-- The name of a type, its type code and its event type code, in key order.
pub record SensorType : Type 0 where
  pub name : String
  pub code : ℕ
  pub event_code : ℕ

abbrev sensor_type : String → ℕ → ℕ → SensorType
sensor_type name code event_code = record { name = name; code = code; event_code = event_code }

abbrev threshold : ℕ
threshold = 0x01

abbrev digital_state : ℕ
digital_state = 0x03

abbrev acpi_device : ℕ
acpi_device = 0x0c

abbrev sensor_specified : ℕ
sensor_specified = 0x6f

unfoldable pub sensor_types : List SensorType
sensor_types =
    sensor_type "acpidevice" 0x08 acpi_device
    ∷ sensor_type "acpisystem" 0x22 sensor_specified
    ∷ sensor_type "airflow" 0x0A threshold
    ∷ sensor_type "battery" 0x29 sensor_specified
    ∷ sensor_type "bmcfirmwarehealth" 0x28 sensor_specified
    ∷ sensor_type "chassisstate" 0x09 digital_state
    ∷ sensor_type "count" 0x0B threshold
    ∷ sensor_type "cpu" 0x07 sensor_specified
    ∷ sensor_type "current" 0x03 threshold
    ∷ sensor_type "discrete" 0x0B digital_state
    ∷ sensor_type "fan_pwm" 0x04 threshold
    ∷ sensor_type "fan_tach" 0x04 threshold
    ∷ sensor_type "flowrate" 0x0A threshold
    ∷ sensor_type "hours" 0x0B threshold
    ∷ sensor_type "humidity" 0x0B threshold
    ∷ sensor_type "logging" 0x10 sensor_specified
    ∷ sensor_type "os" 0x20 sensor_specified
    ∷ sensor_type "power" 0x0B threshold
    ∷ sensor_type "powersupply" 0x08 sensor_specified
    ∷ sensor_type "powerunit" 0x09 sensor_specified
    ∷ sensor_type "pressurekpa" 0x0A threshold
    ∷ sensor_type "pwm" 0x0B threshold
    ∷ sensor_type "tach" 0x0B threshold
    ∷ sensor_type "temperature" 0x01 threshold
    ∷ sensor_type "utilization" 0x0B threshold
    ∷ sensor_type "voltage" 0x02 threshold
    ∷ sensor_type "watchdog" 0x23 sensor_specified
    ∷ []

-- `sensorTypes.find(type)`
unfoldable pub find_type : String → List SensorType → Option SensorType
find_type type [] = none
find_type type (t ∷ types) =
    let rest = find_type type types in if t.name === type then some t else rest

unfoldable pub get_sensor_type_from_path : String → ℕ
get_sensor_type_from_path path =
    elim (find_type (retrieve_sensor_type_from_path path) sensor_types) [
      | none ↦ 0
      | some t ↦ t.code
    ]

unfoldable pub get_sensor_event_type_from_path : String → ℕ
get_sensor_event_type_from_path path =
    elim (find_type (retrieve_sensor_type_from_path path) sensor_types) [
      | none ↦ 0x1
      | some t ↦ t.event_code
    ]

unfoldable pub get_event_type : ℕ → ℕ
get_event_type sensor_type = if leb sensor_type 0x04 then 0x01 else 0x6f

-- A `std::map` by its pairs in key order, and `map[key] = value`.
unfoldable pub assign_at : {A : Type 0} → ℕ → A → List (ℕ × A) → List (ℕ × A)
assign_at key value [] = (key, value) ∷ []
assign_at key value ((k, v) ∷ map) =
    let rest = assign_at key value map in
    if ltb key k
    then (key, value) ∷ (k, v) ∷ map
    else if key == k
    then (key, value) ∷ map
    else (k, v) ∷ rest

abbrev pub NameMap : Type 0
NameMap = List (ℕ × String)

-- `sensorMap[(uint8_t)num] = name` for the sensors that a test takes, in order.
unfoldable pub name_sensors : (String → Bool) → SensorNumMap → NameMap → NameMap
name_sensors takes [] names = names
name_sensors takes ((num, path) ∷ sensors) names = name_sensors takes sensors (
    if takes (retrieve_sensor_type_from_path path)
    then assign_at (num % 256) (get_sensor_name_from_path path) names
    else names)

unfoldable pub get_sensor_num_name_map : Option SensorNumMap → NameMap
get_sensor_num_name_map none = []
get_sensor_num_name_map (some sensors) = name_sensors (λ type. true) sensors []

unfoldable pub get_sensor_num_name_map_for_type : String → Option SensorNumMap → NameMap
get_sensor_num_name_map_for_type sensor_type none = []
get_sensor_num_name_map_for_type sensor_type (some sensors) =
    let all_types = sensor_type === "All" in
    let filtered : NameMap = name_sensors (λ type. all_types || type === sensor_type) sensors [] in
    if all_types then (255, "All") ∷ filtered else filtered

-- `groupedMap`, read at a type; a type that was never written has no entry.
abbrev pub GroupedMap : Type 0
GroupedMap = String → NameMap

unfoldable pub group_sensors : SensorNumMap → GroupedMap → GroupedMap
group_sensors [] grouped = grouped
group_sensors ((num, path) ∷ sensors) grouped =
    let type = retrieve_sensor_type_from_path path in
    group_sensors sensors (λ t.
      if t === type
      then assign_at (num % 256) (get_sensor_name_from_path path) (grouped t)
      else grouped t)

unfoldable pub get_sensor_num_name_map_by_type : Option SensorNumMap → GroupedMap
get_sensor_num_name_map_by_type none = λ t. []
get_sensor_num_name_map_by_type (some sensors) = group_sensors sensors (λ t. [])

-- `typeMap`, read at a type.
abbrev pub TypeMap : Type 0
TypeMap = String → Option ℕ

-- `typeMap[type] = code`, if the table has the type.
unfoldable pub add_found : String → Option SensorType → TypeMap → TypeMap
add_found type none types = types
add_found type (some found) types = λ t. if t === type then some found.code else types t

unfoldable pub add_unless : Option ℕ → String → TypeMap → TypeMap
add_unless (some code) type types = types
add_unless none type types = add_found type (find_type type sensor_types) types

unfoldable pub add_type : String → TypeMap → TypeMap
add_type type types = add_unless (types type) type types

unfoldable pub add_types : SensorNumMap → TypeMap → TypeMap
add_types [] types = types
add_types ((num, path) ∷ sensors) types =
    add_types sensors (add_type (retrieve_sensor_type_from_path path) types)

unfoldable pub get_available_sensor_types : Option SensorNumMap → TypeMap
get_available_sensor_types none = λ t. none
get_available_sensor_types (some sensors) =
    let types : TypeMap = add_types sensors (λ t. none) in
    λ t. if t === "All" then some 255 else types t

-- `right.at(path)`, else `invalidSensorNumber`.
unfoldable pub number_of_path : String → SensorNumMap → ℕ
number_of_path path [] = 0xFFFF
number_of_path path ((num, p) ∷ sensors) =
    let rest = number_of_path path sensors in if p === path then num % 2 ^ 16 else rest

unfoldable pub get_sensor_number_from_path : Option SensorNumMap → String → ℕ
get_sensor_number_from_path none path = 0xFFFF
get_sensor_number_from_path (some sensors) path = number_of_path path sensors
