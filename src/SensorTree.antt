-- ===== src/SensorTree.antt =====
-- include/sdrutils.hpp: `filterSensors`, `getSensorSubtree` and `getSensorNumMap`, which number the sensors
-- of the object mapper's tree and keep the tree and the numbers. A build without
-- `FEATURE_STATIC_SENSOR_NUMBER`.
pub mod Numbers
pub mod Stale
pub mod Static
pub mod StaticNumbers
use platform_event_filter.Common.{
  ℕ, ◌+◌, ◌%◌, ◌^◌, ◌==◌, ◌&&◌, not, if◌then◌else◌, Bool, true, false, Option, none, some, List, [],
  ◌∷◌, String, ◌===◌, filter,
}
use platform_event_filter.Bus.{Reply, raised, message}
use platform_event_filter.Notification.Managers.{body_of}
use platform_event_filter.SensorNumber.{SensorNumMap}

-- The paths of the sensors in order, each with its services.
abbrev pub SensorSubTree : Type 0
SensorSubTree = List (String × List String)

abbrev other_services : List String → List String
other_services services = filter (λ s. not (s === "xyz.openbmc_project.Pmt")) services

-- Without the filtered service; a sensor that has no other is left out.
unfoldable pub filter_sensors : SensorSubTree → SensorSubTree
filter_sensors [] = []
filter_sensors ((path, services) ∷ sensors) =
    let rest = filter_sensors sensors in
    elim (other_services services) [ [] ↦ rest | s ∷ ss ↦ (path, s ∷ ss) ∷ rest ]

-- `sensorIndex` after a sensor was added; `none` is the exception "too many".
unfoldable pub next_index : ℕ → Option ℕ
next_index sensor_index =
    let index : ℕ = sensor_index + 1 in
    if index == 255
    then some 0x100
    else if index == 0x1FF
    then some 0x300
    else if index == 0x3FF
    then none
    else some index

abbrev insert : ℕ → String → SensorNumMap × Bool → SensorNumMap × Bool
insert sensor_num path (map, thrown) = ((sensor_num, path) ∷ map, thrown)

-- What is inserted from a number on, and whether the exception is thrown.
unfoldable pub number_sensors : ℕ → SensorSubTree → SensorNumMap × Bool
number_sensors sensor_num [] = ([], false)
number_sensors sensor_num ((path, services) ∷ sensors) =
    insert sensor_num path (elim (next_index sensor_num) [
      | none ↦ ([], true)
      | some index ↦ number_sensors index sensors
    ])

-- The static variables of the two functions.
pub record Cache : Type 0 where
  pub sensor_tree : Option SensorSubTree
  pub sensor_updated_index : ℕ
  pub sensor_num_map : Option SensorNumMap
  pub prev_sensor_updated_index : ℕ

abbrev pub empty_cache : Cache
empty_cache = record {
  sensor_tree = none;
  sensor_updated_index = 0;
  sensor_num_map = none;
  prev_sensor_updated_index = 0;
}

-- sd_bus_default_system succeeds, and GetSubTree of the object mapper.
pub record Mapper : Type 0 where
  pub connects : Bool
  pub get_sub_tree : Reply SensorSubTree

-- Where the call fails, the tree that was made for its answer stays.
unfoldable pub fetch_subtree : Option SensorSubTree → Cache → Option SensorSubTree × Cache
fetch_subtree none c = (none, record c { sensor_tree = some [] })
fetch_subtree (some tree) c = (
  some (filter_sensors tree),
  record c {
    sensor_tree = some (filter_sensors tree);
    sensor_updated_index = (c.sensor_updated_index + 1) % 2 ^ 16;
  },
)

unfoldable pub cached_or_fetched :
    Option SensorSubTree → Mapper → Cache → Option SensorSubTree × Cache
cached_or_fetched (some tree) mapper c = (some tree, c)
cached_or_fetched none mapper c = fetch_subtree (body_of mapper.get_sub_tree) c

-- The tree that the caller gets, if any.
unfoldable pub get_sensor_subtree : Mapper → Cache → Option SensorSubTree × Cache
get_sensor_subtree mapper c =
    if not mapper.connects then (none, c) else cached_or_fetched c.sensor_tree mapper c

-- InterfacesAdded and InterfacesRemoved below the sensors.
unfoldable pub sensors_changed : Cache → Cache
sensors_changed c = record c { sensor_tree = none }

-- The map that the caller gets, if any, and whether an exception is thrown.
pub record NumMapResult : Type 0 where
  pub sensor_num_map : Option SensorNumMap
  pub thrown : Bool
  pub cache : Cache

-- The numbers are made again; those made before an exception stay.
unfoldable pub renumber : SensorSubTree → Cache → NumMapResult
renumber tree c =
    let (map, thrown) = number_sensors 0 tree in
    record {
      sensor_num_map = if thrown then none else some map;
      thrown = thrown;
      cache = record c {
        sensor_num_map = some map;
        prev_sensor_updated_index = c.sensor_updated_index;
      };
    }

unfoldable pub kept_or_renumbered : Option SensorNumMap → SensorSubTree → Cache → NumMapResult
kept_or_renumbered none tree c = renumber tree c
kept_or_renumbered (some map) tree c =
    if c.sensor_updated_index == c.prev_sensor_updated_index
    then record { sensor_num_map = some map; thrown = false; cache = c }
    else renumber tree c

unfoldable pub num_map_of : Option SensorSubTree × Cache → NumMapResult
num_map_of (none, c) = record { sensor_num_map = none; thrown = false; cache = c }
num_map_of (some tree, c) = kept_or_renumbered c.sensor_num_map tree c

unfoldable pub get_sensor_num_map : Mapper → Cache → NumMapResult
get_sensor_num_map mapper c = num_map_of (get_sensor_subtree mapper c)
