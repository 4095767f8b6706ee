-- ===== src/SensorNumber.antt =====
-- include/sdrutils.hpp: `getPathFromSensorNumber`, over the sensor number map.
use text.Mathlib.Text.{find?}
use platform_event_filter.Common.{ℕ, ◌==◌, if◌then◌else◌, Option, none, some, List, [], ◌∷◌, String}

abbrev pub SensorNumMap : Type 0
SensorNumMap = List (ℕ × String)

abbrev os_critical_stop : ℕ
os_critical_stop = 0x20

-- The first path with "/os/" in it.
os_path : SensorNumMap → Option String
os_path [] = none
os_path ((num, path) ∷ rest) =
    let more = os_path rest in elim (find? path "/os/") [ some at ↦ some path | none ↦ more ]

-- `left.at(sensorNum)`, where the exception is caught.
path_at : ℕ → SensorNumMap → String
path_at sensor_num [] = ""
path_at sensor_num ((num, path) ∷ rest) =
    if num == sensor_num then path else path_at sensor_num rest

abbrev or_path_at : ℕ → SensorNumMap → Option String → String
or_path_at sensor_num map none = path_at sensor_num map
or_path_at sensor_num map (some path) = path

unfoldable pub get_path_from_sensor_number : Option SensorNumMap → ℕ → ℕ → String
unfolding os_path path_at
get_path_from_sensor_number none sensor_num sen_type = ""
get_path_from_sensor_number (some map) sensor_num sen_type =
    if sen_type == os_critical_stop
    then or_path_at sensor_num map (os_path map)
    else path_at sensor_num map
