-- ===== src/SensorTypes/Laws.antt =====
-- src/pef_config.cpp: the methods that list the sensors agree.
use platform_event_filter.Common.{
  ℕ, ◌+◌, ◌%◌, ◌≤◌, ◌<◌, ◌≡◌, ◌≢◌, refl, sym, ap, ◌∙◌, arith, inl, inr, Bool, true, false, ltb,
  ◌==◌, ◌||◌, Bool-cases, Option-cases, if◌then◌else◌, Option, none, some, [], ◌∷◌, String, ◌===◌,
  eq_iff,
}
use platform_event_filter.SensorNumber.{SensorNumMap}
use platform_event_filter.SensorPath.{retrieve_sensor_type_from_path, get_sensor_name_from_path}
use platform_event_filter.SensorTypes.{
  SensorType, NameMap, GroupedMap, TypeMap, assign_at, name_sensors, group_sensors,
  get_sensor_num_name_map, get_sensor_num_name_map_for_type, get_sensor_num_name_map_by_type,
  sensor_types, find_type, add_type, add_unless, add_found, add_types, get_available_sensor_types,
}

flip_key : (a b : String) → (a === b) ≡ (b === a)
flip_key a b = ground (arith, eq_iff a b, eq_iff b a)

grouped_at :
    (t : String) (sensors : SensorNumMap) (names : NameMap) (grouped : GroupedMap)
    → names ≡ grouped t
    → name_sensors (λ type. false || type === t) sensors names ≡ group_sensors sensors grouped t
unfolding name_sensors group_sensors
grouped_at t [] names grouped e = e
grouped_at t ((num, path) ∷ sensors) names grouped e =
    let type = retrieve_sensor_type_from_path path in
    grouped_at t sensors
      (if type === t then assign_at (num % 256) (get_sensor_name_from_path path) names else names)
      (λ u.
        if u === type
        then assign_at (num % 256) (get_sensor_name_from_path path) (grouped u)
        else grouped u)
      (rw (e, flip_key t type) refl)

-- The list for one type is the part of the grouped map for it; the list for "All" has one entry of its own
-- before all sensors.
pub get_sensor_num_name_map_for_type-by_type :
    (sensors : Option SensorNumMap) (t : String)
    → t ≢ "All"
    → get_sensor_num_name_map_for_type t sensors ≡ get_sensor_num_name_map_by_type sensors t
unfolding get_sensor_num_name_map_for_type get_sensor_num_name_map_by_type
get_sensor_num_name_map_for_type-by_type none t ne = refl
get_sensor_num_name_map_for_type-by_type (some sensors) t ne = elim (Bool-cases (t === "All")) [
  | inl e ↦ absurd (ne ((eq_iff t "All").0 e))
  | inr e ↦ rw (e) (grouped_at t sensors [] (λ u. []) refl)
]

-- Keys in ascending order, from a first one on, and below 256.
pub IsNameMap : ℕ → NameMap → Type 0
IsNameMap low [] = Unit
IsNameMap low ((num, name) ∷ names) = (low ≤ num) × (num < 256) × IsNameMap (num + 1) names

assign_at-IsNameMap :
    (low key : ℕ) (name : String) (names : NameMap)
    → low ≤ key
    → key < 256
    → IsNameMap low names
    → IsNameMap low (assign_at key name names)
unfolding assign_at IsNameMap
assign_at-IsNameMap low key name [] l b h = (l, b, tt)
assign_at-IsNameMap low key name ((num, old) ∷ names) l b h = elim (Bool-cases (ltb key num)) [
  | inl e ↦ rw (e) (l, b, (ground arith, h.1, h.2))
  | inr e ↦ elim (Bool-cases (key == num)) [
    | inl f ↦ let same : num ≡ key = ground arith in rw (e, f) (l, b, rw (same) at h.2)
    | inr f ↦
        rw (e, f) (h.0, h.1, assign_at-IsNameMap (num + 1) key name names (ground arith) b h.2)
  ]
]

name_sensors-IsNameMap :
    (takes : String → Bool) (sensors : SensorNumMap) (names : NameMap)
    → IsNameMap 0 names
    → IsNameMap 0 (name_sensors takes sensors names)
unfolding name_sensors
name_sensors-IsNameMap takes [] names h = h
name_sensors-IsNameMap takes ((num, path) ∷ sensors) names h =
    name_sensors-IsNameMap takes sensors _
      (elim (Bool-cases (takes (retrieve_sensor_type_from_path path))) [
        | inl e ↦ rw (e) (
            assign_at-IsNameMap 0 (num % 256) (get_sensor_name_from_path path) names (omega arith)
              (omega arith) h)
        | inr e ↦ rw (e) h
      ])

-- Each sensor number below 256 is listed at most once, in order.
pub get_sensor_num_name_map-IsNameMap :
    (sensors : Option SensorNumMap) → IsNameMap 0 (get_sensor_num_name_map sensors)
unfolding get_sensor_num_name_map IsNameMap
get_sensor_num_name_map-IsNameMap none = tt
get_sensor_num_name_map-IsNameMap (some sensors) =
    name_sensors-IsNameMap (λ type. true) sensors [] tt

-- Whether some sensor has the type.
pub some_of_type : String → SensorNumMap → Bool
some_of_type t [] = false
some_of_type t ((num, path) ∷ sensors) =
    let rest = some_of_type t sensors in (t === retrieve_sensor_type_from_path path) || rest

code_of : Option SensorType → Option ℕ
code_of none = none
code_of (some found) = some found.code

-- The code of a type in the table.
pub code_of_type : String → Option ℕ
unfolding code_of
code_of_type t = code_of (find_type t sensor_types)

or_code : Option ℕ → String → Option ℕ
or_code none t = code_of_type t
or_code (some code) t = some code

or_code-twice : (o : Option ℕ) (t : String) → or_code (or_code o t) t ≡ or_code o t
unfolding or_code
or_code-twice none t = elim (Option-cases (code_of_type t)) [
  | inl e ↦ rw (e) e
  | inr (c, e) ↦ rw (e) refl
]
or_code-twice (some code) t = refl

module _ (type : String) (types : TypeMap) where
  found_self :
      (found : Option SensorType)
      → types type ≡ none
      → add_found type found types type ≡ code_of found
  unfolding add_found code_of
  found_self none e = e
  found_self (some found) e = rw ((eq_iff type type).1 refl) refl

  found_other :
      (t : String) (found : Option SensorType)
      → (t === type) ≡ false
      → add_found type found types t ≡ types t
  unfolding add_found
  found_other t none ne = refl
  found_other t (some found) ne = rw (ne) refl

  unless_self : (o : Option ℕ) → types type ≡ o → add_unless o type types type ≡ or_code o type
  unfolding add_unless or_code code_of_type
  unless_self none e = found_self (find_type type sensor_types) e
  unless_self (some code) e = e

  unless_other :
      (t : String) (o : Option ℕ) → (t === type) ≡ false → add_unless o type types t ≡ types t
  unfolding add_unless
  unless_other t none ne = found_other t (find_type type sensor_types) ne
  unless_other t (some code) ne = refl

add_type_lem :
    (type t : String) (types : TypeMap)
    → add_type type types t ≡ (if t === type then or_code (types t) t else types t)
unfolding add_type
add_type_lem type t types = elim (Bool-cases (t === type)) [
  | inl e ↦
      let p : t ≡ type = (eq_iff t type).0 e in
      ap (add_type type types) p
      ∙ unless_self type types (types type) refl
      ∙ ap (λ (u : String). or_code (types u) u) (sym p)
      ∙ sym (rw (e) refl)
  | inr e ↦ unless_other type types t (types type) e ∙ sym (rw (e) refl)
]

add_types_lem :
    (t : String) (sensors : SensorNumMap) (types : TypeMap)
    → add_types sensors types t ≡ (if some_of_type t sensors then or_code (types t) t else types t)
unfolding add_types some_of_type
add_types_lem t [] types = refl
add_types_lem t ((num, path) ∷ sensors) types =
    let type = retrieve_sensor_type_from_path path in
    add_types_lem t sensors (add_type type types)
    ∙ rw (add_type_lem type t types) (ground (arith, or_code-twice (types t) t))

-- A type is available if some sensor has it and the table knows it, with the code of the table; "All" is
-- always available.
pub get_available_sensor_types_lem :
    (sensors : SensorNumMap) (t : String)
    → get_available_sensor_types (some sensors) t
      ≡ (if t === "All" then some 255 else if some_of_type t sensors then code_of_type t else none)
unfolding get_available_sensor_types or_code
get_available_sensor_types_lem sensors t = rw (add_types_lem t sensors (λ u. none)) refl
