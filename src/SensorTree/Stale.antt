-- ===== src/SensorTree/Stale.antt =====
-- include/sdrutils.hpp: what a failing call of the object mapper leaves behind.
use platform_event_filter.Common.{
  ℕ, ◌≡◌, refl, Bool-cases, ◌⊎◌, inl, inr, ◌==◌, not, if◌then◌else◌, Bool, true, false, Option,
  none, some, List, [], ◌∷◌,
}
use platform_event_filter.Notification.Managers.{body_of}
use platform_event_filter.SensorNumber.{SensorNumMap}
use platform_event_filter.SensorTree.{
  number_sensors, Cache, empty_cache, Mapper, fetch_subtree, cached_or_fetched, get_sensor_subtree,
  NumMapResult, renumber, kept_or_renumbered, num_map_of, get_sensor_num_map,
}

-- Calls, one after the other, with no signal between them.
pub calls : List Mapper → Cache → Cache
calls [] c = c
calls (mapper ∷ mappers) c = calls mappers (get_sensor_num_map mapper c).cache

abbrev stale : Option SensorNumMap → ℕ → ℕ → Cache
stale map u p = record {
  sensor_tree = some [];
  sensor_updated_index = u;
  sensor_num_map = map;
  prev_sensor_updated_index = p;
}

-- The tree is empty, and the numbers are not made yet or those of no sensor.
data IsStale : Cache → Type 0 where
  bare : (u p : ℕ) → IsStale (stale none u p)
  made : (u p : ℕ) → IsStale (stale (some []) u p)

-- The caller gets no map, or one with no sensor.
pub HasNone : NumMapResult → Type 0
HasNone r = (r.sensor_num_map ≡ none) ⊎ (r.sensor_num_map ≡ some [])

Stays : NumMapResult → Type 0
Stays r = IsStale r.cache × HasNone r

module _ (u p : ℕ) where
  renumber-Stays : (map : Option SensorNumMap) → Stays (renumber [] (stale map u p))
  unfolding renumber number_sensors Stays HasNone
  renumber-Stays map = (made u u, inr refl)

  num_map_of-Stays :
      (connects : Bool)
      → Stays
          (num_map_of (if not connects then (none, stale none u p) else (some [], stale none u p)))
        × Stays (
            num_map_of (
              if not connects then (none, stale (some []) u p) else (some [], stale (some []) u p)))
  unfolding num_map_of kept_or_renumbered Stays HasNone
  num_map_of-Stays false = ((bare u p, inl refl), (made u p, inl refl))
  num_map_of-Stays true = (
    renumber-Stays none,
    elim (Bool-cases (u == p)) [
      | inl e ↦ rw (e) (made u p, inr refl)
      | inr e ↦ rw (e) (renumber-Stays (some []))
    ],
  )

call-Stays : (mapper : Mapper) {c : Cache} → IsStale c → Stays (get_sensor_num_map mapper c)
unfolding get_sensor_num_map get_sensor_subtree cached_or_fetched
call-Stays mapper (bare u p) = (num_map_of-Stays u p mapper.connects).0
call-Stays mapper (made u p) = (num_map_of-Stays u p mapper.connects).1

calls-IsStale : (mappers : List Mapper) {c : Cache} → IsStale c → IsStale (calls mappers c)
unfolding calls Stays
calls-IsStale [] h = h
calls-IsStale (mapper ∷ mappers) h = calls-IsStale mappers (call-Stays mapper h).0

failed_call :
    (mapper : Mapper)
    → mapper.connects ≡ true
    → body_of mapper.get_sub_tree ≡ none
    → IsStale (get_sensor_num_map mapper empty_cache).cache
unfolding get_sensor_num_map get_sensor_subtree cached_or_fetched fetch_subtree num_map_of
failed_call mapper c e = rw (c, e) (bare 0 0)

-- After a first GetSubTree that fails, no sensor has a number, whatever the mapper answers later.
pub failed_subtree_stays :
    (failing : Mapper) (later : List Mapper) (mapper : Mapper)
    → failing.connects ≡ true
    → body_of failing.get_sub_tree ≡ none
    → HasNone (get_sensor_num_map mapper (calls (failing ∷ later) empty_cache))
unfolding calls Stays
failed_subtree_stays failing later mapper c e =
    (call-Stays mapper (calls-IsStale later (failed_call failing c e))).1
