-- ===== src/SensorTree/StaticNumbers.antt =====
-- include/sdrutils.hpp, `getSensorNumMap`: what the numbers of a build with
-- `FEATURE_STATIC_SENSOR_NUMBER` satisfy.
use platform_event_filter.Common.{
  ℕ, zero, suc, ◌<◌, ◌≡◌, refl, arith, inl, inr, Bool-cases, true, false, ltb, ◌==◌, ◌||◌, Option,
  none, some, List, [], ◌∷◌, String, ◌===◌, All, At,
}
use platform_event_filter.Bus.{Reply, Value}
use platform_event_filter.SensorNumber.{SensorNumMap}
use platform_event_filter.SensorTree.Static.{
  Sensor, is_sensor_number, has_entry, put_entry, insert_entry, static_number, number_statically,
}

-- Each number is above those before it.
abbrev pub IsAbove : ℕ → SensorNumMap → Type 0
IsAbove n [] = Unit
IsAbove n ((m, p) ∷ map) = (n < m) × IsAbove m map

abbrev pub IsIncreasing : SensorNumMap → Type 0
IsIncreasing [] = Unit
IsIncreasing ((m, p) ∷ map) = IsAbove m map

put_entry-IsAbove :
    (k n : ℕ) (path : String) (map : SensorNumMap)
    → k < n
    → has_entry n path map ≡ false
    → IsAbove k map
    → IsAbove k (put_entry n path map)
unfolding put_entry has_entry
put_entry-IsAbove k n path [] l h a = (l, tt)
put_entry-IsAbove k n path ((m, p) ∷ map) l h a = elim (Bool-cases (ltb n m)) [
  | inl e ↦ rw (e) (l, (ground arith, a.1))
  | inr e ↦ rw (e) (a.0, put_entry-IsAbove m n path map (ground arith) (ground arith) a.1)
]

put_entry-IsIncreasing :
    (n : ℕ) (path : String) (map : SensorNumMap)
    → has_entry n path map ≡ false
    → IsIncreasing map
    → IsIncreasing (put_entry n path map)
unfolding put_entry has_entry
put_entry-IsIncreasing n path [] h a = tt
put_entry-IsIncreasing n path ((m, p) ∷ map) h a = elim (Bool-cases (ltb n m)) [
  | inl e ↦ rw (e) (ground arith, a)
  | inr e ↦ rw (e) (put_entry-IsAbove m n path map (ground arith) (ground arith) a)
]

All-put_entry :
    (P : ℕ × String → Type 0) (n : ℕ) (path : String) (map : SensorNumMap)
    → P (n, path)
    → All P map
    → All P (put_entry n path map)
unfolding put_entry
All-put_entry P n path [] h a = (h, tt)
All-put_entry P n path ((m, p) ∷ map) h a = elim (Bool-cases (ltb n m)) [
  | inl e ↦ rw (e) (h, a)
  | inr e ↦ rw (e) (a.0, All-put_entry P n path map h a.1)
]

has_entry-put :
    (k n : ℕ) (p path : String) (map : SensorNumMap)
    → has_entry k p (put_entry n path map) ≡ (((k == n) || (p === path)) || has_entry k p map)
unfolding put_entry has_entry
has_entry-put k n p path [] = ground arith
has_entry-put k n p path ((m, q) ∷ map) = elim (Bool-cases (ltb n m)) [
  | inl e ↦ rw (e) (ground arith)
  | inr e ↦ rw (e, has_entry-put k n p path map) (ground arith)
]

All-weaken :
    {A : Type 0} (P Q : A → Type 0) (xs : List A) → ((x : A) → P x → Q x) → All P xs → All Q xs
All-weaken P Q [] f h = tt
All-weaken P Q (x ∷ xs) f h = (f x h.0, All-weaken P Q xs f h.1)

all_places : {A : Type 0} (xs : List A) → All (λ x. (i : ℕ) × At x xs i) xs
all_places [] = tt
all_places (x ∷ xs) =
    ((zero, At.head xs), All-weaken _ _ xs (λ y p. (suc p.0, At.tail x p.1)) (all_places xs))

insert_entry-keeps :
    (k : ℕ) (p path : String) (o : Option ℕ) (map : SensorNumMap)
    → has_entry k p map ≡ true
    → has_entry k p (insert_entry path o map) ≡ true
unfolding insert_entry
insert_entry-keeps k p path none map h = h
insert_entry-keeps k p path (some n) map h = elim (Bool-cases (is_sensor_number n)) [
  | inr f ↦ rw (f) h
  | inl f ↦ elim (Bool-cases (has_entry n path map)) [
    | inl g ↦ rw (f, g) h
    | inr g ↦ rw (f, g, has_entry-put k n p path map, h) (ground arith)
  ]
]

insert_entry_self :
    (n : ℕ) (path : String) (map : SensorNumMap)
    → is_sensor_number n ≡ true
    → has_entry n path (insert_entry path (some n) map) ≡ true
unfolding insert_entry
insert_entry_self n path map f = elim (Bool-cases (has_entry n path map)) [
  | inl g ↦ rw (f, g) g
  | inr g ↦ rw (f, g, has_entry-put n n path path map) (ground arith)
]

module _ (get_all : String → String → String → Reply (List (String × Value))) where
  -- The entry is that of one of the sensors, with the number that the sensor has.
  pub record IsOwn (sensors : List Sensor) (e : ℕ × String) : Type 0 where
    pub place : ℕ
    pub services : List (String × List String)
    pub is_sensor : At (e.1, services) sensors place
    pub is_number : static_number get_all (e.1, services) ≡ some e.0
    pub is_valid : is_sensor_number e.0 ≡ true

  -- The numbers increase, so none is there twice, and each entry is that of a sensor.
  pub record IsNumbered (sensors : List Sensor) (map : SensorNumMap) : Type 0 where
    pub increasing : IsIncreasing map
    pub own : All (IsOwn sensors) map

  insert_entry-IsNumbered :
      (sensors : List Sensor) (s : Sensor) (place : ℕ) (map : SensorNumMap)
      → At s sensors place
      → IsNumbered sensors map
      → IsNumbered sensors (insert_entry s.0 (static_number get_all s) map)
  unfolding insert_entry
  insert_entry-IsNumbered sensors s place map at h = inserted (static_number get_all s) refl
    where
      inserted :
          (o : Option ℕ) → static_number get_all s ≡ o → IsNumbered sensors (insert_entry s.0 o map)
      inserted none e = h
      inserted (some n) e = elim (Bool-cases (is_sensor_number n)) [
        | inr f ↦ rw (insert_entry, f) h
        | inl f ↦ elim (Bool-cases (has_entry n s.0 map)) [
          | inl g ↦ rw (insert_entry, f, g) h
          | inr g ↦
              rw (insert_entry, f, g)
                (record {
                  increasing = put_entry-IsIncreasing n s.0 map g h.increasing;
                  own =
                      All-put_entry (IsOwn sensors) n s.0 map
                        (record {
                          place = place;
                          services = s.1;
                          is_sensor = at;
                          is_number = e;
                          is_valid = f;
                        })
                        h.own;
                })
        ]
      ]

  number_rest-IsNumbered :
      (sensors rest : List Sensor) (map : SensorNumMap)
      → All (λ s. (i : ℕ) × At s sensors i) rest
      → IsNumbered sensors map
      → IsNumbered sensors (number_statically get_all rest map)
  unfolding number_statically
  number_rest-IsNumbered sensors [] map places h = h
  number_rest-IsNumbered sensors (s ∷ rest) map places h =
      number_rest-IsNumbered sensors rest _ places.1
        (insert_entry-IsNumbered sensors s places.0.0 map places.0.1 h)

  number_statically-keeps :
      (k : ℕ) (p : String) (rest : List Sensor) (map : SensorNumMap)
      → has_entry k p map ≡ true
      → has_entry k p (number_statically get_all rest map) ≡ true
  unfolding number_statically
  number_statically-keeps k p [] map h = h
  number_statically-keeps k p (s ∷ rest) map h =
      number_statically-keeps k p rest _
        (insert_entry-keeps k p s.0 (static_number get_all s) map h)

  number_found :
      {s : Sensor} {rest : List Sensor} {i : ℕ} (n : ℕ) (map : SensorNumMap)
      → At s rest i
      → static_number get_all s ≡ some n
      → is_sensor_number n ≡ true
      → has_entry n s.0 (number_statically get_all rest map) ≡ true
  unfolding number_statically
  number_found {s} n map (At.head rest) e f =
      number_statically-keeps n s.0 rest _ (rw (e) (insert_entry_self n s.0 map f))
  number_found n map (At.tail y at) e f = number_found n _ at e f

  -- The numbers increase, so none is there twice, and each entry is a sensor's with the sensor's number,
  -- which is valid.
  pub number_statically-IsNumbered :
      (sensors : List Sensor) → IsNumbered sensors (number_statically get_all sensors [])
  number_statically-IsNumbered sensors =
      number_rest-IsNumbered sensors sensors [] (all_places sensors)
        (record { increasing = tt; own = tt })

  -- A sensor with a valid number is left out only for another entry with its number or its path.
  pub has_entry-number_statically :
      (s : Sensor) (sensors : List Sensor) (i n : ℕ)
      → At s sensors i
      → static_number get_all s ≡ some n
      → is_sensor_number n ≡ true
      → has_entry n s.0 (number_statically get_all sensors []) ≡ true
  has_entry-number_statically s sensors i n at e f = number_found n [] at e f
