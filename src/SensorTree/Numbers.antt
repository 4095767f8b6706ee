-- ===== src/SensorTree/Numbers.antt =====
-- include/sdrutils.hpp, `getSensorNumMap`: the numbers of the sensors.
use platform_event_filter.Common.{
  ℕ, suc, ◌+◌, ◌/◌, ◌%◌, ◌<◌, ◌≤◌, ◌≡◌, ◌≢◌, refl, ap, ◌∙◌, inl, inr, Bool-cases, arith, ltb, leb,
  if◌then◌else◌, true, false, none, some, [], ◌∷◌, length,
}
use platform_event_filter.SensorNumber.{SensorNumMap}
use platform_event_filter.SensorTree.{SensorSubTree, next_index, number_sensors}

-- The number of a sensor by its place: 255 sensors each in the logical units 0, 1 and 3.
pub number_at : ℕ → ℕ
number_at i = if ltb i 255 then i else if ltb i 510 then i + 1 else i + 258

-- The first sensors, as many as there are numbers, with their numbers.
pub numbered : ℕ → SensorSubTree → SensorNumMap
numbered i [] = []
numbered i ((path, services) ∷ sensors) =
    let rest = numbered (suc i) sensors in (number_at i, path) ∷ (if ltb i 764 then rest else [])

next_index_lem : (i : ℕ) → i < 764 → next_index (number_at i) ≡ some (number_at (suc i))
unfolding next_index number_at
next_index_lem i h = ground arith

next_index_last : next_index (number_at 764) ≡ none
unfolding next_index number_at
next_index_last = refl

number_sensors_from :
    (i : ℕ) (sensors : SensorSubTree)
    → i ≤ 764
    → number_sensors (number_at i) sensors ≡ (numbered i sensors, leb 765 (i + length sensors))
unfolding number_sensors numbered
number_sensors_from i [] h =
    let none_left : leb 765 (i + 0) ≡ false = ground arith in rw (none_left) refl
number_sensors_from i ((path, services) ∷ sensors) h = elim (Bool-cases (ltb i 764)) [
  | inl e ↦
      let shift : leb 765 (suc i + length sensors) ≡ leb 765 (i + suc (length sensors)) =
        ap (λ (n : ℕ). leb 765 n) (omega arith) in
      rw
        (
          next_index_lem i (ground arith),
          number_sensors_from (suc i) sensors (ground arith),
          e,
          shift,
        )
        refl
  | inr e ↦
      let last : i ≡ 764 = ground arith in
      let full : leb 765 (i + suc (length sensors)) ≡ true = ground arith in
      let end : next_index (number_at i) ≡ none =
        ap (λ (n : ℕ). next_index (number_at n)) last ∙ next_index_last in
      rw (end, e, full) refl
]

-- The sensors get the numbers of their places, and from 765 sensors on the exception is thrown.
pub number_sensors_lem :
    (sensors : SensorSubTree)
    → number_sensors 0 sensors ≡ (numbered 0 sensors, leb 765 (length sensors))
unfolding number_at
number_sensors_lem sensors =
    number_sensors_from 0 sensors (omega arith)
    ∙ ap (λ (n : ℕ). (numbered 0 sensors, leb 765 n)) (omega arith)

-- The numbers differ; none has the reserved low byte 0xFF or lies in the logical unit 2.
pub number_at_valid :
    (i j : ℕ)
    → i < j
    → j < 765
    → (number_at i < number_at j)
      × (number_at j % 256 ≢ 255)
      × (number_at j / 256 ≢ 2)
      × (number_at j < 0x3FF)
unfolding number_at
number_at_valid i j h l = ground arith
