-- ===== src/ConfigUpdate/Columns.antt =====
-- include/pef_config_update.hpp: the property vectors of rows that values were put into.
use native.Mathlib.Nat.{mod-eq_of_lt}
use platform_event_filter.Common.{
  ℕ, suc, ◌^◌, ◌<◌, ◌≡◌, ◌≢◌, refl, ap, arith, inl, inr, true, false, Bool-cases, some, List, [],
  ◌∷◌, String, ◌===◌, eq_iff, length, All,
}
use platform_event_filter.Retry.{to_unsigned}
use platform_event_filter.Tables.{Cell, Row, put, column, cons_cast, value_or_zero}
use platform_event_filter.ConfigUpdate.{numbers}
use platform_event_filter.ConfigUpdate.Overlay.{overlay}

same_key : (key : String) → (key === key) ≡ true
same_key key = (eq_iff key key).1 refl

other_key : (k key : String) → k ≢ key → (k === key) ≡ false
other_key k key ne = elim (Bool-cases (k === key)) [
  | inl e ↦ absurd (ne ((eq_iff k key).0 e))
  | inr e ↦ e
]

module _ (w : ℕ) (property : String) where
  -- The vector of the property that was put is the values, if there is one for each row.
  pub column-overlay :
      (values : List ℕ) (rows : List Row)
      → length values ≡ length rows
      → All (λ v. v < 2 ^ w) values
      → column w property (overlay property (numbers values) rows) ≡ some values
  unfolding column overlay put numbers cons_cast value_or_zero to_unsigned
  column-overlay [] [] e h = refl
  column-overlay [] (row ∷ rows) e h = absurd (omega arith)
  column-overlay (v ∷ values) [] e h = absurd (omega arith)
  column-overlay (v ∷ values) (row ∷ rows) e h =
      rw (same_key property, column-overlay values rows (omega arith) h.1, mod-eq_of_lt h.0) refl

  -- The vectors of the other properties stay.
  pub column-overlay_other :
      (key : String) (values : List Cell) (rows : List Row)
      → property ≢ key
      → column w property (overlay key values rows) ≡ column w property rows
  unfolding column overlay put
  column-overlay_other key [] rows ne = refl
  column-overlay_other key (v ∷ values) [] ne = refl
  column-overlay_other key (v ∷ values) (row ∷ rows) ne =
      rw (other_key property key ne, column-overlay_other key values rows ne) refl

pub length-numbers : (ns : List ℕ) → length (numbers ns) ≡ length ns
unfolding numbers
length-numbers [] = refl
length-numbers (n ∷ ns) = ap suc (length-numbers ns)
