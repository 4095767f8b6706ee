-- ===== src/ConfigUpdate/Overlay.antt =====
-- include/pef_config_update.hpp: rows that get one value each, seen through the parts of a table.
use platform_event_filter.Common.{
  ℕ, zero, suc, ◌≤◌, ◌≡◌, refl, ap, arith, List, [], ◌∷◌, String, length, take, drop, take-nil,
}
use platform_event_filter.Tables.{Cell, Row, put}

-- The values put into the rows, one each, as far as both go.
unfoldable pub overlay : String → List Cell → List Row → List Row
overlay property [] rows = rows
overlay property (v ∷ values) [] = []
overlay property (v ∷ values) (row ∷ rows) = put property v row ∷ overlay property values rows

module _ (property : String) where
  pub overlay-nil : (values : List Cell) → overlay property values [] ≡ []
  unfolding overlay
  overlay-nil [] = refl
  overlay-nil (v ∷ values) = refl

  pub length-overlay :
      (values : List Cell) (rows : List Row) → length (overlay property values rows) ≡ length rows
  unfolding overlay
  length-overlay [] rows = refl
  length-overlay (v ∷ values) [] = refl
  length-overlay (v ∷ values) (row ∷ rows) = ap suc (length-overlay values rows)

  pub take-overlay :
      (n : ℕ) (values : List Cell) (rows : List Row)
      → take n (overlay property values rows) ≡ overlay property values (take n rows)
  unfolding overlay
  take-overlay n [] rows = refl
  take-overlay n (v ∷ values) [] = rw (take-nil {A = Row} n) refl
  take-overlay zero (v ∷ values) (row ∷ rows) = refl
  take-overlay (suc n) (v ∷ values) (row ∷ rows) =
      ap (λ t. put property v row ∷ t) (take-overlay n values rows)

  pub drop-overlay :
      (n : ℕ) (values : List Cell) (rows : List Row)
      → length values ≤ n
      → drop n (overlay property values rows) ≡ drop n rows
  unfolding overlay
  drop-overlay n [] rows h = refl
  drop-overlay n (v ∷ values) [] h = refl
  drop-overlay zero (v ∷ values) (row ∷ rows) h = absurd (omega arith)
  drop-overlay (suc n) (v ∷ values) (row ∷ rows) h = drop-overlay n values rows (omega arith)

  pub overlay-take :
      (n : ℕ) (values : List Cell) (rows : List Row)
      → length rows ≤ n
      → overlay property (take n values) rows ≡ overlay property values rows
  unfolding overlay
  overlay-take n [] rows h = rw (take-nil {A = Cell} n) refl
  overlay-take n (v ∷ values) [] h = overlay-nil (take n (v ∷ values))
  overlay-take zero (v ∷ values) (row ∷ rows) h = absurd (omega arith)
  overlay-take (suc n) (v ∷ values) (row ∷ rows) h =
      ap (λ t. put property v row ∷ t) (overlay-take n values rows (omega arith))
