-- ===== src/ConfigUpdate/Lists.antt =====
-- src/pef_config.cpp and include/pef_config_update.hpp: the service shows the lists of a table that it read
-- at its start; a changed property of a list is written back, and a later start shows it.
use mathlib.Core.Bool.{true≢false}
use platform_event_filter.Common.{
  ℕ, ◌^◌, ◌≤◌, ◌<◌, ◌≡◌, refl, sym, ap, ◌∙◌, arith, inl, inr, ◌&&◌, ◌==◌, Bool-cases, if◌then◌else◌,
  Option, some, List, String, ◌===◌, eq_iff, length, All,
}
use platform_event_filter.Tables.{Row, column, group_rows}
use platform_event_filter.Tables.Groups.{IsListSize, group_rows-length}
use platform_event_filter.ConfigUpdate.{put_in_list, numbers}
use platform_event_filter.ConfigUpdate.Overlay.{overlay}
use platform_event_filter.ConfigUpdate.WriteBack.{
  group_rows-put_in_list, group_rows-put_in_list_other,
}
use platform_event_filter.ConfigUpdate.Columns.{
  column-overlay, column-overlay_other, length-numbers,
}

-- What the objects of a table show: for the number of a list and a property, the vector.
abbrev pub Lists : Type 0
Lists = ℕ → String → Option (List ℕ)

-- One property of one list changed.
unfoldable pub update : Lists → ℕ → String → List ℕ → Lists
update lists b p values = λ k q. if (k == b) && (q === p) then some values else lists k q

-- The width of the values of a property.
abbrev pub width : String → ℕ
width p = if p === "EventData1OffsetMask" then 16 else 8

-- The lists of a table, as a start of the service registers them.
unfoldable pub shown : ℕ → List Row → Lists
shown size rows = λ k p. column (width p) p (group_rows size rows k)

-- A write of a property of a list: one value for each of its rows.
pub record FitsList (size : ℕ) (rows : List Row) (b : ℕ) (p : String) (values : List ℕ)
    : Type 0 where
  pub is_list : b ≤ 3
  pub one_each : length values ≡ length (group_rows size rows b)
  pub in_width : All (λ v. v < 2 ^ width p) values

module _ (size : ℕ) (rows : List Row) (is_size : IsListSize size) where
  pub put_in_list_refines :
      (b : ℕ) (p : String) (values : List ℕ)
      → FitsList size rows b p values
      → (k : ℕ) (q : String) → k ≤ 3
      → shown size (put_in_list size b p (numbers values) rows) k q
        ≡ update (shown size rows) b p values k q
  unfolding shown update
  put_in_list_refines b p values fits k q h =
      let new : List Row = put_in_list size b p (numbers values) rows in
      let cells : length (numbers values) ≡ length values = length-numbers values in
      let self : group_rows size new b ≡ overlay p (numbers values) (group_rows size rows b) =
        group_rows-put_in_list p size b (numbers values) rows is_size fits.is_list in
      elim (Bool-cases (k == b)) [
        | inl e ↦
            let list : k ≡ b = ground arith in
            ap (λ (j : ℕ). column (width q) q (group_rows size new j)) list
            ∙ ap (column (width q) q) self
            ∙ elim (Bool-cases (q === p)) [
              | inl f ↦
                  ap
                    (λ (r : String).
                      column (width r) r (overlay p (numbers values) (group_rows size rows b)))
                    ((eq_iff q p).0 f)
                  ∙ column-overlay (width p) p values (group_rows size rows b) fits.one_each
                      fits.in_width
                  ∙ sym (rw (e, f) refl)
              | inr f ↦
                  column-overlay_other (width q) q p (numbers values) (group_rows size rows b)
                    (λ same. true≢false (sym ((eq_iff q p).1 same) ∙ f))
                  ∙ ap (λ (j : ℕ). column (width q) q (group_rows size rows j)) (sym list)
                  ∙ sym (rw (e, f) refl)
            ]
        | inr e ↦
            ap (column (width q) q) (
              group_rows-put_in_list_other p size b (numbers values) rows is_size k h (ground arith)
                fits.is_list
                (λ early.
                  omega (arith, fits.one_each, group_rows-length size rows is_size b early)))
            ∙ sym (rw (e) refl)
      ]
