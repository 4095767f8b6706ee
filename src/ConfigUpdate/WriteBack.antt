-- ===== src/ConfigUpdate/WriteBack.antt =====
-- include/pef_config_update.hpp: what writing a property of a list back does to the lists that
-- `parsePefConfToDbus` makes of the table.
use mathlib.Core.List.{append-nil}
use native.Mathlib.Nat.{mul_comm}
use platform_event_filter.Common.{
  ℕ, zero, suc, ◌+◌, ◌-◌, ◌*◌, min, ◌≤◌, ◌<◌, ◌≡◌, ◌≢◌, refl, sym, ap, ◌∙◌, arith, inl, inr, false,
  ltb, Bool-cases, if◌then◌else◌, List, [], ◌∷◌, ◌++◌, String, length, take, drop, take_all,
  drop_all, take-nil, drop-nil, length-take, length-drop, take-append, drop-append_past, drop-take,
  take-drop, drop-drop,
}
use platform_event_filter.Tables.{Cell, Row, put, group_rows}
use platform_event_filter.Tables.Groups.{IsListSize, group_rows-slice, group_rows-last}
use platform_event_filter.ConfigUpdate.{change_at, put_values, put_in_list}
use platform_event_filter.ConfigUpdate.Overlay.{
  overlay, overlay-nil, take-overlay, drop-overlay, overlay-take,
}

drop_none : {A : Type 0} (n : ℕ) (xs : List A) → n ≡ 0 → drop n xs ≡ xs
drop_none {A} n xs e = ap (λ (m : ℕ). drop m xs) e

-- Lists do not overlap.
starts_apart : (size k b : ℕ) → IsListSize size → k < b → k * size + size ≤ b * size
starts_apart size k b (inl e) h = rw (e) (omega arith)
starts_apart size k b (inr e) h = rw (e) (omega arith)

list_slice :
    {A : Type 0} (size : ℕ) (rows : List A)
    → IsListSize size
    → (k : ℕ) → k < 3
    → group_rows size rows k ≡ take size (drop (k * size) rows)
list_slice {A} size rows is_size k h =
    group_rows-slice size rows is_size k h
    ∙ ap (λ (m : ℕ). take size (drop m rows)) (mul_comm size k)

list_last :
    {A : Type 0} (size : ℕ) (rows : List A)
    → IsListSize size
    → (k : ℕ) → k ≤ 3
    → ltb k 3 ≡ false
    → group_rows size rows k ≡ drop (k * size) rows
list_last {A} size rows is_size k h e =
    let three : k ≡ 3 = ground arith in
    ap (group_rows size rows) three
    ∙ group_rows-last size rows is_size
    ∙ ap (λ (m : ℕ). drop m rows) (mul_comm size 3 ∙ ap (λ (j : ℕ). j * size) (sym three))

module _ (property : String) where
  put_values-cons :
      (at : ℕ) (values : List Cell) (row : Row) (rows : List Row)
      → put_values property (suc at) values (row ∷ rows) ≡ row ∷ put_values property at values rows
  unfolding put_values change_at
  put_values-cons at [] row rows = refl
  put_values-cons at (v ∷ values) row rows =
      put_values-cons (suc at) values row (change_at at (put property v) rows)

  put_values-nil : (at : ℕ) (values : List Cell) → put_values property at values [] ≡ []
  unfolding put_values change_at
  put_values-nil at [] = refl
  put_values-nil at (v ∷ values) = put_values-nil (suc at) values

  put_values-overlay :
      (at : ℕ) (values : List Cell) (rows : List Row)
      → put_values property at values rows ≡ take at rows ++ overlay property values (drop at rows)
  unfolding overlay put_values change_at
  put_values-overlay at values [] =
      rw
        (
          put_values-nil at values,
          take-nil {A = Row} at,
          drop-nil {A = Row} at,
          overlay-nil property values,
        )
        refl
  put_values-overlay zero [] (row ∷ rows) = refl
  put_values-overlay zero (v ∷ values) (row ∷ rows) =
      put_values-cons zero values (put property v row) rows
      ∙ ap (λ t. put property v row ∷ t) (put_values-overlay zero values rows)
  put_values-overlay (suc at) values (row ∷ rows) =
      put_values-cons at values row rows ∙ ap (λ t. row ∷ t) (put_values-overlay at values rows)

  overlay_counted :
      (room : ℕ) (values : List Cell) (rows : List Row)
      → length rows ≤ room
      → overlay property (take (min (length values) room) values) rows
        ≡ overlay property values rows
  overlay_counted room values rows h = elim (Bool-cases (ltb (length values) room)) [
    | inl fewer ↦
        let m : min (length values) room ≡ length values = ground arith in
        rw (m, take_all (length values) values (omega arith)) refl
    | inr more ↦
        let m : min (length values) room ≡ room = ground arith in
        rw (m) (overlay-take property room values rows h)
  ]

  -- The rows before the list stay; from its first row on, each value is put into its row.
  pub put_in_list-overlay :
      (size bucket : ℕ) (values : List Cell) (rows : List Row)
      → put_in_list size bucket property values rows
        ≡ take (bucket * size) rows ++ overlay property values (drop (bucket * size) rows)
  unfolding put_in_list
  put_in_list-overlay size bucket values rows =
      let first_row : ℕ = bucket * size in
      let room : ℕ = if ltb first_row (length rows) then length rows - first_row else 0 in
      let rest : List Row = drop first_row rows in
      let e : room ≡ length rest = ground (arith, length-drop first_row rows) in
      put_values-overlay first_row (take (min (length values) room) values) rows
      ∙ ap (λ t. take first_row rows ++ t) (overlay_counted room values rest (omega arith))

  -- Rows from `first_row` on that get values, seen through the parts of the table.
  module _ (first_row : ℕ) (values : List Cell) (rows : List Row) where
    changed : List Row
    changed = take first_row rows ++ overlay property values (drop first_row rows)

    changed_short : length rows < first_row → changed ≡ rows
    unfolding changed
    changed_short h =
        rw
          (
            drop_all first_row rows (omega arith),
            overlay-nil property values,
            append-nil (take first_row rows),
          )
          (take_all first_row rows (omega arith))

    drop-changed : drop first_row changed ≡ overlay property values (drop first_row rows)
    unfolding changed
    drop-changed = elim (Bool-cases (ltb (length rows) first_row)) [
      | inl short ↦
          ap (drop first_row) (changed_short (ground arith))
          ∙ drop_all first_row rows (ground arith)
          ∙ sym (
              ap (overlay property values) (drop_all first_row rows (ground arith))
              ∙ overlay-nil property values)
      | inr long ↦
          let e : length (take first_row rows) ≡ first_row =
            length-take first_row rows (ground arith) in
          drop-append_past first_row (take first_row rows)
            (overlay property values (drop first_row rows)) (omega arith)
          ∙ drop_none (first_row - length (take first_row rows))
              (overlay property values (drop first_row rows)) (omega arith)
    ]

    take_before : (n k : ℕ) → n + k ≤ first_row → take k (drop n changed) ≡ take k (drop n rows)
    unfolding changed
    take_before n k h = elim (Bool-cases (ltb (length rows) first_row)) [
      | inl short ↦ ap (λ t. take k (drop n t)) (changed_short (ground arith))
      | inr long ↦
          let e : length (take first_row rows) ≡ first_row =
            length-take first_row rows (ground arith) in
          sym (drop-take n k changed)
          ∙ ap (drop n) (
              take-append (n + k) (take first_row rows)
                (overlay property values (drop first_row rows)) (omega arith)
              ∙ sym (take-append (n + k) (take first_row rows) (drop first_row rows) (omega arith))
              ∙ ap (take (n + k)) (take-drop first_row rows))
          ∙ drop-take n k rows
    ]

    drop_after : (n : ℕ) → first_row + length values ≤ n → drop n changed ≡ drop n rows
    unfolding changed
    drop_after n h = elim (Bool-cases (ltb (length rows) first_row)) [
      | inl short ↦ ap (drop n) (changed_short (ground arith))
      | inr long ↦
          let e : length (take first_row rows) ≡ first_row =
            length-take first_row rows (ground arith) in
          drop-append_past n (take first_row rows) (overlay property values (drop first_row rows))
            (omega arith)
          ∙ drop-overlay property (n - length (take first_row rows)) values (drop first_row rows)
              (omega arith)
          ∙ drop-drop first_row (n - length (take first_row rows)) rows
          ∙ ap (λ (m : ℕ). drop m rows) (omega arith)
    ]

  module _ (size bucket : ℕ) (values : List Cell) (rows : List Row)
      (is_size : IsListSize size) where
    first_row : ℕ
    first_row = bucket * size

    new : List Row
    unfolding changed
    new = changed first_row values rows

    after_list :
        (k : ℕ)
        → k ≤ 3
        → bucket < k
        → (bucket < 3 → length values ≤ size)
        → group_rows size new k ≡ group_rows size rows k
    unfolding new first_row
    after_list k h past short =
        let apart : bucket * size + size ≤ k * size = starts_apart size bucket k is_size past in
        let same : drop (k * size) new ≡ drop (k * size) rows =
          drop_after first_row values rows (k * size) (omega (arith, short (omega arith))) in
        elim (Bool-cases (ltb k 3)) [
          | inl e ↦
              list_slice size new is_size k (ground arith)
              ∙ ap (take size) same
              ∙ sym (list_slice size rows is_size k (ground arith))
          | inr e ↦
              list_last size new is_size k h e ∙ same ∙ sym (list_last size rows is_size k h e)
        ]

    -- The list itself gets the values.
    pub group_rows-put_in_list :
        bucket ≤ 3
        → group_rows size (put_in_list size bucket property values rows) bucket
          ≡ overlay property values (group_rows size rows bucket)
    unfolding new first_row changed
    group_rows-put_in_list h =
        ap (λ t. group_rows size t bucket) (put_in_list-overlay size bucket values rows)
        ∙ elim (Bool-cases (ltb bucket 3)) [
          | inl e ↦
              list_slice size new is_size bucket (ground arith)
              ∙ ap (take size) (drop-changed first_row values rows)
              ∙ take-overlay property size values (drop first_row rows)
              ∙ ap (overlay property values)
                  (sym (list_slice size rows is_size bucket (ground arith)))
          | inr e ↦
              list_last size new is_size bucket h e
              ∙ drop-changed first_row values rows
              ∙ ap (overlay property values) (sym (list_last size rows is_size bucket h e))
        ]

    -- The other lists stay, where a list before the last gets no more values than it has room for.
    pub group_rows-put_in_list_other :
        (k : ℕ)
        → k ≤ 3
        → k ≢ bucket
        → bucket ≤ 3
        → (bucket < 3 → length values ≤ size)
        → group_rows size (put_in_list size bucket property values rows) k ≡ group_rows size rows k
    unfolding new first_row changed
    group_rows-put_in_list_other k h ne l short =
        ap (λ t. group_rows size t k) (put_in_list-overlay size bucket values rows)
        ∙ elim (Bool-cases (ltb k bucket)) [
          | inl e ↦
              list_slice size new is_size k (ground arith)
              ∙ take_before first_row values rows (k * size) size
                  (starts_apart size k bucket is_size (ground arith))
              ∙ sym (list_slice size rows is_size k (ground arith))
          | inr e ↦ after_list k h (ground arith) short
        ]
