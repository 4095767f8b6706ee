-- ===== src/Tables/Groups.antt =====
-- src/pef_config.cpp, `parsePefConfToDbus`: the lists that the loops over a table fill are consecutive
-- parts of it, and together they are the table.
use mathlib.Core.List.{append_assoc, append-nil}
use platform_event_filter.Common.{
  ℕ, suc, ◌+◌, ◌-◌, ◌*◌, ◌≤◌, ◌<◌, ◌≡◌, refl, sym, ap, ◌∙◌, arith, inl, inr, Bool, true, false,
  ◌&&◌, ◌==◌, ltb, leb, Bool-cases, if◌then◌else◌, List, [], ◌∷◌, ◌++◌, length, take, drop,
  take_all, take-nil, drop-nil, take-drop, drop-take, drop-drop, length-take_le, ◌⊎◌,
}
use platform_event_filter.Tables.{bucket_of_index, push_back, fill, group_rows}

module _ {A : Type 0} where
  -- The elements whose index passes a test.
  picks : (ℕ → Bool) → ℕ → List A → List A
  picks inside idx [] = []
  picks inside idx (x ∷ xs) =
      let rest = picks inside (suc idx) xs in if inside idx then x ∷ rest else rest

  fill-picks :
      (size k idx : ℕ) (xs : List A) (buckets : ℕ → List A)
      → fill size idx xs buckets k ≡ buckets k ++ picks (λ j. k == bucket_of_index size j) idx xs
  unfolding fill push_back picks
  fill-picks size k idx [] buckets = sym (append-nil (buckets k))
  fill-picks size k idx (x ∷ xs) buckets = elim (Bool-cases (k == bucket_of_index size idx)) [
    | inl e ↦
        fill-picks size k (suc idx) xs (push_back (bucket_of_index size idx) x buckets)
        ∙ rw (e) (
            append_assoc (buckets k) (x ∷ [])
              (picks (λ j. k == bucket_of_index size j) (suc idx) xs))
    | inr e ↦
        fill-picks size k (suc idx) xs (push_back (bucket_of_index size idx) x buckets)
        ∙ rw (e) refl
  ]

  module _ (inside : ℕ → Bool) (lo hi : ℕ) (ordered : lo ≤ hi) where
    picks-slice :
        (idx : ℕ) (xs : List A)
        → ((j : ℕ) → idx ≤ j → j < idx + length xs → inside j ≡ (leb lo j && ltb j hi))
        → picks inside idx xs ≡ drop (lo - idx) (take (hi - idx) xs)
    unfolding picks
    picks-slice idx [] within = rw (take-nil {A = A} (hi - idx), drop-nil {A = A} (lo - idx)) refl
    picks-slice idx (x ∷ xs) within =
        let here : inside idx ≡ (leb lo idx && ltb idx hi) =
          within idx (omega arith) (omega arith) in
        let later : picks inside (suc idx) xs ≡ drop (lo - suc idx) (take (hi - suc idx) xs) =
          picks-slice (suc idx) xs (λ j l b. within j (omega arith) (omega arith)) in
        elim (Bool-cases (ltb idx lo)) [
          | inl e ↦
              let out : inside idx ≡ false = ground arith in
              let l : lo - idx ≡ suc (lo - suc idx) = ground arith in
              let h : hi - idx ≡ suc (hi - suc idx) = ground arith in rw (out, l, h) (later)
          | inr e ↦ elim (Bool-cases (ltb idx hi)) [
            | inl f ↦
                let is_in : inside idx ≡ true = ground arith in
                let l : lo - idx ≡ 0 = ground arith in
                let l' : lo - suc idx ≡ 0 = ground arith in
                let h : hi - idx ≡ suc (hi - suc idx) = ground arith in
                rw (is_in, l, h) (ap (λ t. x ∷ t) (rw (l') at later))
            | inr f ↦
                let out : inside idx ≡ false = ground arith in
                let h : hi - idx ≡ 0 = ground arith in
                let h' : hi - suc idx ≡ 0 = ground arith in
                rw (out, h, drop-nil {A = A} (lo - idx))
                  (rw (h', drop-nil {A = A} (lo - suc idx)) at later)
          ]
        ]

slice_from_zero :
    {A : Type 0} (lo hi : ℕ) (xs : List A) → drop (lo - 0) (take (hi - 0) xs) ≡ drop lo (take hi xs)
slice_from_zero {A} lo hi xs =
    let l : lo - 0 ≡ lo = omega arith in
    let h : hi - 0 ≡ hi = omega arith in
    ap (λ (m : ℕ). drop m (take (hi - 0) xs)) l ∙ ap (λ (m : ℕ). drop lo (take m xs)) h

-- A part and what follows it.
chunk :
    {A : Type 0} (size m n : ℕ) (xs : List A)
    → n ≡ m + size
    → take size (drop m xs) ++ drop n xs ≡ drop m xs
chunk {A} size m n xs e =
    ap (λ (k : ℕ). take size (drop m xs) ++ drop k xs) e
    ∙ ap (λ (t : List A). take size (drop m xs) ++ t) (sym (drop-drop m size xs))
    ∙ take-drop size (drop m xs)

-- The two numbers of rows that a list has.
abbrev pub IsListSize : ℕ → Type 0
IsListSize size = (size ≡ 10) ⊎ (size ≡ 15)

in_bucket :
    (size k j : ℕ)
    → IsListSize size
    → k < 3
    → (k == bucket_of_index size j) ≡ (leb (size * k) j && ltb j (size * k + size))
unfolding bucket_of_index
in_bucket size k j (inl e) h = rw (e) (ground arith)
in_bucket size k j (inr e) h = rw (e) (ground arith)

in_last_bucket :
    (size j end : ℕ)
    → IsListSize size
    → j < end
    → (3 == bucket_of_index size j) ≡ (leb (size * 3) j && ltb j end)
unfolding bucket_of_index
in_last_bucket size j end (inl e) h = rw (e) (ground arith)
in_last_bucket size j end (inr e) h = rw (e) (ground arith)

module _ {A : Type 0} (size : ℕ) (rows : List A) (is_size : IsListSize size) where
  -- Each of the first three lists is the part of the table at its number.
  pub group_rows-slice : (k : ℕ) → k < 3 → group_rows size rows k ≡ take size (drop (size * k) rows)
  unfolding group_rows
  group_rows-slice k h =
      fill-picks size k 0 rows (λ k. [])
      ∙ picks-slice (λ j. k == bucket_of_index size j) (size * k) (size * k + size) (omega arith) 0
          rows (λ j l b. in_bucket size k j is_size h)
      ∙ slice_from_zero (size * k) (size * k + size) rows
      ∙ drop-take (size * k) size rows

  -- The last is all that is left.
  pub group_rows-last : group_rows size rows 3 ≡ drop (size * 3) rows
  unfolding group_rows
  group_rows-last =
      let end : ℕ = size * 3 + length rows in
      fill-picks size 3 0 rows (λ k. [])
      ∙ picks-slice (λ j. 3 == bucket_of_index size j) (size * 3) end (omega arith) 0 rows
          (λ j l b. in_last_bucket size j end is_size (omega arith))
      ∙ slice_from_zero (size * 3) end rows
      ∙ ap (drop (size * 3)) (take_all end rows (omega arith))

  -- The lists one after the other are the table.
  pub group_rows-append :
      let list : ℕ → List A = group_rows size rows in
      list 0 ++ (list 1 ++ (list 2 ++ list 3)) ≡ rows
  group_rows-append =
      rw
        (
          group_rows-slice 0 (omega arith),
          group_rows-slice 1 (omega arith),
          group_rows-slice 2 (omega arith),
          group_rows-last,
          chunk size (size * 2) (size * 3) rows (omega arith),
          chunk size (size * 1) (size * 2) rows (omega arith),
          chunk size (size * 0) (size * 1) rows (omega arith),
        )
        (let none_before : size * 0 ≡ 0 = omega arith in rw (none_before) refl)

  -- A list before the last has no more rows than its size.
  pub group_rows-length : (k : ℕ) → k < 3 → length (group_rows size rows k) ≤ size
  group_rows-length k h = rw (group_rows-slice k h) (length-take_le size (drop (size * k) rows))
