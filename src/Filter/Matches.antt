-- ===== src/Filter/Matches.antt =====
-- src/pef_action.cpp, `eventFilteringProcess`: which rows the loop over one group collects.
use platform_event_filter.Common.{
  ℕ, zero, suc, ◌+◌, ◌<◌, ◌≤◌, ◌≡◌, refl, true, Option, none, some, List, [], ◌∷◌, arith, All,
  Bool-cases, inl, inr, length,
}
use native.Mathlib.Decide.{ℕ_discrete}
use mathlib.Core.List.{Mem, mem-cons_self, mem-cons_of_mem}
use platform_event_filter.EventData.{EventMsgData}
use platform_event_filter.Filter.{EvtFilterTblEntry, accepts}
use platform_event_filter.Filter.Rows.{Columns, row, push_if, match_rows, match_table}

module _ (msg : EventMsgData) (c : Columns) where
  -- An accepted row from `lo` on and below `hi`.
  pub record IsMatch (lo hi : ℕ) (e : EvtFilterTblEntry) : Type 0 where
    pub idx : ℕ
    pub above : lo ≤ idx
    pub below : idx < hi
    pub is_row : row c idx ≡ some e
    pub accepted : accepts msg e ≡ true

  widen :
      (lo lo' hi hi' : ℕ) (es : List EvtFilterTblEntry)
      → lo' ≤ lo
      → hi ≤ hi'
      → All (IsMatch lo hi) es
      → All (IsMatch lo' hi') es
  widen lo lo' hi hi' [] p q h = tt
  widen lo lo' hi hi' (e ∷ es) p q (m, h) = (
    record {
      idx = m.idx;
      above = omega (arith, m.above);
      below = omega (arith, m.below);
      is_row = m.is_row;
      accepted = m.accepted;
    },
    widen lo lo' hi hi' es p q h,
  )

  push_if-IsMatch :
      (lo hi idx : ℕ) (o : Option EvtFilterTblEntry) (rest : List EvtFilterTblEntry)
      → lo ≤ idx
      → idx < hi
      → row c idx ≡ o
      → All (IsMatch lo hi) rest
      → All (IsMatch lo hi) (push_if msg o rest)
  unfolding push_if
  push_if-IsMatch lo hi idx none rest p q e h = h
  push_if-IsMatch lo hi idx (some a) rest p q e h = elim (Bool-cases (accepts msg a)) [
    | inl yes' ↦
        rw yes' (record { idx = idx; above = p; below = q; is_row = e; accepted = yes' }, h)
    | inr no' ↦ rw no' h
  ]

  match_rows-IsMatch : (n i : ℕ) → All (IsMatch i (i + n)) (match_rows msg c n i)
  unfolding match_rows
  match_rows-IsMatch zero i = tt
  match_rows-IsMatch (suc n) i =
      push_if-IsMatch i (i + suc n) i (row c i) (match_rows msg c n (i + 1)) (omega arith)
        (omega arith) refl
        (widen (i + 1) i (i + 1 + n) (i + suc n) _ (omega arith) (omega arith)
          (match_rows-IsMatch n (i + 1)))

  push_if-mem :
      (e : EvtFilterTblEntry) (o : Option EvtFilterTblEntry) (rest : List EvtFilterTblEntry)
      → Mem e rest
      → Mem e (push_if msg o rest)
  unfolding push_if
  push_if-mem e none rest h = h
  push_if-mem e (some a) rest h = elim (Bool-cases (accepts msg a)) [
    | inl yes' ↦ rw yes' (mem-cons_of_mem a h)
    | inr no' ↦ rw no' h
  ]

  push_if-mem_self :
      (e : EvtFilterTblEntry) (o : Option EvtFilterTblEntry) (rest : List EvtFilterTblEntry)
      → o ≡ some e
      → accepts msg e ≡ true
      → Mem e (push_if msg o rest)
  unfolding push_if
  push_if-mem_self e o rest r a = rw (r, push_if) (rw a mem-cons_self)

  match_rows-mem :
      (n i idx : ℕ) (e : EvtFilterTblEntry)
      → i ≤ idx
      → idx < i + n
      → row c idx ≡ some e
      → accepts msg e ≡ true
      → Mem e (match_rows msg c n i)
  unfolding match_rows
  match_rows-mem zero i idx e p q r a = absurd (omega arith)
  match_rows-mem (suc n) i idx e p q r a = elim (ℕ_discrete i idx) [
    | yes here ↦ push_if-mem_self e (row c i) (match_rows msg c n (i + 1)) (rw here r) a
    | no later ↦
        push_if-mem e (row c i) (match_rows msg c n (i + 1))
          (match_rows-mem n (i + 1) idx e (omega arith) (omega arith) r a)
  ]

  -- Each entry that the loop over a group collects is a row of the group, below the length of the
  -- first column, that accepts the event.
  pub match_table-IsMatch : All (IsMatch 0 (length c.filter_config)) (match_table msg c)
  unfolding match_table
  match_table-IsMatch =
      widen 0 0 (0 + length c.filter_config) (length c.filter_config) _ (omega arith) (omega arith)
        (match_rows-IsMatch (length c.filter_config) 0)

  -- Each row of the group, below the length of the first column, that accepts the event is collected.
  pub match_table-mem :
      (idx : ℕ) (e : EvtFilterTblEntry)
      → idx < length c.filter_config
      → row c idx ≡ some e
      → accepts msg e ≡ true
      → Mem e (match_table msg c)
  unfolding match_table
  match_table-mem idx e h r a =
      match_rows-mem (length c.filter_config) 0 idx e (omega arith) (omega arith) r a
