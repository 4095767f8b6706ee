-- ===== src/Filter/FromFile/ListRows.antt =====
-- src/pef_action.cpp, `eventFilteringProcess`: the loop over one group, whose columns are those that the
-- service shows of a list, collects the filters of the list's rows that accept the event.
use platform_event_filter.Common.{
  ℕ, zero, suc, ◌+◌, ◌≡◌, refl, sym, ap, arith, inl, inr, Bool-cases, Option, none, some,
  Option-cases, List, [], ◌∷◌, ◌++◌, String, length, get_elem?, drop,
}
use platform_event_filter.Common.Options.{◌>>=◌}
use platform_event_filter.Common.Int.{ℤ}
use platform_event_filter.EventData.{EventMsgData}
use platform_event_filter.Retry.{to_unsigned}
use platform_event_filter.Tables.{Row, value_or_zero, cons_cast, column, group_rows}
use platform_event_filter.ConfigUpdate.Lists.{shown}
use platform_event_filter.Filter.{EvtFilterTblEntry, accepts}
use platform_event_filter.Filter.Rows.{Columns, row, push_if, match_rows, match_table}
use platform_event_filter.Filter.FromFile.{cast_value, cast, entry_of, accepted, Shows}

cons_cast-some :
    (w : ℕ) (o : Option ℤ) (rest : Option (List ℕ)) {vs : List ℕ}
    → cons_cast w o rest ≡ some vs
    → (v : ℕ) × (us : List ℕ) × (cast_value w o ≡ some v) × (rest ≡ some us) × (vs ≡ v ∷ us)
unfolding cons_cast
cons_cast-some w none rest h = cc
cons_cast-some w (some z) none h = cc
cons_cast-some w (some z) (some us) h = (to_unsigned w z, us, refl, refl, cc)

-- A cell of a column is the cast cell of the row.
get_elem?-column :
    (w : ℕ) (key : String) (rows : List Row) (vs : List ℕ) (i : ℕ)
    → column w key rows ≡ some vs
    → get_elem? vs i ≡ (get_elem? rows i >>= cast w key)
unfolding column
get_elem?-column w key [] vs i h = let e : vs ≡ [] = cc in rw (e) refl
get_elem?-column w key (r ∷ rows) vs i h =
    let (v, us, read, rest, e) = cons_cast-some w (value_or_zero (r key)) (column w key rows) h in
    rw (e) (at_index us i read (λ j. get_elem?-column w key rows us j rest))
  where
    at_index :
        {v : ℕ} (us : List ℕ) (j : ℕ)
        → cast w key r ≡ some v
        → ((m : ℕ) → get_elem? us m ≡ (get_elem? rows m >>= cast w key))
        → get_elem? (v ∷ us) j ≡ (get_elem? (r ∷ rows) j >>= cast w key)
    at_index us zero read later = sym read
    at_index us (suc m) read later = later m

length-column :
    (w : ℕ) (key : String) (rows : List Row) (vs : List ℕ)
    → column w key rows ≡ some vs
    → length vs ≡ length rows
unfolding column
length-column w key [] vs h = let e : vs ≡ [] = cc in rw (e) refl
length-column w key (r ∷ rows) vs h =
    let (v, us, read, rest, e) = cons_cast-some w (value_or_zero (r key)) (column w key rows) h in
    rw (e) (ap suc (length-column w key rows us rest))

-- The element where a suffix begins, and the suffix after it.
suffix_parts :
    (i : ℕ) (xs : List Row) (x : Row) (rest : List Row)
    → drop i xs ≡ x ∷ rest
    → (get_elem? xs i ≡ some x) × (drop (i + 1) xs ≡ rest)
suffix_parts zero [] x rest h = absurd (ground arith)
suffix_parts zero (y ∷ ys) x rest h = (cc, cc)
suffix_parts (suc i) [] x rest h = absurd (ground arith)
suffix_parts (suc i) (y ∷ ys) x rest h =
    let next : suc i + 1 ≡ suc (i + 1) = omega arith in rw (next) (suffix_parts i ys x rest h)

pub accepted-append :
    (msg : EventMsgData) (xs ys : List Row)
    → accepted msg (xs ++ ys) ≡ accepted msg xs ++ accepted msg ys
unfolding accepted push_if
accepted-append msg [] ys = refl
accepted-append msg (r ∷ xs) ys =
    rw (accepted-append msg xs ys) (split (entry_of r) (accepted msg xs) (accepted msg ys))
  where
    split :
        (o : Option EvtFilterTblEntry) (es fs : List EvtFilterTblEntry)
        → push_if msg o (es ++ fs) ≡ push_if msg o es ++ fs
    split none es fs = refl
    split (some e) es fs = elim (Bool-cases (accepts msg e)) [
      | inl t ↦ rw (t) refl
      | inr t ↦ rw (t) refl
    ]

module _ (rows : List Row) (k : ℕ) (c : Columns) (s : Shows rows k c) where
  abbrev list : List Row
  list = group_rows 10 rows k

  row-entry_of : (i : ℕ) → row c i ≡ (get_elem? list i >>= entry_of)
  unfolding row entry_of shown
  row-entry_of i = elim (Option-cases (get_elem? list i)) [
    | inl e ↦ rw (get_elem?-column 8 "FilterConfig" list c.filter_config i s.config, e) refl
    | inr (r, e) ↦
        rw
          (
            get_elem?-column 8 "FilterConfig" list c.filter_config i s.config,
            get_elem?-column 8 "GenIDByte1" list c.gen_id_byte1 i s.g1,
            get_elem?-column 8 "GenIDByte2" list c.gen_id_byte2 i s.g2,
            get_elem?-column 8 "SensorType" list c.sensor_type i s.type,
            get_elem?-column 8 "SensorNum" list c.sensor_num i s.num,
            get_elem?-column 8 "EventTrigger" list c.event_trigger i s.trigger,
            get_elem?-column 8 "EventData1ANDMask" list c.event_data1_and_mask i s.mask1,
            get_elem?-column 8 "EventData1Cmp1" list c.event_data1_cmp1 i s.cmp11,
            get_elem?-column 8 "EventData1Cmp2" list c.event_data1_cmp2 i s.cmp12,
            get_elem?-column 8 "EventData2ANDMask" list c.event_data2_and_mask i s.mask2,
            get_elem?-column 8 "EventData2Cmp1" list c.event_data2_cmp1 i s.cmp21,
            get_elem?-column 8 "EventData2Cmp2" list c.event_data2_cmp2 i s.cmp22,
            get_elem?-column 8 "EventData3ANDMask" list c.event_data3_and_mask i s.mask3,
            get_elem?-column 8 "EventData3Cmp1" list c.event_data3_cmp1 i s.cmp31,
            get_elem?-column 8 "EventData3Cmp2" list c.event_data3_cmp2 i s.cmp32,
            get_elem?-column 16 "EventData1OffsetMask" list c.event_data1_offset_mask i s.offset,
            get_elem?-column 8 "EvtFilterAction" list c.evt_filter_action i s.action,
            get_elem?-column 8 "AlertPolicyNum" list c.alert_policy_num i s.policy,
            get_elem?-column 8 "EventSeverity" list c.event_severity i s.severity,
            e,
          )
          refl
  ]

  match_rows-accepted :
      (msg : EventMsgData) (rest : List Row) (i : ℕ)
      → drop i list ≡ rest
      → match_rows msg c (length rest) i ≡ accepted msg rest
  unfolding match_rows accepted
  match_rows-accepted msg [] i h = refl
  match_rows-accepted msg (r ∷ rest) i h =
      let (here, later) = suffix_parts i list r rest h in
      rw (row-entry_of i, here, match_rows-accepted msg rest (i + 1) later) refl

  pub match_table-accepted : (msg : EventMsgData) → match_table msg c ≡ accepted msg list
  unfolding match_table shown
  match_table-accepted msg =
      rw (length-column 8 "FilterConfig" list c.filter_config s.config)
        (match_rows-accepted msg list 0 refl)
