-- ===== src/Policy/Laws.antt =====
-- src/pef_action.cpp, `checkAlertPoicyTbl`: which rows of an alert policy object are taken.
use mathlib.Core.List.{Mem, mem-cons_self, mem-cons_of_mem}
use platform_event_filter.Common.{
  ℕ, zero, suc, ◌+◌, ◌≡◌, ap, sym, ◌∙◌, Bool, true, false, ◌!=◌, if◌then◌else◌, some, List, [], ◌∷◌,
  get_elem?, All, arith, Bool-cases, inl, inr,
}
use platform_event_filter.Policy.{
  AlertPolicyTbl, PolicyColumns, is_disabled, policy_row, policy_rows,
}

skip-mem :
    (a b : Bool) (e x : AlertPolicyTbl) (rest : List AlertPolicyTbl)
    → Mem e rest
    → Mem e (if a then rest else if b then rest else x ∷ rest)
skip-mem true b e x rest h = h
skip-mem false true e x rest h = h
skip-mem false false e x rest h = mem-cons_of_mem x h

module _ (policy_no : ℕ) (c : PolicyColumns) where
  -- A row of the group, `offset` rows after row `from`, whose alerts are enabled.
  pub record IsPolicy (from : ℕ) (group_nums : List ℕ) (e : AlertPolicyTbl) : Type 0 where
    pub offset : ℕ
    pub in_group : get_elem? group_nums offset ≡ some policy_no
    pub is_enabled : is_disabled c.enable_alert (from + offset) ≡ false
    pub is_row : e ≡ policy_row c policy_no (from + offset)

  later :
      (i g : ℕ) (gs : List ℕ) (es : List AlertPolicyTbl)
      → All (IsPolicy (i + 1) gs) es
      → All (IsPolicy i (g ∷ gs)) es
  later i g gs [] h = tt
  later i g gs (e ∷ es) (p, h) =
      let same : i + suc p.offset ≡ i + 1 + p.offset = omega arith in
      (
        record {
          offset = suc p.offset;
          in_group = p.in_group;
          is_enabled = ap (is_disabled c.enable_alert) same ∙ p.is_enabled;
          is_row = p.is_row ∙ ap (policy_row c policy_no) (sym same);
        },
        later i g gs es h,
      )

  here :
      (i g : ℕ) (gs : List ℕ) (es : List AlertPolicyTbl)
      → is_disabled c.enable_alert i ≡ false
      → g ≡ policy_no
      → All (IsPolicy i (g ∷ gs)) es
      → All (IsPolicy i (g ∷ gs)) (policy_row c g i ∷ es)
  here i g gs es d e h =
      let same : i + 0 ≡ i = omega arith in
      (
        record {
          offset = 0;
          in_group = ap some e;
          is_enabled = ap (is_disabled c.enable_alert) same ∙ d;
          is_row = ap (λ (n : ℕ). policy_row c n i) e ∙ ap (policy_row c policy_no) (sym same);
        },
        h,
      )

  policy_rows-IsPolicy : (gs : List ℕ) (i : ℕ) → All (IsPolicy i gs) (policy_rows policy_no c gs i)
  unfolding policy_rows
  policy_rows-IsPolicy [] i = tt
  policy_rows-IsPolicy (g ∷ gs) i =
      let rest = later i g gs _ (policy_rows-IsPolicy gs (i + 1)) in
      elim (Bool-cases (is_disabled c.enable_alert i)) [
        | inl d ↦ rw d rest
        | inr d ↦ elim (Bool-cases (g != policy_no)) [
          | inl ne ↦ rw (d, ne) rest
          | inr eq ↦ rw (d, eq) (here i g gs _ d (ground arith) rest)
        ]
      ]

  policy_rows-mem :
      (gs : List ℕ) (i offset : ℕ)
      → get_elem? gs offset ≡ some policy_no
      → is_disabled c.enable_alert (i + offset) ≡ false
      → Mem (policy_row c policy_no (i + offset)) (policy_rows policy_no c gs i)
  unfolding policy_rows
  policy_rows-mem [] i offset e d = absurd (cc)
  policy_rows-mem (g ∷ gs) i zero e d =
      let same : i + 0 ≡ i = omega arith in
      let on : is_disabled c.enable_alert i ≡ false =
        ap (is_disabled c.enable_alert) (sym same) ∙ d in
      let wanted : g ≡ policy_no = ground arith in
      let kept : (g != policy_no) ≡ false = ground arith in
      rw (on, kept, same, wanted) mem-cons_self
  policy_rows-mem (g ∷ gs) i (suc offset) e d =
      let same : i + suc offset ≡ i + 1 + offset = omega arith in
      rw same (
        skip-mem (is_disabled c.enable_alert i) (g != policy_no) _ (policy_row c g i) _
          (policy_rows-mem gs (i + 1) offset e (ap (is_disabled c.enable_alert) (sym same) ∙ d)))

  -- Each row taken from a policy object is one of the wanted group whose alerts are enabled, with the
  -- cells of its row.
  pub policy_rows_sound : All (IsPolicy 0 c.group_nums) (policy_rows policy_no c c.group_nums 0)
  policy_rows_sound = policy_rows-IsPolicy c.group_nums 0

  -- Each row of the wanted group whose alerts are enabled is taken.
  pub policy_rows_complete :
      (idx : ℕ)
      → get_elem? c.group_nums idx ≡ some policy_no
      → is_disabled c.enable_alert idx ≡ false
      → Mem (policy_row c policy_no idx) (policy_rows policy_no c c.group_nums 0)
  policy_rows_complete idx e d =
      let same : 0 + idx ≡ idx = omega arith in
      rw same at (policy_rows-mem c.group_nums 0 idx e (ap (is_disabled c.enable_alert) same ∙ d))
