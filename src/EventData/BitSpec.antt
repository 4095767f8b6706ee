-- ===== src/EventData/BitSpec.antt =====
-- `pefEveDataMatch`, described bit by bit.
use platform_event_filter.Common.{
  ℕ, ◌<◌, ◌≡◌, ◌≢◌, ap, Bool, true, false, not, ◌&&◌, ◌||◌, ◌==◌, ◌!=◌, if◌then◌else◌, bit_and,
  bit_or, bit, arith,
}
use platform_event_filter.Common.Bits.{
  bit-bit_and, bit-bit_or, bit_and-lt, bit_or-lt, bit-complement, eq_of_bits, some_bit, bit-zero,
  bit-ones,
}
use platform_event_filter.Common.Positions.{
  Bool-ext, all_below, any_below, all_below_sound, all_below_complete, any_below_sound,
  any_below_complete, any_below_none, any_below-or,
}
use platform_event_filter.EventData.{pef_eve_data_match, complement}

abbrev pub same : Bool → Bool → Bool
same true b = b
same false b = not b

-- Bit `k` of the masked event data byte.
abbrev pub masked_bit : ℕ → ℕ → ℕ → Bool
masked_bit value and_mask k = bit k value && bit k and_mask

-- Every bit that `cmp1` marks as exact agrees with `cmp2`; and, unless all are exact, some other bit
-- agrees too.
pub bits_match : ℕ → ℕ → ℕ → ℕ → Bool
bits_match value and_mask cmp1 cmp2 =
    all_below 8 (λ k. not (bit k cmp1) || same (masked_bit value and_mask k) (bit k cmp2))
    && (cmp1 == 255
        || any_below 8 (λ k. not (bit k cmp1) && same (masked_bit value and_mask k) (bit k cmp2)))

bit_and-ne-zero : (k a b : ℕ) → bit k a ≡ true → bit k b ≡ true → bit_and a b ≢ 0
bit_and-ne-zero k a b p q e = ground (arith, bit-bit_and k a b, bit-zero k, ap (bit k) e)

module _ (t c1 c2 : ℕ) (ht : t < 256) (h1 : c1 < 256) (h2 : c2 < 256) where
  exact_lem :
      (bit_and t c1 == bit_and c2 c1)
      ≡ all_below 8 (λ k. not (bit k c1) || same (bit k t) (bit k c2))
  exact_lem =
      Bool-ext _ _
        (λ e. all_below_complete _ 8 (λ k l. ground (
          arith,
          bit-bit_and k t c1,
          bit-bit_and k c2 c1,
          ap (bit k) (let e' : bit_and t c1 ≡ bit_and c2 c1 = ground arith in e'),
        )))
        (λ e.
          let e' : bit_and t c1 ≡ bit_and c2 c1 =
            eq_of_bits _ _ (bit_and-lt t c1 ht) (bit_and-lt c2 c1 h2) (λ k l. ground (
              arith,
              bit-bit_and k t c1,
              bit-bit_and k c2 c1,
              all_below_sound (λ k. not (bit k c1) || same (bit k t) (bit k c2)) 8 k e l,
            )) in
          ground arith)

  -- The first test looks for a bit that is 1 on both sides.
  ones_lem :
      (bit_and (bit_and t (complement c1)) c2 != 0)
      ≡ any_below 8 (λ k. not (bit k c1) && (bit k t && bit k c2))
  ones_lem =
      Bool-ext _ _
        (λ e.
          let (k, l, set) =
            some_bit _ (bit_and-lt _ c2 (bit_and-lt t (complement c1) ht)) (ground arith) in
          any_below_complete _ 8 k l (
            ground (
              arith,
              bit-bit_and k (bit_and t (complement c1)) c2,
              bit-bit_and k t (complement c1),
              bit-complement k c1 h1 l,
            )))
        (λ e.
          let (k, l, set) = any_below_sound (λ k. not (bit k c1) && (bit k t && bit k c2)) 8 e in
          ground (
            arith,
            bit_and-ne-zero k (bit_and t (complement c1)) c2,
            bit-bit_and k t (complement c1),
            bit-complement k c1 h1 l,
          ))

  abbrev covered : ℕ
  covered = bit_or (bit_and t (complement c1)) c1

  covered-lt : covered < 256
  covered-lt = bit_or-lt _ c1 (bit_and-lt t (complement c1) ht) h1

  covered_bits :
      (k : ℕ)
      → k < 8
      → (bit k (complement covered) ≡ (not (bit k c1) && not (bit k t)))
        × (bit k (complement c2) ≡ not (bit k c2))
  covered_bits k l = ground (
    arith,
    bit-complement k covered covered-lt l,
    bit-complement k c2 h2 l,
    bit-bit_or k (bit_and t (complement c1)) c1,
    bit-bit_and k t (complement c1),
    bit-complement k c1 h1 l,
  )

  -- The second test looks for a bit that is 0 on both sides.
  zeros_lem :
      (bit_and (complement covered) (complement c2) != 0)
      ≡ any_below 8 (λ k. not (bit k c1) && (not (bit k t) && not (bit k c2)))
  zeros_lem =
      Bool-ext _ _
        (λ e.
          let (k, l, set) =
            some_bit _ (bit_and-lt (complement covered) (complement c2) (omega arith))
              (ground arith) in
          any_below_complete _ 8 k l
            (ground (arith, covered_bits k l, bit-bit_and k (complement covered) (complement c2))))
        (λ e.
          let (k, l, set) =
            any_below_sound (λ k. not (bit k c1) && (not (bit k t) && not (bit k c2))) 8 e in
          ground (arith, covered_bits k l, bit_and-ne-zero k (complement covered) (complement c2)))

  -- Some bit that is not exact agrees: it is 1 on both sides, or 0.
  agrees_lem : any_below 8 (λ k. not (bit k c1) && same (bit k t) (bit k c2)) ≡ (
      any_below 8 (λ k. not (bit k c1) && (bit k t && bit k c2))
      || any_below 8 (λ k. not (bit k c1) && (not (bit k t) && not (bit k c2))))
  agrees_lem = any_below-or _ _ _ (λ k. ground arith) 8

  no_ones : c2 ≡ 0 → any_below 8 (λ k. not (bit k c1) && (bit k t && bit k c2)) ≡ false
  no_ones e = any_below_none _ 8 (λ k l. ground (arith, bit-zero k, ap (bit k) e))

  no_zeros :
      c2 ≡ 255 → any_below 8 (λ k. not (bit k c1) && (not (bit k t) && not (bit k c2))) ≡ false
  no_zeros e = any_below_none _ 8 (λ k l. ground (arith, bit-ones k l, ap (bit k) e))

bits_match_lem :
    (v m c1 c2 : ℕ)
    → bits_match v m c1 c2 ≡ (
        all_below 8 (λ k. not (bit k c1) || same (bit k (bit_and v m)) (bit k c2))
        && (c1 == 255
            || any_below 8 (λ k. not (bit k c1) && same (bit k (bit_and v m)) (bit k c2))))
unfolding bits_match
bits_match_lem v m c1 c2 = simp bit-bit_and

-- On bytes the code's comparison is the bitwise one: 1 where it holds and 0 where it does not.
pub pef_eve_data_match_lem :
    (v m c1 c2 : ℕ)
    → v < 256
    → c1 < 256
    → c2 < 256
    → pef_eve_data_match v m c1 c2 ≡ (if bits_match v m c1 c2 then 1 else 0)
unfolding pef_eve_data_match
pef_eve_data_match_lem v m c1 c2 hv h1 h2 =
    let t : ℕ = bit_and v m in
    let ht : t < 256 = bit_and-lt v m hv in
    rw (bits_match_lem v m c1 c2) (
      ground (
        arith,
        exact_lem t c1 c2 ht h1 h2,
        agrees_lem t c1 c2 ht h1 h2,
        ones_lem t c1 c2 ht h1 h2,
        zeros_lem t c1 c2 ht h1 h2,
        no_ones t c1 c2 ht h1 h2,
        no_zeros t c1 c2 ht h1 h2,
      ))
