-- ===== src/EventData.antt =====
-- src/pef_action.cpp: `pefEveDataMatch`, the comparison of one event data byte with the mask and the
-- two compare bytes of an event filter; include/pef_action.hpp: `EventMsgData`.
pub mod BitSpec
use platform_event_filter.Common.{
  ℕ, ◌-◌, Bool, true, false, ◌&&◌, ◌==◌, ◌!=◌, if◌then◌else◌, bit_and, bit_or, String,
}

-- A byte is a number below 256; the three event data bytes are three fields.
pub record EventMsgData : Type 0 where
  pub record_id : ℕ
  pub generator_id1 : ℕ
  pub generator_id2 : ℕ
  pub sensor_num : ℕ
  pub sensor_type : ℕ
  pub event_type : ℕ
  pub event_data1 : ℕ
  pub event_data2 : ℕ
  pub event_data3 : ℕ
  pub msg_str : String

abbrev pub all_bits_match_exact : ℕ
all_bits_match_exact = 0xff

abbrev pub all_zero_bits : ℕ
all_zero_bits = 0x00

abbrev pub all_one_bits : ℕ
all_one_bits = 0xff

-- `~x` of a byte, cut to a byte.
abbrev pub complement : ℕ → ℕ
complement x = 255 - x

-- The test of the bits that need not match exactly: `match` and `cmp2Flag` after the first test.
first_test : ℕ → ℕ → ℕ × Bool
first_test temp2 cmp2 =
    if cmp2 != all_zero_bits
    then (if bit_and temp2 cmp2 == 0 then (0, true) else (1, false))
    else (1, true)

-- The test under `cmp2Flag`, which overwrites `match`.
second_test : ℕ → ℕ → ℕ → ℕ × Bool → ℕ
second_test temp2 cmp1 cmp2 (match, cmp2_flag) =
    if cmp2_flag && cmp2 != all_one_bits
    then (if bit_and (complement (bit_or temp2 cmp1)) (complement cmp2) == 0 then 0 else 1)
    else match

unfoldable pub pef_eve_data_match : ℕ → ℕ → ℕ → ℕ → ℕ
unfolding first_test second_test
pef_eve_data_match value and_mask cmp1 cmp2 =
    let temp1 = bit_and value and_mask in
    let temp2 = bit_and temp1 (complement cmp1) in
    if bit_and temp1 cmp1 == bit_and cmp2 cmp1
    then (if cmp1 != all_bits_match_exact
        then second_test temp2 cmp1 cmp2 (first_test temp2 cmp2)
        else 1)
    else 0
