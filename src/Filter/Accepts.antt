-- ===== src/Filter/Accepts.antt =====
-- When a row of the event filter table accepts an event.
use platform_event_filter.Common.{
  ℕ, ◌%◌, ◌^◌, ◌<◌, ◌≡◌, refl, ◌≢◌, ◌↔◌, ◌⊎◌, true, false, ◌&&◌, ◌==◌, if◌then◌else◌, bit_and, bit,
  arith, not, ==_iff,
}
use platform_event_filter.Common.Bits.{bit_and_single, single_bit_and, bit_and_low}
use platform_event_filter.Common.Positions.{all_below, all_below_sound}
use native.Mathlib.Nat.{one-le-pow}
use platform_event_filter.EventData.{EventMsgData, pef_eve_data_match}
use platform_event_filter.EventData.BitSpec.{bits_match, pef_eve_data_match_lem}
use platform_event_filter.Filter.{EvtFilterTblEntry, accepts, source_differs, offset_bit}

-- The bytes that are compared are bytes.
pub record AreBytes (msg : EventMsgData) (e : EvtFilterTblEntry) : Type 0 where
  pub data1 : msg.event_data1 < 256
  pub data2 : msg.event_data2 < 256
  pub data3 : msg.event_data3 < 256
  pub cmp11 : e.event_data1_cmp1 < 256
  pub cmp12 : e.event_data1_cmp2 < 256
  pub cmp21 : e.event_data2_cmp1 < 256
  pub cmp22 : e.event_data2_cmp2 < 256
  pub cmp31 : e.event_data3_cmp1 < 256
  pub cmp32 : e.event_data3_cmp2 < 256

-- A field of the filter is the wildcard or equals the event's.
abbrev pub Fits : ℕ → ℕ → Type 0
Fits wanted actual = (wanted ≡ 0xFF) ⊎ (wanted ≡ actual)

-- What a filter asks of an event.
pub record Accepts (msg : EventMsgData) (e : EvtFilterTblEntry) : Type 0 where
  pub enabled : bit 7 e.filter_config ≡ true
  pub generator1 : Fits e.gen_id_byte1 msg.generator_id1
  pub generator2 : Fits e.gen_id_byte2 msg.generator_id2
  pub has_type : msg.sensor_type ≢ 0
  pub type : Fits e.sensor_type msg.sensor_type
  pub number : Fits e.sensor_num msg.sensor_num
  pub trigger : Fits e.event_trigger msg.event_type
  pub data1 :
      bits_match msg.event_data1 e.event_data1_and_mask e.event_data1_cmp1 e.event_data1_cmp2 ≡ true
  pub data2 :
      bits_match msg.event_data2 e.event_data2_and_mask e.event_data2_cmp1 e.event_data2_cmp2 ≡ true
  pub data3 :
      bits_match msg.event_data3 e.event_data3_and_mask e.event_data3_cmp1 e.event_data3_cmp2 ≡ true
  pub offset : bit (msg.event_data1 % 16) e.event_data1_offset_mask ≡ true

enabled_lem : (c : ℕ) → (0 == bit_and c 0x80) ≡ (if bit 7 c then false else true)
enabled_lem c = ground (arith, bit_and_single 7 c)

pow16 : (k : ℕ) → k < 16 → 2 ^ k % 2 ^ 16 ≡ 2 ^ k
unfolding all_below
pow16 k h = (==_iff _ _).0 (all_below_sound (λ k. 2 ^ k % 2 ^ 16 == 2 ^ k) 16 k refl h)

offset_bit_lem : (msg : EventMsgData) → offset_bit msg ≡ 2 ^ (msg.event_data1 % 16)
unfolding offset_bit
offset_bit_lem msg = rw bit_and_low (omega (arith, pow16 (msg.event_data1 % 16) (omega arith)))

offset_lem :
    (msg : EventMsgData) (mask : ℕ)
    → (0 == bit_and (offset_bit msg) mask)
      ≡ (if bit (msg.event_data1 % 16) mask then false else true)
offset_lem msg mask = rw (offset_bit_lem msg) (
    ground (arith, single_bit_and (msg.event_data1 % 16) mask, one-le-pow (msg.event_data1 % 16) 2))

data_lem :
    (v m c1 c2 : ℕ)
    → v < 256
    → c1 < 256
    → c2 < 256
    → (0 == pef_eve_data_match v m c1 c2) ≡ (if bits_match v m c1 c2 then false else true)
data_lem v m c1 c2 hv h1 h2 = ground (arith, pef_eve_data_match_lem v m c1 c2 hv h1 h2)

source_lem :
    (msg : EventMsgData) (e : EvtFilterTblEntry)
    → (source_differs msg e ≡ false) ↔ (
        Fits e.gen_id_byte1 msg.generator_id1
        × Fits e.gen_id_byte2 msg.generator_id2
        × (msg.sensor_type ≢ 0)
        × Fits e.sensor_type msg.sensor_type
        × Fits e.sensor_num msg.sensor_num
        × Fits e.event_trigger msg.event_type)
unfolding source_differs
source_lem msg e = ground arith

module _ (msg : EventMsgData) (e : EvtFilterTblEntry) (b : AreBytes msg e) where
  accepts_lem : accepts msg e ≡ (
      bit 7 e.filter_config
      && (not (source_differs msg e)
          && (bits_match msg.event_data1 e.event_data1_and_mask e.event_data1_cmp1
                e.event_data1_cmp2
              && (bits_match msg.event_data2 e.event_data2_and_mask e.event_data2_cmp1
                    e.event_data2_cmp2
                  && (bits_match msg.event_data3 e.event_data3_and_mask e.event_data3_cmp1
                        e.event_data3_cmp2
                      && bit (msg.event_data1 % 16) e.event_data1_offset_mask)))))
  unfolding accepts
  accepts_lem =
      rw
        (
          enabled_lem e.filter_config,
          offset_lem msg e.event_data1_offset_mask,
          data_lem _ e.event_data1_and_mask _ _ b.data1 b.cmp11 b.cmp12,
          data_lem _ e.event_data2_and_mask _ _ b.data2 b.cmp21 b.cmp22,
          data_lem _ e.event_data3_and_mask _ _ b.data3 b.cmp31 b.cmp32,
        )
        (ground arith)

  -- Where the compared data are bytes, the chain of tests passes an event exactly if the filter's
  -- requirements hold.
  pub accepts_iff : (accepts msg e ≡ true) ↔ Accepts msg e
  accepts_iff = (
    λ h. ground (arith, accepts_lem, source_lem msg e),
    λ a. ground (arith, accepts_lem, source_lem msg e),
  )
