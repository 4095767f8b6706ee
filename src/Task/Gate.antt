-- ===== src/Task/Gate.antt =====
-- src/pef_action.cpp: when `pefTask` does nothing, and how it reads its parameters.
use platform_event_filter.Common.{
  ℕ, ◌+◌, ◌*◌, ◌/◌, ◌^◌, ◌<◌, ◌≡◌, ◌≢◌, ◌⊎◌, Bool, false, bit, some, [], String, arith,
}
use platform_event_filter.Common.Bits.{bit_and_single, bit_and_byte}
use platform_event_filter.EventData.{EventMsgData}
use platform_event_filter.Exec.{pure, ask, ◌>>=◌}
use platform_event_filter.Exec.Adds.{
  Adds, Adds-pure, Adds-ask, Adds-catch_sdbus, Adds-bind, Adds-after, Adds-eq,
}
use platform_event_filter.Bus.{Bus, message, u8}
use platform_event_filter.Bus.Calls.{or_raise, or_unreadable, call, read, get_u8}
use platform_event_filter.Task.{
  pef_obj, pef_conf_info_intf, pef_postpone_tmr_obj, pef_postpone_tmr_iface, event_msg, get_byte,
  gated, pef_task,
}

-- A generator id of 16 bits is its two bytes.
pub event_msg-generator :
    (rec_id sen_type sen_num eve_type eve_data1 eve_data2 eve_data3 gen_id : ℕ) (msg_str : String)
    → gen_id < 2 ^ 16
    → let msg =
        event_msg rec_id sen_type sen_num eve_type eve_data1 eve_data2 eve_data3 gen_id msg_str in
      (msg.generator_id1 * 256 + msg.generator_id2 ≡ gen_id)
      × (msg.generator_id1 < 256)
      × (msg.generator_id2 < 256)
unfolding event_msg
event_msg-generator rec_id sen_type sen_num eve_type eve_data1 eve_data2 eve_data3 gen_id msg_str
      h =
    omega (arith, bit_and_byte (gen_id / 256), bit_and_byte gen_id)

module _ (bus : Bus) (pef_ctl timer : ℕ) where
  -- The service answers both reads of the gate, with these bytes.
  pub record Gate : Type 0 where
    pub control_at :
        (n : ℕ)
        → bus.get n pef_obj pef_conf_info_intf "PEFControl"
          ≡ message (record { is_error = false; body = some (u8 pef_ctl) })
    pub timer_at :
        (n : ℕ)
        → bus.get n pef_postpone_tmr_obj pef_postpone_tmr_iface "ArmPEFPostponeTmr"
          ≡ message (record { is_error = false; body = some (u8 timer) })

get_byte-Adds :
    (bus : Bus) (obj intf property : String) (value : ℕ)
    → ((n : ℕ)
        → bus.get n obj intf property
          ≡ message (record { is_error = false; body = some (u8 value) }))
    → Adds (get_byte bus obj intf property) (some value) []
unfolding get_byte call read get_u8 or_raise or_unreadable
get_byte-Adds bus obj intf property value h = Adds-catch_sdbus _ _ (some value) _ (
    Adds-bind _ _ _ (Adds-bind (ask _) or_raise _ (Adds-ask _ _ h) (Adds-pure _)) (
      Adds-bind _ (λ variant. get_u8 variant >>= λ v. pure (some v)) (u8 value)
        (Adds-pure (u8 value))
        (Adds-bind _ (λ v. pure (some v)) value (Adds-pure value) (Adds-pure (some value)))))

closed_lem :
    (bus : Bus) (retry_enable : Bool) (msg : EventMsgData) (pef_ctl timer : ℕ)
    → (bit 0 pef_ctl ≡ false) ⊎ ((timer ≢ 0x00) × (timer ≢ 0xFF))
    → gated bus retry_enable msg pef_ctl timer ≡ pure tt
unfolding gated
closed_lem bus retry_enable msg pef_ctl timer h = ground (arith, bit_and_single 0 pef_ctl)

module _ (bus : Bus) (retry_enable : Bool) (msg : EventMsgData) (pef_ctl timer : ℕ)
    (g : Gate bus pef_ctl timer) where
  -- Where the service answers the two reads of the gate, and either the enable bit of PEFControl is
  -- clear or the postpone timer is neither 0 nor 0xFF, the task returns and asks nothing to be done.
  pub pef_task-closed :
      (bit 0 pef_ctl ≡ false) ⊎ ((timer ≢ 0x00) × (timer ≢ 0xFF))
      → Adds (pef_task bus retry_enable msg) tt []
  unfolding pef_task
  pef_task-closed h = Adds-after _ _ (some pef_ctl) (get_byte-Adds bus _ _ _ pef_ctl g.control_at) (
      Adds-after _ _ (some timer) (get_byte-Adds bus _ _ _ timer g.timer_at)
        (Adds-eq (closed_lem bus retry_enable msg pef_ctl timer h) (Adds-pure tt)))
