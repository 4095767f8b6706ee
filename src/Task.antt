-- ===== src/Task.antt =====
-- src/pef_action.cpp: `getPefConfInfo`, `eventFilteringProcess` and `pefTask`, the method that the
-- event logger calls for each event.
pub mod Justified
pub mod Gate
use platform_event_filter.Common.{
  ℕ, ◌/◌, ◌^◌, Bool, true, false, ◌&&◌, ◌||◌, ◌==◌, ◌!=◌, if◌then◌else◌, bit_and, Option, none,
  some, List, [], ◌∷◌, String,
}
use platform_event_filter.EventData.{EventMsgData}
use platform_event_filter.Exec.{Exec, pure, or_throw, catch_sdbus, ◌>>=◌}
use platform_event_filter.Bus.{Bus, Value}
use platform_event_filter.Bus.Calls.{call, read, lookup, get_u8}
use platform_event_filter.Channels.{get_eth_channel_interface_map}
use platform_event_filter.Filter.{EvtFilterTblEntry}
use platform_event_filter.Filter.Table.{
  event_filter_table_path, get_immediate_child_object_path_count, match_groups,
}
use platform_event_filter.Action.{perform_pef_action}
use platform_event_filter.Action.Power.{PefConfInfo}

abbrev pub pef_obj : String
pef_obj = "/xyz/openbmc_project/PefAlertManager"

abbrev pub pef_conf_info_intf : String
pef_conf_info_intf = "xyz.openbmc_project.pef.PEFConfInfo"

abbrev pub pef_postpone_tmr_obj : String
pef_postpone_tmr_obj = "/xyz/openbmc_project/PefAlertManager/ArmPostponeTimer"

abbrev pub pef_postpone_tmr_iface : String
pef_postpone_tmr_iface = "xyz.openbmc_project.pef.PEFPostponeTimer"

-- `std::get<uint8_t>(values.at(key))`
unfoldable pub byte_at : List (String × Value) → String → Exec ℕ
byte_at values key = do v ← or_throw (lookup key values); get_u8 v

-- The message of the parameters: `genId` is split into its high and its low byte.
unfoldable pub event_msg : ℕ → ℕ → ℕ → ℕ → ℕ → ℕ → ℕ → ℕ → String → EventMsgData
event_msg rec_id sen_type sen_num eve_type eve_data1 eve_data2 eve_data3 gen_id msg_str = record {
  record_id = rec_id;
  generator_id1 = bit_and (gen_id / 2 ^ 8) 0xff;
  generator_id2 = bit_and gen_id 0xff;
  sensor_num = sen_num;
  sensor_type = sen_type;
  event_type = eve_type;
  event_data1 = eve_data1;
  event_data2 = eve_data2;
  event_data3 = eve_data3;
  msg_str = msg_str;
}

module _ (bus : Bus) where
  unfoldable pub get_pef_conf_info : Exec (Option PefConfInfo)
  get_pef_conf_info =
      catch_sdbus
        (do
          reply ← call bus.get_conf
          if reply.is_error then pure none else do
            values ← read reply
            control ← byte_at values "PEFControl"
            gbl_control ← byte_at values "PEFActionGblControl"
            startup_dly ← byte_at values "PEFStartupDly"
            alert_startup_dly ← byte_at values "PEFAlertStartupDly"
            pure (
                some (record {
                  pef_control = control;
                  pef_action_gbl_control = gbl_control;
                  pef_startup_dly = startup_dly;
                  pef_alert_startup_dly = alert_startup_dly;
                })))
        (pure none)

  unfoldable pub act_on : Bool → List EvtFilterTblEntry → EventMsgData → Exec (Unit {0})
  act_on retry_enable [] msg = pure tt
  act_on retry_enable (e ∷ es) msg = do
    eth_map ← get_eth_channel_interface_map bus
    conf ← get_pef_conf_info
    elim conf [
      | none ↦ pure tt
      | some c ↦ perform_pef_action bus retry_enable (e ∷ es) msg eth_map c
    ]

  unfoldable pub event_filtering_process : Bool → EventMsgData → Exec (Unit {0})
  event_filtering_process retry_enable msg = do
    count ← get_immediate_child_object_path_count bus event_filter_table_path
    if count == 0
        then pure tt
        else do matched ← match_groups bus msg count 1; act_on retry_enable matched msg

  -- A `Get` of a byte property: `none` is `return` after a bus error.
  unfoldable pub get_byte : String → String → String → Exec (Option ℕ)
  get_byte obj intf property =
      catch_sdbus
        (do
          reply ← call (λ n. bus.get n obj intf property)
          variant ← read reply
          value ← get_u8 variant
          pure (some value))
        (pure none)

  -- The tests of the postpone timer and of the enable bit of PEFControl.
  unfoldable pub gated : Bool → EventMsgData → ℕ → ℕ → Exec (Unit {0})
  gated retry_enable msg pef_ctl pef_postpone_timer =
      if pef_postpone_timer == 0xFE || (pef_postpone_timer != 0x00 && pef_postpone_timer != 0xFF)
      then pure tt
      else if 0 == bit_and pef_ctl 0x01
      then pure tt
      else event_filtering_process retry_enable msg

  abbrev pub read_control : Exec (Option ℕ)
  read_control = get_byte pef_obj pef_conf_info_intf "PEFControl"

  abbrev pub read_timer : Exec (Option ℕ)
  read_timer = get_byte pef_postpone_tmr_obj pef_postpone_tmr_iface "ArmPEFPostponeTmr"

  -- `pefTask`, from the message of its parameters on.
  unfoldable pub pef_task : Bool → EventMsgData → Exec (Unit {0})
  pef_task retry_enable msg = do
    control ← read_control
    elim control [
      | none ↦ pure tt
      | some pef_ctl ↦ do
        timer ← read_timer
        elim timer [
          | none ↦ pure tt
          | some pef_postpone_timer ↦ gated retry_enable msg pef_ctl pef_postpone_timer
        ]
    ]
