-- ===== src/Action/Power.antt =====
-- src/pef_action.cpp: `getPowerStatus`, `initiateStateTransition`, `initiateChassisStateTransition` and
-- the power actions of `performPefAction`.
use platform_event_filter.Common.{
  ℕ, Bool, ◌&&◌, ◌||◌, ◌==◌, ◌!=◌, if◌then◌else◌, bit_and, String, ◌===◌,
}
use platform_event_filter.Common.Int.{ℤ, pos, negsuc}
use platform_event_filter.Exec.{
  Exec, pure, emit, catch_sdbus, chassis_transition, host_transition, ◌>>=◌, ◌>>◌,
}
use platform_event_filter.Bus.{Bus}
use platform_event_filter.Bus.Calls.{call, read, get_text}
use platform_event_filter.Filter.{EvtFilterTblEntry}
use platform_event_filter.Action.SelLog.{pef_action_sel_log}

pub record PefConfInfo : Type 0 where
  pub pef_control : ℕ
  pub pef_action_gbl_control : ℕ
  pub pef_startup_dly : ℕ
  pub pef_alert_startup_dly : ℕ

abbrev pub alert_action : ℕ
alert_action = 0x01

abbrev pub power_off_action : ℕ
power_off_action = 0x02

abbrev pub reset_action : ℕ
reset_action = 0x04

abbrev pub power_cycle_action : ℕ
power_cycle_action = 0x08

-- `(flags & action) == action`
unfoldable pub has : ℕ → ℕ → Bool
has flags action = bit_and flags action == action

-- The filter asks for the action and the global control allows it.
abbrev pub chosen : PefConfInfo → EvtFilterTblEntry → ℕ → Bool
chosen conf entry action =
    has entry.evt_filter_action action && has conf.pef_action_gbl_control action

-- `PEFControl & 0x02`
unfoldable pub logs_actions : PefConfInfo → Bool
logs_actions conf = bit_and conf.pef_control 0x02 != 0

abbrev pub pwr_ctl_off : String
pwr_ctl_off = "xyz.openbmc_project.State.Chassis.Transition.Off"

abbrev pub pwr_state_reset : String
pwr_state_reset = "xyz.openbmc_project.State.Host.Transition.Reboot"

abbrev pub power_state_on : String
power_state_on = "xyz.openbmc_project.State.Chassis.PowerState.On"

module _ (bus : Bus) where
  unfoldable pub get_power_status : Exec Bool
  get_power_status = do
    status ←
        catch_sdbus
          (do
            reply ← call (λ n.
                bus.get n "/xyz/openbmc_project/state/chassis0" "xyz.openbmc_project.State.Chassis"
                  "CurrentPowerState")
            value ← read reply
            get_text value)
          (pure "")
    pure (status === power_state_on)

  unfoldable pub initiate_state_transition : String → Exec ℤ
  initiate_state_transition power_action = do
    emit (host_transition power_action)
    reply ← call bus.set
    pure (if reply.is_error then negsuc 0 else pos 0)

  unfoldable pub initiate_chassis_state_transition : String → Exec ℤ
  initiate_chassis_state_transition power_action = do
    emit (chassis_transition power_action)
    reply ← call bus.set
    pure (if reply.is_error then negsuc 0 else pos 0)

  unfoldable pub sel_log_if : Bool → ℕ → Exec (Unit {0})
  sel_log_if test action = if test then pef_action_sel_log bus action else pure tt

  unfoldable pub power_off : PefConfInfo → Exec (Unit {0})
  power_off conf = do
    sel_log_if (logs_actions conf) power_off_action
    rc ← initiate_chassis_state_transition pwr_ctl_off
    pure tt

  -- The entry in the SEL names the power cycle, and the reset only where no power cycle was chosen.
  unfoldable pub log_reboot : PefConfInfo → EvtFilterTblEntry → Exec (Unit {0})
  log_reboot conf entry =
      if logs_actions conf
      then (if chosen conf entry power_cycle_action
          then pef_action_sel_log bus power_cycle_action
          else sel_log_if (chosen conf entry reset_action) reset_action)
      else pure tt

  unfoldable pub reboot : PefConfInfo → EvtFilterTblEntry → Exec (Unit {0})
  reboot conf entry = do
    log_reboot conf entry
    power ← get_power_status
    if power then (do rc ← initiate_state_transition pwr_state_reset; pure tt) else pure tt

  unfoldable pub power_stage : PefConfInfo → EvtFilterTblEntry → Exec (Unit {0})
  power_stage conf entry =
      if has entry.evt_filter_action power_off_action
        || (has entry.evt_filter_action power_cycle_action
            || has entry.evt_filter_action reset_action)
      then (if chosen conf entry power_off_action
          then power_off conf
          else if chosen conf entry power_cycle_action || chosen conf entry reset_action
          then reboot conf entry
          else pure tt)
      else pure tt
