-- ===== src/Postpone.antt =====
-- include/pef_action.hpp, `startArmPefPostponeTimerMonitor`: the callback that counts the postpone timer
-- down when it is armed.
pub mod Countdown
use platform_event_filter.Common.{
  ℕ, zero, suc, Bool, true, false, ◌||◌, ◌==◌, if◌then◌else◌, Option, List, String, get_elem?,
}
use platform_event_filter.Exec.{
  Event, Exec, pure, emit, or_fault, catch_sdbus, set_countdown, set_arm_timer, ◌>>=◌, ◌>>◌,
}
use platform_event_filter.Bus.{Bus, Value}
use platform_event_filter.Bus.Calls.{call, or_unreadable, get_u8}

module _ (bus : Bus) where
  -- A `Set` whose failure is logged.
  unfoldable pub set_logged : Event → Exec (Unit {0})
  set_logged event = catch_sdbus (do emit event; reply ← call bus.set; pure tt) (pure tt)

  -- The loop `while (timer != 0)`, one second a turn.
  unfoldable pub count_down : ℕ → Exec (Unit {0})
  count_down zero = pure tt
  count_down (suc timer) = do set_logged (set_countdown timer); count_down timer

  -- The body from the test of `timer` on; the timer is 0 after the loop.
  unfoldable pub run_timer : ℕ → Exec (Unit {0})
  run_timer timer =
      if timer == 0x00 || timer == 0xFF
      then pure tt
      else if timer == 0xFE
      then set_logged (set_countdown timer)
      else do count_down timer; set_logged (set_arm_timer 0)

  -- The signal's properties in key order, or `none` where they cannot be read. The first of them is
  -- taken, whether there is one or not.
  unfoldable pub pef_postpone_tmr_callback : Option (List (String × Value)) → Exec (Unit {0})
  pef_postpone_tmr_callback signal = do
    properties_changed ← or_unreadable signal
    first ← or_fault (get_elem? properties_changed 0)
    timer ← get_u8 first.1
    run_timer timer
