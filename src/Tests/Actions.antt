-- ===== src/Tests/Actions.antt =====
-- The actions.
use platform_event_filter.Common.{◌≡◌, refl, false, some, List, [], ◌∷◌, String, ◌===◌, All, arith}
use platform_event_filter.Exec.{World, done, thrown, fault, set_countdown, set_arm_timer}
use platform_event_filter.Exec.Adds.{Adds}
use platform_event_filter.Bus.{Column, bytes, strings, u8}
use platform_event_filter.Action.{perform_pef_action}
use platform_event_filter.Action.Power.{power_stage, power_state_on}
use platform_event_filter.Action.Destination.{destination_of}
use platform_event_filter.Action.Allowed.{AllowedBy, perform_pef_action-AllowedBy}
use platform_event_filter.Action.Branches.{Responds, power_events, power_stage-Adds}
use platform_event_filter.Action.Selection.{destination_of-suc, destination_of-zero}
use platform_event_filter.Postpone.{pef_postpone_tmr_callback}
use platform_event_filter.Postpone.Countdown.{timer_events, pef_postpone_tmr_callback-Adds}
use platform_event_filter.Tests.Fixtures.{host, hot, hot_event, off_only}

host-Responds : Responds host power_state_on
host-Responds = record { opens = λ n. refl; sets = λ n. refl; status = λ n. refl }

power_stage-Adds_example :
    Adds
      (power_stage host off_only hot)
      tt
      (power_events off_only hot (power_state_on === power_state_on))
power_stage-Adds_example = power_stage-Adds host host-Responds off_only hot

perform_pef_action-AllowedBy_example :
    All
      (AllowedBy off_only (hot ∷ []))
      (perform_pef_action host false
        (hot ∷ [])
        hot_event
        ((1, "eth0") ∷ [])
        off_only
        (record { calls = 0; trace = [] })).1.trace
perform_pef_action-AllowedBy_example =
    perform_pef_action-AllowedBy host false hot_event ((1, "eth0") ∷ []) off_only (hot ∷ []) 0

-- A timer of three seconds.
pef_postpone_tmr_callback-Adds_example :
    Adds
      (pef_postpone_tmr_callback host (some (("ArmPEFPostponeTmr", u8 3) ∷ [])))
      tt
      (set_arm_timer 0 ∷ set_countdown 0 ∷ set_countdown 1 ∷ set_countdown 2 ∷ [])
unfolding timer_events
pef_postpone_tmr_callback-Adds_example =
    pef_postpone_tmr_callback-Adds host "ArmPEFPostponeTmr" 3 []

abbrev users : List (String × Column)
users = ("userName", strings ("admin" ∷ "" ∷ [])) ∷ []

abbrev start_world : World
start_world = record { calls = 0; trace = [] }

destination_of-suc_example :
    destination_of users (some (bytes (3 ∷ 0 ∷ 1 ∷ []))) 1 start_world
    ≡ (done (some (record { destination_type = 3; selected_user_name = "admin" })), start_world)
destination_of-suc_example =
    destination_of-suc users (3 ∷ 0 ∷ 1 ∷ []) (omega arith) start_world ("admin" ∷ "" ∷ []) 0 3 refl
      (omega arith) refl

destination_of-zero_example :
    destination_of users (some (bytes (3 ∷ 0 ∷ 1 ∷ []))) 0 start_world ≡ (thrown fault, start_world)
destination_of-zero_example =
    destination_of-zero users (3 ∷ 0 ∷ 1 ∷ []) (omega arith) start_world (omega arith)
