-- ===== src/Action/Branches.antt =====
-- src/pef_action.cpp, `performPefAction`: which power action each combination of flags gives, where the
-- other services answer.
use platform_event_filter.Common.{
  ℕ, ◌≡◌, refl, sym, Bool, true, false, ◌&&◌, ◌||◌, if◌then◌else◌, some, List, [], ◌∷◌, ◌++◌,
  String, ◌===◌, arith,
}
use platform_event_filter.Exec.{
  Event, ◌>>=◌, ask, emit, pure, create_log, chassis_transition, host_transition,
}
use platform_event_filter.Bus.{Bus, message, str}
use platform_event_filter.Common.Int.{pos}
use platform_event_filter.Exec.Adds.{
  Adds, Adds-pure, Adds-ask, Adds-catch_sdbus, Adds-emit, Adds-bind, Adds-after, Adds-when,
  Adds-guard,
}
use platform_event_filter.Bus.Calls.{or_raise, or_unreadable, call, read, get_text}
use platform_event_filter.Filter.{EvtFilterTblEntry}
use platform_event_filter.Action.SelLog.{journal_msg, add_data, pef_action_sel_log}
use platform_event_filter.Action.Power.{
  PefConfInfo, power_off_action, reset_action, power_cycle_action, chosen, logs_actions, has,
  pwr_ctl_off, pwr_state_reset, power_state_on, get_power_status, initiate_state_transition,
  initiate_chassis_state_transition, sel_log_if, power_off, log_reboot, reboot, power_stage,
}

-- The buses open, each change is answered without an error, and the chassis is in power state `state`.
pub record Responds (bus : Bus) (state : String) : Type 0 where
  pub opens : (n : ℕ) → bus.opens n ≡ true
  pub sets : (n : ℕ) → bus.set n ≡ message (record { is_error = false; body = some tt })
  pub status :
      (n : ℕ)
      → bus.get n "/xyz/openbmc_project/state/chassis0" "xyz.openbmc_project.State.Chassis"
          "CurrentPowerState"
        ≡ message (record { is_error = false; body = some (str state) })

abbrev pub sel_event : ℕ → Event
sel_event action = create_log (journal_msg action) (add_data action)

-- The SEL entry of an action, if PEFControl asks for one.
abbrev pub logged : PefConfInfo → ℕ → List Event
logged conf action = if logs_actions conf then sel_event action ∷ [] else []

-- Of the actions that are both asked for and allowed, power off comes first; else power cycle and reset
-- both restart the host, if it is on. The latest event is at the head.
pub power_events : PefConfInfo → EvtFilterTblEntry → Bool → List Event
power_events conf entry is_on =
    if chosen conf entry power_off_action
    then chassis_transition pwr_ctl_off ∷ logged conf power_off_action
    else if chosen conf entry power_cycle_action || chosen conf entry reset_action
    then (let log =
          logged conf
            (if chosen conf entry power_cycle_action then power_cycle_action else reset_action) in
        if is_on then host_transition pwr_state_reset ∷ log else log)
    else []

cons_if :
    (b : Bool) (e : Event) (log : List Event)
    → ((if b then e ∷ [] else []) ++ log) ≡ (if b then e ∷ log else log)
cons_if true e log = refl
cons_if false e log = refl

nothing_chosen :
    (off cycle reset off_allowed cycle_allowed reset_allowed : Bool) (es fs : List Event)
    → (off || (cycle || reset)) ≡ false
    → (if off && off_allowed
        then es
        else if (cycle && cycle_allowed) || (reset && reset_allowed)
        then fs
        else [])
      ≡ []
nothing_chosen true _ _ _ _ _ es fs h = ground arith
nothing_chosen false true _ _ _ _ es fs h = ground arith
nothing_chosen false false true _ _ _ es fs h = ground arith
nothing_chosen false false false _ _ _ es fs h = refl

module _ (bus : Bus) {state : String} (r : Responds bus state) where
  set_call : Adds (call bus.set) (record { is_error = false; body = some tt }) []
  unfolding call
  set_call = Adds-bind (ask bus.set) or_raise _ (Adds-ask bus.set _ r.sets) (Adds-pure _)

  sel_log-Adds : (action : ℕ) → Adds (pef_action_sel_log bus action) tt (sel_event action ∷ [])
  unfolding pef_action_sel_log
  sel_log-Adds action = Adds-bind (ask bus.opens) _ true (Adds-ask bus.opens true r.opens) (
      Adds-catch_sdbus _ _ tt _ (
        Adds-bind (emit (sel_event action)) _ tt (Adds-emit (sel_event action))
          (Adds-bind (call bus.set) _ _ set_call (Adds-pure tt))))

  log_if-Adds :
      (test : Bool) (action : ℕ)
      → Adds (sel_log_if bus test action) tt (if test then sel_event action ∷ [] else [])
  unfolding sel_log_if
  log_if-Adds true action = sel_log-Adds action
  log_if-Adds false action = Adds-pure tt

  power_off-Adds :
      (conf : PefConfInfo)
      → Adds (power_off bus conf) tt (chassis_transition pwr_ctl_off ∷ logged conf power_off_action)
  unfolding power_off initiate_chassis_state_transition
  power_off-Adds conf = Adds-bind _ _ tt (log_if-Adds (logs_actions conf) power_off_action) (
      Adds-bind _ _ (pos 0)
        (Adds-bind _ _ tt (Adds-emit (chassis_transition pwr_ctl_off))
          (Adds-bind _ _ _ set_call (Adds-pure (pos 0))))
        (Adds-pure tt))

  power_status-Adds : Adds (get_power_status bus) (state === power_state_on) []
  unfolding get_power_status call read get_text or_raise or_unreadable
  power_status-Adds =
      Adds-bind _ _ state
        (Adds-catch_sdbus _ _ state _ (
          Adds-bind _ _ _ (Adds-bind (ask _) or_raise _ (Adds-ask _ _ r.status) (Adds-pure _))
            (Adds-bind _ get_text (str state) (Adds-pure (str state)) (Adds-pure state))))
        (Adds-pure (state === power_state_on))

  chosen_log-Adds :
      (logs cycle reset : Bool)
      → (cycle || reset) ≡ true
      → Adds
          (if logs
            then (if cycle
                then pef_action_sel_log bus power_cycle_action
                else sel_log_if bus reset reset_action)
            else pure tt)
          tt
          (if logs then sel_event (if cycle then power_cycle_action else reset_action) ∷ [] else [])
  unfolding sel_log_if
  chosen_log-Adds false cycle reset c = Adds-pure tt
  chosen_log-Adds true true reset c = sel_log-Adds power_cycle_action
  chosen_log-Adds true false true c = sel_log-Adds reset_action
  chosen_log-Adds true false false c = ground arith

  log_reboot-Adds :
      (conf : PefConfInfo) (entry : EvtFilterTblEntry)
      → (chosen conf entry power_cycle_action || chosen conf entry reset_action) ≡ true
      → Adds (log_reboot bus conf entry) tt (
          logged conf
            (if chosen conf entry power_cycle_action then power_cycle_action else reset_action))
  unfolding log_reboot
  log_reboot-Adds conf entry c =
      chosen_log-Adds (logs_actions conf) (chosen conf entry power_cycle_action)
        (chosen conf entry reset_action) c

  restart-Adds :
      (is_on : Bool)
      → Adds
          (if is_on
            then initiate_state_transition bus pwr_state_reset >>= (λ rc. pure tt)
            else pure tt)
          tt
          (if is_on then host_transition pwr_state_reset ∷ [] else [])
  unfolding initiate_state_transition
  restart-Adds false = Adds-pure tt
  restart-Adds true =
      Adds-bind _ _ (pos 0)
        (Adds-bind _ _ tt (Adds-emit (host_transition pwr_state_reset))
          (Adds-bind _ _ _ set_call (Adds-pure (pos 0))))
        (Adds-pure tt)

  reboot-Adds :
      (conf : PefConfInfo) (entry : EvtFilterTblEntry)
      → (chosen conf entry power_cycle_action || chosen conf entry reset_action) ≡ true
      → Adds (reboot bus conf entry) tt (
          let log =
            logged conf
              (if chosen conf entry power_cycle_action then power_cycle_action else reset_action) in
          if state === power_state_on then host_transition pwr_state_reset ∷ log else log)
  unfolding reboot
  reboot-Adds conf entry c =
      rw
        (sym (
          cons_if (state === power_state_on) (host_transition pwr_state_reset) (
            logged conf
              (if chosen conf entry power_cycle_action then power_cycle_action else reset_action))))
        (Adds-bind _ _ tt (log_reboot-Adds conf entry c) (
          Adds-after _ _ (state === power_state_on) power_status-Adds
            (restart-Adds (state === power_state_on))))

  -- Where every service answers, the power stage of an entry adds exactly the events of `power_events`
  -- for the power state that the chassis reports, latest first: power off excludes a restart, a restart
  -- is asked of a host that is on only, at most one SEL entry is made, and that before the action.
  pub power_stage-Adds :
      (conf : PefConfInfo) (entry : EvtFilterTblEntry)
      → Adds (power_stage bus conf entry) tt (power_events conf entry (state === power_state_on))
  unfolding power_stage power_events
  power_stage-Adds conf entry =
      Adds-guard _
        (Adds-when _ (λ _. power_off-Adds conf)
          (λ _. Adds-when _ (λ c. reboot-Adds conf entry c) (λ _. Adds-pure tt)))
        (nothing_chosen (has entry.evt_filter_action power_off_action)
          (has entry.evt_filter_action power_cycle_action)
          (has entry.evt_filter_action reset_action)
          (has conf.pef_action_gbl_control power_off_action)
          (has conf.pef_action_gbl_control power_cycle_action)
          (has conf.pef_action_gbl_control reset_action) _ _)
