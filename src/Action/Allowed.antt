-- ===== src/Action/Allowed.antt =====
-- src/pef_action.cpp, `performPefAction`: nothing is done that no filter asks for or that the global
-- control forbids.
use mathlib.Core.List.{Mem, mem-cons_self, mem-cons_of_mem}
use platform_event_filter.Common.{
  ℕ, ◌≡◌, refl, Bool, true, false, ◌||◌, ◌==◌, leb, Option, none, some, List, [], ◌∷◌, String, All,
}
use platform_event_filter.EventData.{EventMsgData}
use platform_event_filter.Exec.{
  Event, create_log, chassis_transition, host_transition, retry_alert, send_mail, send_trap,
  set_last_processed, set_countdown, set_arm_timer,
}
use platform_event_filter.Exec.Keeps.{
  Emits, Emits-pure, Emits-bind, Emits-when, Emits-for_each, Emits-if,
}
use platform_event_filter.Bus.{Bus}
use platform_event_filter.Bus.Calls.{call_rules}
use platform_event_filter.Channels.{EthChannelMap}
use platform_event_filter.Filter.{EvtFilterTblEntry}
use platform_event_filter.Policy.{AlertPolicyTbl, Emits-check_alert_policy_tbl}
use platform_event_filter.Alert.Snmp.{Emits-send_snmp_alert}
use platform_event_filter.Alert.Smtp.{Emits-send_smtp_alert, Emits-get_smtp_mail_id}
use platform_event_filter.Action.{perform_entry, perform_pef_action}
use platform_event_filter.Action.SelLog.{journal_msg, add_data, Emits-sel_log}
use platform_event_filter.Action.Destination.{Destination, or_empty, Emits-select_destination}
use platform_event_filter.Action.Power.{
  PefConfInfo, alert_action, power_off_action, reset_action, power_cycle_action, chosen,
  logs_actions, pwr_ctl_off, pwr_state_reset, get_power_status, initiate_state_transition,
  initiate_chassis_state_transition, sel_log_if, power_off, log_reboot, reboot, power_stage,
}
use platform_event_filter.Action.Alert.{
  record_processed, mail_alert, trap_alert, send_alert, alert_by_policy, alert_stage,
}

-- What a matched filter lets happen: each action that it asks for and the global control allows, with an
-- entry in the SEL for that action where PEFControl asks for one.
abbrev pub Allowed : PefConfInfo → EvtFilterTblEntry → Event → Type 0
Allowed conf entry (create_log text fields) =
    (action : ℕ) × (text ≡ journal_msg action)
    × (fields ≡ add_data action)
    × (logs_actions conf ≡ true)
    × (chosen conf entry action ≡ true)
Allowed conf entry (chassis_transition to) =
    (to ≡ pwr_ctl_off) × (chosen conf entry power_off_action ≡ true)
Allowed conf entry (host_transition to) =
    (to ≡ pwr_state_reset)
    × (chosen conf entry power_off_action ≡ false)
    × ((chosen conf entry power_cycle_action || chosen conf entry reset_action) ≡ true)
Allowed conf entry (retry_alert kind subject fields) = chosen conf entry alert_action ≡ true
Allowed conf entry (send_mail subject body) = chosen conf entry alert_action ≡ true
Allowed conf entry (send_trap id texts channel selector) = chosen conf entry alert_action ≡ true
Allowed conf entry (set_last_processed id) = chosen conf entry alert_action ≡ true
Allowed conf entry (set_countdown n) = ⊥
Allowed conf entry (set_arm_timer n) = ⊥

module _ (bus : Bus) {P : Event → Type 0} (conf : PefConfInfo) (entry : EvtFilterTblEntry)
    (keep : (e : Event) → Allowed conf entry e → P e) where
  log-Emits :
      (action : ℕ)
      → chosen conf entry action ≡ true
      → Emits P (sel_log_if bus (logs_actions conf) action)
  unfolding sel_log_if
  log-Emits action c =
      Emits-when (logs_actions conf) _ _
        (λ l. Emits-sel_log bus action (keep _ (action, refl, refl, l, c))) (λ l. Emits-pure tt)

  chassis-Emits :
      chosen conf entry power_off_action ≡ true
      → Emits P (initiate_chassis_state_transition bus pwr_ctl_off)
  unfolding initiate_chassis_state_transition
  chassis-Emits c = search (call_rules, keep (chassis_transition pwr_ctl_off) (refl, c)) depth 10

  power_off-Emits : chosen conf entry power_off_action ≡ true → Emits P (power_off bus conf)
  unfolding power_off
  power_off-Emits c =
      Emits-bind _ _ (log-Emits power_off_action c)
        λ _. Emits-bind _ _ (chassis-Emits c) (λ _. Emits-pure tt)

  log_reboot-Emits : Emits P (log_reboot bus conf entry)
  unfolding log_reboot sel_log_if
  log_reboot-Emits =
      Emits-when (logs_actions conf) _ _
        (λ l.
          Emits-when (chosen conf entry power_cycle_action) _ _
            (λ c.
              Emits-sel_log bus power_cycle_action (keep _ (power_cycle_action, refl, refl, l, c)))
            (λ n.
              Emits-when (chosen conf entry reset_action) _ _
                (λ c. Emits-sel_log bus reset_action (keep _ (reset_action, refl, refl, l, c)))
                (λ n'. Emits-pure tt)))
        (λ l. Emits-pure tt)

  power_status-Emits : Emits P (get_power_status bus)
  unfolding get_power_status
  power_status-Emits = search call_rules depth 10

  reboot-Emits :
      chosen conf entry power_off_action ≡ false
      → (chosen conf entry power_cycle_action || chosen conf entry reset_action) ≡ true
      → Emits P (reboot bus conf entry)
  unfolding reboot initiate_state_transition
  reboot-Emits n c =
      search
        (
          call_rules,
          log_reboot-Emits,
          power_status-Emits,
          keep (host_transition pwr_state_reset) (refl, n, c),
        )
        depth 12

  power_stage-Emits : Emits P (power_stage bus conf entry)
  unfolding power_stage
  power_stage-Emits =
      Emits-when _ _ _
        (λ _. Emits-when (chosen conf entry power_off_action) _ _ power_off-Emits (λ n.
          Emits-when (chosen conf entry power_cycle_action || chosen conf entry reset_action) _ _
            (reboot-Emits n) (λ _. Emits-pure tt)))
        (λ _. Emits-pure tt)

  module _ (retry_enable : Bool) (msg : EventMsgData)
      (c : chosen conf entry alert_action ≡ true) where
    record_processed-Emits : Emits P (record_processed bus retry_enable msg)
    unfolding record_processed
    record_processed-Emits = search (call_rules, keep (set_last_processed msg.record_id) c) depth 10

    mail_alert-Emits : (user : String) → Emits P (mail_alert bus retry_enable msg conf user)
    unfolding mail_alert
    mail_alert-Emits user = Emits-bind _ _ (log-Emits alert_action c) λ _.
        Emits-bind _ _ (Emits-get_smtp_mail_id bus user) λ mail_id.
          Emits-bind _ _
            (Emits-send_smtp_alert bus {P = P} (λ s b. keep (send_mail s b) c)
              (λ k s t. keep (retry_alert k s t) c) retry_enable msg (or_empty mail_id))
            λ status. Emits-if (status == 0) _ _ record_processed-Emits (Emits-pure tt)

    trap_alert-Emits :
        (policy : AlertPolicyTbl) → Emits P (trap_alert bus retry_enable msg conf policy)
    unfolding trap_alert
    trap_alert-Emits policy = Emits-bind _ _ (log-Emits alert_action c) λ _.
        Emits-bind _ _
          (Emits-send_snmp_alert bus {P = P} (λ r t ch d. keep (send_trap r t ch d) c)
            (λ k s t. keep (retry_alert k s t) c) retry_enable msg policy.channel_no
            policy.destination_sel)
          (λ _. Emits-pure tt)

    send_alert-Emits :
        (policy : AlertPolicyTbl) (d : Option Destination)
        → Emits P (send_alert bus retry_enable msg conf policy d)
    unfolding send_alert
    send_alert-Emits policy none = Emits-pure tt
    send_alert-Emits policy (some d) =
        Emits-if (d.destination_type == 3) _ _ (mail_alert-Emits d.selected_user_name)
          (Emits-if (leb d.destination_type 2) _ _ (trap_alert-Emits policy) (Emits-pure tt))

    alert_by_policy-Emits :
        (eth_map : EthChannelMap) (policy : AlertPolicyTbl)
        → Emits P (alert_by_policy bus retry_enable msg eth_map conf policy)
    unfolding alert_by_policy
    alert_by_policy-Emits eth_map policy =
        Emits-if (policy.alert_policy_group_num == 0) _ _ (Emits-pure tt)
          (search (call_rules, Emits-select_destination, send_alert-Emits) depth 10)

    policies-Emits :
        (eth_map : EthChannelMap) (policies : List AlertPolicyTbl)
        → All (λ p. Emits P (alert_by_policy bus retry_enable msg eth_map conf p)) policies
    policies-Emits eth_map [] = tt
    policies-Emits eth_map (p ∷ rest) =
        (alert_by_policy-Emits eth_map p, policies-Emits eth_map rest)

  alert_stage-Emits :
      (retry_enable : Bool) (msg : EventMsgData) (eth_map : EthChannelMap)
      → Emits P (alert_stage bus retry_enable msg eth_map conf entry)
  unfolding alert_stage
  alert_stage-Emits retry_enable msg eth_map =
      Emits-when (chosen conf entry alert_action) _ _
        (λ c. Emits-bind _ _ (Emits-check_alert_policy_tbl bus _) λ policies.
          Emits-for_each policies _ (policies-Emits retry_enable msg c eth_map policies))
        (λ _. Emits-pure tt)

  perform_entry-Emits :
      (retry_enable : Bool) (msg : EventMsgData) (eth_map : EthChannelMap)
      → Emits P (perform_entry bus retry_enable msg eth_map conf entry)
  unfolding perform_entry
  perform_entry-Emits retry_enable msg eth_map =
      Emits-bind _ _ power_stage-Emits (λ _. alert_stage-Emits retry_enable msg eth_map)

-- Some matched filter lets the event happen.
abbrev pub AllowedBy : PefConfInfo → List EvtFilterTblEntry → Event → Type 0
AllowedBy conf entries event =
    (entry : EvtFilterTblEntry) × Mem entry entries × Allowed conf entry event

module _ (bus : Bus) (retry_enable : Bool) (msg : EventMsgData) (eth_map : EthChannelMap)
    (conf : PefConfInfo) where
  entries-Emits :
      {P : Event → Type 0} (entries : List EvtFilterTblEntry)
      → ((entry : EvtFilterTblEntry) → Mem entry entries → (e : Event) → Allowed conf entry e → P e)
      → All (λ entry. Emits P (perform_entry bus retry_enable msg eth_map conf entry)) entries
  entries-Emits [] keep = tt
  entries-Emits (entry ∷ rest) keep = (
    perform_entry-Emits bus conf entry (keep entry mem-cons_self) retry_enable msg eth_map,
    entries-Emits rest (λ e m. keep e (mem-cons_of_mem entry m)),
  )

  pub perform_pef_action-Emits :
      {P : Event → Type 0} (entries : List EvtFilterTblEntry)
      → ((entry : EvtFilterTblEntry) → Mem entry entries → (e : Event) → Allowed conf entry e → P e)
      → Emits P (perform_pef_action bus retry_enable entries msg eth_map conf)
  unfolding perform_pef_action
  perform_pef_action-Emits entries keep = Emits-for_each entries _ (entries-Emits entries keep)

  -- Whatever the other services answer, every event of a run that starts with an empty trace is one
  -- that some matched filter asks for and the global control allows.
  pub perform_pef_action-AllowedBy :
      (entries : List EvtFilterTblEntry) (calls : ℕ)
      → All
          (AllowedBy conf entries)
          (perform_pef_action bus retry_enable entries msg eth_map conf
            (record { calls = calls; trace = [] })).1.trace
  perform_pef_action-AllowedBy entries calls =
      (perform_pef_action-Emits entries (λ entry m e a. (entry, m, a))).at
        (record { calls = calls; trace = [] }) tt
