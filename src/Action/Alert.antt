-- ===== src/Action/Alert.antt =====
-- src/pef_action.cpp: the alerts of `performPefAction`.
use platform_event_filter.Common.{
  Bool, ◌==◌, leb, if◌then◌else◌, bit_and, Option, none, some, String,
}
use platform_event_filter.EventData.{EventMsgData}
use platform_event_filter.Exec.{
  Exec, pure, emit, catch_sdbus, catch_std, for_each, set_last_processed, ◌>>=◌, ◌>>◌,
}
use platform_event_filter.Bus.{Bus}
use platform_event_filter.Bus.Calls.{call}
use platform_event_filter.Channels.{EthChannelMap}
use platform_event_filter.Filter.{EvtFilterTblEntry}
use platform_event_filter.Policy.{AlertPolicyTbl, check_alert_policy_tbl}
use platform_event_filter.Alert.Snmp.{send_snmp_alert}
use platform_event_filter.Alert.Smtp.{send_smtp_alert, get_smtp_mail_id}
use platform_event_filter.Action.Power.{PefConfInfo, alert_action, chosen, logs_actions, sel_log_if}
use platform_event_filter.Action.Destination.{Destination, or_empty, select_destination}

module _ (bus : Bus) (retry_enable : Bool) (msg : EventMsgData) where
  -- The event's record id becomes the last one that was processed; any exception is logged.
  unfoldable pub record_processed : Exec (Unit {0})
  record_processed =
      catch_std (do emit (set_last_processed msg.record_id); reply ← call bus.set; pure tt)
        (pure tt)

  unfoldable pub mail_alert : PefConfInfo → String → Exec (Unit {0})
  mail_alert conf user = do
    sel_log_if bus (logs_actions conf) alert_action
    mail_id ← get_smtp_mail_id bus user
    status ← send_smtp_alert bus retry_enable msg (or_empty mail_id)
    if status == 0 then record_processed else pure tt

  unfoldable pub trap_alert : PefConfInfo → AlertPolicyTbl → Exec (Unit {0})
  trap_alert conf policy = do
    sel_log_if bus (logs_actions conf) alert_action
    status ← send_snmp_alert bus retry_enable msg policy.channel_no policy.destination_sel
    pure tt

  unfoldable pub send_alert : PefConfInfo → AlertPolicyTbl → Option Destination → Exec (Unit {0})
  send_alert conf policy none = pure tt
  send_alert conf policy (some d) =
      if d.destination_type == 3
      then mail_alert conf d.selected_user_name
      else if leb d.destination_type 2
      then trap_alert conf policy
      else pure tt

  -- The body of the loop over the policies.
  unfoldable pub alert_by_policy : EthChannelMap → PefConfInfo → AlertPolicyTbl → Exec (Unit {0})
  alert_by_policy eth_map conf policy = if policy.alert_policy_group_num == 0 then pure tt else do
    destination ← catch_sdbus (select_destination bus eth_map policy) (pure none)
    send_alert conf policy destination

  unfoldable pub alert_stage : EthChannelMap → PefConfInfo → EvtFilterTblEntry → Exec (Unit {0})
  alert_stage eth_map conf entry =
      if chosen conf entry alert_action
      then (do
        policies ← check_alert_policy_tbl bus (bit_and entry.alert_policy_num 0x0F)
        for_each policies (alert_by_policy eth_map conf))
      else pure tt
