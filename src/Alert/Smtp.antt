-- ===== src/Alert/Smtp.antt =====
-- src/pef_action.cpp: `resolveHost`, `isMailAlertConfigured`, `getSmtpMailID` and `sendSmtpAlert`.
use platform_event_filter.Common.{
  ℕ, Bool, true, false, if◌then◌else◌, Option, none, some, List, [], ◌∷◌, String, ◌&◌, ◌===◌,
  is_empty,
}
use platform_event_filter.EventData.{EventMsgData}
use platform_event_filter.Exec.{
  Event, Exec, pure, ask, emit, throw, sdbus_error, catch_sdbus, catch_std, ◌>>=◌, ◌>>◌, send_mail,
  retry_alert,
}
use platform_event_filter.Exec.Keeps.{Emits}
use platform_event_filter.Bus.{Bus}
use platform_event_filter.Bus.Calls.{call, read, get_text, call_rules}
use platform_event_filter.SensorPath.{retrieve_sensor_type_from_path, get_sensor_name_from_path}
use platform_event_filter.SensorNumber.{get_path_from_sensor_number}
use platform_event_filter.Alert.{smtp_severity, event_data_msg, check_sample_event}
use platform_event_filter.Alert.Snmp.{failed, get_host_name, Emits-get_host_name}

abbrev pef_obj : String
pef_obj = "/xyz/openbmc_project/PefAlertManager"

abbrev pef_conf_info_intf : String
pef_conf_info_intf = "xyz.openbmc_project.pef.PEFConfInfo"

-- `alertSubject` where the host name is there.
unfoldable pub subject_line : String → String → String → String
subject_line subject severity host_name =
    if is_empty subject
    then (if severity === "Ok" then "Message from " & host_name else "Alert from " & host_name)
    else subject

-- `alertBody` behind the configured message.
unfoldable pub mail_body : EventMsgData → String → String → String → String
mail_body msg sensor_path message smtp_mail_id =
    let what : String =
      if check_sample_event msg
      then "Sensor Name : Not Found"
      else "Sensor Name : "
        & get_sensor_name_from_path sensor_path
        & "\r\n"
        & "Sensor Type : "
        & retrieve_sensor_type_from_path sensor_path
        & " \r\n"
        & "Severity    : "
        & smtp_severity msg
        & "\r\n"
        & "Description : "
        & event_data_msg (λ name. name) msg in
    let body : String = message & what in
    if is_empty smtp_mail_id then body else body & "\r\nMail ID     : " & smtp_mail_id

module _ (bus : Bus) where
  -- One of the two mail services is enabled and its host resolves.
  unfoldable pub mail_service_ready : String → Exec Bool
  mail_service_ready iface =
      catch_sdbus
        (do
          reply ← call (λ n. bus.get_bool n iface "Enable")
          enable ← read reply
          if enable
              then (do
                host_reply ← call (λ n. bus.get_string n iface "Host")
                host ← read host_reply
                ask (λ n. bus.resolves n host))
              else pure false)
        (pure false)

  open_bus : Exec (Unit {0})
  open_bus = do opened ← ask bus.opens; if opened then pure tt else throw sdbus_error

  unfoldable pub is_mail_alert_configured : Exec Bool
  unfolding open_bus
  is_mail_alert_configured = do
    open_bus
    primary ← mail_service_ready "xyz.openbmc_project.mail.alert.primary"
    if primary then pure true else mail_service_ready "xyz.openbmc_project.mail.alert.secondary"

  -- `getSmtpMailID`: an error reply and any exception give no address.
  unfoldable pub get_smtp_mail_id : String → Exec (Option String)
  get_smtp_mail_id selected_user_name =
      if is_empty selected_user_name
      then pure none
      else catch_std
          (do
            reply ← call (λ n.
                bus.get n ("/xyz/openbmc_project/user/" & selected_user_name)
                  "xyz.openbmc_project.User.Attributes" "SMTPMailID")
            if reply.is_error
                then pure none
                else do value ← read reply; mail_id ← get_text value; pure (some mail_id))
          (pure none)

  unfoldable pub conf_text : String → Exec String
  conf_text property = do
    reply ← call (λ n. bus.get n pef_obj pef_conf_info_intf property)
    value ← read reply
    get_text value

  unfoldable pub alert_subject : EventMsgData → String → Exec String
  alert_subject msg subject =
      catch_sdbus
        (do
          host_name ← get_host_name bus
          pure (subject_line subject (smtp_severity msg) host_name))
        (pure "PEF Alert")

  unfoldable pub alert_message : Exec String
  alert_message = catch_sdbus (do message ← conf_text "Message"; pure (message & "\r\n")) (pure "")

  -- The `try` block that sends the mail, or queues it. `mailstatus` is 0 before it.
  unfoldable pub smtp_dispatch : Bool → String → String → Exec ℕ
  smtp_dispatch true subject body = do
    configured ← is_mail_alert_configured
    if configured
        then (do
          emit (retry_alert "smtp" subject (("alertBody", body) ∷ []))
          reply ← call bus.retry_queued
          queued ← read reply
          if queued then pure 0 else pure 0)
        else pure failed
  smtp_dispatch false subject body = do
    emit (send_mail subject body)
    reply ← call bus.mail_status
    if reply.is_error then pure failed else read reply

  unfoldable pub send_smtp_alert : Bool → EventMsgData → String → Exec ℕ
  send_smtp_alert retry_enable msg smtp_mail_id = do
    sensors ← ask bus.sensor_num_map
    subject ← catch_sdbus (conf_text "Subject") (pure "")
    subject_text ← alert_subject msg subject
    message ← alert_message
    let body =
        mail_body msg (get_path_from_sensor_number sensors msg.sensor_num 0xff) message smtp_mail_id
    if is_empty smtp_mail_id
        then pure failed
        else catch_sdbus (smtp_dispatch retry_enable subject_text body) (pure failed)

  module _ {P : Event → Type 0} where
    Emits-mail_service_ready : (iface : String) → Emits P (mail_service_ready iface)
    unfolding mail_service_ready
    Emits-mail_service_ready iface = search call_rules depth 12

    Emits-is_mail_alert_configured : Emits P is_mail_alert_configured
    unfolding is_mail_alert_configured
    Emits-is_mail_alert_configured = search (call_rules, Emits-mail_service_ready) depth 12

    pub Emits-get_smtp_mail_id : (user : String) → Emits P (get_smtp_mail_id user)
    unfolding get_smtp_mail_id
    Emits-get_smtp_mail_id user = search call_rules depth 12

    Emits-conf_text : (property : String) → Emits P (conf_text property)
    unfolding conf_text
    Emits-conf_text property = search call_rules depth 12

    Emits-alert_subject :
        (msg : EventMsgData) (subject : String) → Emits P (alert_subject msg subject)
    unfolding alert_subject
    Emits-alert_subject msg subject = search (call_rules, Emits-get_host_name) depth 12

    Emits-alert_message : Emits P alert_message
    unfolding alert_message
    Emits-alert_message = search (call_rules, Emits-conf_text) depth 12

    -- The only events of a mail alert are the mail and the request to queue it.
    module _ (mail : (s b : String) → P (send_mail s b))
        (retry : (k s : String) (t : List (String × String)) → P (retry_alert k s t)) where
      Emits-smtp_dispatch :
          (retry_enable : Bool) (subject body : String)
          → Emits P (smtp_dispatch retry_enable subject body)
      unfolding smtp_dispatch
      Emits-smtp_dispatch true subject body =
          search (call_rules, retry, Emits-is_mail_alert_configured) depth 12
      Emits-smtp_dispatch false subject body = search (call_rules, mail) depth 12

      pub Emits-send_smtp_alert :
          (retry_enable : Bool) (msg : EventMsgData) (mail_id : String)
          → Emits P (send_smtp_alert retry_enable msg mail_id)
      unfolding send_smtp_alert
      Emits-send_smtp_alert retry_enable msg mail_id =
          search
            (
              call_rules, Emits-conf_text, Emits-alert_subject, Emits-alert_message,
              Emits-smtp_dispatch,
            )
            depth 20
