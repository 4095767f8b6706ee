-- ===== src/Action/Rejected.antt =====
-- src/pef_action.cpp: what `sendSNMPAlert` and `sendSmtpAlert` return where the retry queue rejects an
-- alert, and the severities that they give.
use platform_event_filter.Common.{
  ℕ, ◌≡◌, ◌≢◌, ◌⊎◌, Bool, true, false, ◌||◌, ◌==◌, if◌then◌else◌, some, List, [], ◌∷◌, String,
  to_string, arith,
}
use platform_event_filter.EventData.{EventMsgData}
use platform_event_filter.Exec.{pure, ask, retry_alert}
use platform_event_filter.Exec.Adds.{Adds, Adds-pure, Adds-ask, Adds-emit, Adds-bind, Adds-after}
use platform_event_filter.Bus.{Bus, message}
use platform_event_filter.Bus.Calls.{or_raise, or_unreadable, call, read}
use platform_event_filter.Alert.{
  type_code, event_offset, is_assert, sensor_specific, snmp_severity, smtp_severity,
}
use platform_event_filter.Alert.Snmp.{failed, snmp_dispatch}

status : (b : Bool) (x y : ℕ) → Adds (if b then pure x else pure y) (if b then x else y) []
status true x y = Adds-pure x
status false x y = Adds-pure y

module _ (bus : Bus) (queued : Bool)
    (answers : (n : ℕ)
      → bus.retry_queued n ≡ message (record { is_error = false; body = some queued })) where
  queue_call : Adds (call bus.retry_queued) (record { is_error = false; body = some queued }) []
  unfolding call or_raise
  queue_call =
      Adds-bind (ask bus.retry_queued) or_raise _ (Adds-ask bus.retry_queued _ answers)
        (Adds-pure _)

  -- Where retries are on and the queue answers, a trap is handed to the queue once and not sent; the
  -- status is a failure if the queue rejects it.
  pub snmp_dispatch-queued :
      (msg : EventMsgData) (sensor_type : String) (texts : List (String × String))
      (channel selector : ℕ)
      → Adds
          (snmp_dispatch bus true msg (sensor_type, texts) channel selector)
          (if queued then 0 else failed)
          (retry_alert "snmp" (to_string msg.record_id) (("sensorType", sensor_type) ∷ texts) ∷ [])
  unfolding snmp_dispatch read or_unreadable
  snmp_dispatch-queued msg sensor_type texts channel selector =
      Adds-bind _ _ tt
        (Adds-emit
          (retry_alert "snmp" (to_string msg.record_id) (("sensorType", sensor_type) ∷ texts)))
        (Adds-after _ _ _ queue_call
          (Adds-after _ _ queued (Adds-pure queued) (status queued 0 failed)))

-- The trap and the mail of an event give it the same severity, if it is a sensor's own kind of event, or
-- an assertion whose offset is neither 4 nor 11.
pub snmp_severity-smtp_severity :
    (msg : EventMsgData)
    → ((type_code msg ≡ sensor_specific)
        ⊎ ((is_assert msg ≡ true) × (event_offset msg ≢ 0x04) × (event_offset msg ≢ 0x0B)))
    → (snmp_severity msg).0 ≡ smtp_severity msg
unfolding snmp_severity smtp_severity
snmp_severity-smtp_severity msg h = ground arith

-- A deassertion is reported as one, unless it is a sensor's own kind of event: then the direction is
-- "Asserted" all the same.
pub snmp_severity-direction :
    (msg : EventMsgData)
    → (snmp_severity msg).1
      ≡ (if is_assert msg || type_code msg == sensor_specific then "Asserted" else "Deasserted")
unfolding snmp_severity
snmp_severity-direction msg = ground arith
