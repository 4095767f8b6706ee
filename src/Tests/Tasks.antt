-- ===== src/Tests/Tasks.antt =====
-- The task.
use platform_event_filter.Common.{◌≡◌, refl, false, [], ◌∷◌, All}
use platform_event_filter.EventData.{pef_eve_data_match}
use platform_event_filter.Exec.{◌>>=◌, chassis_transition, create_log, for_each}
use platform_event_filter.Bus.{Bus}
use platform_event_filter.Bus.Calls.{
  call, read, get_u8, get_bytes, get_words, or_raise, or_unreadable,
}
use platform_event_filter.Channels.{get_eth_channel_interface_map}
use platform_event_filter.Filter.{accepts, source_differs, offset_bit}
use platform_event_filter.Filter.Rows.{row, push_if, match_rows, match_table}
use platform_event_filter.Filter.Table.{
  byte_column, word_column, read_columns, get_immediate_child_object_path_count, match_group,
  match_groups,
}
use platform_event_filter.Action.{perform_entry, perform_pef_action}
use platform_event_filter.Action.SelLog.{journal_msg, add_data, pef_action_sel_log}
use platform_event_filter.Action.Power.{
  has, logs_actions, power_stage, power_off, sel_log_if, pwr_ctl_off,
  initiate_chassis_state_transition,
}
use platform_event_filter.Action.Alert.{alert_stage}
use platform_event_filter.Task.{
  byte_at, get_pef_conf_info, act_on, event_filtering_process, get_byte, gated, pef_task,
}
use platform_event_filter.Task.Justified.{Justified, pef_task-Justified}
use platform_event_filter.Task.Gate.{Gate}
use platform_event_filter.Tests.Fixtures.{host, hot_event, timed}

pef_task-Justified_example :
    All
      (Justified host hot_event)
      (pef_task host false hot_event (record { calls = 0; trace = [] })).1.trace
pef_task-Justified_example = pef_task-Justified host hot_event false 0

-- The run that the example is about.
task_run :
    (pef_task host false hot_event (record { calls = 0; trace = [] })).1.trace
    ≡ chassis_transition pwr_ctl_off ∷ create_log (journal_msg 0x02) (add_data 0x02) ∷ []
unfolding pef_task get_byte gated event_filtering_process act_on get_pef_conf_info byte_at ◌>>=◌
    call read get_u8 get_bytes get_words or_raise or_unreadable get_eth_channel_interface_map
    accepts source_differs offset_bit row push_if match_rows match_table byte_column word_column
    read_columns get_immediate_child_object_path_count match_group match_groups perform_entry
    perform_pef_action pef_action_sel_log has logs_actions power_stage power_off sel_log_if
    initiate_chassis_state_transition alert_stage for_each pef_eve_data_match
task_run = refl

-- The host's answers, with the postpone timer at 5.
abbrev postponed : Bus
postponed = record host { get = λ n path intf name. timed name }

gate : Gate postponed 0x03 0x05
gate = record { control_at = λ n. refl; timer_at = λ n. refl }
