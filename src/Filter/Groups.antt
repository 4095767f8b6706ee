-- ===== src/Filter/Groups.antt =====
-- src/pef_action.cpp, `eventFilteringProcess`: what the loop over the groups collects where they answer.
use platform_event_filter.Common.{
  ℕ, zero, suc, ◌+◌, ◌≤◌, ◌<◌, arith, ◌≡◌, refl, false, some, List, [], ◌∷◌, ◌++◌, String, ◌&◌,
  to_string,
}
use platform_event_filter.EventData.{EventMsgData}
use platform_event_filter.Exec.{◌>>=◌}
use platform_event_filter.Exec.Adds.{Adds, Adds-pure, Adds-catch_sdbus, Adds-after}
use platform_event_filter.Bus.{Bus, message, Column, bytes, words}
use platform_event_filter.Bus.Answers.{call-Adds, read-Adds}
use platform_event_filter.Bus.Calls.{get_bytes, get_words}
use platform_event_filter.Filter.{EvtFilterTblEntry}
use platform_event_filter.Filter.Rows.{Columns, match_table}
use platform_event_filter.Filter.Table.{
  event_filter_table_path, event_filter_table_intf, byte_column, word_column, read_columns,
  match_group, match_groups,
}

-- The properties of a group with these columns.
abbrev pub properties_of : Columns → List (String × Column)
properties_of c =
    ("FilterConfig", bytes c.filter_config)
    ∷ ("GenIDByte1", bytes c.gen_id_byte1)
    ∷ ("GenIDByte2", bytes c.gen_id_byte2)
    ∷ ("SensorType", bytes c.sensor_type)
    ∷ ("SensorNum", bytes c.sensor_num)
    ∷ ("EventTrigger", bytes c.event_trigger)
    ∷ ("EventData1ANDMask", bytes c.event_data1_and_mask)
    ∷ ("EventData1Cmp1", bytes c.event_data1_cmp1)
    ∷ ("EventData1Cmp2", bytes c.event_data1_cmp2)
    ∷ ("EventData2ANDMask", bytes c.event_data2_and_mask)
    ∷ ("EventData2Cmp1", bytes c.event_data2_cmp1)
    ∷ ("EventData2Cmp2", bytes c.event_data2_cmp2)
    ∷ ("EventData3ANDMask", bytes c.event_data3_and_mask)
    ∷ ("EventData3Cmp1", bytes c.event_data3_cmp1)
    ∷ ("EventData3Cmp2", bytes c.event_data3_cmp2)
    ∷ ("EventData1OffsetMask", words c.event_data1_offset_mask)
    ∷ ("EvtFilterAction", bytes c.evt_filter_action)
    ∷ ("AlertPolicyNum", bytes c.alert_policy_num)
    ∷ ("EventSeverity", bytes c.event_severity)
    ∷ []

read_columns-Adds : (c : Columns) → Adds (read_columns (properties_of c)) c []
unfolding read_columns byte_column word_column get_bytes get_words ◌>>=◌
read_columns-Adds c = record { at = λ w. (w.calls, refl) }

-- The matches of the groups from `group_index` on, `n` of them, in order.
abbrev pub collected : EventMsgData → (ℕ → Columns) → ℕ → ℕ → List EvtFilterTblEntry
collected msg columns zero group_index = []
collected msg columns (suc n) group_index =
    match_table msg (columns group_index) ++ collected msg columns n (group_index + 1)

-- A group's object answers with these columns.
abbrev pub Answers : Bus → ℕ → Columns → Type 0
Answers bus group_index c =
    (k : ℕ)
    → bus.get_all k (event_filter_table_path & "/List" & to_string group_index)
        event_filter_table_intf
      ≡ message (record { is_error = false; body = some (properties_of c) })

module _ (bus : Bus) (msg : EventMsgData) (columns : ℕ → Columns) where
  match_group-Adds :
      (group_index : ℕ)
      → Answers bus group_index (columns group_index)
      → Adds (match_group bus msg group_index) (match_table msg (columns group_index)) []
  unfolding match_group
  match_group-Adds group_index answers = Adds-after _ _ _ (call-Adds _ _ answers) (
      Adds-after _ _ _ (read-Adds (properties_of (columns group_index))) (
        Adds-after _ _ (columns group_index) (read_columns-Adds (columns group_index))
          (Adds-pure (match_table msg (columns group_index)))))

  -- Only the groups that the loop asks for need to answer.
  pub match_groups_asked :
      (n group_index : ℕ)
      → ((j : ℕ) → group_index ≤ j → j < group_index + n → Answers bus j (columns j))
      → Adds (match_groups bus msg n group_index) (collected msg columns n group_index) []
  unfolding match_groups
  match_groups_asked zero group_index answers = Adds-pure []
  match_groups_asked (suc n) group_index answers =
      Adds-after _ _ _
        (Adds-catch_sdbus _ _ _ _
          (match_group-Adds group_index (answers group_index (omega arith) (omega arith))))
        (Adds-after _ _ _
          (match_groups_asked n (group_index + 1) (λ j l b. answers j (omega arith) (omega arith)))
          (Adds-pure _))

  -- Where each group answers with its columns, the loop over the groups collects the matches of the
  -- groups in their order, and asks nothing to be done.
  pub match_groups-Adds :
      (answers : (k group_index : ℕ)
        → bus.get_all k
            (event_filter_table_path & "/List" & to_string group_index)
            event_filter_table_intf
          ≡ message
              (record { is_error = false; body = some (properties_of (columns group_index)) }))
      (n group_index : ℕ)
      → Adds (match_groups bus msg n group_index) (collected msg columns n group_index) []
  match_groups-Adds answers n group_index =
      match_groups_asked n group_index (λ j l b k. answers k j)
