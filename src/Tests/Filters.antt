-- ===== src/Tests/Filters.antt =====
-- The event filters.
use mathlib.Core.List.{Mem}
use platform_event_filter.Common.{
  ◌≡◌, refl, ◌↔◌, true, if◌then◌else◌, some, [], ◌∷◌, All, length, arith,
}
use platform_event_filter.EventData.{pef_eve_data_match}
use platform_event_filter.EventData.BitSpec.{bits_match, pef_eve_data_match_lem}
use platform_event_filter.Filter.{accepts, source_differs, offset_bit}
use platform_event_filter.Filter.Accepts.{AreBytes, Accepts, accepts_iff}
use platform_event_filter.Filter.Rows.{row, match_table}
use platform_event_filter.Filter.Matches.{IsMatch, match_table-IsMatch, match_table-mem}
use platform_event_filter.Policy.{PolicyColumns, is_disabled, policy_row, policy_rows}
use platform_event_filter.Policy.Laws.{IsPolicy, policy_rows_sound, policy_rows_complete}
use platform_event_filter.Tests.Fixtures.{hot, hot_event, two_rows}

-- Some compared bits are exact and some are not.
pef_eve_data_match_example :
    pef_eve_data_match 0x59 0x0F 0x0C 0x09 ≡ (if bits_match 0x59 0x0F 0x0C 0x09 then 1 else 0)
pef_eve_data_match_example =
    pef_eve_data_match_lem 0x59 0x0F 0x0C 0x09 (omega arith) (omega arith) (omega arith)

hot_bytes : AreBytes hot_event hot
hot_bytes = record {
  data1 = omega arith;
  data2 = omega arith;
  data3 = omega arith;
  cmp11 = omega arith;
  cmp12 = omega arith;
  cmp21 = omega arith;
  cmp22 = omega arith;
  cmp31 = omega arith;
  cmp32 = omega arith;
}

accepts_example : (accepts hot_event hot ≡ true) ↔ Accepts hot_event hot
accepts_example = accepts_iff hot_event hot hot_bytes

hot-accepts : accepts hot_event hot ≡ true
unfolding accepts source_differs offset_bit pef_eve_data_match
hot-accepts = refl

match_table-IsMatch_example :
    All
      (IsMatch hot_event two_rows 0 (length two_rows.filter_config))
      (match_table hot_event two_rows)
match_table-IsMatch_example = match_table-IsMatch hot_event two_rows

second_row : row two_rows 1 ≡ some hot
unfolding row
second_row = refl

match_table-mem_example : Mem hot (match_table hot_event two_rows)
match_table-mem_example =
    match_table-mem hot_event two_rows 1 hot (omega arith) second_row hot-accepts

-- Three rows: another group, a disabled one, and one that is taken.
abbrev policies : PolicyColumns
policies = record {
  group_nums = 2 ∷ 1 ∷ 1 ∷ [];
  enable_alert = some (1 ∷ 0 ∷ 1 ∷ []);
  policy_action = some (0 ∷ 0 ∷ 0 ∷ []);
  channel_no = some (1 ∷ 1 ∷ 1 ∷ []);
  destination_sel = some (1 ∷ 2 ∷ 3 ∷ []);
  event_specific_alert_str = some ("" ∷ "" ∷ "" ∷ []);
}

policy_rows_sound_example :
    All (IsPolicy 1 policies 0 policies.group_nums) (policy_rows 1 policies policies.group_nums 0)
policy_rows_sound_example = policy_rows_sound 1 policies

policy_rows_complete_example :
    Mem (policy_row policies 1 2) (policy_rows 1 policies policies.group_nums 0)
unfolding is_disabled
policy_rows_complete_example = policy_rows_complete 1 policies 2 refl refl
