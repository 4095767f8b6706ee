-- ===== src/Tests/Files.antt =====
-- A configuration file whose filters the daemon matches.
use platform_event_filter.Common.{ℕ, ◌≡◌, refl, if◌then◌else◌, List, [], ◌∷◌, ◌===◌}
use platform_event_filter.Common.Int.{pos}
use platform_event_filter.EventData.{pef_eve_data_match}
use platform_event_filter.Retry.{to_unsigned}
use platform_event_filter.Exec.Adds.{Adds}
use platform_event_filter.Filter.{accepts, source_differs, offset_bit}
use platform_event_filter.Filter.Rows.{push_if}
use platform_event_filter.Filter.FromFile.{entry_of, accepted}
use platform_event_filter.Tables.{absent, number, Row, value_or_zero}
use platform_event_filter.Tests.Fixtures.{hot, hot_event}

-- A row of the file: its configuration and action, and what both filters have.
abbrev hot_row : ℕ → ℕ → Row
hot_row config action = λ key.
    if key === "FilterConfig"
    then number (pos config)
    else if key === "EvtFilterAction"
    then number (pos action)
    else if key === "AlertPolicyNum"
    then number (pos 0x01)
    else if key === "EventSeverity"
    then number (pos 0x10)
    else if key === "GenIDByte1"
    then number (pos 0xFF)
    else if key === "GenIDByte2"
    then number (pos 0x20)
    else if key === "SensorType"
    then number (pos 0x01)
    else if key === "SensorNum"
    then number (pos 0xFF)
    else if key === "EventTrigger"
    then number (pos 0x01)
    else if key === "EventData1OffsetMask"
    then number (pos 0x0200)
    else if key === "EventData1ANDMask"
    then number (pos 0x0F)
    else if key === "EventData1Cmp1"
    then number (pos 0xFF)
    else if key === "EventData1Cmp2"
    then number (pos 0x09)
    else absent

-- The first is disabled.
abbrev two_hot : List Row
two_hot = hot_row 0x00 0x02 ∷ hot_row 0x80 0x03 ∷ []

hot_is_accepted : accepted hot_event two_hot ≡ hot ∷ []
unfolding accepted entry_of push_if value_or_zero to_unsigned accepts source_differs offset_bit
    pef_eve_data_match
hot_is_accepted = refl
