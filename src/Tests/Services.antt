-- ===== src/Tests/Services.antt =====
-- The configuration service at concrete tables, and the numbers of concrete sensors.
use platform_event_filter.Common.{
  ℕ, ◌≡◌, refl, arith, some, Option, List, [], ◌∷◌, if◌then◌else◌, ◌===◌,
}
use platform_event_filter.Common.Int.{pos}
use platform_event_filter.Tables.{
  number, Row, group_rows, fill, push_back, bucket_of_index, column, cons_cast, value_or_zero,
}
use platform_event_filter.ConfigUpdate.Lists.{FitsList, shown, update}
use platform_event_filter.ConfigUpdate.Monitors.{Document}
use platform_event_filter.Properties.Writes.{
  Service, start_service, write_property, set_event_filter, set_if_there, after_set, Reach, InSync,
  Step, Reach-InSync,
}
use platform_event_filter.Properties.Values.{filter_values, is_plain_config, is_severity}
use platform_event_filter.Properties.{
  valid_filter_config, valid_severity, valid_event_filter, all_valid,
}
use platform_event_filter.SensorNumber.{SensorNumMap}

-- Filters that are blank but for their number.
abbrev blank : Row
blank = λ key. if key === "EventFilterTableEntry" then number (pos 1) else number (pos 0)

abbrev two_filters : Document
two_filters = record {
  conf_info = [];
  event_filters = blank ∷ blank ∷ [];
  alert_policies = [];
  destinations = [];
}

abbrev configs : List ℕ
configs = 0x80 ∷ 0xC0 ∷ []

configs-FitsList : FitsList 10 two_filters.event_filters 0 "FilterConfig" configs
unfolding group_rows fill push_back bucket_of_index
configs-FitsList = record {
  is_list = omega arith;
  one_each = refl;
  in_width = (omega arith, (omega arith, tt));
}

abbrev one_sensor : Option SensorNumMap
one_sensor = some ((0, "/xyz/openbmc_project/sensors/fan_tach/CPU") ∷ [])

after_write : Service
after_write = write_property one_sensor 0 "FilterConfig" configs (start_service two_filters)

one_write : Reach one_sensor (start_service two_filters) after_write
unfolding after_write start_service
one_write = Reach.next Reach.here (Step.write 0 "FilterConfig" configs configs-FitsList)

Reach-InSync_example : InSync after_write.file after_write.lists
Reach-InSync_example = Reach-InSync one_sensor two_filters one_write

after_write_shows : after_write.lists 0 "FilterConfig" ≡ some configs
unfolding after_write write_property set_event_filter set_if_there after_set update
    valid_event_filter start_service shown group_rows fill push_back bucket_of_index column
    cons_cast value_or_zero all_valid valid_filter_config
after_write_shows = refl

filter_values_example :
    (valid_filter_config 0xC0 ≡ is_plain_config 0xC0) × (valid_severity 0xC0 ≡ is_severity 0xC0)
filter_values_example = filter_values 0xC0 (omega arith)
