-- ===== src/Action.antt =====
-- src/pef_action.cpp: `performPefAction` and the actions that it takes; include/pef_utils.hpp:
-- `pefConfInfo`.
pub mod SelLog
pub mod Power
pub mod Destination
pub mod Alert
pub mod Allowed
pub mod Branches
pub mod Selection
pub mod Rejected
use platform_event_filter.Common.{Bool, List, ◌≡◌}
use platform_event_filter.EventData.{EventMsgData}
use platform_event_filter.Exec.{Exec, for_each, ◌>>=◌, ◌>>◌}
use platform_event_filter.Bus.{Bus}
use platform_event_filter.Channels.{EthChannelMap}
use platform_event_filter.Filter.{EvtFilterTblEntry}
use Power.{PefConfInfo, power_stage}
use Alert.{alert_stage}

-- The body of the loop over the matched filters.
unfoldable pub perform_entry :
    Bus → Bool → EventMsgData → EthChannelMap → PefConfInfo → EvtFilterTblEntry → Exec (Unit {0})
perform_entry bus retry_enable msg eth_map conf entry = do
  power_stage bus conf entry
  alert_stage bus retry_enable msg eth_map conf entry

unfoldable pub perform_pef_action :
    Bus
    → Bool
    → List EvtFilterTblEntry
    → EventMsgData
    → EthChannelMap
    → PefConfInfo
    → Exec (Unit {0})
perform_pef_action bus retry_enable entries msg eth_map conf =
    for_each entries (perform_entry bus retry_enable msg eth_map conf)
