-- ===== src/Action/Destination.antt =====
-- src/pef_action.cpp: the look-up of an alert's destination in `performPefAction`.
use platform_event_filter.Common.{
  ℕ, ◌&&◌, ◌==◌, ltb, if◌then◌else◌, Option, none, some, List, String, ◌&◌, is_empty, get_elem?,
  length,
}
use platform_event_filter.Exec.{Event, Exec, pure, or_fault, ◌>>=◌}
use platform_event_filter.Exec.Keeps.{Emits, Emits-pure}
use platform_event_filter.Bus.{Bus, Column}
use platform_event_filter.Bus.Calls.{call, read, lookup, get_bytes, get_strings, call_rules}
use platform_event_filter.Channels.{EthChannelMap, get_interface_name_for_channel}
use platform_event_filter.Policy.{AlertPolicyTbl}
use platform_event_filter.SensorPath.{sub_size}

-- The destination's type and the user whose mail address is used.
pub record Destination : Type 0 where
  pub destination_type : ℕ
  pub selected_user_name : String

abbrev pub or_empty : Option String → String
or_empty none = ""
or_empty (some s) = s

-- The bounds test of the selector, and `selectedIndex -= 1`.
unfoldable pub selected_index : List ℕ → ℕ → Option ℕ
selected_index type_entries destination_index =
    if ltb destination_index (length type_entries)
    then some (sub_size destination_index 1)
    else none

unfoldable pub selected_user : Option Column → ℕ → Exec String
selected_user none idx = pure ""
selected_user (some column) idx = do
  entries ← get_strings column
  pure (if ltb idx (length entries) then or_empty (get_elem? entries idx) else "")

-- `none` is `continue`.
unfoldable pub destination_at :
    List (String × Column) → List ℕ → Option ℕ → Exec (Option Destination)
destination_at values type_entries none = pure none
destination_at values type_entries (some idx) = do
  type ← or_fault (get_elem? type_entries idx)
  user ← selected_user (lookup "userName" values) idx
  pure (
      if type == 3 && is_empty user
      then none
      else some (record { destination_type = type; selected_user_name = user }))

unfoldable pub destination_of :
    List (String × Column) → Option Column → ℕ → Exec (Option Destination)
destination_of values none destination_index = pure none
destination_of values (some column) destination_index = do
  type_entries ← get_bytes column
  destination_at values type_entries (selected_index type_entries destination_index)

module _ (bus : Bus) where
  -- The `try` block. An empty column of types fails the bounds test too.
  unfoldable pub select_destination : EthChannelMap → AlertPolicyTbl → Exec (Option Destination)
  select_destination eth_map policy =
      let iface_name = get_interface_name_for_channel policy.channel_no eth_map in
      if is_empty iface_name then pure none else do
        reply ← call (λ n.
            bus.get_all n ("/xyz/openbmc_project/PefAlertManager/Interface_" & iface_name)
              "xyz.openbmc_project.pef.LanParamConfig")
        if reply.is_error then pure none else do
          values ← read reply
          destination_of values (lookup "Type" values) policy.destination_sel

  module _ {P : Event → Type 0} where
    Emits-selected_user : (o : Option Column) (idx : ℕ) → Emits P (selected_user o idx)
    unfolding selected_user
    Emits-selected_user none idx = Emits-pure ""
    Emits-selected_user (some column) idx = search call_rules depth 8

    Emits-destination_at :
        (values : List (String × Column)) (types : List ℕ) (o : Option ℕ)
        → Emits P (destination_at values types o)
    unfolding destination_at
    Emits-destination_at values types none = Emits-pure none
    Emits-destination_at values types (some idx) = search (call_rules, Emits-selected_user) depth 8

    Emits-destination_of :
        (values : List (String × Column)) (o : Option Column) (destination_index : ℕ)
        → Emits P (destination_of values o destination_index)
    unfolding destination_of
    Emits-destination_of values none destination_index = Emits-pure none
    Emits-destination_of values (some column) destination_index =
        search (call_rules, Emits-destination_at) depth 8

    pub Emits-select_destination :
        (eth_map : EthChannelMap) (policy : AlertPolicyTbl)
        → Emits P (select_destination eth_map policy)
    unfolding select_destination
    Emits-select_destination eth_map policy = search (call_rules, Emits-destination_of) depth 12
