-- ===== src/Channels.antt =====
-- src/pef_action.cpp: `getEthChannelInterfaceMap`, `getInterfaceNameForChannel`,
-- `getChannelForInterfaceName`, `getIPAddress`.
pub mod Laws
use text.Mathlib.Text.{starts_with}
use platform_event_filter.Common.{
  ℕ, Bool, true, false, not, ◌&&◌, ◌==◌, if◌then◌else◌, Option, none, some, List, [], ◌∷◌, String,
  ◌===◌, filter,
}
use platform_event_filter.Common.Int.{ℤ, pos, negsuc}
use platform_event_filter.Exec.{Event, Exec, pure, ask, catch_std, ◌>>=◌}
use platform_event_filter.Exec.Keeps.{Emits}
use platform_event_filter.Bus.{Bus, IfAddr}
use platform_event_filter.Bus.Calls.{call, read, call_rules}

-- The channels and their interfaces, in the order of the map that the user manager answers.
abbrev pub EthChannelMap : Type 0
EthChannelMap = List (ℕ × String)

abbrev pub is_eth : ℕ × String → Bool
is_eth (channel, iface) = starts_with iface "eth"

unfoldable pub eth_only : List (ℕ × String) → EthChannelMap
eth_only channel_map = filter is_eth channel_map

unfoldable pub get_interface_name_for_channel : ℕ → EthChannelMap → String
get_interface_name_for_channel channel_no [] = ""
get_interface_name_for_channel channel_no ((channel, iface) ∷ rest) =
    if channel == channel_no then iface else get_interface_name_for_channel channel_no rest

unfoldable pub get_channel_for_interface_name : String → EthChannelMap → ℤ
get_channel_for_interface_name iface_name [] = negsuc 0
get_channel_for_interface_name iface_name ((channel, iface) ∷ rest) =
    if iface === iface_name then pos channel else get_channel_for_interface_name iface_name rest

abbrev is_named : Option String → String → Bool
is_named none name = true
is_named (some wanted) name = name === wanted

-- The loop over the addresses: the first IPv4 address of the wanted interface that is not `lo`.
unfoldable pub first_address : Option String → List IfAddr → String
first_address iface_name [] = ""
first_address iface_name (ifa ∷ rest) =
    let more = first_address iface_name rest in
    elim ifa.ipv4 [
      | none ↦ more
      | some address ↦
          if is_named iface_name ifa.name && not (ifa.name === "lo") then address else more
    ]

module _ (bus : Bus) where
  -- Any exception leaves the map empty.
  unfoldable pub get_eth_channel_interface_map : Exec EthChannelMap
  get_eth_channel_interface_map =
      catch_std
        (do reply ← call bus.channel_map; channel_map ← read reply; pure (eth_only channel_map))
        (pure [])

  unfoldable pub get_ip_address : Option String → Exec String
  get_ip_address iface_name = do
    addresses ← ask bus.interfaces
    pure (first_address iface_name addresses)

  module _ {P : Event → Type 0} where
    pub Emits-eth_map : Emits P get_eth_channel_interface_map
    unfolding get_eth_channel_interface_map
    Emits-eth_map = search call_rules depth 8

    pub Emits-ip_address : (iface_name : Option String) → Emits P (get_ip_address iface_name)
    unfolding get_ip_address
    Emits-ip_address iface_name = search call_rules depth 8
