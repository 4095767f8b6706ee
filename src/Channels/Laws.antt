-- ===== src/Channels/Laws.antt =====
-- The channel map and its two look-ups.
use text.Mathlib.Text.{starts_with}
use text.Mathlib.TextPositions.{eq_refl}
use platform_event_filter.Common.{
  ℕ, ◌≡◌, refl, ◌≢◌, true, List, [], ◌∷◌, String, All, All-filter, arith, eq_iff, sym,
}
use platform_event_filter.Common.Int.{pos}
use platform_event_filter.Channels.{
  EthChannelMap, is_eth, eth_only, get_interface_name_for_channel, get_channel_for_interface_name,
}

-- Each channel of the map has an interface that begins with "eth".
pub eth_only-IsEth :
    (channel_map : List (ℕ × String))
    → All (λ p. starts_with p.1 "eth" ≡ true) (eth_only channel_map)
unfolding eth_only
eth_only-IsEth channel_map = All-filter is_eth channel_map

-- No interface of the list has this name.
abbrev pub Lacks : String → EthChannelMap → Type 0
Lacks iface m = All (λ p. p.1 ≢ iface) m

-- The interfaces are distinct, and none has the empty name.
abbrev pub HasDistinctNames : EthChannelMap → Type 0
HasDistinctNames [] = Unit {0}
HasDistinctNames ((channel, iface) ∷ rest) = (iface ≢ "") × Lacks iface rest × HasDistinctNames rest

name_of_Lacks :
    (channel_no : ℕ) (iface : String) (m : EthChannelMap)
    → Lacks iface m
    → iface ≢ ""
    → get_interface_name_for_channel channel_no m ≢ iface
unfolding get_interface_name_for_channel
name_of_Lacks channel_no iface [] h ne = λ e. ne (sym e)
name_of_Lacks channel_no iface ((c, i) ∷ rest) h ne =
    ground (arith, name_of_Lacks channel_no iface rest h.1 ne)

-- A channel that has an interface is found again under that interface's name, if the map's interfaces
-- have distinct names that are not empty.
pub channel-interface_name :
    (m : EthChannelMap) (channel_no : ℕ)
    → HasDistinctNames m
    → get_interface_name_for_channel channel_no m ≢ ""
    → get_channel_for_interface_name (get_interface_name_for_channel channel_no m) m
      ≡ pos channel_no
unfolding get_interface_name_for_channel get_channel_for_interface_name
channel-interface_name [] channel_no d h = absurd (h refl)
channel-interface_name ((c, i) ∷ rest) channel_no (ne, lacks, d) h = ground (
  arith,
  eq_refl i,
  eq_iff i (get_interface_name_for_channel channel_no rest),
  name_of_Lacks channel_no i rest,
  channel-interface_name rest channel_no d,
)
