-- ===== src/Tests/Paths.antt =====
-- The paths and the channels.
use platform_event_filter.Common.{
  ◌≡◌, refl, ◌≢◌, true, false, [], ◌∷◌, String, ◌===◌, eq_iff, All, arith,
}
use text.Mathlib.Text.{starts_with}
use platform_event_filter.Channels.{EthChannelMap, eth_only, get_interface_name_for_channel}
use platform_event_filter.Channels.Laws.{HasDistinctNames, eth_only-IsEth}
use platform_event_filter.SensorPath.Laws.{NoSlash}

ne : (s t : String) → (s === t) ≡ false → s ≢ t
ne s t h e = ground (arith, eq_iff s t)

fan-NoSlash : NoSlash "fan"
fan-NoSlash = (omega arith, (omega arith, (omega arith, tt)))

cpu-NoSlash : NoSlash "CPU"
cpu-NoSlash = (omega arith, (omega arith, (omega arith, tt)))

abbrev two_channels : EthChannelMap
two_channels = (1, "eth0") ∷ (8, "eth1") ∷ []

two_channels-HasDistinctNames : HasDistinctNames two_channels
two_channels-HasDistinctNames =
    (ne "eth0" "" refl, (ne "eth1" "eth0" refl, tt), (ne "eth1" "" refl, tt, tt))

eight : get_interface_name_for_channel 8 two_channels ≢ ""
unfolding get_interface_name_for_channel
eight = ne "eth1" "" refl

eth_only-IsEth_example :
    All (λ p. starts_with p.1 "eth" ≡ true) (eth_only ((1, "eth0") ∷ (2, "usb0") ∷ []))
eth_only-IsEth_example = eth_only-IsEth ((1, "eth0") ∷ (2, "usb0") ∷ [])
