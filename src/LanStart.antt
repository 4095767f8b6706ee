-- ===== src/LanStart.antt =====
-- src/pef_config.cpp, `parsePefConfToDbus`: the LAN interfaces that the service starts with, the
-- configuration of each, and the properties that it shows.
pub mod Interfaces
pub mod Keys
pub mod Values
pub mod Restart
pub mod Legacy
use platform_event_filter.Common.{
  ℕ, zero, suc, ◌-◌, ◌%◌, ◌^◌, ltb, ◌!=◌, ◌&&◌, if◌then◌else◌, Bool, true, false, Option, none,
  some, List, [], ◌∷◌, ◌++◌, String, length,
}
use platform_event_filter.Common.Int.{ℤ, pos}
use platform_event_filter.Retry.{to_unsigned}
use platform_event_filter.Tables.{Cell}
use platform_event_filter.Common.Options.{◌>>=◌}
use platform_event_filter.LanJson.{
  Saved, null, number, text, numbers, texts, mixed, Config, Container, LanJson, container,
  config_in,
}
use platform_event_filter.LanProperties.{LanProperties}

-- `ensureSized`
unfoldable pub fill_up : {A : Type 0} → ℕ → A → List A
fill_up zero fill = []
fill_up (suc n) fill = fill ∷ fill_up n fill

unfoldable pub ensure_sized : {A : Type 0} → ℕ → A → List A → List A
ensure_sized dest_count fill vec =
    if (dest_count != 0) && ltb (length vec) dest_count
    then vec ++ fill_up (dest_count - length vec) fill
    else vec

-- The configuration of an interface: that of the LAN file, or of the interface's own file where the LAN file
-- does not name the interface. Without a "Config" it is empty.
unfoldable pub chosen : Option (Option Config) → Option (Option Config) → Config
chosen none legacy = config_in legacy
chosen (some found) legacy = config_in (some found)

unfoldable pub start_config : Option LanJson → (String → Option (Option Config)) → String → Config
start_config none legacy iface = config_in (legacy iface)
start_config (some file) legacy iface = chosen (container file iface) (legacy iface)

-- `cfg.value("CommunityString", std::string(""))`
unfoldable pub community_of : Option Saved → Option String
community_of none = some ""
community_of (some (text s)) = some s
community_of (some _) = none

-- `cfg.value("NumberofDestinations", 0)`, cast to a byte.
unfoldable pub count_of : Option Saved → Option ℕ
count_of none = some 0
count_of (some (number z)) = some (to_unsigned 8 z)
count_of (some _) = none

-- `contains`, and `is_array`.
unfoldable pub is_array : Option Saved → Bool
is_array none = false
is_array (some null) = false
is_array (some (number z)) = false
is_array (some (text s)) = false
is_array (some _) = true

unfoldable pub cell_texts : List Cell → Option (List String)
cell_texts [] = some []
cell_texts (Cell.string s ∷ cells) = cell_texts cells >>= λ rest. some (s ∷ rest)
cell_texts (_ ∷ cells) = none

unfoldable pub cell_bytes : List Cell → Option (List ℕ)
cell_bytes [] = some []
cell_bytes (Cell.number z ∷ cells) = cell_bytes cells >>= λ rest. some (to_unsigned 8 z ∷ rest)
cell_bytes (_ ∷ cells) = none

unfoldable pub to_bytes : List ℕ → List ℕ
to_bytes [] = []
to_bytes (n ∷ ns) = n % 2 ^ 8 ∷ to_bytes ns

-- `get<std::vector<std::string>>`: `none` is an exception.
unfoldable pub texts_of : Option Saved → Option (List String)
texts_of (some (texts ss)) = some ss
texts_of (some (numbers [])) = some []
texts_of (some (mixed cells)) = cell_texts cells
texts_of _ = none

-- The loop `static_cast<uint8_t>(v.get<uint32_t>())` over the elements; a value that is no array is its own
-- element, and null has none.
unfoldable pub bytes_of : Option Saved → Option (List ℕ)
bytes_of none = some []
bytes_of (some null) = some []
bytes_of (some (number z)) = some (to_unsigned 8 z ∷ [])
bytes_of (some (text s)) = none
bytes_of (some (numbers ns)) = some (to_bytes ns)
bytes_of (some (texts [])) = some []
bytes_of (some (texts (s ∷ ss))) = none
bytes_of (some (mixed cells)) = cell_bytes cells

unfoldable pub has_flat_arrays : Config → Bool
has_flat_arrays cfg =
    is_array (cfg "IPv4")
    && (is_array (cfg "IPv6")
        && (is_array (cfg "UserName")
            && (is_array (cfg "Type") && (is_array (cfg "Timeout") && is_array (cfg "Retries")))))

abbrev pub zero_ipv6 : String
zero_ipv6 = "0000:0000:0000:0000:0000:0000:0000:0000"

-- What an object of an interface shows: nothing, as it is not initialized; the community string and the
-- number of destinations; or all.
pub data Shown : Type 0 where
  nothing : Shown
  basic : String → ℕ → Shown
  full : ℕ → LanProperties → Shown

-- The vectors; `none` is an exception.
unfoldable pub read_vectors : Config → String → ℕ → Option LanProperties
read_vectors cfg community dest_count = do
  ipv4 ← texts_of (cfg "IPv4")
  ipv6 ← texts_of (cfg "IPv6")
  user_name ← texts_of (cfg "UserName")
  types ← bytes_of (cfg "Type")
  retries ← bytes_of (cfg "Retries")
  timeout ← bytes_of (cfg "Timeout")
  address_type ← bytes_of (cfg "AddressType")
  some (record {
    community_string = community;
    ipv4 = ensure_sized dest_count "0.0.0.0" ipv4;
    ipv6 = ensure_sized dest_count zero_ipv6 ipv6;
    user_name = ensure_sized dest_count "" user_name;
    types = ensure_sized dest_count 0 types;
    timeout = ensure_sized dest_count 0 timeout;
    retries = ensure_sized dest_count 0 retries;
    address_type = ensure_sized dest_count 1 address_type;
    shared_types = ensure_sized dest_count 0 types;
  })

unfoldable pub shown_vectors : Option LanProperties → String → ℕ → Shown
shown_vectors none community dest_count = basic community dest_count
shown_vectors (some p) community dest_count = full dest_count p

unfoldable pub shown_arrays : Config → String → ℕ → Shown
shown_arrays cfg community dest_count =
    if has_flat_arrays cfg
    then shown_vectors (read_vectors cfg community dest_count) community dest_count
    else basic community dest_count

unfoldable pub with_count : Config → String → Option ℕ → Shown
with_count cfg community none = nothing
with_count cfg community (some dest_count) = shown_arrays cfg community dest_count

unfoldable pub with_community : Config → Option String → Shown
with_community cfg none = nothing
with_community cfg (some community) =
    with_count cfg community (count_of (cfg "NumberofDestinations"))

-- The object of an interface with a configuration.
unfoldable pub show_lan : Config → Shown
show_lan cfg = with_community cfg (community_of (cfg "CommunityString"))

-- The object of an interface at the start.
unfoldable pub start_lan : Option LanJson → (String → Option (Option Config)) → String → Shown
start_lan file legacy iface = show_lan (start_config file legacy iface)
