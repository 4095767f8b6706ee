-- ===== src/Validation.antt =====
-- src/pef_config.cpp: `validateIPv4Address` and `validateIPv6Address`, the tests of the addresses that the
-- PEF configuration service is given.
pub mod Addresses
pub mod Community
use Prim.Native.Char.{code}
use Prim.Native.String.{String, [], ◌∷◌}
use platform_event_filter.Common.{
  ℕ, Bool, true, false, not, ◌&&◌, ◌||◌, ◌==◌, leb, if◌then◌else◌, is_empty,
}

-- `isdigit` and `isxdigit`, of a character's code.
abbrev pub is_digit : ℕ → Bool
is_digit c = leb b'0' c && leb c b'9'

abbrev pub is_xdigit : ℕ → Bool
is_xdigit c = is_digit c || ((leb b'a' c && leb c b'f') || (leb b'A' c && leb c b'F'))

-- The loop over the characters, up to the first that is neither a digit nor a dot.
unfoldable pub valid_ipv4_chars : String → Bool
valid_ipv4_chars [] = true
valid_ipv4_chars (c ∷ s) =
    let rest = valid_ipv4_chars s in
    if not (is_digit (code c)) && not (code c == b'.') then false else rest

-- The loop that also notes a colon: `hasColon` and `validIPv6Chars` after it.
unfoldable pub scan_ipv6 : String → Bool → Bool × Bool
scan_ipv6 [] has_colon = (has_colon, true)
scan_ipv6 (c ∷ s) has_colon =
    let seen = has_colon || code c == b':' in
    let rest = scan_ipv6 s seen in
    if not (is_xdigit (code c)) && not (code c == b':') then (seen, false) else rest

-- `inet_pton` reads the text as an address of the family; `getaddrinfo` resolves it in the family.
module _ (inet_pton resolves : String → Bool) where
  unfoldable pub validate_ipv4_address : String → Bool
  validate_ipv4_address address =
      if is_empty address
      then true
      else if inet_pton address
      then true
      else if valid_ipv4_chars address
      then false
      else resolves address

  unfoldable pub validate_ipv6_address : String → Bool
  validate_ipv6_address address =
      let (has_colon, valid_ipv6_chars) = scan_ipv6 address false in
      if is_empty address
      then true
      else if inet_pton address
      then true
      else if has_colon && valid_ipv6_chars
      then false
      else resolves address
