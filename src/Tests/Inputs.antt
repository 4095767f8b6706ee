-- ===== src/Tests/Inputs.antt =====
-- The tests of the configuration's inputs.
use platform_event_filter.Common.{◌≡◌, refl, ◌↔◌, ◌⊎◌, Bool, true, false, not, ◌==◌, String}
use platform_event_filter.Validation.{
  valid_ipv4_chars, scan_ipv6, validate_ipv4_address, validate_ipv6_address,
}
use platform_event_filter.Validation.Addresses.{
  some_char, is_ipv4_char, is_ipv6_char, validate_ipv4_address_lem, validate_ipv6_address_lem,
}

-- An address that is too short, and would resolve.
abbrev no_address : String → Bool
no_address address = false

abbrev any_host : String → Bool
any_host address = true

abbrev short_ipv4 : String
short_ipv4 = "10.0.0"

abbrev short_ipv6 : String
short_ipv6 = "2001:db8"

short_address : validate_ipv4_address no_address any_host short_ipv4 ≡ false
unfolding validate_ipv4_address valid_ipv4_chars
short_address = refl

validate_ipv4_address_example : (validate_ipv4_address no_address any_host short_ipv4 ≡ true) ↔ (
    (short_ipv4 ≡ "")
    ⊎ (no_address short_ipv4 ≡ true)
    ⊎ ((some_char (λ c. not (is_ipv4_char c)) short_ipv4 ≡ true) × (any_host short_ipv4 ≡ true)))
validate_ipv4_address_example = validate_ipv4_address_lem no_address any_host short_ipv4

validate_ipv6_address_example : (validate_ipv6_address no_address any_host short_ipv6 ≡ true) ↔ (
    (short_ipv6 ≡ "")
    ⊎ (no_address short_ipv6 ≡ true)
    ⊎ (((some_char (λ c. c == b':') short_ipv6 ≡ false)
          ⊎ (some_char (λ c. not (is_ipv6_char c)) short_ipv6 ≡ true))
        × (any_host short_ipv6 ≡ true)))
validate_ipv6_address_example = validate_ipv6_address_lem no_address any_host short_ipv6

-- Without a colon the text is taken for a host's name, though all of it is hexadecimal.
hexadecimal_host : validate_ipv6_address no_address any_host "cafe" ≡ true
unfolding validate_ipv6_address scan_ipv6
hexadecimal_host = refl
