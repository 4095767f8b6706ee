-- ===== src/Validation/Addresses.antt =====
-- src/pef_config.cpp: which addresses are valid.
use Prim.Native.Char.{code}
use Prim.Native.String.{String, [], ◌∷◌}
use platform_event_filter.Common.{
  ℕ, ◌≡◌, refl, ◌↔◌, ◌⊎◌, Bool, true, false, not, ◌&&◌, ◌||◌, ◌==◌, if◌then◌else◌, eq_iff, arith,
}
use platform_event_filter.Validation.{
  is_digit, is_xdigit, valid_ipv4_chars, scan_ipv6, validate_ipv4_address, validate_ipv6_address,
}

-- Some character passes the test.
abbrev pub some_char : (ℕ → Bool) → String → Bool
some_char test [] = false
some_char test (c ∷ s) = test (code c) || some_char test s

-- Digits and dots; hexadecimal digits and colons.
abbrev pub is_ipv4_char : ℕ → Bool
is_ipv4_char c = is_digit c || c == b'.'

abbrev pub is_ipv6_char : ℕ → Bool
is_ipv6_char c = is_xdigit c || c == b':'

valid_ipv4_chars_lem :
    (s : String) → valid_ipv4_chars s ≡ not (some_char (λ c. not (is_ipv4_char c)) s)
unfolding valid_ipv4_chars
valid_ipv4_chars_lem [] = refl
valid_ipv4_chars_lem (c ∷ s) = ground (arith, valid_ipv4_chars_lem s)

scan_step :
    (x k seen : Bool) (r : Bool × Bool) (colon other : Bool)
    → (r.0 && r.1) ≡ (((seen || k) || colon) && not other)
    → ((if not x && not k then (seen || k, false) else r).0
        && (if not x && not k then (seen || k, false) else r).1)
      ≡ ((seen || (k || colon)) && not (not (x || k) || other))
scan_step true k seen r colon other h = ground arith
scan_step false true seen r colon other h = ground arith
scan_step false false seen r colon other h = ground arith

scan_ipv6_lem :
    (s : String) (seen : Bool)
    → ((scan_ipv6 s seen).0 && (scan_ipv6 s seen).1)
      ≡ ((seen || some_char (λ c. c == b':') s) && not (some_char (λ c. not (is_ipv6_char c)) s))
unfolding scan_ipv6
scan_ipv6_lem [] seen = ground arith
scan_ipv6_lem (c ∷ s) seen =
    scan_step (is_xdigit (code c)) (code c == b':') seen (scan_ipv6 s (seen || code c == b':'))
      (some_char (λ c. c == b':') s) (some_char (λ c. not (is_ipv6_char c)) s)
      (scan_ipv6_lem s (seen || code c == b':'))

module _ (inet_pton resolves : String → Bool) (address : String) where
  -- An IPv4 address is valid exactly if it is empty, or `inet_pton` reads it, or it resolves and has a
  -- character that is neither a digit nor a dot.
  pub validate_ipv4_address_lem : (validate_ipv4_address inet_pton resolves address ≡ true) ↔ (
      (address ≡ "")
      ⊎ (inet_pton address ≡ true)
      ⊎ ((some_char (λ c. not (is_ipv4_char c)) address ≡ true) × (resolves address ≡ true)))
  unfolding validate_ipv4_address
  validate_ipv4_address_lem = ground (arith, eq_iff address "", valid_ipv4_chars_lem address)

  -- An IPv6 address is valid exactly if it is empty, or `inet_pton` reads it, or it resolves and either
  -- has no colon or has a character that is neither a hexadecimal digit nor a colon.
  pub validate_ipv6_address_lem : (validate_ipv6_address inet_pton resolves address ≡ true) ↔ (
      (address ≡ "")
      ⊎ (inet_pton address ≡ true)
      ⊎ (((some_char (λ c. c == b':') address ≡ false)
            ⊎ (some_char (λ c. not (is_ipv6_char c)) address ≡ true))
          × (resolves address ≡ true)))
  unfolding validate_ipv6_address
  validate_ipv6_address_lem = ground (arith, eq_iff address "", scan_ipv6_lem address false)
