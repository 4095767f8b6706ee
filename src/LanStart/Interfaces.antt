-- ===== src/LanStart/Interfaces.antt =====
-- src/pef_config.cpp: `getAvailableEthInterfaces`, and the LAN interfaces that the service starts with.
use text.Mathlib.Text.{starts_with}
use mathlib.Core.Option.{some-injective}
use platform_event_filter.Common.{
  ◌≡◌, ◌≢◌, refl, arith, inl, inr, Bool-cases, Bool, true, false, not, ◌||◌, if◌then◌else◌, Option,
  none, some, List, [], ◌∷◌, ◌++◌, String, ◌===◌, eq_iff, All, All-append,
}
use platform_event_filter.Common.Options.{◌>>=◌, >>=-some}
use platform_event_filter.Retry.{Field, absent, mistyped, field}

-- An entry of the channel configuration.
pub data Channel : Type 0 where
  no_object : Channel
  channel : (is_valid : Field Bool) (name : Field String) → Channel

-- `channelObj.value(key, default)`: `none` is the exception for a value of another type.
unfoldable pub value_or : {A : Type 0} → A → Field A → Option A
value_or default absent = some default
value_or default mistyped = none
value_or default (field a) = some a

unfoldable pub has_name : String → List String → Bool
has_name name [] = false
has_name name (n ∷ names) = name === n || has_name name names

unfoldable pub push_name : String → List String → List String
push_name name names =
    if not (starts_with name "eth")
    then names
    else if has_name name names
    then names
    else names ++ (name ∷ [])

unfoldable pub add_channel : Channel → List String → Option (List String)
add_channel no_object names = some names
add_channel (channel is_valid name) names = value_or false is_valid >>= λ valid.
    if not valid then some names else value_or "" name >>= λ n. some (push_name n names)

unfoldable pub add_channels : List Channel → List String → Option (List String)
add_channels [] names = some names
add_channels (c ∷ channels) names = add_channel c names >>= add_channels channels

-- A file that cannot be opened or parsed has no channels.
unfoldable pub get_available_eth_interfaces : Option (List Channel) → Option (List String)
get_available_eth_interfaces none = some []
get_available_eth_interfaces (some channels) = add_channels channels []

abbrev legacy_interfaces : List String
legacy_interfaces = "eth0" ∷ "eth1" ∷ "eth2" ∷ "eth3" ∷ []

abbrev or_legacy : List String → List String
or_legacy [] = legacy_interfaces
or_legacy (n ∷ names) = n ∷ names

-- `lanInterfaces`; `none` is an exception that ends the start of the LAN objects.
unfoldable pub lan_interfaces : Option (List Channel) → Option (List String)
lan_interfaces file = get_available_eth_interfaces file >>= λ names. some (or_legacy names)

abbrev pub Distinct : List String → Type 0
Distinct [] = Unit
Distinct (n ∷ names) = (has_name n names ≡ false) × Distinct names

-- Each is an Ethernet interface, and none is there twice.
pub record IsInterfaces (names : List String) : Type 0 where
  pub ethernet : All (λ n. starts_with n "eth" ≡ true) names
  pub distinct : Distinct names

has_name-append :
    (name : String) (xs ys : List String)
    → has_name name (xs ++ ys) ≡ (has_name name xs || has_name name ys)
unfolding has_name
has_name-append name [] ys = refl
has_name-append name (x ∷ xs) ys = ground (arith, has_name-append name xs ys)

eq_sym : (a b : String) → (a === b) ≡ false → (b === a) ≡ false
eq_sym a b h = ground (arith, eq_iff a b, eq_iff b a)

Distinct-append :
    (xs : List String) (name : String)
    → Distinct xs
    → has_name name xs ≡ false
    → Distinct (xs ++ (name ∷ []))
unfolding has_name
Distinct-append [] name d h = (refl, tt)
Distinct-append (x ∷ xs) name d h = (
  ground (arith, has_name-append x xs (name ∷ []), eq_sym name x),
  Distinct-append xs name d.1 (ground arith),
)

push_name-IsInterfaces :
    (n : String) (names : List String) → IsInterfaces names → IsInterfaces (push_name n names)
unfolding push_name
push_name-IsInterfaces n names h = elim (Bool-cases (starts_with n "eth")) [
  | inr e ↦ rw (e) h
  | inl e ↦ elim (Bool-cases (has_name n names)) [
    | inl f ↦ rw (e, f) h
    | inr f ↦
        rw (e, f)
          (record {
            ethernet = All-append _ names (n ∷ []) h.ethernet (e, tt);
            distinct = Distinct-append names n h.distinct f;
          })
  ]
]

add_channel-IsInterfaces :
    (c : Channel) (names : List String) {names' : List String}
    → add_channel c names ≡ some names'
    → IsInterfaces names
    → IsInterfaces names'
unfolding add_channel
add_channel-IsInterfaces no_object names e h = rw (some-injective names _ e) at h
add_channel-IsInterfaces (channel is_valid name) names {names'} e h =
    let (valid, r, e1) = >>=-some (value_or false is_valid) _ e in named valid e1
  where
    named :
        (valid : Bool)
        → (if not valid then some names else value_or "" name >>= λ n. some (push_name n names))
          ≡ some names'
        → IsInterfaces names'
    named false k = rw (some-injective names _ k) at h
    named true k =
        let (n, r, k1) = >>=-some (value_or "" name) _ k in
        rw (some-injective (push_name n names) _ k1) at (push_name-IsInterfaces n names h)

add_channels-IsInterfaces :
    (channels : List Channel) (names : List String) {names' : List String}
    → add_channels channels names ≡ some names'
    → IsInterfaces names
    → IsInterfaces names'
unfolding add_channels
add_channels-IsInterfaces [] names e h = rw (some-injective names _ e) at h
add_channels-IsInterfaces (c ∷ channels) names e h =
    let (mid, r, e1) = >>=-some (add_channel c names) _ e in
    add_channels-IsInterfaces channels mid e1 (add_channel-IsInterfaces c names r h)

available-IsInterfaces :
    (file : Option (List Channel)) {names : List String}
    → get_available_eth_interfaces file ≡ some names
    → IsInterfaces names
unfolding get_available_eth_interfaces
available-IsInterfaces none e =
    let empty : IsInterfaces [] = record { ethernet = tt; distinct = tt } in
    rw (some-injective [] _ e) at empty
available-IsInterfaces (some channels) e =
    add_channels-IsInterfaces channels [] e (record { ethernet = tt; distinct = tt })

legacy-IsInterfaces : IsInterfaces legacy_interfaces
unfolding has_name
legacy-IsInterfaces = record {
  ethernet = (refl, (refl, (refl, (refl, tt))));
  distinct = (refl, (refl, (refl, (refl, tt))));
}

-- The service starts with at least one LAN interface, each an Ethernet interface and none twice, unless the
-- channel configuration throws.
pub lan_interfaces-IsInterfaces :
    (file : Option (List Channel)) (names : List String)
    → lan_interfaces file ≡ some names
    → IsInterfaces names × (names ≢ [])
unfolding lan_interfaces
lan_interfaces-IsInterfaces file names e =
    let (found, r, e1) = >>=-some (get_available_eth_interfaces file) _ e in
    of_found found (available-IsInterfaces file r) (some-injective (or_legacy found) names e1)
  where
    of_found :
        (found : List String)
        → IsInterfaces found
        → or_legacy found ≡ names
        → IsInterfaces names × (names ≢ [])
    of_found [] h k = (rw (k) at legacy-IsInterfaces, rw (← k) (λ q. cc))
    of_found (n ∷ found) h k = (rw (k) at h, rw (← k) (λ q. cc))
