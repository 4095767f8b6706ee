-- ===== src/LanProperties/Steps.antt =====
-- src/pef_config.cpp: writes of the LAN properties as steps, and what every state reached satisfies.
use platform_event_filter.Common.{
  ℕ, ◌≤◌, ◌≡◌, refl, Bool, true, false, Option, none, some, List, String, All, eq_iff,
}
use platform_event_filter.LanJson.{
  Saved, text, texts, numbers, LanJson, Container, container, config_in, put_value, put_config,
  put_lan_json, put_container, update_lan_param_config_value, saved_at,
}
use platform_event_filter.LanProperties.{
  LanProperties, Lan, Users, Answers, Request, set_property, handle,
}
use platform_event_filter.Validation.Addresses.{
  validate_ipv4_address_lem, validate_ipv6_address_lem,
}
use platform_event_filter.LanProperties.Takes.{
  IsIpv4, IsIpv6, IsType, IsAddressType, IsCommunity, all_valid_iff, valid_type_iff,
  valid_retry_iff, valid_address_type_iff, valid_community_iff,
}

-- `inet_pton`, `getaddrinfo` and the communities answer the same in all steps; the user manager and the file may
-- not.
module _ (inet_pton resolves knows_community : String → Bool) (iface : String) where
  abbrev pub answers_of : Users → Bool → Answers
  answers_of users opened = record {
    inet_pton = inet_pton;
    resolves = resolves;
    knows_community = knows_community;
    users = users;
    opened = opened;
  }

  pub data Step (s : Lan) : Lan → Type 0 where
    request :
        (users : Users) (opened : Bool) (r : Request)
        → Step s (handle iface (answers_of users opened) r s).1

  pub data Reach (s : Lan) : Lan → Type 0 where
    here : Reach s s
    next : {t u : Lan} → Reach s t → Step t u → Reach s u

  -- The types that user names are checked against are those that are shown, and every value meets the
  -- requirements of its property.
  pub record IsSoundAt (community_string : String) (ipv4 ipv6 : List String)
      (types shared_types retries address_type : List ℕ) : Type 0 where
    pub shared : shared_types ≡ types
    pub community : IsCommunity knows_community community_string
    pub ipv4_addresses : All (IsIpv4 inet_pton resolves) ipv4
    pub ipv6_addresses : All (IsIpv6 inet_pton resolves) ipv6
    pub known_types : All IsType types
    pub bounded_retries : All (λ retry. retry ≤ 7) retries
    pub known_address_types : All IsAddressType address_type

  abbrev pub IsSound : LanProperties → Type 0
  IsSound p =
      IsSoundAt p.community_string p.ipv4 p.ipv6 p.types p.shared_types p.retries p.address_type

  set_property-IsSound :
      (answers : Answers) (valid : Bool) (properties : LanProperties) (key : String) (value : Saved)
      (s : Lan)
      → IsSound s.properties
      → (valid ≡ true → IsSound properties)
      → IsSound (set_property iface answers valid properties key value s).1.properties
  unfolding set_property
  set_property-IsSound answers true properties key value s h k = k refl
  set_property-IsSound answers false properties key value s h k = h

  sound_of :
      {community_string : String} {ipv4 ipv6 : List String}
      → {types shared_types retries address_type : List ℕ} → shared_types ≡ types
      → IsCommunity knows_community community_string
      → All (IsIpv4 inet_pton resolves) ipv4
      → All (IsIpv6 inet_pton resolves) ipv6
      → All IsType types
      → All (λ retry. retry ≤ 7) retries
      → All IsAddressType address_type
      → IsSoundAt community_string ipv4 ipv6 types shared_types retries address_type
  sound_of a b c d e f g = record {
    shared = a;
    community = b;
    ipv4_addresses = c;
    ipv6_addresses = d;
    known_types = e;
    bounded_retries = f;
    known_address_types = g;
  }

  handle-IsSound :
      (users : Users) (opened : Bool) (r : Request) (s : Lan)
      → IsSound s.properties
      → IsSound (handle iface (answers_of users opened) r s).1.properties
  unfolding handle
  handle-IsSound users opened (Request.set_community_string value) s h =
      set_property-IsSound (answers_of users opened) _ _ _ _ s h (λ e.
        sound_of h.shared ((valid_community_iff (answers_of users opened) value).0 e)
          h.ipv4_addresses h.ipv6_addresses h.known_types h.bounded_retries h.known_address_types)
  handle-IsSound users opened (Request.set_types value) s h =
      set_property-IsSound (answers_of users opened) _ _ _ _ s h (λ e.
        sound_of refl h.community h.ipv4_addresses h.ipv6_addresses
          ((all_valid_iff _ _ valid_type_iff value).0 e) h.bounded_retries h.known_address_types)
  handle-IsSound users opened (Request.set_retries value) s h =
      set_property-IsSound (answers_of users opened) _ _ _ _ s h (λ e.
        sound_of h.shared h.community h.ipv4_addresses h.ipv6_addresses h.known_types
          ((all_valid_iff _ _ valid_retry_iff value).0 e) h.known_address_types)
  handle-IsSound users opened (Request.set_address_type value) s h =
      set_property-IsSound (answers_of users opened) _ _ _ _ s h (λ e.
        sound_of h.shared h.community h.ipv4_addresses h.ipv6_addresses h.known_types
          h.bounded_retries ((all_valid_iff _ _ valid_address_type_iff value).0 e))
  handle-IsSound users opened (Request.set_ipv4 value) s h =
      set_property-IsSound (answers_of users opened) _ _ _ _ s h (λ e.
        sound_of h.shared h.community
          ((all_valid_iff _ _ (validate_ipv4_address_lem inet_pton resolves) value).0 e)
          h.ipv6_addresses h.known_types h.bounded_retries h.known_address_types)
  handle-IsSound users opened (Request.set_ipv6 value) s h =
      set_property-IsSound (answers_of users opened) _ _ _ _ s h (λ e.
        sound_of h.shared h.community h.ipv4_addresses
          ((all_valid_iff _ _ (validate_ipv6_address_lem inet_pton resolves) value).0 e)
          h.known_types h.bounded_retries h.known_address_types)
  handle-IsSound users opened (Request.set_user_name value) s h =
      set_property-IsSound (answers_of users opened) _ _ _ _ s h (λ e. h)
  handle-IsSound users opened (Request.set_timeout value) s h =
      set_property-IsSound (answers_of users opened) _ _ _ _ s h (λ e. h)

  -- From sound properties every state that writes lead to has sound properties, as long as the address
  -- functions and the communities answer alike: the types that user names are checked against are those
  -- shown, every address is empty, read by inet_pton or a name that resolves, the community has at most 18
  -- characters and is empty or configured, the types are 0 to 3, 6 or 7, the retries at most 7, and the address
  -- types 1 or 2.
  pub Reach-IsSound : {s t : Lan} → Reach s t → IsSound s.properties → IsSound t.properties
  Reach-IsSound here h = h
  Reach-IsSound (next {t} r (request users opened q)) h =
      handle-IsSound users opened q t (Reach-IsSound r h)

-- The key of the file that a property is kept under, and the value.
unfoldable pub key_of : Request → String
key_of (Request.set_community_string value) = "CommunityString"
key_of (Request.set_ipv4 value) = "IPv4"
key_of (Request.set_ipv6 value) = "IPv6"
key_of (Request.set_user_name value) = "UserName"
key_of (Request.set_types value) = "Type"
key_of (Request.set_timeout value) = "Timeout"
key_of (Request.set_retries value) = "Retries"
key_of (Request.set_address_type value) = "AddressType"

unfoldable pub value_of : Request → Saved
value_of (Request.set_community_string value) = text value
value_of (Request.set_ipv4 value) = texts value
value_of (Request.set_ipv6 value) = texts value
value_of (Request.set_user_name value) = texts value
value_of (Request.set_types value) = numbers value
value_of (Request.set_timeout value) = numbers value
value_of (Request.set_retries value) = numbers value
value_of (Request.set_address_type value) = numbers value

-- A write was refused and nothing changed, or it was taken and the file has its value.
pub Settled : String → String → Saved → Lan → Bool × Lan → Type 0
Settled iface key value s (false, t) = t ≡ s
Settled iface key value s (true, t) =
    (file : LanJson) × (t.file ≡ some file) × (saved_at iface key file ≡ some value)

module _ (iface key : String) (value : Saved) where
  put_config_self :
      (c : Container) → config_in (put_config iface key value c iface) key ≡ some value
  unfolding put_config config_in put_value
  put_config_self c = rw ((eq_iff iface iface).1 refl) (rw ((eq_iff key key).1 refl) refl)

  saved_at-put :
      (file : LanJson) → saved_at iface key (put_lan_json iface key value file) ≡ some value
  unfolding saved_at put_lan_json put_container
  saved_at-put file = at file.interfaces
    where
      at :
          (interfaces : Option Container)
          → config_in (container (put_container iface key value interfaces file.top) iface) key
            ≡ some value
      at none = put_config_self file.top
      at (some c) = put_config_self c

  saved :
      (file : Option LanJson)
      → (f : LanJson) × (update_lan_param_config_value true iface key value file ≡ some f)
        × (saved_at iface key f ≡ some value)
  unfolding update_lan_param_config_value
  saved none = (_, refl, saved_at-put _)
  saved (some file) = (_, refl, saved_at-put file)

  set_property-Settled :
      (answers : Answers) (valid : Bool) (properties : LanProperties) (s : Lan)
      → answers.opened ≡ true
      → Settled iface key value s (set_property iface answers valid properties key value s)
  unfolding set_property Settled
  set_property-Settled answers false properties s e = refl
  set_property-Settled answers true properties s e = rw (e) (saved s.file)

-- Where the LAN file opens: a write is refused and changes nothing, or it is taken and the file has its value
-- under the interface and the property's key.
pub handle-Settled :
    (iface : String) (answers : Answers) (r : Request) (s : Lan)
    → answers.opened ≡ true
    → Settled iface (key_of r) (value_of r) s (handle iface answers r s)
unfolding handle key_of value_of
handle-Settled iface answers (Request.set_community_string value) s e =
    set_property-Settled iface _ _ answers _ _ s e
handle-Settled iface answers (Request.set_ipv4 value) s e =
    set_property-Settled iface _ _ answers _ _ s e
handle-Settled iface answers (Request.set_ipv6 value) s e =
    set_property-Settled iface _ _ answers _ _ s e
handle-Settled iface answers (Request.set_user_name value) s e =
    set_property-Settled iface _ _ answers _ _ s e
handle-Settled iface answers (Request.set_types value) s e =
    set_property-Settled iface _ _ answers _ _ s e
handle-Settled iface answers (Request.set_timeout value) s e =
    set_property-Settled iface _ _ answers _ _ s e
handle-Settled iface answers (Request.set_retries value) s e =
    set_property-Settled iface _ _ answers _ _ s e
handle-Settled iface answers (Request.set_address_type value) s e =
    set_property-Settled iface _ _ answers _ _ s e
