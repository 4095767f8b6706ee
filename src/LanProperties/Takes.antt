-- ===== src/LanProperties/Takes.antt =====
-- src/pef_config.cpp: the values that the setters of a LAN interface take.
use Prim.Native.String.{len}
use mathlib.Core.Option.{some-injective}
use platform_event_filter.Common.{
  ℕ, suc, ◌≤◌, ◌<◌, ap, ◌==◌, ◌≡◌, ◌≢◌, ◌⊎◌, ◌↔◌, inl, inr, refl, arith, Bool, true, false,
  Bool-cases, not, Option, none, some, List, [], ◌∷◌, String, is_empty, eq_iff, All, get_elem?,
  if◌then◌else◌,
}
use platform_event_filter.Bus.{Reply, raised, message, Message}
use platform_event_filter.Notification.Managers.{body_of}
use platform_event_filter.LanJson.{Saved}
use platform_event_filter.Properties.{all_valid}
use platform_event_filter.Validation.Addresses.{
  some_char, is_ipv4_char, is_ipv6_char, validate_ipv4_address_lem, validate_ipv6_address_lem,
}
use platform_event_filter.LanProperties.{
  LanProperties, Lan, Answers, Users, Request, valid_type, valid_retry, valid_address_type, type_at,
  exists_reply, has_access, has_mail_id, valid_for_type, valid_user_name, valid_user_names,
  valid_community, set_property, handle,
}

-- An address that is empty, or that inet_pton reads, or a host name that resolves.
abbrev pub IsIpv4 : (inet_pton resolves : String → Bool) → String → Type 0
IsIpv4 inet_pton resolves address =
    (address ≡ "")
    ⊎ (inet_pton address ≡ true)
    ⊎ ((some_char (λ c. not (is_ipv4_char c)) address ≡ true) × (resolves address ≡ true))

abbrev pub IsIpv6 : (inet_pton resolves : String → Bool) → String → Type 0
IsIpv6 inet_pton resolves address =
    (address ≡ "")
    ⊎ (inet_pton address ≡ true)
    ⊎ (((some_char (λ c. c == b':') address ≡ false)
          ⊎ (some_char (λ c. not (is_ipv6_char c)) address ≡ true))
        × (resolves address ≡ true))

-- A trap by SNMPv1, v2c or v3, a mail, or one of the two OEM types.
abbrev pub IsType : ℕ → Type 0
IsType type = (type ≤ 3) ⊎ (type ≡ 6) ⊎ (type ≡ 7)

abbrev pub IsAddressType : ℕ → Type 0
IsAddressType type = (type ≡ 1) ⊎ (type ≡ 2)

-- At most 18 characters, and empty or a community that is configured.
abbrev pub IsCommunity : (knows_community : String → Bool) → String → Type 0
IsCommunity knows_community community =
    (len community ≤ 18) × ((community ≡ "") ⊎ (knows_community community ≡ true))

-- The user manager has the user of a name; for a v3 trap the user has access, for a mail an address.
pub record IsUser (users : Users) (types : List ℕ) (i : ℕ) (name : String) : Type 0 where
  pub reply : Message (Unit {0})
  pub answered : users.get_all i name ≡ message reply
  pub no_error : reply.is_error ≡ false
  pub access : get_elem? types i ≡ some 2 → body_of (users.snmp_access i name) ≡ some true
  pub mail :
      get_elem? types i ≡ some 3
      → (mail_id : String) × (body_of (users.smtp_mail_id i name) ≡ some mail_id) × (mail_id ≢ "")

abbrev pub AreUsers : Users → List ℕ → ℕ → List String → Type 0
AreUsers users types i [] = Unit
AreUsers users types i (name ∷ names) =
    ((name ≡ "") ⊎ IsUser users types i name) × AreUsers users types (suc i) names

-- What each setter asks of a value, where the types are those that user names are checked against.
abbrev pub Takes : Answers → List ℕ → Request → Type 0
Takes answers types (Request.set_community_string value) = IsCommunity answers.knows_community value
Takes answers types (Request.set_ipv4 value) = All (IsIpv4 answers.inet_pton answers.resolves) value
Takes answers types (Request.set_ipv6 value) = All (IsIpv6 answers.inet_pton answers.resolves) value
Takes answers types (Request.set_user_name value) = AreUsers answers.users types 0 value
Takes answers types (Request.set_types value) = All IsType value
Takes answers types (Request.set_timeout value) = Unit
Takes answers types (Request.set_retries value) = All (λ retry. retry ≤ 7) value
Takes answers types (Request.set_address_type value) = All IsAddressType value

pub all_valid_iff :
    {A : Type 0} (valid : A → Bool) (P : A → Type 0)
    → ((a : A) → (valid a ≡ true) ↔ P a)
    → (value : List A) → (all_valid valid value ≡ true) ↔ All P value
unfolding all_valid
all_valid_iff valid P h [] = (λ e. tt, λ e. refl)
all_valid_iff valid P h (v ∷ value) = elim (Bool-cases (valid v)) [
  | inl e ↦ rw (e) (
    λ k. ((h v).0 e, (all_valid_iff valid P h value).0 k),
    λ k. (all_valid_iff valid P h value).1 k.1,
  )
  | inr e ↦ rw (e) (λ k. cc, λ k. let taken = (h v).1 k.0 in cc)
]

pub valid_type_iff : (type : ℕ) → (valid_type type ≡ true) ↔ IsType type
unfolding valid_type
valid_type_iff type = ground arith

pub valid_retry_iff : (retry : ℕ) → (valid_retry retry ≡ true) ↔ (retry ≤ 7)
unfolding valid_retry
valid_retry_iff retry = ground arith

pub valid_address_type_iff : (type : ℕ) → (valid_address_type type ≡ true) ↔ IsAddressType type
unfolding valid_address_type
valid_address_type_iff type = ground arith

pub valid_community_iff :
    (answers : Answers) (value : String)
    → (valid_community answers value ≡ true) ↔ IsCommunity answers.knows_community value
unfolding valid_community
valid_community_iff answers value = ground (arith, eq_iff value "")

exists_iff :
    (reply : Reply (Unit {0}))
    → (exists_reply reply ≡ true)
      ↔ ((m : Message (Unit {0})) × (reply ≡ message m) × (m.is_error ≡ false))
unfolding exists_reply
exists_iff raised = (λ e. cc, λ e. let raised_message = e.1 in cc)
exists_iff (message m) =
    (λ e. (m, refl, ground arith), λ e. let same = e.1 in let no_error = e.2 in cc)

access_iff : (answer : Option Bool) → (has_access answer ≡ true) ↔ (answer ≡ some true)
unfolding has_access
access_iff none = (λ e. cc, λ e. cc)
access_iff (some true) = (λ e. refl, λ e. refl)
access_iff (some false) = (λ e. cc, λ e. cc)

filled_text : (s mail_id : String) → s ≡ mail_id → mail_id ≢ "" → not (is_empty s) ≡ true
filled_text s mail_id same filled = ground (arith, eq_iff s "")

mail_iff :
    (answer : Option String)
    → (has_mail_id answer ≡ true) ↔ ((mail_id : String) × (answer ≡ some mail_id) × (mail_id ≢ ""))
unfolding has_mail_id
mail_iff none = (λ e. cc, λ e. let answered = e.1 in cc)
mail_iff (some s) = (
  λ e. (s, refl, ground (arith, eq_iff s "")),
  λ e. filled_text s e.0 (some-injective s e.0 e.1) e.2,
)

at_iff :
    (o : Option ℕ) (type : ℕ)
    → 0 < type
    → ((elim o [ none ↦ 0 | some t ↦ t ]) ≡ type) ↔ (o ≡ some type)
at_iff none type h = (λ k. absurd (not_zero k), λ k. cc)
  where
    not_zero : ¬ (0 ≡ type)
    not_zero k = omega (arith, h)
at_iff (some t) type h = (λ k. ap some k, λ k. some-injective t type k)

by_type :
    (type : ℕ) (a b : Bool)
    → ((if type == 2 then a else if type == 3 then b else true) ≡ true)
      ↔ ((type ≡ 2 → a ≡ true) × (type ≡ 3 → b ≡ true))
by_type type a b = ground arith

by_name :
    (name : String) (found valid : Bool)
    → ((if is_empty name then true else if not found then false else valid) ≡ true)
      ↔ ((name ≡ "") ⊎ ((found ≡ true) × (valid ≡ true)))
by_name name found valid = ground (arith, eq_iff name "")

-- The type at an index, 0 past the end, is a type of traps or mails only if it is there.
type_at_iff :
    (types : List ℕ) (i type : ℕ)
    → 0 < type
    → (type_at types i ≡ type) ↔ (get_elem? types i ≡ some type)
unfolding type_at
type_at_iff types i type h = at_iff (get_elem? types i) type h

module _ (users : Users) (types : List ℕ) where
  valid_for_type_iff :
      (i : ℕ) (name : String)
      → (valid_for_type users (type_at types i) i name ≡ true) ↔ (
          (get_elem? types i ≡ some 2 → body_of (users.snmp_access i name) ≡ some true)
          × (get_elem? types i ≡ some 3
              → (mail_id : String) × (body_of (users.smtp_mail_id i name) ≡ some mail_id)
                × (mail_id ≢ "")))
  unfolding valid_for_type
  valid_for_type_iff i name =
      let two = type_at_iff types i 2 (omega arith) in
      let three = type_at_iff types i 3 (omega arith) in
      let has = access_iff (body_of (users.snmp_access i name)) in
      let has_id = mail_iff (body_of (users.smtp_mail_id i name)) in
      let test = by_type (type_at types i) _ _ in
      (
        λ k. (λ g. has.0 ((test.0 k).0 (two.1 g)), λ g. has_id.0 ((test.0 k).1 (three.1 g))),
        λ k. test.1 (λ g. has.1 (k.0 (two.0 g)), λ g. has_id.1 (k.1 (three.0 g))),
      )

  valid_user_name_iff :
      (i : ℕ) (name : String)
      → (valid_user_name users types i name ≡ true) ↔ ((name ≡ "") ⊎ IsUser users types i name)
  unfolding valid_user_name
  valid_user_name_iff i name =
      let test =
        by_name name (exists_reply (users.get_all i name))
          (valid_for_type users (type_at types i) i name) in
      let exists = exists_iff (users.get_all i name) in
      let fits = valid_for_type_iff i name in
      (
        λ k. elim (test.0 k) [
          | inl e ↦ inl e
          | inr both ↦
              let found = exists.0 both.0 in
              let rest = fits.0 both.1 in
              inr (record {
                reply = found.0;
                answered = found.1;
                no_error = found.2;
                access = rest.0;
                mail = rest.1;
              })
        ],
        λ k. test.1 (elim k [
          | inl e ↦ inl e
          | inr u ↦ inr (exists.1 (u.reply, u.answered, u.no_error), fits.1 (u.access, u.mail))
        ]),
      )

  valid_user_names_iff :
      (i : ℕ) (names : List String)
      → (valid_user_names users types i names ≡ true) ↔ AreUsers users types i names
  unfolding valid_user_names
  valid_user_names_iff i [] = (λ e. tt, λ e. refl)
  valid_user_names_iff i (name ∷ names) = elim (Bool-cases (valid_user_name users types i name)) [
    | inl e ↦ rw (e) (
      λ k. ((valid_user_name_iff i name).0 e, (valid_user_names_iff (suc i) names).0 k),
      λ k. (valid_user_names_iff (suc i) names).1 k.1,
    )
    | inr e ↦ rw (e) (λ k. cc, λ k. let taken = (valid_user_name_iff i name).1 k.0 in cc)
  ]

set_property_taken :
    (iface : String) (answers : Answers) (valid : Bool) (properties : LanProperties) (key : String)
    (value : Saved) (s : Lan) (P : Type 0)
    → (valid ≡ true) ↔ P
    → ((set_property iface answers valid properties key value s).0 ≡ true) ↔ P
unfolding set_property
set_property_taken iface answers true properties key value s P h = h
set_property_taken iface answers false properties key value s P h = h

-- A setter of a LAN interface takes a value exactly if the value meets the requirements of its property, which
-- are stated apart from the tests; user names are checked against the types of the last write.
pub handle-Takes :
    (iface : String) (answers : Answers) (r : Request) (s : Lan)
    → ((handle iface answers r s).0 ≡ true) ↔ Takes answers s.properties.shared_types r
unfolding handle
handle-Takes iface answers (Request.set_community_string value) s =
    set_property_taken iface answers _ _ _ _ s _ (valid_community_iff answers value)
handle-Takes iface answers (Request.set_ipv4 value) s =
    set_property_taken iface answers _ _ _ _ s _
      (all_valid_iff _ _ (validate_ipv4_address_lem answers.inet_pton answers.resolves) value)
handle-Takes iface answers (Request.set_ipv6 value) s =
    set_property_taken iface answers _ _ _ _ s _
      (all_valid_iff _ _ (validate_ipv6_address_lem answers.inet_pton answers.resolves) value)
handle-Takes iface answers (Request.set_user_name value) s =
    set_property_taken iface answers _ _ _ _ s _
      (valid_user_names_iff answers.users s.properties.shared_types 0 value)
handle-Takes iface answers (Request.set_types value) s =
    set_property_taken iface answers _ _ _ _ s _ (all_valid_iff _ _ valid_type_iff value)
handle-Takes iface answers (Request.set_timeout value) s =
    set_property_taken iface answers _ _ _ _ s _ (λ e. tt, λ e. refl)
handle-Takes iface answers (Request.set_retries value) s =
    set_property_taken iface answers _ _ _ _ s _ (all_valid_iff _ _ valid_retry_iff value)
handle-Takes iface answers (Request.set_address_type value) s =
    set_property_taken iface answers _ _ _ _ s _ (all_valid_iff _ _ valid_address_type_iff value)
