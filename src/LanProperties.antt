-- ===== src/LanProperties.antt =====
-- src/pef_config.cpp, `parsePefConfToDbus`: the properties of a LAN interface's destinations and their
-- setters.
pub mod Takes
pub mod Steps
use Prim.Native.String.{len}
use platform_event_filter.Common.{
  ℕ, zero, suc, ◌-◌, ltb, ◌==◌, ◌!=◌, ◌&&◌, ◌||◌, not, if◌then◌else◌, Bool, true, false, Option,
  none, some, List, [], ◌∷◌, ◌++◌, String, ◌===◌, is_empty, get_elem?, length,
}
use platform_event_filter.Common.Int.{ℤ}
use platform_event_filter.Tables.{Cell}
use platform_event_filter.Bus.{Reply, raised, message, Message}
use platform_event_filter.LanJson.{
  Saved, number, text, texts, numbers, LanJson, update_lan_param_config_value,
}
use platform_event_filter.Notification.Managers.{body_of}
use platform_event_filter.Properties.{all_valid}
use platform_event_filter.Validation.{validate_ipv4_address, validate_ipv6_address}

pub record LanProperties : Type 0 where
  pub community_string : String
  pub ipv4 : List String
  pub ipv6 : List String
  pub user_name : List String
  pub types : List ℕ
  pub timeout : List ℕ
  pub retries : List ℕ
  pub address_type : List ℕ
  -- what `sharedTypes` points to
  pub shared_types : List ℕ

abbrev community_string_max_length : ℕ
community_string_max_length = 18

abbrev retries_max_value : ℕ
retries_max_value = 7

unfoldable pub valid_type : ℕ → Bool
valid_type type =
    if ltb 2 type && ((type != 3) && ((type != 6) && (type != 7))) then false else true

unfoldable pub valid_retry : ℕ → Bool
valid_retry retry = if ltb retries_max_value retry then false else true

unfoldable pub valid_address_type : ℕ → Bool
valid_address_type addr_type = if (addr_type != 0x1) && (addr_type != 0x2) then false else true

-- The user manager: for the place of a name and the name, GetAll, SNMPAccessEnableStatus and SMTPMailID.
pub record Users : Type 0 where
  pub get_all : ℕ → String → Reply (Unit {0})
  pub snmp_access : ℕ → String → Reply Bool
  pub smtp_mail_id : ℕ → String → Reply String

unfoldable pub exists_reply : Reply (Unit {0}) → Bool
exists_reply raised = false
exists_reply (message m) = not m.is_error

unfoldable pub has_access : Option Bool → Bool
has_access none = false
has_access (some snmp_enabled) = snmp_enabled

unfoldable pub has_mail_id : Option String → Bool
has_mail_id none = false
has_mail_id (some mail_id) = not (is_empty mail_id)

-- The type at the same index, 0 past the end.
unfoldable pub type_at : List ℕ → ℕ → ℕ
type_at types i = elim (get_elem? types i) [ none ↦ 0 | some type ↦ type ]

unfoldable pub valid_for_type : Users → ℕ → ℕ → String → Bool
valid_for_type users type i name =
    if type == 2
    then has_access (body_of (users.snmp_access i name))
    else if type == 3
    then has_mail_id (body_of (users.smtp_mail_id i name))
    else true

unfoldable pub valid_user_name : Users → List ℕ → ℕ → String → Bool
valid_user_name users types i name =
    if is_empty name
    then true
    else if not (exists_reply (users.get_all i name))
    then false
    else valid_for_type users (type_at types i) i name

unfoldable pub valid_user_names : Users → List ℕ → ℕ → List String → Bool
valid_user_names users types i [] = true
valid_user_names users types i (name ∷ value) =
    let rest = valid_user_names users types (suc i) value in
    if valid_user_name users types i name then rest else false

-- The properties of one interface, and the file that all interfaces share.
pub record Lan : Type 0 where
  pub properties : LanProperties
  pub file : Option LanJson

-- The answers for one write: the address functions, `isCommStrValid`, the user manager, and whether the
-- file opens.
pub record Answers : Type 0 where
  pub inet_pton : String → Bool
  pub resolves : String → Bool
  pub knows_community : String → Bool
  pub users : Users
  pub opened : Bool

unfoldable pub valid_community : Answers → String → Bool
valid_community answers value =
    if ltb community_string_max_length (len value)
    then false
    else if not (is_empty value) && not (answers.knows_community value)
    then false
    else true

-- One write of a property.
pub data Request : Type 0 where
  set_community_string : String → Request
  set_ipv4 set_ipv6 set_user_name : List String → Request
  set_types set_timeout set_retries set_address_type : List ℕ → Request

module _ (iface : String) (answers : Answers) where
  -- `property = value`, the LAN file, and true; or false.
  unfoldable pub set_property : Bool → LanProperties → String → Saved → Lan → Bool × Lan
  set_property valid properties key value s =
      if valid
      then (
        true,
        record {
          properties = properties;
          file = update_lan_param_config_value answers.opened iface key value s.file;
        },
      )
      else (false, s)

  unfoldable pub handle : Request → Lan → Bool × Lan
  handle (set_community_string value) s =
      set_property (valid_community answers value)
        (record s.properties { community_string = value }) "CommunityString" (text value) s
  handle (set_ipv4 value) s =
      set_property (all_valid (validate_ipv4_address answers.inet_pton answers.resolves) value)
        (record s.properties { ipv4 = value }) "IPv4" (texts value) s
  handle (set_ipv6 value) s =
      set_property (all_valid (validate_ipv6_address answers.inet_pton answers.resolves) value)
        (record s.properties { ipv6 = value }) "IPv6" (texts value) s
  handle (set_user_name value) s =
      set_property (valid_user_names answers.users s.properties.shared_types 0 value)
        (record s.properties { user_name = value }) "UserName" (texts value) s
  handle (set_types value) s =
      set_property (all_valid valid_type value)
        (record s.properties { types = value; shared_types = value }) "Type" (numbers value) s
  handle (set_timeout value) s =
      set_property true (record s.properties { timeout = value }) "Timeout" (numbers value) s
  handle (set_retries value) s =
      set_property (all_valid valid_retry value) (record s.properties { retries = value }) "Retries"
        (numbers value) s
  handle (set_address_type value) s =
      set_property (all_valid valid_address_type value)
        (record s.properties { address_type = value }) "AddressType" (numbers value) s
