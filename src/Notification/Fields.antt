-- ===== src/Notification/Fields.antt =====
-- include/snmp_notification.hpp: the fields of an error notification and their objects; and
-- src/snmp_notification.cpp: `addPDUVar`, which adds one to a PDU, and the loop that adds all.
use platform_event_filter.Common.{
  ℕ, ◌≡◌, refl, sym, ap, ◌∙◌, arith, Bool, true, false, ◌&&◌, if◌then◌else◌, Option, none, some,
  List, [], ◌∷◌, String, length, take, take_all, All,
}
use platform_event_filter.Common.Int.{ℤ}

-- `Value`, the variant.
pub data FieldValue : Type 0 where
  uint32 uint64 : ℕ → FieldValue
  int32 : ℤ → FieldValue
  text : String → FieldValue

-- ASN_UNSIGNED, ASN_OPAQUE_U64, ASN_INTEGER, ASN_OCTET_STR, and the other tags
pub data AsnType : Type 0 where
  asn_unsigned asn_opaque_u64 asn_integer asn_octet_str other_type : AsnType

-- The types with a `getASNType`: uint32_t, uint64_t, int32_t and std::string.
pub data FieldType : Type 0 where
  uint32_type uint64_type int32_type text_type : FieldType

unfoldable pub get_asn_type : FieldType → AsnType
get_asn_type uint32_type = asn_unsigned
get_asn_type uint64_type = asn_opaque_u64
get_asn_type int32_type = asn_integer
get_asn_type text_type = asn_octet_str

-- The type that the variant holds.
abbrev pub type_of : FieldValue → FieldType
type_of (uint32 n) = uint32_type
type_of (uint64 n) = uint64_type
type_of (int32 z) = int32_type
type_of (text s) = text_type

-- `Object`: the numbers of an identifier, how many of them count, the tag and the value.
pub record Object : Type 0 where
  pub oid : List ℕ
  pub len : ℕ
  pub type : AsnType
  pub value : FieldValue

pub record ErrorNotification : Type 0 where
  pub error_id : ℕ
  pub timestamp : String
  pub severity : String
  pub message : String
  pub event_id : String
  pub event_status : String
  pub event_subject_sn : String
  pub add_data : String
  pub ip : String

unfoldable pub get_trap_oid : List ℕ × ℕ
get_trap_oid = (1 ∷ 3 ∷ 6 ∷ 1 ∷ 4 ∷ 1 ∷ 49871 ∷ 1 ∷ 0 ∷ 0 ∷ 1 ∷ [], 11)

abbrev field : ℕ → AsnType → FieldValue → Object
field i type value = record {
  oid = 1 ∷ 3 ∷ 6 ∷ 1 ∷ 4 ∷ 1 ∷ 49871 ∷ 1 ∷ 0 ∷ 1 ∷ i ∷ [];
  len = 11;
  type = type;
  value = value;
}

unfoldable pub get_field_oid_list : ErrorNotification → List Object
get_field_oid_list n =
    field 1 (get_asn_type uint32_type) (uint32 n.error_id)
    ∷ field 2 (get_asn_type text_type) (text n.timestamp)
    ∷ field 3 (get_asn_type text_type) (text n.event_id)
    ∷ field 4 (get_asn_type text_type) (text n.severity)
    ∷ field 5 (get_asn_type text_type) (text n.message)
    ∷ field 6 (get_asn_type text_type) (text n.ip)
    ∷ field 7 (get_asn_type text_type) (text n.event_status)
    ∷ field 8 (get_asn_type text_type) (text n.event_subject_sn)
    ∷ field 9 (get_asn_type text_type) (text n.add_data)
    ∷ []

-- `snmp_pdu_add_variable`, for an identifier, a tag and a value: whether it gives a variable.
abbrev pub AddVariable : Type 0
AddVariable = List ℕ → AsnType → FieldValue → Bool

-- `none` is the exception of `std::get`.
unfoldable pub add_value : AddVariable → List ℕ → AsnType → FieldValue → Option Bool
add_value add oid asn_integer (int32 z) = some (add oid asn_integer (int32 z))
add_value add oid asn_unsigned (uint32 n) = some (add oid asn_unsigned (uint32 n))
add_value add oid asn_opaque_u64 (uint64 n) = some (add oid asn_opaque_u64 (uint64 n))
add_value add oid asn_octet_str (text s) = some (add oid asn_octet_str (text s))
add_value add oid other_type value = some false
add_value add oid _ value = none

unfoldable pub add_pdu_var : AddVariable → Object → Option Bool
add_pdu_var add o = add_value add (take o.len o.oid) o.type o.value

unfoldable pub after_var : Option Bool → Option Bool → Option Bool
after_var none rest = none
after_var (some added) rest = if added then rest else some false

-- The loop stops at the first object that is not added.
unfoldable pub add_fields : AddVariable → List Object → Option Bool
add_fields add [] = some true
add_fields add (o ∷ objects) = after_var (add_pdu_var add o) (add_fields add objects)

-- The value has the type that the tag says, and the length is that of the identifier.
pub record IsTyped (o : Object) : Type 0 where
  pub tagged : get_asn_type (type_of o.value) ≡ o.type
  pub measured : o.len ≡ length o.oid

-- Whether net-snmp takes every object.
unfoldable pub all_taken : AddVariable → List Object → Bool
all_taken add [] = true
all_taken add (o ∷ objects) = add o.oid o.type o.value && all_taken add objects

field-IsTyped :
    (i : ℕ) (value : FieldValue) → IsTyped (field i (get_asn_type (type_of value)) value)
field-IsTyped i value = record { tagged = refl; measured = refl }

get_field_oid_list-IsTyped : (n : ErrorNotification) → All IsTyped (get_field_oid_list n)
unfolding get_field_oid_list
get_field_oid_list-IsTyped n = (
  field-IsTyped 1 (uint32 n.error_id),
  (
    field-IsTyped 2 (text n.timestamp),
    (
      field-IsTyped 3 (text n.event_id),
      (
        field-IsTyped 4 (text n.severity),
        (
          field-IsTyped 5 (text n.message),
          (
            field-IsTyped 6 (text n.ip),
            (
              field-IsTyped 7 (text n.event_status),
              (field-IsTyped 8 (text n.event_subject_sn), (field-IsTyped 9 (text n.add_data), tt)),
            ),
          ),
        ),
      ),
    ),
  ),
)

add_value_typed :
    (add : AddVariable) (oid : List ℕ) (value : FieldValue)
    → add_value add oid (get_asn_type (type_of value)) value
      ≡ some (add oid (get_asn_type (type_of value)) value)
unfolding add_value get_asn_type
add_value_typed add oid (uint32 n) = refl
add_value_typed add oid (uint64 n) = refl
add_value_typed add oid (int32 z) = refl
add_value_typed add oid (text s) = refl

add_pdu_var_typed :
    (add : AddVariable) (o : Object)
    → IsTyped o
    → add_pdu_var add o ≡ some (add o.oid o.type o.value)
unfolding add_pdu_var
add_pdu_var_typed add o t =
    ap (λ oid. add_value add oid o.type o.value) (take_all o.len o.oid (omega (arith, t.measured)))
    ∙ rw (sym t.tagged) (add_value_typed add o.oid o.value)

add_fields_typed :
    (add : AddVariable) (objects : List Object)
    → All IsTyped objects
    → add_fields add objects ≡ some (all_taken add objects)
unfolding add_fields after_var all_taken
add_fields_typed add [] h = refl
add_fields_typed add (o ∷ objects) h =
    rw (add_pdu_var_typed add o h.0, after_var, add_fields_typed add objects h.1) (ground arith)

-- Each object of a notification has the tag of its value's type and the length of its identifier. So adding
-- the objects to a PDU throws no exception, and all are added exactly if net-snmp takes each.
pub get_field_oid_list_lem :
    (add : AddVariable) (n : ErrorNotification)
    → All IsTyped (get_field_oid_list n)
      × (add_fields add (get_field_oid_list n) ≡ some (all_taken add (get_field_oid_list n)))
get_field_oid_list_lem add n = (
  get_field_oid_list-IsTyped n,
  add_fields_typed add (get_field_oid_list n) (get_field_oid_list-IsTyped n),
)
