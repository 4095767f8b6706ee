-- ===== src/Notification/Session.antt =====
-- src/snmp_notification.cpp, `sendTrap`: the session that is opened for a manager, and what is sent in it.
use platform_event_filter.Common.{
  ℕ, if◌then◌else◌, ◌||◌, not, Bool, false, Option, none, some, List, [], ◌∷◌, String, ◌===◌,
}
use platform_event_filter.Common.Options.{◌>>=◌}
use platform_event_filter.Notification.Fields.{
  ErrorNotification, AddVariable, get_trap_oid, get_field_oid_list, add_fields,
}
use platform_event_filter.Notification.{ManagerProperty}
use platform_event_filter.Notification.LocalName.{local_name}

-- usmHMAC256SHA384AuthProtocol, usmHMAC384SHA512AuthProtocol and SNMP_DEFAULT_AUTH_PROTO
pub data AuthProtocol : Type 0 where
  hmac256_sha384 : AuthProtocol
  hmac384_sha512 : AuthProtocol
  default_auth : AuthProtocol

-- usmAES256PrivProtocol and SNMP_DEFAULT_PRIV_PROTO
pub data PrivProtocol : Type 0 where
  aes256 : PrivProtocol
  default_priv : PrivProtocol

-- What SNMPv3 adds to a session, at the level SNMP_SEC_LEVEL_AUTHPRIV.
pub record Security : Type 0 where
  pub security_name : String
  pub auth_proto : AuthProtocol
  pub auth_key : String
  pub priv_proto : PrivProtocol
  pub priv_key : String

-- The peer, and the community of v1 and v2c or the security of v3.
pub data Session : Type 0 where
  v1_session : (peername community : String) → Session
  v2c_session : (peername community : String) → Session
  v3_session : (peername : String) (security : Security) → Session

-- What a trap needs of the group file and of net-snmp. `generate_ku` derives a key from a password.
pub record NetSnmp : Type 0 where
  -- getgrnam("snmp") and its members
  pub snmp_group : Option (List String)
  pub generate_ku : AuthProtocol → String → Option String
  -- snmp_add, with the local address of the session
  pub add_session : String → Session → Bool
  pub create_pdu : Session → Bool
  pub add_uptime : Session → Bool
  pub add_trap_oid : Session → List ℕ × ℕ → Bool
  pub add_variable : Session → AddVariable
  pub send : Session → Bool

-- The search for the user among the members; no group has none.
unfoldable pub has_member : String → List String → Bool
has_member user [] = false
has_member user (m ∷ members) = user === m || has_member user members

unfoldable pub found_user : Option (List String) → String → Bool
found_user none user = false
found_user (some members) user = has_member user members

unfoldable pub auth_protocol : String → AuthProtocol
auth_protocol algorithm =
    if algorithm === "SHA-384"
    then hmac256_sha384
    else if algorithm === "SHA-512"
    then hmac384_sha512
    else default_auth

unfoldable pub priv_protocol : String → PrivProtocol
priv_protocol encryption = if encryption === "AES" then aes256 else default_priv

-- Both keys are derived by the protocol of the authentication, from the one password.
unfoldable pub security_of : NetSnmp → ManagerProperty → Option Security
security_of net m = do
  auth_key ← net.generate_ku (auth_protocol m.algorithm) m.password
  priv_key ← net.generate_ku (auth_protocol m.algorithm) m.password
  some (record {
    security_name = m.user_name;
    auth_proto = auth_protocol m.algorithm;
    auth_key = auth_key;
    priv_proto = priv_protocol m.encryption;
    priv_key = priv_key;
  })

-- The session of a manager; `none` where the round ends before the session is opened.
unfoldable pub session_of : NetSnmp → ManagerProperty → Option Session
session_of net m =
    if m.version === "v1"
    then some (v1_session m.ipaddress m.community)
    else if m.version === "v2c"
    then some (v2c_session m.ipaddress m.community)
    else if not (m.version === "v3")
    then none
    else if not (found_user net.snmp_group m.user_name)
    then none
    else security_of net m >>= λ security. some (v3_session m.ipaddress security)

-- The exception of a tag that does not fit its value is that of no notification.
unfoldable pub all_added : Option Bool → Bool
all_added none = false
all_added (some added) = added

-- The opening of the session, the PDU with the fields of the notification, and the sending.
unfoldable pub deliver : NetSnmp → ErrorNotification → Session → Bool
deliver net n s =
    if not (net.add_session (local_name n.event_subject_sn) s)
    then false
    else if not (net.create_pdu s)
    then false
    else if not (net.add_uptime s)
    then false
    else if not (net.add_trap_oid s get_trap_oid)
    then false
    else if not (all_added (add_fields (net.add_variable s) (get_field_oid_list n)))
    then false
    else net.send s

unfoldable pub deliver_in : NetSnmp → ErrorNotification → Option Session → Bool
deliver_in net n none = false
deliver_in net n (some s) = deliver net n s
