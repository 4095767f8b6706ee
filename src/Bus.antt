-- ===== src/Bus.antt =====
-- The D-Bus services that the daemon calls, the host and its network: none of them is code of this
-- repository, so what they answer is a parameter, and no answer is assumed.
-- The method calls are those of src/pef_action.cpp.
pub mod Calls
pub mod Answers
use platform_event_filter.Common.{ℕ, Bool, true, false, Option, none, some, List, String}

-- include/pef_utils.hpp: `Value`.
pub data Value : Type 0 where
  u8 u16 : ℕ → Value
  str : String → Value
  strs : List String → Value

-- The variants of the property maps that `GetAll` answers for the tables.
pub data Column : Type 0 where
  bytes words : List ℕ → Column
  strings : List String → Column

-- A reply: whether it is an error message, and what reading its body gives (`none` where the read
-- throws).
pub record Message (A : Type 0) : Type 0 where
  pub is_error : Bool
  pub body : Option A

-- A call throws or gets a reply.
pub data Reply (A : Type 0) : Type 0 where
  raised : Reply A
  message : Message A → Reply A

-- One entry of `getifaddrs`: the address as text, if it is an IPv4 address.
pub record IfAddr : Type 0 where
  pub name : String
  pub ipv4 : Option String

-- The answers. The first number of each is that of the call, so answers may change between calls.
pub record Bus : Type 0 where
  -- sdbusplus::bus::new_default()
  pub opens : ℕ → Bool
  -- GetChannelInterfaceMap, in key order
  pub channel_map : ℕ → Reply (List (ℕ × String))
  -- GetSubTreePaths of the object mapper
  pub subtree_paths : ℕ → String → Reply (List String)
  -- GetAll: the object and the interface
  pub get_all : ℕ → String → String → Reply (List (String × Column))
  -- GetAll of PEFConfInfo
  pub get_conf : ℕ → Reply (List (String × Value))
  -- Get: the object, the interface and the property
  pub get : ℕ → String → String → String → Reply Value
  -- Get of a bool property
  pub get_bool : ℕ → String → String → Reply Bool
  -- Get of a text property
  pub get_string : ℕ → String → String → Reply String
  -- a call that changes something: Set, Create, SendMail (its status), retryAlert (whether it is queued)
  pub set : ℕ → Reply (Unit {0})
  pub mail_status : ℕ → Reply ℕ
  pub retry_queued : ℕ → Reply Bool
  -- sendOBMCErrorNotification throws
  pub trap_raises : ℕ → Bool
  -- getaddrinfo finds the host; getifaddrs; strftime of the local time
  pub resolves : ℕ → String → Bool
  pub interfaces : ℕ → List IfAddr
  pub current_time : ℕ → String
  -- the sensor number map of the SDR, if there is one
  pub sensor_num_map : ℕ → Option (List (ℕ × String))
