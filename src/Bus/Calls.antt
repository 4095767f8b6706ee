-- ===== src/Bus/Calls.antt =====
-- A D-Bus method call, and reading its reply.
use platform_event_filter.Common.{ℕ, Option, none, some, List, [], ◌∷◌, String, if◌then◌else◌}
use platform_event_filter.Exec.{Exec, pure, throw, ask, sdbus_error, std_error, ◌>>=◌, Event}
use platform_event_filter.Exec.Keeps.{
  Emits, emits_rules, Emits-pure, Emits-throw, Emits-ask, Emits-bind, Emits-emit,
}
use platform_event_filter.Bus.{
  Reply, raised, message, Message, Value, u8, str, Column, bytes, words, strings,
}
use text.Mathlib.Text.{◌==◌ as str_eq}

module _ {A : Type 0} where
  unfoldable pub or_raise : Reply A → Exec (Message A)
  or_raise raised = throw sdbus_error
  or_raise (message m) = pure m

  -- `conn->call(method)`
  unfoldable pub call : (ℕ → Reply A) → Exec (Message A)
  unfolding or_raise ◌>>=◌
  call answer = do r ← ask answer; or_raise r

  unfoldable pub or_unreadable : Option A → Exec A
  or_unreadable none = throw sdbus_error
  or_unreadable (some a) = pure a

  -- `reply.read(x)`
  unfoldable pub read : Message A → Exec A
  unfolding or_unreadable
  read m = or_unreadable m.body

  Emits-or_raise : {P : Event → Type 0} (r : Reply A) → Emits P (or_raise r)
  unfolding or_raise
  Emits-or_raise raised = Emits-throw sdbus_error
  Emits-or_raise (message m) = Emits-pure m

  pub Emits-call : {P : Event → Type 0} (answer : ℕ → Reply A) → Emits P (call answer)
  unfolding call
  Emits-call answer = Emits-bind (ask answer) or_raise (Emits-ask answer) (λ r. Emits-or_raise r)

  Emits-or_unreadable : {P : Event → Type 0} (o : Option A) → Emits P (or_unreadable o)
  unfolding or_unreadable
  Emits-or_unreadable none = Emits-throw sdbus_error
  Emits-or_unreadable (some a) = Emits-pure a

  pub Emits-read : {P : Event → Type 0} (m : Message A) → Emits P (read m)
  unfolding read
  Emits-read m = Emits-or_unreadable m.body

-- `std::get<std::string>` and `std::get<uint8_t>` of a `Value`.
unfoldable pub get_text : Value → Exec String
get_text (str s) = pure s
get_text _ = throw std_error

unfoldable pub get_u8 : Value → Exec ℕ
get_u8 (u8 n) = pure n
get_u8 _ = throw std_error

pub Emits-get_text : {P : Event → Type 0} (v : Value) → Emits P (get_text v)
unfolding get_text
Emits-get_text (str s) = Emits-pure s
Emits-get_text _ = Emits-throw std_error

pub Emits-get_u8 : {P : Event → Type 0} (v : Value) → Emits P (get_u8 v)
unfolding get_u8
Emits-get_u8 (u8 n) = Emits-pure n
Emits-get_u8 _ = Emits-throw std_error

-- `map.find(key)`, over the pairs of a map.
module _ {A : Type 0} where
  abbrev pub lookup : String → List (String × A) → Option A
  lookup key [] = none
  lookup key ((k, a) ∷ rest) = if str_eq k key then some a else lookup key rest

-- `std::get<std::vector<uint8_t>>`, `<uint16_t>` and `<std::string>` of a column.
unfoldable pub get_bytes : Column → Exec (List ℕ)
get_bytes (bytes v) = pure v
get_bytes _ = throw std_error

unfoldable pub get_words : Column → Exec (List ℕ)
get_words (words v) = pure v
get_words _ = throw std_error

unfoldable pub get_strings : Column → Exec (List String)
get_strings (strings v) = pure v
get_strings _ = throw std_error

pub Emits-get_bytes : {P : Event → Type 0} (c : Column) → Emits P (get_bytes c)
unfolding get_bytes
Emits-get_bytes (bytes v) = Emits-pure v
Emits-get_bytes _ = Emits-throw std_error

pub Emits-get_words : {P : Event → Type 0} (c : Column) → Emits P (get_words c)
unfolding get_words
Emits-get_words (words v) = Emits-pure v
Emits-get_words _ = Emits-throw std_error

pub Emits-get_strings : {P : Event → Type 0} (c : Column) → Emits P (get_strings c)
unfolding get_strings
Emits-get_strings (strings v) = Emits-pure v
Emits-get_strings _ = Emits-throw std_error

pub ruleset call_rules = (
  emits_rules, Emits-call, Emits-read, Emits-get_text, Emits-get_u8, Emits-get_bytes,
  Emits-get_words, Emits-get_strings,
)
