-- ===== src/ServiceStart/ConfProperties.antt =====
-- src/pef_config.cpp and include/pef_config_update.hpp: the properties of PEFConfInfo, each of which the monitor
-- keeps under its own name.
use native.Mathlib.Nat.{mod-eq_of_lt}
use platform_event_filter.Common.{
  ℕ, ◌^◌, ◌<◌, ◌≡◌, refl, if◌then◌else◌, Option, none, some, List, [], ◌∷◌, String, ◌===◌, All,
}
use platform_event_filter.Common.Int.{pos}
use platform_event_filter.Retry.{to_unsigned}
use platform_event_filter.Tables.{Cell, number, string}
use platform_event_filter.ConfigUpdate.Monitors.{Changed, byte, word, str, conf_cell}
use platform_event_filter.ServiceStart.{
  value, Kind, byte_kind, word_kind, text_kind, Registered, PropertyValue, num, text, DbusObject,
  object, lan_object, read_cell, number_of, string_of,
}
use platform_event_filter.ServiceStart.Tables.{same_name, conf_properties}

-- A value of a property of a kind, and the change that its write signals.
pub data Signals : Kind → PropertyValue → Changed → Type 0 where
  byte_signal : (n : ℕ) → n < 2 ^ 8 → Signals byte_kind (num n) (byte n)
  word_signal : (n : ℕ) → n < 2 ^ 16 → Signals word_kind (num n) (word n)
  text_signal : (s : String) → Signals text_kind (text s) (str s)

-- The kind of the property with a name.
abbrev pub kind_of : String → List Registered → Option Kind
kind_of p [] = none
kind_of p (r ∷ registered) = if r.name === p then some r.kind else kind_of p registered

-- A property set, where it is.
abbrev pub set_value :
    String → PropertyValue → List (String × PropertyValue) → List (String × PropertyValue)
set_value p v [] = []
set_value p v ((q, w) ∷ ps) = (q, if q === p then v else w) ∷ set_value p v ps

abbrev pub set_object : String → PropertyValue → DbusObject → DbusObject
set_object p v (object path interface ps) = object path interface (set_value p v ps)
set_object p v (lan_object iface shown) = lan_object iface shown

-- The cell that a change is kept in.
abbrev pub cell_of : {k : Kind} {v : PropertyValue} {c : Changed} → Signals k v c → Cell
cell_of (byte_signal n h) = number (pos n)
cell_of (word_signal n h) = number (pos n)
cell_of (text_signal s) = string s

pub read_cell-cell_of :
    {k : Kind} {v : PropertyValue} {c : Changed} (s : Signals k v c)
    → read_cell k (cell_of s) ≡ value v
unfolding read_cell number_of string_of to_unsigned
read_cell-cell_of (byte_signal n h) = rw (mod-eq_of_lt h) refl
read_cell-cell_of (word_signal n h) = rw (mod-eq_of_lt h) refl
read_cell-cell_of (text_signal s) = refl

-- The monitor keeps each change of a property of the kind that it has.
abbrev pub TakesKind : Registered → Type 0
TakesKind r =
    (v : PropertyValue) (c : Changed) (s : Signals r.kind v c)
    → conf_cell r.name c ≡ some (cell_of s)

-- A property is kept under its own name, which no other has.
pub record IsConf (all : List Registered) (r : Registered) : Type 0 where
  pub takes : TakesKind r
  pub own : r.key ≡ r.name
  pub single : kind_of r.name all ≡ some r.kind

byte-IsConf :
    (p : String)
    → ((n : ℕ) → conf_cell p (byte n) ≡ some (number (pos n)))
    → kind_of p conf_properties ≡ some byte_kind
    → IsConf conf_properties (same_name p byte_kind)
byte-IsConf p f e = record { takes = taken; own = refl; single = e }
  where
    taken : TakesKind (same_name p byte_kind)
    taken _ _ (byte_signal n h) = f n

word-IsConf :
    (p : String)
    → ((n : ℕ) → conf_cell p (word n) ≡ some (number (pos n)))
    → kind_of p conf_properties ≡ some word_kind
    → IsConf conf_properties (same_name p word_kind)
word-IsConf p f e = record { takes = taken; own = refl; single = e }
  where
    taken : TakesKind (same_name p word_kind)
    taken _ _ (word_signal n h) = f n

text-IsConf :
    (p : String)
    → ((t : String) → conf_cell p (str t) ≡ some (string t))
    → kind_of p conf_properties ≡ some text_kind
    → IsConf conf_properties (same_name p text_kind)
text-IsConf p f e = record { takes = taken; own = refl; single = e }
  where
    taken : TakesKind (same_name p text_kind)
    taken _ _ (text_signal t) = f t

pub properties-IsConf : All (IsConf conf_properties) conf_properties
unfolding conf_properties conf_cell
properties-IsConf = (
  byte-IsConf "Version" (λ n. refl) refl,
  (
    byte-IsConf "ActionSupported" (λ n. refl) refl,
    (
      byte-IsConf "MaxEventTblEntry" (λ n. refl) refl,
      (
        byte-IsConf "PEFControl" (λ n. refl) refl,
        (
          byte-IsConf "PEFActionGblControl" (λ n. refl) refl,
          (
            byte-IsConf "PEFStartupDly" (λ n. refl) refl,
            (
              byte-IsConf "PEFAlertStartupDly" (λ n. refl) refl,
              (
                word-IsConf "LastBMCProcessedEventID" (λ n. refl) refl,
                (
                  word-IsConf "LastSWProcessedEventID" (λ n. refl) refl,
                  (
                    text-IsConf "Subject" (λ t. refl) refl,
                    (text-IsConf "Message" (λ t. refl) refl, tt),
                  ),
                ),
              ),
            ),
          ),
        ),
      ),
    ),
  ),
)
