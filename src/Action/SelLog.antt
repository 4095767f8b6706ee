-- ===== src/Action/SelLog.antt =====
-- src/pef_action.cpp: `toHexStr` and `PEFActionSELLOG`.
use Prim.Native.String.{slice}
use platform_event_filter.Common.{
  ℕ, ◌+◌, ◌/◌, ◌%◌, if◌then◌else◌, List, [], ◌∷◌, String, ◌&◌, to_string, ◌≡◌, refl,
}
use platform_event_filter.Exec.{
  Event, Exec, pure, ask, emit, throw, sdbus_error, catch_sdbus, create_log, ◌>>=◌, ◌>>◌,
}
use platform_event_filter.Exec.Keeps.{Emits}
use platform_event_filter.Bus.{Bus}
use platform_event_filter.Bus.Calls.{call, call_rules}

hex_digit : ℕ → String
hex_digit d = slice "0123456789ABCDEF" d (d + 1)

-- Two upper-case hexadecimal digits for each byte.
unfoldable pub to_hex_str : List ℕ → String
unfolding hex_digit
to_hex_str [] = ""
to_hex_str (v ∷ data') = hex_digit (v / 16) & hex_digit (v % 16) & to_hex_str data'

unfoldable pub sel_data_str : ℕ → String
sel_data_str action = to_hex_str (0xC4 ∷ action ∷ 0xFF ∷ [])

-- The additional data, in the order of the assignments.
unfoldable pub add_data : ℕ → List (String × String)
add_data action =
    ("SENSOR_PATH", "")
    ∷ ("GENERATOR_ID", to_string 0x0020)
    ∷ ("RECORD_TYPE", to_string 0x02)
    ∷ ("EVENT_DIR", to_string 0x1)
    ∷ ("SENSOR_TYPE", to_string 0x12)
    ∷ ("SENSOR_DATA", sel_data_str action)
    ∷ ("EVENT_TYPE", to_string 0x6F)
    ∷ []

unfoldable pub journal_msg : ℕ → String
journal_msg action =
    "SEL Entry For Pef Action"
    & ": "
    & " RecordType="
    & to_string 2
    & ", GeneratorID="
    & to_string 0x2000
    & ", EventDir="
    & to_string 0x6F
    & ", EventData="
    & sel_data_str action

module _ (bus : Bus) where
  -- A failed call is logged; a bus that does not open throws.
  unfoldable pub pef_action_sel_log : ℕ → Exec (Unit {0})
  pef_action_sel_log action = do
    opened ← ask bus.opens
    if opened
        then catch_sdbus
            (do
              emit (create_log (journal_msg action) (add_data action))
              reply ← call bus.set
              pure tt)
            (pure tt)
        else throw sdbus_error

  pub Emits-sel_log :
      {P : Event → Type 0} (action : ℕ)
      → P (create_log (journal_msg action) (add_data action))
      → Emits P (pef_action_sel_log action)
  unfolding pef_action_sel_log
  Emits-sel_log action h = search (call_rules, h) depth 10

sel_data_str_test : sel_data_str 8 ≡ "C408FF"
unfolding sel_data_str to_hex_str
sel_data_str_test = refl
