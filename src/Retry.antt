-- ===== src/Retry.antt =====
-- src/pef_action.cpp: the settings of the alert retries, the `retryEnable`, `retryCount`,
-- `timeInterval` and `alertsLimit` globals, which `main` reads from a file, serves as properties and
-- writes back (`saveConfig`).
pub mod Start
pub mod Steps
pub mod Saved
use platform_event_filter.Common.{
  ℕ, ◌-◌, ◌%◌, ◌^◌, min, ltb, Bool, true, false, not, if◌then◌else◌, Option, none, some,
}
use platform_event_filter.Common.Int.{ℤ, pos, negsuc}

pub record Settings : Type 0 where
  pub retry_enable : Bool
  pub retry_count : ℕ
  pub time_interval : ℕ
  pub alerts_limit : ℕ

abbrev pub max_retry : ℕ
max_retry = 10

abbrev pub max_interval : ℕ
max_interval = 3600

abbrev pub max_alerts_limit : ℕ
max_alerts_limit = 100

abbrev pub defaults : Settings
defaults = record { retry_enable = false; retry_count = 0; time_interval = 0; alerts_limit = 0 }

-- What the JSON object of the file has under a key: nothing, a value of another type, for which
-- `value` throws, or a value.
pub data Field (A : Type 0) : Type 0 where
  absent mistyped : Field A
  field : A → Field A

pub record Config : Type 0 where
  pub retry_enable : Field Bool
  pub retry_count : Field ℤ
  pub time_interval : Field ℤ
  pub alerts_limit : Field ℤ

-- The file: it is missing, it is no JSON object, or it is one.
pub data File : Type 0 where
  missing broken : File
  config : Config → File

-- `(uintN_t)x` of an `int`, for `w` bits.
unfoldable pub to_unsigned : ℕ → ℤ → ℕ
to_unsigned w (pos n) = n % 2 ^ w
to_unsigned w (negsuc n) = 2 ^ w - 1 - n % 2 ^ w

-- The conversion to a 32-bit `int`, of a number that a JSON document has.
unfoldable pub signed : ℕ → ℤ
signed n = if ltb n (2 ^ 31) then pos n else negsuc (2 ^ 32 - 1 - n)

unfoldable pub to_int : ℤ → ℤ
to_int z = signed (to_unsigned 32 z)

-- `std::min(x, limit)`
unfoldable pub min_int : ℤ → ℕ → ℤ
min_int (pos n) limit = pos (min n limit)
min_int (negsuc n) limit = negsuc n

module _ {A : Type 0} where
  -- `config.value(key, default)`, and the assignment of what the rest makes of it: `none` is the
  -- exception, after which the settings so far stay.
  unfoldable pub assign : Field A → A → (A → Settings) → (Settings → Settings) → Settings → Settings
  assign absent default set rest s = rest (set default)
  assign mistyped default set rest s = s
  assign (field a) default set rest s = rest (set a)

-- The assignments under `try`, in order.
unfoldable pub assign_alerts_limit : Config → Settings → Settings
assign_alerts_limit c s =
    assign c.alerts_limit (pos 0)
      (λ v. record s { alerts_limit = to_unsigned 8 (min_int (to_int v) max_alerts_limit) })
      (λ t. t) s

unfoldable pub assign_time_interval : Config → Settings → Settings
assign_time_interval c s =
    assign c.time_interval (pos 0)
      (λ v. record s { time_interval = to_unsigned 32 (min_int (to_int v) max_interval) })
      (assign_alerts_limit c) s

unfoldable pub assign_retry_count : Config → Settings → Settings
assign_retry_count c s =
    assign c.retry_count (pos 0)
      (λ v. record s { retry_count = to_unsigned 8 (min_int (to_int v) max_retry) })
      (assign_time_interval c) s

unfoldable pub load : File → Settings
load missing = defaults
load broken = defaults
load (config c) =
    assign c.retry_enable false (λ v. record defaults { retry_enable = v }) (assign_retry_count c)
      defaults

-- How writing the file ends: it is not touched, it is written, or the write is cut short.
pub data Write : Type 0 where
  not_opened written cut_short : Write

-- The JSON object that is dumped.
unfoldable pub dump : Settings → Config
dump s = record {
  retry_enable = field s.retry_enable;
  retry_count = field (pos s.retry_count);
  time_interval = field (pos s.time_interval);
  alerts_limit = field (pos s.alerts_limit);
}

unfoldable pub save_config : Settings → Write → File → File
save_config s not_opened file = file
save_config s written file = config (dump s)
save_config s cut_short file = broken

-- The globals, the values of the properties, and the file.
pub record Server : Type 0 where
  pub globals : Settings
  pub properties : Settings
  pub file : File

-- The properties are registered with the values of the globals.
unfoldable pub start : File → Server
start file = record { globals = load file; properties = load file; file = file }

pub data Error : Type 0 where
  eperm einval : Error

-- A setter that throws, or that returns true.
pub data Result : Type 0 where
  rejected : Error → Result
  accepted : Server → Result

-- `oldVal = newVal`, the global, and `saveConfig`.
unfoldable pub store : (Settings → Settings) → Write → Server → Server
store change w s =
    let globals' : Settings = change s.globals in
    record {
      globals = globals';
      properties = change s.properties;
      file = save_config globals' w s.file;
    }

-- The tests of the three bounded settings.
unfoldable pub guarded : ℕ → ℕ → (Settings → Settings) → Write → Server → Result
guarded new_val limit change w s =
    if not s.globals.retry_enable
    then rejected eperm
    else if ltb limit new_val
    then rejected einval
    else accepted (store change w s)

unfoldable pub set_retry_enable : Bool → Write → Server → Result
set_retry_enable new_val w s = accepted (store (λ t. record t { retry_enable = new_val }) w s)

unfoldable pub set_retry_count : ℕ → Write → Server → Result
set_retry_count new_val w s =
    guarded new_val max_retry (λ t. record t { retry_count = new_val }) w s

unfoldable pub set_time_interval : ℕ → Write → Server → Result
set_time_interval new_val w s =
    guarded new_val max_interval (λ t. record t { time_interval = new_val }) w s

unfoldable pub set_alerts_limit : ℕ → Write → Server → Result
set_alerts_limit new_val w s =
    guarded new_val max_alerts_limit (λ t. record t { alerts_limit = new_val }) w s
