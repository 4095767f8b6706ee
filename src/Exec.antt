-- ===== src/Exec.antt =====
-- How the daemon's functions run: they call other services and may throw. A run starts from a `World`
-- and returns the world that it leaves, also where it throws: calls already made stay made.
pub mod Keeps
pub mod Adds
pub mod Gives
use platform_event_filter.Common.{
  ℕ, suc, ◌≡◌, refl, Bool, true, false, Option, none, some, List, [], ◌∷◌, String, get_elem?,
  if◌then◌else◌,
}

-- What is thrown: an exception that `catch (sdbusplus::exception_t&)` takes; another one that only
-- `catch (std::exception&)` takes (`out_of_range`, `bad_variant_access`); undefined behaviour, such as
-- a vector read past its end, which nothing takes.
pub data Thrown : Type 0 where
  sdbus_error std_error fault : Thrown

pub data Outcome (A : Type 0) : Type 0 where
  done : A → Outcome A
  thrown : Thrown → Outcome A

-- What the daemon asks other services to do.
pub data Event : Type 0 where
  -- xyz.openbmc_project.Logging.Create: the message and the additional data
  create_log : String → List (String × String) → Event
  -- Set of RequestedPowerTransition and of RequestedHostTransition
  chassis_transition : String → Event
  host_transition : String → Event
  -- retryAlert of the pending task service: the kind, the subject or identifier, the body or payload
  retry_alert : String → String → List (String × String) → Event
  -- SendMail of the mail service: the subject and the body
  send_mail : String → String → Event
  -- sendOBMCErrorNotification: the record id, the texts, the channel and the destination selector
  send_trap : ℕ → List (String × String) → ℕ → ℕ → Event
  -- Set of LastBMCProcessedEventID
  set_last_processed : ℕ → Event
  -- Set of TmrCountdownValue and of ArmPEFPostponeTmr
  set_countdown : ℕ → Event
  set_arm_timer : ℕ → Event

-- `calls` counts what was asked of the environment, so that each answer may differ from the one before;
-- `trace` has the latest event first.
pub record World : Type 0 where
  pub calls : ℕ
  pub trace : List Event

abbrev pub Exec : Type 0 → Type 0
Exec A = World → Outcome A × World

module _ {A : Type 0} where
  unfoldable pub pure : A → Exec A
  pure a w = (done a, w)

  unfoldable pub throw : Thrown → Exec A
  throw e w = (thrown e, w)

  -- The answer of the environment to one more question.
  unfoldable pub ask : (ℕ → A) → Exec A
  ask f w = (done (f w.calls), record w { calls = suc w.calls })

unfoldable pub emit : Event → Exec (Unit {0})
emit e w = (done tt, record w { trace = e ∷ w.trace })

abbrev on_sdbus : {A : Type 0} → Exec A → Outcome A × World → Outcome A × World
on_sdbus handler (done a, w) = (done a, w)
on_sdbus handler (thrown sdbus_error, w) = handler w
on_sdbus handler (thrown std_error, w) = (thrown std_error, w)
on_sdbus handler (thrown fault, w) = (thrown fault, w)

abbrev on_std : {A : Type 0} → Exec A → Outcome A × World → Outcome A × World
on_std handler (done a, w) = (done a, w)
on_std handler (thrown sdbus_error, w) = handler w
on_std handler (thrown std_error, w) = handler w
on_std handler (thrown fault, w) = (thrown fault, w)

-- `try { m } catch (sdbusplus::exception_t&) { handler }`
unfoldable pub catch_sdbus : {A : Type 0} → Exec A → Exec A → Exec A
catch_sdbus m handler w = on_sdbus handler (m w)

-- `try { m } catch (std::exception&) { handler }`
unfoldable pub catch_std : {A : Type 0} → Exec A → Exec A → Exec A
catch_std m handler w = on_std handler (m w)

module _ {A : Type 0} where
  -- `map.at(key)`, `std::get` of a variant: an exception where there is no value.
  unfoldable pub or_throw : Option A → Exec A
  unfolding throw pure
  or_throw none = throw std_error
  or_throw (some a) = pure a

  -- `v[i]`, on what stands there: undefined behaviour past the end.
  unfoldable pub or_fault : Option A → Exec A
  unfolding throw pure
  or_fault none = throw fault
  or_fault (some a) = pure a

abbrev pub and_then : {A B : Type 0} → (A → Exec B) → Outcome A × World → Outcome B × World
and_then f (done a, w) = f a w
and_then f (thrown e, w) = (thrown e, w)

infixl 5 ◌>>=◌ ◌>>◌
-- Opening this opens the actions above too.
unfoldable pub ◌>>=◌ : {A B : Type 0} → Exec A → (A → Exec B) → Exec B
unfolding pure throw ask emit or_throw or_fault catch_sdbus catch_std
◌>>=◌ m f w = and_then f (m w)

abbrev pub ◌>>◌ : {A B : Type 0} → Exec A → Exec B → Exec B
m >> k = m >>= λ _. k

module _ {A : Type 0} where
  -- `for` over a list.
  unfoldable pub for_each : List A → (A → Exec (Unit {0})) → Exec (Unit {0})
  for_each [] body = pure tt
  for_each (x ∷ xs) body = do body x; for_each xs body
