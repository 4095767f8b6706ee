-- ===== src/Alert/Names.antt =====
-- include/pef_action.hpp: `THRESHOLD_EVENT_TABLE`, `SENSOR_SPECIFIC_EVENT_TABLE` and
-- `GENERIC_EVENT_TABLE`.
use platform_event_filter.Common.{ℕ, ◌==◌, if◌then◌else◌, Option, none, some, List, [], ◌∷◌, String}

-- `table.find(key)`
unfoldable pub find {ℓ} : {A : Type ℓ} → ℕ → List (ℕ × A) → Option A
find key [] = none
find key ((k, a) ∷ rest) = if k == key then some a else find key rest

abbrev pub Events : Type 0
Events = List (ℕ × String)

unfoldable pub threshold_event_table : Events
threshold_event_table =
    (0x00, "lowerNonCritGoingLow")
    ∷ (0x01, "lowerNonCritGoingHigh")
    ∷ (0x02, "lowerCritGoingLow")
    ∷ (0x03, "lowerCritGoingHigh")
    ∷ (0x06, "upperNonCritGoingLow")
    ∷ (0x07, "upperNonCritGoingHigh")
    ∷ (0x08, "upperCritGoingLow")
    ∷ (0x09, "upperCritGoingHigh")
    ∷ []

abbrev memory_events : Events
memory_events =
    (0x00, "CorrectableECC")
    ∷ (0x01, "UncorrectableECC")
    ∷ (0x02, "Parity")
    ∷ (0x03, "MemoryScrubFailed")
    ∷ (0x04, "MemoryDeviceDisabled")
    ∷ (0x05, "CorrectableECClogging")
    ∷ (0x06, "PresenceDetected")
    ∷ (0x07, "ConfigurationError")
    ∷ (0x08, "Spare")
    ∷ (0x09, "Throttled")
    ∷ (0x0a, "CriticalOvertemp")
    ∷ []

abbrev drive_events : Events
drive_events =
    (0x00, "DrivePresent")
    ∷ (0x01, "DriveFault")
    ∷ (0x02, "PredictiveFailure")
    ∷ (0x03, "HotSpare")
    ∷ (0x04, "ParityCheck")
    ∷ (0x05, "InCriticalArray")
    ∷ (0x06, "InFailedArray")
    ∷ (0x07, "RebuildInProgress")
    ∷ (0x08, "RebuildAborted")
    ∷ []

abbrev intrusion_events : Events
intrusion_events =
    (0x00, "GenChassisIntrusion")
    ∷ (0x01, "DriveBayIntrusion")
    ∷ (0x02, "IOCardAreaIntrusion")
    ∷ (0x03, "ProcessorAreaIntrusion")
    ∷ (0x04, "LanLost")
    ∷ (0x05, "UnauthorizedDock")
    ∷ (0x06, "FanAreaIntrusion")
    ∷ []

abbrev processor_events : Events
processor_events =
    (0x00, "Ierr")
    ∷ (0x01, "ThermalTrip")
    ∷ (0x02, "Frb1")
    ∷ (0x03, "Frb2")
    ∷ (0x04, "Frb3")
    ∷ (0x05, "ConfigurationError")
    ∷ (0x06, "UncorrectableCpuComplexError")
    ∷ (0x07, "ProcessorPresenceDetected")
    ∷ (0x08, "ProcessorDisabled")
    ∷ (0x09, "TerminatorPresenceDetected")
    ∷ (0x0a, "ProcessorAutomaticallyThrottled")
    ∷ (0x0b, "MachineCheckException")
    ∷ (0x0c, "CorrectableMachineCheck")
    ∷ []

abbrev log_events : Events
log_events =
    (0x00, "Correctablememoryerror")
    ∷ (0x01, "Eventloggingdisabled")
    ∷ (0x02, "Logareareset")
    ∷ (0x03, "Alleventloggingdisabled")
    ∷ (0x04, "Logfull")
    ∷ (0x05, "Logalmostfull")
    ∷ []

abbrev acpi_events : Events
acpi_events =
    (0x00, "S0_G0")
    ∷ (0x01, "S1")
    ∷ (0x02, "S2")
    ∷ (0x03, "S3")
    ∷ (0x04, "S4")
    ∷ (0x05, "S5_G2")
    ∷ (0x06, "S4_S5")
    ∷ (0x07, "G3")
    ∷ (0x08, "S1_S2_S3")
    ∷ (0x09, "G1")
    ∷ (0x0a, "S5")
    ∷ (0x0b, "LegacyOn")
    ∷ (0x0c, "LegacyOff")
    ∷ (0x0e, "ACPI_Unknown")
    ∷ []

abbrev watchdog_events : Events
watchdog_events =
    (0x00, "Timerexpired")
    ∷ (0x01, "Hardreset")
    ∷ (0x02, "Powerdown")
    ∷ (0x03, "Powercycle")
    ∷ (0x08, "Timerinterrupt")
    ∷ []

unfoldable pub sensor_specific_event_table : List (ℕ × Events)
sensor_specific_event_table =
    (0x0C, memory_events)
    ∷ (0x0D, drive_events)
    ∷ (0x05, intrusion_events)
    ∷ (0x07, processor_events)
    ∷ (0x10, log_events)
    ∷ (0x22, acpi_events)
    ∷ (0x23, watchdog_events)
    ∷ []

abbrev level_events : Events
level_events = (0x00, "ActiveStateLow") ∷ (0x01, "ActiveStateHigh") ∷ []

unfoldable pub generic_event_table : List (ℕ × Events)
generic_event_table = (0x07, level_events) ∷ (0x01, level_events) ∷ []
