-- ===== src/Lib.antt =====
-- A model of the BMC's platform event filter (PEF): the daemon in src/pef_action.cpp with the headers
-- include/pef_action.hpp and include/pef_utils.hpp, which gets each logged event by a D-Bus call, matches
-- it against the event filter table and acts on it.
--
-- The parts, in the order in which an event passes them:
-- - Task: `pefTask` builds the message of an event (EventMsgData), tests the enable bit of PEFControl and
--   the postpone timer, and calls `eventFilteringProcess`.
-- - Filter: the rows of the filter groups; Filter.Table reads the columns of a group, Filter.Rows is the
--   loop over the rows, Filter has the tests of a row, EventData the comparison `pefEveDataMatch`.
-- - Action: `performPefAction` on the matched filters; Action.Power is the part on the host's power,
--   Action.Alert the part on alerts, Action.Destination the choice of an alert's destination,
--   Action.SelLog the entry in the SEL.
-- - Policy: `checkAlertPoicyTbl`, the rows of the alert policies for a policy number.
-- - Alert: what a trap and a mail say, and `sendSNMPAlert` and `sendSmtpAlert` (Alert.Snmp, Alert.Smtp),
--   which send the alert or hand it to the retry queue.
-- - Channels, SensorPath, SensorNumber: the helpers for network channels and for sensors
--   (include/sdrutils.hpp for the last).
-- - Postpone: the callback that counts the postpone timer down.
-- - Retry: the retry settings, which `main` loads, serves as properties and saves.
-- Beside the daemon:
-- - Validation: the tests of addresses and community strings in src/pef_config.cpp, the service that
--   keeps the PEF configuration. `inet_pton` and `getaddrinfo` are parameters.
-- - Tables: what `parsePefConfToDbus` of that file shows of the rows of the JSON configuration, in groups.
-- - Filter.FromFile: the daemon's filters as rows of that file, by way of what the service shows.
-- - LanStart: the LAN interfaces and what the service shows of each at its start; LanJson: the LAN file.
-- - ServiceStart: the objects that `parsePefConfToDbus` shows, of all tables and of the LAN interfaces, and how
--   a start ends.
-- - Properties: the setters of the event filter and alert policy lists there; LanProperties: those of a LAN
--   interface; TestDestination: the method of that name.
-- - ConfigUpdate: include/pef_config_update.hpp, whose monitors write a changed property back to the rows.
-- - SensorTypes and SensorTree: the sensor types and the sensor numbers of include/sdrutils.hpp.
--   SensorTree.Static has the numbers of a build with FEATURE_STATIC_SENSOR_NUMBER.
-- - Notification: src/snmp_notification.cpp, which chooses an SNMP manager and sends it a trap, whose
--   fields (include/snmp_notification.hpp) are those of Notification.Fields.
-- - Encryption: src/Encryption.cpp, the key files and the encryption of the stored passwords.
-- In Alert.Snmp a trap is still one call that may throw, and Notification has what that call runs. A
-- setter's signal is taken to be handled by the monitor before the next write. The JSON library, `sdbusplus`,
-- net-snmp and OpenSSL are parameters, with what the code relies on as hypotheses.
--
-- How the code corresponds to the model: a function that calls other services is a run (Exec): it takes a
-- world, the number of calls so far and the events asked of other services, and returns what the function
-- returns or throws, and the next world. Exceptions are of three kinds, as the handlers tell them apart:
-- those of sdbusplus, other standard ones, and undefined behaviour, which nothing catches. What other
-- services answer is a parameter (Bus), indexed by the number of the call, so that an answer may differ
-- from the one before. Names follow the code's, in snake_case. Bytes and other unsigned integers are
-- natural numbers; where the code shifts, complements, subtracts or converts, the width is written out. A
-- theorem that needs the values to be bytes says so. The journal's log lines are left out.
--
-- Loops are by recursion on the list, or on the number of rounds that the code counts, so no fuel is
-- needed: the filter rows by the length of the first column, the groups by their count, and the
-- postpone timer by its value. A second of sleep is not modelled.
--
-- Not modelled: `IPMIStatsTable` and the helpers for SDR records of include/sdrutils.hpp, which this
-- program does not call (the connection of the helpers is a stub here); and the registration of D-Bus
-- objects and signals in both `main`, which is the library's.
pub mod Common
pub mod EventData
pub mod Exec
pub mod Bus
pub mod Filter
pub mod SensorPath
pub mod Channels
pub mod Policy
pub mod SensorNumber
pub mod Alert
pub mod Action
pub mod Task
pub mod Postpone
pub mod Retry
pub mod Validation
pub mod Tests
pub mod Tables
pub mod ConfigUpdate
pub mod Properties
pub mod SensorTypes
pub mod Notification
pub mod TestDestination
pub mod Encryption
pub mod LanJson
pub mod LanStart
pub mod ServiceStart
pub mod LanProperties
pub mod SensorTree
