-- ===== src/Notification/LocalName.antt =====
-- src/snmp_notification.cpp, `sendTrap`: the local address of a session, which is the last part of the
-- notification's EventSubjectSN.
use Prim.Native.Char.{code}
use Prim.Native.String.{String, [], ◌∷◌}
use platform_event_filter.Common.{◌==◌, ◌≡◌, refl, if◌then◌else◌}

unfoldable pub after_colon : String → String → String
after_colon [] kept = kept
after_colon (c ∷ s) kept = after_colon s (if code c == b':' then s else kept)

-- `eventSubjectSN.substr(eventSubjectSN.rfind(':') + 1)`: all of it, if there is no colon.
unfoldable pub local_name : String → String
local_name event_subject_sn = after_colon event_subject_sn event_subject_sn

local_parts : (local_name "bmc:10.0.0.2" ≡ "10.0.0.2") × (local_name "" ≡ "")
unfolding local_name after_colon
local_parts = (refl, refl)
