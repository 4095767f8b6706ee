-- ===== src/Validation/Community.antt =====
-- src/pef_config.cpp: `isCommStrValid`, the test of the community string that the PEF configuration
-- service is given.
use platform_event_filter.Common.{
  ℕ, ◌≡◌, Bool, true, false, ◌||◌, ◌===◌, if◌then◌else◌, List, [], ◌∷◌, String, some,
}
use platform_event_filter.Exec.{Exec, pure, ask, throw, sdbus_error, or_throw, catch_std, ◌>>=◌}
use platform_event_filter.Exec.Adds.{Adds, Adds-pure, Adds-ask, Adds-catch_std, Adds-after}
use platform_event_filter.Bus.{Reply, message}
use platform_event_filter.Bus.Answers.{call-Adds, read-Adds}
use platform_event_filter.Bus.Calls.{call, read, lookup}

-- What `GetManagedObjects` answers: for each object its interfaces with their text properties.
abbrev pub Objects : Type 0
Objects = List (String × List (String × List (String × String)))

abbrev pub snmp_comm_str_intf : String
snmp_comm_str_intf = "xyz.openbmc_project.Snmp.CommunityStrManager"

unfoldable pub any_object : String → Objects → Exec Bool
any_object value [] = pure false
any_object value ((path, intf_map) ∷ objects) = do
  comm_str_props ← or_throw (lookup snmp_comm_str_intf intf_map)
  comm_str ← or_throw (lookup "CommunityString" comm_str_props)
  if comm_str === value then pure true else any_object value objects

-- `opens` is whether the bus opens; any exception means that the string is not valid.
module _ (opens : ℕ → Bool) (managed_objects : ℕ → Reply Objects) where
  unfoldable pub is_comm_str_valid : String → Exec Bool
  is_comm_str_valid value =
      catch_std
        (do
          opened ← ask opens
          if opened
              then (do
                reply ← call managed_objects
                obj_tree ← read reply
                any_object value obj_tree)
              else throw sdbus_error)
        (pure false)

-- The objects of these paths, each with its community string.
abbrev pub objects_of : List (String × String) → Objects
objects_of [] = []
objects_of ((path, comm_str) ∷ rest) =
    (path, (snmp_comm_str_intf, ("CommunityString", comm_str) ∷ []) ∷ []) ∷ objects_of rest

abbrev pub any_equal : String → List (String × String) → Bool
any_equal value [] = false
any_equal value ((path, comm_str) ∷ rest) = comm_str === value || any_equal value rest

choose : (b c : Bool) (m : Exec Bool) → Adds m c [] → Adds (if b then pure true else m) (b || c) []
choose true c m h = Adds-pure true
choose false c m h = h

any_object-Adds :
    (value : String) (strings : List (String × String))
    → Adds (any_object value (objects_of strings)) (any_equal value strings) []
unfolding any_object or_throw
any_object-Adds value [] = Adds-pure false
any_object-Adds value ((path, comm_str) ∷ rest) =
    Adds-after _ _ (("CommunityString", comm_str) ∷ []) (Adds-pure _) (
      Adds-after _ _ comm_str (Adds-pure comm_str)
        (choose (comm_str === value) (any_equal value rest) _ (any_object-Adds value rest)))

-- Where the bus opens and the service answers with these objects, the test returns whether one of them
-- has the string, and asks nothing to be done.
pub is_comm_str_valid-Adds :
    (opens : ℕ → Bool) (managed_objects : ℕ → Reply Objects) (strings : List (String × String))
    (value : String)
    → ((n : ℕ) → opens n ≡ true)
    → ((n : ℕ)
        → managed_objects n
          ≡ message (record { is_error = false; body = some (objects_of strings) }))
    → Adds (is_comm_str_valid opens managed_objects value) (any_equal value strings) []
unfolding is_comm_str_valid
is_comm_str_valid-Adds opens managed_objects strings value opened answers = Adds-catch_std _ _ _ _ (
    Adds-after _ _ true (Adds-ask opens true opened) (
      Adds-after _ _ _ (call-Adds managed_objects _ answers) (
        Adds-after _ _ (objects_of strings) (read-Adds (objects_of strings))
          (any_object-Adds value strings))))
