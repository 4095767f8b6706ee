-- ===== src/ServiceStart/Order.antt =====
-- src/pef_config.cpp, `parsePefConfToDbus`: the order of the start: the LAN interfaces come last, after all
-- tables of the configuration file.
use mathlib.Core.Option.{some-injective}
use platform_event_filter.Common.{
  ℕ, ◌≡◌, inl, inr, Bool-cases, Bool, Option, some, List, [], ◌∷◌, ◌++◌, String, All, All-append,
  At,
}
use platform_event_filter.Tables.{Row}
use platform_event_filter.LanJson.{Config, LanJson}
use platform_event_filter.LanStart.{Shown}
use platform_event_filter.LanStart.Interfaces.{Channel, lan_interfaces}
use platform_event_filter.ServiceStart.{
  Read, failed, undefined, value, ◌>>=◌, Registered, DbusObject, object, lan_object, row_object,
  row_objects, read_properties, Vector, list_properties, list_object, list_objects, objects_of,
  show_all,
}
use platform_event_filter.ServiceStart.Readable.{IsRead, IsReadable, table_objects-IsReadable}
use platform_event_filter.ServiceStart.Tables.{
  ConfData, conf_objects, guid_objects, oem_objects, event_filter_objects, policy_objects,
  alert_string_objects, int_of, destination_object, destination_objects, table_objects, lan_objects,
  parse_pef_conf_to_dbus,
}

-- No object of a LAN interface.
abbrev IsTable : DbusObject → Type 0
IsTable (object path interface ps) = Unit
IsTable (lan_object iface shown) = ⊥

abbrev IsTableRead : Read DbusObject → Type 0
IsTableRead failed = Unit
IsTableRead undefined = Unit
IsTableRead (value o) = IsTable o

bind-IsTableRead :
    {A : Type 0} (r : Read A) (f : A → Read DbusObject)
    → ((a : A) → IsTableRead (f a))
    → IsTableRead (r >>= f)
bind-IsTableRead failed f h = tt
bind-IsTableRead undefined f h = tt
bind-IsTableRead (value a) f h = h a

row_object-IsTableRead :
    (path interface : String) (registered : List Registered) (row : Row)
    → IsTableRead (row_object path interface registered row)
unfolding row_object
row_object-IsTableRead path interface registered row =
    bind-IsTableRead (read_properties registered row) _ (λ ps. tt)

row_objects-IsTableRead :
    (path interface : String) (registered : List Registered) (rows : List Row)
    → All IsTableRead (row_objects path interface registered rows)
unfolding row_objects
row_objects-IsTableRead path interface registered [] = tt
row_objects-IsTableRead path interface registered (row ∷ rows) = (
  row_object-IsTableRead path interface registered row,
  row_objects-IsTableRead path interface registered rows,
)

list_object-IsTableRead :
    (path interface : String) (columns : List Vector) (rows : List Row)
    → All IsTableRead (list_object path interface columns rows)
unfolding list_object
list_object-IsTableRead path interface columns [] = tt
list_object-IsTableRead path interface columns (row ∷ rows) =
    (bind-IsTableRead (list_properties columns (row ∷ rows)) _ (λ ps. tt), tt)

list_objects-IsTableRead :
    (path : ℕ → String) (interface : String) (columns : List Vector) (lists : ℕ → List Row)
    → All IsTableRead (list_objects path interface columns lists)
unfolding list_objects
list_objects-IsTableRead path interface columns lists =
    let at = λ (k : ℕ). list_object-IsTableRead (path k) interface columns (lists k) in
    All-append _ _ _ (at 0) (All-append _ _ _ (at 1) (All-append _ _ _ (at 2) (at 3)))

destination_object-IsTableRead : (row : Row) → IsTableRead (destination_object row)
unfolding destination_object
destination_object-IsTableRead row =
    bind-IsTableRead (int_of (row "LanDestination")) _ (λ z. row_object-IsTableRead _ _ _ row)

destination_objects-IsTableRead : (rows : List Row) → All IsTableRead (destination_objects rows)
unfolding destination_objects
destination_objects-IsTableRead [] = tt
destination_objects-IsTableRead (row ∷ rows) =
    (destination_object-IsTableRead row, destination_objects-IsTableRead rows)

table_objects-IsTableRead : (d : ConfData) → All IsTableRead (table_objects d)
unfolding table_objects conf_objects guid_objects oem_objects event_filter_objects policy_objects
    alert_string_objects
table_objects-IsTableRead d = All-append _ _ _ (row_objects-IsTableRead _ _ _ d.tables.conf_info) (
    All-append _ _ _ (row_objects-IsTableRead _ _ _ d.system_guid) (
      All-append _ _ _ (row_objects-IsTableRead _ _ _ d.oem_param) (
        All-append _ _ _ (list_objects-IsTableRead _ _ _ _) (
          All-append _ _ _ (list_objects-IsTableRead _ _ _ _) (
            All-append _ _ _ (list_objects-IsTableRead _ _ _ _)
              (destination_objects-IsTableRead d.tables.destinations))))))

All-at : {A : Type 0} (P : A → Type 0) {x : A} {xs : List A} {i : ℕ} → All P xs → At x xs i → P x
All-at P h (At.head xs) = h.0
All-at P h (At.tail y at) = All-at P h.1 at

module _ (takes : List DbusObject → DbusObject → Bool) {iface : String} {shown : Shown} where
  show_all-IsRead :
      (reads later : List (Read DbusObject)) (objects : List DbusObject) {all : List DbusObject}
      {i : ℕ}
      → All IsTableRead reads
      → All IsTable objects
      → objects_of (show_all takes (reads ++ later) objects) ≡ some all
      → At (lan_object iface shown) all i
      → All IsRead reads
  unfolding show_all objects_of
  show_all-IsRead [] later objects r h e at = tt
  show_all-IsRead (failed ∷ reads) later objects r h e at =
      absurd (All-at IsTable (rw (some-injective objects _ e) at h) at)
  show_all-IsRead (undefined ∷ reads) later objects r h e at = cc
  show_all-IsRead (value o ∷ reads) later objects r h e at = elim (Bool-cases (takes objects o)) [
    | inl f ↦ (
      tt,
      show_all-IsRead reads later (objects ++ (o ∷ [])) r.1
          (All-append IsTable objects (o ∷ []) h (r.0, tt)) (rw (f) at e) at,
    )
    | inr f ↦ absurd (All-at IsTable (rw (some-injective objects _ (rw (f) at e)) at h) at)
  ]

-- Where the start has no undefined behaviour, the service shows an object of a LAN interface only if the
-- whole file is readable: each row of PEFConfInfo, SystemGUID, OEMParam and DestinationSelector has every
-- property, with its type, and in the rows of the other tables no property has another type.
pub parse_pef_conf_to_dbus-IsReadable :
    (lan : Option LanJson) (legacy : String → Option (Option Config))
    (takes : List DbusObject → DbusObject → Bool) (channels : Option (List Channel)) (d : ConfData)
    (objects : List DbusObject) (iface : String) (shown : Shown) (i : ℕ)
    → objects_of (parse_pef_conf_to_dbus lan legacy takes channels (some d)) ≡ some objects
    → At (lan_object iface shown) objects i
    → IsReadable d
unfolding parse_pef_conf_to_dbus
parse_pef_conf_to_dbus-IsReadable lan legacy takes channels d objects iface shown i e at =
    table_objects-IsReadable d (
      show_all-IsRead takes (table_objects d) (lan_objects lan legacy (lan_interfaces channels)) []
        (table_objects-IsTableRead d) tt e at)
