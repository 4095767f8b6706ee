-- ===== src/ServiceStart/Selectors.antt =====
-- src/pef_config.cpp and include/pef_config_update.hpp: the DestinationSelector property of a destination,
-- which the service reads from another key of the file than the one that the monitor writes.
use mathlib.Core.Option.{some-injective}
use platform_event_filter.Common.{
  ◌≡◌, refl, ap, sym, ◌∙◌, Bool, true, false, Option, none, some, List, [], ◌∷◌, String, map,
}
use platform_event_filter.Tables.{Row, put}
use platform_event_filter.ConfigUpdate.Entries.{find_entry_no}
use platform_event_filter.ConfigUpdate.Monitors.{
  Document, ConfigFile, unreadable, document, Changed, byte, word, bytes, words, str, strs,
  change_first, put_scalar, update_destinations, is_destination_cell, update_json_file,
  destination_selector_changed,
}
use platform_event_filter.ServiceStart.{Read, DbusObject, read_properties, row_object}
use platform_event_filter.ServiceStart.Tables.{
  destination_object, destination_objects, destination_properties,
}

-- The objects of the destinations that a start makes of the file.
abbrev pub destinations_of : ConfigFile → List (Read DbusObject)
destinations_of unreadable = []
destinations_of (document d) = destination_objects d.destinations

put_scalar-destination_object :
    (c : Changed) (row : Row)
    → destination_object (put_scalar "DestinationSelector" c row) ≡ destination_object row
unfolding destination_object row_object read_properties destination_properties put_scalar put
put_scalar-destination_object (byte n) row = refl
put_scalar-destination_object (word n) row = refl
put_scalar-destination_object (bytes ns) row = refl
put_scalar-destination_object (words ns) row = refl
put_scalar-destination_object (str s) row = refl
put_scalar-destination_object (strs ss) row = refl

written :
    (opened : Bool) (d : Document) (rows : List Row)
    → map destination_object rows ≡ map destination_object d.destinations
    → destinations_of (update_json_file opened (record d { destinations = rows }) (document d))
      ≡ destination_objects d.destinations
unfolding update_json_file destination_objects
written true d rows h = h
written false d rows h = refl

module _ {A : Type 0} (f : Row → A) (test : Row → Option Bool) (change : Row → Row)
    (keeps : (row : Row) → f (change row) ≡ f row) where
  change_first-map :
      (rows : List Row) {rows' : List Row}
      → change_first test change rows ≡ some rows'
      → map f rows' ≡ map f rows
  unfolding change_first
  change_first-map [] h = ap (map f) (sym (some-injective [] _ h))
  change_first-map (row ∷ rows) {rows'} h =
      at (λ rest e. change_first-map rows e) (test row) (change_first test change rows) refl h
    where
      at :
          ((rest : List Row) → change_first test change rows ≡ some rest → map f rest ≡ map f rows)
          → (o : Option Bool) (more : Option (List Row)) → change_first test change rows ≡ more
          → elim o [
            | none ↦ none
            | some true ↦ some (change row ∷ rows)
            | some false ↦ elim more [ none ↦ none | some rest ↦ some (row ∷ rest) ]
          ]
            ≡ some rows'
          → map f rows' ≡ map f (row ∷ rows)
      at ih none more e k = cc
      at ih (some true) more e k =
          ap (map f) (sym (some-injective (change row ∷ rows) _ k)) ∙ rw (keeps row) refl
      at ih (some false) none e k = cc
      at ih (some false) (some rest) e k =
          ap (map f) (sym (some-injective (row ∷ rest) _ k)) ∙ ap (λ t. f row ∷ t) (ih rest e)

-- Whatever value a client writes to the DestinationSelector property of a destination, a start from the file
-- that the monitor's callback leaves shows all destinations as a start from the file before.
pub destination_selector_changed-destinations_of :
    (opened : Bool) (path : String) (c : Changed) (file : ConfigFile)
    → destinations_of
        (destination_selector_changed opened path (("DestinationSelector", c) ∷ []) file)
      ≡ destinations_of file
unfolding destination_selector_changed update_destinations destination_objects update_json_file
destination_selector_changed-destinations_of opened path c unreadable = refl
destination_selector_changed-destinations_of opened path c (document d) =
    saved
      (change_first (λ row. is_destination_cell (find_entry_no path) (row "LanDestination"))
        (put_scalar "DestinationSelector" c) d.destinations)
      refl
  where
    saved :
        (o : Option (List Row))
        → change_first
            (λ row. is_destination_cell (find_entry_no path) (row "LanDestination"))
            (put_scalar "DestinationSelector" c)
            d.destinations
          ≡ o
        → destinations_of (
            destination_selector_changed opened path (("DestinationSelector", c) ∷ []) (document d))
          ≡ destination_objects d.destinations
    saved none e = rw (destination_selector_changed, update_destinations, e) refl
    saved (some rows) e =
        rw (destination_selector_changed, update_destinations, e)
          (written opened d rows (
            change_first-map destination_object _ _ (put_scalar-destination_object c) d.destinations
              e))
