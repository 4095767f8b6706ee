-- ===== src/Properties/Writes.antt =====
-- src/pef_config.cpp and include/pef_config_update.hpp: clients write the properties of the event filter
-- lists; the service takes or refuses each write, and the monitor brings what was taken to the file before
-- the next write.
use platform_event_filter.Common.{
  ℕ, zero, suc, ◌+◌, ◌≤◌, ◌≡◌, refl, sym, ◌∙◌, arith, inl, inr, Bool, true, false, ◌==◌, Bool-cases,
  if◌then◌else◌, Option, none, some, List, String, ◌===◌, ◌&◌, to_string,
}
use platform_event_filter.SensorNumber.{SensorNumMap}
use platform_event_filter.Tables.{Row}
use platform_event_filter.ConfigUpdate.{put_in_list, numbers}
use platform_event_filter.ConfigUpdate.Lists.{
  Lists, update, width, shown, FitsList, put_in_list_refines,
}
use platform_event_filter.ConfigUpdate.Monitors.{
  Document, ConfigFile, unreadable, document, Changed, bytes, words, event_filter_changed,
  event_filter_bucket, find_bucket, update_event_filters, save_event_filters, update_json_file,
}
use platform_event_filter.Properties.{valid_event_filter}

-- What the objects show, and the file.
pub record Service : Type 0 where
  pub lists : Lists
  pub file : ConfigFile

-- eventFilterTableObjGrp1 to eventFilterTableObjGrp4
unfoldable pub list_path : ℕ → String
list_path b = "/xyz/openbmc_project/PefAlertManager/EventFilterTable/List" & to_string (b + 1)

abbrev pub changed_value : String → List ℕ → Changed
changed_value p values = if width p == 16 then words values else bytes values

-- A property that is not there, or a vector that is refused, changes nothing.
unfoldable pub set_if_there : Option (List ℕ) → Bool → Lists → Option Lists
set_if_there none valid changed = none
set_if_there (some old) valid changed = if valid then some changed else none

unfoldable pub set_event_filter : Option SensorNumMap → ℕ → String → List ℕ → Lists → Option Lists
set_event_filter sensors b p values lists =
    set_if_there (lists b p) (valid_event_filter sensors p values) (update lists b p values)

-- What was taken is shown, and its signal reaches the monitor's callback.
unfoldable pub after_set : Option Lists → ℕ → String → List ℕ → Service → Service
after_set none b p values s = s
after_set (some lists) b p values s = record {
  lists = lists;
  file = event_filter_changed true (list_path b) (some (p, changed_value p values)) s.file;
}

unfoldable pub write_property : Option SensorNumMap → ℕ → String → List ℕ → Service → Service
write_property sensors b p values s =
    after_set (set_event_filter sensors b p values s.lists) b p values s

-- A write that has a value for each row of the list, into a file that can be read.
abbrev pub FitsFile : ConfigFile → ℕ → String → List ℕ → Type 0
FitsFile unreadable b p values = ⊥
FitsFile (document d) b p values = FitsList 10 d.event_filters b p values

-- The objects show the lists of the file.
abbrev pub InSync : ConfigFile → Lists → Type 0
InSync unreadable lists = ⊥
InSync (document d) lists = (k : ℕ) (q : String) → k ≤ 3 → lists k q ≡ shown 10 d.event_filters k q

-- The service starts from the file.
unfoldable pub start_service : Document → Service
start_service d = record { lists = shown 10 d.event_filters; file = document d }

update_same :
    (b : ℕ) (p : String) (values : List ℕ) (f g : Lists) (k : ℕ) (q : String)
    → f k q ≡ g k q
    → update f b p values k q ≡ update g b p values k q
unfolding update
update_same b p values f g k q e = rw (e) refl

bucket_of_list : (b : ℕ) → b ≤ 3 → event_filter_bucket (list_path b) ≡ some b
unfolding event_filter_bucket find_bucket list_path to_string
bucket_of_list zero h = refl
bucket_of_list (suc zero) h = refl
bucket_of_list (suc (suc zero)) h = refl
bucket_of_list (suc (suc (suc zero))) h = refl
bucket_of_list (suc (suc (suc (suc b)))) h = absurd (omega arith)

callback_lem :
    (b : ℕ) (p : String) (values : List ℕ) (rows : List Row)
    → b ≤ 3
    → update_event_filters
        (event_filter_bucket (list_path b))
        (list_path b)
        p
        (changed_value p values)
        rows
      ≡ some (put_in_list 10 b p (numbers values) rows)
unfolding update_event_filters
callback_lem b p values rows h = elim (Bool-cases (p === "EventData1OffsetMask")) [
  | inl e ↦ rw (bucket_of_list b h, e) refl
  | inr e ↦ rw (bucket_of_list b h, e) refl
]

event_filter_changed-list :
    (b : ℕ) (p : String) (values : List ℕ) (d : Document)
    → b ≤ 3
    → event_filter_changed true (list_path b) (some (p, changed_value p values)) (document d)
      ≡ document (record d { event_filters = put_in_list 10 b p (numbers values) d.event_filters })
unfolding event_filter_changed update_json_file save_event_filters
event_filter_changed-list b p values d h = rw (callback_lem b p values d.event_filters h) refl

module _ (sensors : Option SensorNumMap) where
  pub data Step (s : Service) : Service → Type 0 where
    write :
        (b : ℕ) (p : String) (values : List ℕ)
        → FitsFile s.file b p values
        → Step s (write_property sensors b p values s)

  pub data Reach (s : Service) : Service → Type 0 where
    here : Reach s s
    next : {t u : Service} → Reach s t → Step t u → Reach s u

  write_property-InSync :
      (b : ℕ) (p : String) (values : List ℕ) (lists : Lists) (file : ConfigFile)
      → FitsFile file b p values
      → InSync file lists
      → let t : Service =
          write_property sensors b p values (record { lists = lists; file = file }) in
        InSync t.file t.lists
  unfolding write_property set_event_filter set_if_there after_set
  write_property-InSync b p values lists unreadable fits same = elim fits [ ]
  write_property-InSync b p values lists (document d) fits same =
      taken (lists b p) (valid_event_filter sensors p values)
    where
      in_sync :
          (k : ℕ) (q : String)
          → k ≤ 3
          → update lists b p values k q
            ≡ shown 10 (put_in_list 10 b p (numbers values) d.event_filters) k q
      in_sync k q h =
          update_same b p values lists (shown 10 d.event_filters) k q (same k q h)
          ∙ sym (put_in_list_refines 10 d.event_filters (inl refl) b p values fits k q h)

      taken :
          (old : Option (List ℕ)) (valid : Bool)
          → let t : Service =
              after_set
                (set_if_there old valid (update lists b p values))
                b
                p
                values
                (record { lists = lists; file = document d }) in
            InSync t.file t.lists
      taken none valid = same
      taken (some old) false = same
      taken (some old) true = rw (event_filter_changed-list b p values d fits.is_list) (in_sync)

  -- After a start from a file and any writes that have a value for each row of their list, each followed by
  -- the monitor's callback: the objects show what a new start from the file would show.
  pub Reach-InSync :
      (d : Document) {t : Service} → Reach (start_service d) t → InSync t.file t.lists
  unfolding start_service
  Reach-InSync d here = λ k q h. refl
  Reach-InSync d (next {t} r (write b p values fits)) =
      write_property-InSync b p values t.lists t.file fits (Reach-InSync d r)
