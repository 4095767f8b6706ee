-- ===== src/ServiceStart/Readable.antt =====
-- src/pef_config.cpp, `parsePefConfToDbus`: what it takes of the rows of the file that each read gives a value.
use platform_event_filter.Common.{
  ℕ, refl, inl, inr, Option, none, some, List, [], ◌∷◌, ◌++◌, String, All, All-append,
}
use platform_event_filter.Tables.{
  Cell, absent, other, number, string, Row, column, cons_cast, value_or_zero, group_rows,
}
use platform_event_filter.Tables.Groups.{IsListSize, group_rows-append}
use platform_event_filter.ServiceStart.{
  Read, failed, undefined, value, ◌>>=◌, of_option, Kind, byte_kind, word_kind, text_kind,
  Registered, number_of, string_of, read_cell, read_properties, row_object, row_objects, Vector,
  numeric, textual, text_or_empty, cons_text, text_column, read_column, list_properties,
  list_object, list_objects,
}
use platform_event_filter.ServiceStart.Tables.{
  ConfData, conf_properties, numbered, conf_objects, guid_objects, oem_objects,
  event_filter_columns, event_filter_objects, policy_columns, policy_objects, alert_string_columns,
  alert_string_objects, int_of, destination_properties, destination_object, destination_objects,
  table_objects,
}

-- The read gave a value.
abbrev pub IsRead : {A : Type 0} → Read A → Type 0
IsRead failed = ⊥
IsRead undefined = ⊥
IsRead (value a) = Unit

-- The cell has a value of the kind.
abbrev pub HasKind : Kind → Cell → Type 0
HasKind byte_kind (number z) = Unit
HasKind word_kind (number z) = Unit
HasKind text_kind (string s) = Unit
HasKind _ _ = ⊥

abbrev pub NumberOrNothing : Cell → Type 0
NumberOrNothing absent = Unit
NumberOrNothing (number z) = Unit
NumberOrNothing _ = ⊥

abbrev pub TextOrNothing : Cell → Type 0
TextOrNothing absent = Unit
TextOrNothing (string s) = Unit
TextOrNothing _ = ⊥

-- The cell has a value that goes into the vector, or nothing.
abbrev pub MayGo : Vector → Row → Type 0
MayGo (numeric w key) row = NumberOrNothing (row key)
MayGo (textual key) row = TextOrNothing (row key)

-- The row has each property.
abbrev pub HasAll : List Registered → Row → Type 0
HasAll registered row = All (λ r. HasKind r.kind (row r.key)) registered

abbrev pub MayGoAll : List Vector → Row → Type 0
MayGoAll columns row = All (λ c. MayGo c row) columns

-- No row of a table keeps a start from going on.
pub record IsReadable (d : ConfData) : Type 0 where
  pub conf : All (HasAll conf_properties) d.tables.conf_info
  pub guid : All (HasAll (numbered "SystemGUID" "SystemGUID" 16 0)) d.system_guid
  pub oem : All (HasAll (numbered "OemParam" "OEMParam" 32 0)) d.oem_param
  pub event_filters : All (MayGoAll event_filter_columns) d.tables.event_filters
  pub alert_policies : All (MayGoAll policy_columns) d.tables.alert_policies
  pub alert_strings : All (MayGoAll alert_string_columns) d.alert_strings
  pub numbered_destinations :
      All (λ row. HasKind byte_kind (row "LanDestination")) d.tables.destinations
  pub destinations : All (HasAll destination_properties) d.tables.destinations

module _ {A : Type 0} (P : A → Type 0) where
  All-left : (xs ys : List A) → All P (xs ++ ys) → All P xs
  All-left [] ys h = tt
  All-left (x ∷ xs) ys h = (h.0, All-left xs ys h.1)

  All-right : (xs ys : List A) → All P (xs ++ ys) → All P ys
  All-right [] ys h = h
  All-right (x ∷ xs) ys h = All-right xs ys h.1

-- Both links of a chain that gives a value give one.
>>=-IsRead :
    {A B : Type 0} (r : Read A) (f : A → Read B)
    → IsRead (r >>= f)
    → IsRead r × (a : A) × IsRead (f a)
>>=-IsRead failed f h = absurd h
>>=-IsRead undefined f h = absurd h
>>=-IsRead (value a) f h = (tt, a, h)

read_cell-HasKind : (k : Kind) (cell : Cell) → IsRead (read_cell k cell) → HasKind k cell
unfolding read_cell number_of string_of
read_cell-HasKind byte_kind absent h = h
read_cell-HasKind byte_kind other h = h
read_cell-HasKind byte_kind (string s) h = h
read_cell-HasKind byte_kind (number z) h = tt
read_cell-HasKind word_kind absent h = h
read_cell-HasKind word_kind other h = h
read_cell-HasKind word_kind (string s) h = h
read_cell-HasKind word_kind (number z) h = tt
read_cell-HasKind text_kind absent h = h
read_cell-HasKind text_kind other h = h
read_cell-HasKind text_kind (string s) h = tt
read_cell-HasKind text_kind (number z) h = h

read_properties-HasAll :
    (registered : List Registered) (row : Row)
    → IsRead (read_properties registered row)
    → HasAll registered row
unfolding read_properties
read_properties-HasAll [] row h = tt
read_properties-HasAll (r ∷ registered) row h =
    let (cell, v, more) = >>=-IsRead (read_cell r.kind (row r.key)) _ h in
    let (rest, last, tail_read) = >>=-IsRead (read_properties registered row) _ more in
    (read_cell-HasKind r.kind (row r.key) cell, read_properties-HasAll registered row rest)

row_object-HasAll :
    (path interface : String) (registered : List Registered) (row : Row)
    → IsRead (row_object path interface registered row)
    → HasAll registered row
unfolding row_object
row_object-HasAll path interface registered row h =
    read_properties-HasAll registered row (>>=-IsRead (read_properties registered row) _ h).0

row_objects-HasAll :
    (path interface : String) (registered : List Registered) (rows : List Row)
    → All IsRead (row_objects path interface registered rows)
    → All (HasAll registered) rows
unfolding row_objects
row_objects-HasAll path interface registered [] h = tt
row_objects-HasAll path interface registered (row ∷ rows) h = (
  row_object-HasAll path interface registered row h.0,
  row_objects-HasAll path interface registered rows h.1,
)

column-NumberOrNothing :
    (w : ℕ) (key : String) (rows : List Row)
    → IsRead (of_option (column w key rows))
    → All (λ row. NumberOrNothing (row key)) rows
unfolding column cons_cast value_or_zero
column-NumberOrNothing w key [] h = tt
column-NumberOrNothing w key (row ∷ rows) h =
    let (here, rest) = cast_read (row key) (column w key rows) h in
    (here, column-NumberOrNothing w key rows rest)
  where
    cast_read :
        (cell : Cell) (more : Option (List ℕ))
        → IsRead (of_option (cons_cast w (value_or_zero cell) more))
        → NumberOrNothing cell × IsRead (of_option more)
    cast_read absent none h = absurd h
    cast_read absent (some ns) h = (tt, tt)
    cast_read other more h = absurd h
    cast_read (string s) more h = absurd h
    cast_read (number z) none h = absurd h
    cast_read (number z) (some ns) h = (tt, tt)

text_column-TextOrNothing :
    (key : String) (rows : List Row)
    → IsRead (of_option (text_column key rows))
    → All (λ row. TextOrNothing (row key)) rows
unfolding text_column cons_text text_or_empty
text_column-TextOrNothing key [] h = tt
text_column-TextOrNothing key (row ∷ rows) h =
    let (here, rest) = text_read (row key) (text_column key rows) h in
    (here, text_column-TextOrNothing key rows rest)
  where
    text_read :
        (cell : Cell) (more : Option (List String))
        → IsRead (of_option (cons_text (text_or_empty cell) more))
        → TextOrNothing cell × IsRead (of_option more)
    text_read absent none h = absurd h
    text_read absent (some ss) h = (tt, tt)
    text_read other more h = absurd h
    text_read (number z) more h = absurd h
    text_read (string s) none h = absurd h
    text_read (string s) (some ss) h = (tt, tt)

read_column-MayGo :
    (c : Vector) (rows : List Row) → IsRead (read_column c rows) → All (MayGo c) rows
unfolding read_column
read_column-MayGo (numeric w key) rows h =
    column-NumberOrNothing w key rows (>>=-IsRead (of_option (column w key rows)) _ h).0
read_column-MayGo (textual key) rows h =
    text_column-TextOrNothing key rows (>>=-IsRead (of_option (text_column key rows)) _ h).0

no_columns : (rows : List Row) → All (MayGoAll []) rows
no_columns [] = tt
no_columns (row ∷ rows) = (tt, no_columns rows)

both_columns :
    (c : Vector) (columns : List Vector) (rows : List Row)
    → All (MayGo c) rows
    → All (MayGoAll columns) rows
    → All (MayGoAll (c ∷ columns)) rows
both_columns c columns [] h k = tt
both_columns c columns (row ∷ rows) h k = ((h.0, k.0), both_columns c columns rows h.1 k.1)

list_properties-MayGoAll :
    (columns : List Vector) (rows : List Row)
    → IsRead (list_properties columns rows)
    → All (MayGoAll columns) rows
unfolding list_properties
list_properties-MayGoAll [] rows h = no_columns rows
list_properties-MayGoAll (c ∷ columns) rows h =
    let (first, p, more) = >>=-IsRead (read_column c rows) _ h in
    let (rest, last, tail_read) = >>=-IsRead (list_properties columns rows) _ more in
    both_columns c columns rows (read_column-MayGo c rows first)
      (list_properties-MayGoAll columns rows rest)

list_object-MayGoAll :
    (path interface : String) (columns : List Vector) (rows : List Row)
    → All IsRead (list_object path interface columns rows)
    → All (MayGoAll columns) rows
unfolding list_object
list_object-MayGoAll path interface columns [] h = tt
list_object-MayGoAll path interface columns (row ∷ rows) h =
    list_properties-MayGoAll columns (row ∷ rows)
      (>>=-IsRead (list_properties columns (row ∷ rows)) _ h.0).0

list_objects-MayGoAll :
    (path : ℕ → String) (interface : String) (columns : List Vector) (size : ℕ) (rows : List Row)
    → IsListSize size
    → All IsRead (list_objects path interface columns (group_rows size rows))
    → All (MayGoAll columns) rows
unfolding list_objects
list_objects-MayGoAll path interface columns size rows is_size h =
    let list : ℕ → List Row = group_rows size rows in
    let at = λ (k : ℕ). list_object-MayGoAll (path k) interface columns (list k) in
    let after0 = All-right IsRead (list_object (path 0) interface columns (list 0)) _ h in
    let after1 = All-right IsRead (list_object (path 1) interface columns (list 1)) _ after0 in
    let parts : All (MayGoAll columns) (list 0 ++ (list 1 ++ (list 2 ++ list 3))) =
      All-append _ (list 0) _ (at 0 (All-left IsRead _ _ h)) (
        All-append _ (list 1) _ (at 1 (All-left IsRead _ _ after0)) (
          All-append _ (list 2) _ (at 2 (All-left IsRead _ _ after1)) (
            at 3 (All-right IsRead (list_object (path 2) interface columns (list 2)) _ after1)))) in
    rw (group_rows-append size rows is_size) at parts

destination_object-HasAll :
    (row : Row)
    → IsRead (destination_object row)
    → HasKind byte_kind (row "LanDestination") × HasAll destination_properties row
unfolding destination_object int_of
destination_object-HasAll row h =
    let (dest, z, more) = >>=-IsRead (int_of (row "LanDestination")) _ h in
    (int_read (row "LanDestination") dest, row_object-HasAll _ _ destination_properties row more)
  where
    int_read : (cell : Cell) → IsRead (int_of cell) → HasKind byte_kind cell
    int_read absent h = h
    int_read other h = h
    int_read (string s) h = h
    int_read (number z) h = tt

destination_objects-HasAll :
    (rows : List Row)
    → All IsRead (destination_objects rows)
    → All (λ row. HasKind byte_kind (row "LanDestination")) rows
      × All (HasAll destination_properties) rows
unfolding destination_objects
destination_objects-HasAll [] h = (tt, tt)
destination_objects-HasAll (row ∷ rows) h =
    let (n, all) = destination_object-HasAll row h.0 in
    let (ns, alls) = destination_objects-HasAll rows h.1 in ((n, ns), (all, alls))

pub table_objects-IsReadable : (d : ConfData) → All IsRead (table_objects d) → IsReadable d
unfolding table_objects conf_objects guid_objects oem_objects event_filter_objects policy_objects
    alert_string_objects
table_objects-IsReadable d h =
    let h1 = All-right IsRead (conf_objects d.tables.conf_info) _ h in
    let h2 = All-right IsRead (guid_objects d.system_guid) _ h1 in
    let h3 = All-right IsRead (oem_objects d.oem_param) _ h2 in
    let h4 = All-right IsRead (event_filter_objects d.tables.event_filters) _ h3 in
    let h5 = All-right IsRead (policy_objects d.tables.alert_policies) _ h4 in
    let h6 = All-right IsRead (alert_string_objects d.alert_strings) _ h5 in
    let (ns, alls) = destination_objects-HasAll d.tables.destinations h6 in
    record {
      conf = row_objects-HasAll _ _ _ d.tables.conf_info (All-left IsRead _ _ h);
      guid = row_objects-HasAll _ _ _ d.system_guid (All-left IsRead _ _ h1);
      oem = row_objects-HasAll _ _ _ d.oem_param (All-left IsRead _ _ h2);
      event_filters =
          list_objects-MayGoAll _ _ _ 10 d.tables.event_filters (inl refl) (All-left IsRead _ _ h3);
      alert_policies =
          list_objects-MayGoAll _ _ _ 15 d.tables.alert_policies (inr refl)
            (All-left IsRead _ _ h4);
      alert_strings =
          list_objects-MayGoAll _ _ _ 10 d.alert_strings (inl refl) (All-left IsRead _ _ h5);
      numbered_destinations = ns;
      destinations = alls;
    }
