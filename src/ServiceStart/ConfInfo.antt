-- ===== src/ServiceStart/ConfInfo.antt =====
-- src/pef_config.cpp and include/pef_config_update.hpp: a property of the PEFConfInfo object that a client
-- writes is brought to the file by the monitor, and a later start shows it.
use mathlib.Core.Option.{some-injective}
use platform_event_filter.Common.{
  ◌≡◌, refl, sym, ap, ◌∙◌, inl, inr, Bool-cases, true, some, List, [], ◌∷◌, String, ◌===◌, eq_iff,
  map, All,
}
use platform_event_filter.Tables.{Row, put}
use platform_event_filter.ConfigUpdate.Monitors.{
  Document, document, Changed, conf_cell, put_all, conf_info_changed, update_json_file,
}
use platform_event_filter.ServiceStart.{
  Read, failed, undefined, value, ◌>>=◌, Kind, Registered, PropertyValue, DbusObject, read_cell,
  read_properties, row_object, row_objects,
}
use platform_event_filter.ServiceStart.Tables.{pef_obj, conf_properties, conf_objects}
use platform_event_filter.ServiceStart.ConfProperties.{
  Signals, kind_of, set_value, set_object, IsConf, cell_of, read_cell-cell_of, properties-IsConf,
}

>>=-value :
    {A B : Type 0} (o : Read A) (f : A → Read B) {b : B}
    → (o >>= f) ≡ value b
    → (a : A) × (o ≡ value a) × (f a ≡ value b)
>>=-value failed f h = cc
>>=-value undefined f h = cc
>>=-value (value a) f h = (a, refl, h)

value-injective : {A : Type 0} (a b : A) → value a ≡ value b → a ≡ b
value-injective a b h = cc

module _ (p : String) {k : Kind} {v : PropertyValue} {c : Changed} (s : Signals k v c) where
  read_properties-put :
      (all registered : List Registered) (row : Row) {ps : List (String × PropertyValue)}
      → kind_of p all ≡ some k
      → All (IsConf all) registered
      → read_properties registered row ≡ value ps
      → read_properties registered (put p (cell_of s) row) ≡ value (set_value p v ps)
  unfolding read_properties put
  read_properties-put all [] row {ps} kind conf h =
      ap (λ t. value (set_value p v t)) (value-injective [] ps h)
  read_properties-put all (r ∷ registered) row {ps} kind conf h =
      let (w, e1, h1) = >>=-value (read_cell r.kind (row r.key)) _ h in
      let (rest, e2, h2) = >>=-value (read_properties registered row) _ h1 in
      let ih = read_properties-put all registered row kind conf.1 e2 in
      let key : (r.key === p) ≡ (r.name === p) = ap (λ q. q === p) conf.0.own in
      let result = ap (λ t. value (set_value p v t)) (value-injective _ ps h2) in
      elim (Bool-cases (r.name === p)) [
        | inl e ↦
            let own : some r.kind ≡ some k =
              sym conf.0.single ∙ ap (λ q. kind_of q all) ((eq_iff r.name p).0 e) ∙ kind in
            let cell : read_cell r.kind (cell_of s) ≡ value v =
              ap (λ j. read_cell j (cell_of s)) (some-injective r.kind k own)
              ∙ read_cell-cell_of s in
            rw (key, e, cell, ih) (rw (e) at result)
        | inr e ↦ rw (key, e, e1, ih) (rw (e) at result)
      ]

  conf_cell-kept :
      (all registered : List Registered)
      → kind_of p registered ≡ some k
      → All (IsConf all) registered
      → conf_cell p c ≡ some (cell_of s)
  conf_cell-kept all [] kind conf = cc
  conf_cell-kept all (r ∷ registered) kind conf = elim (Bool-cases (r.name === p)) [
    | inl e ↦
        let same : r.kind ≡ k = some-injective r.kind k (rw (e) at kind) in
        let takes : (w : PropertyValue) (d : Changed) (t : Signals k w d)
            → conf_cell r.name d ≡ some (cell_of t) =
          rw (same) at conf.0.takes in
        ap (λ q. conf_cell q c) (sym ((eq_iff r.name p).0 e)) ∙ takes v c s
    | inr e ↦ conf_cell-kept all registered (rw (e) at kind) conf.1
  ]

  module _ (path interface : String) (registered : List Registered)
      (conf : All (IsConf registered) registered) (kind : kind_of p registered ≡ some k) where
    row_object-put :
        (row : Row) (o : DbusObject)
        → row_object path interface registered row ≡ value o
        → row_object path interface registered (put p (cell_of s) row) ≡ value (set_object p v o)
    unfolding row_object
    row_object-put row o h =
        let (ps, e, h1) = >>=-value (read_properties registered row) _ h in
        rw (read_properties-put registered registered row kind conf e)
          (ap (λ t. value (set_object p v t)) (value-injective _ o h1))

    row_objects-put :
        (rows : List Row) (objects : List DbusObject)
        → row_objects path interface registered rows ≡ map value objects
        → row_objects path interface registered (put_all p (cell_of s) rows)
          ≡ map value (map (set_object p v) objects)
    unfolding row_objects put_all
    row_objects-put [] [] h = refl
    row_objects-put [] (o ∷ objects) h = cc
    row_objects-put (row ∷ rows) [] h = cc
    row_objects-put (row ∷ rows) (o ∷ objects) h =
        let cons : row_object path interface registered row
              ∷ row_objects path interface registered rows
            ≡ value o ∷ map value objects =
          h in
        let head : row_object path interface registered row ≡ value o = cc in
        let tail : row_objects path interface registered rows ≡ map value objects = cc in
        rw (row_object-put row o head, row_objects-put rows objects tail) refl

-- Where the merge of the library keeps the table, and each row of PEFConfInfo is shown: after the write of a
-- property that it has, by a value of its kind, the monitor's callback leaves a file from which a later start
-- shows the value, and the other properties as before.
pub conf_info_changed-conf_objects :
    (merged : List Row → Document → Document)
    → ((rows : List Row) (d : Document) → (merged rows d).conf_info ≡ d.conf_info)
    → (p : String) {k : Kind} {v : PropertyValue} {c : Changed} → kind_of p conf_properties ≡ some k
    → Signals k v c
    → (d : Document) (objects : List DbusObject) → conf_objects d.conf_info ≡ map value objects
    → (d' : Document) × (conf_info_changed merged true (p, c) (document d) ≡ some (document d'))
      × (conf_objects d'.conf_info ≡ map value (map (set_object p v) objects))
unfolding conf_info_changed update_json_file conf_objects
conf_info_changed-conf_objects merged keeps p kind s d objects h =
    let rows : List Row = put_all p (cell_of s) d.conf_info in
    let kept = conf_cell-kept p s conf_properties conf_properties kind properties-IsConf in
    (
      merged rows (record d { conf_info = rows }),
      rw (conf_info_changed, kept) refl,
      rw (keeps) (
          row_objects-put p s pef_obj _ conf_properties properties-IsConf kind d.conf_info objects
            h),
    )
