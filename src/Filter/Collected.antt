-- ===== src/Filter/Collected.antt =====
-- src/pef_action.cpp, `eventFilteringProcess`: each filter that the loop over the groups collects is a row of a
-- group as the service gives it.
use platform_event_filter.Common.{
  ℕ, zero, suc, ◌+◌, ◌≤◌, ◌<◌, ◌≡◌, refl, true, Option, none, some, List, [], ◌∷◌, ◌++◌, All,
  All-append, arith, length, String, ◌&◌, to_string,
}
use platform_event_filter.EventData.{EventMsgData}
use platform_event_filter.Exec.{ask, throw, Thrown, sdbus_error}
use platform_event_filter.Exec.Gives.{
  Gives, CanGive, Gives-pure, Gives-CanGive, Gives-catch_sdbus, Gives-bind,
}
use platform_event_filter.Bus.{Bus, Column, Reply, raised, message, Message}
use platform_event_filter.Bus.Calls.{call, read, or_raise, or_unreadable}
use platform_event_filter.Filter.{EvtFilterTblEntry, accepts}
use platform_event_filter.Filter.Rows.{Columns, row, match_table}
use platform_event_filter.Filter.Matches.{IsMatch, match_table-IsMatch}
use platform_event_filter.Filter.Table.{
  event_filter_table_path, event_filter_table_intf, read_columns, match_group, match_groups,
}

-- A message is the answer to some call.
pub record IsAnswer {A : Type 0} (answer : ℕ → Reply A) (m : Message A) : Type 0 where
  pub at : ℕ
  pub is_answer : answer at ≡ message m

-- GetAll of the object of a group, by the number of the call.
abbrev pub asked : Bus → ℕ → ℕ → Reply (List (String × Column))
asked bus group n =
    bus.get_all n (event_filter_table_path & "/List" & to_string group) event_filter_table_intf

-- A row of a group that accepts the message: the service can answer GetAll of the group's object with these
-- properties, these have these columns, and the entry is at this row of them.
pub record IsRow (bus : Bus) (msg : EventMsgData) (group : ℕ) (e : EvtFilterTblEntry) : Type 0 where
  pub reply : Message (List (String × Column))
  pub answered : IsAnswer (asked bus group) reply
  pub values : List (String × Column)
  pub has_body : reply.body ≡ some values
  pub columns : Columns
  pub has_columns : CanGive (read_columns values) columns
  pub idx : ℕ
  pub in_table : idx < length columns.filter_config
  pub is_row : row columns idx ≡ some e
  pub accepted : accepts msg e ≡ true

-- Of one of the groups from `lo` on and below `hi`.
abbrev pub IsCollected : Bus → EventMsgData → ℕ → ℕ → EvtFilterTblEntry → Type 0
IsCollected bus msg lo hi e = (group : ℕ) × (lo ≤ group) × (group < hi) × IsRow bus msg group e

Gives-throw : {A : Type 0} {Q : A → Type 0} (e : Thrown) → Gives Q (throw e)
unfolding throw
Gives-throw e = record { at = λ w. tt }

module _ {A : Type 0} where
  ask-Gives : (answer : ℕ → Reply A) → Gives (λ r. (n : ℕ) × (answer n ≡ r)) (ask answer)
  unfolding ask
  ask-Gives answer = record { at = λ w. (w.calls, refl) }

  or_raise-Gives :
      (answer : ℕ → Reply A) (r : Reply A) (n : ℕ)
      → answer n ≡ r
      → Gives (IsAnswer answer) (or_raise r)
  unfolding or_raise
  or_raise-Gives answer raised n e = Gives-throw sdbus_error
  or_raise-Gives answer (message m) n e = Gives-pure m (record { at = n; is_answer = e })

  call-Gives : (answer : ℕ → Reply A) → Gives (IsAnswer answer) (call answer)
  unfolding call
  call-Gives answer = Gives-bind _ _ (ask-Gives answer) (λ r q. or_raise-Gives answer r q.0 q.1)

  read-Gives : (m : Message A) → Gives (λ a. m.body ≡ some a) (read m)
  unfolding read or_unreadable
  read-Gives m = of_body m.body refl
    where
      of_body : (o : Option A) → m.body ≡ o → Gives (λ a. m.body ≡ some a) (or_unreadable o)
      of_body none e = Gives-throw sdbus_error
      of_body (some a) e = Gives-pure a e

module _ (bus : Bus) (msg : EventMsgData) where
  group_rows-IsCollected :
      (group : ℕ) (reply : Message (List (String × Column))) (values : List (String × Column))
      (columns : Columns) (es : List EvtFilterTblEntry)
      → IsAnswer (asked bus group) reply
      → reply.body ≡ some values
      → CanGive (read_columns values) columns
      → All (IsMatch msg columns 0 (length columns.filter_config)) es
      → All (IsCollected bus msg group (group + 1)) es
  group_rows-IsCollected group reply values columns [] a b c h = tt
  group_rows-IsCollected group reply values columns (e ∷ es) a b c (m, h) = (
    (
      group,
      omega arith,
      omega arith,
      record {
        reply = reply;
        answered = a;
        values = values;
        has_body = b;
        columns = columns;
        has_columns = c;
        idx = m.idx;
        in_table = m.below;
        is_row = m.is_row;
        accepted = m.accepted;
      },
    ),
    group_rows-IsCollected group reply values columns es a b c h,
  )

  widen :
      (lo lo' hi hi' : ℕ) (es : List EvtFilterTblEntry)
      → lo' ≤ lo
      → hi ≤ hi'
      → All (IsCollected bus msg lo hi) es
      → All (IsCollected bus msg lo' hi') es
  widen lo lo' hi hi' [] p q h = tt
  widen lo lo' hi hi' (e ∷ es) p q ((group, l, h, m), rest) =
      ((group, omega arith, omega arith, m), widen lo lo' hi hi' es p q rest)

  match_group-Gives :
      (group : ℕ) → Gives (All (IsCollected bus msg group (group + 1))) (match_group bus msg group)
  unfolding match_group
  match_group-Gives group = Gives-bind _ _ (call-Gives (asked bus group)) λ reply a.
      Gives-bind _ _ (read-Gives reply) λ values b.
        Gives-bind _ _ (Gives-CanGive (read_columns values)) λ columns c.
          Gives-pure (match_table msg columns) (
            group_rows-IsCollected group reply values columns _ a b c
              (match_table-IsMatch msg columns))

  pub match_groups-Gives :
      (n group : ℕ)
      → Gives (All (IsCollected bus msg group (group + n))) (match_groups bus msg n group)
  unfolding match_groups
  match_groups-Gives zero group = Gives-pure [] tt
  match_groups-Gives (suc n) group =
      Gives-bind _ _ (Gives-catch_sdbus _ _ (match_group-Gives group) (Gives-pure [] tt)) λ here h.
        Gives-bind _ _ (match_groups-Gives n (group + 1)) λ rest r. Gives-pure (here ++ rest) (
          All-append _ here rest
            (widen group group (group + 1) (group + suc n) here (omega arith) (omega arith) h)
            (widen (group + 1) group (group + 1 + n) (group + suc n) rest (omega arith)
              (omega arith) r))
