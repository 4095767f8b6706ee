-- ===== src/Action/Selection.antt =====
-- src/pef_action.cpp, `performPefAction`: which destination a policy's selector takes.
use platform_event_filter.Common.{
  ℕ, suc, ◌-◌, ◌^◌, ◌≤◌, ◌<◌, ◌≡◌, ◌&&◌, ◌==◌, ltb, if◌then◌else◌, Option, none, some, List, [],
  ◌∷◌, String, get_elem?, length, get_elem?-none, is_empty, arith, ap,
}
use platform_event_filter.Exec.{World, done, thrown, fault, ◌>>=◌}
use platform_event_filter.Bus.{Column, bytes, strings}
use platform_event_filter.Bus.Calls.{lookup, get_bytes, get_strings}
use platform_event_filter.SensorPath.{sub_size}
use platform_event_filter.Action.Destination.{
  Destination, or_empty, selected_index, selected_user, destination_at, destination_of,
}

-- The destination of a type and a user: a mail destination needs a user.
abbrev pub usable : ℕ → String → Option Destination
usable type user =
    if type == 3 && is_empty user
    then none
    else some (record { destination_type = type; selected_user_name = user })

abbrev pub SmallTable : List ℕ → Type 0
SmallTable types = length types < 2 ^ 64

selected_index-suc :
    (types : List ℕ) (k : ℕ)
    → SmallTable types
    → suc k < length types
    → selected_index types (suc k) ≡ some k
unfolding selected_index
selected_index-suc types k s h = let e : sub_size (suc k) 1 ≡ k = omega arith in rw e (ground arith)

selected_index_past : (types : List ℕ) (d : ℕ) → length types ≤ d → selected_index types d ≡ none
unfolding selected_index
selected_index_past types d h = ground arith

selected_index-zero :
    (types : List ℕ) → 0 < length types → selected_index types 0 ≡ some (2 ^ 64 - 1)
unfolding selected_index
selected_index-zero types h = ground arith

past : (users : List String) (k : ℕ) → length users ≤ k → or_empty (get_elem? users k) ≡ ""
past users k h = ap or_empty (get_elem?-none users k h)

or_empty_if :
    (users : List String) (k : ℕ)
    → (if ltb k (length users) then or_empty (get_elem? users k) else "")
      ≡ or_empty (get_elem? users k)
or_empty_if [] k = ground arith
or_empty_if (u ∷ users) k = ground (arith, past (u ∷ users) k)

module _ (values : List (String × Column)) (types : List ℕ) (small : SmallTable types)
    (w : World) where
  -- Where the service gives the types, fewer than 2^64, and the user names, selector `k + 1`, below the
  -- number of destinations, takes destination `k` with the user name at `k`, or the empty one if there is
  -- none; a mail destination (type 3) without a user name is skipped.
  pub destination_of-suc :
      (users : List String) (k type : ℕ)
      → lookup "userName" values ≡ some (strings users)
      → suc k < length types
      → get_elem? types k ≡ some type
      → destination_of values (some (bytes types)) (suc k) w
        ≡ (done (usable type (or_empty (get_elem? users k))), w)
  unfolding destination_of destination_at selected_user get_bytes get_strings ◌>>=◌
  destination_of-suc users k type u h t =
      rw (selected_index-suc types k small h, destination_at, t, u, or_empty_if users k)

  -- Selector 0 reads past the end of the destinations, if there are any.
  pub destination_of-zero :
      0 < length types → destination_of values (some (bytes types)) 0 w ≡ (thrown fault, w)
  unfolding destination_of destination_at get_bytes ◌>>=◌
  destination_of-zero h =
      rw (
        selected_index-zero types h,
        destination_at,
        get_elem?-none types (2 ^ 64 - 1) (omega arith),
      )
