-- ===== src/Policy.antt =====
-- include/pef_utils.hpp: `AlertPolicyTbl`; src/pef_action.cpp: `checkAlertPoicyTbl`.
pub mod Laws
use text.Mathlib.Text.{starts_with}
use platform_event_filter.Common.{
  ℕ, zero, suc, ◌+◌, ◌%◌, Bool, true, false, ◌==◌, ◌!=◌, if◌then◌else◌, Option, none, some, List,
  [], ◌∷◌, ◌++◌, String, ◌&◌, get_elem?, length,
}
use platform_event_filter.Common.Int.{ℤ, pos, negsuc}
use platform_event_filter.Exec.{Event, Exec, pure, catch_sdbus, or_throw, ◌>>=◌, ◌>>◌}
use platform_event_filter.Exec.Keeps.{Emits, Emits-pure, Emits-if, Emits-bind}
use platform_event_filter.Bus.{Bus, Column}
use platform_event_filter.Bus.Calls.{call, read, lookup, get_bytes, get_strings, call_rules}

-- The fields `AlertPolicyEntry` and `AlertStingkey` stay 0 and are left out.
pub record AlertPolicyTbl : Type 0 where
  pub alert_policy_group_num : ℕ
  pub enable_alert : ℕ
  pub policy_action : ℕ
  pub channel_no : ℕ
  pub destination_sel : ℕ
  pub event_specific_alert_str : String

-- The columns of one policy object; a column that the object lacks is `none`.
pub record PolicyColumns : Type 0 where
  pub group_nums : List ℕ
  pub enable_alert : Option (List ℕ)
  pub policy_action : Option (List ℕ)
  pub channel_no : Option (List ℕ)
  pub destination_sel : Option (List ℕ)
  pub event_specific_alert_str : Option (List String)

-- `vals[entryIndex]` where the column is there and long enough, else the field's initial value.
module _ {A : Type 0} where
  abbrev pub or_else : A → Option A → A
  or_else initial none = initial
  or_else initial (some v) = v

  unfoldable pub cell : A → Option (List A) → ℕ → A
  cell initial none idx = initial
  cell initial (some vals) idx = or_else initial (get_elem? vals idx)

abbrev pub not_one : Option ℕ → Bool
not_one none = true
not_one (some v) = v != 1

-- The row is skipped: the column of enable flags is there, and its cell is missing or not 1.
unfoldable pub is_disabled : Option (List ℕ) → ℕ → Bool
is_disabled none idx = false
is_disabled (some vals) idx = not_one (get_elem? vals idx)

unfoldable pub policy_row : PolicyColumns → ℕ → ℕ → AlertPolicyTbl
policy_row c group_num idx = record {
  alert_policy_group_num = group_num;
  enable_alert = cell 0 c.enable_alert idx;
  policy_action = cell 0 c.policy_action idx;
  channel_no = cell 0 c.channel_no idx;
  destination_sel = cell 0 c.destination_sel idx;
  event_specific_alert_str = cell "" c.event_specific_alert_str idx;
}

-- The rows from `idx` on, whose group numbers are left.
unfoldable pub policy_rows : ℕ → PolicyColumns → List ℕ → ℕ → List AlertPolicyTbl
policy_rows policy_no c [] idx = []
policy_rows policy_no c (group_num ∷ group_nums) idx =
    let rest = policy_rows policy_no c group_nums (idx + 1) in
    if is_disabled c.enable_alert idx
    then rest
    else if group_num != policy_no
    then rest
    else policy_row c group_num idx ∷ rest

-- `if (values.count(key)) std::get<…>(values.at(key))`
unfoldable pub optional : {A : Type 0} → (Column → Exec A) → Option Column → Exec (Option A)
optional get none = pure none
optional get (some column) = do v ← get column; pure (some v)

unfoldable pub read_policy_columns : List (String × Column) → Exec PolicyColumns
read_policy_columns values = do
  group_column ← or_throw (lookup "AlertPolicyGroupNum" values)
  group_nums ← get_bytes group_column
  enable ← optional get_bytes (lookup "EnableAlert" values)
  action ← optional get_bytes (lookup "PolicyAction" values)
  channel ← optional get_bytes (lookup "ChannelNo" values)
  destination ← optional get_bytes (lookup "DestinationSel" values)
  text ← optional get_strings (lookup "EventSpecificAlertStr" values)
  pure (record {
    group_nums = group_nums;
    enable_alert = enable;
    policy_action = action;
    channel_no = channel;
    destination_sel = destination;
    event_specific_alert_str = text;
  })

abbrev pub alert_policy_table_obj : String
alert_policy_table_obj = "/xyz/openbmc_project/PefAlertManager/AlertPolicyTable"

module _ (bus : Bus) where
  -- The `try` block for one policy object: an error reply is skipped.
  unfoldable pub policy_of : ℕ → String → Exec (List AlertPolicyTbl)
  policy_of policy_no policy_obj = do
    reply ← call (λ n. bus.get_all n policy_obj "xyz.openbmc_project.pef.AlertPolicyTable")
    if reply.is_error then pure [] else do
      values ← read reply
      columns ← read_policy_columns values
      pure (policy_rows policy_no columns columns.group_nums 0)

  -- A path that is not below the table is passed over; a D-Bus exception skips the object.
  unfoldable pub policies_at : ℕ → String → Exec (List AlertPolicyTbl)
  policies_at policy_no policy_obj =
      if starts_with policy_obj (alert_policy_table_obj & "/")
      then catch_sdbus (policy_of policy_no policy_obj) (pure [])
      else pure []

  unfoldable pub policies_of : ℕ → List String → Exec (List AlertPolicyTbl)
  policies_of policy_no [] = pure []
  policies_of policy_no (policy_obj ∷ rest) = do
    here ← policies_at policy_no policy_obj
    later ← policies_of policy_no rest
    pure (here ++ later)

  -- The policy number is an `int`, which the caller masks with 0x0F, and is compared as a byte.
  unfoldable pub check_alert_policy_tbl : ℕ → Exec (List AlertPolicyTbl)
  check_alert_policy_tbl policy_no = if policy_no == 0 then pure [] else do
    policy_objs ←
        catch_sdbus (do reply ← call (λ n. bus.subtree_paths n alert_policy_table_obj); read reply)
          (pure [])
    policies_of (policy_no % 256) policy_objs

  module _ {P : Event → Type 0} where
    Emits-optional :
        {A : Type 0} (get : Column → Exec A) (o : Option Column)
        → ((c : Column) → Emits P (get c))
        → Emits P (optional get o)
    unfolding optional
    Emits-optional get none h = Emits-pure none
    Emits-optional get (some c) h = Emits-bind (get c) _ (h c) (λ v. Emits-pure (some v))

    Emits-read_policy_columns :
        (values : List (String × Column)) → Emits P (read_policy_columns values)
    unfolding read_policy_columns
    Emits-read_policy_columns values = search (call_rules, Emits-optional) depth 20

    Emits-policy_of : (policy_no : ℕ) (obj : String) → Emits P (policy_of policy_no obj)
    unfolding policy_of
    Emits-policy_of policy_no obj = search (call_rules, Emits-read_policy_columns) depth 10

    Emits-policies_at : (policy_no : ℕ) (obj : String) → Emits P (policies_at policy_no obj)
    unfolding policies_at
    Emits-policies_at policy_no obj =
        Emits-if (starts_with obj (alert_policy_table_obj & "/")) _ _
          (search (call_rules, Emits-policy_of)) (Emits-pure [])

    Emits-policies_of : (policy_no : ℕ) (objs : List String) → Emits P (policies_of policy_no objs)
    unfolding policies_of
    Emits-policies_of policy_no [] = Emits-pure []
    Emits-policies_of policy_no (obj ∷ rest) =
        Emits-bind (policies_at policy_no obj) _ (Emits-policies_at policy_no obj) λ here.
          Emits-bind (policies_of policy_no rest) _ (Emits-policies_of policy_no rest)
            λ later. Emits-pure (here ++ later)

    pub Emits-check_alert_policy_tbl : (policy_no : ℕ) → Emits P (check_alert_policy_tbl policy_no)
    unfolding check_alert_policy_tbl
    Emits-check_alert_policy_tbl policy_no = search (call_rules, Emits-policies_of) depth 10
