-- ===== src/Filter/FromFile/Collected.antt =====
-- src/pef_action.cpp, `eventFilteringProcess`: over the lists that the service shows of a table, the loop
-- collects the filters of the table's rows that accept the event, in the table's order.
use platform_event_filter.Common.{ℕ, zero, suc, ◌+◌, ◌≤◌, ◌<◌, ◌≡◌, List, [], ◌++◌}
use platform_event_filter.Exec.Adds.{Adds}
use platform_event_filter.Bus.{Bus}
use platform_event_filter.Tables.{Row, group_rows}
use platform_event_filter.Filter.Rows.{Columns}
use platform_event_filter.Filter.Table.{
  event_filter_table_path, get_immediate_child_object_path_count,
}
use platform_event_filter.Filter.FromFile.{Shows}
use platform_event_filter.Filter.Groups.{Answers}

module _ (rows : List Row) where
  -- The lists from `k` on, `n` of them.
  joined : ℕ → ℕ → List Row
  joined zero k = []
  joined (suc n) k = group_rows 10 rows k ++ joined n (k + 1)

-- The service serves the table as lists: it has an object for each of the first `n`, which shows the list,
-- and there is no row after them.
pub record Serves (bus : Bus) (rows : List Row) (n : ℕ) (columns : ℕ → Columns) : Type 0 where
  pub at_most : n ≤ 4
  pub counted : Adds (get_immediate_child_object_path_count bus event_filter_table_path) n []
  pub shows : (k : ℕ) → k < n → Shows rows k (columns (k + 1))
  pub answers : (k : ℕ) → k < n → Answers bus (k + 1) (columns (k + 1))
  pub none_later : (k : ℕ) → n ≤ k → k < 4 → group_rows 10 rows k ≡ []
