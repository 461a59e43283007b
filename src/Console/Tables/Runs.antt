-- ===== src/Console/Tables/Runs.antt =====
-- web/src/components/data-table.tsx under web/src/components/job-tables.tsx and web/src/routes/dlq.tsx: a
-- table with actions over its selection, while it is mounted. The page renders it anew with other rows,
-- another session or at a later time; its user checks boxes, sorts, turns pages, and acts on the selection
-- or on one row.
pub mod Instances
pub mod Chosen
pub mod Causes
use forgequeue.Common.{
  ℕ, Bool, false, not, any, ◌&&◌, Option, none, some, List, [], ◌∷◌, ◌++◌, map, Text, TextSet, has,
  text_eq, ◌==◌, Number, length, ltb, if◌then◌else◌,
}
use forgequeue.Stores.{Session, Permission}
use forgequeue.Client.{World, Outgoing, Reply}
use forgequeue.Queries.{Effects}
use forgequeue.DataTable.{
  Column, Sort, Table, open_table, has_footer, sorted_rows, view, active_sorter, click_header,
  change_size, go_back, go_on, toggle, select_page,
}
use forgequeue.Console.{Cell, Context, holds}
use forgequeue.Console.Bulk.{BulkAction, BulkPage, click_bulk, settle_bulk}
use forgequeue.Console.Tables.Views.{default_sizes}

-- A page with a table whose rows can be selected, and actions over the selection: its rows and columns,
-- the permission that `Can` asks for, the actions of the bar, and the buttons of a row.
pub record BulkTable : Type 1 where
  pub Item : Type 0
  pub id_of : Item → Text
  pub columns : Context → List (Column Item Cell)
  pub default_sort : Sort
  pub write : Permission
  pub in_bar : BulkAction → Bool
  pub in_row : BulkAction → Item → Bool

-- What the table was rendered with, and the state of `DataTable`.
pub record ShownTable (Row : Type 0) : Type 0 where
  pub ctx : Context
  pub rows : Option (List Row)
  pub table : Table

pub record TablePage (Row : Type 0) : Type 0 where
  pub shown : ShownTable Row
  pub page : BulkPage
  -- all requests of the actions so far
  pub asked : List Outgoing

-- A rendering, with the rows that the filters of the page leave; a click on the box of a row, on the one of
-- the head, on the head of a column, on a size, on an arrow of the footer, on `Clear`, on an action of the
-- bar (for one that is confirmed, on its confirmation), or on a button of a row; and the replies to an
-- action.
pub data TableEvent (Row : Type 0) : Type 0 where
  rendered : Context → Option (List Row) → TableEvent Row
  tick : Text → TableEvent Row
  tick_page : Bool → TableEvent Row
  sort_by : Text → TableEvent Row
  resize : ℕ → TableEvent Row
  back on clear : TableEvent Row
  act : BulkAction → ℕ → TableEvent Row
  act_row : BulkAction → Text → ℕ → TableEvent Row
  settle : BulkAction → List Text → List (ℕ × Reply) → TableEvent Row

module _ (T : BulkTable) where
  abbrev pub Event : Type 0
  Event = TableEvent T.Item

  abbrev pub Shows : Type 0
  Shows = ShownTable T.Item

  -- `BulkBar` is there for a selection, and `Can` shows the buttons in it.
  unfoldable pub is_offered : BulkAction → Option Session → TextSet → Bool
  is_offered action session sel = T.in_bar action && ltb 0 (length sel) && holds session T.write

  -- `sorted` and `view` of `DataTable`
  unfoldable pub rows_sorted : Shows → List T.Item
  rows_sorted v = sorted_rows v.rows (T.columns v.ctx) v.table.sort

  unfoldable pub rows_on_page : Shows → List T.Item
  unfolding rows_sorted
  rows_on_page v = view v.table (rows_sorted v)

  abbrev pub ids_on_page : Shows → List Text
  ids_on_page v = map T.id_of (rows_on_page v)

  -- Whether a row of the page with this identifier has the button, which takes the permission as well.
  unfoldable pub offers_row : BulkAction → Text → Shows → Bool
  unfolding rows_on_page
  offers_row action id v =
      holds v.ctx.session T.write
      && any (λ (r : T.Item). text_eq (T.id_of r) id && T.in_row action r) (rows_on_page v)

  -- The footer, with the sizes and the arrows.
  unfoldable pub footer : Shows → Bool
  footer v = has_footer default_sizes (elim v.rows [ none ↦ none | some rows ↦ some (length rows) ])

  -- `setSort`, `setSize` and `setPage`; only a column with a sorter has a button in its head, and only
  -- the sizes of the footer can be chosen.
  unfoldable pub show_step : Event → Shows → Shows
  unfolding rows_sorted footer
  show_step (rendered ctx rows) v = record { ctx = ctx; rows = rows; table = v.table }
  show_step (sort_by key) v = elim (active_sorter (T.columns v.ctx) key) [
    | none ↦ v
    | some f ↦ record v { table = click_header v.table key }
  ]
  show_step (resize n) v =
      if footer v && any (◌==◌ n) default_sizes
      then record v { table = change_size v.table n }
      else v
  show_step back v =
      if footer v then record v { table = go_back v.table (length (rows_sorted v)) } else v
  show_step on v =
      if footer v then record v { table = go_on v.table (length (rows_sorted v)) } else v
  show_step (tick id) v = v
  show_step (tick_page b) v = v
  show_step clear v = v
  show_step (act action now) v = v
  show_step (act_row action id now) v = v
  show_step (settle action ids replies) v = v

  module _ (date_parse : Text → Number) (env_base : Option Text) (uri_error : Text) where
    -- `sel` with `setSel`, and the actions; a button of a row leaves the selection. A row that is not on the page has no box.
    unfoldable pub page_step : Event → Shows → BulkPage → BulkPage × List Outgoing
    unfolding rows_on_page is_offered offers_row
    page_step (tick id) v p =
        (if has (ids_on_page v) id then record p { sel = toggle p.sel id } else p, [])
    page_step (tick_page b) v p =
        (record p { sel = select_page T.id_of b (rows_on_page v) p.sel }, [])
    page_step clear v p = (record p { sel = [] }, [])
    page_step (act action now) v p =
        let (q, whole) = click_bulk date_parse env_base uri_error now action p in
        if is_offered action v.ctx.session p.sel then (q, q.sent) else (p, [])
    page_step (act_row action id now) v p =
        let (q, whole) =
          click_bulk date_parse env_base uri_error now action (record p { sel = id ∷ [] }) in
        if offers_row action id v then (record q { sel = p.sel }, q.sent) else (p, [])
    page_step (settle action ids replies) v p =
        (settle_bulk date_parse env_base action ids replies p, [])
    page_step (rendered ctx rows) v p = (p, [])
    page_step (sort_by key) v p = (p, [])
    page_step (resize n) v p = (p, [])
    page_step back v p = (p, [])
    page_step on v p = (p, [])

    unfoldable pub table_step : Event → TablePage T.Item → TablePage T.Item
    unfolding show_step page_step
    table_step e p =
        let (q, sent) = page_step e p.shown p.page in
        record { shown = show_step e p.shown; page = q; asked = p.asked ++ sent }

    -- The events, the latest one first.
    unfoldable pub table_run : List Event → TablePage T.Item → TablePage T.Item
    unfolding table_step
    table_run [] p = p
    table_run (e ∷ es) p = table_step e (table_run es p)

  -- The page when it is mounted.
  unfoldable pub mounted_table : Context → Option (List T.Item) → World → Effects → TablePage T.Item
  mounted_table ctx rows w effects = record {
    shown = record {
      ctx = ctx;
      rows = rows;
      table = open_table (some T.default_sort) default_sizes;
    };
    page = record { sel = []; world = w; sent = []; effects = effects };
    asked = [];
  }
