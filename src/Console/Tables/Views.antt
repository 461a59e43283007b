-- ===== src/Console/Tables/Views.antt =====
-- web/src/components/job-tables.tsx: the tables of jobs and of delayed jobs as a whole, and the jobs of a
-- page in a bulk action.
pub mod Page
use forgequeue.Common.{ℕ, Bool, true, false, Option, none, some, List, [], ◌∷◌, Text, txt, TextSet}
use forgequeue.Types.{Job, DelayedJob}
use forgequeue.DataTable.{Table, Sort, open_table, select_page, view, sorted_rows}
use forgequeue.DataTable.Markup.{Head, TableBody, heads, head_box, table_body, empty_state}
use forgequeue.Console.{Control, Cell, Context}
use forgequeue.Console.Tables.{
  jobs_bar, jobs_columns, jobs_default_sort, delayed_columns, delayed_default_sort,
}
use forgequeue.Console.Bulk.{BulkPage}

-- The bar, the table under it, and what stands there without rows.
pub record TableView : Type 0 where
  pub bar : List Control
  pub head_check : Option Bool
  pub heads_shown : List Head
  pub body : TableBody Cell
  pub empty : Option (Text × Option Text)

-- `pageSizes` is left at its default.
abbrev pub default_sizes : List ℕ
default_sizes = 25 ∷ 50 ∷ 100 ∷ []

unfoldable pub open_jobs : Table
open_jobs = open_table (some jobs_default_sort) default_sizes

unfoldable pub open_delayed : Table
open_delayed = open_table (some delayed_default_sort) default_sizes

-- `JobsTable`
unfoldable pub jobs_view : Context → Bool → Option (List Job) → TextSet → Table → TableView
jobs_view ctx show_queue jobs sel t =
    let columns = jobs_columns ctx show_queue in
    record {
      bar = jobs_bar ctx.session sel;
      head_check = head_box (λ (j : Job). j.id) columns jobs true (some sel) t;
      heads_shown = heads columns t;
      body = table_body (λ (j : Job). j.id) columns jobs true (some sel) t;
      empty = empty_state (some (txt "No jobs")) none jobs;
    }

-- `DelayedTable`, whose rows cannot be selected
unfoldable pub delayed_view : Context → Bool → Option (List DelayedJob) → Table → TableView
delayed_view ctx show_queue rows t =
    let columns = delayed_columns ctx show_queue in
    record {
      bar = [];
      head_check = head_box (λ (d : DelayedJob). d.job_id) columns rows false none t;
      heads_shown = heads columns t;
      body = table_body (λ (d : DelayedJob). d.job_id) columns rows false none t;
      empty = empty_state (some (txt "No delayed jobs")) none rows;
    }

-- The jobs of the page that is shown.
unfoldable pub shown_jobs : Context → Bool → List Job → Table → List Job
shown_jobs ctx show_queue jobs t =
    view t (sorted_rows (some jobs) (jobs_columns ctx show_queue) t.sort)

-- The box of the head, which selects all jobs of the page or none of them.
unfoldable pub check_page : Context → Bool → List Job → Table → Bool → BulkPage → BulkPage
unfolding shown_jobs
check_page ctx show_queue jobs t v p = record p {
  sel = select_page (λ (j : Job). j.id) v (shown_jobs ctx show_queue jobs t) p.sel;
}
