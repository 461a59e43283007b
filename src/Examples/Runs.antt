-- ===== src/Examples/Runs.antt =====
-- Runs of the two tables: a job is selected, it leaves the table with the next rendering, and the action goes
-- to it all the same; and a dead letter is deleted while a filter hides it.
use forgequeue.Common.{
  ◌≡◌, refl, false, true, none, some, List, [], ◌∷◌, Text, txt, has, add, delete, text_lt,
  IsDistinct, text_eq, All, length,
}
use forgequeue.Console.Bulk.{
  BulkAction, retry_dead, delete_dead, click_bulk, bulk_call, send_all, send_call,
}
use forgequeue.DataTable.{open_table, view, sorted_rows, toggle, select_page}
use forgequeue.Console.Tables.{jobs_columns}
use forgequeue.Console.{holds}
use forgequeue.Queries.{bulk_calls}
use forgequeue.Stores.Auth.{includes_permission}
use forgequeue.Endpoints.{request_of}
use forgequeue.Endpoints.Encoding.{encode, is_unreserved}
use forgequeue.Console.Tables.Runs.{
  TablePage, TableEvent, act_row, rendered, tick, tick_page, sort_by, act, mounted_table, table_run,
}
use forgequeue.Console.Tables.Runs.Chosen.{chosen, table_run-Implements}
use forgequeue.Console.Tables.Runs.Causes.{IsCaused, table_run-IsCaused}
use forgequeue.Examples.Bulks.{no_effects}
use forgequeue.Examples.Pages.{dead, context, job, late}
use forgequeue.Examples.Requests.{world}
use forgequeue.Examples.Stores.{date_parse, alice}
use forgequeue.Types.{Job, DlqItem}
use forgequeue.Stores.{dlq_write}
use forgequeue.Console.{Context}
use forgequeue.Console.DeadLetters.{dlq_columns}
use forgequeue.Console.Tables.Runs.Instances.{jobs_bulk, dead_bulk, jobs_in_bar, dead_in_bar}

abbrev mounted_page : TablePage Job
mounted_page = mounted_table (jobs_bulk true) context (some (job ∷ late ∷ [])) world no_effects

-- The latest event first.
abbrev events : List (TableEvent Job)
events =
    act BulkAction.delete 300
    ∷ rendered context (some (late ∷ []))
    ∷ sort_by (txt "task")
    ∷ tick (txt "j2")
    ∷ tick_page true
    ∷ []

table_run-Implements_example :
    let q = table_run (jobs_bulk true) date_parse none (txt "URI malformed") events mounted_page in
    ((x : Text)
      → has q.page.sel x
        ≡ chosen (jobs_bulk true) events mounted_page.shown (has mounted_page.page.sel) x)
    × IsDistinct q.page.sel
unfolding mounted_table
table_run-Implements_example =
    table_run-Implements (jobs_bulk true) date_parse none (txt "URI malformed") events mounted_page
      tt

-- The job `j1`, which is not in the table any more, gets its request.
run_asked_one :
    length
      (table_run (jobs_bulk true) date_parse none (txt "URI malformed") events mounted_page).asked
    ≡ 1
unfolding table_run mounted_table view sorted_rows jobs_columns has text_eq text_lt toggle
    select_page add delete holds includes_permission click_bulk bulk_calls bulk_call send_all
    send_call request_of encode is_unreserved open_table jobs_in_bar
run_asked_one = refl

-- A session that may write the dead letters.
abbrev writer : Context
writer = record context {
  session = some (record alice { user = record alice.user { permissions = dlq_write ∷ [] } });
}

abbrev dead_events : List (TableEvent DlqItem)
dead_events =
    act_row retry_dead (txt "j1") 320
    ∷ rendered writer (some (dead ∷ []))
    ∷ act delete_dead 300
    ∷ rendered writer (some [])
    ∷ tick (txt "j1")
    ∷ []

table_run-IsCaused_example :
    let p = mounted_table dead_bulk writer (some (dead ∷ [])) world no_effects in
    All
      (λ out. IsCaused dead_bulk p.shown (λ x. false) out dead_events)
      (table_run dead_bulk date_parse none (txt "URI malformed") dead_events p).asked
table_run-IsCaused_example =
    table_run-IsCaused dead_bulk date_parse none (txt "URI malformed") dead_events writer
      (some (dead ∷ [])) world no_effects

-- Both actions are asked for.
dead_asked_two :
    let p = mounted_table dead_bulk writer (some (dead ∷ [])) world no_effects in
    length (table_run dead_bulk date_parse none (txt "URI malformed") dead_events p).asked ≡ 2
unfolding table_run mounted_table view sorted_rows dlq_columns has text_eq text_lt toggle
    select_page add delete holds includes_permission click_bulk bulk_calls bulk_call send_all
    send_call request_of encode is_unreserved open_table dead_in_bar
dead_asked_two = refl
