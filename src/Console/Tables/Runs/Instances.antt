-- ===== src/Console/Tables/Runs/Instances.antt =====
-- web/src/components/job-tables.tsx and web/src/routes/dlq.tsx: the two tables with actions over a
-- selection.
use forgequeue.Common.{Bool, true, false}
use forgequeue.Types.{Job, DlqItem}
use forgequeue.Stores.{jobs_write, dlq_write}
use forgequeue.Console.Bulk.{BulkAction, retry, delete, retry_dead, delete_dead}
use forgequeue.Console.Tables.{jobs_columns, jobs_default_sort, is_retryable}
use forgequeue.Console.DeadLetters.{dlq_columns, dlq_default_sort}
use forgequeue.Console.Tables.Runs.{BulkTable}

-- Both actions of `JobsTable` are in the bar, and `Retry` in the rows of jobs that can be retried.
unfoldable pub jobs_in_bar : BulkAction → Bool
jobs_in_bar retry = true
jobs_in_bar delete = true
jobs_in_bar retry_dead = false
jobs_in_bar delete_dead = false

unfoldable pub jobs_in_row : BulkAction → Job → Bool
unfolding is_retryable
jobs_in_row retry j = is_retryable j.status
jobs_in_row delete j = false
jobs_in_row retry_dead j = false
jobs_in_row delete_dead j = false

-- `DlqPage` has its actions in the bar and in each row.
unfoldable pub dead_in_bar : BulkAction → Bool
dead_in_bar retry = false
dead_in_bar delete = false
dead_in_bar retry_dead = true
dead_in_bar delete_dead = true

abbrev pub jobs_bulk : Bool → BulkTable
jobs_bulk show_queue = record {
  Item = Job;
  id_of = λ j. j.id;
  columns = λ ctx. jobs_columns ctx show_queue;
  default_sort = jobs_default_sort;
  write = jobs_write;
  in_bar = jobs_in_bar;
  in_row = jobs_in_row;
}

abbrev pub dead_bulk : BulkTable
dead_bulk = record {
  Item = DlqItem;
  id_of = λ d. d.job_id;
  columns = dlq_columns;
  default_sort = dlq_default_sort;
  write = dlq_write;
  in_bar = dead_in_bar;
  in_row = λ action d. dead_in_bar action;
}
