-- ===== src/Console/QueueTables.antt =====
-- web/src/routes/queues.index.tsx and web/src/routes/index.tsx: the tables of queues, and that of
-- recent failures.
use forgequeue.Common.{ℕ, true, false, none, some, List, [], ◌∷◌, Text, txt, show_nat, num}
use forgequeue.Types.{QueueSummary, queue_status_text, DlqItem}
use forgequeue.DataTable.{Column, by_text, by_number, Sort, desc}
use forgequeue.Format.{fmt_rate}
use forgequeue.Console.{Cell, plain, Context, column}
use forgequeue.Console.Tables.{job_id_cell, or_blank}
use forgequeue.Console.Pages.{queue_row_actions, overview_row_actions}

module _ (ctx : Context) where
  -- A column of a count of the queue.
  abbrev count_column : Text → Text → (QueueSummary → ℕ) → (ℕ → Text) → Column QueueSummary Cell
  count_column key header f show =
      column key header (λ q. plain (show (f q))) (some (by_number (λ q. num (f q)))) true

  -- The columns of the page of queues.
  unfoldable pub queues_columns : List (Column QueueSummary Cell)
  queues_columns =
      column (txt "name") (txt "Queue") (λ q. plain q.name) (some (by_text (λ q. q.name))) false
      ∷ count_column (txt "pending") (txt "Pending") (λ q. q.pending) ctx.fmt_num
      ∷ count_column (txt "processing") (txt "Processing") (λ q. q.processing) ctx.fmt_num
      ∷ count_column (txt "delayed") (txt "Delayed") (λ q. q.delayed) ctx.fmt_num
      ∷ count_column (txt "failed") (txt "Failed") (λ q. q.failed) ctx.fmt_num
      ∷ count_column (txt "workers") (txt "Workers") (λ q. q.workers) show_nat
      ∷ count_column (txt "rate") (txt "Rate") (λ q. q.rate_per_min) fmt_rate
      ∷ column (txt "oldest") (txt "Oldest") (λ q. plain (ctx.time_ago q.oldest_job_at))
          (some (by_text (λ q. or_blank q.oldest_job_at))) false
      ∷ column (txt "status") (txt "Status") (λ q. plain (queue_status_text q.status))
          (some (by_text (λ q. queue_status_text q.status))) false
      ∷ column (txt "actions") (txt "Actions")
          (λ q. record { shows = []; controls = queue_row_actions q }) none true
      ∷ []

  -- The columns of the table of queues of the overview.
  unfoldable pub overview_columns : List (Column QueueSummary Cell)
  overview_columns =
      column (txt "name") (txt "Queue") (λ q. plain q.name) (some (by_text (λ q. q.name))) false
      ∷ count_column (txt "pending") (txt "Depth") (λ q. q.pending) ctx.fmt_num
      ∷ count_column (txt "processing") (txt "Processing") (λ q. q.processing) ctx.fmt_num
      ∷ count_column (txt "delayed") (txt "Delayed") (λ q. q.delayed) ctx.fmt_num
      ∷ count_column (txt "failed") (txt "Failed") (λ q. q.failed) ctx.fmt_num
      ∷ count_column (txt "rate") (txt "Rate") (λ q. q.rate_per_min) fmt_rate
      ∷ column (txt "oldest") (txt "Oldest") (λ q. plain (ctx.time_ago q.oldest_job_at)) none false
      ∷ column (txt "status") (txt "Status") (λ q. plain (queue_status_text q.status)) none false
      ∷ column (txt "a") [] (λ q. record { shows = []; controls = overview_row_actions q }) none
          true
      ∷ []

  -- The columns of the table of recent failures.
  unfoldable pub failures_columns : List (Column DlqItem Cell)
  failures_columns =
      column (txt "id") (txt "Job ID") (λ d. job_id_cell d.job_id) none false
      ∷ column (txt "q") (txt "Queue") (λ d. plain d.original_queue) none false
      ∷ column (txt "e") (txt "Error") (λ d. plain d.last_error) none false
      ∷ column (txt "att") (txt "Attempts") (λ d. plain (show_nat d.attempts)) none true
      ∷ column (txt "f") (txt "Failed at") (λ d. plain (ctx.time_ago (some d.failed_at))) none false
      ∷ []

-- the `defaultSort` of both tables of queues
abbrev pub queues_default_sort : Sort
queues_default_sort = record { key = txt "pending"; dir = desc }
