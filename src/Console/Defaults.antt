-- ===== src/Console/Defaults.antt =====
-- web/src/components/job-tables.tsx and web/src/routes with data-table.tsx: how the tables are sorted, by
-- default and after a click on a header.
use forgequeue.Common.{
  num, ℕ, ◌≡◌, refl, Bool, true, false, some, Text, List, [], ◌∷◌, text_eq, Bool-cases, inl, inr,
  All,
}
use forgequeue.Types.{Job, DelayedJob, QueueSummary, DlqItem}
use forgequeue.Stores.{jobs_write, delayed_write}
use forgequeue.DataTable.{
  by_text, by_number, asc, desc, Column, find_column, active_sorter, sorted_rows, open_table,
}
use forgequeue.DataTable.Order.{HasKey, IsOrdered, sorted_rows-IsOrdered}
use forgequeue.Console.QueueTables.{queues_columns, overview_columns, queues_default_sort}
use forgequeue.Console.DeadLetters.{dlq_columns, dlq_default_sort}
use forgequeue.Console.Workers.{workers_columns}
use forgequeue.Console.{holds, Context}
use forgequeue.Console.Tables.{
  jobs_columns, delayed_columns, jobs_default_sort, delayed_default_sort,
}

-- A click on a column's header sorts by that column's sorter: no column before it has its key.
abbrev pub SortsItself {ℓ κ} :
    {Row : Type ℓ} {Cell : Type κ} → List (Column Row Cell) → Column Row Cell → Type ℓ
SortsItself columns c = active_sorter columns c.key ≡ c.sort

module _ (ctx : Context) where
  job_headers_sort :
      (show_queue : Bool)
      → All (SortsItself (jobs_columns ctx show_queue)) (jobs_columns ctx show_queue)
        × All (SortsItself (delayed_columns ctx show_queue)) (delayed_columns ctx show_queue)
  unfolding jobs_columns delayed_columns active_sorter find_column text_eq
  job_headers_sort true = (
    elim (Bool-cases (holds ctx.session jobs_write)) [
      | inl e ↦
          rw e
            (refl, (refl, (refl, (refl, (refl, (refl, (refl, (refl, (refl, (rw e refl, tt))))))))))
      | inr e ↦ rw e (refl, (refl, (refl, (refl, (refl, (refl, (refl, (refl, (refl, tt)))))))))
    ],
    elim (Bool-cases (holds ctx.session delayed_write)) [
      | inl e ↦ rw e (refl, (refl, (refl, (refl, (refl, (refl, (refl, (rw e refl, tt))))))))
      | inr e ↦ rw e (refl, (refl, (refl, (refl, (refl, (refl, (refl, tt)))))))
    ],
  )
  job_headers_sort false = (
    elim (Bool-cases (holds ctx.session jobs_write)) [
      | inl e ↦ rw e (refl, (refl, (refl, (refl, (refl, (refl, (refl, (refl, (rw e refl, tt)))))))))
      | inr e ↦ rw e (refl, (refl, (refl, (refl, (refl, (refl, (refl, (refl, tt))))))))
    ],
    elim (Bool-cases (holds ctx.session delayed_write)) [
      | inl e ↦ rw e (refl, (refl, (refl, (refl, (refl, (refl, (rw e refl, tt)))))))
      | inr e ↦ rw e (refl, (refl, (refl, (refl, (refl, (refl, tt))))))
    ],
  )

  page_headers_sort :
      All (SortsItself (queues_columns ctx)) (queues_columns ctx)
      × All (SortsItself (overview_columns ctx)) (overview_columns ctx)
      × All (SortsItself (dlq_columns ctx)) (dlq_columns ctx)
      × All (SortsItself (workers_columns ctx)) (workers_columns ctx)
  unfolding queues_columns overview_columns dlq_columns workers_columns active_sorter find_column
      text_eq
  page_headers_sort = (
    (refl, (refl, (refl, (refl, (refl, (refl, (refl, (refl, (refl, (refl, tt)))))))))),
    (refl, (refl, (refl, (refl, (refl, (refl, (refl, (refl, (refl, tt))))))))),
    (refl, (refl, (refl, (refl, (refl, (refl, (refl, (refl, tt)))))))),
    (refl, (refl, (refl, (refl, (refl, (refl, (refl, (refl, (refl, tt))))))))),
  )

  -- In the tables of jobs, delayed jobs, queues, the overview's queues, the dead letter queue and workers,
  -- each column is the one that its key finds, with or without the column of queues and whatever the
  -- session may do: so a click on its header sorts by its own sorter, or not at all if it has none.
  pub headers_sort :
      (show_queue : Bool)
      → (All (SortsItself (jobs_columns ctx show_queue)) (jobs_columns ctx show_queue)
          × All (SortsItself (delayed_columns ctx show_queue)) (delayed_columns ctx show_queue))
        × (All (SortsItself (queues_columns ctx)) (queues_columns ctx)
            × All (SortsItself (overview_columns ctx)) (overview_columns ctx)
            × All (SortsItself (dlq_columns ctx)) (dlq_columns ctx)
            × All (SortsItself (workers_columns ctx)) (workers_columns ctx))
  headers_sort show_queue = (job_headers_sort show_queue, page_headers_sort)

  All-HasKey {ℓ} : {Row : Type ℓ} (f : Row → Text) (rows : List Row) → All (HasKey (by_text f)) rows
  All-HasKey f [] = tt
  All-HasKey f (a ∷ rows) = (tt, All-HasKey f rows)

  job_tables_open :
      (show_queue : Bool) (page_sizes : List ℕ) (jobs : List Job) (rows : List DelayedJob)
      → IsOrdered (by_text (λ j. j.created_at)) desc (
          sorted_rows
            (some jobs)
            (jobs_columns ctx show_queue)
            (open_table (some jobs_default_sort) page_sizes).sort)
        × IsOrdered (by_text (λ d. d.scheduled_for)) asc (
            sorted_rows
              (some rows)
              (delayed_columns ctx show_queue)
              (open_table (some delayed_default_sort) page_sizes).sort)
  unfolding open_table active_sorter find_column jobs_columns delayed_columns text_eq
  job_tables_open true page_sizes jobs rows = (
    sorted_rows-IsOrdered (jobs_columns ctx true) jobs jobs_default_sort refl
        (All-HasKey (λ j. j.created_at) jobs),
    sorted_rows-IsOrdered (delayed_columns ctx true) rows delayed_default_sort refl
        (All-HasKey (λ d. d.scheduled_for) rows),
  )
  job_tables_open false page_sizes jobs rows = (
    sorted_rows-IsOrdered (jobs_columns ctx false) jobs jobs_default_sort refl
        (All-HasKey (λ j. j.created_at) jobs),
    sorted_rows-IsOrdered (delayed_columns ctx false) rows delayed_default_sort refl
        (All-HasKey (λ d. d.scheduled_for) rows),
  )

  All-counts {ℓ} :
      {Row : Type ℓ} (f : Row → ℕ) (rows : List Row)
      → All (HasKey (by_number (λ r. num (f r)))) rows
  All-counts f [] = tt
  All-counts f (a ∷ rows) = (refl, All-counts f rows)

  page_tables_open :
      (page_sizes : List ℕ) (queues : List QueueSummary) (dead : List DlqItem)
      → IsOrdered (by_number (λ q. num q.pending)) desc (
          sorted_rows
            (some queues)
            (queues_columns ctx)
            (open_table (some queues_default_sort) page_sizes).sort)
        × IsOrdered (by_number (λ q. num q.pending)) desc (
            sorted_rows
              (some queues)
              (overview_columns ctx)
              (open_table (some queues_default_sort) page_sizes).sort)
        × IsOrdered (by_text (λ d. d.failed_at)) desc (
            sorted_rows
              (some dead)
              (dlq_columns ctx)
              (open_table (some dlq_default_sort) page_sizes).sort)
  unfolding open_table active_sorter find_column queues_columns overview_columns dlq_columns text_eq
  page_tables_open page_sizes queues dead = (
    sorted_rows-IsOrdered (queues_columns ctx) queues queues_default_sort refl
        (All-counts (λ q. q.pending) queues),
    sorted_rows-IsOrdered (overview_columns ctx) queues queues_default_sort refl
        (All-counts (λ q. q.pending) queues),
    sorted_rows-IsOrdered (dlq_columns ctx) dead dlq_default_sort refl
        (All-HasKey (λ d. d.failed_at) dead),
  )

  -- When it opens, the table of jobs shows the job created last first, that of delayed jobs the one that
  -- is due first, both tables of queues the longest queue first, and that of the dead letter queue the
  -- last failure first, times being compared as texts; whatever the page sizes and the session are.
  pub open_table-IsOrdered :
      (show_queue : Bool) (page_sizes : List ℕ) (jobs : List Job) (rows : List DelayedJob)
      (queues : List QueueSummary) (dead : List DlqItem)
      → (IsOrdered (by_text (λ j. j.created_at)) desc (
            sorted_rows
              (some jobs)
              (jobs_columns ctx show_queue)
              (open_table (some jobs_default_sort) page_sizes).sort)
          × IsOrdered (by_text (λ d. d.scheduled_for)) asc (
              sorted_rows
                (some rows)
                (delayed_columns ctx show_queue)
                (open_table (some delayed_default_sort) page_sizes).sort))
        × (IsOrdered (by_number (λ q. num q.pending)) desc (
              sorted_rows
                (some queues)
                (queues_columns ctx)
                (open_table (some queues_default_sort) page_sizes).sort)
            × IsOrdered (by_number (λ q. num q.pending)) desc (
                sorted_rows
                  (some queues)
                  (overview_columns ctx)
                  (open_table (some queues_default_sort) page_sizes).sort)
            × IsOrdered (by_text (λ d. d.failed_at)) desc (
                sorted_rows
                  (some dead)
                  (dlq_columns ctx)
                  (open_table (some dlq_default_sort) page_sizes).sort))
  open_table-IsOrdered show_queue page_sizes jobs rows queues dead =
      (job_tables_open show_queue page_sizes jobs rows, page_tables_open page_sizes queues dead)
