-- ===== src/Console/Pages.antt =====
-- web/src/routes: the controls of the pages of queues, of one queue, of one job, of the dead letter
-- queue and of the overview, and the rows that their filters leave.
use forgequeue.Common.{
  ℕ, ◌-◌, ◌==◌, Bool, true, false, ◌&&◌, ◌||◌, Option, none, some, List, [], ◌∷◌, ◌++◌, map, Text,
  txt, TextSet, length, is_empty, text_eq, includes, filter_by, if◌then◌else◌, any, num, num_lt,
}
use forgequeue.Types.{
  failed, retrying, Job, QueueStatus, paused, QueueSummary, queue_status_text, DlqItem, DelayedJob,
  Worker, WorkerStatus, idle, busy,
}
use forgequeue.Stores.{Session, queues_write, jobs_write, dlq_write}
use forgequeue.Endpoints.{
  pause_queue, resume_queue, purge_queue, retry_job, requeue_job, delete_job, retry_dlq, delete_dlq,
  purge_dlq,
}
use forgequeue.Console.{mutate, Control, button, confirmed, can, Context}
use forgequeue.Console.Tables.{bulk_bar}

-- `status === "paused"`
unfoldable pub is_paused : QueueStatus → Bool
is_paused paused = true
is_paused _ = false

-- queues.$queueName.tsx: the actions of the head, once the queue is there
unfoldable pub queue_actions : Option Session → Text → Option QueueSummary → List Control
queue_actions session name none = []
queue_actions session name (some q) = can session queues_write (
    (if is_paused q.status
      then button (txt "Resume") false (mutate false (resume_queue name ∷ []))
      else confirmed (txt "Pause") false none (mutate false (pause_queue name ∷ [])))
    ∷ confirmed (txt "Purge") false (some name) (mutate false (purge_queue name ∷ []))
    ∷ [])

-- queues.$queueName.tsx: `failures`
unfoldable pub failed_jobs : List Job → List Job
failed_jobs jobs =
    filter_by (λ j. elim j.status [ failed ↦ true | retrying ↦ true | _ ↦ false ]) jobs

-- queues.$queueName.tsx: the delayed jobs of the queue
unfoldable pub delayed_of_queue : Text → List DelayedJob → List DelayedJob
delayed_of_queue name rows = filter_by (λ d. text_eq d.queue name) rows

-- queues.index.tsx: `rows`
unfoldable pub filter_queues : Text → Text → List QueueSummary → List QueueSummary
filter_queues q status rows =
    filter_by
      (λ x. includes x.name q && (is_empty status || text_eq (queue_status_text x.status) status))
      rows

-- queues.index.tsx: the cell "Actions" of a row
unfoldable pub queue_row_actions : QueueSummary → List Control
queue_row_actions q =
    if is_paused q.status
    then button (txt "Resume") false (mutate false (resume_queue q.name ∷ [])) ∷ []
    else confirmed (txt "Pause") false none (mutate false (pause_queue q.name ∷ [])) ∷ []

-- index.tsx: the last cell of a row of the table of queues
unfoldable pub overview_row_actions : QueueSummary → List Control
overview_row_actions q =
    if is_paused q.status
    then button (txt "Resume") false (mutate false (resume_queue q.name ∷ [])) ∷ []
    else button (txt "Pause") false (mutate false (pause_queue q.name ∷ [])) ∷ []

-- jobs.$jobId.tsx: the actions of the head
unfoldable pub job_actions : Option Session → Job → List Control
job_actions session j = can session jobs_write (
    confirmed (txt "Retry") false none (mutate false (retry_job j.id ∷ []))
    ∷ confirmed (txt "Re-enqueue") false none (mutate false (requeue_job j.id ∷ []))
    ∷ confirmed (txt "Delete") false none (mutate false (delete_job j.id ∷ []))
    ∷ [])

-- dlq.tsx: `rows`; `none` while the query has no data
unfoldable pub filter_dlq : Context → Text → Text → Option (List DlqItem) → Option (List DlqItem)
filter_dlq ctx q queue none = none
filter_dlq ctx q queue (some rows) = some (
    filter_by
      (λ d.
        (is_empty queue || text_eq d.original_queue queue)
        && (includes d.job_id q
            || includes d.task q
            || includes (ctx.to_lower d.last_error) (ctx.to_lower q)))
      rows)

-- dlq.tsx: the action of the head
unfoldable pub dlq_head : Option Session → Option (List DlqItem) → List Control
dlq_head session rows = can session dlq_write (
    confirmed (txt "Purge DLQ") (elim rows [ none ↦ true | some l ↦ length l == 0 ])
      (some (txt "purge dlq")) (mutate false (purge_dlq ∷ []))
    ∷ [])

-- dlq.tsx: the bar over the selection
unfoldable pub dlq_bar : Option Session → TextSet → List Control
dlq_bar session sel = bulk_bar (length sel) (
    can session dlq_write
      (button (txt "Retry selected") false (mutate true (map retry_dlq sel)) ∷ [])
    ++ can session dlq_write
        (confirmed (txt "Delete selected") false none (mutate true (map delete_dlq sel)) ∷ []))

-- dlq.tsx: the cell "Actions" of a row; both arrows call the same function
unfoldable pub dlq_row_actions : Option Session → DlqItem → List Control
dlq_row_actions session d = can session dlq_write (
    button (txt "Retry") false (mutate false (retry_dlq d.job_id ∷ []))
    ∷ button (txt "Re-enqueue") false (mutate false (retry_dlq d.job_id ∷ []))
    ∷ confirmed (txt "Delete") false none (mutate false (delete_dlq d.job_id ∷ []))
    ∷ [])

-- delayed.tsx: `rows`
unfoldable pub filter_delayed : Text → Text → List DelayedJob → List DelayedJob
filter_delayed queue task rows =
    filter_by
      (λ d. (is_empty queue || text_eq d.queue queue) && (is_empty task || text_eq d.task task))
      rows

-- workers.index.tsx: `["healthy", "busy", "idle"].includes(w.status)`
unfoldable pub is_healthy : WorkerStatus → Bool
is_healthy WorkerStatus.healthy = true
is_healthy busy = true
is_healthy idle = true
is_healthy _ = false

-- workers.index.tsx: `healthy`, "Unhealthy" and `expired`
unfoldable pub healthy_workers : List Worker → ℕ
healthy_workers rows = length (filter_by (λ w. is_healthy w.status) rows)

unfoldable pub unhealthy_workers : List Worker → ℕ
unfolding healthy_workers
unhealthy_workers rows = length rows - healthy_workers rows

unfoldable pub has_expired_lease : Context → Worker → Bool
has_expired_lease ctx w = any (λ l. num_lt (ctx.date_parse l.expires_at) (num ctx.now)) w.leases

unfoldable pub expired_workers : Context → List Worker → ℕ
unfolding has_expired_lease
expired_workers ctx rows = length (filter_by (has_expired_lease ctx) rows)
