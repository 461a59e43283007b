-- ===== src/Console/Tables.antt =====
-- web/src/components/job-tables.tsx: the bar over a selection, the table of jobs and that of delayed
-- jobs.
pub mod Views
pub mod Runs
use forgequeue.Common.{
  ℕ, ◌==◌, Bool, true, false, Option, none, some, List, [], ◌∷◌, ◌++◌, map, Text, txt, TextSet,
  length, show_nat, Number, num, num_lt, num_sub, num_neg, is_finite, not, ◌&&◌, slice,
  if◌then◌else◌,
}
use forgequeue.Types.{JobStatus, failed, retrying, cancelled, Job, DelayedJob, job_status_text}
use forgequeue.Stores.{Session, jobs_write, delayed_write}
use forgequeue.Endpoints.{retry_job, delete_job, promote_delayed, cancel_delayed}
use forgequeue.DataTable.{Column, by_text, by_number, Sort, asc, desc}
use forgequeue.Format.{fmt_duration}
use forgequeue.Console.{
  mutate, clear_selection, navigate, Control, button, confirmed, holds, can, Cell, plain, Context,
  column,
}

-- `BulkBar`
unfoldable pub bulk_bar : ℕ → List Control → List Control
bulk_bar count children =
    if count == 0 then [] else children ++ button (txt "Clear") false clear_selection ∷ []

-- `<JobId id={id} />`: the first 13 characters, as a link.
unfoldable pub job_id_cell : Text → Cell
job_id_cell id = record {
  shows = slice id 0 13;
  controls = button (slice id 0 13) false (navigate (txt "/jobs/$jobId") (some id)) ∷ [];
}

abbrev pub or_blank : Option Text → Text
or_blank none = []
or_blank (some t) = t

-- the controls over the table of jobs
unfoldable pub jobs_bar : Option Session → TextSet → List Control
jobs_bar session sel = bulk_bar (length sel) (
    can session jobs_write (
      button (txt "Retry") false (mutate true (map retry_job sel))
      ∷ confirmed (txt "Delete") false none (mutate true (map delete_job sel))
      ∷ []))

-- `["failed", "retrying", "cancelled"].includes(j.status)`
unfoldable pub is_retryable : JobStatus → Bool
is_retryable failed = true
is_retryable retrying = true
is_retryable cancelled = true
is_retryable _ = false

unfoldable pub retry_cell : Job → Cell
retry_cell j = record {
  shows = [];
  controls =
      if is_retryable j.status
      then button (txt "Retry") false (mutate false (retry_job j.id ∷ [])) ∷ []
      else [];
}

unfoldable pub worker_cell : Option Text → Cell
worker_cell none = plain (txt "—")
worker_cell (some []) = plain (txt "—")
worker_cell (some w) = record {
  shows = w;
  controls = button w false (navigate (txt "/workers/$workerId") (some w)) ∷ [];
}

module _ (ctx : Context) where
  -- `Date.now() - Date.parse(iso)`
  unfoldable pub age : Text → Number
  age iso = num_sub (num ctx.now) (ctx.date_parse iso)

  unfoldable pub jobs_columns : Bool → List (Column Job Cell)
  jobs_columns show_queue =
      column (txt "id") (txt "Job ID") (λ j. job_id_cell j.id) none false
        ∷ (if show_queue
            then column (txt "queue") (txt "Queue") (λ j. plain j.queue)
                (some (by_text (λ j. j.queue))) false
              ∷ []
            else [])
      ++ (column (txt "task") (txt "Task") (λ j. plain j.task) (some (by_text (λ j. j.task))) false
          ∷ column (txt "status") (txt "Status") (λ j. plain (job_status_text j.status))
              (some (by_text (λ j. job_status_text j.status))) false
          ∷ column (txt "att") (txt "Attempts")
              (λ j. plain (show_nat j.attempts ++ (txt "/" ++ show_nat j.max_attempts)))
              (some (by_number (λ j. num j.attempts))) true
          ∷ column (txt "created") (txt "Created") (λ j. plain (ctx.time_ago (some j.created_at)))
              (some (by_text (λ j. j.created_at))) false
          ∷ column (txt "enq") (txt "Enqueued") (λ j. plain (ctx.time_ago j.enqueued_at))
              (some (by_text (λ j. or_blank j.enqueued_at))) false
          ∷ column (txt "age") (txt "Age") (λ j. plain (fmt_duration (some (age j.created_at))))
              (some (by_number (λ j. num_neg (ctx.date_parse j.created_at)))) true
          ∷ column (txt "worker") (txt "Worker") (λ j. worker_cell j.worker_id) none false
          ∷ (if holds ctx.session jobs_write
              then column (txt "a") [] retry_cell none true ∷ []
              else []))

  -- the remaining delay: "due" from zero on
  unfoldable pub remaining_cell : DelayedJob → Cell
  remaining_cell d =
      let r = num_sub (ctx.date_parse d.scheduled_for) (num ctx.now) in
      plain (if is_finite r && not (num_lt (num 0) r) then txt "due" else fmt_duration (some r))

  unfoldable pub delayed_actions : DelayedJob → Cell
  delayed_actions d = record {
    shows = [];
    controls =
        confirmed (txt "Promote") false none (mutate false (promote_delayed d.job_id ∷ []))
        ∷ confirmed (txt "Cancel") false none (mutate false (cancel_delayed d.job_id ∷ []))
        ∷ [];
  }

  unfoldable pub delayed_columns : Bool → List (Column DelayedJob Cell)
  delayed_columns show_queue =
      column (txt "id") (txt "Job ID") (λ d. job_id_cell d.job_id) none false
        ∷ (if show_queue
            then column (txt "queue") (txt "Queue") (λ d. plain d.queue)
                (some (by_text (λ d. d.queue))) false
              ∷ []
            else [])
      ++ (column (txt "task") (txt "Task") (λ d. plain d.task) (some (by_text (λ d. d.task))) false
          ∷ column (txt "att") (txt "Attempts") (λ d. plain (show_nat d.attempts)) none true
          ∷ column (txt "sched") (txt "Scheduled for")
              (λ d. plain (ctx.time_ago (some d.scheduled_for)))
              (some (by_text (λ d. d.scheduled_for))) false
          ∷ column (txt "rem") (txt "Delay remaining") remaining_cell
              (some (by_number (λ d. ctx.date_parse d.scheduled_for))) true
          ∷ column (txt "st") (txt "Status") (λ d. plain (job_status_text d.status)) none false
          ∷ (if holds ctx.session delayed_write
              then column (txt "a") (txt "Actions") delayed_actions none true ∷ []
              else []))

-- the `defaultSort` of the two tables
abbrev pub jobs_default_sort : Sort
jobs_default_sort = record { key = txt "created"; dir = desc }

abbrev pub delayed_default_sort : Sort
delayed_default_sort = record { key = txt "sched"; dir = asc }
