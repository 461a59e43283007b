-- ===== src/Console/Workers.antt =====
-- web/src/routes/workers.index.tsx, web/src/routes/workers.$workerId.tsx and web/src/routes/jobs.$jobId.tsx:
-- the tables of workers, of a worker's leases and recent jobs, and of a job's attempts.
use forgequeue.Common.{
  Bool, true, false, not, ◌&&◌, Option, none, some, List, [], ◌∷◌, ◌++◌, Text, txt, is_empty,
  show_nat, int, ℤ, num, num_lt, num_sub, num_neg, is_finite, if◌then◌else◌,
}
use forgequeue.Types.{
  Worker, WorkerStatus, stale, disconnected, worker_status_text, Lease, RecentJob, job_status_text,
  Attempt,
}
use forgequeue.DataTable.{Column, by_text, by_number}
use forgequeue.Format.{fmt_duration}
use forgequeue.Console.{Cell, plain, Context, column}
use forgequeue.Console.Tables.{job_id_cell, age}

-- `w.status === "stale" || w.status === "disconnected"`: the row is marked.
unfoldable pub is_lost : WorkerStatus → Bool
is_lost stale = true
is_lost disconnected = true
is_lost _ = false

-- `fmtDuration` of a duration of the API, which may be missing
abbrev duration_text : Option ℤ → Text
duration_text none = fmt_duration none
duration_text (some d) = fmt_duration (some (int d))

-- An optional text that counts as missing when it is empty.
abbrev text_or : Option Text → Text → (Text → Text) → Text
text_or none missing show = missing
text_or (some t) missing show = if is_empty t then missing else show t

module _ (ctx : Context) where
  unfoldable pub workers_columns : List (Column Worker Cell)
  workers_columns =
      column (txt "id") (txt "Worker ID") (λ w. plain w.id) (some (by_text (λ w. w.id))) false
      ∷ column (txt "host") (txt "Hostname") (λ w. plain w.hostname)
          (some (by_text (λ w. w.hostname))) false
      ∷ column (txt "st") (txt "Status") (λ w. plain (worker_status_text w.status))
          (some (by_text (λ w. worker_status_text w.status))) false
      ∷ column (txt "hb") (txt "Last heartbeat")
          (λ w. plain (fmt_duration (some (age ctx w.last_heartbeat_at)) ++ txt " ago"))
          (some (by_text (λ w. w.last_heartbeat_at))) false
      ∷ column (txt "lc") (txt "Leases") (λ w. plain (show_nat w.lease_count))
          (some (by_number (λ w. num w.lease_count))) true
      ∷ column (txt "jp") (txt "Processing")
          (λ w. plain (show_nat w.jobs_processing ++ (txt "/" ++ show_nat w.concurrency)))
          (some (by_number (λ w. num w.jobs_processing))) true
      ∷ column (txt "sa") (txt "Started at") (λ w. plain (ctx.time_ago (some w.started_at)))
          (some (by_text (λ w. w.started_at))) false
      ∷ column (txt "up") (txt "Uptime") (λ w. plain (fmt_duration (some (age ctx w.started_at))))
          (some (by_number (λ w. num_neg (ctx.date_parse w.started_at)))) true
      ∷ column (txt "v") (txt "Version") (λ w. plain w.version) (some (by_text (λ w. w.version)))
          false
      ∷ []

  -- the time that is left to a lease, or that has passed since its end
  unfoldable pub expires_cell : Lease → Cell
  expires_cell l =
      let r = num_sub (ctx.date_parse l.expires_at) (num ctx.now) in
      plain (
        if is_finite r && not (num_lt (num 0) r)
        then txt "expired " ++ (fmt_duration (some (num_neg r)) ++ txt " ago")
        else txt "in " ++ fmt_duration (some r))

  unfoldable pub leases_columns : List (Column Lease Cell)
  leases_columns =
      column (txt "j") (txt "Job ID") (λ l. job_id_cell l.job_id) none false
      ∷ column (txt "q") (txt "Queue") (λ l. plain l.queue) none false
      ∷ column (txt "t") (txt "Task") (λ l. plain l.task) none false
      ∷ column (txt "l") (txt "Lease ID") (λ l. plain l.lease_id) none false
      ∷ column (txt "a") (txt "Acquired") (λ l. plain (ctx.time_ago (some l.acquired_at))) none
          false
      ∷ column (txt "e") (txt "Expires") expires_cell none true
      ∷ []

  unfoldable pub recent_columns : List (Column RecentJob Cell)
  recent_columns =
      column (txt "j") (txt "Job ID") (λ r. job_id_cell r.job_id) none false
      ∷ column (txt "q") (txt "Queue") (λ r. plain r.queue) none false
      ∷ column (txt "s") (txt "Status") (λ r. plain (job_status_text r.status)) none false
      ∷ column (txt "d") (txt "Duration") (λ r. plain (duration_text r.duration_ms)) none true
      ∷ column (txt "f") (txt "Finished") (λ r. plain (ctx.time_ago r.finished_at)) none false
      ∷ []

  -- `a.error`, else `ok` once it has finished
  unfoldable pub outcome_text : Attempt → Text
  outcome_text a = text_or a.error (text_or a.finished_at (txt "—") (λ t. txt "ok")) (λ t. t)

  unfoldable pub attempts_columns : List (Column Attempt Cell)
  attempts_columns =
      column (txt "n") (txt "#") (λ a. plain (show_nat a.attempt)) none false
      ∷ column (txt "w") (txt "Worker")
          (λ a. plain (elim a.worker_id [ none ↦ txt "—" | some w ↦ w ])) none false
      ∷ column (txt "s") (txt "Started") (λ a. plain (ctx.time_ago (some a.started_at))) none false
      ∷ column (txt "f") (txt "Finished")
          (λ a. plain (text_or a.finished_at (txt "running") (λ t. ctx.time_ago (some t)))) none
          false
      ∷ column (txt "d") (txt "Duration") (λ a. plain (duration_text a.duration_ms)) none true
      ∷ column (txt "r") (txt "Outcome") (λ a. plain (outcome_text a)) none false
      ∷ []
