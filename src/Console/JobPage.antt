-- ===== src/Console/JobPage.antt =====
-- web/src/routes/jobs.$jobId.tsx: the page of a job. Its controls are in Console/Pages and the table of
-- its attempts in Console/Workers.
pub mod Facts
use forgequeue.Common.{
  ℕ, zero, suc, ◌+◌, ◌-◌, ◌≡◌, ◌≤◌, arith, refl, ap, ◌∙◌, Bool, true, false, not, ◌&&◌, Option,
  none, some, List, [], ◌∷◌, ◌++◌, Text, txt, is_empty, length, length-append, show_nat, Number,
  int, pos, num, num_lt, num_sub, is_finite, if◌then◌else◌,
}
use forgequeue.Types.{
  Json, Attempt, RetryPolicy, Backoff, exponential, fixed, Job, JobStatus, processing, dlq, delayed,
}
use forgequeue.Format.{fmt_duration}
use forgequeue.Console.{Cell, plain, Context}
use forgequeue.Console.Tables.{worker_cell}
use forgequeue.Console.Shared.{is_there, Entry, kv, or_dash}

-- A step of the timeline.
pub record Step : Type 0 where
  pub label : Text
  pub at : Option Text
  pub tone : Option Text
  pub note : Option Text

abbrev step_of : Text → Option Text → Option Text → Option Text → Step
step_of label at tone note = record { label = label; at = at; tone = tone; note = note }

abbrev is_processing : JobStatus → Bool
is_processing processing = true
is_processing _ = false

-- `steps` of `Timeline`
unfoldable pub timeline : Job → List Step
timeline job =
    (step_of (txt "Created") (some job.created_at) none none
      ∷ step_of (txt "Enqueued") job.enqueued_at none none
      ∷ step_of (txt "Claimed (lease acquired)") job.started_at none job.lease_id
      ∷ [])
    ++ ((if is_processing job.status
          then step_of (txt "Processing · heartbeat lease") job.lease_expires_at
              (some (txt "bg-info")) (some (txt "lease expires"))
            ∷ []
          else [])
        ++ ((if is_there job.completed_at
              then step_of (txt "Completed") job.completed_at (some (txt "bg-success")) none ∷ []
              else [])
            ++ ((if is_there job.failed_at
                  then step_of (elim job.status [ dlq ↦ txt "Moved to DLQ" | _ ↦ txt "Failed" ])
                      job.failed_at (some (txt "bg-destructive")) none
                    ∷ []
                  else [])
                ++ (if is_there job.next_retry_at
                    then step_of
                        (elim job.status [ delayed ↦ txt "Scheduled run" | _ ↦ txt "Next retry" ])
                        job.next_retry_at (some (txt "bg-warning")) none
                      ∷ []
                    else []))))

-- The colour of the dot of a step.
unfoldable pub dot : Step → Text
dot s =
    if is_there s.at
    then elim s.tone [ none ↦ txt "bg-muted-foreground" | some t ↦ t ]
    else txt "bg-border"

abbrev pub or_blank : Option Text → Text
or_blank none = []
or_blank (some t) = t

-- `Math.max(0, job.attempts - 1)` and `Math.max(0, job.maxAttempts - job.attempts)`
unfoldable pub retries_done : Job → ℕ
retries_done job = job.attempts - 1

unfoldable pub retries_left : Job → ℕ
retries_left job = job.max_attempts - job.attempts

abbrev backoff_text : Backoff → Text
backoff_text exponential = txt "exponential"
backoff_text fixed = txt "fixed"

-- `job.workerId && <Link>`
unfoldable pub job_worker : Option Text → Cell
job_worker none = or_dash none
job_worker (some w) = if is_empty w then plain w else worker_cell (some w)

-- What the page shows: what `useJob` gives, an error first, and the sections of a job.
pub data JobView : Type 0 where
  not_found : Text → JobView
  skeleton : JobView
  sections : List Text → JobView

unfoldable pub job_sections : Job → List Text
job_sections job =
    txt "Job overview" ∷ elim job.error [ none ↦ [] | some e ↦ txt "Error" ∷ [] ]
    ++ (elim job.result [ none ↦ [] | some v ↦ txt "Result" ∷ [] ]
        ++ (txt "Payload"
            ∷ (txt "Attempts ("
                ++ show_nat (elim job.attempts_history [ none ↦ 0 | some l ↦ length l ])
                ++ txt ")")
            ∷ txt "Execution timeline"
            ∷ txt "Retry information"
            ∷ txt "Lease information"
            ∷ []))

unfoldable pub job_view : Option Text → Bool → Option Job → JobView
unfolding job_sections
job_view (some message) is_loading job_data = not_found message
job_view none is_loading none = skeleton
job_view none is_loading (some job) = if is_loading then skeleton else sections (job_sections job)

module _ (ctx : Context) where
  -- Whether the time of a step is shown as one to come.
  unfoldable pub is_future : Step → Bool
  is_future s = is_there s.at && num_lt (num ctx.now) (ctx.date_parse (or_blank s.at))

  -- "Job overview"
  unfoldable pub overview_entries : Job → List Entry
  overview_entries job =
      kv (txt "created_at") (plain (ctx.time_ago (some job.created_at)))
      ∷ kv (txt "enqueued_at") (plain (ctx.time_ago job.enqueued_at))
      ∷ kv (txt "started_at") (plain (ctx.time_ago job.started_at))
      ∷ kv (txt "completed_at") (plain (ctx.time_ago job.completed_at))
      ∷ kv (txt "failed_at") (plain (ctx.time_ago job.failed_at))
      ∷ kv (txt "duration")
          (plain (fmt_duration (elim job.duration_ms [ none ↦ none | some n ↦ some (int n) ])))
      ∷ kv (txt "attempts")
          (plain (show_nat job.attempts ++ txt " / " ++ show_nat job.max_attempts))
      ∷ kv (txt "worker_id") (job_worker job.worker_id)
      ∷ kv (txt "lease_id") (or_dash job.lease_id)
      ∷ kv (txt "lease_expires_at") (plain (ctx.time_ago job.lease_expires_at))
      ∷ kv (txt "next_retry_at") (plain (ctx.time_ago job.next_retry_at))
      ∷ []

  -- "Retry information"
  unfoldable pub retry_entries : Job → List Entry
  unfolding retries_done retries_left
  retry_entries job =
      kv (txt "retries") (plain (show_nat (retries_done job)))
        ∷ kv (txt "remaining") (plain (show_nat (retries_left job)))
        ∷ elim job.retry_policy [
          | none ↦
              kv (txt "backoff") (or_dash none)
              ∷ kv (txt "base / max") (or_dash none)
              ∷ kv (txt "jitter") (or_dash none)
              ∷ []
          | some r ↦
              kv (txt "backoff") (plain (backoff_text r.backoff))
              ∷ kv (txt "base / max") (
                  plain (
                    fmt_duration (some (num r.base_ms))
                    ++ txt " / "
                    ++ fmt_duration (some (num r.max_ms))))
              ∷ kv (txt "jitter") (plain (if r.jitter then txt "true" else txt "false"))
              ∷ []
        ]
      ++ (kv (txt "next_retry") (plain (ctx.time_ago job.next_retry_at)) ∷ [])

  -- `leaseRemaining`
  unfoldable pub lease_remaining : Job → Option Number
  lease_remaining job =
      if is_there job.lease_expires_at
      then some (num_sub (ctx.date_parse (or_blank job.lease_expires_at)) (num ctx.now))
      else none

  -- What is left of the lease, and whether it is marked as running out.
  unfoldable pub lease_left : Job → Text × Bool
  unfolding lease_remaining
  lease_left job = elim (lease_remaining job) [
    | none ↦ (fmt_duration none, false)
    | some r ↦ (
      if is_finite r && not (num_lt (num 0) r) then txt "expired" else fmt_duration (some r),
      num_lt r (num 5000),
    )
  ]

  -- "Lease information", `none` where no worker holds the job.
  unfoldable pub lease_entries : Job → Option (List Entry)
  unfolding lease_left
  lease_entries job =
      if is_there job.lease_id
      then some (
          kv (txt "worker") (or_dash job.worker_id)
          ∷ kv (txt "lease_id") (or_dash job.lease_id)
          ∷ kv (txt "acquired") (plain (ctx.time_ago job.started_at))
          ∷ kv (txt "expires") (plain (ctx.time_ago job.lease_expires_at))
          ∷ kv (txt "remaining") (plain (lease_left job).0)
          ∷ [])
      else none
