-- ===== src/Console/JobPage/Facts.antt =====
-- web/src/routes/jobs.$jobId.tsx: the timeline, the retries and the lease of a job.
use forgequeue.Common.{
  ℕ, ◌+◌, ◌-◌, ◌≡◌, ◌≤◌, arith, Bool, true, not, ◌||◌, ◌&&◌, ◌==◌, some, txt, length, drop, every,
  leb, ltb, num, num_sub, num_lt, is_finite, ◌-ℤ◌, if◌then◌else◌,
}
use forgequeue.Types.{Job}
use forgequeue.Format.{fmt_duration}
use forgequeue.Console.{Context}
use forgequeue.Console.Shared.{is_there}
use forgequeue.Console.JobPage.{
  timeline, is_processing, retries_done, retries_left, lease_remaining, lease_left, or_blank,
}

abbrev one_if : Bool → ℕ
one_if b = if b then 1 else 0

-- The timeline has the three steps that every job has, one for a lease that is held, and one for each
-- of the times of completion, failure and next run that is there. Each of its later steps has a time,
-- unless a job is being processed without a time at which its lease expires.
pub timeline_lem :
    (job : Job)
    → (length (timeline job)
        ≡ 3
          + one_if (is_processing job.status)
          + one_if (is_there job.completed_at)
          + one_if (is_there job.failed_at)
          + one_if (is_there job.next_retry_at))
      × (every (λ s. is_there s.at) (drop 3 (timeline job))
          ≡ (not (is_processing job.status) || is_there job.lease_expires_at))
unfolding timeline
timeline_lem job = ground arith

-- The retries made, those left, and the first attempt if there was one, add up to the attempts that
-- are allowed.
pub retries_add_up :
    (job : Job)
    → job.attempts ≤ job.max_attempts
    → retries_done job + retries_left job + one_if (not (job.attempts == 0)) ≡ job.max_attempts
unfolding retries_done retries_left
retries_add_up job h = ground arith

rest_text :
    (t now : ℕ)
    → let rest = num_sub (num t) (num now) in
      (if is_finite rest && not (num_lt (num 0) rest)
        then txt "expired"
        else fmt_duration (some rest))
      ≡ (if leb t now then txt "expired" else fmt_duration (some (num (t - now))))
unfolding ◌-ℤ◌
rest_text t now = ground arith

rest_soon : (t now : ℕ) → num_lt (num_sub (num t) (num now)) (num 5000) ≡ ltb t (now + 5000)
unfolding ◌-ℤ◌
rest_soon t now = ground arith

lease_remaining_lem :
    (ctx : Context) (job : Job) (t : ℕ)
    → is_there job.lease_expires_at ≡ true
    → ctx.date_parse (or_blank job.lease_expires_at) ≡ num t
    → lease_remaining ctx job ≡ some (num_sub (num t) (num ctx.now))
unfolding lease_remaining
lease_remaining_lem ctx job t h e = ground arith

-- A lease that expires at a time `t` is shown as expired from `t` on and by its rest before, and is
-- marked from 5 seconds before `t` on.
pub lease_left_lem :
    (ctx : Context) (job : Job) (t : ℕ)
    → is_there job.lease_expires_at ≡ true
    → ctx.date_parse (or_blank job.lease_expires_at) ≡ num t
    → ((lease_left ctx job).0
        ≡ (if leb t ctx.now then txt "expired" else fmt_duration (some (num (t - ctx.now)))))
      × ((lease_left ctx job).1 ≡ ltb t (ctx.now + 5000))
unfolding lease_left
lease_left_lem ctx job t h e =
    rw (lease_left, lease_remaining_lem ctx job t h e) (rest_text t ctx.now, rest_soon t ctx.now)
