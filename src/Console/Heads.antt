-- ===== src/Console/Heads.antt =====
-- web/src/routes: the numbers at the head of the pages, and the page of a worker.
use forgequeue.Common.{
  ℕ, ◌+◌, ◌==◌, Bool, Option, none, some, List, [], ◌∷◌, ◌++◌, Text, txt, length, show_nat, Number,
  num, num_lt, num_sub, if◌then◌else◌,
}
use forgequeue.Types.{QueueSummary, SystemStats, Worker}
use forgequeue.Format.{fmt_duration}
use forgequeue.Console.{plain, Context}
use forgequeue.Console.Pages.{healthy_workers, unhealthy_workers, expired_workers}
use forgequeue.Console.Shared.{
  Tone, info, success, warning, danger, StatValue, waiting, number, StatCard, Entry, kv,
}

abbrev card : Text → StatValue → Option Tone → Option Text → Option Text → StatCard
card label value tone to hint = record {
  label = label;
  value = value;
  tone = tone;
  to = to;
  hint = hint;
}

-- A number of an object that may not be there yet.
abbrev value_of {ℓ} : {A : Type ℓ} → (A → ℕ) → Option A → StatValue
value_of f none = waiting
value_of f (some a) = number (f a)

-- `n ? tone : undefined`
abbrev tone_if {ℓ} : {A : Type ℓ} → (A → ℕ) → Tone → Option A → Option Tone
tone_if f t none = none
tone_if f t (some a) = if f a == 0 then none else some t

-- index.tsx: the cards, and the health of the workers with a dash where there is no number yet.
unfoldable pub overview_cards : Option SystemStats → List StatCard
overview_cards s =
    card (txt "Queues") (value_of (λ s. s.queues) s) none (some (txt "/queues")) none
    ∷ card (txt "Active jobs") (value_of (λ s. s.active_jobs) s) none none none
    ∷ card (txt "Pending") (value_of (λ s. s.pending) s) none (some (txt "/queues")) none
    ∷ card (txt "Processing") (value_of (λ s. s.processing) s) (some info) none none
    ∷ card (txt "Failed") (value_of (λ s. s.failed) s) (tone_if (λ s. s.failed) danger s) none none
    ∷ card (txt "Delayed") (value_of (λ s. s.delayed) s) none (some (txt "/delayed")) none
    ∷ card (txt "DLQ") (value_of (λ s. s.dlq) s) (tone_if (λ s. s.dlq) danger s) (some (txt "/dlq"))
        none
    ∷ card (txt "Active workers") (value_of (λ s. s.active_workers) s) none (some (txt "/workers"))
        (elim s [ none ↦ none | some s ↦ some (show_nat s.stale_workers ++ txt " stale") ])
    ∷ []

unfoldable pub overview_health : Option SystemStats → List (Text × Text)
overview_health s =
    let show : (SystemStats → ℕ) → Text =
      λ f. elim s [ none ↦ txt "–" | some s ↦ show_nat (f s) ] in
    (txt "Healthy", show (λ s. s.healthy_workers))
    ∷ (txt "Stale", show (λ s. s.stale_workers))
    ∷ (txt "Expired leases", show (λ s. s.workers_with_expired_leases))
    ∷ []

-- queues.$queueName.tsx
unfoldable pub queue_cards : Option QueueSummary → List StatCard
queue_cards q =
    card (txt "Pending") (value_of (λ q. q.pending) q) none none none
    ∷ card (txt "Processing") (value_of (λ q. q.processing) q) (some info) none none
    ∷ card (txt "Delayed") (value_of (λ q. q.delayed) q) none none none
    ∷ card (txt "Failed") (value_of (λ q. q.failed) q) (tone_if (λ q. q.failed) danger q) none none
    ∷ card (txt "Completed") (value_of (λ q. q.completed) q) (some success) none none
    ∷ card (txt "Active workers") (value_of (λ q. q.workers) q) none none none
    ∷ []

-- `reduce((a, w) => a + w.jobsProcessing, 0)`
unfoldable pub total_processing : List Worker → ℕ
total_processing [] = 0
total_processing (w ∷ ws) = w.jobs_processing + total_processing ws

-- workers.index.tsx
unfoldable pub workers_cards : Context → Option (List Worker) → List StatCard
unfolding healthy_workers unhealthy_workers expired_workers total_processing
workers_cards ctx ws =
    card (txt "Active") (value_of length ws) none none none
    ∷ card (txt "Healthy") (value_of healthy_workers ws) (some success) none none
    ∷ card (txt "Unhealthy") (value_of unhealthy_workers ws) (tone_if unhealthy_workers warning ws)
        none none
    ∷ card (txt "Expired leases") (value_of (expired_workers ctx) ws)
        (tone_if (expired_workers ctx) danger ws) none none
    ∷ card (txt "Jobs processing") (value_of total_processing ws) (some info) none none
    ∷ []

-- workers.$workerId.tsx
module _ (ctx : Context) where
  -- `now - Date.parse(iso)`
  unfoldable pub time_since : Text → Number
  time_since iso = num_sub (num ctx.now) (ctx.date_parse iso)

  -- The box "Since last heartbeat": its text, and whether it warns.
  unfoldable pub heartbeat : Worker → Text × Bool
  unfolding time_since
  heartbeat w =
      let age = time_since w.last_heartbeat_at in (fmt_duration (some age), num_lt (num 30000) age)

  unfoldable pub worker_entries : Worker → List Entry
  unfolding time_since
  worker_entries w =
      kv (txt "hostname") (plain w.hostname)
      ∷ kv (txt "version") (plain w.version)
      ∷ kv (txt "concurrency") (plain (show_nat w.concurrency))
      ∷ kv (txt "jobs_processing")
          (plain (show_nat w.jobs_processing ++ txt " / " ++ show_nat w.concurrency))
      ∷ kv (txt "lease_count") (plain (show_nat w.lease_count))
      ∷ kv (txt "started_at") (plain (ctx.time_ago (some w.started_at)))
      ∷ kv (txt "uptime") (plain (fmt_duration (some (time_since w.started_at))))
      ∷ kv (txt "last_heartbeat_at") (plain (ctx.time_ago (some w.last_heartbeat_at)))
      ∷ []
