-- ===== src/Console/Details.antt =====
-- web/src/routes: the pages of one queue, job or worker: what stands there until it has come or when it
-- cannot be read, and the head of the page.
use forgequeue.Common.{
  ℕ, ◌≡◌, refl, Bool, true, false, Option, none, some, List, [], ◌∷◌, ◌++◌, map, filter_by, Text,
  txt, text_eq, starts_with, length,
}
use forgequeue.Types.{
  Job, QueueSummary, Worker, job_status_text, queue_status_text, worker_status_text,
}
use forgequeue.Console.Shared.{Tone, job_tone, queue_tone, worker_tone}
use forgequeue.Console.Shell.{nav, is_active}

-- A link of the line above the head: its text, and the route with the parameter in its path.
pub record Crumb : Type 0 where
  pub label : Text
  pub leads_to : Option (Text × Option Text)

abbrev link_to : Text → Text → Option Text → Crumb
link_to label to param = record { label = label; leads_to = some (to, param) }

abbrev here : Text → Crumb
here label = record { label = label; leads_to = none }

-- `PageHeader`: the title, the text that its button copies, the status with its tone, and the line below.
pub record PageHead : Type 0 where
  pub crumbs : List Crumb
  pub title : Text
  pub copies : Option Text
  pub badge : Option (Text × Tone)
  pub meta : List Text

-- What a page shows: that there is no such object, with the message of the error, a grey box, or a head
-- with the rest of the page.
pub data Details : Type 0 where
  not_found : (title description : Text) → Details
  skeleton : Details
  shown : PageHead → Details

-- queues.$queueName.tsx: the head is there before the queue is.
unfoldable pub queue_page : Text → Option Text → Option QueueSummary → Details
queue_page queue_name (some message) q =
    not_found (txt "Queue '" ++ (queue_name ++ txt "' not found")) message
queue_page queue_name none q = shown (record {
  crumbs = link_to (txt "Queues") (txt "/queues") none ∷ here queue_name ∷ [];
  title = queue_name;
  copies = none;
  badge = elim q [ none ↦ none | some q ↦ some (queue_status_text q.status, queue_tone q.status) ];
  meta = [];
})

-- The tabs of the page of a queue: their value, their text, and the number beside it.
unfoldable pub queue_tabs : Option (List Job) → List (Text × Text × Option ℕ)
queue_tabs jobs =
    (txt "jobs", txt "Jobs", elim jobs [ none ↦ none | some js ↦ some (length js) ])
    ∷ (txt "delayed", txt "Delayed", none)
    ∷ (txt "failures", txt "Failures", none)
    ∷ (txt "metrics", txt "Metrics", none)
    ∷ []

-- jobs.$jobId.tsx
unfoldable pub job_page : Option Text → (is_loading : Bool) → Option Job → Details
job_page (some message) is_loading job = not_found (txt "Job not found") message
job_page none is_loading none = skeleton
job_page none true (some job) = skeleton
job_page none false (some job) = shown (record {
  crumbs =
      link_to (txt "Queues") (txt "/queues") none
      ∷ link_to job.queue (txt "/queues/$queueName") (some job.queue)
      ∷ here (txt "job")
      ∷ [];
  title = job.id;
  copies = some job.id;
  badge = some (job_status_text job.status, job_tone job.status);
  meta = txt "queue" ∷ job.queue ∷ txt "task" ∷ job.task ∷ [];
})

-- workers.$workerId.tsx
unfoldable pub worker_page : Option Text → Option Worker → Details
worker_page (some message) w = not_found (txt "Worker not found") message
worker_page none none = skeleton
worker_page none (some w) = shown (record {
  crumbs = link_to (txt "Workers") (txt "/workers") none ∷ here w.id ∷ [];
  title = w.id;
  copies = none;
  badge = some (worker_status_text w.status, worker_tone w.status);
  meta = w.hostname ∷ [];
})

-- The entries of the navigation that are active on a path.
abbrev pub active_on : Text → List Text
active_on path = map (λ n. n.to) (filter_by (λ n. is_active n.to path) nav)

-- Where the first link of the line above a head leads.
abbrev pub first_crumb : Details → List Text
first_crumb (shown h) = elim h.crumbs [
  | [] ↦ []
  | c ∷ crumbs ↦ elim c.leads_to [ none ↦ [] | some l ↦ l.0 ∷ [] ]
]
first_crumb _ = []

-- On the pages of a queue, a job and a worker that are shown, exactly one entry of the navigation is
-- active, whatever follows in the path: the one to which the first link above the head leads.
pub active_on-first_crumb :
    (name rest : Text) (q : Option QueueSummary) (job : Job) (w : Worker)
    → (active_on (txt "/queues/" ++ rest) ≡ first_crumb (queue_page name none q))
      × (active_on (txt "/jobs/" ++ rest) ≡ first_crumb (job_page none false (some job)))
      × (active_on (txt "/workers/" ++ rest) ≡ first_crumb (worker_page none (some w)))
unfolding nav is_active queue_page job_page worker_page starts_with text_eq
active_on-first_crumb name rest q job w = (refl, refl, refl)
