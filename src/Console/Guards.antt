-- ===== src/Console/Guards.antt =====
-- The controls of web/src/routes and web/src/components/job-tables.tsx against the permissions that
-- the API asks for (internal/httpapi/server.go), and what they ask before calls that destroy.
pub mod Permissions
pub mod Cautions
pub mod Reads
use forgequeue.Common.{
  ◌≡◌, refl, arith, ℕ, Bool, true, false, ◌&&◌, ◌==◌, Option, none, some, List, [], ◌∷◌, ◌++◌, map,
  Text, txt, text_eq, text_eq_refl, TextSet, length, every, Bool-cases, inl, inr, if◌then◌else◌,
}
use forgequeue.Types.{Job, DelayedJob, DlqItem, QueueSummary}
use forgequeue.Stores
use forgequeue.Stores.{
  Permission, Session, queues_read, queues_write, jobs_read, jobs_write, workers_read, dlq_read,
  dlq_write, delayed_read, delayed_write, metrics_read, system_read,
}
use forgequeue.Endpoints.{
  Call, auth_config, login, exchange_oidc, me, stats, queues, queue, queue_jobs, job, retry_job,
  requeue_job, delete_job, pause_queue, resume_queue, purge_queue, workers, worker, dlq, retry_dlq,
  delete_dlq, purge_dlq, delayed, promote_delayed, cancel_delayed, throughput, version,
}
use forgequeue.DataTable.{Column}
use forgequeue.Console.{
  Action, mutate, clear_selection, navigate, Control, button, confirmed, holds, can, Cell, Context,
}
use forgequeue.Console.Tables.{
  bulk_bar, jobs_bar, jobs_columns, delayed_columns, worker_cell, job_id_cell, remaining_cell,
  retry_cell, delayed_actions,
}
use forgequeue.Console.Pages.{
  is_paused, queue_actions, job_actions, dlq_head, dlq_bar, dlq_row_actions, queue_row_actions,
  overview_row_actions,
}

-- `s.require(p, …)` of the route that answers the call; `none` where no permission is asked.
unfoldable pub needed : Call → Option Permission
needed auth_config = none
needed (login username password) = none
needed (exchange_oidc code) = none
needed me = none
needed version = some system_read
needed stats = some system_read
needed queues = some queues_read
needed (queue n) = some queues_read
needed (queue_jobs n) = some jobs_read
needed (pause_queue n) = some queues_write
needed (resume_queue n) = some queues_write
needed (purge_queue n) = some queues_write
needed (job id) = some jobs_read
needed (retry_job id) = some jobs_write
needed (requeue_job id) = some jobs_write
needed (delete_job id) = some jobs_write
needed workers = some workers_read
needed (worker id) = some workers_read
needed dlq = some dlq_read
needed purge_dlq = some dlq_write
needed (retry_dlq id) = some dlq_write
needed (delete_dlq id) = some dlq_write
needed delayed = some delayed_read
needed (promote_delayed id) = some delayed_write
needed (cancel_delayed id) = some delayed_write
needed (throughput r q) = some metrics_read

-- Whether the session has the permission that the call needs.
abbrev pub is_allowed : Option Session → Call → Bool
is_allowed session c = elim (needed c) [ none ↦ true | some p ↦ holds session p ]

abbrev pub calls_of_action : Action → List Call
calls_of_action (mutate clears calls) = calls
calls_of_action clear_selection = []
calls_of_action (navigate to param) = []

abbrev pub calls_of : Control → List Call
calls_of (button label disabled a) = calls_of_action a
calls_of (confirmed label disabled required a) = calls_of_action a

-- Every call that one of the controls makes is allowed to the session.
abbrev pub permitted : Option Session → List Control → Bool
permitted session controls = every (λ c. every (is_allowed session) (calls_of c)) controls

pub every-map {ℓ κ} :
    {A : Type ℓ} {B : Type κ}
    → (p : B → Bool) (f : A → B) (l : List A) → ((a : A) → p (f a) ≡ true)
    → every p (map f l) ≡ true
every-map p f [] h = refl
every-map p f (a ∷ l) h = rw (h a, every-map p f l h)

pub every_append {ℓ} :
    {A : Type ℓ} (p : A → Bool) (k l : List A)
    → every p k ≡ true
    → every p l ≡ true
    → every p (k ++ l) ≡ true
every_append p [] l h g = g
every_append p (a ∷ k) l h g = ground (arith, every_append p k l)
