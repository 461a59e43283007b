-- ===== src/Examples/Pages.antt =====
-- web/src/routes and web/src/components: pages for a session that may write jobs but not queues.
use forgequeue.Common.{◌≡◌, refl, true, none, some, [], ◌∷◌, ◌++◌, txt, text_eq, has, pos}
use forgequeue.Types.{null, Job, failed, delayed, DelayedJob, DlqItem, QueueSummary, paused}
use forgequeue.Stores.Auth.{includes_permission, permission_text}
use forgequeue.Console.{Context, holds, can}
use forgequeue.Console.DeadLetters.{dlq_columns}
use forgequeue.Console.Tables.{
  jobs_bar, bulk_bar, retry_cell, delayed_actions, jobs_columns, delayed_columns,
}
use forgequeue.Console.Pages.{
  queue_actions, job_actions, dlq_head, dlq_bar, dlq_row_actions, queue_row_actions,
  overview_row_actions,
}
use forgequeue.Console.Confirm.{
  closed_dialog, type_text, press_confirm, dialog_step, dialog_run, is_blocked, since, was_typed,
  confirm_needs_text,
}
use forgequeue.Console.Guards.{permitted}
use forgequeue.Console.Guards.Permissions.{controls_permitted, columns_permitted, row_permitted}
use forgequeue.Console.Guards.Cautions.{careful, controls_careful}
use forgequeue.Examples.Stores.{date_parse, alice}

abbrev pub context : Context
context = record {
  session = some alice;
  now = 400;
  date_parse = date_parse;
  time_ago = λ t. txt "now";
  fmt_num = λ n. txt "1";
  to_lower = λ t. t;
}

abbrev pub job : Job
job = record {
  id = txt "j1";
  queue = txt "mail";
  task = txt "send";
  status = failed;
  attempts = 3;
  max_attempts = 3;
  created_at = txt "2026-01-01T00:00:00Z";
  enqueued_at = none;
  started_at = none;
  completed_at = none;
  failed_at = none;
  duration_ms = none;
  worker_id = some (txt "w1");
  lease_id = none;
  lease_expires_at = none;
  next_retry_at = none;
  retry_policy = none;
  payload = null;
  result = none;
  error = none;
  last_error_at = none;
  last_error = none;
  attempts_history = none;
}

abbrev pub late : Job
late = record job { id = txt "j2"; created_at = txt "2026-01-02T00:00:00Z" }

abbrev delayed_job : DelayedJob
delayed_job = record {
  job_id = txt "j3";
  queue = txt "mail";
  task = txt "send";
  attempts = 0;
  scheduled_for = txt "2026-01-03T00:00:00Z";
  delay_ms = pos 5000;
  status = delayed;
}

abbrev pub dead : DlqItem
dead = record {
  job_id = txt "j1";
  original_queue = txt "mail";
  task = txt "send";
  attempts = 3;
  last_error = txt "timeout";
  failed_at = txt "2026-01-01T00:00:00Z";
  age_ms = pos 1000;
  job = job;
}

abbrev mail : QueueSummary
mail = record {
  name = txt "mail";
  pending = 1;
  processing = 0;
  delayed = 1;
  failed = 1;
  completed = 0;
  workers = 1;
  rate_per_min = 0;
  oldest_job_at = none;
  status = paused;
}

jobs_bar_test : jobs_bar (some alice) [] ≡ []
unfolding jobs_bar bulk_bar
jobs_bar_test = refl

-- The session has no permission to write queues.
queue_actions_test : queue_actions (some alice) (txt "mail") (some mail) ≡ []
unfolding queue_actions can holds includes_permission permission_text has text_eq
queue_actions_test = refl

controls_permitted_example :
    (permitted (some alice) (jobs_bar (some alice) (txt "j1" ∷ [])) ≡ true)
    × (permitted (some alice) (queue_actions (some alice) (txt "mail") (some mail)) ≡ true)
    × (permitted (some alice) (job_actions (some alice) job) ≡ true)
    × (permitted (some alice) (dlq_head (some alice) (some (dead ∷ []))) ≡ true)
    × (permitted (some alice) (dlq_bar (some alice) (txt "j1" ∷ [])) ≡ true)
    × (permitted (some alice) (dlq_row_actions (some alice) dead) ≡ true)
controls_permitted_example =
    controls_permitted (some alice) (txt "j1" ∷ []) (txt "mail") (some mail) job (some (dead ∷ []))
      dead

columns_permitted_example :
    (row_permitted (some alice) (jobs_columns context true) job ≡ true)
    × (row_permitted (some alice) (delayed_columns context true) delayed_job ≡ true)
    × (row_permitted (some alice) (dlq_columns context) dead ≡ true)
columns_permitted_example = columns_permitted context true job delayed_job dead

controls_careful_example :
    (careful (jobs_bar (some alice) (txt "j1" ∷ [])) ≡ true)
    × (careful (queue_actions (some alice) (txt "mail") (some mail)) ≡ true)
    × (careful (job_actions (some alice) job) ≡ true)
    × (careful (dlq_head (some alice) (some (dead ∷ []))) ≡ true)
    × (careful (dlq_bar (some alice) (txt "j1" ∷ [])) ≡ true)
    × (careful (dlq_row_actions (some alice) dead) ≡ true)
    × (careful (delayed_actions context delayed_job).controls ≡ true)
    × (careful (retry_cell job).controls ≡ true)
    × (careful (queue_row_actions mail ++ overview_row_actions mail) ≡ true)
controls_careful_example =
    controls_careful context (some alice) (txt "j1" ∷ []) (txt "mail") (some mail) job
      (some (dead ∷ [])) dead delayed_job mail

confirm_needs_text_example :
    ((since (txt "mail") refl closed_dialog true (type_text (txt "mail") ∷ [])).is_open ≡ true)
    × ((since (txt "mail") refl closed_dialog true (type_text (txt "mail") ∷ [])).typed
        ≡ txt "mail")
    × ((dialog_step
          (some (txt "mail"))
          (since (txt "mail") refl closed_dialog true (type_text (txt "mail") ∷ []))
          press_confirm).0
        ≡ closed_dialog)
    × (was_typed (txt "mail") (type_text (txt "mail") ∷ []) ≡ true)
unfolding dialog_step dialog_run is_blocked text_eq
confirm_needs_text_example =
    confirm_needs_text (txt "mail") refl closed_dialog true (type_text (txt "mail") ∷ []) refl
