-- ===== src/Examples/Shell.antt =====
-- The shell, the settings, the connection page and the page of a job at concrete values.
use forgequeue.Common.{◌≡◌, refl, true, false, ◌&&◌, none, some, [], ◌∷◌, txt, text_eq, inr}
use forgequeue.Types.{Job, null, processing}
use forgequeue.Stores.{dlq_read, queues_read, workers_read, delayed_read, metrics_read, system_read}
use forgequeue.Stores.Auth.{includes_permission, permission_text}
use forgequeue.Client.{World, initial_conn, start, finish, answered, json, error}
use forgequeue.Queries.{Effects}
use forgequeue.Console.{Context}
use forgequeue.Console.Shell.{nav, visible_nav}
use forgequeue.Console.Frame.{frame_step, initial_frame, keydown, env_label}
use forgequeue.Console.ConnectionPage.{ConnectionForm, save_base, start-save_base}
use forgequeue.Console.Guards.Reads.{
  overview, queues_list, is_listed, are_allowed, screen_queries, palette_queries, reads_permitted,
  reads_beyond,
}
use forgequeue.Types.{DlqItem}
use forgequeue.Common.{pos, has, add, text_lt, filter_by, length, ◌≤◌}
use forgequeue.DataTable.{sort_rows, compare_rows, key_lt}
use forgequeue.Console.Pages.{filter_dlq}
use forgequeue.Console.Filters.{dlq_queues, options_of}
use forgequeue.Console.Filters.Options.{filter_dlq-options}
use forgequeue.Examples.Stores.{date_parse, alice, signed_in, prefs_page}

abbrev world : World
world = record { auth = signed_in; prefs = prefs_page; conn = initial_conn; calls = 0 }

abbrev form : ConnectionForm
form = record { base = txt "http://queue:8080/"; server_version = none; testing = false }

abbrev effects : Effects
effects = record { toasts = []; invalidations = 0 }

start-save_base_example :
    (start date_parse none 5
      (txt "GET")
      (txt "/queues")
      none
      (save_base none form (world, effects)).0).1.url
    ≡ txt "http://queue:8080/queues"
start-save_base_example =
    start-save_base date_parse none 5 (txt "GET") (txt "/queues") none form world effects
      (txt "http://queue:8080") refl (inr refl)

frame_step_test : (frame_step (keydown false true (txt "K")) initial_frame).0.palette_open ≡ true
unfolding frame_step initial_frame text_eq
frame_step_test = refl

env_label_test : env_label (txt "https://queue.example") ≡ txt "queue.example"
unfolding env_label
env_label_test = refl

listed_apart : queues_list ≡ overview → ⊥
listed_apart e = cc

alice_listed : is_listed alice queues_list ≡ true
unfolding visible_nav nav text_eq permission_text includes_permission
alice_listed = refl

reads_permitted_example : are_allowed alice (screen_queries queues_list) ≡ true
reads_permitted_example = reads_permitted alice queues_list listed_apart alice_listed

reads_beyond_example :
    let has = includes_permission alice.user.permissions in
    (is_listed alice overview ≡ has system_read)
    × (are_allowed alice (screen_queries overview) ≡ (
        has system_read && has metrics_read && has queues_read && has workers_read && has dlq_read))
    × (are_allowed alice palette_queries
        ≡ (has queues_read && has workers_read && has dlq_read && has delayed_read))
    × ((finish date_parse none 7 (answered 403 (txt "Forbidden") (json null)) world).0.conn.status
        ≡ error)
reads_beyond_example =
    reads_beyond date_parse none 7 alice (txt "Forbidden") (json null) (some null) world refl

abbrev job : Job
job = record {
  id = txt "j1";
  queue = txt "mail";
  task = txt "send";
  status = processing;
  attempts = 1;
  max_attempts = 3;
  created_at = txt "2026-01-01T00:00:00Z";
  enqueued_at = none;
  started_at = none;
  completed_at = none;
  failed_at = none;
  duration_ms = none;
  worker_id = some (txt "w1");
  lease_id = some (txt "l1");
  lease_expires_at = some (txt "2026-01-01T00:00:01Z");
  next_retry_at = none;
  retry_policy = none;
  payload = null;
  result = none;
  error = none;
  last_error_at = none;
  last_error = none;
  attempts_history = none;
}

abbrev context : Context
context = record {
  session = some alice;
  now = 400;
  date_parse = date_parse;
  time_ago = λ t. txt "now";
  fmt_num = λ n. txt "1";
  to_lower = λ t. t;
}

abbrev dead : DlqItem
dead = record {
  job_id = txt "j1";
  original_queue = txt "mail";
  task = txt "send";
  attempts = 3;
  last_error = txt "Timeout";
  failed_at = txt "2026-01-01T00:00:02Z";
  age_ms = pos 10;
  job = job;
}

abbrev other_dead : DlqItem
other_dead = record dead { job_id = txt "j2"; original_queue = txt "audit" }

dlq_queues_test : dlq_queues (some (dead ∷ other_dead ∷ dead ∷ [])) ≡ txt "audit" ∷ txt "mail" ∷ []
unfolding dlq_queues options_of add has sort_rows compare_rows key_lt text_lt text_eq
dlq_queues_test = refl

mail_offered : has (dlq_queues (some (dead ∷ other_dead ∷ []))) (txt "mail") ≡ true
unfolding dlq_queues options_of add has sort_rows compare_rows key_lt text_lt text_eq
mail_offered = refl

filter_dlq-options_example :
    let rows = dead ∷ other_dead ∷ [] in
    let those = filter_by (λ d. text_eq d.original_queue (txt "mail")) rows in
    (filter_dlq context [] (txt "mail") (some rows) ≡ some those) × (1 ≤ length those)
filter_dlq-options_example =
    filter_dlq-options context (dead ∷ other_dead ∷ []) (txt "mail") refl mail_offered refl
