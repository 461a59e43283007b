-- ===== src/Console/Guards/Reads.antt =====
-- What the pages of web/src/routes and the palette of web/src/components/app-shell.tsx read, against the
-- permissions that the API asks for.
use forgequeue.Common.{
  ℕ, ◌≡◌, refl, arith, Bool, true, false, ◌&&◌, Option, none, some, List, [], ◌∷◌, any, every, Text,
  txt, text_eq, Number,
}
use forgequeue.Types.{Json}
use forgequeue.Stores.{
  Session, queues_read, workers_read, dlq_read, delayed_read, metrics_read, system_read,
}
use forgequeue.Stores.Auth.{includes_permission}
use forgequeue.Endpoints.{MetricsRange, h1}
use forgequeue.Queries.{
  Query, stats, queues, queue, queue_jobs, job, workers, worker, dlq, delayed, throughput, call_of,
}
use forgequeue.Client.{World, error, is_ok, Body, no_text, json, broken, answered, finish}
use forgequeue.Client.Laws.{ParsesTo}
use forgequeue.Console.{holds}
use forgequeue.Console.Shell.{nav, visible_nav}
use forgequeue.Console.Guards.{needed, is_allowed}

-- The queries that each page keeps alive, by the file of the page.
unfoldable pub overview_queries : List Query
overview_queries = stats ∷ throughput h1 none ∷ queues ∷ workers ∷ dlq ∷ []

unfoldable pub queues_queries : List Query
queues_queries = queues ∷ []

unfoldable pub workers_queries : List Query
workers_queries = workers ∷ []

unfoldable pub delayed_queries : List Query
delayed_queries = delayed ∷ []

unfoldable pub dlq_queries : List Query
dlq_queries = dlq ∷ []

unfoldable pub metrics_queries : MetricsRange → List Query
metrics_queries r = throughput r none ∷ []

unfoldable pub queue_queries : Text → List Query
queue_queries n = queue n ∷ queue_jobs n ∷ delayed ∷ throughput h1 (some n) ∷ []

unfoldable pub job_queries : Text → List Query
job_queries id = job id ∷ []

unfoldable pub worker_queries : Text → List Query
worker_queries id = worker id ∷ []

-- Those of `CommandPalette`, which is mounted on every page, open or not.
unfoldable pub palette_queries : List Query
palette_queries = queues ∷ workers ∷ dlq ∷ delayed ∷ []

-- The pages within the shell that read from the API.
pub data Screen : Type 0 where
  overview queues_list workers_list delayed_list dead_letters : Screen
  metrics : MetricsRange → Screen
  queue_detail job_detail worker_detail : Text → Screen

unfoldable pub screen_queries : Screen → List Query
unfolding overview_queries queues_queries workers_queries delayed_queries dlq_queries
    metrics_queries queue_queries job_queries worker_queries
screen_queries overview = overview_queries
screen_queries queues_list = queues_queries
screen_queries workers_list = workers_queries
screen_queries delayed_list = delayed_queries
screen_queries dead_letters = dlq_queries
screen_queries (metrics r) = metrics_queries r
screen_queries (queue_detail n) = queue_queries n
screen_queries (job_detail id) = job_queries id
screen_queries (worker_detail id) = worker_queries id

-- The path of a page that the navigation lists.
abbrev pub listed_path : Screen → Option Text
listed_path overview = some (txt "/")
listed_path queues_list = some (txt "/queues")
listed_path workers_list = some (txt "/workers")
listed_path delayed_list = some (txt "/delayed")
listed_path dead_letters = some (txt "/dlq")
listed_path (metrics r) = some (txt "/metrics")
listed_path _ = none

-- Whether the API answers all of the queries of a session.
abbrev pub are_allowed : Session → List Query → Bool
are_allowed s qs = every (λ q. is_allowed (some s) (call_of q)) qs

abbrev pub is_listed : Session → Screen → Bool
is_listed s screen = elim (listed_path screen) [
  | none ↦ false
  | some path ↦ any (λ n. text_eq n.to path) (visible_nav nav s.user.permissions)
]

-- A page other than the overview that the navigation lists for a session reads only what the API
-- answers to that session.
pub reads_permitted :
    (s : Session) (screen : Screen)
    → (screen ≡ overview → ⊥)
    → is_listed s screen ≡ true
    → are_allowed s (screen_queries screen) ≡ true
unfolding visible_nav nav screen_queries needed call_of holds text_eq
reads_permitted s overview n h = absurd (n refl)
reads_permitted s queues_list n h = ground arith
reads_permitted s workers_list n h = ground arith
reads_permitted s delayed_list n h = ground arith
reads_permitted s dead_letters n h = ground arith
reads_permitted s (metrics r) n h = ground arith
reads_permitted s (queue_detail q) n h = cc
reads_permitted s (job_detail q) n h = cc
reads_permitted s (worker_detail q) n h = cc

forbidden :
    (date_parse : Text → Number) (env_base : Option Text) (now : ℕ) (st : Text) (b : Body)
    (v : Option Json) (w : World)
    → ParsesTo b v
    → (finish date_parse env_base now (answered 403 st b) w).0.conn.status ≡ error
unfolding finish is_ok
forbidden date_parse env_base now st no_text v w p = refl
forbidden date_parse env_base now st (json j) v w p = refl
forbidden date_parse env_base now st (broken m) v w p = absurd p

-- The overview is listed for every session with `system:read`, but all that it reads is answered only
-- to a session with five permissions; what the palette reads on every page is answered only to a
-- session with four; and an answer of status 403 whose body is empty or parses shows the connection as
-- failed.
pub reads_beyond :
    (date_parse : Text → Number) (env_base : Option Text) (now : ℕ) (s : Session) (st : Text)
    (b : Body) (v : Option Json) (w : World)
    → ParsesTo b v
    → let has = includes_permission s.user.permissions in
      (is_listed s overview ≡ has system_read)
      × (are_allowed s (screen_queries overview) ≡ (
          has system_read
          && has metrics_read
          && has queues_read
          && has workers_read
          && has dlq_read))
      × (are_allowed s palette_queries
          ≡ (has queues_read && has workers_read && has dlq_read && has delayed_read))
      × ((finish date_parse env_base now (answered 403 st b) w).0.conn.status ≡ error)
unfolding visible_nav nav screen_queries palette_queries needed call_of holds text_eq
reads_beyond date_parse env_base now s st b v w p =
    (ground arith, ground arith, ground arith, forbidden date_parse env_base now st b v w p)
