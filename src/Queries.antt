-- ===== src/Queries.antt =====
-- web/src/api/queries.ts: the keys of the query cache, and what an action does when it has settled.
pub mod Keys
pub mod Actions
pub mod Polling
use forgequeue.Common.{
  ℕ, ◌+◌, ◌==◌, Bool, true, false, Option, none, some, List, [], ◌∷◌, ◌++◌, map, Text, txt,
  show_nat, length, if◌then◌else◌,
}
use forgequeue.Endpoints.{MetricsRange, range_text, Call}
use forgequeue.Client.{Outcome, returned, api_error, other_error}
use forgequeue.Types.{Json}

-- The hooks `useStats` to `useThroughput`.
pub data Query : Type 0 where
  stats queues workers dlq delayed : Query
  queue queue_jobs job worker : Text → Query
  throughput : MetricsRange → Option Text → Query

-- `q ?? "all"`
abbrev pub or_all : Option Text → Text
or_all none = txt "all"
or_all (some q) = q

-- `keys`
unfoldable pub key_of : Query → List Text
key_of stats = txt "system" ∷ txt "stats" ∷ []
key_of queues = txt "queues" ∷ []
key_of (queue n) = txt "queue" ∷ n ∷ []
key_of (queue_jobs n) = txt "queue" ∷ n ∷ txt "jobs" ∷ []
key_of (job id) = txt "job" ∷ id ∷ []
key_of workers = txt "workers" ∷ []
key_of (worker id) = txt "worker" ∷ id ∷ []
key_of dlq = txt "dlq" ∷ []
key_of delayed = txt "delayed" ∷ []
key_of (throughput r q) = txt "metrics" ∷ txt "throughput" ∷ range_text r ∷ or_all q ∷ []

-- What each hook fetches.
unfoldable pub call_of : Query → Call
call_of stats = Call.stats
call_of queues = Call.queues
call_of (queue n) = Call.queue n
call_of (queue_jobs n) = Call.queue_jobs n
call_of (job id) = Call.job id
call_of workers = Call.workers
call_of (worker id) = Call.worker id
call_of dlq = Call.dlq
call_of delayed = Call.delayed
call_of (throughput r q) = Call.throughput r q

-- `queryKey: [...key, scope]`, with the API base as the scope
unfoldable pub cache_key : Query → Text → List Text
unfolding key_of
cache_key q scope = key_of q ++ scope ∷ []

-- What an action did to the page: the toasts, newest last, and the invalidations of the cache.
pub data Toast : Type 0 where
  success failure : Text → Toast

pub record Effects : Type 0 where
  pub toasts : List Toast
  pub invalidations : ℕ

-- `e instanceof Error ? e.message : "Action failed"`: whatever `request` throws is an `Error`.
unfoldable pub use_action : Text → Outcome → Effects → Effects
use_action label (returned v) e = record {
  toasts = e.toasts ++ success label ∷ [];
  invalidations = e.invalidations + 1;
}
use_action label (api_error m k v) e = record e { toasts = e.toasts ++ failure m ∷ [] }
use_action label (other_error m) e = record e { toasts = e.toasts ++ failure m ∷ [] }

-- `Promise.all` over requests that settle in this order: the first failure decides.
unfoldable pub all_settled : List Outcome → Outcome
all_settled [] = returned none
all_settled (returned v ∷ rest) = all_settled rest
all_settled (api_error m k v ∷ rest) = api_error m k v
all_settled (other_error m ∷ rest) = other_error m

-- `${verb} ${ids.length} job${ids.length === 1 ? "" : "s"}`
unfoldable pub bulk_label : Text → ℕ → Text
bulk_label verb n =
    verb ++ (txt " " ++ (show_nat n ++ (txt " job" ++ (if n == 1 then [] else txt "s"))))

-- `useBulk`: one call for each identifier, all of them sent before any has settled.
unfoldable pub bulk_calls : (Text → Call) → List Text → List Call
bulk_calls fn ids = map fn ids

unfoldable pub use_bulk : Text → List Text → List Outcome → Effects → Effects
use_bulk verb ids outcomes e = use_action (bulk_label verb (length ids)) (all_settled outcomes) e
