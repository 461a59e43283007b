-- ===== src/Endpoints/Paths.antt =====
-- endpoints.ts: where the requests go. The server matches a path segment by segment, so a name or
-- an identifier must fill exactly one.
use forgequeue.Common.{ℕ, ◌≡◌, Option, none, some, List, [], ◌∷◌, Text, txt, ◌==◌, if◌then◌else◌}
use forgequeue.Endpoints.{
  MetricsRange, Call, auth_config, login, exchange_oidc, me, stats, queues, queue, queue_jobs, job,
  retry_job, requeue_job, delete_job, pause_queue, resume_queue, purge_queue, workers, worker, dlq,
  retry_dlq, delete_dlq, purge_dlq, delayed, promote_delayed, cancel_delayed, throughput, version,
  Method, get, post, del, Request, range_path,
}
use forgequeue.Endpoints.Encoding.{encode}

abbrev cons_head : ℕ → List Text → List Text
cons_head c [] = (c ∷ []) ∷ []
cons_head c (s ∷ ss) = (c ∷ s) ∷ ss

-- The segments of a URL's path, up to the query: how the server reads it.
abbrev pub segments : Text → List Text
segments [] = [] ∷ []
segments (c ∷ s) =
    let rest = segments s in
    if c == b'?' then [] ∷ [] else if c == b'/' then [] ∷ rest else cons_head c rest

-- The pattern of an endpoint: fixed segments, or one segment that an identifier fills.
pub data Pattern : Type 0 where
  fixed : Method → List Text → Pattern
  with_id : Method → Text → Text → List Text → Pattern

abbrev pub Fits : Pattern → Request → Type 0
Fits (fixed m names) r = (r.method ≡ m) × (segments r.path ≡ [] ∷ names)
Fits (with_id m first id rest) r =
    (r.method ≡ m) × ((e : Text) × (encode id ≡ some e) × (segments r.path ≡ [] ∷ first ∷ e ∷ rest))

abbrev pub pattern_of : Call → Pattern
pattern_of auth_config = fixed get (txt "auth" ∷ txt "config" ∷ [])
pattern_of (login u p) = fixed post (txt "auth" ∷ txt "login" ∷ [])
pattern_of (exchange_oidc c) = fixed post (txt "auth" ∷ txt "oidc" ∷ txt "exchange" ∷ [])
pattern_of me = fixed get (txt "auth" ∷ txt "me" ∷ [])
pattern_of stats = fixed get (txt "system" ∷ txt "stats" ∷ [])
pattern_of queues = fixed get (txt "queues" ∷ [])
pattern_of (queue n) = with_id get (txt "queues") n []
pattern_of (queue_jobs n) = with_id get (txt "queues") n (txt "jobs" ∷ [])
pattern_of (job id) = with_id get (txt "jobs") id []
pattern_of (retry_job id) = with_id post (txt "jobs") id (txt "retry" ∷ [])
pattern_of (requeue_job id) = with_id post (txt "jobs") id (txt "requeue" ∷ [])
pattern_of (delete_job id) = with_id del (txt "jobs") id []
pattern_of (pause_queue n) = with_id post (txt "queues") n (txt "pause" ∷ [])
pattern_of (resume_queue n) = with_id post (txt "queues") n (txt "resume" ∷ [])
pattern_of (purge_queue n) = with_id post (txt "queues") n (txt "purge" ∷ [])
pattern_of workers = fixed get (txt "workers" ∷ [])
pattern_of (worker id) = with_id get (txt "workers") id []
pattern_of dlq = fixed get (txt "dlq" ∷ [])
pattern_of (retry_dlq id) = with_id post (txt "dlq") id (txt "retry" ∷ [])
pattern_of (delete_dlq id) = with_id del (txt "dlq") id []
pattern_of purge_dlq = fixed post (txt "dlq" ∷ txt "purge" ∷ [])
pattern_of delayed = fixed get (txt "delayed" ∷ [])
pattern_of (promote_delayed id) = with_id post (txt "delayed") id (txt "promote" ∷ [])
pattern_of (cancel_delayed id) = with_id del (txt "delayed") id []
pattern_of (throughput r q) = fixed get (txt "metrics" ∷ txt "throughput" ∷ [])
pattern_of version = fixed get (txt "system" ∷ txt "version" ∷ [])

abbrev range_request : MetricsRange → Text → Request
range_request range rest = record { method = get; path = range_path range rest; body = none }
