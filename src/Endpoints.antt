-- ===== src/Endpoints.antt =====
-- web/src/api/endpoints.ts: the calls of the API, and the method, path and body of each.
pub mod Encoding
pub mod Paths
pub mod Identifiers
use forgequeue.Common.{[], Option, none, some, Text, txt, ◌++◌, Bool, is_empty, if◌then◌else◌}
use forgequeue.Types.{Json, text, object, end, member}
use forgequeue.Endpoints.Encoding.{encode}

pub data MetricsRange : Type 0 where
  m5 m15 h1 h6 h24 d7 : MetricsRange

unfoldable pub range_text : MetricsRange → Text
range_text m5 = txt "5m"
range_text m15 = txt "15m"
range_text h1 = txt "1h"
range_text h6 = txt "6h"
range_text h24 = txt "24h"
range_text d7 = txt "7d"

pub record AuthConfig : Type 0 where
  pub password : Bool
  pub oidc : Bool
  pub provider : Option Text

-- The members of `Api`, with their arguments.
pub data Call : Type 0 where
  auth_config : Call
  login : (username password : Text) → Call
  exchange_oidc : (code : Text) → Call
  me stats queues : Call
  queue queue_jobs job : Text → Call
  retry_job requeue_job delete_job : Text → Call
  pause_queue resume_queue purge_queue : Text → Call
  workers : Call
  worker : Text → Call
  dlq : Call
  retry_dlq delete_dlq : Text → Call
  purge_dlq delayed : Call
  promote_delayed cancel_delayed : Text → Call
  throughput : MetricsRange → Option Text → Call
  version : Call

pub data Method : Type 0 where
  get post del : Method

pub record Request : Type 0 where
  pub method : Method
  pub path : Text
  pub body : Option Json

abbrev plain : Method → Text → Option Request
plain m path = some (record { method = m; path = path; body = none })

-- A path with an identifier in it; `none` is the `URIError` of `encodeURIComponent`.
abbrev pub at : Method → Text → Option Text → Text → Option Request
at m before none after = none
at m before (some e) after =
    some (record { method = m; path = before ++ (e ++ after); body = none })

-- `?range=…` and, for one queue, `&queue=…`
abbrev range_path : MetricsRange → Text → Text
range_path r rest = txt "/metrics/throughput?range=" ++ (range_text r ++ rest)

abbrev queue_query : MetricsRange → Option Text → Option Request
queue_query r none = plain get (range_path r [])
queue_query r (some q) =
    if is_empty q
    then plain get (range_path r [])
    else elim (encode q) [ none ↦ none | some e ↦ plain get (range_path r (txt "&queue=" ++ e)) ]

-- `httpApi`
unfoldable pub request_of : Call → Option Request
request_of auth_config = plain get (txt "/auth/config")
request_of (login username password) = some (record {
  method = post;
  path = txt "/auth/login";
  body = some (
      object
        (member (txt "username") (text username) (member (txt "password") (text password) end)));
})
request_of (exchange_oidc code) = some (record {
  method = post;
  path = txt "/auth/oidc/exchange";
  body = some (object (member (txt "code") (text code) end));
})
request_of me = plain get (txt "/auth/me")
request_of stats = plain get (txt "/system/stats")
request_of queues = plain get (txt "/queues")
request_of (queue n) = at get (txt "/queues/") (encode n) []
request_of (queue_jobs n) = at get (txt "/queues/") (encode n) (txt "/jobs")
request_of (job id) = at get (txt "/jobs/") (encode id) []
request_of (retry_job id) = at post (txt "/jobs/") (encode id) (txt "/retry")
request_of (requeue_job id) = at post (txt "/jobs/") (encode id) (txt "/requeue")
request_of (delete_job id) = at del (txt "/jobs/") (encode id) []
request_of (pause_queue n) = at post (txt "/queues/") (encode n) (txt "/pause")
request_of (resume_queue n) = at post (txt "/queues/") (encode n) (txt "/resume")
request_of (purge_queue n) = at post (txt "/queues/") (encode n) (txt "/purge")
request_of workers = plain get (txt "/workers")
request_of (worker id) = at get (txt "/workers/") (encode id) []
request_of dlq = plain get (txt "/dlq")
request_of (retry_dlq id) = at post (txt "/dlq/") (encode id) (txt "/retry")
request_of (delete_dlq id) = at del (txt "/dlq/") (encode id) []
request_of purge_dlq = plain post (txt "/dlq/purge")
request_of delayed = plain get (txt "/delayed")
request_of (promote_delayed id) = at post (txt "/delayed/") (encode id) (txt "/promote")
request_of (cancel_delayed id) = at del (txt "/delayed/") (encode id) []
request_of (throughput r q) = queue_query r q
request_of version = plain get (txt "/system/version")
