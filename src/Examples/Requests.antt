-- ===== src/Examples/Requests.antt =====
-- web/src/api: requests of a page, their replies, and the queries and actions over them.
use forgequeue.Endpoints.Identifiers.{Member, request_of_injective}
use forgequeue.Common.{
  ℕ, ◌≡◌, ◌≢◌, refl, ◌↔◌, ◌⊎◌, inl, inr, Bool, true, false, Option, none, some, List, [], ◌∷◌, ◌++◌,
  Text, txt, arith, All, length, Number,
}
use forgequeue.Types.{Json, text, object, end, member}
use forgequeue.Stores.Auth
use forgequeue.Stores.Auth.{AuthStore, get_session}
use forgequeue.Endpoints.{m15, post, Request, request_of, retry_job}
use forgequeue.Endpoints.Encoding.{encode, is_unreserved}
use forgequeue.Client.{
  World, ConnState, initial_conn, Body, no_text, broken, json, Reply, failed, answered, Outcome,
  returned, api_error, other_error, finish, connected, disconnected, error,
}
use forgequeue.Client.Laws.{Shows, finish-Shows}
use forgequeue.Client.Runs.{Event, send, reply, sign_in, sign_out, run}
use forgequeue.Queries.{throughput, cache_key, Effects, bulk_label}
use forgequeue.Queries.Keys.{entry_of, cache_key_iff}
use forgequeue.Examples.Stores.{date_parse, alice, signed_in, prefs_page}

abbrev pub world : World
world = record { auth = signed_in; prefs = prefs_page; conn = initial_conn; calls = 0 }

abbrev message : Json
message = object (member (txt "message") (text (txt "expired")) end)

encode_test : encode (txt "a/b c") ≡ some (txt "a%2Fb%20c")
unfolding encode is_unreserved
encode_test = refl

encode_surrogate_test : encode (0xd83d ∷ 0xde00 ∷ []) ≡ some (txt "%F0%9F%98%80")
unfolding encode is_unreserved
encode_surrogate_test = refl

encode_lone_test : encode (0xd83d ∷ []) ≡ none
unfolding encode is_unreserved
encode_lone_test = refl

finish-Shows_example :
    Shows
      (finish date_parse none 300 (answered 500 (txt "Error") no_text) world).1
      300
      initial_conn
      (finish date_parse none 300 (answered 500 (txt "Error") no_text) world).0.conn
finish-Shows_example = finish-Shows date_parse none 300 (answered 500 (txt "Error") no_text) world

abbrev events : List (ℕ × Event)
events =
    (100, send (txt "GET") (txt "/queues") none)
    ∷ (200, sign_out)
    ∷ (250, sign_in alice)
    ∷ (260, reply (answered 200 (txt "OK") (json message)))
    ∷ (270, reply (failed (txt "network")))
    ∷ []

run_test : (run date_parse none events world).conn.last_success_at ≡ some 260
unfolding run finish initial_conn forgequeue.Client.is_ok
run_test = refl

cache_key_iff_example :
    (cache_key (throughput m15 none) (txt "/api")
      ≡ cache_key (throughput m15 (some (txt "all"))) (txt "/api"))
    ↔ ((entry_of (throughput m15 none) ≡ entry_of (throughput m15 (some (txt "all"))))
        × (txt "/api" ≡ txt "/api"))
cache_key_iff_example =
    cache_key_iff (throughput m15 none) (throughput m15 (some (txt "all"))) (txt "/api")
      (txt "/api")

abbrev no_effects : Effects
no_effects = record { toasts = []; invalidations = 0 }

bulk_label_test : bulk_label (txt "Retry") 12 ≡ txt "Retry 12 jobs"
unfolding bulk_label forgequeue.Common.show_nat
bulk_label_test = refl

abbrev slashed : Text
slashed = b'a' ∷ b'/' ∷ 0xd83d ∷ 0xde00 ∷ []

abbrev slashed_request : Request
slashed_request = record { method = post; path = txt "/jobs/a%2F%F0%9F%98%80/retry"; body = none }

slashed_retry : request_of (retry_job slashed) ≡ some slashed_request
unfolding request_of encode is_unreserved
slashed_retry = refl

request_of_injective_example : slashed ≡ slashed
request_of_injective_example =
    request_of_injective Member.retry_job slashed slashed slashed_request
      (ground arith, (ground arith, (ground arith, (ground arith, tt))))
      (ground arith, (ground arith, (ground arith, (ground arith, tt)))) slashed_retry slashed_retry
