-- ===== src/Examples/Servers.antt =====
-- web/src/server.ts: a request whose rendering fails.
use forgequeue.Common.{
  ℕ, ◌≡◌, arith, refl, true, false, Option, none, some, List, [], ◌∷◌, Text, txt, text_eq,
  if◌then◌else◌,
}
use forgequeue.Types.{Json, bool, text, object, end, member}
use forgequeue.Client.{find_member}
use forgequeue.ErrorCapture.{Thrown, an_error, described, describe_error, is_error_like, last_error}
use forgequeue.Server.{
  Raised, readable, Response, responded, threw, ready, Server, Handled, error_response,
  error_middleware, fetch, is_swallowed_body, is_true, is_text, get_server_entry,
}
use forgequeue.Server.Laws.{IsSwallowed, IsReady, fetch_reports, fetch-error_middleware}
use forgequeue.Server.Overlaps.{
  ServerEvent, report, settle, NoneSwallowed, server_run, server_run-NoneSwallowed,
  server_run_mixed,
}

abbrev h3_body : Text
h3_body = txt "{\"unhandled\":true,\"message\":\"HTTPError\"}"

-- The two bodies that are read below.
abbrev json_parse : Text → Option Json
json_parse [] = none
json_parse (c ∷ t) = some (
    object
      (member (txt "unhandled") (bool true) (member (txt "message") (text (txt "HTTPError")) end)))

abbrev new_stack : Text → Option Text
new_stack message = none

abbrev swallowed : Response
swallowed = record {
  status = 500;
  content_type = some (txt "application/json");
  content = readable h3_body;
}

abbrev page_found : Response
page_found = record {
  status = 200;
  content_type = some (txt "text/html");
  content = readable (txt "<html></html>");
}

abbrev no_data : Thrown
no_data = an_error none (txt "TypeError") (txt "no data") none

abbrev fresh : Server
fresh = record { entry = none; last = none }

abbrev failing : Handled
failing = record { reported = no_data ∷ []; at = 100; outcome = responded swallowed }

abbrev quiet : Handled
quiet = record { reported = []; at = 3000; outcome = responded swallowed }

abbrev finding : Handled
finding = record { reported = []; at = 100; outcome = responded page_found }

fresh-IsReady : IsReady ready fresh
unfolding get_server_entry
fresh-IsReady = refl

swallowed-IsSwallowed : IsSwallowed json_parse new_stack swallowed
unfolding forgequeue.Common.includes is_swallowed_body is_true is_text find_member text_eq
    forgequeue.Common.starts_with
swallowed-IsSwallowed = record {
  failed = ground arith;
  typed = refl;
  body = h3_body;
  has_body = refl;
  marked = refl;
}

last_is : last_error failing.reported ≡ some no_data
unfolding is_error_like
last_is = refl

page_found-IsSwallowed : ¬ IsSwallowed json_parse new_stack page_found
page_found-IsSwallowed w = ground (arith, w.failed)

fetch_reports_example :
    ((fetch json_parse new_stack 105 ready failing fresh).1 ≡ error_response)
    × ((fetch json_parse new_stack 105 ready failing fresh).2
        ≡ described (describe_error (some no_data)) ∷ [])
fetch_reports_example =
    fetch_reports json_parse new_stack 105 ready failing fresh swallowed no_data fresh-IsReady refl
      swallowed-IsSwallowed last_is (ground arith)

abbrev thrown : Raised
thrown = record { value = no_data; status_code = false }

fetch-error_middleware_example :
    let (outcome, last, logged) = error_middleware 100 (threw thrown) none in
    let h : Handled = record { reported = no_data ∷ []; at = 100; outcome = outcome } in
    let answer = fetch json_parse new_stack 105 ready h fresh in
    (logged ≡ described (describe_error (some no_data)) ∷ [])
    × (answer.1 ≡ error_response)
    × (answer.2 ≡ [])
unfolding is_error_like
fetch-error_middleware_example =
    fetch-error_middleware json_parse new_stack 100 105 ready fresh thrown fresh-IsReady refl refl

abbrev no_route : Thrown
no_route = an_error none (txt "TypeError") (txt "no route") none

server_run_mixed_example :
    (server_run json_parse new_stack
      ((100, report (no_data ∷ []))
        ∷ (110, report (no_route ∷ []))
        ∷ (120, settle 1 (responded swallowed))
        ∷ (130, settle 2 (responded swallowed))
        ∷ [])
      none).1
    ≡ record {
      request = 1;
      response = error_response;
      logged = described (describe_error (some no_route)) ∷ [];
    }
      ∷ record {
        request = 2;
        response = error_response;
        logged = described (describe_error (some no_route)) ∷ [];
      }
      ∷ []
unfolding is_error_like
server_run_mixed_example =
    server_run_mixed json_parse new_stack 100 110 120 130 1 2 (no_data ∷ []) (no_route ∷ []) no_data
      no_route swallowed swallowed none refl refl swallowed-IsSwallowed swallowed-IsSwallowed
      (ground arith) (ground arith)

abbrev overlapping : List (ℕ × ServerEvent)
overlapping =
    (100, report (no_data ∷ []))
    ∷ (105, settle 1 (responded page_found))
    ∷ (110, settle 2 (responded swallowed))
    ∷ []

server_run-NoneSwallowed_example :
    NoneSwallowed json_parse new_stack (server_run json_parse new_stack overlapping none).1
server_run-NoneSwallowed_example = server_run-NoneSwallowed json_parse new_stack overlapping none
