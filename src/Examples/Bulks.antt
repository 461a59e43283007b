-- ===== src/Examples/Bulks.antt =====
-- A bulk action over two jobs, of which one is gone and the other one is retried; and an error whose cause
-- is itself.
use forgequeue.Common.{
  IsDistinct, has, text_eq, text_lt, map, ℕ, ◌≤◌, ◌≡◌, refl, true, none, some, List, [], ◌∷◌, any,
  length, txt, arith, if◌then◌else◌,
}
use forgequeue.Stores.Auth.{get_session, includes_permission}
use forgequeue.Endpoints.Encoding.{encode, is_unreserved}
use forgequeue.Client.{Reply, answered, no_text, error_message, is_ok, get_api_base, headers}
use forgequeue.Queries.{Effects, bulk_label}
use forgequeue.Console.Bulk.{BulkPage, retry, bulk_verb, click_bulk, settle_bulk}
use forgequeue.Console.Bulk.Sent.{Encodes, job_request}
use forgequeue.Console.Bulk.Settled.{first_failure, rejects, told, settle_bulk-click_bulk}
use forgequeue.DataTable.{Table, desc, view, sorted_rows}
use forgequeue.Console.{holds}
use forgequeue.Console.Tables.{jobs_columns}
use forgequeue.Console.Tables.Views.{shown_jobs, check_page}
use forgequeue.Console.Tables.Views.Page.{page_ids, click_bulk-check_page}
use forgequeue.Examples.Pages.{context, job, late}
use forgequeue.ErrorCapture.{parts_of, depth_limit}
use forgequeue.ErrorCapture.Causes.{object, Errors, describe_loop, unroll, describe_loop_ends}
use forgequeue.Examples.Stores.{date_parse}
use forgequeue.Examples.Requests.{world}

abbrev pub no_effects : Effects
no_effects = record { toasts = []; invalidations = 0 }

abbrev selected : BulkPage
selected = record { sel = txt "j1" ∷ txt "j2" ∷ []; world = world; sent = []; effects = no_effects }

abbrev replies : List (ℕ × Reply)
replies = (310, answered 404 (txt "Not Found") no_text) ∷ (320, answered 204 (txt "") no_text) ∷ []

ids_encoded : Encodes selected.sel (txt "j1" ∷ txt "j2" ∷ [])
unfolding encode is_unreserved
ids_encoded = (refl, (refl, tt))

settle_bulk-click_bulk_example :
    let clicked = (click_bulk date_parse none (txt "URI malformed") 300 retry selected).0 in
    let q = settle_bulk date_parse none retry selected.sel replies clicked in
    (q.effects ≡ told (bulk_label (bulk_verb retry) 2) (first_failure replies) no_effects)
    × ((get_session date_parse 400 q.world.auth).1 ≡ (
        if any (λ x. rejects x.1) replies
        then none
        else (get_session date_parse 400 clicked.world.auth).1))
    × (q.sel ≡ [])
settle_bulk-click_bulk_example =
    settle_bulk-click_bulk date_parse none (txt "URI malformed") 300 400 retry selected
      (txt "j1" ∷ txt "j2" ∷ []) replies refl ids_encoded

first_failure_test : first_failure replies ≡ some (txt "Not Found")
unfolding is_ok error_message
first_failure_test = refl

-- Every error is its own cause.
abbrev looped : Errors
looped i = record {
  stack = none;
  name = txt "Error";
  message = txt "again";
  status = none;
  cause = some (object i);
}

describe_loop_ends_example :
    (describe_loop looped 6 0 (some (object 0)) []
      ≡ some (parts_of depth_limit [] (some (unroll looped 5 (object 0)))))
    × (length (parts_of depth_limit [] (some (unroll looped 5 (object 0)))) ≤ 5)
describe_loop_ends_example = describe_loop_ends looped 6 5 (object 0) (omega arith) (omega arith)

abbrev jobs_table : Table
jobs_table = record {
  sort = some (record { key = txt "created"; dir = desc });
  size = 25;
  page = 0;
}

abbrev unselected : BulkPage
unselected = record selected { sel = [] }

-- The later job stands first.
page_is : page_ids context true (job ∷ late ∷ []) jobs_table ≡ txt "j2" ∷ txt "j1" ∷ []
unfolding shown_jobs jobs_columns view sorted_rows holds includes_permission text_eq text_lt
page_is = refl

page-IsDistinct : IsDistinct (page_ids context true (job ∷ late ∷ []) jobs_table)
unfolding has text_eq
page-IsDistinct = rw page_is (refl, (refl, tt))

page_encoded :
    Encodes (page_ids context true (job ∷ late ∷ []) jobs_table) (txt "j2" ∷ txt "j1" ∷ [])
unfolding encode is_unreserved
page_encoded = rw page_is (refl, (refl, tt))

click_bulk-check_page_example :
    let (q, whole) =
      click_bulk date_parse none
        (txt "URI malformed")
        300
        retry
        (check_page context true (job ∷ late ∷ []) jobs_table true unselected) in
    (q.sent
      ≡ map
          (job_request retry
            (get_api_base date_parse none world.prefs).1
            (headers date_parse none 300 world.auth).1)
          (txt "j2" ∷ txt "j1" ∷ []))
    × (q.sel ≡ [])
    × (q.effects ≡ no_effects)
    × (whole ≡ true)
click_bulk-check_page_example =
    click_bulk-check_page date_parse none (txt "URI malformed") 300 retry context true
      (job ∷ late ∷ []) jobs_table unselected (txt "j2" ∷ txt "j1" ∷ []) refl page-IsDistinct
      page_encoded
