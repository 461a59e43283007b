-- ===== src/Server.antt =====
-- web/src/server.ts and web/src/start.ts: how the server answers where rendering a page fails.
-- `JSON.parse` and the stack of a new error are arguments; what the server's entry does with a
-- request is an argument of each call.
pub mod ErrorPage
pub mod Laws
pub mod Overlaps
use forgequeue.Common.{
  ℕ, Bool, true, false, not, ◌&&◌, Option, none, some, List, [], ◌∷◌, ◌++◌, Text, txt, ltb,
  includes, text_eq, if◌then◌else◌,
}
use forgequeue.Types.{Json, bool, text, object, Members}
use forgequeue.Client.{find_member}
use forgequeue.ErrorCapture.{Thrown, an_error, Captured, Logged, console_error, consume}
use forgequeue.Server.ErrorPage.{render_error_page}

-- What is thrown; `status_code` says whether it is an object with a `statusCode`.
pub record Raised : Type 0 where
  pub value : Thrown
  pub status_code : Bool

-- What `text()` gives.
pub data BodyContent : Type 0 where
  readable : Text → BodyContent
  unreadable : Raised → BodyContent

pub record Response : Type 0 where
  pub status : ℕ
  pub content_type : Option Text
  pub content : BodyContent

pub data Served : Type 0 where
  responded : Response → Served
  threw : Raised → Served

-- What an `import()` came to.
pub data Imported : Type 0 where
  ready : Imported
  refused : Raised → Imported

-- `serverEntryPromise` and `lastCapturedError`
pub record Server : Type 0 where
  pub entry : Option Imported
  pub last : Option Captured

-- What the handler of the server's entry does with a request: what it passes to `console.error`, the
-- time of that, and how it ends.
pub record Handled : Type 0 where
  pub reported : List Thrown
  pub at : ℕ
  pub outcome : Served

unfoldable pub error_response : Response
error_response = record {
  status = 500;
  content_type = some (txt "text/html; charset=utf-8");
  content = readable render_error_page;
}

-- `errorMiddleware`, on what `next()` came to, with what is captured and logged.
unfoldable pub error_middleware :
    ℕ → Served → Option Captured → Served × Option Captured × List Logged
error_middleware now (responded r) last = (responded r, last, [])
error_middleware now (threw e) last =
    if e.status_code
    then (threw e, last, [])
    else let (last', logged) = console_error now (e.value ∷ []) last in
      (responded error_response, last', logged)

-- `response.headers.get("content-type") ?? ""`
abbrev pub content_type_of : Response → Text
content_type_of r = elim r.content_type [ none ↦ [] | some t ↦ t ]

-- `value === true`
unfoldable pub is_true : Option Json → Bool
is_true (some (bool b)) = b
is_true _ = false

-- `value === t`
unfoldable pub is_text : Option Json → Text → Bool
is_text (some (text s)) t = text_eq s t
is_text _ t = false

-- `isH3SwallowedErrorBody`, on the parsed body. To read a property of `null` throws, and of another
-- value that is no object gives undefined.
unfoldable pub is_swallowed_body : Option Json → Bool
is_swallowed_body (some (object fs)) =
    is_true (find_member (txt "unhandled") fs)
    && is_text (find_member (txt "message") fs) (txt "HTTPError")
is_swallowed_body _ = false

-- `getServerEntry`: the first import stays, also where it failed.
unfoldable pub get_server_entry : Imported → Server → Server × Imported
get_server_entry imported s = elim s.entry [
  | some i ↦ (s, i)
  | none ↦ (record s { entry = some imported }, imported)
]

module _ (json_parse : Text → Option Json) (new_stack : Text → Option Text) where
  -- `consumeLastCapturedError() ?? new Error(...)`
  abbrev pub or_new_error : Option Thrown → Text → Thrown
  or_new_error (some e) body = e
  or_new_error none body =
      let message = txt "h3 swallowed SSR error: " ++ body in
      an_error (new_stack message) (txt "Error") message none

  -- `normalizeCatastrophicSsrResponse`
  unfoldable pub normalize : ℕ → Response → Option Captured → Served × Option Captured × List Logged
  normalize now r last =
      if ltb r.status 500
      then (responded r, last, [])
      else if not (includes (content_type_of r) (txt "application/json"))
      then (responded r, last, [])
      else elim r.content [
        | unreadable e ↦ (threw e, last, [])
        | readable body ↦
            if not (is_swallowed_body (json_parse body))
            then (responded r, last, [])
            else let (last', captured) = consume now last in
              let (last'', logged) = console_error now (or_new_error captured body ∷ []) last' in
              (responded error_response, last'', logged)
      ]

  -- The `catch` of `fetch`.
  unfoldable pub catch_error : ℕ → Raised → Server → Server × Response × List Logged
  catch_error now e s =
      let (last', logged) = console_error now (e.value ∷ []) s.last in
      (record s { last = last' }, error_response, logged)

  -- `fetch`: the server after it, the response, and what `fetch` itself logs.
  unfoldable pub fetch : ℕ → Imported → Handled → Server → Server × Response × List Logged
  fetch now imported h s =
      let (s', i) = get_server_entry imported s in
      elim i [
        | refused e ↦ catch_error now e s'
        | ready ↦
            let (last', _) = console_error h.at h.reported s'.last in
            elim h.outcome [
              | threw e ↦ catch_error now e (record s' { last = last' })
              | responded r ↦
                  let (settled, last'', logged) = normalize now r last' in
                  elim settled [
                    | responded r' ↦ (record s' { last = last'' }, r', logged)
                    | threw e ↦ catch_error now e (record s' { last = last'' })
                  ]
            ]
      ]
