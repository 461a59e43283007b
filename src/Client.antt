-- ===== src/Client.antt =====
-- web/src/api/client.ts: one request over the stores, and the state of the connection.
-- `fetch` and the bodies that it brings are arguments: what the network did is a `Reply`.
pub mod Laws
pub mod Requests
pub mod Runs
pub mod Watched
use forgequeue.Common.{
  ℕ, Bool, true, false, not, ◌&&◌, Option, none, some, List, [], ◌∷◌, ◌++◌, Text, txt, is_empty,
  text_eq, leb, ltb, ◌==◌, if◌then◌else◌,
}
use forgequeue.Types.{
  Json, null, bool, number, text, array, object, Items, nil, cons, Members, end, member,
}
use forgequeue.Common.{Number, ℤ, pos, negsuc, show_nat, ◌+◌, join}
use forgequeue.Stores.{Session}
use forgequeue.Stores.Auth
use forgequeue.Stores.Auth.{AuthStore}
use forgequeue.Stores.Preferences
use forgequeue.Stores.Preferences.{PrefsStore}

pub data ConnStatus : Type 0 where
  connected connecting disconnected error : ConnStatus

pub record ConnState : Type 0 where
  pub status : ConnStatus
  pub last_success_at : Option ℕ
  pub last_error : Option Text

unfoldable pub initial_conn : ConnState
initial_conn = record { status = connecting; last_success_at = none; last_error = none }

-- The page: the module variables of `auth.ts`, `prefs.ts` and `client.ts`.
pub record World : Type 0 where
  pub auth : AuthStore
  pub prefs : PrefsStore
  pub conn : ConnState
  pub calls : ℕ

-- The body as text: `res.text()`, and what `JSON.parse` makes of it; `broken` carries the message
-- of the `SyntaxError`.
pub data Body : Type 0 where
  no_text : Body
  broken : Text → Body
  json : Json → Body

-- What `fetch` came to. `failed` is each rejection of `fetch` or of `res.text()`, the abort of the
-- timer included, with the message of its error.
pub data Reply : Type 0 where
  failed : Text → Reply
  answered : ℕ → Text → Body → Reply

-- What `request` throws, or the data that it returns.
pub data Outcome : Type 0 where
  returned : Option Json → Outcome
  api_error : Text → ℕ → Option Json → Outcome
  other_error : Text → Outcome

pub record Header : Type 0 where
  pub name : Text
  pub value : Text

pub record Outgoing : Type 0 where
  pub method : Text
  pub url : Text
  pub headers : List Header
  pub body : Option Json

-- `s.replace(/\/$/, "")`
unfoldable pub strip_slash : Text → Text
strip_slash [] = []
strip_slash (c ∷ []) = if c == b'/' then [] else c ∷ []
strip_slash (c ∷ d ∷ s) = c ∷ strip_slash (d ∷ s)

-- The text of a JSON value where a text is wanted, `String(value)`.
unfoldable pub show_ℤ : ℤ → Text
show_ℤ (pos n) = show_nat n
show_ℤ (negsuc n) = b'-' ∷ show_nat (n + 1)

unfoldable mutual
  unfolding show_ℤ join

  pub to_text : Json → Text
  to_text null = txt "null"
  to_text (bool b) = if b then txt "true" else txt "false"
  to_text (number n) = show_ℤ n
  to_text (text t) = t
  to_text (array xs) = join (to_texts xs) (txt ",")
  to_text (object fs) = txt "[object Object]"

  pub to_texts : Items → List Text
  to_texts nil = []
  to_texts (cons x xs) = to_element x (to_text x) ∷ to_texts xs

  -- `null` shows as nothing in an array
  pub to_element : Json → Text → Text
  to_element null t = []
  to_element _ t = t

-- A field of an object: the last one of that name, as `JSON.parse` keeps it.
unfoldable pub find_member : Text → Members → Option Json
find_member key end = none
find_member key (member k v fs) = elim (find_member key fs) [
  | some w ↦ some w
  | none ↦ if text_eq k key then some v else none
]

-- `data?.message ?? res.statusText`
unfoldable pub or_status_text : Option Json → Text → Text
or_status_text none status_text = status_text
or_status_text (some null) status_text = status_text
or_status_text (some v) status_text = to_text v

unfoldable pub error_message : Option Json → Text → Text
error_message (some (object fs)) status_text =
    or_status_text (find_member (txt "message") fs) status_text
error_message _ status_text = status_text

-- `res.ok`
unfoldable pub is_ok : ℕ → Bool
is_ok status = leb 200 status && ltb status 300

abbrev plain_headers : List Header
plain_headers =
    record { name = txt "Content-Type"; value = txt "application/json" }
    ∷ record { name = txt "Accept"; value = txt "application/json" }
    ∷ []

unfoldable pub header_list : Option Text → List Header
header_list none = plain_headers
header_list (some t) =
    if is_empty t
    then plain_headers
    else plain_headers ++ record { name = txt "Authorization"; value = txt "Bearer " ++ t } ∷ []

module _ (date_parse : Text → Number) (env_base : Option Text) where
  unfoldable pub get_api_base : PrefsStore → PrefsStore × Text
  get_api_base p =
      let (q, prefs) = Preferences.get_prefs env_base p in (q, strip_slash prefs.api_base)

  unfoldable pub headers : ℕ → AuthStore → AuthStore × List Header
  unfolding header_list
  headers now a = let (b, token) = Auth.get_token date_parse now a in (b, header_list token)

  -- The part of `request` before the `await`.
  unfoldable pub start : ℕ → Text → Text → Option Json → World → World × Outgoing
  start now method path body w =
      let (q, base) = get_api_base w.prefs in
      let (b, hs) = headers now w.auth in
      (
        record w { prefs = q; auth = b },
        record { method = method; url = base ++ path; headers = hs; body = body },
      )

  -- `setConn` of the failure, and the throw.
  unfoldable pub fail_conn : ConnStatus → Text → World → World
  fail_conn status message w = record w {
    conn = record w.conn { status = status; last_error = some message };
    calls = w.calls + 1;
  }

  unfoldable pub succeed_conn : ℕ → World → World
  succeed_conn now w = record w {
    conn = record { status = connected; last_success_at = some now; last_error = none };
    calls = w.calls + 1;
  }

  -- The rest of `request` once the text is parsed.
  unfoldable pub finish_parsed : ℕ → ℕ → Text → Option Json → World → World × Outcome
  unfolding fail_conn succeed_conn
  finish_parsed now status status_text parsed w =
      if is_ok status
      then (succeed_conn now w, returned parsed)
      else (let message = error_message parsed status_text in
          let cleared =
            if status == 401
            then record w { auth = Auth.clear_session date_parse now w.auth }
            else w in
          (fail_conn error message cleared, api_error message status parsed))

  -- `request` from the `await` on, at the time `now` at which the reply is there.
  unfoldable pub finish : ℕ → Reply → World → World × Outcome
  unfolding finish_parsed fail_conn
  finish now (failed message) w = (fail_conn disconnected message w, other_error message)
  finish now (answered status status_text no_text) w = finish_parsed now status status_text none w
  finish now (answered status status_text (broken message)) w =
      (fail_conn disconnected message w, other_error message)
  finish now (answered status status_text (json v)) w =
      finish_parsed now status status_text (some v) w
