-- ===== src/Console/Login.antt =====
-- web/src/routes/login.tsx: the form, the redirect of single sign-on, and what the root then shows.
pub mod Form
use forgequeue.Common.{
  ℕ, ◌≡◌, refl, Bool, true, false, ◌||◌, ◌&&◌, Option, none, some, [], ◌∷◌, Text, txt, text_eq,
  is_empty, leb, ◌==◌, if◌then◌else◌, Number,
}
use forgequeue.Types.{Json}
use forgequeue.Stores.{Session}
use forgequeue.Stores.Auth.{set_session, use_session}
use forgequeue.Stores.Auth.Laws.{clear_session_lem}
use forgequeue.Endpoints.{Call, login, exchange_oidc, AuthConfig}
use forgequeue.Client.{World, Outcome, returned, api_error, other_error, Body, answered, finish}
use forgequeue.Client.Laws.{ParsesTo, finish-401}
use forgequeue.Console.Shell.{redirect_to_login, root_content}

-- The state of the page.
pub record LoginPage : Type 0 where
  pub config : Option AuthConfig
  pub username : Text
  pub password : Text
  pub error : Option Text
  pub busy : Bool
  pub exchanging : Bool

-- The space characters of `trim`.
unfoldable pub is_space : ℕ → Bool
is_space c =
    leb 9 c && leb c 13
    || c == 32
    || c == 0xa0
    || c == 0x1680
    || leb 0x2000 c && leb c 0x200a
    || c == 0x2028
    || c == 0x2029
    || c == 0x202f
    || c == 0x205f
    || c == 0x3000
    || c == 0xfeff

unfoldable pub trim_start : Text → Text
unfolding is_space
trim_start [] = []
trim_start (c ∷ s) = let rest = trim_start s in if is_space c then rest else c ∷ s

unfoldable pub trim_end : Text → Text
unfolding is_space
trim_end [] = []
trim_end (c ∷ s) = let rest = trim_end s in if is_empty rest && is_space c then [] else c ∷ rest

-- `username.trim()`
unfoldable pub trim : Text → Text
trim s = trim_end (trim_start s)

-- `.catch` of the configuration: the password form alone.
unfoldable pub config_of : Option AuthConfig → LoginPage → LoginPage
config_of (some c) p = record p { config = some c }
config_of none p = record p {
  config = some (record { password = true; oidc = false; provider = none });
}

-- `onSubmit` up to its `await`: the page, and the call if there is one.
unfoldable pub submit : LoginPage → LoginPage × Option Call
submit p =
    if p.busy
    then (p, none)
    else (record p { busy = true; error = none }, some (login (trim p.username) p.password))

-- What an effect leaves: the page, the stores, and whether it goes to "/".
pub record Settled : Type 0 where
  pub page : LoginPage
  pub world : World
  pub goes_home : Bool

-- The code's cast of the data to a session is `as_session`.
module _ (date_parse : Text → Number) (as_session : Option Json → Session) where
  -- `onSubmit` from its `await` on, `finally` included
  unfoldable pub submitted : ℕ → Outcome → LoginPage → World → Settled
  submitted now (returned v) p w = record {
    page = record p { busy = false };
    world = record w { auth = set_session date_parse now (as_session v) w.auth };
    goes_home = true;
  }
  submitted now (api_error m status v) p w = record {
    page = record p { error = some m; busy = false };
    world = w;
    goes_home = false;
  }
  submitted now (other_error m) p w = record {
    page = record p { error = some (txt "Unable to reach the API server"); busy = false };
    world = w;
    goes_home = false;
  }

  -- `.then` and `.catch` of the exchange
  unfoldable pub exchanged : ℕ → Outcome → LoginPage → World → Settled
  exchanged now (returned v) p w = record {
    page = p;
    world = record w { auth = set_session date_parse now (as_session v) w.auth };
    goes_home = true;
  }
  exchanged now (api_error m status v) p w = record {
    page = record p { error = some m; exchanging = false };
    world = w;
    goes_home = false;
  }
  exchanged now (other_error m) p w = record {
    page = record p { error = some (txt "Sign-in failed. Please try again."); exchanging = false };
    world = w;
    goes_home = false;
  }

  -- What the user sees after the call: the session and no error, or the error and the session as it was.
  abbrev pub Answers : Outcome → World → Settled → Type 0
  Answers (returned v) w s =
      (s.world.auth.state ≡ some (as_session v)) × (s.page.error ≡ none) × (s.goes_home ≡ true)
  Answers _ w s = (s.world ≡ w) × ((m : Text) × (s.page.error ≡ some m)) × (s.goes_home ≡ false)

-- The effect that completes a redirect: what it calls, from the parameters `code` and `error`. An empty
-- parameter counts as none.
abbrev parameter : Option Text → Option Text
parameter none = none
parameter (some t) = if is_empty t then none else some t

abbrev sso_message : Text → Text
sso_message e =
    if text_eq e (txt "access_denied")
    then txt "Sign-in was cancelled."
    else txt "Sign-in failed. Please try again."

unfoldable pub start_exchange : (code sso_error : Option Text) → LoginPage → LoginPage × Option Call
start_exchange code sso_error p = elim (parameter sso_error) [
  | some e ↦ (record p { error = some (sso_message e) }, none)
  | none ↦ elim (parameter code) [
    | some c ↦ (record p { exchanging = true }, some (exchange_oidc c))
    | none ↦ (p, none)
  ]
]

-- A reply with status 401 and a body that is empty or parses makes the root redirect to the login page,
-- from every page but that one.
pub root_content-finish :
    (date_parse : Text → Number) (env_base : Option Text) (now : ℕ) (st : Text) (b : Body)
    (v : Option Json) (path : Text) (w : World)
    → text_eq path (txt "/login") ≡ false
    → ParsesTo b v
    → root_content true path
        (use_session false (finish date_parse env_base now (answered 401 st b) w).0.auth)
      ≡ redirect_to_login
unfolding root_content use_session
root_content-finish date_parse env_base now st b v path w h p =
    let e = (finish-401 date_parse env_base now st b v w p).0 in
    let s = (clear_session_lem date_parse now w.auth).1 in rw (h, e, s) refl
