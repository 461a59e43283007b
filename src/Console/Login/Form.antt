-- ===== src/Console/Login/Form.antt =====
-- web/src/routes/login.tsx: what the page shows, its fields, and the redirect to single sign-on.
use forgequeue.Common.{
  ◌≡◌, arith, Bool, true, false, not, ◌&&◌, ◌||◌, Option, none, some, ◌++◌, Text, txt, is_empty,
  if◌then◌else◌,
}
use forgequeue.Endpoints.{login}
use forgequeue.Endpoints.Encoding.{encode}
use forgequeue.Console.Login.{LoginPage, submit, trim}

-- What the user does on the page.
pub data FormEvent : Type 0 where
  type_username type_password : Text → FormEvent
  toggle_password : FormEvent

-- The page, with `showPassword` beside it.
unfoldable pub form_step : FormEvent → LoginPage × Bool → LoginPage × Bool
form_step (type_username t) (p, seen) = (record p { username = t }, seen)
form_step (type_password t) (p, seen) = (record p { password = t }, seen)
form_step toggle_password (p, seen) = (p, not seen)

-- `showOIDC`, `passwordEnabled` and `provider`
unfoldable pub show_oidc : LoginPage → Bool
show_oidc p = elim p.config [ none ↦ false | some c ↦ c.oidc ]

unfoldable pub password_enabled : LoginPage → Bool
password_enabled p = elim p.config [ none ↦ true | some c ↦ c.password ]

unfoldable pub provider_name : LoginPage → Text
provider_name p = elim p.config [
  | none ↦ txt "single sign-on"
  | some c ↦ elim c.provider [
    | none ↦ txt "single sign-on"
    | some n ↦ if is_empty n then txt "single sign-on" else n
  ]
]

-- A button: its text, and whether it is disabled.
pub record LoginButton : Type 0 where
  pub label : Text
  pub disabled : Bool

-- The card, while a code is exchanged and otherwise.
pub data LoginCard : Type 0 where
  completing : LoginCard
  sign_in :
      (intro : Text)
      → (error : Option Text) → (oidc_button : Option LoginButton) → (divider : Bool)
      → (password_button : Option LoginButton) → LoginCard

-- `disabled` of the button that submits the form
unfoldable pub submit_disabled : LoginPage → Bool
submit_disabled p = p.busy || is_empty p.username || is_empty p.password

unfoldable pub login_card : LoginPage → LoginCard
unfolding show_oidc password_enabled provider_name submit_disabled
login_card p =
    if p.exchanging
    then completing
    else sign_in
        (if show_oidc p && not (password_enabled p)
          then txt "Continue with " ++ provider_name p ++ txt " to access the console."
          else txt "Authenticate to manage queues, workers and jobs.")
        (elim p.error [ none ↦ none | some m ↦ if is_empty m then none else some m ])
        (if show_oidc p
          then some (record { label = txt "Continue with " ++ provider_name p; disabled = p.busy })
          else none)
        (show_oidc p && password_enabled p)
        (if password_enabled p
          then some (record {
            label = if p.busy then txt "Signing in…" else txt "Sign in";
            disabled = submit_disabled p;
          })
          else none)

-- The line under the card.
unfoldable pub login_note : LoginPage → Text
unfolding show_oidc provider_name
login_note p =
    if show_oidc p
    then txt "You'll be redirected to "
      ++ provider_name p
      ++ txt " to sign in. Access is scoped by role."
    else txt "Credentials are configured on the API server. Access is scoped by role."

-- `startSSO`: where the browser is sent, from the base of the API and the origin of the page;
-- `encodeURIComponent` throws on half a pair of surrogates.
unfoldable pub sso_target : (api_base origin : Text) → Option Text
sso_target api_base origin = elim (encode (origin ++ txt "/login")) [
  | none ↦ none
  | some r ↦ some (api_base ++ txt "/auth/oidc/login?redirect=" ++ r)
]

-- The button that submits is enabled only where a click calls the API: with a password, and with a
-- name that is not empty before its spaces are trimmed.
pub submit_enabled :
    (p : LoginPage)
    → submit_disabled p ≡ false
    → ((submit p).1 ≡ some (login (trim p.username) p.password))
      × (is_empty p.username ≡ false)
      × (is_empty p.password ≡ false)
unfolding submit_disabled submit
submit_enabled p h = ground arith
