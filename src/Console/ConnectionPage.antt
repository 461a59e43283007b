-- ===== src/Console/ConnectionPage.antt =====
-- web/src/routes/connection.tsx: the form of the base URL, and the test of the connection.
use forgequeue.Common.{
  ℕ, ◌+◌, arith, ◌≡◌, refl, ◌∙◌, ◌⊎◌, inl, inr, Bool, true, false, Option, none, some, [], ◌∷◌,
  ◌++◌, Text, txt, Number, if◌then◌else◌,
}
use forgequeue.Types.{Json}
use forgequeue.Stores.Preferences.{PrefsStore, get_prefs, set_prefs, merge}
use forgequeue.Stores.Preferences.Laws.{get_prefs-set_prefs}
use forgequeue.Endpoints.{Call, version}
use forgequeue.Client.{World, Outcome, returned, api_error, other_error, start}
use forgequeue.Client.Requests.{ends_in_slash, start-url}
use forgequeue.Queries.{Effects, success, failure}
use forgequeue.Console.Settings.{no_change}

-- The state of the page.
pub record ConnectionForm : Type 0 where
  pub base : Text
  pub server_version : Option Text
  pub testing : Bool

-- The base starts as the one in use.
unfoldable pub open_form : Option Text → PrefsStore → ConnectionForm
open_form env_base p = record {
  base = (get_prefs env_base p).1.api_base;
  server_version = none;
  testing = false;
}

-- `onSubmit`
unfoldable pub save_base : Option Text → ConnectionForm → World × Effects → World × Effects
save_base env_base form (w, e) = (
  record w { prefs = set_prefs env_base (record no_change { api_base = some form.base }) w.prefs },
  record e {
    toasts = e.toasts ++ success (txt "API base updated") ∷ [];
    invalidations = e.invalidations + 1;
  },
)

-- `test` up to its `await`. The button is disabled while a test is under way.
unfoldable pub start_test : ConnectionForm → ConnectionForm × Option Call
start_test form =
    if form.testing then (form, none) else (record form { testing = true }, some version)

-- `test` from its `await` on, `finally` included. The code's cast of the data to its version is
-- `as_version`.
unfoldable pub test_settled :
    (Option Json → Text) → Outcome → ConnectionForm × Effects → ConnectionForm × Effects
test_settled as_version (returned v) (form, e) = (
  record form { server_version = some (as_version v); testing = false },
  record e { toasts = e.toasts ++ success (txt "Connected · " ++ as_version v) ∷ [] },
)
test_settled as_version (api_error m status v) (form, e) = (
  record form { testing = false },
  record e { toasts = e.toasts ++ failure (txt "Connection failed: " ++ m) ∷ [] },
)
test_settled as_version (other_error m) (form, e) = (
  record form { testing = false },
  record e { toasts = e.toasts ++ failure (txt "Connection failed: " ++ m) ∷ [] },
)

save_base-api_base :
    (env_base : Option Text) (form : ConnectionForm) (w : World) (e : Effects)
    → (get_prefs env_base (save_base env_base form (w, e)).0.prefs).1.api_base ≡ form.base
unfolding save_base merge
save_base-api_base env_base form w e =
    rw (get_prefs-set_prefs env_base (record no_change { api_base = some form.base }) w.prefs) refl

-- Once a base URL is saved, every request goes to that URL followed by the path, whether the URL was
-- written with a slash at its end or without one.
pub start-save_base :
    (date_parse : Text → Number) (env_base : Option Text) (now : ℕ) (method path : Text)
    (body : Option Json) (form : ConnectionForm) (w : World) (e : Effects) (base : Text)
    → ends_in_slash base ≡ false
    → (form.base ≡ base) ⊎ (form.base ≡ base ++ b'/' ∷ [])
    → (start date_parse env_base now method path body (save_base env_base form (w, e)).0).1.url
      ≡ base ++ path
start-save_base date_parse env_base now method path body form w e base h c =
    let saved = save_base-api_base env_base form w e in
    start-url date_parse env_base now method path body (save_base env_base form (w, e)).0 base h
      (elim c [ inl a ↦ inl (saved ∙ a) | inr b ↦ inr (saved ∙ b) ])

-- A test that is not under way calls the API once, and a second click calls it no more until the first
-- call has settled; then the button can be used again. A success shows the version, a failure leaves
-- the version that was shown before, and neither changes the text of the form.
pub test_settled-start_test :
    (as_version : Option Json → Text) (o : Outcome) (form : ConnectionForm) (e : Effects)
    → form.testing ≡ false
    → let sent = (start_test form).0 in
      let (settled, e') = test_settled as_version o (sent, e) in
      ((start_test form).1 ≡ some version)
      × ((start_test sent).1 ≡ none)
      × ((start_test settled).1 ≡ some version)
      × (settled.base ≡ form.base)
      × (settled.server_version
          ≡ elim o [ returned v ↦ some (as_version v) | _ ↦ form.server_version ])
unfolding start_test test_settled
test_settled-start_test as_version (returned v) form e h = ground arith
test_settled-start_test as_version (api_error m status v) form e h = ground arith
test_settled-start_test as_version (other_error m) form e h = ground arith
