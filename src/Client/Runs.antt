-- ===== src/Client/Runs.antt =====
-- client.ts with auth.ts and prefs.ts: the page between requests. Requests overlap as the user
-- clicks, and nothing ties a reply to the session that its request was sent with, so a run is any
-- sequence of sends, replies and changes of the stores.
use forgequeue.Common.{
  ℕ, ◌≡◌, ◌∙◌, ap, refl, true, Option, none, some, List, [], ◌∷◌, ◌++◌, Text, Number,
}
use forgequeue.Types.{Json}
use forgequeue.Stores.{Session, PrefsPatch}
use forgequeue.Stores.Auth.{get_session, set_session, clear_session}
use forgequeue.Stores.Auth.Laws.{set_session_lem, clear_session_lem, get_session_signed_out}
use forgequeue.Stores.Preferences.{set_prefs}
use forgequeue.Client.{
  ConnStatus, connected, connecting, disconnected, error, ConnState, World, Body, Reply, answered,
  start, finish,
}
use forgequeue.Client.Laws.{finish-401, ParsesTo, start-window, finish-window}

pub data Event : Type 0 where
  send : Text → Text → Option Json → Event
  reply : Reply → Event
  sign_in : Session → Event
  sign_out : Event
  change_prefs : PrefsPatch → Event

-- The status and the fields that it is shown with agree: `connected` with a time of success and no
-- error, a failure with an error, and `connecting` with neither.
abbrev pub Agrees : ConnStatus → Option ℕ → Option Text → Type 0
Agrees connected t e = ((n : ℕ) × (t ≡ some n)) × (e ≡ none)
Agrees connecting t e = (t ≡ none) × (e ≡ none)
Agrees disconnected t e = (m : Text) × (e ≡ some m)
Agrees error t e = (m : Text) × (e ≡ some m)

abbrev pub IsConsistent : ConnState → Type 0
IsConsistent c = Agrees c.status c.last_success_at c.last_error

module _ (date_parse : Text → Number) (env_base : Option Text) where
  unfoldable pub handle : ℕ × Event → World → World
  handle (now, send method path body) w = (start date_parse env_base now method path body w).0
  handle (now, reply r) w = (finish date_parse env_base now r w).0
  handle (now, sign_in s) w = record w { auth = set_session date_parse now s w.auth }
  handle (now, sign_out) w = record w { auth = clear_session date_parse now w.auth }
  handle (now, change_prefs p) w = record w { prefs = set_prefs env_base p w.prefs }

  unfoldable pub run : List (ℕ × Event) → World → World
  unfolding handle
  run [] w = w
  run (e ∷ events) w = run events (handle e w)

  handle-window : (e : ℕ × Event) (w : World) → (handle e w).auth.window ≡ w.auth.window
  unfolding handle
  handle-window (now, send method path body) w =
      start-window date_parse env_base now method path body w
  handle-window (now, reply r) w = finish-window date_parse env_base now r w
  handle-window (now, sign_in s) w = (set_session_lem date_parse now s w.auth).0
  handle-window (now, sign_out) w = (clear_session_lem date_parse now w.auth).0
  handle-window (now, change_prefs p) w = refl

  run-window : (events : List (ℕ × Event)) (w : World) → (run events w).auth.window ≡ w.auth.window
  unfolding run
  run-window [] w = refl
  run-window (e ∷ events) w = run-window events (handle e w) ∙ handle-window e w

  run-append : (xs ys : List (ℕ × Event)) (w : World) → run (xs ++ ys) w ≡ run ys (run xs w)
  unfolding run
  run-append [] ys w = refl
  run-append (e ∷ xs) ys w = run-append xs ys (handle e w)

  -- A reply with status 401 and a body that is empty or parses ends whatever session the page has
  -- when it comes, after any run in a browser: also one that the user signed in to after the
  -- rejected request was sent.
  pub run_ends_session :
      (events : List (ℕ × Event)) (now later : ℕ) (st : Text) (b : Body) (v : Option Json)
      (w : World)
      → w.auth.window ≡ true
      → ParsesTo b v
      → (get_session date_parse later
          (run (events ++ (now, reply (answered 401 st b)) ∷ []) w).auth).1
        ≡ none
  unfolding run handle
  run_ends_session events now later st b v w win p =
      let u = run events w in
      rw (run-append events ((now, reply (answered 401 st b)) ∷ []) w) (
        ap (λ a. (get_session date_parse later a).1)
          (finish-401 date_parse env_base now st b v u p).0
        ∙ get_session_signed_out date_parse now later u.auth (run-window events w ∙ win))
