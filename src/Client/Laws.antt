-- ===== src/Client/Laws.antt =====
-- client.ts: what one request does to the connection, the session and the next request.
use forgequeue.Common.{
  ℕ, ◌≡◌, ◌≢◌, refl, inl, inr, ◌↔◌, Bool, true, false, Option, none, some, Text, arith, ◌==◌,
  Number, Bool-cases,
}
use forgequeue.Types.{Json}
use forgequeue.Stores.{Session}
use forgequeue.Stores.Auth.{get_session, get_token, clear_session}
use forgequeue.Stores.Auth.Laws.{clear_session_lem, load_keeps}
use forgequeue.Client.{
  connected, disconnected, error, ConnState, World, Body, no_text, broken, json, Reply, failed,
  answered, Outcome, returned, api_error, other_error, error_message, is_ok, headers, start,
  finish_parsed, finish,
}

-- What the connection shows is what the caller of the request got: the last error and its kind, or
-- the time of the success with no error; a failure keeps the time of the last success.
abbrev pub Shows : Outcome → ℕ → ConnState → ConnState → Type 0
Shows (returned v) now before after =
    (after.status ≡ connected) × (after.last_success_at ≡ some now) × (after.last_error ≡ none)
Shows (api_error m s v) now before after =
    (after.status ≡ error)
    × (after.last_success_at ≡ before.last_success_at)
    × (after.last_error ≡ some m)
Shows (other_error m) now before after =
    (after.status ≡ disconnected)
    × (after.last_success_at ≡ before.last_success_at)
    × (after.last_error ≡ some m)

-- The body that `request` returns or throws along, if the text is empty or parses.
abbrev pub ParsesTo : Body → Option Json → Type 0
ParsesTo no_text v = v ≡ none
ParsesTo (broken m) v = ⊥
ParsesTo (json j) v = v ≡ some j

-- Whether the text of the reply is empty or parses.
abbrev pub is_readable : Body → Bool
is_readable (broken m) = false
is_readable _ = true

module _ (date_parse : Text → Number) (env_base : Option Text) where
  finish_parsed-Shows :
      (now status : ℕ) (st : Text) (v : Option Json) (w : World)
      → Shows
          (finish_parsed date_parse env_base now status st v w).1
          now
          w.conn
          (finish_parsed date_parse env_base now status st v w).0.conn
  unfolding finish_parsed
  finish_parsed-Shows now status st v w = elim (Bool-cases (is_ok status)) [
    | inl e ↦ rw e (refl, refl, refl)
    | inr e ↦ elim (Bool-cases (status == 401)) [
      | inl f ↦ rw (e, f) (refl, refl, refl)
      | inr f ↦ rw (e, f) (refl, refl, refl)
    ]
  ]

  -- After every reply the connection shows what the caller got.
  pub finish-Shows :
      (now : ℕ) (r : Reply) (w : World)
      → Shows
          (finish date_parse env_base now r w).1
          now
          w.conn
          (finish date_parse env_base now r w).0.conn
  unfolding finish
  finish-Shows now (failed m) w = (refl, refl, refl)
  finish-Shows now (answered s st no_text) w = finish_parsed-Shows now s st none w
  finish-Shows now (answered s st (broken m)) w = (refl, refl, refl)
  finish-Shows now (answered s st (json v)) w = finish_parsed-Shows now s st (some v) w

  -- A reply with status 401 and a body that is empty or parses ends the session in this page.
  pub finish-401 :
      (now : ℕ) (st : Text) (b : Body) (v : Option Json) (w : World)
      → ParsesTo b v
      → ((finish date_parse env_base now (answered 401 st b) w).0.auth
          ≡ clear_session date_parse now w.auth)
        × ((finish date_parse env_base now (answered 401 st b) w).1
            ≡ api_error (error_message v st) 401 v)
  unfolding finish is_ok
  finish-401 now st no_text v w p = rw p (refl, refl)
  finish-401 now st (broken m) v w p = absurd p
  finish-401 now st (json j) v w p = rw p (refl, refl)

  finish_parsed-auth :
      (now status : ℕ) (st : Text) (v : Option Json) (w : World)
      → status ≢ 401
      → (finish_parsed date_parse env_base now status st v w).0.auth ≡ w.auth
  unfolding finish_parsed
  finish_parsed-auth now status st v w ne = ground arith

  finish_parsed-window :
      (now status : ℕ) (st : Text) (v : Option Json) (w : World)
      → (finish_parsed date_parse env_base now status st v w).0.auth.window ≡ w.auth.window
  unfolding finish_parsed
  finish_parsed-window now status st v w =
      ground (arith, (clear_session_lem date_parse now w.auth).0)

  pub finish-window :
      (now : ℕ) (r : Reply) (w : World)
      → (finish date_parse env_base now r w).0.auth.window ≡ w.auth.window
  unfolding finish
  finish-window now (failed m) w = refl
  finish-window now (answered s st no_text) w = finish_parsed-window now s st none w
  finish-window now (answered s st (broken m)) w = refl
  finish-window now (answered s st (json v)) w = finish_parsed-window now s st (some v) w

  pub start-window :
      (now : ℕ) (method path : Text) (body : Option Json) (w : World)
      → (start date_parse env_base now method path body w).0.auth.window ≡ w.auth.window
  unfolding start headers get_token get_session
  start-window now method path body w = (load_keeps date_parse now w.auth).0

  -- Only status 401 ends a session: after any other reply the session store is as it was.
  pub finish_keeps-auth :
      (now status : ℕ) (st : Text) (b : Body) (w : World)
      → status ≢ 401
      → (finish date_parse env_base now (answered status st b) w).0.auth ≡ w.auth
  unfolding finish
  finish_keeps-auth now status st no_text w ne = finish_parsed-auth now status st none w ne
  finish_keeps-auth now status st (broken m) w ne = refl
  finish_keeps-auth now status st (json v) w ne = finish_parsed-auth now status st (some v) w ne

  parsed_ends_iff :
      (now status : ℕ) (st : Text) (v : Option Json) (w : World) (s : Session)
      → w.auth.state ≡ some s
      → ((finish_parsed date_parse env_base now status st v w).0.auth.state ≡ none) ↔ (status ≡ 401)
  unfolding finish_parsed is_ok
  parsed_ends_iff now status st v w s e =
      ground (arith, (clear_session_lem date_parse now w.auth).1)

  -- A reply ends the session that the page has exactly if its status is 401 and its body is empty or
  -- parses: a body that does not parse hides the status.
  pub session_ends_iff :
      (now status : ℕ) (st : Text) (b : Body) (w : World) (s : Session)
      → w.auth.state ≡ some s
      → ((finish date_parse env_base now (answered status st b) w).0.auth.state ≡ none)
        ↔ ((status ≡ 401) × (is_readable b ≡ true))
  unfolding finish
  session_ends_iff now status st no_text w s e =
      let (f, g) = parsed_ends_iff now status st none w s e in (λ h. (f h, refl), λ h. g h.0)
  session_ends_iff now status st (broken m) w s e =
      (λ h. absurd (cc (e, h)), λ h. absurd (cc (h.1)))
  session_ends_iff now status st (json v) w s e =
      let (f, g) = parsed_ends_iff now status st (some v) w s e in (λ h. (f h, refl), λ h. g h.0)
