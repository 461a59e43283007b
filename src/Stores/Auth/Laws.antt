-- ===== src/Stores/Auth/Laws.antt =====
-- auth.ts: what survives a reload, what expiry does, and how the store changes.
use forgequeue.Common.{
  ℕ, ◌≡◌, ◌∙◌, refl, true, false, none, some, Text, arith, Number, if◌then◌else◌,
}
use forgequeue.Stores.{Permission, Session, Item, absent, stored, session_key}
use forgequeue.Stores.Auth.{
  AuthStore, is_usable, read_session, load, persist, emit, get_session, get_token, set_session,
  clear_session, has_permission, includes_permission, reload,
}

module _ (date_parse : Text → Number) where
  -- `load` leaves the environment as it is.
  read_session_keeps :
      (now : ℕ) (i : Item Session) (a : AuthStore)
      → ((read_session date_parse now i a).window ≡ a.window)
        × ((read_session date_parse now i a).storage.readable ≡ a.storage.readable)
        × ((read_session date_parse now i a).storage.accepts ≡ a.storage.accepts)
        × ((read_session date_parse now i a).loaded ≡ a.loaded)
  unfolding read_session
  read_session_keeps now (stored s) a = ground arith
  read_session_keeps now _ a = (refl, refl, refl, refl)

  pub load_keeps :
      (now : ℕ) (a : AuthStore)
      → ((load date_parse now a).window ≡ a.window)
        × ((load date_parse now a).storage.readable ≡ a.storage.readable)
        × ((load date_parse now a).storage.accepts ≡ a.storage.accepts)
  unfolding load
  load_keeps now a =
      ground (arith, read_session_keeps now a.storage.session (record a { loaded = true }))

  -- The first load of a page.
  load_first :
      (now : ℕ) (a : AuthStore)
      → a.window ≡ true
      → a.storage.readable ≡ true
      → load date_parse now (reload a)
        ≡ read_session date_parse now a.storage.session (record (reload a) { loaded = true })
  unfolding load reload
  load_first now a w r = ground arith

  load_loaded : (now : ℕ) (a : AuthStore) → a.loaded ≡ true → load date_parse now a ≡ a
  unfolding load
  load_loaded now a h = ground arith

  pub load_done :
      (now : ℕ) (a : AuthStore) → a.window ≡ true → (load date_parse now a).loaded ≡ true
  unfolding load
  load_done now a w =
      ground (arith, read_session_keeps now a.storage.session (record a { loaded = true }))

  load_no_window : (now : ℕ) (a : AuthStore) → a.window ≡ false → load date_parse now a ≡ a
  unfolding load
  load_no_window now a w = ground arith

  -- What a sign-in leaves behind.
  pub set_session_lem :
      (now : ℕ) (s : Session) (a : AuthStore)
      → ((set_session date_parse now s a).window ≡ a.window)
        × ((set_session date_parse now s a).state ≡ some s)
        × ((set_session date_parse now s a).storage.readable ≡ a.storage.readable)
        × (a.storage.readable ≡ true
            → a.storage.accepts session_key ≡ true
            → (set_session date_parse now s a).storage.session ≡ stored s)
  unfolding set_session persist emit
  set_session_lem now s a = ground (arith, load_keeps now a)

  -- What a sign-out leaves behind.
  pub clear_session_lem :
      (now : ℕ) (a : AuthStore)
      → ((clear_session date_parse now a).window ≡ a.window)
        × ((clear_session date_parse now a).state ≡ none)
        × ((clear_session date_parse now a).storage.readable ≡ a.storage.readable)
        × (a.storage.readable ≡ true → (clear_session date_parse now a).storage.session ≡ absent)
        × ((clear_session date_parse now a).loaded ≡ (load date_parse now a).loaded)
  unfolding clear_session persist emit
  clear_session_lem now a = ground (arith, load_keeps now a)

  first_read :
      (later : ℕ) (a : AuthStore)
      → a.window ≡ true
      → a.storage.readable ≡ true
      → (get_session date_parse later (reload a)).0
        ≡ read_session date_parse later a.storage.session (record (reload a) { loaded = true })
  unfolding get_session
  first_read later a w r = load_first later a w r

  -- The page that follows, at a time `later`, a page that set the session at a time `now`: in a
  -- browser that keeps what is stored, it has exactly that session if the token is not empty and
  -- the session has not expired by then, and otherwise none and no stored copy either.
  pub get_session-reload-set_session :
      (now later : ℕ) (s : Session) (a : AuthStore)
      → a.window ≡ true
      → a.storage.readable ≡ true
      → a.storage.accepts session_key ≡ true
      → ((get_session date_parse later (reload (set_session date_parse now s a))).1
          ≡ (if is_usable date_parse later s then some s else none))
        × ((get_session date_parse later
              (reload (set_session date_parse now s a))).0.storage.session
            ≡ (if is_usable date_parse later s then stored s else absent))
  unfolding get_session read_session reload
  get_session-reload-set_session now later s a w r k =
      let b = set_session date_parse now s a in
      let (w', st, r', kept) = set_session_lem now s a in
      let e = load_first later b (w' ∙ w) (r' ∙ r) in rw (e, kept r k) (ground (arith, st))

  pub get_session_signed_out :
      (now later : ℕ) (a : AuthStore)
      → a.window ≡ true
      → (get_session date_parse later (clear_session date_parse now a)).1 ≡ none
  unfolding get_session
  get_session_signed_out now later a w =
      let (w', st, r', gone, l) = clear_session_lem now a in
      rw (load_loaded later (clear_session date_parse now a) (l ∙ load_done now a w)) st

  -- After a sign-out in a browser whose storage can be reached, this page has no session, and
  -- neither has the page that follows.
  pub get_session-clear_session :
      (now later : ℕ) (a : AuthStore)
      → a.window ≡ true
      → a.storage.readable ≡ true
      → ((get_session date_parse later (clear_session date_parse now a)).1 ≡ none)
        × ((get_session date_parse later (reload (clear_session date_parse now a))).1 ≡ none)
  unfolding get_session read_session reload
  get_session-clear_session now later a w r =
      let b = clear_session date_parse now a in
      let (w', st, r', gone, l) = clear_session_lem now a in
      (get_session_signed_out now later a w, rw (load_first later b (w' ∙ w) (r' ∙ r), gone r) refl)

  -- Once loaded, the store does not look at the clock: at every later time, and so also after it
  -- has expired, a session is given out as before, with its token and its permissions.
  pub get_session_loaded :
      (later : ℕ) (s : Session) (p : Permission) (a : AuthStore)
      → a.loaded ≡ true
      → a.state ≡ some s
      → ((get_session date_parse later a).1 ≡ some s)
        × ((get_token date_parse later a).1 ≡ some s.token)
        × ((has_permission date_parse later p a).1 ≡ includes_permission s.user.permissions p)
  unfolding get_session get_token has_permission
  get_session_loaded later s p a l e = ground (arith, load_loaded later a l)

  read_session_sound :
      (now : ℕ) (s : Session) (i : Item Session) (a : AuthStore)
      → a.state ≡ none
      → (read_session date_parse now i a).state ≡ some s
      → (i ≡ stored s) × (is_usable date_parse now s ≡ true)
  unfolding read_session
  read_session_sound now s (stored t) a e h = ground arith
  read_session_sound now s absent a e h = cc
  read_session_sound now s _ a e h = absurd (cc)

  -- The first read of a page gives only a session that is stored and usable at that time, and
  -- only in a browser.
  pub get_session_first :
      (now : ℕ) (s : Session) (a : AuthStore)
      → (get_session date_parse now (reload a)).1 ≡ some s
      → (a.storage.session ≡ stored s) × (is_usable date_parse now s ≡ true) × (a.window ≡ true)
  unfolding get_session load reload
  get_session_first now s a h =
      let fresh = record (reload a) { loaded = true } in
      ground (arith, read_session_sound now s a.storage.session fresh)
