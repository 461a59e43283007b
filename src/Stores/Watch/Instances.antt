-- ===== src/Stores/Watch/Instances.antt =====
-- web/src/lib/auth.ts and web/src/lib/prefs.ts: what `useSession` and `usePrefs` watch.
use forgequeue.Common.{
  ◌≡◌, refl, arith, Bool, true, not, ◌||◌, Option, none, some, ℕ, Text, Number, Bool-cases, inl,
  inr,
}
use forgequeue.Stores.{Session, Prefs, PrefsPatch}
use forgequeue.Stores.Auth
use forgequeue.Stores.Auth.{AuthStore, get_session, set_session, clear_session}
use forgequeue.Stores.Auth.Laws.{load_keeps, load_done}
use forgequeue.Stores.Preferences
use forgequeue.Stores.Preferences.{PrefsStore, get_prefs, set_prefs}
use forgequeue.Stores.Watch.{Observable}

-- A store is settled once the page has looked at the storage; the server never does.
abbrev pub session_settled : AuthStore → Bool
session_settled a = not a.window || a.loaded

abbrev pub prefs_settled : PrefsStore → Bool
prefs_settled s = not s.window || s.loaded

-- A sign-in or a sign-out.
unfoldable pub change_session : (Text → Number) → ℕ → Option Session → AuthStore → AuthStore
change_session date_parse now (some s) a = set_session date_parse now s a
change_session date_parse now none a = clear_session date_parse now a

module _ (date_parse : Text → Number) where
  pub load-settles : (now : ℕ) (a : AuthStore) → session_settled (Auth.load date_parse now a) ≡ true
  load-settles now a = elim (Bool-cases a.window) [
    | inl w ↦ ground (arith, load_done date_parse now a)
    | inr w ↦ ground (arith, load_keeps date_parse now a)
  ]

  pub load_settled :
      (now : ℕ) (a : AuthStore) → session_settled a ≡ true → Auth.load date_parse now a ≡ a
  unfolding Auth.load
  load_settled now a h = ground (arith, h)

  pub change_session-settles :
      (now : ℕ) (c : Option Session) (a : AuthStore)
      → session_settled (change_session date_parse now c a) ≡ true
  unfolding change_session set_session clear_session Auth.persist Auth.emit
  change_session-settles now (some s) a = ground (arith, load-settles now a)
  change_session-settles now none a = ground (arith, load-settles now a)

  -- `useSession`
  abbrev pub watched_session : Observable ℕ AuthStore (Option Session) (Option Session)
  unfolding get_session
  watched_session = record {
    read = get_session date_parse;
    change = change_session date_parse;
    value = λ a. a.state;
    is_settled = session_settled;
    read-value = λ now a. refl;
    read-settles = load-settles;
    read_settled = load_settled;
    change-settles = change_session-settles;
  }

module _ (env_base : Option Text) where
  pub load_prefs-settles : (s : PrefsStore) → prefs_settled (Preferences.load env_base s) ≡ true
  unfolding Preferences.load
  load_prefs-settles s = ground arith

  pub load_prefs_again : (s : PrefsStore) → prefs_settled s ≡ true → Preferences.load env_base s ≡ s
  unfolding Preferences.load
  load_prefs_again s h = ground (arith, h)

  pub set_prefs-settles :
      (patch : PrefsPatch) (s : PrefsStore) → prefs_settled (set_prefs env_base patch s) ≡ true
  unfolding set_prefs Preferences.persist
  set_prefs-settles patch s = ground (arith, load_prefs-settles s)

  -- `usePrefs`
  abbrev pub watched_prefs : Observable (Unit {0}) PrefsStore PrefsPatch Prefs
  unfolding get_prefs
  watched_prefs = record {
    read = λ e. get_prefs env_base;
    change = λ e. set_prefs env_base;
    value = λ s. s.state;
    is_settled = prefs_settled;
    read-value = λ e s. refl;
    read-settles = λ e. load_prefs-settles;
    read_settled = λ e. load_prefs_again;
    change-settles = λ e. set_prefs-settles;
  }
