-- ===== src/Examples/Stores.antt =====
-- web/src/lib/auth.ts and web/src/lib/prefs.ts: a page with a session and preferences.
use forgequeue.Common.{◌≡◌, refl, true, false, none, some, [], ◌∷◌, Text, txt, Number, num, nan}
use forgequeue.Stores.{
  queues_read, jobs_write, Session, light, dark, PrefsPatch, absent, stored, theme_key,
  LocalStorage,
}
use forgequeue.Stores.Auth
use forgequeue.Stores.Auth.{
  AuthStore, is_usable, is_expired, get_session, get_token, has_permission, includes_permission,
  permission_text, set_session, clear_session, read_session, load, persist, emit,
}
use forgequeue.Stores.Auth.Laws.{get_session-reload-set_session}
use forgequeue.Stores.Preferences
use forgequeue.Stores.Preferences.{PrefsStore, get_prefs, set_prefs, merge, defaults}
use forgequeue.Stores.Preferences.Laws.{get_prefs-reload-set_prefs}

-- A date that is there is the time 1000.
abbrev pub date_parse : Text → Number
date_parse [] = nan
date_parse (c ∷ t) = num 1000

abbrev pub alice : Session
alice = record {
  token = txt "t1";
  expires_at = txt "2026-01-01T00:00:00Z";
  user = record { username = txt "alice"; roles = []; permissions = queues_read ∷ jobs_write ∷ [] };
}

abbrev pub storage : LocalStorage
storage = record {
  readable = true;
  accepts = λ k. true;
  session = absent;
  prefs = absent;
  theme = stored light;
}

-- The quota leaves no room for the theme.
abbrev full_storage : LocalStorage
full_storage = record storage { accepts = λ k. elim k [ theme_key ↦ false | _ ↦ true ] }

abbrev pub page : AuthStore
page = record { window = true; state = none; loaded = false; calls = 0; storage = storage }

abbrev pub signed_in : AuthStore
signed_in = record {
  window = true;
  state = some alice;
  loaded = true;
  calls = 1;
  storage = storage;
}

abbrev stored_page : AuthStore
stored_page = record page { storage = record storage { session = stored alice } }

abbrev pub prefs_page : PrefsStore
prefs_page = record {
  window = true;
  state = defaults none;
  loaded = false;
  calls = 0;
  storage = storage;
}

abbrev full_page : PrefsStore
full_page = record prefs_page { storage = full_storage }

abbrev pub darker : PrefsPatch
darker = record {
  theme = some dark;
  auto_refresh = none;
  density = none;
  relative_time = some false;
  api_base = none;
}

get_session-reload-set_session_example :
    ((get_session date_parse 400 (Auth.reload (set_session date_parse 300 alice page))).1
      ≡ some alice)
    × ((get_session date_parse 400
          (Auth.reload (set_session date_parse 300 alice page))).0.storage.session
        ≡ stored alice)
unfolding is_usable is_expired
get_session-reload-set_session_example =
    get_session-reload-set_session date_parse 300 400 alice page refl refl refl

-- The same at the time at which it expires.
expired_test :
    (get_session date_parse 1000 (Auth.reload (set_session date_parse 300 alice page))).1 ≡ none
unfolding get_session load read_session is_usable is_expired set_session persist emit Auth.reload
expired_test = refl

get_prefs-reload-set_prefs_example :
    (get_prefs none (Preferences.reload none (set_prefs none darker prefs_page))).1
    ≡ merge (get_prefs none prefs_page).1 darker
get_prefs-reload-set_prefs_example =
    get_prefs-reload-set_prefs none darker prefs_page refl refl refl refl
