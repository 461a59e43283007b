-- ===== src/Stores/Preferences.antt =====
-- web/src/lib/prefs.ts: the preferences store. `env_base` is `VITE_API_BASE_URL` of the build, or
-- nothing.
pub mod Laws
use forgequeue.Common.{
  ℕ, ◌+◌, ◌*◌, ◌-◌, ◌==◌, List, [], ◌∷◌, text_eq, Bool, true, false, not, ◌&&◌, Option, none, some,
  Text, txt, is_empty, if◌then◌else◌,
}
use forgequeue.Stores.{
  ThemePref, dark, AutoRefresh, off, five_s, ten_s, thirty_s, Density, compact, Prefs, PrefsPatch,
  Item, absent, blank, malformed, foreign, stored, prefs_key, theme_key, LocalStorage,
}

-- `o ?? d` of a field of the patch: the spread lets a field that is there win.
abbrev pub or_else {ℓ} : {A : Type ℓ} → Option A → A → A
or_else none d = d
or_else (some a) d = a

-- `{ ...prefs, ...patch }`
unfoldable pub merge : Prefs → PrefsPatch → Prefs
merge p patch = record {
  theme = or_else patch.theme p.theme;
  auto_refresh = or_else patch.auto_refresh p.auto_refresh;
  density = or_else patch.density p.density;
  relative_time = or_else patch.relative_time p.relative_time;
  api_base = or_else patch.api_base p.api_base;
}

-- What `JSON.stringify(state)` stores: every field.
unfoldable pub whole : Prefs → PrefsPatch
whole p = record {
  theme = some p.theme;
  auto_refresh = some p.auto_refresh;
  density = some p.density;
  relative_time = some p.relative_time;
  api_base = some p.api_base;
}

-- `import.meta.env["VITE_API_BASE_URL"] || "/api"`
unfoldable pub default_base : Option Text → Text
default_base none = txt "/api"
default_base (some base) = if is_empty base then txt "/api" else base

unfoldable pub defaults : Option Text → Prefs
unfolding default_base
defaults env_base = record {
  theme = dark;
  auto_refresh = five_s;
  density = compact;
  relative_time = true;
  api_base = default_base env_base;
}

pub record PrefsStore : Type 0 where
  pub window : Bool
  pub state : Prefs
  pub loaded : Bool
  pub calls : ℕ
  pub storage : LocalStorage

module _ (env_base : Option Text) where
  unfoldable pub read_theme : Item ThemePref → Prefs → Prefs
  read_theme (stored t) p = record p { theme = t }
  read_theme _ p = p

  -- The body of the `try` of `load`: a text that does not parse keeps the theme from being read.
  unfoldable pub read_prefs : Item PrefsPatch → Item ThemePref → Prefs → Prefs
  read_prefs absent theme p = read_theme theme p
  read_prefs blank theme p = read_theme theme p
  read_prefs malformed theme p = p
  read_prefs foreign theme p = read_theme theme (defaults env_base)
  read_prefs (stored patch) theme p = read_theme theme (merge (defaults env_base) patch)

  unfoldable pub load : PrefsStore → PrefsStore
  load s =
      if s.loaded
      then s
      else if not s.window
      then s
      else if s.storage.readable
      then record s { loaded = true; state = read_prefs s.storage.prefs s.storage.theme s.state }
      else record s { loaded = true }

  unfoldable pub get_prefs : PrefsStore → PrefsStore × Prefs
  get_prefs s = let t = load s in (t, t.state)

  -- The two `setItem` calls: a throw of the first one skips the second.
  unfoldable pub persist : PrefsStore → PrefsStore
  persist s =
      if not (s.storage.readable && s.storage.accepts prefs_key)
      then s
      else if s.storage.accepts theme_key
      then record s {
        storage = record s.storage { prefs = stored (whole s.state); theme = stored s.state.theme };
      }
      else record s { storage = record s.storage { prefs = stored (whole s.state) } }

  unfoldable pub set_prefs : PrefsPatch → PrefsStore → PrefsStore
  set_prefs patch s =
      let t = load s in
      let u = persist (record t { state = merge t.state patch }) in record u { calls = u.calls + 1 }

  -- A new page over the same storage.
  unfoldable pub reload : PrefsStore → PrefsStore
  reload s = record {
    window = s.window;
    state = defaults env_base;
    loaded = false;
    calls = 0;
    storage = s.storage;
  }

  -- `usePrefs`: the store in a browser, the defaults in the server's render.
  unfoldable pub use_prefs : Bool → PrefsStore → PrefsStore × Prefs
  use_prefs true s = (s, defaults env_base)
  use_prefs false s = get_prefs s

unfoldable pub auto_refresh_text : AutoRefresh → Text
auto_refresh_text off = txt "off"
auto_refresh_text five_s = txt "5s"
auto_refresh_text ten_s = txt "10s"
auto_refresh_text thirty_s = txt "30s"

-- `a.replace("s", "")`
unfoldable pub remove_first : ℕ → Text → Text
remove_first c [] = []
remove_first c (d ∷ s) = if d == c then s else d ∷ remove_first c s

-- `Number(s)` of a text of decimal digits
unfoldable pub number_of : ℕ → Text → ℕ
number_of acc [] = acc
number_of acc (d ∷ s) = number_of (acc * 10 + (d - b'0')) s

-- The interval of polling in milliseconds, `none` for `false`.
unfoldable pub refresh_ms : AutoRefresh → Option ℕ
unfolding auto_refresh_text remove_first number_of text_eq
refresh_ms a =
    if text_eq (auto_refresh_text a) (txt "off")
    then none
    else some (number_of 0 (remove_first b's' (auto_refresh_text a)) * 1000)
