-- ===== src/Stores/Preferences/Laws.antt =====
-- prefs.ts: what a change writes, and what the next page reads.
use forgequeue.Common.{
  ◌≡◌, ◌∙◌, refl, ap, true, false, Option, none, some, Text, arith, if◌then◌else◌,
}
use forgequeue.Stores.{
  Prefs, PrefsPatch, stored, prefs_key, theme_key, ThemePref, off, five_s, ten_s, thirty_s,
}
use forgequeue.Stores.Preferences.{
  PrefsStore, merge, whole, defaults, read_theme, read_prefs, load, get_prefs, persist, set_prefs,
  reload, refresh_ms,
}

-- A patch of every field replaces everything, and a later patch of a field wins.
merge-whole : (p q : Prefs) → merge p (whole q) ≡ q
unfolding merge whole
merge-whole p q = refl

module _ (env_base : Option Text) where
  load_keeps :
      (s : PrefsStore)
      → ((load env_base s).window ≡ s.window)
        × ((load env_base s).storage ≡ s.storage)
        × ((load env_base s).calls ≡ s.calls)
  unfolding load
  load_keeps s = ground arith

  load_first :
      (s : PrefsStore)
      → s.window ≡ true
      → s.storage.readable ≡ true
      → (load env_base (reload env_base s)).state
        ≡ read_prefs env_base s.storage.prefs s.storage.theme (defaults env_base)
  unfolding load reload
  load_first s w r = ground arith

  -- What a change leaves in the store and in the storage.
  set_prefs_lem :
      (patch : PrefsPatch) (s : PrefsStore)
      → ((set_prefs env_base patch s).state ≡ merge (load env_base s).state patch)
        × ((set_prefs env_base patch s).window ≡ s.window)
        × ((set_prefs env_base patch s).storage.readable ≡ s.storage.readable)
        × (s.storage.readable ≡ true
            → s.storage.accepts prefs_key ≡ true
            → (set_prefs env_base patch s).storage.prefs
              ≡ stored (whole (set_prefs env_base patch s).state))
        × (s.storage.readable ≡ true
            → s.storage.accepts prefs_key ≡ true
            → (set_prefs env_base patch s).storage.theme ≡ (
                if s.storage.accepts theme_key
                then stored (set_prefs env_base patch s).state.theme
                else s.storage.theme))
  unfolding set_prefs persist
  set_prefs_lem patch s = ground (arith, load_keeps s)

  -- In a browser that keeps what is stored, the page that follows a change has exactly the
  -- preferences that the page had after it: those it had before, with the fields of the patch
  -- replaced.
  pub get_prefs-reload-set_prefs :
      (patch : PrefsPatch) (s : PrefsStore)
      → s.window ≡ true
      → s.storage.readable ≡ true
      → s.storage.accepts prefs_key ≡ true
      → s.storage.accepts theme_key ≡ true
      → (get_prefs env_base (reload env_base (set_prefs env_base patch s))).1
        ≡ merge (get_prefs env_base s).1 patch
  unfolding get_prefs read_prefs read_theme
  get_prefs-reload-set_prefs patch s w r k t =
      let u = set_prefs env_base patch s in
      let (st, w', r', p, th) = set_prefs_lem patch s in
      rw (load_first u (w' ∙ w) (r' ∙ r), p r k, th r k, t, merge-whole) st

  -- Where the theme alone could not be written, the next page shows the theme that was stored
  -- before, with the other preferences as they were left.
  pub get_prefs_old_theme :
      (patch : PrefsPatch) (s : PrefsStore) (old : ThemePref)
      → s.window ≡ true
      → s.storage.readable ≡ true
      → s.storage.accepts prefs_key ≡ true
      → s.storage.accepts theme_key ≡ false
      → s.storage.theme ≡ stored old
      → (get_prefs env_base (reload env_base (set_prefs env_base patch s))).1
        ≡ record (merge (get_prefs env_base s).1 patch) { theme = old }
  unfolding get_prefs read_prefs read_theme
  get_prefs_old_theme patch s old w r k t o =
      let u = set_prefs env_base patch s in
      let (st, w', r', p, th) = set_prefs_lem patch s in
      let kept : u.storage.theme ≡ stored old = th r k ∙ rw t o in
      rw (load_first u (w' ∙ w) (r' ∙ r), p r k, kept, merge-whole)
        (ap {A = Prefs} {B = Prefs} (λ p. record p { theme = old }) st)

-- Polling waits for the number of seconds that the setting names, and `off` is the one setting that
-- does not poll.
pub refresh_ms_lem :
    (refresh_ms off ≡ none)
    × (refresh_ms five_s ≡ some 5000)
    × (refresh_ms ten_s ≡ some 10000)
    × (refresh_ms thirty_s ≡ some 30000)
unfolding refresh_ms
refresh_ms_lem = (refl, refl, refl, refl)

-- A change is seen at once, on top of the preferences as they were.
pub get_prefs-set_prefs :
    (env_base : Option Text) (patch : PrefsPatch) (s : PrefsStore)
    → (get_prefs env_base (set_prefs env_base patch s)).1 ≡ merge (get_prefs env_base s).1 patch
unfolding get_prefs set_prefs load persist
get_prefs-set_prefs env_base patch s = ground arith
