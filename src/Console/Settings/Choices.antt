-- ===== src/Console/Settings/Choices.antt =====
-- web/src/routes/settings.tsx and the bar of web/src/components/app-shell.tsx: what a choice changes.
use forgequeue.Common.{
  ℕ, zero, suc, ◌≡◌, arith, Option, none, some, List, [], ◌∷◌, map, filter_by, Text, text_eq,
}
use forgequeue.Stores.{Prefs}
use forgequeue.Stores.Preferences.{auto_refresh_text, PrefsStore, get_prefs, set_prefs, merge}
use forgequeue.Stores.Preferences.Laws.{get_prefs-set_prefs}
use forgequeue.Console.Settings.{
  Radio, theme_text, density_text, theme_label, themes, intervals, densities, topbar_intervals,
  topbar_themes, seg, seg_theme, seg_density, seg_interval,
}

-- The radio groups of the console.
pub data Group : Type 0 where
  bar_intervals bar_themes page_themes page_densities page_intervals : Group

abbrev pub radios : Group → Prefs → List Radio
radios bar_intervals = topbar_intervals
radios bar_themes = topbar_themes
radios page_themes = seg_theme
radios page_densities = seg_density
radios page_intervals = seg_interval

-- The field of the preferences that a group is about.
pub data Field : Type 0 where
  theme auto_refresh density : Field

abbrev pub field_of : Group → Field
field_of bar_intervals = auto_refresh
field_of page_intervals = auto_refresh
field_of bar_themes = theme
field_of page_themes = theme
field_of page_densities = density

abbrev pub nth : ℕ → List Radio → Option Radio
nth n [] = none
nth zero (r ∷ rs) = some r
nth (suc n) (r ∷ rs) = nth n rs

abbrev pub checked_labels : List Radio → List Text
checked_labels rs = map (λ r. r.label) (filter_by (λ r. r.checked) rs)

-- The preferences differ in no other field than this one.
abbrev pub SameBut : Field → Prefs → Prefs → Type 0
SameBut theme p q =
    (p.auto_refresh ≡ q.auto_refresh)
    × (p.density ≡ q.density)
    × (p.relative_time ≡ q.relative_time)
    × (p.api_base ≡ q.api_base)
SameBut auto_refresh p q =
    (p.theme ≡ q.theme)
    × (p.density ≡ q.density)
    × (p.relative_time ≡ q.relative_time)
    × (p.api_base ≡ q.api_base)
SameBut density p q =
    (p.theme ≡ q.theme)
    × (p.auto_refresh ≡ q.auto_refresh)
    × (p.relative_time ≡ q.relative_time)
    × (p.api_base ≡ q.api_base)

choose_merge :
    (g : Group) (n : ℕ) (r : Radio) (p : Prefs)
    → nth n (radios g p) ≡ some r
    → (checked_labels (radios g (merge p r.patch)) ≡ r.label ∷ [])
      × SameBut (field_of g) (merge p r.patch) p
unfolding topbar_intervals topbar_themes seg_theme seg_density seg_interval seg themes intervals
    densities theme_text density_text auto_refresh_text theme_label text_eq merge
choose_merge g zero r p h = ground arith
choose_merge g (suc zero) r p h = ground arith
choose_merge g (suc (suc zero)) r p h = ground arith
choose_merge g (suc (suc (suc zero))) r p h = ground arith
choose_merge g (suc (suc (suc (suc n)))) r p h = ground arith

-- A click on a button of a radio group, in the bar or on the page of settings, leaves that button as
-- the only one of its group that is checked, and changes no preference but the one that the group is
-- about.
pub choose_lem :
    (env_base : Option Text) (g : Group) (n : ℕ) (r : Radio) (s : PrefsStore)
    → nth n (radios g (get_prefs env_base s).1) ≡ some r
    → let after = (get_prefs env_base (set_prefs env_base r.patch s)).1 in
      (checked_labels (radios g after) ≡ r.label ∷ [])
      × SameBut (field_of g) after (get_prefs env_base s).1
choose_lem env_base g n r s h =
    rw (get_prefs-set_prefs env_base r.patch s) (choose_merge g n r (get_prefs env_base s).1 h)
