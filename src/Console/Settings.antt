-- ===== src/Console/Settings.antt =====
-- web/src/routes/settings.tsx, web/src/components/toolbar.tsx and the bar of
-- web/src/components/app-shell.tsx: the controls that change a preference.
pub mod Choices
use forgequeue.Common.{
  ℕ, Bool, true, false, Option, none, some, List, [], ◌∷◌, map, Text, txt, text_eq, if◌then◌else◌,
}
use forgequeue.Stores.{
  ThemePref, light, dark, system, AutoRefresh, off, five_s, ten_s, thirty_s, Density, compact,
  comfortable, Prefs, PrefsPatch,
}
use forgequeue.Stores.Preferences.{auto_refresh_text}

-- A button of a radio group: its text, whether it is checked, and what a click passes to `setPrefs`.
pub record Radio : Type 0 where
  pub label : Text
  pub checked : Bool
  pub patch : PrefsPatch

-- `{}`
abbrev pub no_change : PrefsPatch
no_change = record {
  theme = none;
  auto_refresh = none;
  density = none;
  relative_time = none;
  api_base = none;
}

unfoldable pub theme_text : ThemePref → Text
theme_text light = txt "light"
theme_text dark = txt "dark"
theme_text system = txt "system"

unfoldable pub density_text : Density → Text
density_text compact = txt "compact"
density_text comfortable = txt "comfortable"

unfoldable pub themes : List ThemePref
themes = light ∷ dark ∷ system ∷ []

unfoldable pub intervals : List AutoRefresh
intervals = off ∷ five_s ∷ ten_s ∷ thirty_s ∷ []

unfoldable pub densities : List Density
densities = compact ∷ comfortable ∷ []

-- The `label` of `THEMES`
unfoldable pub theme_label : ThemePref → Text
theme_label light = txt "Light"
theme_label dark = txt "Dark"
theme_label system = txt "System"

-- The radio groups of the bar.
unfoldable pub topbar_intervals : Prefs → List Radio
topbar_intervals p =
    map
      (λ a. record {
        label = auto_refresh_text a;
        checked = text_eq (auto_refresh_text p.auto_refresh) (auto_refresh_text a);
        patch = record no_change { auto_refresh = some a };
      })
      intervals

unfoldable pub topbar_themes : Prefs → List Radio
topbar_themes p =
    map
      (λ v. record {
        label = theme_label v;
        checked = text_eq (theme_text p.theme) (theme_text v);
        patch = record no_change { theme = some v };
      })
      themes

-- `Seg`, for a field with its text and the patch that sets it.
unfoldable pub seg : {A : Type 0} → (A → Text) → (A → PrefsPatch) → A → List A → List Radio
seg show set value options =
    map (λ o. record { label = show o; checked = text_eq (show value) (show o); patch = set o })
      options

-- The groups of the settings.
unfoldable pub seg_theme : Prefs → List Radio
seg_theme p = seg theme_text (λ v. record no_change { theme = some v }) p.theme themes

unfoldable pub seg_density : Prefs → List Radio
seg_density p = seg density_text (λ v. record no_change { density = some v }) p.density densities

unfoldable pub seg_interval : Prefs → List Radio
seg_interval p =
    seg auto_refresh_text (λ v. record no_change { auto_refresh = some v }) p.auto_refresh intervals

-- The switch: whether it is on, and what a change passes on.
unfoldable pub relative_switch : Prefs → Bool × (Bool → PrefsPatch)
relative_switch p = (p.relative_time, λ v. record no_change { relative_time = some v })

-- `DensityToggle`: its text, and what a click passes on.
unfoldable pub density_toggle : Prefs → Text × PrefsPatch
density_toggle p = elim p.density [
  | compact ↦ (txt "Comfortable", record no_change { density = some comfortable })
  | comfortable ↦ (txt "Compact", record no_change { density = some compact })
]

-- Whether `useThemeEffect` sets the class `dark`, by what the media query says.
unfoldable pub is_dark : Bool → Prefs → Bool
is_dark prefers p = elim p.theme [ dark ↦ true | light ↦ false | system ↦ prefers ]
