-- ===== src/Console/Frame/Sidebar.antt =====
-- web/src/components/app-shell.tsx: the bar at the side, with the items that it offers to a session.
use forgequeue.Common.{
  ℕ, ◌+◌, ◌==◌, ◌≡◌, ◌≤◌, refl, arith, Bool, false, not, Option, none, some, List, [], ◌∷◌, inl,
  inr, Bool-cases, map, filter_by, length, Text, txt, text_eq, starts_with, is_empty, if◌then◌else◌,
}
use forgequeue.Stores.{Permission, Session}
use forgequeue.Client.{ConnState}
use forgequeue.Console.Shell.{NavEntry, nav, visible_nav, is_active, nav_active}
use forgequeue.Console.Frame.{sys, connection_dot}

-- `NavItem`: where it leads, its text and its tooltip, and whether it is the current page.
pub record NavItem : Type 0 where
  pub to : Text
  pub text : Option Text
  pub tooltip : Option Text
  pub active : Bool

unfoldable pub side_item : Bool → Text → NavEntry → NavItem
side_item collapsed path n = record {
  to = n.to;
  text = if collapsed then none else some n.label;
  tooltip = if collapsed then some n.label else none;
  active = is_active n.to path;
}

-- `Sidebar`: its items, the version of the build, and the text beside the dot of the connection.
pub record Sidebar : Type 0 where
  pub items : List NavItem
  pub system : List NavItem
  pub version : Option Text
  pub conn_text : Option Text

-- `session?.user.permissions ?? []`
abbrev pub permissions_of : Option Session → List Permission
permissions_of none = []
permissions_of (some s) = s.user.permissions

-- `import.meta.env["VITE_APP_VERSION"] || "dev"`
abbrev pub version_or_dev : Option Text → Text
version_or_dev none = txt "dev"
version_or_dev (some v) = if is_empty v then txt "dev" else v

unfoldable pub sidebar : Option Text → Bool → Text → Option Session → ConnState → Sidebar
sidebar env_version collapsed path session conn = record {
  items = map (side_item collapsed path) (visible_nav nav (permissions_of session));
  system = map (side_item collapsed path) sys;
  version = if collapsed then none else some (version_or_dev env_version);
  conn_text = connection_dot (not collapsed) conn;
}

abbrev pub actives : List NavItem → ℕ
actives items = length (filter_by (λ n. n.active) items)

-- How many of the entries are active on a path.
abbrev actives_of : Text → List NavEntry → ℕ
actives_of path entries = length (filter_by (λ n. is_active n.to path) entries)

actives-map :
    (collapsed : Bool) (path : Text) (entries : List NavEntry)
    → actives (map (side_item collapsed path) entries) ≡ actives_of path entries
unfolding side_item
actives-map collapsed path [] = refl
actives-map collapsed path (n ∷ entries) = ground (arith, actives-map collapsed path entries)

actives_of-visible_nav :
    (path : Text) (entries : List NavEntry) (perms : List Permission)
    → actives_of path (visible_nav entries perms) ≤ actives_of path entries
unfolding visible_nav
actives_of-visible_nav path [] perms = omega arith
actives_of-visible_nav path (n ∷ entries) perms =
    ground (arith, actives_of-visible_nav path entries perms)

-- Settings and the connection: their second unit is none of an entry of the navigation.
nav_no_s : (c : ℕ) (path : Text) → actives_of (c ∷ b's' ∷ path) nav ≡ 0
unfolding nav is_active starts_with text_eq
nav_no_s c path = ground arith

nav_no_c : (c : ℕ) (path : Text) → actives_of (c ∷ b'c' ∷ path) nav ≡ 0
unfolding nav is_active starts_with text_eq
nav_no_c c path = ground arith

sys_at_s : (c : ℕ) (path : Text) → actives_of (c ∷ b's' ∷ path) sys ≤ 1
unfolding sys is_active starts_with text_eq
sys_at_s c path = ground arith

sys_at_c : (c : ℕ) (path : Text) → actives_of (c ∷ b'c' ∷ path) sys ≤ 1
unfolding sys is_active starts_with text_eq
sys_at_c c path = ground arith

sys_elsewhere :
    (c d : ℕ) (path : Text)
    → (d == b's' ≡ false)
    → (d == b'c' ≡ false)
    → actives_of (c ∷ d ∷ path) sys ≡ 0
unfolding sys is_active starts_with text_eq
sys_elsewhere c d path e f = ground (arith, e, f)

-- A path of one unit is that of no entry of the system.
sys_short : (path : Text) → length path ≤ 1 → actives_of path sys ≡ 0
unfolding sys is_active starts_with text_eq
sys_short [] h = refl
sys_short (c ∷ []) h = ground arith
sys_short (c ∷ d ∷ path) h = absurd (omega (arith, h))

-- Of all the entries, at most one is active.
actives_of-nav-sys : (path : Text) → actives_of path nav + actives_of path sys ≤ 1
actives_of-nav-sys [] = omega (arith, nav_active [], sys_short [] (omega arith))
actives_of-nav-sys (c ∷ []) = omega (arith, nav_active (c ∷ []), sys_short (c ∷ []) (omega arith))
actives_of-nav-sys (c ∷ d ∷ path) = elim (Bool-cases (d == b's')) [
  | inl e ↦
      let same : d ≡ b's' = ground (arith, e) in
      rw same (omega (arith, nav_no_s c path, sys_at_s c path))
  | inr e ↦ elim (Bool-cases (d == b'c')) [
    | inl f ↦
        let same : d ≡ b'c' = ground (arith, f) in
        rw same (omega (arith, nav_no_c c path, sys_at_c c path))
    | inr f ↦ omega (arith, nav_active (c ∷ d ∷ path), sys_elsewhere c d path e f)
  ]
]

-- Whatever the path and the session, and also when the bar is folded, at most one of its items is the
-- current page.
pub sidebar_active :
    (env_version : Option Text) (collapsed : Bool) (path : Text) (session : Option Session)
    (conn : ConnState)
    → let s = sidebar env_version collapsed path session conn in
      actives s.items + actives s.system ≤ 1
unfolding sidebar
sidebar_active env_version collapsed path session conn = omega (
  arith,
  actives-map collapsed path (visible_nav nav (permissions_of session)),
  actives-map collapsed path sys,
  actives_of-visible_nav path nav (permissions_of session),
  actives_of-nav-sys path,
)
