-- ===== src/Console/Shell.antt =====
-- web/src/components/app-shell.tsx and web/src/routes/__root.tsx: the entries of the navigation, the one
-- that is active, and what the root shows.
use forgequeue.Common.{
  ◌≡◌, refl, arith, Bool, true, false, not, ◌&&◌, ◌||◌, Option, none, some, List, [], ◌∷◌, Text,
  txt, text_eq, starts_with, length, ◌≤◌, ℕ, suc, map, ◌==◌, filter_by, if◌then◌else◌,
}
use forgequeue.Stores.{
  Permission, system_read, queues_read, workers_read, delayed_read, dlq_read, metrics_read, Session,
}
use forgequeue.Stores.Auth.{includes_permission}

pub record NavEntry : Type 0 where
  pub to : Text
  pub label : Text
  pub perm : Option Permission

abbrev entry : Text → Text → Permission → NavEntry
entry to label p = record { to = to; label = label; perm = some p }

-- `NAV`
unfoldable pub nav : List NavEntry
nav =
    entry (txt "/") (txt "Overview") system_read
    ∷ entry (txt "/queues") (txt "Queues") queues_read
    ∷ entry (txt "/workers") (txt "Workers") workers_read
    ∷ entry (txt "/delayed") (txt "Delayed / Scheduled") delayed_read
    ∷ entry (txt "/dlq") (txt "Dead Letter Queue") dlq_read
    ∷ entry (txt "/metrics") (txt "Metrics") metrics_read
    ∷ []

-- `visibleNav`
unfoldable pub visible_nav : List NavEntry → List Permission → List NavEntry
visible_nav items perms =
    filter_by (λ n. elim n.perm [ none ↦ true | some p ↦ includes_permission perms p ]) items

-- `active` of `NavItem`
unfoldable pub is_active : Text → Text → Bool
is_active to path =
    if text_eq to (txt "/")
    then text_eq path (txt "/")
    else starts_with path to || (text_eq to (txt "/queues") && starts_with path (txt "/jobs"))

-- What the root shows: nothing before it is mounted, the login page, the redirect to it, or the page
-- within the shell.
pub data Content : Type 0 where
  nothing login_outlet redirect_to_login shell : Content

-- `RootComponent`
unfoldable pub root_content : Bool → Text → Option Session → Content
root_content mounted pathname session =
    if not mounted
    then nothing
    else if text_eq pathname (txt "/login")
    then login_outlet
    else elim session [ none ↦ redirect_to_login | some s ↦ shell ]

-- How many of the tests hold.
abbrev count : List Bool → ℕ
count [] = 0
count (b ∷ bs) = if b then suc (count bs) else count bs

length-filter_by {ℓ} :
    {A : Type ℓ} (p : A → Bool) (l : List A) → length (filter_by p l) ≡ count (map p l)
length-filter_by p [] = refl
length-filter_by p (a ∷ l) = ground (arith, length-filter_by p l)

-- The second and the third unit of a path tell the entries apart.
apart :
    (b q j w d e l m : Bool)
    → (q && w ≡ false)
    → (q && d ≡ false)
    → (q && m ≡ false)
    → (j && w ≡ false)
    → (j && d ≡ false)
    → (j && m ≡ false)
    → (w && d ≡ false)
    → (w && m ≡ false)
    → (d && m ≡ false)
    → (e && l ≡ false)
    → (x1 x2 x3 x4 x5 x6 : Bool)
    → count (
        (b && false)
        ∷ (b && (q && x1) || b && (j && x6))
        ∷ (b && (w && x2) || false)
        ∷ (b && (d && (e && x3)) || false)
        ∷ (b && (d && (l && x4)) || false)
        ∷ (b && (m && x5) || false)
        ∷ [])
      ≤ 1
apart b q j w d e l m h1 h2 h3 h4 h5 h6 h7 h8 h9 h10 x1 x2 x3 x4 x5 x6 = ground arith

-- Whatever the path, at most one entry of the navigation is active.
pub nav_active : (path : Text) → length (filter_by (λ n. is_active n.to path) nav) ≤ 1
unfolding nav is_active starts_with text_eq
nav_active [] = omega arith
nav_active (c ∷ []) = ground arith
nav_active (c ∷ d ∷ []) = ground arith
nav_active (c ∷ d ∷ e ∷ path) = rw (length-filter_by (λ n. is_active n.to (c ∷ d ∷ e ∷ path)) nav) (
    apart (c == b'/') (d == b'q') (d == b'j') (d == b'w') (d == b'd') (e == b'e') (e == b'l')
      (d == b'm') (ground arith) (ground arith) (ground arith) (ground arith) (ground arith)
      (ground arith) (ground arith) (ground arith) (ground arith) (ground arith) _ _ _ _ _ _)
