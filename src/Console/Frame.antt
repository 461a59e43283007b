-- ===== src/Console/Frame.antt =====
-- web/src/components/app-shell.tsx: the shell around the pages, with its bar, its footer and the palette
-- that the keyboard opens.
pub mod Sidebar
use forgequeue.Common.{
  ℕ, ◌+◌, ◌-◌, ◌*◌, ◌/◌, ◌==◌, ◌≡◌, ◌≤◌, arith, refl, Bool, true, false, not, ◌&&◌, ◌||◌, Option,
  none, some, List, [], ◌∷◌, ◌++◌, Text, txt, text_eq, starts_with, drop, join, show_nat, Number,
  if◌then◌else◌,
}
use forgequeue.Stores.{Session}
use forgequeue.Stores.Auth.{AuthStore, clear_session, use_session}
use forgequeue.Stores.Auth.Laws.{clear_session_lem}
use forgequeue.Client.{ConnStatus, connected, connecting, disconnected, error, ConnState}
use forgequeue.Console.Shell.{NavEntry, redirect_to_login, login_outlet, root_content}

-- `SYS`
unfoldable pub sys : List NavEntry
sys =
    record { to = txt "/settings"; label = txt "Settings"; perm = none }
    ∷ record { to = txt "/connection"; label = txt "API / Connection"; perm = none }
    ∷ []

-- `CONN_LABEL`
unfoldable pub conn_label : ConnStatus → Text
conn_label connected = txt "Connected"
conn_label connecting = txt "Connecting"
conn_label disconnected = txt "Disconnected"
conn_label error = txt "Error"

-- `ConnectionDot`: its text, if it has one.
unfoldable pub connection_dot : Bool → ConnState → Option Text
unfolding conn_label
connection_dot with_text c = if with_text then some (conn_label c.status) else none

-- `env`: the base without its scheme.
unfoldable pub env_label : Text → Text
unfolding starts_with
env_label base =
    if starts_with base (txt "/")
    then txt "local-dev"
    else if starts_with base (txt "http://")
    then drop 7 base
    else if starts_with base (txt "https://")
    then drop 8 base
    else base

-- `Math.max(0, Math.round((now - at) / 1000))`; a time of 0 counts as none.
unfoldable pub seconds_since : ℕ → ℕ → ℕ
seconds_since now at = (now - at + 500) / 1000

unfoldable pub updated_label : ℕ → Option ℕ → Text
unfolding seconds_since
updated_label now none = txt "—"
updated_label now (some at) =
    if at == 0 then txt "—" else txt "updated " ++ show_nat (seconds_since now at) ++ txt "s ago"

-- `UserFooter`: the name and the roles.
unfoldable pub user_footer : Option Session → Option (Text × Text)
unfolding join
user_footer none = none
user_footer (some s) = some (s.user.username, join s.user.roles (txt ", "))

-- `logout`: the session, and how often the cache was emptied.
unfoldable pub logout : (Text → Number) → ℕ → AuthStore × ℕ → AuthStore × ℕ
logout date_parse now (a, cleared) = (clear_session date_parse now a, cleared + 1)

-- The state of the shell.
pub record Frame : Type 0 where
  pub collapsed : Bool
  pub palette_open : Bool

unfoldable pub initial_frame : Frame
initial_frame = record { collapsed = false; palette_open = false }

-- A key of the keyboard with its modifiers, a click on a button of the bar, and what the dialog of the
-- palette asks for.
pub data FrameEvent : Type 0 where
  keydown : (meta ctrl : Bool) → (key : Text) → FrameEvent
  toggle_sidebar open_search : FrameEvent
  set_open : Bool → FrameEvent

-- `e.key.toLowerCase() === "k"`, for the three characters that become it.
unfoldable pub is_key_k : Text → Bool
unfolding text_eq
is_key_k key = text_eq key (txt "k") || text_eq key (txt "K") || text_eq key (0x212a ∷ [])

-- The shell after an event, and whether the default of the browser is prevented.
unfoldable pub frame_step : FrameEvent → Frame → Frame × Bool
unfolding is_key_k
frame_step (keydown meta ctrl key) f =
    if (meta || ctrl) && is_key_k key
    then (record f { palette_open = not f.palette_open }, true)
    else (f, false)
frame_step toggle_sidebar f = (record f { collapsed = not f.collapsed }, false)
frame_step open_search f = (record f { palette_open = true }, false)
frame_step (set_open o) f = (record f { palette_open = o }, false)

-- The age of the last success is shown in whole seconds, at most half a second from the truth, and as 0
-- where the clock was set back.
pub seconds_since_near :
    (now at : ℕ)
    → (1000 * seconds_since now at ≤ now - at + 500)
      × (now - at ≤ 1000 * seconds_since now at + 499)
unfolding seconds_since
seconds_since_near now at = omega arith

-- After a sign-out, whatever page is open, the root shows the login page or leads to it, the footer is
-- gone, and the cache has been emptied once more.
pub root_content-logout :
    (date_parse : Text → Number) (now : ℕ) (path : Text) (a : AuthStore) (cleared : ℕ)
    → let (out, n) = logout date_parse now (a, cleared) in
      (root_content true path (use_session false out)
        ≡ (if text_eq path (txt "/login") then login_outlet else redirect_to_login))
      × (user_footer (use_session false out) ≡ none)
      × (n ≡ cleared + 1)
unfolding logout use_session root_content user_footer
root_content-logout date_parse now path a cleared =
    rw ((clear_session_lem date_parse now a).1) (refl, refl, refl)
