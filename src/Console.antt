-- ===== src/Console.antt =====
-- web/src/components and web/src/routes: what the pages offer to a session. A page is represented by
-- its controls and the columns of its tables; the markup around them is left out.
pub mod Confirm
pub mod Shell
pub mod Login
pub mod Tables
pub mod Pages
pub mod QueueTables
pub mod DeadLetters
pub mod Workers
pub mod Guards
pub mod Defaults
pub mod Viewer
pub mod Settings
pub mod Frame
pub mod Palette
pub mod Shared
pub mod JobPage
pub mod Heads
pub mod Filters
pub mod Metrics
pub mod ConnectionPage
pub mod Details
pub mod Bulk
use forgequeue.Common.{
  ℕ, Number, Bool, true, false, Option, none, some, List, [], ◌∷◌, ◌++◌, Text, if◌then◌else◌,
}
use forgequeue.Stores.{Permission, Session}
use forgequeue.Stores.Auth.{includes_permission}
use forgequeue.Endpoints.{Call}
use forgequeue.DataTable.{Sorter, Column}

-- What a click asks for: calls of the API, sent at once, after which the selection of the table is
-- emptied or kept; or a route to go to, with the parameter in its path, which the router encodes.
pub data Action : Type 0 where
  mutate : (clears : Bool) → List Call → Action
  clear_selection : Action
  navigate : (to : Text) → (param : Option Text) → Action

-- A plain button acts on the click. A button in a `ConfirmDialog` opens the dialog, which acts when
-- it is confirmed, after the text of `typeToConfirm` was typed if there is one.
pub data Control : Type 0 where
  button : (label : Text) → (disabled : Bool) → Action → Control
  confirmed :
      (label : Text) → (disabled : Bool) → (type_to_confirm : Option Text) → Action → Control

-- `useHasPermission(p)` in a browser
unfoldable pub holds : Option Session → Permission → Bool
holds none p = false
holds (some s) p = includes_permission s.user.permissions p

-- `<Can perm={p}>`: the children only for a session with the permission.
unfoldable pub can : Option Session → Permission → List Control → List Control
can session p children = if holds session p then children else []

-- What a cell shows, and what it offers.
pub record Cell : Type 0 where
  pub shows : Text
  pub controls : List Control

abbrev pub plain : Text → Cell
plain t = record { shows = t; controls = [] }

-- What a page is rendered with: the session, the time, the reading of times and the texts that other
-- libraries make of them, and `toLowerCase`.
pub record Context : Type 0 where
  pub session : Option Session
  pub now : ℕ
  pub date_parse : Text → Number
  pub time_ago : Option Text → Text
  pub fmt_num : ℕ → Text
  pub to_lower : Text → Text

-- A column as the pages write it.
abbrev pub column {ℓ} :
    {Row : Type ℓ}
    → Text
    → Text
    → (Row → Cell)
    → Option (Sorter Row)
    → (right : Bool) → Column Row Cell
column key header cell sort right = record {
  key = key;
  header = header;
  cell = cell;
  sort = sort;
  right = right;
}
