-- ===== src/Console/Viewer.antt =====
-- web/src/components/json-viewer.tsx: the value as a tree whose nodes open and close, or as text.
pub mod Stringify
pub mod Tree
pub mod Rows
pub mod Fits
pub mod Lines
use forgequeue.Common.{
  ℕ, zero, suc, ◌+◌, Bool, true, false, ◌&&◌, ◌||◌, not, Option, none, some, List, [], ◌∷◌, ◌++◌,
  Text, txt, ltb, length, show_nat, text_eq, if◌then◌else◌,
}
use forgequeue.Types.{
  Json, null, bool, number, text, array, object, Items, nil, cons, Members, end, member,
}
use forgequeue.Console.Viewer.Stringify.{pretty}
use forgequeue.Console.Viewer.Tree.{View, render, press}
use forgequeue.Console.Viewer.Rows.{Row, node_rows}

-- The state of the viewer, with the value that it was rendered with. The tree is mounted unless the
-- raw text is shown. A value that is undefined is left out.
pub record Viewer : Type 0 where
  pub raw : Bool
  pub all_open : Bool
  pub value : Json
  pub tree : Option View

unfoldable pub open_viewer : Json → Viewer
unfolding render
open_viewer v = record {
  raw = false;
  all_open = false;
  value = v;
  tree = some (render false 0 v none);
}

pub data ViewerEvent : Type 0 where
  choose_raw : Bool → ViewerEvent
  expand_all : ViewerEvent
  press_node : List Text → ViewerEvent
  new_value : Json → ViewerEvent

-- A click, or a render with another value. The key of the tree changes with `expand_all`, which
-- mounts it anew.
unfoldable pub viewer_step : ViewerEvent → Viewer → Viewer
unfolding render press
viewer_step (choose_raw true) s = record s { raw = true; tree = none }
viewer_step (choose_raw false) s =
    if s.raw then record s { raw = false; tree = some (render s.all_open 0 s.value none) } else s
viewer_step expand_all s = if s.raw then s else record s {
  all_open = not s.all_open;
  tree = some (render (not s.all_open) 0 s.value none);
}
viewer_step (press_node path) s = elim s.tree [
  | none ↦ s
  | some w ↦ record s { tree = some (press s.all_open 0 s.value path w) }
]
viewer_step (new_value v) s = elim s.tree [
  | none ↦ record s { value = v }
  | some w ↦ record s { value = v; tree = some (render s.all_open 0 v (some w)) }
]

unfoldable pub viewer_run : List ViewerEvent → Viewer → Viewer
unfolding viewer_step
viewer_run [] s = s
viewer_run (e ∷ es) s = viewer_run es (viewer_step e s)

-- What is shown under the bar: the rows of the tree, or the text.
pub data Shown : Type 0 where
  tree_rows : List Row → Shown
  raw_text : Text → Shown

unfoldable pub viewer_content : Viewer → Shown
unfolding node_rows pretty
viewer_content s =
    if s.raw
    then raw_text (pretty s.value)
    else tree_rows (elim s.tree [ none ↦ [] | some w ↦ node_rows 0 none s.value w ])

-- The number that the bar shows before `B`.
unfoldable pub shown_size : Viewer → ℕ
unfolding pretty
shown_size s = length (pretty s.value)
