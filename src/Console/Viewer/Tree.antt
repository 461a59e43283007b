-- ===== src/Console/Viewer/Tree.antt =====
-- web/src/components/json-viewer.tsx: the nodes of the tree, which open and close. A component keeps its
-- state as long as it is mounted: `View` is what the mounted nodes keep.
use forgequeue.Common.{
  ℕ, suc, Bool, true, false, ◌||◌, not, Option, none, some, List, [], ◌∷◌, Text, ltb, show_nat,
  text_eq, if◌then◌else◌,
}
use forgequeue.Types.{Json, array, object, Items, nil, cons, Members, end, member}

-- `expanded` of a node, and the children that are mounted, by their keys.
mutual
  pub data View : Type 0 where
    state_of : Bool → Views → View

  pub data Views : Type 0 where
    nothing : Views
    child : Text → View → Views → Views

abbrev pub is_expanded : View → Bool
is_expanded (state_of e cs) = e

abbrev pub children_of : View → Views
children_of (state_of e cs) = cs

-- `v !== null && typeof v === "object"`
unfoldable pub is_obj : Json → Bool
is_obj (array xs) = true
is_obj (object fs) = true
is_obj _ = false

-- The child that is mounted under a key.
unfoldable pub find_view : Text → Views → Option View
find_view key nothing = none
find_view key (child k w cs) = if text_eq k key then some w else find_view key cs

-- `useState(open || depth < 2)`, for a node that is mounted now or was before.
unfoldable pub expanded_of : Bool → ℕ → Option View → Bool
expanded_of opened depth none = opened || ltb depth 2
expanded_of opened depth (some w) = is_expanded w

abbrev pub mounted : Option View → Views
mounted none = nothing
mounted (some w) = children_of w

-- A node with the entries of its value, which are mounted if it is expanded.
unfoldable pub node : Bool → ℕ → Option View → Views → View
unfolding expanded_of
node opened depth old entries =
    let e = expanded_of opened depth old in state_of e (if e then entries else nothing)

-- One render of a node, on what was mounted before it: nodes stay mounted under their keys.
unfoldable mutual
  unfolding node find_view

  pub render : Bool → ℕ → Json → Option View → View
  render opened depth (array xs) old =
      node opened depth old (render_items opened (suc depth) 0 xs (mounted old))
  render opened depth (object fs) old =
      node opened depth old (render_members opened (suc depth) fs (mounted old))
  render opened depth _ old = node opened depth old nothing

  pub render_items : Bool → ℕ → ℕ → Items → Views → Views
  render_items opened depth i nil old = nothing
  render_items opened depth i (cons x xs) old =
      child (show_nat i) (render opened depth x (find_view (show_nat i) old))
        (render_items opened depth (suc i) xs old)

  pub render_members : Bool → ℕ → Members → Views → Views
  render_members opened depth end old = nothing
  render_members opened depth (member k v fs) old =
      child k (render opened depth v (find_view k old)) (render_members opened depth fs old)

-- The entry of a value under a key of the tree.
unfoldable pub item_of : Text → ℕ → Items → Option Json
item_of key i nil = none
item_of key i (cons x xs) = if text_eq (show_nat i) key then some x else item_of key (suc i) xs

unfoldable pub member_of : Text → Members → Option Json
member_of key end = none
member_of key (member k v fs) = if text_eq k key then some v else member_of key fs

unfoldable pub value_under : Text → Json → Option Json
unfolding item_of member_of
value_under key (array xs) = item_of key 0 xs
value_under key (object fs) = member_of key fs
value_under key _ = none

unfoldable pub change_view : Text → (View → View) → Views → Views
change_view key f nothing = nothing
change_view key f (child k w cs) =
    if text_eq k key then child k (f w) cs else child k w (change_view key f cs)

-- `setExpanded(!expanded)` of the node at a path. Only an object or an array has the button, and the
-- children of a node that is shut are not mounted.
unfoldable pub press : Bool → ℕ → Json → List Text → View → View
unfolding render is_obj value_under change_view
press opened depth v [] (state_of e cs) =
    if is_obj v then render opened depth v (some (state_of (not e) cs)) else state_of e cs
press opened depth v (k ∷ path) (state_of e cs) = elim (value_under k v) [
  | none ↦ state_of e cs
  | some x ↦ state_of e (change_view k (press opened (suc depth) x path) cs)
]
