-- ===== src/Console/Viewer/Rows.antt =====
-- web/src/components/json-viewer.tsx: the rows that the tree shows.
use forgequeue.Common.{ℕ, suc, Option, none, some, List, [], ◌∷◌, ◌++◌, Text, txt, if◌then◌else◌}
use forgequeue.Types.{Json, array, object, Items, nil, cons, Members, end, member}
use forgequeue.Console.Viewer.Stringify.{compact}
use forgequeue.Console.Viewer.Tree.{View, state_of, Views, child}

-- What a row of the tree shows after the key: a value, or a bracket with the number of entries behind
-- it if the node is shut.
pub data RowCell : Type 0 where
  scalar opening closing : Text → RowCell
  shut : Text → ℕ → Text → RowCell

pub record Row : Type 0 where
  pub depth : ℕ
  pub key : Option Text
  pub cell : RowCell

unfoldable pub count_items : Items → ℕ
count_items nil = 0
count_items (cons x xs) = suc (count_items xs)

unfoldable pub count_members : Members → ℕ
count_members end = 0
count_members (member k v fs) = suc (count_members fs)

-- The rows that a node renders.
unfoldable mutual
  unfolding compact count_items count_members

  pub node_rows : ℕ → Option Text → Json → View → List Row
  node_rows depth key (array xs) (state_of e cs) =
      let inner = row_items (suc depth) xs cs in
      if e
      then record { depth = depth; key = key; cell = opening (txt "[") } ∷ inner
        ++ (record { depth = depth; key = none; cell = closing (txt "]") } ∷ [])
      else record { depth = depth; key = key; cell = shut (txt "[") (count_items xs) (txt "]") }
        ∷ []
  node_rows depth key (object fs) (state_of e cs) =
      let inner = row_members (suc depth) fs cs in
      if e
      then record { depth = depth; key = key; cell = opening (txt "{") } ∷ inner
        ++ (record { depth = depth; key = none; cell = closing (txt "}") } ∷ [])
      else record { depth = depth; key = key; cell = shut (txt "{") (count_members fs) (txt "}") }
        ∷ []
  node_rows depth key v w = record { depth = depth; key = key; cell = scalar (compact v) } ∷ []

  pub row_items : ℕ → Items → Views → List Row
  row_items depth (cons x xs) (child k w cs) = node_rows depth none x w ++ row_items depth xs cs
  row_items depth _ _ = []

  pub row_members : ℕ → Members → Views → List Row
  row_members depth (member f v fs) (child k w cs) =
      node_rows depth (some f) v w ++ row_members depth fs cs
  row_members depth _ _ = []
