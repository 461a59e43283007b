-- ===== src/DataTable/Markup.antt =====
-- data-table.tsx: what the table shows: the head of each column, the rows of the page, and what stands
-- there without rows.
pub mod Boxes
use forgequeue.Common.{
  ℕ, ◌+◌, Bool, true, false, Option, none, some, List, [], ◌∷◌, map, length, Text, txt, text_eq,
  TextSet, has, if◌then◌else◌,
}
use forgequeue.DataTable.{Dir, Sort, Column, Table, sorted_rows, view, all_on_page}

-- The head of a column: its text, `aria-sort`, and whether a click sorts by it.
pub record Head : Type 0 where
  pub header : Text
  pub aria_sort : Option Dir
  pub sortable : Bool

-- `sort?.key === c.key`, with the direction
abbrev pub sorted_by : Option Sort → Text → Option Dir
sorted_by none key = none
sorted_by (some s) key = if text_eq s.key key then some s.dir else none

-- A row: its identifier, whether it is marked as selected, the check box if there is one, and its cells.
pub record TableRow {ℓ} (Cell : Type ℓ) : Type ℓ where
  pub id : Text
  pub marked : Bool
  pub checkbox : Option Bool
  pub cells : List Cell

-- The rows of the page, or 6 placeholders over all columns while there is no data.
pub data TableBody {ℓ} (Cell : Type ℓ) : Type ℓ where
  placeholders : (count column_span : ℕ) → TableBody Cell
  page_rows : List (TableRow Cell) → TableBody Cell

-- `selectable`: the page takes the changes of the set, and the set is there.
abbrev pub is_selectable : Bool → Option TextSet → Bool
is_selectable on_change none = false
is_selectable on_change (some s) = on_change

-- `selected?.has(id)`
abbrev pub is_marked : Option TextSet → Text → Bool
is_marked none id = false
is_marked (some s) id = has s id

unfoldable pub heads {ℓ κ} :
    {Row : Type ℓ} {Cell : Type κ} → List (Column Row Cell) → Table → List Head
heads columns t =
    map
      (λ c. record {
        header = c.header;
        aria_sort = sorted_by t.sort c.key;
        sortable = elim c.sort [ none ↦ false | some f ↦ true ];
      })
      columns

-- `EmptyState`, where there are data and no rows.
unfoldable pub empty_state {ℓ} :
    {Row : Type ℓ} → Option Text → Option Text → Option (List Row) → Option (Text × Option Text)
empty_state title description none = none
empty_state title description (some []) =
    some (elim title [ none ↦ txt "No rows" | some t ↦ t ], description)
empty_state title description (some (r ∷ rows)) = none

module _ {ℓ κ} {Row : Type ℓ} {Cell : Type κ} (get_id : Row → Text) where
  -- The check box of the head, at `allOnPage`.
  unfoldable pub head_box :
      List (Column Row Cell) → Option (List Row) → Bool → Option TextSet → Table → Option Bool
  head_box columns rows on_change none t = none
  head_box columns rows false (some selected) t = none
  head_box columns rows true (some selected) t =
      some (all_on_page get_id (view t (sorted_rows rows columns t.sort)) selected)

  unfoldable pub table_row : List (Column Row Cell) → Bool → Option TextSet → Row → TableRow Cell
  table_row columns on_change selected r = record {
    id = get_id r;
    marked = is_marked selected (get_id r);
    checkbox =
        if is_selectable on_change selected then some (is_marked selected (get_id r)) else none;
    cells = map (λ c. c.cell r) columns;
  }

  unfoldable pub table_body :
      List (Column Row Cell) → Option (List Row) → Bool → Option TextSet → Table → TableBody Cell
  table_body columns none on_change selected t =
      placeholders 6 (length columns + (if is_selectable on_change selected then 1 else 0))
  table_body columns (some rows) on_change selected t =
      page_rows (
        map (table_row columns on_change selected)
          (view t (sorted_rows (some rows) columns t.sort)))
