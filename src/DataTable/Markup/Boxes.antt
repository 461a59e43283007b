-- ===== src/DataTable/Markup/Boxes.antt =====
-- data-table.tsx: what the boxes of a page show after a click on the box of the head.
use forgequeue.Common.{
  ◌≡◌, refl, ap, arith, Bool, true, ◌&&◌, some, List, [], ◌∷◌, map, length, ltb, Text, text_eq_refl,
  TextSet, IsDistinct, has,
}
use forgequeue.DataTable.{Column, Table, sorted_rows, view, select_page}
use forgequeue.DataTable.Selection.{select_page_lem, all_on_page-select_page}
use forgequeue.DataTable.Markup.{TableRow, page_rows, head_box, table_row, table_body}

module _ {ℓ κ} {Row : Type ℓ} {Cell : Type κ} (get_id : Row → Text) where
  -- The row with its box at `v`.
  abbrev row_at : List (Column Row Cell) → Bool → Row → TableRow Cell
  row_at columns v r = record {
    id = get_id r;
    marked = v;
    checkbox = some v;
    cells = map (λ c. c.cell r) columns;
  }

  map-table_row :
      (columns : List (Column Row Cell)) (v : Bool) (rows : List Row) (s : TextSet)
      → ((x : Text) → has (map get_id rows) x ≡ true → has s x ≡ v)
      → map (table_row get_id columns true (some s)) rows ≡ map (row_at columns v) rows
  unfolding has table_row
  map-table_row columns v [] s h = refl
  map-table_row columns v (r ∷ rows) s h =
      let rest = map-table_row columns v rows s (λ x e. h x (ground (arith, e))) in
      let e = h (get_id r) (ground (arith, text_eq_refl (get_id r))) in rw (e, rest) refl

  -- A click on the box of the head that turns it to `v` leaves the box of every row of the page at
  -- `v`; the head shows `v` too, if the page has a row.
  pub table_body-select_page :
      (columns : List (Column Row Cell)) (rows : List Row) (s : TextSet) (t : Table) (v : Bool)
      → IsDistinct s
      → let page = view t (sorted_rows (some rows) columns t.sort) in
        let after = some (select_page get_id v page s) in
        (table_body get_id columns (some rows) true after t
          ≡ page_rows (map (row_at columns v) page))
        × (head_box get_id columns (some rows) true after t ≡ some (v && ltb 0 (length page)))
  unfolding table_body head_box
  table_body-select_page columns rows s t v u =
      let page = view t (sorted_rows (some rows) columns t.sort) in
      let changed : (x : Text)
          → has (map get_id page) x ≡ true
          → has (select_page get_id v page s) x ≡ v =
        λ x e. ground (arith, e, (select_page_lem get_id v page s x u).0) in
      (
        ap page_rows (map-table_row columns v page (select_page get_id v page s) changed),
        ap some (all_on_page-select_page get_id v page s u),
      )
