-- ===== src/Examples/Tables.antt =====
-- web/src/components/data-table.tsx: a table of five rows.
use mathlib.Core.List.{Perm}
use forgequeue.Common.{
  ℕ, ◌+◌, ◌*◌, ◌-◌, ◌≤◌, ◌<◌, ◌≡◌, refl, ◌↔◌, Bool, true, false, not, ◌&&◌, Option, none, some,
  List, [], ◌∷◌, map, Text, txt, text_eq, has, length, arith, min, num, if◌then◌else◌, filter_by,
  All, TextSet, IsDistinct, ltb,
}
use forgequeue.DataTable.Selection.Clicks.{
  Distinct, selection, is_selected, clicks, is_odd_in, clicks_parity,
}
use forgequeue.Common.{has, not}
use forgequeue.DataTable.{
  asc, desc, Sort, by_number, Column, Table, open_table, click_header, change_size, pages, current,
  view, sorted_rows, has_footer, toggle, find_column, active_sorter, sort_rows, insert_row,
  compare_rows, key_lt, next_dir,
}
use forgequeue.DataTable.Order.{IsOrdered, sorted_rows-perm, sorted_rows-IsOrdered, same_key}
use forgequeue.DataTable.Order.Stable.{sorted_rows_stable}
use forgequeue.DataTable.Paging.{first_pages, first_pages-pages, press_on, press_on-current}

-- Rows of a name and a number.
abbrev name_of : Text × ℕ → Text
name_of r = r.0

abbrev size_of : Text × ℕ → ℕ
size_of r = r.1

abbrev columns : List (Column (Text × ℕ) Text)
columns =
    record { key = txt "name"; header = txt "Name"; cell = name_of; sort = none; right = false }
    ∷ record {
      key = txt "size";
      header = txt "Size";
      cell = name_of;
      sort = some (by_number (λ r. num (size_of r)));
      right = true;
    }
    ∷ []

abbrev rows : List (Text × ℕ)
rows = (txt "a", 2) ∷ (txt "b", 9) ∷ (txt "c", 2) ∷ (txt "d", 5) ∷ (txt "e", 9) ∷ []

abbrev by_size : Sort
by_size = record { key = txt "size"; dir = desc }

-- The second of three pages of two rows.
abbrev second : Table
second = record { sort = some by_size; size = 2; page = 1 }

-- Descending, and rows of one size as they came.
sorted_test :
    map name_of (sorted_rows (some rows) columns (some by_size))
    ≡ txt "b" ∷ txt "e" ∷ txt "d" ∷ txt "a" ∷ txt "c" ∷ []
unfolding sorted_rows active_sorter find_column sort_rows insert_row compare_rows key_lt text_eq
sorted_test = refl

-- A column without a sorter leaves the rows as they are.
unsorted_test :
    sorted_rows (some rows) columns (some (record { key = txt "name"; dir = asc })) ≡ rows
unfolding sorted_rows active_sorter find_column text_eq
unsorted_test = refl

-- The first click on a header sorts downwards, the next one upwards.
click_test :
    (click_header (click_header (open_table none (25 ∷ [])) (txt "size")) (txt "size")).sort
    ≡ some (record { key = txt "size"; dir = asc })
unfolding click_header next_dir open_table text_eq
click_test = refl

-- A page beyond the last one shows the last one.
view_test : view {Row = ℕ} (record { sort = none; size = 2; page = 7 }) (1 ∷ 2 ∷ 3 ∷ []) ≡ 3 ∷ []
unfolding view current pages
view_test = refl

change_size_test : (change_size second 50).page ≡ 0
unfolding change_size
change_size_test = refl

has_footer_test : has_footer (25 ∷ 50 ∷ []) (some 25) ≡ false
unfolding has_footer
has_footer_test = refl

sorted_rows-perm_example : Perm (sorted_rows (some rows) columns (some by_size)) rows
sorted_rows-perm_example = sorted_rows-perm columns rows (some by_size)

sorted_rows-IsOrdered_example :
    IsOrdered
      (by_number (λ r. num (size_of r)))
      desc
      (sorted_rows (some rows) columns (some by_size))
unfolding active_sorter find_column text_eq
sorted_rows-IsOrdered_example =
    sorted_rows-IsOrdered columns rows by_size refl (refl, (refl, (refl, (refl, (refl, tt)))))

sorted_rows_stable_example :
    filter_by
      (same_key (by_number (λ r. num (size_of r))) (txt "x", 9))
      (sorted_rows (some rows) columns (some by_size))
    ≡ (txt "b", 9) ∷ (txt "e", 9) ∷ []
unfolding active_sorter find_column text_eq key_lt
sorted_rows_stable_example =
    sorted_rows_stable columns rows by_size (txt "x", 9) refl refl
      (refl, (refl, (refl, (refl, (refl, tt)))))

first_pages-pages_example : first_pages second rows (pages second 5) ≡ rows
first_pages-pages_example = first_pages-pages second rows (omega arith)

press_on-current_example :
    (current (press_on 4 second 5) 5 ≡ min (current second 5 + 4) (pages second 5 - 1))
    × ((press_on 4 second 5).sort ≡ some by_size)
    × ((press_on 4 second 5).size ≡ 2)
press_on-current_example = press_on-current 4 second 5

abbrev selected : TextSet
selected = txt "a" ∷ txt "z" ∷ []

toggle_test : toggle (toggle selected (txt "b")) (txt "a") ≡ txt "z" ∷ txt "b" ∷ []
unfolding toggle has text_eq forgequeue.Common.add forgequeue.Common.delete
toggle_test = refl

abbrev nothing_selected : Distinct
nothing_selected = record { members = []; distinct = tt }

clicks_parity_example :
    ((x : Text)
      → is_selected x (selection (clicks (txt "a" ∷ txt "b" ∷ []) nothing_selected))
        ≡ (if is_odd_in (txt "a" ∷ txt "b" ∷ []) x then not (has [] x) else has [] x))
    × (selection (clicks (txt "a" ∷ txt "b" ∷ []) nothing_selected)
        ≡ selection (clicks (txt "b" ∷ txt "a" ∷ []) nothing_selected))
clicks_parity_example =
    clicks_parity (txt "a" ∷ txt "b" ∷ []) (txt "b" ∷ txt "a" ∷ []) nothing_selected
      (λ x. ground arith)
