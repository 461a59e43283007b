-- ===== src/DataTable.antt =====
-- web/src/components/data-table.tsx: sorting, paging and selection of a table of rows.
-- What a cell shows is a parameter of the table, as `ReactNode` is in the source.
pub mod Order
pub mod Paging
pub mod Markup
pub mod Selection
use forgequeue.Common.{
  ℕ, zero, suc, ◌+◌, ◌-◌, ◌*◌, ◌/◌, min, max, Bool, true, false, not, ◌&&◌, Option, none, some,
  List, [], ◌∷◌, map, Text, text_eq, text_lt, Number, num_lt, TextSet, has, add, delete, ltb, leb,
  ◌==◌, if◌then◌else◌, length, slice, every,
}

pub data Dir : Type 0 where
  asc desc : Dir

pub record Sort : Type 0 where
  pub key : Text
  pub dir : Dir

-- `(row: T) => string | number`; every column of the program keeps to one of the two.
pub data Sorter {ℓ} (Row : Type ℓ) : Type ℓ where
  by_text : (Row → Text) → Sorter Row
  by_number : (Row → Number) → Sorter Row

pub record Column {ℓ κ} (Row : Type ℓ) (Cell : Type κ) : Type (ℓ ⊔ κ) where
  pub key : Text
  pub header : Text
  pub cell : Row → Cell
  pub sort : Option (Sorter Row)
  pub right : Bool

-- The value of the comparator: -1, 0 or 1.
pub data Sign : Type 0 where
  minus none_of_both plus : Sign

abbrev pub negate : Sign → Sign
negate minus = plus
negate none_of_both = none_of_both
negate plus = minus

abbrev pub is_plus : Sign → Bool
is_plus plus = true
is_plus _ = false

module _ {ℓ} {Row : Type ℓ} where
  unfoldable pub key_lt : Sorter Row → Row → Row → Bool
  key_lt (by_text f) a b = text_lt (f a) (f b)
  key_lt (by_number f) a b = num_lt (f a) (f b)

  unfoldable pub compare_rows : Sorter Row → Dir → Row → Row → Sign
  unfolding key_lt
  compare_rows f dir a b =
      let r : Sign = if key_lt f a b then minus else if key_lt f b a then plus else none_of_both in
      elim dir [ asc ↦ r | desc ↦ negate r ]

  -- `Array.prototype.sort`, which is stable: an earlier row goes behind a later one only if the
  -- comparator says that it is greater.
  unfoldable pub insert_row : Sorter Row → Dir → Row → List Row → List Row
  unfolding compare_rows
  insert_row f dir a [] = a ∷ []
  insert_row f dir a (b ∷ rows) =
      if is_plus (compare_rows f dir a b) then b ∷ insert_row f dir a rows else a ∷ b ∷ rows

  unfoldable pub sort_rows : Sorter Row → Dir → List Row → List Row
  unfolding insert_row
  sort_rows f dir [] = []
  sort_rows f dir (a ∷ rows) = insert_row f dir a (sort_rows f dir rows)

module _ {ℓ κ} {Row : Type ℓ} {Cell : Type κ} where
  -- `columns.find((c) => c.key === key)`
  unfoldable pub find_column : Text → List (Column Row Cell) → Option (Column Row Cell)
  find_column key [] = none
  find_column key (c ∷ columns) = if text_eq c.key key then some c else find_column key columns

  -- the sorter of the column that is sorted by, if it has one
  unfoldable pub active_sorter : List (Column Row Cell) → Text → Option (Sorter Row)
  unfolding find_column
  active_sorter columns key = elim (find_column key columns) [ none ↦ none | some c ↦ c.sort ]

  -- `sorted`
  unfoldable pub sorted_rows : Option (List Row) → List (Column Row Cell) → Option Sort → List Row
  unfolding active_sorter sort_rows
  sorted_rows none columns sort = []
  sorted_rows (some rows) columns none = rows
  sorted_rows (some rows) columns (some s) = elim (active_sorter columns s.key) [
    | none ↦ rows
    | some f ↦ sort_rows f s.dir rows
  ]

-- The state of the component.
pub record Table : Type 0 where
  pub sort : Option Sort
  pub size : ℕ
  pub page : ℕ

abbrev pub first_size : List ℕ → ℕ
first_size [] = 25
first_size (n ∷ sizes) = n

unfoldable pub open_table : Option Sort → List ℕ → Table
open_table default_sort page_sizes = record {
  sort = default_sort;
  size = first_size page_sizes;
  page = 0;
}

-- the second click on a header turns the order, and a click on another one starts at `desc`
unfoldable pub next_dir : Option Sort → Text → Dir
next_dir none key = desc
next_dir (some s) key = if text_eq s.key key then elim s.dir [ asc ↦ desc | desc ↦ asc ] else desc

unfoldable pub click_header : Table → Text → Table
unfolding next_dir
click_header t key = record t { sort = some (record { key = key; dir = next_dir t.sort key }) }

unfoldable pub change_size : Table → ℕ → Table
change_size t n = record t { size = n; page = 0 }

-- `Math.ceil(n / size)`, for a positive size
abbrev pub ceil_div : ℕ → ℕ → ℕ
ceil_div n size = (n + size - 1) / size

-- `pages` and `p`, from the number of rows
unfoldable pub pages : Table → ℕ → ℕ
pages t n = max 1 (ceil_div n t.size)

unfoldable pub current : Table → ℕ → ℕ
unfolding pages
current t n = min t.page (pages t n - 1)

module _ {ℓ} {Row : Type ℓ} where
  -- `view`
  unfoldable pub view : Table → List Row → List Row
  unfolding current
  view t sorted =
      let p = current t (length sorted) in slice sorted (p * t.size) (p * t.size + t.size)

-- The buttons of the footer: what `disabled` says, and the state after a click.
unfoldable pub can_go_back : Table → ℕ → Bool
unfolding current
can_go_back t n = not (current t n == 0)

unfoldable pub can_go_on : Table → ℕ → Bool
unfolding current pages
can_go_on t n = not (leb (pages t n - 1) (current t n))

unfoldable pub go_back : Table → ℕ → Table
unfolding can_go_back
go_back t n = if can_go_back t n then record t { page = current t n - 1 } else t

unfoldable pub go_on : Table → ℕ → Table
unfolding can_go_on
go_on t n = if can_go_on t n then record t { page = current t n + 1 } else t

-- The footer is shown from the second page of the smallest size on.
unfoldable pub has_footer : List ℕ → Option ℕ → Bool
has_footer page_sizes none = false
has_footer page_sizes (some n) = ltb (first_size page_sizes) n

-- `{p * size + 1}–{Math.min(sorted.length, (p + 1) * size)} of {sorted.length}`
pub record Counter : Type 0 where
  pub from : ℕ
  pub to : ℕ
  pub total : ℕ

unfoldable pub counter : Table → ℕ → Counter
unfolding current
counter t n =
    let p = current t n in
    record { from = p * t.size + 1; to = min n ((p + 1) * t.size); total = n }

-- Selection.
unfoldable pub toggle : TextSet → Text → TextSet
toggle selected id = if has selected id then delete selected id else add selected id

module _ {ℓ} {Row : Type ℓ} (get_id : Row → Text) where
  -- the check box of the head, at `v`
  unfoldable pub select_page : Bool → List Row → TextSet → TextSet
  select_page v [] selected = selected
  select_page v (r ∷ rows) selected =
      select_page v rows (if v then add selected (get_id r) else delete selected (get_id r))

  -- `allOnPage`
  unfoldable pub all_on_page : List Row → TextSet → Bool
  all_on_page rows selected = ltb 0 (length rows) && every (λ r. has selected (get_id r)) rows
