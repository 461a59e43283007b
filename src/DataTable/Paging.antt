-- ===== src/DataTable/Paging.antt =====
-- data-table.tsx: the pages of a table. `size` is positive, as every entry of `pageSizes` is.
use native.Mathlib.Nat.{
  add-sub_cancel_left, div-add-mod, mod-lt, zero-mul, suc-mul, mul-le-mul_right,
  lt_of_mul-lt-mul_right,
}
use forgequeue.Common.{
  ℕ, zero, suc, ◌+◌, ◌-◌, ◌*◌, ◌≤◌, ◌<◌, min, ◌≡◌, refl, ◌∙◌, ◌↔◌, true, List, [], ◌++◌, arith,
  length, take, drop, length-take, length-drop, take-add, take_of_length-le,
}
use forgequeue.DataTable.{
  Table, ceil_div, pages, current, view, can_go_back, can_go_on, go_back, go_on, counter,
}

ceil_div_bounds : (n d : ℕ) → 0 < d → (n ≤ ceil_div n d * d) × (ceil_div n d * d < n + d)
ceil_div_bounds n d h = (
  omega (arith, div-add-mod (n + d - 1) d, mod-lt (n + d - 1) h),
  omega (arith, div-add-mod (n + d - 1) d, mod-lt (n + d - 1) h),
)

-- The number of pages is the least that has room for all rows, and at least 1.
pages_bounds :
    (t : Table) (n : ℕ)
    → 0 < t.size
    → (n ≤ pages t n * t.size) × (1 ≤ pages t n) × (0 < n → (pages t n - 1) * t.size < n)
unfolding pages
pages_bounds t n h = (
  grind (arith, ceil_div_bounds n t.size h),
  ground arith,
  grind (arith, ceil_div_bounds n t.size h),
)

-- The page shown exists, and it is empty only if there is no row at all.
current-lt-pages : (t : Table) (n : ℕ) → current t n < pages t n
unfolding current pages
current-lt-pages t n = ground arith

-- The start of the page shown lies within the rows.
current-start : (t : Table) (n : ℕ) → 0 < t.size → 0 < n → current t n * t.size < n
unfolding current
current-start t n h k = grind (arith, pages_bounds t n h)

current_at : (t : Table) (n k : ℕ) → k < pages t n → current (record t { page = k }) n ≡ k
unfolding current pages
current_at t n k h = ground arith

last_page : (t : Table) (n : ℕ) → 0 < t.size → 1 < pages t n → (pages t n - 1) * t.size < n
unfolding pages
last_page t n h k = grind (arith, ceil_div_bounds n t.size h)

on_iff :
    (p last n s : ℕ)
    → 0 < s
    → (n ≤ last * s) × (1 ≤ last) × (0 < n → (last - 1) * s < n)
    → (1 < last → (last - 1) * s < n)
    → (p + 1 < last) ↔ ((p + 1) * s < n)
on_iff p last n s h b l = (
  λ e. grind (arith, mul-le-mul_right {m = p + 1} {n = last - 1} s (omega arith)),
  λ e. lt_of_mul-lt-mul_right s (omega (arith, b.0)),
)

module _ {ℓ} {Row : Type ℓ} where
  length-view :
      (t : Table) (rows : List Row)
      → length (view t rows) ≡ min t.size (length rows - current t (length rows) * t.size)
  unfolding view
  length-view t rows =
      let start = current t (length rows) * t.size in
      omega (arith, length-take (start + t.size - start) (drop start rows), length-drop start rows)

  -- With rows to show and a positive size, the counter of the footer runs from its first number to its second within
  -- the total, and it counts exactly the rows on the page, at least one and at most `size`.
  pub counter-view :
      (t : Table) (rows : List Row)
      → 0 < t.size
      → 0 < length rows
      → ((counter t (length rows)).from ≤ (counter t (length rows)).to)
        × ((counter t (length rows)).to ≤ (counter t (length rows)).total)
        × ((counter t (length rows)).total ≡ length rows)
        × (length (view t rows) + (counter t (length rows)).from ≡ (counter t (length rows)).to + 1)
        × (length (view t rows) ≤ t.size)
  unfolding counter
  counter-view t rows h k =
      let n = length rows in
      let s = current-start t n h k in
      let l = length-view t rows in
      (omega (arith, s), omega arith, refl, omega (arith, s, l), omega (arith, l))

  -- What the pages before the `k`-th show, one after the other.
  pub first_pages : Table → List Row → ℕ → List Row
  first_pages t rows zero = []
  first_pages t rows (suc k) = first_pages t rows k ++ view (record t { page = k }) rows

  view_at :
      (t : Table) (rows : List Row) (k : ℕ)
      → k < pages t (length rows)
      → view (record t { page = k }) rows ≡ take t.size (drop (k * t.size) rows)
  unfolding view
  view_at t rows k h = rw (current_at t (length rows) k h, add-sub_cancel_left (k * t.size) t.size)

  first_pages-take :
      (t : Table) (rows : List Row) (k : ℕ)
      → k ≤ pages t (length rows)
      → first_pages t rows k ≡ take (k * t.size) rows
  unfolding first_pages
  first_pages-take t rows zero h = rw zero-mul
  first_pages-take t rows (suc k) h = rw (
    first_pages-take t rows k (omega arith),
    view_at t rows k h,
    suc-mul,
    take-add (k * t.size) t.size rows,
  )

  -- If the size is positive, the pages in turn show every row exactly once, in the order of the table.
  pub first_pages-pages :
      (t : Table) (rows : List Row) → 0 < t.size → first_pages t rows (pages t (length rows)) ≡ rows
  first_pages-pages t rows h =
      let n = length rows in
      first_pages-take t rows (pages t n) (omega arith)
      ∙ take_of_length-le (pages t n * t.size) rows (pages_bounds t n h).0

-- If the size is positive, the next button works exactly while rows are left behind the page, the
-- previous button exactly on a page that is not the first.
pub buttons_iff :
    (t : Table) (n : ℕ)
    → 0 < t.size
    → ((can_go_on t n ≡ true) ↔ ((current t n + 1) * t.size < n))
      × ((can_go_back t n ≡ true) ↔ (0 < current t n))
unfolding can_go_on can_go_back
buttons_iff t n h =
    let (below, above) =
      on_iff (current t n) (pages t n) n t.size h (pages_bounds t n h) (last_page t n h) in
    ((λ e. below (ground arith), λ e. let k = above e in ground arith), ground arith)

-- Presses of the next button.
pub press_on : ℕ → Table → ℕ → Table
press_on zero t n = t
press_on (suc k) t n = press_on k (go_on t n) n

go_on-current : (t : Table) (n : ℕ) → current (go_on t n) n ≡ min (current t n + 1) (pages t n - 1)
unfolding go_on
go_on-current t n = ground arith

go_on_keeps :
    (t : Table) (n : ℕ)
    → ((go_on t n).sort ≡ t.sort) × ((go_on t n).size ≡ t.size) × (pages (go_on t n) n ≡ pages t n)
unfolding go_on pages
go_on_keeps t n = ground arith

-- After `k` presses of the next button the page is `k` further on, or the last one; the sort and
-- the size are as before. So every page is reached.
pub press_on-current :
    (k : ℕ) (t : Table) (n : ℕ)
    → (current (press_on k t n) n ≡ min (current t n + k) (pages t n - 1))
      × ((press_on k t n).sort ≡ t.sort)
      × ((press_on k t n).size ≡ t.size)
unfolding press_on
press_on-current zero t n = (ground (arith, current-lt-pages t n), refl, refl)
press_on-current (suc k) t n =
    let (c, s, z) = press_on-current k (go_on t n) n in
    let (s', z', p) = go_on_keeps t n in (omega (arith, c, p, go_on-current t n), s ∙ s', z ∙ z')

-- The previous button undoes the next one.
pub go_back-go_on :
    (t : Table) (n : ℕ) → can_go_on t n ≡ true → current (go_back (go_on t n) n) n ≡ current t n
unfolding go_on go_back
go_back-go_on t n h = ground arith
