-- ===== src/DataTable/Order/Stable.antt =====
-- data-table.tsx, `sorted`: rows with equal keys keep the order in which they came, whichever way
-- the column is sorted.
use forgequeue.Common.{
  ◌≡◌, refl, ◌∙◌, inl, inr, true, false, some, List, [], ◌∷◌, arith, Bool-cases, All, filter_by,
}
use forgequeue.DataTable.{
  Dir, asc, desc, Sort, Sorter, Column, is_plus, compare_rows, insert_row, sort_rows, active_sorter,
  sorted_rows,
}
use forgequeue.DataTable.Order.{
  HasKey, precedes, same_key, key_lt_trans, is_plus-compare_rows, All-sort_rows,
  sorted_rows_of_sorter,
}

module _ {ℓ} {Row : Type ℓ} (f : Sorter Row) (dir : Dir) (k : Row) (kk : HasKey f k) where
  -- A row with k's key is not preceded by one that has it too.
  same_key-not-precedes :
      (d : Dir) (a b : Row)
      → HasKey f a
      → HasKey f b
      → same_key f k a ≡ true
      → precedes f d b a ≡ true
      → same_key f k b ≡ false
  same_key-not-precedes asc a b ka kb s p = ground (arith, key_lt_trans f a k b ka kk kb)
  same_key-not-precedes desc a b ka kb s p = ground (arith, key_lt_trans f b k a kb kk ka)

  filter-insert_row :
      (a : Row) (rows : List Row)
      → HasKey f a
      → All (HasKey f) rows
      → filter_by (same_key f k) (insert_row f dir a rows) ≡ filter_by (same_key f k) (a ∷ rows)
  unfolding insert_row
  filter-insert_row a [] ka h = refl
  filter-insert_row a (b ∷ rows) ka (kb, h) = elim (Bool-cases (is_plus (compare_rows f dir a b))) [
    | inl e ↦ rw e (
        ground (
          arith,
          filter-insert_row a rows ka h,
          same_key-not-precedes dir a b ka kb,
          is_plus-compare_rows f dir a b,
        ))
    | inr e ↦ rw e refl
  ]

  filter-sort_rows :
      (rows : List Row)
      → All (HasKey f) rows
      → filter_by (same_key f k) (sort_rows f dir rows) ≡ filter_by (same_key f k) rows
  unfolding sort_rows
  filter-sort_rows [] h = refl
  filter-sort_rows (a ∷ rows) (ka, h) =
      filter-insert_row a (sort_rows f dir rows) ka (All-sort_rows f dir (HasKey f) rows h)
      ∙ ground (arith, filter-sort_rows rows h)

-- If the key names a column with a sorter, no row's key is NaN and neither is that of `k`, then
-- the rows whose keys equal that of `k` are shown in the order in which they were given, in both
-- directions of the sort.
pub sorted_rows_stable {ℓ κ} :
    {Row : Type ℓ} {Cell : Type κ} (columns : List (Column Row Cell)) (rows : List Row) (s : Sort)
    (k : Row) {f : Sorter Row}
    → active_sorter columns s.key ≡ some f
    → HasKey f k
    → All (HasKey f) rows
    → filter_by (same_key f k) (sorted_rows (some rows) columns (some s))
      ≡ filter_by (same_key f k) rows
sorted_rows_stable columns rows s k {f} e kk h =
    rw (sorted_rows_of_sorter columns rows s e) (filter-sort_rows f s.dir k kk rows h)
