-- ===== src/DataTable/Order.antt =====
-- data-table.tsx, `sorted`: the sort is a stable rearrangement into the chosen order.
pub mod Stable
use mathlib.Core.List.{Perm}
use mathlib.Core.List.Perm
use forgequeue.Common.{
  Option, some, none, refl, sym, ◌∙◌, Option-cases, ◌≡◌, inl, inr, Bool, true, false, ◌&&◌, not,
  List, [], ◌∷◌, arith, Bool-cases, All, Number, int, nan, num_lt, is_finite, text_lt_asymm,
  text_lt_trans,
}
use forgequeue.DataTable.{
  Column, Sort, active_sorter, sorted_rows, Dir, asc, desc, Sorter, by_text, by_number, is_plus,
  key_lt, compare_rows, insert_row, sort_rows,
}

module _ {ℓ} {Row : Type ℓ} where
  -- The row's key is not NaN.
  abbrev pub HasKey : Sorter Row → Row → Type 0
  HasKey (by_text f) a = Unit
  HasKey (by_number f) a = is_finite (f a) ≡ true

  -- `a` comes strictly before `b` in the order that the arrow of the header shows.
  abbrev pub precedes : Sorter Row → Dir → Row → Row → Bool
  precedes f asc a b = key_lt f a b
  precedes f desc a b = key_lt f b a

  -- No row stands before one that strictly precedes it.
  abbrev pub IsOrdered : Sorter Row → Dir → List Row → Type ℓ
  IsOrdered f dir [] = Unit
  IsOrdered f dir (a ∷ rows) = All (λ b. precedes f dir b a ≡ false) rows × IsOrdered f dir rows

  -- neither row precedes the other
  abbrev pub same_key : Sorter Row → Row → Row → Bool
  same_key f a b = not (key_lt f a b) && not (key_lt f b a)

  key_lt_asymm : (f : Sorter Row) (a b : Row) → key_lt f a b ≡ true → key_lt f b a ≡ false
  unfolding key_lt
  key_lt_asymm (by_text f) a b h = text_lt_asymm (f a) (f b) h
  key_lt_asymm (by_number f) a b h = num_lt_asymm (f a) (f b) h
    where
      num_lt_asymm : (x y : Number) → num_lt x y ≡ true → num_lt y x ≡ false
      num_lt_asymm (int x) (int y) h = ground arith
      num_lt_asymm (int x) nan h = cc
      num_lt_asymm nan y h = cc

  pub key_lt_trans :
      (f : Sorter Row) (a b c : Row)
      → HasKey f a
      → HasKey f b
      → HasKey f c
      → key_lt f b a ≡ false
      → key_lt f c b ≡ false
      → key_lt f c a ≡ false
  unfolding key_lt
  key_lt_trans (by_text f) a b c _ _ _ h k = text_lt_trans (f a) (f b) (f c) h k
  key_lt_trans (by_number f) a b c ka kb kc h k = num_lt_trans (f a) (f b) (f c) ka kb kc h k
    where
      num_lt_trans :
          (x y z : Number)
          → is_finite x ≡ true
          → is_finite y ≡ true
          → is_finite z ≡ true
          → num_lt y x ≡ false
          → num_lt z y ≡ false
          → num_lt z x ≡ false
      num_lt_trans (int x) (int y) (int z) _ _ _ h k = ground arith
      num_lt_trans nan y z kx _ _ h k = cc
      num_lt_trans (int x) nan z _ ky _ h k = cc
      num_lt_trans (int x) (int y) nan _ _ kz h k = cc

  -- The comparator says "greater" exactly of a row that the other one precedes.
  pub is_plus-compare_rows :
      (f : Sorter Row) (dir : Dir) (a b : Row)
      → is_plus (compare_rows f dir a b) ≡ precedes f dir b a
  unfolding compare_rows
  is_plus-compare_rows f asc a b = ground (arith, key_lt_asymm f a b, key_lt_asymm f b a)
  is_plus-compare_rows f desc a b = ground (arith, key_lt_asymm f a b, key_lt_asymm f b a)

  precedes_asymm :
      (f : Sorter Row) (dir : Dir) (a b : Row)
      → precedes f dir a b ≡ true
      → precedes f dir b a ≡ false
  precedes_asymm f asc a b h = key_lt_asymm f a b h
  precedes_asymm f desc a b h = key_lt_asymm f b a h

  pub precedes_trans :
      (f : Sorter Row) (dir : Dir) (a b c : Row)
      → HasKey f a
      → HasKey f b
      → HasKey f c
      → precedes f dir b a ≡ false
      → precedes f dir c b ≡ false
      → precedes f dir c a ≡ false
  precedes_trans f asc a b c ka kb kc h k = key_lt_trans f a b c ka kb kc h k
  precedes_trans f desc a b c ka kb kc h k = key_lt_trans f c b a kc kb ka k h

module _ {ℓ} {Row : Type ℓ} (f : Sorter Row) (dir : Dir) where
  insert_row-perm : (a : Row) (rows : List Row) → Perm (insert_row f dir a rows) (a ∷ rows)
  unfolding insert_row
  insert_row-perm a [] = Perm.refl (a ∷ [])
  insert_row-perm a (b ∷ rows) = elim (Bool-cases (is_plus (compare_rows f dir a b))) [
    | inl e ↦ rw e (Perm.trans (Perm.cons b (insert_row-perm a rows)) (Perm.swap a b rows))
    | inr e ↦ rw e (Perm.refl (a ∷ b ∷ rows))
  ]

  pub sort_rows-perm : (rows : List Row) → Perm (sort_rows f dir rows) rows
  unfolding sort_rows
  sort_rows-perm [] = Perm.refl []
  sort_rows-perm (a ∷ rows) =
      Perm.trans (insert_row-perm a (sort_rows f dir rows)) (Perm.cons a (sort_rows-perm rows))

  All-insert_row {κ} :
      (P : Row → Type κ) (a : Row) (rows : List Row)
      → P a
      → All P rows
      → All P (insert_row f dir a rows)
  unfolding insert_row
  All-insert_row P a [] p h = (p, tt)
  All-insert_row P a (b ∷ rows) p (q, h) = elim (Bool-cases (is_plus (compare_rows f dir a b))) [
    | inl e ↦ rw e (q, All-insert_row P a rows p h)
    | inr e ↦ rw e (p, (q, h))
  ]

  pub All-sort_rows {κ} :
      (P : Row → Type κ) (rows : List Row) → All P rows → All P (sort_rows f dir rows)
  unfolding sort_rows
  All-sort_rows P [] h = tt
  All-sort_rows P (a ∷ rows) (p, h) =
      All-insert_row P a (sort_rows f dir rows) p (All-sort_rows P rows h)

  -- Behind a row that precedes `b` weakly, all that follow do.
  weaken_All :
      (a b : Row) (rows : List Row)
      → HasKey f a
      → HasKey f b
      → All (HasKey f) rows
      → precedes f dir b a ≡ false
      → All (λ c. precedes f dir c b ≡ false) rows
      → All (λ c. precedes f dir c a ≡ false) rows
  weaken_All a b [] ka kb k h l = tt
  weaken_All a b (c ∷ rows) ka kb (kc, k) h (p, l) =
      (precedes_trans f dir a b c ka kb kc h p, weaken_All a b rows ka kb k h l)

  insert_row-IsOrdered :
      (a : Row) (rows : List Row)
      → HasKey f a
      → All (HasKey f) rows
      → IsOrdered f dir rows
      → IsOrdered f dir (insert_row f dir a rows)
  unfolding insert_row
  insert_row-IsOrdered a [] ka k o = (tt, tt)
  insert_row-IsOrdered a (b ∷ rows) ka (kb, k) (l, o) =
      elim (Bool-cases (is_plus (compare_rows f dir a b))) [
        | inl e ↦ rw e (
          All-insert_row (λ c. precedes f dir c b ≡ false) a rows
              (precedes_asymm f dir b a (sym (is_plus-compare_rows f dir a b) ∙ e)) l,
          insert_row-IsOrdered a rows ka k o,
        )
        | inr e ↦
            let h : precedes f dir b a ≡ false = sym (is_plus-compare_rows f dir a b) ∙ e in
            rw e ((h, weaken_All a b rows ka kb k h l), (l, o))
      ]

  pub sort_rows-IsOrdered :
      (rows : List Row) → All (HasKey f) rows → IsOrdered f dir (sort_rows f dir rows)
  unfolding sort_rows
  sort_rows-IsOrdered [] k = tt
  sort_rows-IsOrdered (a ∷ rows) (ka, k) =
      insert_row-IsOrdered a (sort_rows f dir rows) ka (All-sort_rows (HasKey f) rows k)
        (sort_rows-IsOrdered rows k)

module _ {ℓ κ} {Row : Type ℓ} {Cell : Type κ} (columns : List (Column Row Cell)) where
  pub sorted_rows_of_sorter :
      (rows : List Row) (s : Sort) {f : Sorter Row}
      → active_sorter columns s.key ≡ some f
      → sorted_rows (some rows) columns (some s) ≡ sort_rows f s.dir rows
  unfolding sorted_rows
  sorted_rows_of_sorter rows s e = rw (e, sorted_rows)

  sorted_rows_of_none :
      (rows : List Row) (s : Sort)
      → active_sorter columns s.key ≡ none
      → sorted_rows (some rows) columns (some s) ≡ rows
  unfolding sorted_rows
  sorted_rows_of_none rows s e = rw (e, sorted_rows)

  -- Whatever is sorted by, the table shows the rows that it was given, each as often.
  pub sorted_rows-perm :
      (rows : List Row) (sort : Option Sort) → Perm (sorted_rows (some rows) columns sort) rows
  unfolding sorted_rows
  sorted_rows-perm rows none = Perm.refl rows
  sorted_rows-perm rows (some s) = elim (Option-cases (active_sorter columns s.key)) [
    | inl e ↦ rw (sorted_rows_of_none rows s e) (Perm.refl rows)
    | inr (f, e) ↦ rw (sorted_rows_of_sorter rows s e) (sort_rows-perm f s.dir rows)
  ]

  -- If the key names a column with a sorter, and no row's key is NaN, the rows stand in the order
  -- of that sorter, ascending or descending as the direction says.
  pub sorted_rows-IsOrdered :
      (rows : List Row) (s : Sort) {f : Sorter Row}
      → active_sorter columns s.key ≡ some f
      → All (HasKey f) rows
      → IsOrdered f s.dir (sorted_rows (some rows) columns (some s))
  sorted_rows-IsOrdered rows s {f} e k =
      rw (sorted_rows_of_sorter rows s e) (sort_rows-IsOrdered f s.dir rows k)
