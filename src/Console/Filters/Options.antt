-- ===== src/Console/Filters/Options.antt =====
-- web/src/routes/dlq.tsx and web/src/routes/delayed.tsx: which options a filter has, and what they leave.
use forgequeue.Common.{
  ◌≡◌, ◌≤◌, refl, ap, sym, ◌∙◌, inl, inr, Bool-cases, arith, Bool, true, false, ◌||◌, some, List,
  [], ◌∷◌, map, any, Text, TextSet, has, add, IsDistinct, has-add, add_unique, text_eq, text_eq_iff,
  length, filter_by, is_empty, includes, starts_with, All,
}
use forgequeue.Types.{DlqItem}
use forgequeue.DataTable.{asc, insert_row, sort_rows, compare_rows, is_plus}
use forgequeue.DataTable.Order.{IsOrdered, HasKey, sort_rows-IsOrdered}
use forgequeue.Console.{Context}
use forgequeue.Console.Pages.{filter_dlq}
use forgequeue.Console.Filters.{add_all, by_itself, sort_texts, options_of, dlq_queues}

has-add_all :
    (s : TextSet) (xs : List Text) (y : Text)
    → has (add_all s xs) y ≡ (has s y || any (λ x. text_eq x y) xs)
unfolding add_all
has-add_all s [] y = ground arith
has-add_all s (x ∷ xs) y = ground (arith, has-add_all (add s x) xs y, has-add s x y)

add_all-IsDistinct : (s : TextSet) (xs : List Text) → IsDistinct s → IsDistinct (add_all s xs)
unfolding add_all
add_all-IsDistinct s [] h = h
add_all-IsDistinct s (x ∷ xs) h = add_all-IsDistinct (add s x) xs (add_unique s x h)

has-insert_row :
    (x : Text) (xs : List Text) (y : Text)
    → has (insert_row by_itself asc x xs) y ≡ (text_eq x y || has xs y)
unfolding insert_row has
has-insert_row x [] y = refl
has-insert_row x (z ∷ zs) y = ground (arith, has-insert_row x zs y)

insert_row-IsDistinct :
    (x : Text) (xs : List Text)
    → has xs x ≡ false
    → IsDistinct xs
    → IsDistinct (insert_row by_itself asc x xs)
unfolding insert_row has
insert_row-IsDistinct x [] n h = (refl, h)
insert_row-IsDistinct x (z ∷ zs) n h =
    let later = has-insert_row x zs z in
    elim (Bool-cases (is_plus (compare_rows by_itself asc x z))) [
      | inl e ↦ rw e (
        ground (arith, later, text_eq_iff x z, text_eq_iff z x),
        insert_row-IsDistinct x zs (ground arith) h.1,
      )
      | inr e ↦ rw e (n, h)
    ]

has-sort_texts : (xs : List Text) (y : Text) → has (sort_texts xs) y ≡ has xs y
unfolding sort_texts sort_rows has
has-sort_texts [] y = refl
has-sort_texts (x ∷ xs) y =
    has-insert_row x (sort_rows by_itself asc xs) y
    ∙ ap (λ b. text_eq x y || b) (has-sort_texts xs y)

sort_texts-IsDistinct : (xs : List Text) → IsDistinct xs → IsDistinct (sort_texts xs)
unfolding sort_texts sort_rows
sort_texts-IsDistinct [] h = h
sort_texts-IsDistinct (x ∷ xs) (n, h) =
    insert_row-IsDistinct x (sort_rows by_itself asc xs) (has-sort_texts xs x ∙ n)
      (sort_texts-IsDistinct xs h)

any-map {ℓ} :
    {Row : Type ℓ} (f : Row → Text) (t : Text) (rows : List Row)
    → any (λ x. text_eq x t) (map f rows) ≡ any (λ r. text_eq (f r) t) rows
any-map f t [] = refl
any-map f t (r ∷ rows) = ap (λ b. text_eq (f r) t || b) (any-map f t rows)

All-HasKey : (xs : List Text) → All (HasKey by_itself) xs
All-HasKey [] = tt
All-HasKey (x ∷ xs) = (tt, All-HasKey xs)

module _ {ℓ} {Row : Type ℓ} where
  -- The options of a filter are exactly the texts that the rows have, each once and in order.
  pub options_of_lem :
      (f : Row → Text) (rows : List Row) (t : Text)
      → (has (options_of f (some rows)) t ≡ any (λ r. text_eq (f r) t) rows)
        × IsDistinct (options_of f (some rows))
        × IsOrdered by_itself asc (options_of f (some rows))
  unfolding options_of sort_texts has
  options_of_lem f rows t = (
    has-sort_texts (add_all [] (map f rows)) t ∙ has-add_all [] (map f rows) t ∙ any-map f t rows,
    sort_texts-IsDistinct (add_all [] (map f rows)) (add_all-IsDistinct [] (map f rows) tt),
    sort_rows-IsOrdered by_itself asc (add_all [] (map f rows))
        (All-HasKey (add_all [] (map f rows))),
  )

filter_by_some :
    {A : Type 0} (p : A → Bool) (rows : List A) → any p rows ≡ true → 1 ≤ length (filter_by p rows)
filter_by_some p [] h = cc
filter_by_some p (a ∷ rows) h = ground (arith, filter_by_some p rows)

same_filter :
    {A : Type 0} (p q : A → Bool) (rows : List A)
    → ((a : A) → p a ≡ q a)
    → filter_by p rows ≡ filter_by q rows
same_filter p q [] h = refl
same_filter p q (a ∷ rows) h = ground (arith, same_filter p q rows h, h a)

includes_nothing : (s : Text) → includes s [] ≡ true
unfolding includes starts_with
includes_nothing [] = refl
includes_nothing (c ∷ s) = refl

-- With nothing in the search field, each option of the filter of the dead letter queue that is not
-- empty leaves exactly the rows of that queue, and at least one row.
pub filter_dlq-options :
    (ctx : Context) (rows : List DlqItem) (t : Text)
    → ctx.to_lower [] ≡ []
    → has (dlq_queues (some rows)) t ≡ true
    → is_empty t ≡ false
    → let those = filter_by (λ d. text_eq d.original_queue t) rows in
      (filter_dlq ctx [] t (some rows) ≡ some those) × (1 ≤ length those)
unfolding dlq_queues filter_dlq
filter_dlq-options ctx rows t l h e = (
  ap some (same_filter _ _ rows (λ d. ground (arith, includes_nothing d.job_id))),
  filter_by_some (λ d. text_eq d.original_queue t) rows
      (sym (options_of_lem (λ d. d.original_queue) rows t).0 ∙ h),
)
