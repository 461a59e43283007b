-- ===== src/Console/Filters.antt =====
-- web/src/routes/dlq.tsx, web/src/routes/delayed.tsx and `FilterSelect` of
-- web/src/components/toolbar.tsx: the options of a filter.
pub mod Options
use forgequeue.Common.{
  ℕ, ◌≡◌, refl, arith, Bool, true, false, ◌||◌, ◌&&◌, not, Option, none, some, List, [], ◌∷◌, ◌++◌,
  map, any, Text, txt, TextSet, has, add, IsDistinct, has-add, add_unique, text_eq, text_eq_iff,
  length, filter_by, is_empty, includes, if◌then◌else◌,
}
use forgequeue.Types.{DlqItem, DelayedJob}
use forgequeue.DataTable.{Sorter, by_text, Dir, asc, insert_row, sort_rows}
use forgequeue.DataTable.Order.{IsOrdered, sort_rows-IsOrdered}
use forgequeue.Console.Shared.{StatCard}

-- `new Set(xs)`, after the members that are there
unfoldable pub add_all : TextSet → List Text → TextSet
add_all s [] = s
add_all s (x ∷ xs) = add_all (add s x) xs

-- `xs.sort()`
abbrev pub by_itself : Sorter Text
by_itself = by_text (λ t. t)

unfoldable pub sort_texts : List Text → List Text
sort_texts xs = sort_rows by_itself asc xs

-- `[...new Set(data?.map(f) ?? [])].sort()`
unfoldable pub options_of {ℓ} : {Row : Type ℓ} → (Row → Text) → Option (List Row) → List Text
unfolding add_all sort_texts
options_of f none = sort_texts (add_all [] [])
options_of f (some rows) = sort_texts (add_all [] (map f rows))

-- dlq.tsx: `queues`, and delayed.tsx: `uniq("queue")` and `uniq("task")`
unfoldable pub dlq_queues : Option (List DlqItem) → List Text
dlq_queues rows = options_of (λ d. d.original_queue) rows

unfoldable pub delayed_queues : Option (List DelayedJob) → List Text
delayed_queues rows = options_of (λ d. d.queue) rows

unfoldable pub delayed_tasks : Option (List DelayedJob) → List Text
delayed_tasks rows = options_of (λ d. d.task) rows

-- `FilterSelect`: the values and the texts of the options; the first one filters nothing.
unfoldable pub filter_select : Text → List Text → List (Text × Text)
filter_select label options = ([], label ++ txt ": all") ∷ map (λ o. (o, o)) options
