-- ===== src/Queries/Keys.antt =====
-- queries.ts: which queries share an entry of the cache.
use mathlib.Core.Option.{some-injective}
use mathlib.Core.Path.{ap₂}
use forgequeue.Common.{
  ◌≡◌, ◌∙◌, ap, sym, refl, ◌↔◌, Option, none, some, List, [], ◌∷◌, Text, txt, text_eq,
  if◌then◌else◌,
}
use forgequeue.Endpoints.{MetricsRange, m5, m15, h1, h6, h24, d7, range_text}
use forgequeue.Queries.{
  Query, stats, queues, queue, queue_jobs, job, workers, worker, dlq, delayed, throughput, or_all,
  cache_key,
}

-- The query that an entry is read as: of the throughput, that of a queue named `all` if the query
-- was for all queues.
abbrev pub entry_of : Query → Query
entry_of (throughput r q) = throughput r (some (or_all q))
entry_of q = q

read_range : Text → MetricsRange
read_range t =
    if text_eq t (txt "5m")
    then m5
    else if text_eq t (txt "15m")
    then m15
    else if text_eq t (txt "1h")
    then h1
    else if text_eq t (txt "6h")
    then h6
    else if text_eq t (txt "24h")
    then h24
    else d7

read_range-range_text : (r : MetricsRange) → read_range (range_text r) ≡ r
unfolding read_range range_text text_eq
read_range-range_text m5 = refl
read_range-range_text _ = refl

-- The keys are read back by their length and their first segment.
read_two : Text → Text → Query × Text
read_two k s = (
  if text_eq k (txt "queues")
      then queues
      else if text_eq k (txt "workers")
      then workers
      else if text_eq k (txt "dlq")
      then dlq
      else delayed,
  s,
)

read_three : Text → Text → Text → Query × Text
read_three k n s = (
  if text_eq k (txt "system")
      then stats
      else if text_eq k (txt "queue")
      then queue n
      else if text_eq k (txt "job")
      then job n
      else worker n,
  s,
)

read_key : List Text → Option (Query × Text)
read_key (k ∷ s ∷ []) = some (read_two k s)
read_key (k ∷ n ∷ s ∷ []) = some (read_three k n s)
read_key (k ∷ n ∷ j ∷ s ∷ []) = some (queue_jobs n, s)
read_key (k ∷ t ∷ r ∷ q ∷ s ∷ []) = some (throughput (read_range r) (some q), s)
read_key _ = none

read_key-cache_key : (q : Query) (s : Text) → read_key (cache_key q s) ≡ some (entry_of q, s)
unfolding read_key read_two read_three cache_key text_eq
read_key-cache_key (throughput r q) s = rw (read_range-range_text r) refl
read_key-cache_key _ s = refl

cache_key_entry : (q : Query) (s : Text) → cache_key q s ≡ cache_key (entry_of q) s
unfolding cache_key
cache_key_entry (throughput r q) s = refl
cache_key_entry _ s = refl

-- Two queries share an entry of the cache exactly if they have the same API base and are the same
-- query, where the throughput of all queues counts as that of a queue named `all`.
pub cache_key_iff :
    (p q : Query) (s t : Text)
    → (cache_key p s ≡ cache_key q t) ↔ ((entry_of p ≡ entry_of q) × (s ≡ t))
cache_key_iff p q s t = (
  λ e.
      let h =
        some-injective _ _
          (sym (read_key-cache_key p s) ∙ ap read_key e ∙ read_key-cache_key q t) in
      (ap (λ x. x.0) h, ap (λ x. x.1) h),
  λ (e, f). cache_key_entry p s ∙ ap₂ cache_key e f ∙ sym (cache_key_entry q t),
)
