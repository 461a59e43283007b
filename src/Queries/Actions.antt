-- ===== src/Queries/Actions.antt =====
-- queries.ts: actions over one job and over many.
use forgequeue.Common.{
  ◌+◌, ◌≡◌, refl, Bool, true, false, Option, none, List, [], ◌∷◌, ◌++◌, Text, every, length,
}
use forgequeue.Types.{Json}
use forgequeue.Client.{Outcome, returned, api_error, other_error}
use forgequeue.Queries.{success, failure, Effects, use_action, all_settled, bulk_label, use_bulk}

abbrev pub has_succeeded : Outcome → Bool
has_succeeded (returned v) = true
has_succeeded _ = false

all_settled-returned :
    (outcomes : List Outcome)
    → every has_succeeded outcomes ≡ true
    → (v : Option Json) × (all_settled outcomes ≡ returned v)
unfolding all_settled
all_settled-returned [] h = (none, refl)
all_settled-returned (returned v ∷ rest) h = all_settled-returned rest h
all_settled-returned (api_error m k v ∷ rest) h = absurd (cc)
all_settled-returned (other_error m ∷ rest) h = absurd (cc)

-- The message of a failure.
abbrev pub Says : Text → Outcome → Type 0
Says m (returned v) = ⊥
Says m (api_error n k v) = m ≡ n
Says m (other_error n) = m ≡ n

-- The first failure of a list: only successes stand before it.
abbrev pub FirstFailure : Text → List Outcome → Type 0
FirstFailure m [] = ⊥
FirstFailure m (returned v ∷ rest) = FirstFailure m rest
FirstFailure m (o ∷ rest) = Says m o

failed_bulk :
    (label : Text) (outcomes : List Outcome) (e : Effects)
    → every has_succeeded outcomes ≡ false
    → (m : Text) × FirstFailure m outcomes
      × (use_action label (all_settled outcomes) e
          ≡ record e { toasts = e.toasts ++ failure m ∷ [] })
unfolding all_settled use_action
failed_bulk label [] e h = absurd (cc)
failed_bulk label (returned v ∷ rest) e h = failed_bulk label rest e h
failed_bulk label (api_error m k v ∷ rest) e h = (m, refl, refl)
failed_bulk label (other_error m ∷ rest) e h = (m, refl, refl)

-- A bulk action that succeeds for every job shows one success, with the number of jobs, and
-- invalidates the cache once.
pub use_bulk_success :
    (verb : Text) (ids : List Text) (outcomes : List Outcome) (e : Effects)
    → every has_succeeded outcomes ≡ true
    → use_bulk verb ids outcomes e ≡ record {
      toasts = e.toasts ++ success (bulk_label verb (length ids)) ∷ [];
      invalidations = e.invalidations + 1;
    }
unfolding use_bulk use_action
use_bulk_success verb ids outcomes e h = let (v, k) = all_settled-returned outcomes h in rw k refl

-- If a bulk action fails for any job, it shows the first failure alone and invalidates nothing,
-- also if other jobs were changed.
pub use_bulk_failure :
    (verb : Text) (ids : List Text) (outcomes : List Outcome) (e : Effects)
    → every has_succeeded outcomes ≡ false
    → (m : Text) × FirstFailure m outcomes
      × (use_bulk verb ids outcomes e ≡ record e { toasts = e.toasts ++ failure m ∷ [] })
unfolding use_bulk
use_bulk_failure verb ids outcomes e h = failed_bulk (bulk_label verb (length ids)) outcomes e h
