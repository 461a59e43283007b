-- ===== src/DataTable/Selection/Clicks.antt =====
-- data-table.tsx: what a sequence of clicks on the boxes of the rows selects, where the order in which
-- the set holds its members is forgotten.
use mathlib.Core.Quot
use mathlib.Core.Quot.{Quot, Quot-set}
use mathlib.Core.Bool.{Bool-set}
use forgequeue.Common.{
  ◌≡◌, refl, arith, Bool, false, not, List, [], ◌∷◌, Text, text_eq, TextSet, has, IsDistinct,
  if◌then◌else◌,
}
use forgequeue.DataTable.{toggle}
use forgequeue.DataTable.Selection.{toggle_lem}

-- A selection as a set without an order.
pub record Distinct : Type 0 where
  pub members : TextSet
  pub distinct : IsDistinct members

abbrev SameMembers : Distinct → Distinct → Type 0
SameMembers s t = (x : Text) → has s.members x ≡ has t.members x

abbrev pub Selected : Type 0
Selected = Quot SameMembers

abbrev pub selection : Distinct → Selected
selection s = Quot.mk s

unfoldable pub is_selected : Text → Selected → Bool
is_selected x = Quot.lift Bool-set (λ s. has s.members x) (λ s t h. h x)

abbrev click : Text → Distinct → Distinct
click id s = record {
  members = toggle s.members id;
  distinct = (toggle_lem s.members id id s.distinct).1;
}

-- The clicks on these boxes, one after the other.
abbrev pub clicks : List Text → Distinct → Distinct
clicks [] s = s
clicks (id ∷ ids) s = clicks ids (click id s)

-- Whether the list has the text an odd number of times.
abbrev pub is_odd_in : List Text → Text → Bool
is_odd_in [] x = false
is_odd_in (id ∷ ids) x = if text_eq id x then not (is_odd_in ids x) else is_odd_in ids x

has-clicks :
    (ids : List Text) (s : Distinct) (x : Text)
    → has (clicks ids s).members x
      ≡ (if is_odd_in ids x then not (has s.members x) else has s.members x)
has-clicks [] s x = refl
has-clicks (id ∷ ids) s x =
    ground (arith, has-clicks ids (click id s) x, (toggle_lem s.members id x s.distinct).0)

-- A sequence of clicks selects a row whose box is clicked an odd number of times if it was not selected
-- before, and leaves a row whose box is clicked an even number of times as it was. So two sequences
-- that agree in this for each box make the same selection, whatever their order.
pub clicks_parity :
    (ids js : List Text) (s : Distinct)
    → ((x : Text) → is_odd_in ids x ≡ is_odd_in js x)
    → ((x : Text)
        → is_selected x (selection (clicks ids s))
          ≡ (if is_odd_in ids x then not (has s.members x) else has s.members x))
      × (selection (clicks ids s) ≡ selection (clicks js s))
unfolding is_selected
clicks_parity ids js s h =
    (has-clicks ids s, Quot.sound (λ x. ground (arith, has-clicks ids s x, has-clicks js s x, h x)))
