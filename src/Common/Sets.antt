-- ===== src/Common/Sets.antt =====
-- `Set<string>` of JavaScript: its members in the order of insertion, each once.
use mathlib.Core.Path.{◌≡◌, refl}
use mathlib.Core.Logic.{inl, inr}
use mathlib.Core.Bool.{Bool, false, not, ◌&&◌, ◌||◌}
use mathlib.Core.List.{List, [], ◌∷◌, ◌++◌}
use native.Mathlib.Omega.{arith}
use forgequeue.Common.Tests.{if◌then◌else◌, Bool-cases}
use forgequeue.Common.Texts.{Text, text_eq, text_eq_iff, text_eq_refl}

abbrev pub TextSet : Type 0
TextSet = List Text

-- `s.has(x)`, and `xs.includes(x)` of an array of strings
unfoldable pub has : TextSet → Text → Bool
has [] x = false
has (y ∷ s) x = text_eq y x || has s x

-- `s.add(x)`
unfoldable pub add : TextSet → Text → TextSet
unfolding has
add s x = if has s x then s else s ++ x ∷ []

-- `s.delete(x)`
unfoldable pub delete : TextSet → Text → TextSet
delete [] x = []
delete (y ∷ s) x = if text_eq y x then s else y ∷ delete s x

abbrev pub IsDistinct : TextSet → Type 0
IsDistinct [] = Unit
IsDistinct (x ∷ s) = (has s x ≡ false) × IsDistinct s

pub has-append : (s t : TextSet) (x : Text) → has (s ++ t) x ≡ (has s x || has t x)
unfolding has
has-append [] t x = refl
has-append (y ∷ s) t x = ground (arith, has-append s t x)

pub has-add : (s : TextSet) (x y : Text) → has (add s x) y ≡ (text_eq x y || has s y)
unfolding add
has-add s x y = elim (Bool-cases (has s x)) [
  | inl old ↦ rw old (ground (arith, text_eq_iff x y))
  | inr new ↦ rw (new, has-append s (x ∷ []) y) (unfold has in ground arith)
]

-- Deletion finds the one copy.
pub has-delete :
    (s : TextSet) (x y : Text) → IsDistinct s → has (delete s x) y ≡ (not (text_eq x y) && has s y)
unfolding has delete
has-delete [] x y u = ground arith
has-delete (z ∷ s) x y u =
    ground (
      arith,
      has-delete s x y u.1,
      text_eq_iff z x,
      text_eq_iff x y,
      text_eq_iff z y,
      text_eq_refl y,
    )

has-append_singleton-false :
    (s : TextSet) (x y : Text) → has s y ≡ false → text_eq x y ≡ false → has (s ++ x ∷ []) y ≡ false
unfolding has
has-append_singleton-false [] x y h k = ground arith
has-append_singleton-false (z ∷ s) x y h k = ground (arith, has-append_singleton-false s x y)

append_singleton_unique :
    (s : TextSet) (x : Text) → IsDistinct s → has s x ≡ false → IsDistinct (s ++ x ∷ [])
unfolding has
append_singleton_unique [] x u h = (refl, tt)
append_singleton_unique (z ∷ s) x u h = (
  has-append_singleton-false s x z u.0 (ground (arith, text_eq_iff x z, text_eq_refl z)),
  append_singleton_unique s x u.1 (ground arith),
)

pub add_unique : (s : TextSet) (x : Text) → IsDistinct s → IsDistinct (add s x)
unfolding add
add_unique s x u = elim (Bool-cases (has s x)) [
  | inl old ↦ rw old u
  | inr new ↦ rw new (append_singleton_unique s x u new)
]

has-delete-false : (s : TextSet) (x y : Text) → has s y ≡ false → has (delete s x) y ≡ false
unfolding has delete
has-delete-false [] x y h = refl
has-delete-false (z ∷ s) x y h = ground (arith, has-delete-false s x y)

pub delete_unique : (s : TextSet) (x : Text) → IsDistinct s → IsDistinct (delete s x)
unfolding delete
delete_unique [] x u = tt
delete_unique (z ∷ s) x u = elim (Bool-cases (text_eq z x)) [
  | inl here ↦ rw here u.1
  | inr there ↦ rw there (has-delete-false s x z u.0, delete_unique s x u.1)
]
