-- ===== src/Common/Texts.antt =====
-- JavaScript strings as lists of UTF-16 code units: `===`, `<`, `startsWith`, `includes`, `join`
-- and the decimal print of a number.
use Prim.Native.Nat.{ℕ, zero, suc, ◌+◌, ◌/◌, ◌%◌}
use Prim.Native.Char.{code}
use Prim.Native.String.{String}
use mathlib.Core.Path.{◌≡◌, refl}
use mathlib.Core.Logic.{◌↔◌}
use mathlib.Core.Bool.{Bool, true, false, ◌&&◌, ◌||◌}
use mathlib.Core.List.{List, [], ◌∷◌, ◌++◌}
use native.Mathlib.Omega.{arith}
use forgequeue.Common.Tests.{◌==◌, ltb, if◌then◌else◌}

abbrev pub Text : Type 0
Text = List ℕ

-- A literal. All literals of the program lie in the basic plane, so a character is a unit.
abbrev pub txt : String → Text
txt String.[] = []
txt (String.◌∷◌ c s) = code c ∷ txt s

-- `s === t`
unfoldable pub text_eq : Text → Text → Bool
text_eq [] [] = true
text_eq [] (b ∷ t) = false
text_eq (a ∷ s) [] = false
text_eq (a ∷ s) (b ∷ t) = a == b && text_eq s t

-- `s < t`, unit by unit
unfoldable pub text_lt : Text → Text → Bool
text_lt s [] = false
text_lt [] (b ∷ t) = true
text_lt (a ∷ s) (b ∷ t) = if a == b then text_lt s t else ltb a b

-- `!s`
abbrev pub is_empty : Text → Bool
is_empty [] = true
is_empty (a ∷ s) = false

-- `s.startsWith(p)`
unfoldable pub starts_with : Text → Text → Bool
starts_with s [] = true
starts_with [] (b ∷ p) = false
starts_with (a ∷ s) (b ∷ p) = a == b && starts_with s p

-- `s.includes(p)`
unfoldable pub includes : Text → Text → Bool
unfolding starts_with
includes [] p = is_empty p
includes (a ∷ s) p = starts_with (a ∷ s) p || includes s p

-- `parts.join(separator)`
unfoldable pub join : List Text → Text → Text
join [] separator = []
join (p ∷ []) separator = p
join (p ∷ q ∷ ps) separator = p ++ separator ++ join (q ∷ ps) separator

-- The decimal digits of a number, on fuel above the number.
unfoldable pub digits_of : ℕ → ℕ → Text
digits_of zero n = []
digits_of (suc fuel) n = elim (ltb n 10) [
  | true ↦ (b'0' + n) ∷ []
  | false ↦ digits_of fuel (n / 10) ++ (b'0' + n % 10) ∷ []
]

unfoldable pub show_nat : ℕ → Text
unfolding digits_of
show_nat n = digits_of (suc n) n

pub text_eq_sound : (s t : Text) → text_eq s t ≡ true → s ≡ t
unfolding text_eq
text_eq_sound [] [] h = refl
text_eq_sound [] (b ∷ t) h = cc
text_eq_sound (a ∷ s) [] h = cc
text_eq_sound (a ∷ s) (b ∷ t) h = ground (arith, text_eq_sound s t)

pub text_eq_refl : (s : Text) → text_eq s s ≡ true
unfolding text_eq
text_eq_refl [] = refl
text_eq_refl (a ∷ s) = ground (arith, text_eq_refl s)

pub text_eq_iff : (s t : Text) → (text_eq s t ≡ true) ↔ (s ≡ t)
text_eq_iff s t = (text_eq_sound s t, λ e. rw e (text_eq_refl t))

pub text_lt_irrefl : (s : Text) → text_lt s s ≡ false
unfolding text_lt
text_lt_irrefl [] = refl
text_lt_irrefl (a ∷ s) = ground (arith, text_lt_irrefl s)

pub text_lt_trans : (s t u : Text) → text_lt t s ≡ false → text_lt u t ≡ false → text_lt u s ≡ false
unfolding text_lt
text_lt_trans [] [] u h k = k
text_lt_trans [] (b ∷ t) u h k =
    elim u as (λ u. text_lt u (b ∷ t) ≡ false → text_lt u [] ≡ false) [
      | [] ↦ λ _. refl
      | c ∷ u ↦ λ _. refl
    ]
      k
text_lt_trans (a ∷ s) [] u h k = cc
text_lt_trans (a ∷ s) (b ∷ t) [] h k = cc
text_lt_trans (a ∷ s) (b ∷ t) (c ∷ u) h k = ground (arith, text_lt_trans s t u)

pub text_lt_asymm : (s t : Text) → text_lt s t ≡ true → text_lt t s ≡ false
unfolding text_lt
text_lt_asymm [] (b ∷ t) h = refl
text_lt_asymm [] [] h = cc
text_lt_asymm (a ∷ s) [] h = cc
text_lt_asymm (a ∷ s) (b ∷ t) h = ground (arith, text_lt_asymm s t)
