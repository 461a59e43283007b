-- ===== src/Format/Digits.antt =====
-- The decimal digits that the console prints, read back as `Number` reads them.
use forgequeue.Common.{
  ℕ, zero, suc, ◌+◌, ◌-◌, ◌*◌, ◌/◌, ◌%◌, ◌<◌, ◌≡◌, ◌∙◌, refl, inl, inr, [], ◌∷◌, ◌++◌, Text, arith,
  ltb, Bool-cases, digits_of, show_nat,
}
use forgequeue.Stores.Preferences.{number_of}

number_of-append :
    (acc d : ℕ) (s : Text) → number_of acc (s ++ d ∷ []) ≡ number_of acc s * 10 + (d - b'0')
unfolding number_of
number_of-append acc d [] = refl
number_of-append acc d (c ∷ s) = number_of-append (acc * 10 + (c - b'0')) d s

number_of-digit : (n : ℕ) → number_of 0 ((b'0' + n) ∷ []) ≡ n
unfolding number_of
number_of-digit n = omega arith

-- Fuel above the number is enough: its digits are read back as the number.
number_of-digits_of : (fuel n : ℕ) → n < fuel → number_of 0 (digits_of fuel n) ≡ n
unfolding digits_of number_of
number_of-digits_of zero n h = absurd (omega arith)
number_of-digits_of (suc fuel) n h = elim (Bool-cases (ltb n 10)) [
  | inl e ↦ rw (digits_of, e) (number_of-digit n)
  | inr e ↦
      let rest = number_of-digits_of fuel (n / 10) (ground arith) in
      rw (digits_of, e)
        (number_of-append 0 (b'0' + n % 10) (digits_of fuel (n / 10)) ∙ omega (arith, rest))
]

-- The printed number is read back as itself.
number_of-show_nat : (n : ℕ) → number_of 0 (show_nat n) ≡ n
unfolding show_nat
number_of-show_nat n = number_of-digits_of (suc n) n (omega arith)
