-- ===== src/Format/Fixed/Bounds.antt =====
-- format.ts: how far the seconds that `toFixed(2)` shows are from the duration.
use native.Mathlib.Nat.{mul-div-le, lt-mul-div-succ, pow-le-pow_right, lt_of_mul-lt-mul_left}
use forgequeue.Common.{ℕ, zero, suc, ◌+◌, ◌-◌, ◌*◌, ◌^◌, ◌≤◌, ◌<◌, leb, arith, inl, inr, Bool-cases}
use forgequeue.Format.Fixed.{exponent_of, round_even, significand, nearest, thousandths}

small_exponent : (e : ℕ) → 1000 * 2 ^ e < 64000 → e ≤ 5
small_exponent e h = elim (Bool-cases (leb e 5)) [
  | inl le ↦ ground (arith, le)
  | inr gt ↦
      let six : 6 ≤ e = ground (arith, gt) in
      absurd (omega (arith, h, pow-le-pow_right {n = 2} (omega arith) six))
]

exponent_of_small : (fuel n : ℕ) → n < 64000 → exponent_of fuel n ≤ 5
unfolding exponent_of
exponent_of_small zero n h = omega arith
exponent_of_small (suc e) n h = elim (Bool-cases (leb (1000 * 2 ^ e) n)) [
  | inl le ↦ rw le (small_exponent e (ground (arith, le)))
  | inr gt ↦ rw gt (exponent_of_small e n h)
]

round_even_near :
    (a : ℕ) → (2000 * round_even a 1000 ≤ 2 * a + 1000) × (2 * a ≤ 2000 * round_even a 1000 + 1000)
unfolding round_even
round_even_near a = ground arith

nearest_near :
    (m p : ℕ)
    → 0 < p
    → (2 * p * nearest m 100 p ≤ 2 * m * 100 + p)
      × (2 * m * 100 + p < 2 * p * (nearest m 100 p + 1))
unfolding nearest
nearest_near m p h =
    (mul-div-le (2 * m * 100 + p) (2 * p), lt-mul-div-succ (2 * m * 100 + p) (omega (arith, h)))

-- For a double with at least 10 bits behind the point.
near :
    (n p m t : ℕ)
    → 1000 ≤ p
    → 2000 * m ≤ 2 * (n * p) + 1000
    → 2 * (n * p) ≤ 2000 * m + 1000
    → 2 * p * t ≤ 2 * m * 100 + p
    → 2 * m * 100 + p < 2 * p * (t + 1)
    → (10 * t ≤ n + 5) × (n ≤ 10 * t + 5)
near n p m t big h k l u =
    let above : p * (20 * t) < p * (2 * n + 11) = grind (arith, big, h, l) in
    let below : p * (2 * n) < p * (20 * t + 11) = grind (arith, big, k, u) in
    (omega (arith, lt_of_mul-lt-mul_left p above), omega (arith, lt_of_mul-lt-mul_left p below))

-- `(n / 1000).toFixed(2)`, in hundredths, is within 5 thousandths of n thousandths.
pub thousandths_near :
    (n : ℕ) → n < 64000 → (10 * thousandths 2 n ≤ n + 5) × (n ≤ 10 * thousandths 2 n + 5)
unfolding thousandths significand
thousandths_near n h =
    let e = exponent_of 53 n in
    let p = 2 ^ (52 - e) in
    let k : 10 ≤ 52 - e = omega (arith, exponent_of_small 53 n h) in
    let big : 1000 ≤ p = omega (arith, pow-le-pow_right {n = 2} (omega arith) k) in
    let m = round_even (n * p) 1000 in
    let (a, b) = round_even_near (n * p) in
    let (c, d) = nearest_near m p (omega (arith, big)) in near n p m (nearest m 100 p) big a b c d
