-- ===== src/Format/Fixed.antt =====
-- `(n / 1000).toFixed(f)` of the language, for 1000 ≤ n < 1000 * 2 ^ 52: the quotient is a double,
-- with 53 bits rounded to the nearest (to even on a tie), and `toFixed` takes the nearest decimal of
-- that double, the larger on a tie.
pub mod Bounds
use forgequeue.Common.{ℕ, zero, suc, ◌+◌, ◌-◌, ◌*◌, ◌/◌, ◌%◌, ◌^◌, ltb, leb, ◌==◌, if◌then◌else◌}

-- The greatest e below the fuel with 1000 * 2 ^ e ≤ n.
exponent_of : ℕ → ℕ → ℕ
exponent_of zero n = 0
exponent_of (suc e) n = let rest = exponent_of e n in if leb (1000 * 2 ^ e) n then e else rest

round_even : ℕ → ℕ → ℕ
round_even a b =
    let q = a / b in
    let r = a % b in
    if ltb (2 * r) b then q else if ltb b (2 * r) then q + 1 else if q % 2 == 0 then q else q + 1

-- The double m / 2 ^ k that is nearest to n / 1000, by its `m`, where k = 52 - e.
significand : ℕ → ℕ → ℕ
significand n k = round_even (n * 2 ^ k) 1000

nearest : ℕ → ℕ → ℕ → ℕ
nearest m f p = (2 * m * f + p) / (2 * p)

-- The digits of `(n / 1000).toFixed(f)` as one number: n / 1000 in units of 1 / 10 ^ f.
unfoldable pub thousandths : ℕ → ℕ → ℕ
unfolding exponent_of significand round_even nearest
thousandths f n = let k = 52 - exponent_of 53 n in nearest (significand n k) (10 ^ f) (2 ^ k)
