-- ===== src/Format/Durations.antt =====
-- web/src/lib/format.ts, `fmtDuration`: what the texts of a minute and more say.
use native.Mathlib.Nat.{div-add-mod}
use forgequeue.Common.{
  ℕ, ◌+◌, ◌*◌, ◌/◌, ◌%◌, ◌≤◌, ◌<◌, ◌≡◌, inl, inr, some, Text, txt, ◌++◌, show_nat, arith, ltb,
  Bool-cases, num,
}
use forgequeue.Format.{fmt_ms, fmt_duration}

-- The two units of a text, the larger one and the smaller one.
pub data Scale : Type 0 where
  minutes hours days : Scale

abbrev pub larger : Scale → ℕ
larger minutes = 60000
larger hours = 3600000
larger days = 86400000

abbrev pub smaller : Scale → ℕ
smaller minutes = 1000
smaller hours = 60000
smaller days = 3600000

abbrev pub shown : Scale → ℕ → ℕ → Text
shown minutes a b = show_nat a ++ (txt "m" ++ (txt " " ++ (show_nat b ++ txt "s")))
shown hours a b = show_nat a ++ (txt "h" ++ (txt " " ++ (show_nat b ++ txt "m")))
shown days a b = show_nat a ++ (txt "d" ++ (txt " " ++ (show_nat b ++ txt "h")))

-- From a minute on, a duration is shown in two units, minutes and seconds, hours and minutes or days and
-- hours, rounded down to the smaller one: the smaller count stays below the larger unit, and the
-- duration lies between the time shown and the next one.
pub fmt_duration_rounds :
    (ms : ℕ)
    → 60000 ≤ ms
    → (u : Scale) × (a : ℕ) × (b : ℕ) × (fmt_duration (some (num ms)) ≡ shown u a b)
      × (a * larger u + b * smaller u ≤ ms)
      × (ms < a * larger u + (b + 1) * smaller u)
      × (b * smaller u < larger u)
      × (larger u ≤ ms)
unfolding fmt_duration fmt_ms
fmt_duration_rounds ms h = elim (Bool-cases (ltb ms 3600000)) [
  | inl e ↦ (
    minutes,
    ms / 60000,
    ms % 60000 / 1000,
    ground arith,
    omega (arith, div-add-mod ms 60000),
    omega arith,
    omega arith,
    h,
  )
  | inr e ↦ elim (Bool-cases (ltb ms 86400000)) [
    | inl f ↦ (
      hours,
      ms / 3600000,
      ms % 3600000 / 60000,
      ground arith,
      omega arith,
      omega arith,
      omega arith,
      ground arith,
    )
    | inr f ↦ (
      days,
      ms / 86400000,
      ms % 86400000 / 3600000,
      ground arith,
      omega arith,
      omega arith,
      omega arith,
      ground arith,
    )
  ]
]
