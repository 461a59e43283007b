-- ===== src/Format/Seconds.antt =====
-- web/src/lib/format.ts, `fmtDuration`: what the texts of less than a minute say.
use forgequeue.Common.{ℕ, ◌+◌, ◌*◌, ◌/◌, ◌%◌, ◌≤◌, ◌<◌, ◌≡◌, some, txt, ◌++◌, show_nat, arith, num}
use forgequeue.Format.{two_digits, fmt_seconds, fmt_ms, fmt_duration}
use forgequeue.Format.Fixed.{thousandths}
use forgequeue.Format.Fixed.Bounds.{thousandths_near}

-- From a second on and below a minute, a duration is shown in seconds with two digits behind the point,
-- and is at most 5 ms from what is shown, although the division is one of doubles. So the last 5 ms of the
-- minute may be shown as 60 seconds.
pub fmt_duration_seconds :
    (ms : ℕ)
    → 1000 ≤ ms
    → ms < 60000
    → (a : ℕ) × (b : ℕ) × (fmt_duration (some (num ms))
        ≡ show_nat a ++ (txt "." ++ (two_digits b ++ txt "s")))
      × (b < 100)
      × (1000 * a + 10 * b ≤ ms + 5)
      × (ms ≤ 1000 * a + 10 * b + 5)
unfolding fmt_duration fmt_ms fmt_seconds
fmt_duration_seconds ms l h =
    let n = thousandths 2 ms in
    let (above, below) = thousandths_near ms (omega (arith, h)) in
    (
      n / 100,
      n % 100,
      ground (arith, l, h),
      omega arith,
      omega (arith, above),
      omega (arith, below),
    )
