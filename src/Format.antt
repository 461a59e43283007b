-- ===== src/Format.antt =====
-- web/src/lib/format.ts. Times are whole milliseconds or NaN, and a rate is a whole number, as the
-- server sends them. `toFixed` prints the double that the division by 1000 gives, exactly.
pub mod Fixed
pub mod Durations
pub mod Seconds
pub mod Digits
use forgequeue.Common.{
  ◌≡◌, refl, ℕ, suc, ◌+◌, ◌-◌, ◌*◌, ◌/◌, ◌%◌, ◌^◌, Bool, true, false, Option, none, some, List, [],
  ◌∷◌, ◌++◌, Text, txt, show_nat, ltb, leb, ◌==◌, if◌then◌else◌, Number, int, nan, ℤ, pos, negsuc,
  length, slice,
}
use forgequeue.Format.Fixed.{thousandths}

-- `${(perMin / 1000).toFixed(1)}k/min`
unfoldable pub fmt_rate : ℕ → Text
fmt_rate per_min =
    if leb 1000 per_min
    then (let n = thousandths 1 per_min in
        show_nat (n / 10) ++ (txt "." ++ (show_nat (n % 10) ++ txt "k/min")))
    else show_nat per_min ++ txt "/min"

-- two digits behind the point
unfoldable pub two_digits : ℕ → Text
two_digits n = (b'0' + n / 10 % 10) ∷ (b'0' + n % 10) ∷ []

unfoldable pub fmt_seconds : ℕ → Text
unfolding two_digits
fmt_seconds ms =
    let n = thousandths 2 ms in show_nat (n / 100) ++ (txt "." ++ (two_digits (n % 100) ++ txt "s"))

abbrev pub units : ℕ → Text → ℕ → Text → Text
units a x b y = show_nat a ++ (x ++ (txt " " ++ (show_nat b ++ y)))

-- The branches of `fmtDuration` from `ms < 1000` on.
unfoldable pub fmt_ms : ℕ → Text
unfolding fmt_seconds
fmt_ms ms =
    if ltb ms 1000
    then show_nat ms ++ txt "ms"
    else if ltb ms 60000
    then fmt_seconds ms
    else if ltb ms 3600000
    then units (ms / 60000) (txt "m") (ms % 60000 / 1000) (txt "s")
    else if ltb ms 86400000
    then units (ms / 3600000) (txt "h") (ms % 3600000 / 60000) (txt "m")
    else units (ms / 86400000) (txt "d") (ms % 86400000 / 3600000) (txt "h")

unfoldable pub fmt_duration : Option Number → Text
unfolding fmt_ms
fmt_duration none = txt "—"
fmt_duration (some nan) = txt "NaNd NaNh"
fmt_duration (some (int (negsuc n))) = fmt_ms 0
fmt_duration (some (int (pos n))) = fmt_ms n

-- `shortId(id, n)`
unfoldable pub short_id : Text → ℕ → Text
short_id id n = if ltb n (length id) then slice id 0 n else id
