-- ===== src/Examples/Entry.antt =====
-- web/src/lib/error-capture.ts, the navigation, the root, the login page and durations.
use forgequeue.Common.{
  show_nat, num, arith, ◌*◌, ◌<◌, ℕ, ◌+◌, ◌++◌, ◌≤◌, ◌≡◌, refl, Bool, true, false, Option, none,
  some, List, [], ◌∷◌, map, Text, txt, length, filter_by, leb, if◌then◌else◌, text_eq,
}
use forgequeue.Format.{two_digits, fmt_duration, fmt_ms, fmt_seconds}
use forgequeue.Format.Seconds.{fmt_duration_seconds}
use forgequeue.Types.{Json}
use forgequeue.Stores.{Session}
use forgequeue.Stores.Auth.{use_session}
use forgequeue.Client.{World, initial_conn, no_text, answered, finish}
use forgequeue.ErrorCapture.{
  Thrown, caused, a_text, parts_of, describe_error, part_of, describe_status, capture, consume,
  consume-capture,
}
use forgequeue.Console.Shell.{is_active, root_content, redirect_to_login}
use forgequeue.Console.Login.{LoginPage, root_content-finish}
use forgequeue.Examples.Stores.{date_parse, alice, signed_in, prefs_page}

abbrev world : World
world = record { auth = signed_in; prefs = prefs_page; conn = initial_conn; calls = 0 }

abbrev reset_error : Thrown
reset_error = caused none (txt "Error") (txt "failed") (some 500) (a_text (txt "reset"))

describe_error_test :
    describe_error (some reset_error) ≡ txt "Error: failed (status 500)" ++ (b'\n' ∷ txt "reset")
unfolding describe_error parts_of part_of describe_status forgequeue.Common.join
    forgequeue.Common.show_nat
describe_error_test = refl

consume-capture_example :
    ((consume (10 + 5000) (capture 10 reset_error none)).1 ≡ some reset_error)
    × ((consume 6000 (consume (10 + 5000) (capture 10 reset_error none)).0).1 ≡ none)
consume-capture_example = consume-capture 10 5000 6000 reset_error none

is_active_test : is_active (txt "/queues") (txt "/jobs/j1") ≡ true
unfolding is_active text_eq forgequeue.Common.starts_with
is_active_test = refl

abbrev form : LoginPage
form = record {
  config = none;
  username = txt " alice ";
  password = txt "secret";
  error = some (txt "old");
  busy = false;
  exchanging = false;
}

abbrev as_session : Option Json → Session
as_session v = alice

root_content-finish_example :
    root_content true (txt "/queues") (
      use_session false
        (finish date_parse none 300 (answered 401 (txt "Unauthorized") no_text) world).0.auth)
    ≡ redirect_to_login
unfolding text_eq
root_content-finish_example =
    root_content-finish date_parse none 300 (txt "Unauthorized") no_text none (txt "/queues") world
      refl refl

fmt_duration_test : fmt_duration (some (num 3725000)) ≡ txt "1h 2m"
unfolding fmt_duration fmt_ms forgequeue.Common.show_nat
fmt_duration_test = refl

fmt_seconds_test : fmt_duration (some (num 59999)) ≡ txt "60.00s"
unfolding fmt_duration fmt_ms fmt_seconds forgequeue.Common.show_nat
    forgequeue.Format.Fixed.thousandths
fmt_seconds_test = refl

fmt_duration_seconds_example :
    (a : ℕ) × (b : ℕ) × (fmt_duration (some (num 1005))
      ≡ show_nat a ++ (txt "." ++ (two_digits b ++ txt "s")))
    × (b < 100)
    × (1000 * a + 10 * b ≤ 1010)
    × (1005 ≤ 1000 * a + 10 * b + 5)
fmt_duration_seconds_example = fmt_duration_seconds 1005 (omega arith) (omega arith)
