-- ===== src/ErrorCapture.antt =====
-- web/src/lib/error-capture.ts: the last error that was seen, kept for the server's entry, and the text
-- that an error is logged as.
pub mod Causes
use forgequeue.Common.{
  ℕ, zero, suc, ◌+◌, ◌-◌, ◌≤◌, ◌≡◌, ap, refl, Bool, true, false, Option, none, some, List, [], ◌∷◌,
  ◌++◌, map, Text, txt, length, length-take, slice, join, arith, ltb, leb, show_nat, if◌then◌else◌,
}

-- What is thrown: an error without a cause or with one, a string, or any other value, which is
-- represented by what `safeStringify` makes of it. The stack may be missing; `status` is
-- `status ?? statusCode` where that is a number. A cause that is null counts as none.
pub data Thrown : Type 0 where
  an_error : (stack : Option Text) → (name message : Text) → (status : Option ℕ) → Thrown
  caused :
      (stack : Option Text)
      → (name message : Text) → (status : Option ℕ) → (cause : Thrown) → Thrown
  a_text : Text → Thrown
  other : (stringified : Text) → Thrown

-- `describeStatus`
unfoldable pub describe_status : Option ℕ → Text
describe_status none = []
describe_status (some n) = txt " (status " ++ (show_nat n ++ txt ")")

abbrev pub depth_limit : ℕ
depth_limit = 5

abbrev pub length_limit : ℕ
length_limit = 8000

-- `current.stack ?? ...`
abbrev pub stack_or : Option Text → Text → Text → Text
stack_or none name message = name ++ (txt ": " ++ message)
stack_or (some s) name message = s

-- One part of the description.
unfoldable pub part_of : Text → Option Text → Text → Text → Option ℕ → Text
unfolding describe_status
part_of label stack name message status =
    label ++ (stack_or stack name message ++ describe_status status)

-- The loop of `describeError`, on the number of rounds that are left; `label` is empty in the first.
unfoldable pub parts_of : ℕ → Text → Option Thrown → List Text
unfolding part_of
parts_of zero label current = []
parts_of (suc rounds) label none = []
parts_of (suc rounds) label (some (a_text t)) = t ∷ []
parts_of (suc rounds) label (some (other t)) = t ∷ []
parts_of (suc rounds) label (some (an_error stack name message status)) =
    part_of label stack name message status ∷ []
parts_of (suc rounds) label (some (caused stack name message status cause)) =
    part_of label stack name message status ∷ parts_of rounds (txt "caused by: ") (some cause)

-- `describeError`; `none` is null or undefined.
unfoldable pub describe_error : Option Thrown → Text
unfolding parts_of
describe_error e = slice (join (parts_of depth_limit [] e) (txt "\n")) 0 length_limit

pub record Captured : Type 0 where
  pub error : Thrown
  pub at : ℕ

-- `isErrorLike`
unfoldable pub is_error_like : Thrown → Bool
is_error_like (a_text t) = false
is_error_like (other t) = false
is_error_like _ = true

-- `record`, at the time `now`
unfoldable pub capture : ℕ → Thrown → Option Captured → Option Captured
capture now e last = some (record { error = e; at = now })

-- What the original `console.error` gets: an argument as it is, or the description of an error.
pub data Logged : Type 0 where
  as_is : Thrown → Logged
  described : Text → Logged

-- The wrapped `console.error`: what is captured after it, and what is logged.
unfoldable pub console_error : ℕ → List Thrown → Option Captured → Option Captured × List Logged
unfolding capture is_error_like describe_error
console_error now [] last = (last, [])
console_error now (e ∷ args) last =
    let found = is_error_like e in
    let (last', logged) = console_error now args (if found then capture now e last else last) in
    (last', (if found then described (describe_error (some e)) else as_is e) ∷ logged)

abbrev pub ttl_ms : ℕ
ttl_ms = 5000

-- `consumeLastCapturedError`: what is kept after it, and the error if it is there and recent.
unfoldable pub consume : ℕ → Option Captured → Option Captured × Option Thrown
consume now none = (none, none)
consume now (some c) = if ltb ttl_ms (now - c.at) then (none, none) else (none, some c.error)

pub parts_of_bound :
    (rounds : ℕ) (label : Text) (e : Option Thrown) → length (parts_of rounds label e) ≤ rounds
unfolding parts_of
parts_of_bound zero label e = omega arith
parts_of_bound (suc rounds) label none = omega arith
parts_of_bound (suc rounds) label (some (a_text t)) = omega arith
parts_of_bound (suc rounds) label (some (other t)) = omega arith
parts_of_bound (suc rounds) label (some (an_error stack name message status)) = omega arith
parts_of_bound (suc rounds) label (some (caused stack name message status cause)) =
    omega (arith, parts_of_bound rounds (txt "caused by: ") (some cause))

-- However long the chain of causes is, an error is described by at most 5 parts, and by a text of at
-- most 8000 units.
pub describe_error_bound :
    (e : Option Thrown)
    → (length (parts_of depth_limit [] e) ≤ 5) × (length (describe_error e) ≤ 8000)
unfolding describe_error
describe_error_bound e = (
  parts_of_bound 5 [] e,
  omega (arith, length-take 8000 (join (parts_of depth_limit [] e) (txt "\n"))),
)

-- The last error among the arguments.
abbrev pub last_error : List Thrown → Option Thrown
last_error [] = none
last_error (e ∷ args) = elim (last_error args) [
  | some f ↦ some f
  | none ↦ if is_error_like e then some e else none
]

-- Logging keeps the last error among the arguments, with the time, and what was kept before if there
-- is none; the errors are described and everything else is logged as it is.
pub console_error_lem :
    (now : ℕ) (args : List Thrown) (last : Option Captured)
    → ((console_error now args last).0
        ≡ elim (last_error args) [ none ↦ last | some e ↦ some (record { error = e; at = now }) ])
      × ((console_error now args last).1
          ≡ map
              (λ e. if is_error_like e then described (describe_error (some e)) else as_is e)
              args)
unfolding console_error capture
console_error_lem now [] last = (refl, refl)
console_error_lem now (e ∷ args) last =
    let (kept, logged) =
      console_error_lem now args (if is_error_like e then capture now e last else last) in
    (
      ground (arith, kept),
      ap (◌∷◌ (if is_error_like e then described (describe_error (some e)) else as_is e)) logged,
    )

-- An error that was captured is handed out if at most 5 seconds have passed since, and dropped
-- otherwise; either way it is handed out once, and nothing is kept for a later call.
pub consume-capture :
    (now passed later : ℕ) (e : Thrown) (last : Option Captured)
    → ((consume (now + passed) (capture now e last)).1 ≡ (if leb passed 5000 then some e else none))
      × ((consume later (consume (now + passed) (capture now e last)).0).1 ≡ none)
unfolding consume capture
consume-capture now passed later e last = ground arith
