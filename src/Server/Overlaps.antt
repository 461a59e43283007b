-- ===== src/Server/Overlaps.antt =====
-- web/src/server.ts with web/src/lib/error-capture.ts: requests that overlap. `fetch` waits for its handler,
-- and all requests have one captured error, so a run is any sequence of reports and of handlers that settle.
use forgequeue.Common.{
  ℕ, ◌+◌, ◌≡◌, ◌≤◌, inl, inr, arith, false, Option, none, some, List, [], ◌∷◌, Text,
}
use forgequeue.Types.{Json}
use forgequeue.ErrorCapture.{
  Thrown, Captured, Logged, described, console_error, describe_error, last_error, console_error_lem,
}
use forgequeue.Server.{
  Response, Served, responded, threw, Imported, Server, Handled, error_response, normalize,
  catch_error, fetch, get_server_entry,
}
use forgequeue.Server.Laws.{
  IsSwallowed, IsReady, normalize_reported, normalize-is_caught, IsSwallowed-is_caught,
  last_error-is_error_like, is_caught, error_response-is_caught, Served-cases,
}

-- A handler passes something to `console.error`, or the handler of a request comes to its end.
pub data ServerEvent : Type 0 where
  report : List Thrown → ServerEvent
  settle : (request : ℕ) → Served → ServerEvent

-- What a request is answered with, and what its `fetch` logs.
pub record Answered : Type 0 where
  pub request : ℕ
  pub response : Response
  pub logged : List Logged

module _ (json_parse : Text → Option Json) (new_stack : Text → Option Text) where
  -- The rest of `fetch` once its handler has settled, and its `catch`.
  unfoldable pub settled_fetch :
      ℕ → Served → Option Captured → Option Captured × Response × List Logged
  settled_fetch now (threw e) last =
      let (s, r, logged) =
        catch_error json_parse new_stack now e (record { entry = none; last = last }) in
      (s.last, r, logged)
  settled_fetch now (responded r) last =
      let (settled, last', logged) = normalize json_parse new_stack now r last in
      elim settled [
        | responded r' ↦ (last', r', logged)
        | threw e ↦
            let (s, r', logged') =
              catch_error json_parse new_stack now e (record { entry = none; last = last' }) in
            (s.last, r', logged')
      ]

  unfoldable pub server_run :
      List (ℕ × ServerEvent) → Option Captured → Option Captured × List Answered
  unfolding settled_fetch
  server_run [] last = (last, [])
  server_run ((now, report args) ∷ events) last = server_run events (console_error now args last).0
  server_run ((now, settle i o) ∷ events) last =
      let (last', r, logged) = settled_fetch now o last in
      let (last'', answers) = server_run events last' in
      (last'', record { request = i; response = r; logged = logged } ∷ answers)

  -- One request alone is `fetch`.
  server_run-fetch :
      (now i : ℕ) (imported : Imported) (h : Handled) (s : Server)
      → IsReady imported s
      → let (t, r, logged) = fetch json_parse new_stack now imported h s in
        server_run ((h.at, report h.reported) ∷ (now, settle i h.outcome) ∷ []) s.last
        ≡ (t.last, record { request = i; response = r; logged = logged } ∷ [])
  unfolding fetch server_run settled_fetch catch_error get_server_entry
  server_run-fetch now i imported h s there = elim (Served-cases h.outcome) [
    | inl (r, o) ↦ ground (arith, there, o)
    | inr (e, o) ↦ ground (arith, there, o)
  ]

  settled_fetch-is_caught :
      (now : ℕ) (o : Served) (last : Option Captured)
      → is_caught json_parse new_stack (settled_fetch now o last).1 ≡ false
  unfolding settled_fetch catch_error
  settled_fetch-is_caught now (threw e) last = error_response-is_caught json_parse new_stack
  settled_fetch-is_caught now (responded r) last = ground (
    arith,
    error_response-is_caught json_parse new_stack,
    normalize-is_caught json_parse new_stack now r last,
  )

  -- None of the answers is a response that h3 made of a thrown error.
  abbrev pub NoneSwallowed : List Answered → Type 0
  NoneSwallowed [] = Unit
  NoneSwallowed (a ∷ answers) =
      (¬ IsSwallowed json_parse new_stack a.response) × NoneSwallowed answers

  -- Whatever the handlers of overlapping requests report and come to, in any order, no response that h3
  -- made of a thrown error is given to a browser.
  pub server_run-NoneSwallowed :
      (events : List (ℕ × ServerEvent)) (last : Option Captured)
      → NoneSwallowed (server_run events last).1
  unfolding server_run
  server_run-NoneSwallowed [] last = tt
  server_run-NoneSwallowed ((now, report args) ∷ events) last =
      server_run-NoneSwallowed events (console_error now args last).0
  server_run-NoneSwallowed ((now, settle i o) ∷ events) last = (
    λ w. ground (
      arith,
      IsSwallowed-is_caught json_parse new_stack (settled_fetch now o last).1 w,
      settled_fetch-is_caught now o last,
    ),
    server_run-NoneSwallowed events (settled_fetch now o last).0,
  )

  -- Two requests overlap: the handler of the first reports an error and then that of the second another
  -- one, before both answer by the response that h3 makes of a thrown error, within 5 seconds. `fetch`
  -- logs both by the error of the second, and the browser gets the same page for both.
  pub server_run_mixed :
      (a b c d i j : ℕ) (xs ys : List Thrown) (e f : Thrown) (r q : Response)
      (last : Option Captured)
      → last_error xs ≡ some e
      → last_error ys ≡ some f
      → IsSwallowed json_parse new_stack r
      → IsSwallowed json_parse new_stack q
      → c ≤ b + 5000
      → d ≤ c + 5000
      → (server_run
          ((a, report xs)
            ∷ (b, report ys)
            ∷ (c, settle i (responded r))
            ∷ (d, settle j (responded q))
            ∷ [])
          last).1
        ≡ record {
          request = i;
          response = error_response;
          logged = described (describe_error (some f)) ∷ [];
        }
          ∷ record {
            request = j;
            response = error_response;
            logged = described (describe_error (some f)) ∷ [];
          }
          ∷ []
  unfolding server_run settled_fetch
  server_run_mixed a b c d i j xs ys e f r q last x y w v s t =
      let kept = last_error-is_error_like ys f y in
      ground (
        arith,
        normalize_reported json_parse new_stack c b r f,
        normalize_reported json_parse new_stack d c q f,
        IsSwallowed-is_caught json_parse new_stack r w,
        IsSwallowed-is_caught json_parse new_stack q v,
        console_error_lem b ys (console_error a xs last).0,
      )
