-- ===== src/Server/Laws.antt =====
-- web/src/server.ts and web/src/start.ts: which responses reach a browser, and what the log has.
use forgequeue.Common.{
  ℕ, ◌+◌, ◌≡◌, ◌⊎◌, inl, inr, ◌≤◌, refl, Bool, true, false, not, ◌&&◌, Option, none, some, List, [],
  ◌∷◌, Text, txt, ltb, includes, arith,
}
use forgequeue.Types.{Json}
use forgequeue.ErrorCapture.{
  Thrown, Captured, described, capture, consume, console_error, describe_error, is_error_like,
  last_error, console_error_lem,
}
use forgequeue.Server.ErrorPage.{render_error_page}
use forgequeue.Server.{
  Raised, readable, unreadable, Response, Served, responded, threw, Imported, ready, Server,
  Handled, error_response, error_middleware, content_type_of, is_swallowed_body, get_server_entry,
  normalize, catch_error, fetch,
}

-- One error-like argument is captured, and logged by its description.
console_error-error :
    (now : ℕ) (e : Thrown) (last : Option Captured)
    → is_error_like e ≡ true
    → console_error now (e ∷ []) last
      ≡ (some (record { error = e; at = now }), described (describe_error (some e)) ∷ [])
unfolding console_error capture
console_error-error now e last h = ground arith

pub last_error-is_error_like :
    (args : List Thrown) (e : Thrown) → last_error args ≡ some e → is_error_like e ≡ true
last_error-is_error_like (a ∷ args) e h = ground (arith, last_error-is_error_like args e)
last_error-is_error_like [] e h = cc

pub Served-cases :
    (o : Served) → ((r : Response) × (o ≡ responded r)) ⊎ ((e : Raised) × (o ≡ threw e))
Served-cases (responded r) = inl (r, refl)
Served-cases (threw e) = inr (e, refl)

error_response_readable : error_response.content ≡ readable render_error_page
unfolding error_response
error_response_readable = refl

-- Whether the import of the server's entry has succeeded, or does so now.
abbrev pub IsReady : Imported → Server → Type 0
IsReady imported s = (get_server_entry imported s).1 ≡ ready

module _ (json_parse : Text → Option Json) (new_stack : Text → Option Text) where
  -- A response that h3 made of an error that was thrown, by its status, its type and its body.
  pub record IsSwallowed (r : Response) : Type 0 where
    pub failed : 500 ≤ r.status
    pub typed : includes (content_type_of r) (txt "application/json") ≡ true
    pub body : Text
    pub has_body : r.content ≡ readable body
    pub marked : is_swallowed_body (json_parse body) ≡ true

  -- The test that `normalize` makes, by the parts of the response.
  unfoldable pub is_caught : Response → Bool
  is_caught r =
      not (ltb r.status 500)
      && includes (content_type_of r) (txt "application/json")
      && elim r.content [
        | readable body ↦ is_swallowed_body (json_parse body)
        | unreadable e ↦ false
      ]

  pub IsSwallowed-is_caught : (r : Response) → IsSwallowed r → is_caught r ≡ true
  unfolding is_caught
  IsSwallowed-is_caught r w = ground arith

  is_caught-IsSwallowed :
      (r : Response) (body : Text) → r.content ≡ readable body → is_caught r ≡ true → IsSwallowed r
  unfolding is_caught
  is_caught-IsSwallowed r body c w = record {
    failed = ground arith;
    typed = ground arith;
    body = body;
    has_body = c;
    marked = ground arith;
  }

  normalize_kept :
      (now : ℕ) (r : Response) (body : Text) (last : Option Captured)
      → r.content ≡ readable body
      → is_caught r ≡ false
      → normalize json_parse new_stack now r last ≡ (responded r, last, [])
  unfolding normalize is_caught
  normalize_kept now r body last c n = ground arith

  pub normalize_reported :
      (now at : ℕ) (r : Response) (e : Thrown)
      → is_caught r ≡ true
      → is_error_like e ≡ true
      → now ≤ at + 5000
      → normalize json_parse new_stack now r (some (record { error = e; at = at })) ≡ (
        responded error_response,
        some (record { error = e; at = now }),
        described (describe_error (some e)) ∷ [],
      )
  unfolding normalize is_caught consume
  normalize_reported now at r e w l t = ground (arith, console_error-error now e none l)

  pub error_response-is_caught : is_caught error_response ≡ false
  unfolding is_caught error_response includes
  error_response-is_caught = refl

  pub normalize-is_caught :
      (now : ℕ) (r : Response) (last : Option Captured)
      → is_caught (elim (normalize json_parse new_stack now r last).0 [
        | responded r' ↦ r'
        | threw e ↦ error_response
      ])
        ≡ false
  unfolding normalize is_caught
  normalize-is_caught now r last = ground (arith, error_response-is_caught)

  fetch-is_caught :
      (now : ℕ) (imported : Imported) (h : Handled) (s : Server)
      → is_caught (fetch json_parse new_stack now imported h s).1 ≡ false
  unfolding fetch catch_error get_server_entry
  fetch-is_caught now imported h s = elim (Served-cases h.outcome) [
    | inl (r, o) ↦ ground (
      arith,
      error_response-is_caught,
      normalize-is_caught now r (console_error h.at h.reported s.last).0,
    )
    | inr (e, o) ↦ ground (arith, error_response-is_caught)
  ]

  -- Whatever the import and the handler do, no response that h3 made of a thrown error reaches the
  -- browser.
  pub fetch_not-IsSwallowed :
      (now : ℕ) (imported : Imported) (h : Handled) (s : Server)
      → ¬ IsSwallowed (fetch json_parse new_stack now imported h s).1
  fetch_not-IsSwallowed now imported h s w =
      let answer = (fetch json_parse new_stack now imported h s).1 in
      ground (arith, IsSwallowed-is_caught answer w, fetch-is_caught now imported h s)

  -- A response that is not of that kind, and whose text can be read, reaches the browser as it is,
  -- once the server's entry is there; `fetch` logs nothing, and keeps what was captured meanwhile.
  pub fetch_keeps :
      (now : ℕ) (imported : Imported) (h : Handled) (s : Server) (r : Response) (body : Text)
      → IsReady imported s
      → h.outcome ≡ responded r
      → r.content ≡ readable body
      → ¬ IsSwallowed r
      → fetch json_parse new_stack now imported h s
        ≡ (record { entry = some ready; last = (console_error h.at h.reported s.last).0 }, r, [])
  unfolding fetch get_server_entry
  fetch_keeps now imported h s r body i o c n = ground (
    arith,
    normalize_kept now r body (console_error h.at h.reported s.last).0 c,
    is_caught-IsSwallowed r body c,
  )

  -- Where the handler reports an error, the last of several, and answers by the response that h3
  -- makes of a thrown error within 5 seconds, the browser gets the page that says that rendering
  -- has failed, and the log has the description of that error.
  pub fetch_reports :
      (now : ℕ) (imported : Imported) (h : Handled) (s : Server) (r : Response) (e : Thrown)
      → IsReady imported s
      → h.outcome ≡ responded r
      → IsSwallowed r
      → last_error h.reported ≡ some e
      → now ≤ h.at + 5000
      → ((fetch json_parse new_stack now imported h s).1 ≡ error_response)
        × ((fetch json_parse new_stack now imported h s).2
            ≡ described (describe_error (some e)) ∷ [])
  unfolding fetch get_server_entry
  fetch_reports now imported h s r e i o w l t = ground (
    arith,
    normalize_reported now h.at r e,
    IsSwallowed-is_caught r w,
    last_error-is_error_like h.reported e l,
    console_error_lem h.at h.reported s.last,
  )

  -- A second response of that kind within 5 seconds of the first, for which the handler reports
  -- nothing itself, is logged by the error of the first one: logging an error captures it again.
  pub fetch-fetch :
      (now later : ℕ) (imported : Imported) (h g : Handled) (s : Server) (r q : Response)
      (e : Thrown)
      → IsReady imported s
      → h.outcome ≡ responded r
      → IsSwallowed r
      → last_error h.reported ≡ some e
      → now ≤ h.at + 5000
      → g.outcome ≡ responded q
      → IsSwallowed q
      → g.reported ≡ []
      → later ≤ now + 5000
      → (fetch json_parse new_stack later imported g
          (fetch json_parse new_stack now imported h s).0).2
        ≡ described (describe_error (some e)) ∷ []
  unfolding fetch get_server_entry
  fetch-fetch now later imported h g s r q e i o w l t p v n u =
      let kept = last_error-is_error_like h.reported e l in
      ground (
        arith,
        normalize_reported now h.at r e,
        normalize_reported later now q e,
        IsSwallowed-is_caught r w,
        IsSwallowed-is_caught q v,
        console_error_lem h.at h.reported s.last,
        console_error_lem g.at [] (some (record { error = e; at = now })),
      )

  -- Where rendering throws an error that has no `statusCode`, the middleware answers by the page that
  -- says that rendering has failed; that page reaches the browser as it is, and the description of
  -- the error is logged by the middleware, and not again by `fetch`.
  pub fetch-error_middleware :
      (now later : ℕ) (imported : Imported) (s : Server) (e : Raised)
      → IsReady imported s
      → e.status_code ≡ false
      → is_error_like e.value ≡ true
      → let (outcome, last, logged) = error_middleware now (threw e) s.last in
        let h : Handled = record { reported = e.value ∷ []; at = now; outcome = outcome } in
        let answer = fetch json_parse new_stack later imported h s in
        (logged ≡ described (describe_error (some e.value)) ∷ [])
        × (answer.1 ≡ error_response)
        × (answer.2 ≡ [])
  unfolding fetch error_middleware get_server_entry
  fetch-error_middleware now later imported s e i c l =
      let kept = console_error-error now e.value s.last l in
      let c' = error_response-is_caught in
      let n =
        normalize_kept later error_response render_error_page
          (some (record { error = e.value; at = now })) (error_response_readable) c' in
      ground (arith, kept, n)
