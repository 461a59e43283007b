-- ===== src/Client/Requests.antt =====
-- client.ts: what a request carries, and where it goes.
use forgequeue.Common.{
  ℕ, ◌≡◌, ◌∙◌, refl, ap, ◌⊎◌, inl, inr, Bool, false, Option, none, some, List, [], ◌∷◌, ◌++◌, Text,
  txt, is_empty, text_eq, arith, if◌then◌else◌, ◌==◌, Number, Bool-cases,
}
use forgequeue.Types.{Json}
use forgequeue.Stores.{Session}
use forgequeue.Stores.Auth
use forgequeue.Stores.Auth.{AuthStore, get_session, get_token, token_of, clear_session}
use forgequeue.Stores.Preferences.{get_prefs}
use forgequeue.Client.{World, Header, strip_slash, get_api_base, headers, header_list, start}

-- The value of the first header of a name.
abbrev pub find_header : Text → List Header → Option Text
find_header name [] = none
find_header name (h ∷ hs) = if text_eq h.name name then some h.value else find_header name hs

-- What authorises a request at a session: its token, if that is not empty.
abbrev pub bearer : Option Session → Option Text
bearer none = none
bearer (some s) = if is_empty s.token then none else some (txt "Bearer " ++ s.token)

module _ (date_parse : Text → Number) (env_base : Option Text) where
  header_list-Authorization :
      (session : Option Session)
      → find_header (txt "Authorization") (header_list (token_of session)) ≡ bearer session
  unfolding header_list text_eq
  header_list-Authorization none = refl
  header_list-Authorization (some s) = elim (Bool-cases (is_empty s.token)) [
    | inl f ↦ rw f refl
    | inr f ↦ rw f refl
  ]

  -- A request carries the token of the session that the store gives at that time, and carries
  -- none if there is no session or its token is empty.
  pub start-Authorization :
      (now : ℕ) (method path : Text) (body : Option Json) (w : World)
      → find_header
          (txt "Authorization")
          (start date_parse env_base now method path body w).1.headers
        ≡ bearer (get_session date_parse now w.auth).1
  unfolding start headers get_token
  start-Authorization now method path body w =
      header_list-Authorization (get_session date_parse now w.auth).1

-- The base URL may be written with a slash at its end or without one.
abbrev pub ends_in_slash : Text → Bool
ends_in_slash [] = false
ends_in_slash (c ∷ []) = c == b'/'
ends_in_slash (c ∷ d ∷ s) = ends_in_slash (d ∷ s)

strip_slash-append : (s : Text) → strip_slash (s ++ b'/' ∷ []) ≡ s
unfolding strip_slash
strip_slash-append [] = refl
strip_slash-append (c ∷ []) = refl
strip_slash-append (c ∷ d ∷ s) = ap (◌∷◌ c) (strip_slash-append (d ∷ s))

strip_slash_self : (s : Text) → ends_in_slash s ≡ false → strip_slash s ≡ s
unfolding strip_slash
strip_slash_self [] h = refl
strip_slash_self (c ∷ []) h = ground arith
strip_slash_self (c ∷ d ∷ s) h = ap (◌∷◌ c) (strip_slash_self (d ∷ s) h)

-- A base URL that does not end in a slash and the same one with a slash added lead to the same
-- URL: the base, then the path.
pub start-url :
    (date_parse : Text → Number) (env_base : Option Text) (now : ℕ) (method path : Text)
    (body : Option Json) (w : World) (base : Text)
    → ends_in_slash base ≡ false
    → ((get_prefs env_base w.prefs).1.api_base ≡ base)
      ⊎ ((get_prefs env_base w.prefs).1.api_base ≡ base ++ b'/' ∷ [])
    → (start date_parse env_base now method path body w).1.url ≡ base ++ path
unfolding start get_api_base
start-url date_parse env_base now method path body w base h (inl e) =
    ap (λ b. b ++ path) (ap strip_slash e ∙ strip_slash_self base h)
start-url date_parse env_base now method path body w base h (inr e) =
    ap (λ b. b ++ path) (ap strip_slash e ∙ strip_slash-append base)
