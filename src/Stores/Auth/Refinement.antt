-- ===== src/Stores/Auth/Refinement.antt =====
-- web/src/lib/auth.ts as its clients see it: one session that is kept, and whether the page has looked at
-- it yet. Expiry counts at the first look of a page and not later.
use forgequeue.Common.{
  ℕ, ◌≡◌, refl, Bool, true, false, Option, none, some, List, [], ◌∷◌, Text, Number, arith,
  if◌then◌else◌,
}
use forgequeue.Stores.{Permission, Session, Item, stored, session_key}
use forgequeue.Stores.Auth.Laws.{load_keeps, load_done}
use forgequeue.Stores.Auth.{
  AuthStore, is_usable, read_session, load, persist, emit, get_session, get_token, token_of,
  set_session, clear_session, has_permission, includes_permission, reload,
}

-- What the other modules do with the store, and what they get to know.
pub data Operation : Type 0 where
  look ask_token : Operation
  ask : Permission → Operation
  sign_in : Session → Operation
  sign_out new_page : Operation

pub data Answer : Type 0 where
  session : Option Session → Answer
  token : Option Text → Answer
  permitted : Bool → Answer
  done : Answer

-- The specification.
pub record Spec : Type 0 where
  pub looked : Bool
  pub kept : Option Session

module _ (date_parse : Text → Number) where
  -- The session that a first look at the time `now` leaves.
  unfoldable pub still : ℕ → Option Session → Option Session
  still now none = none
  still now (some s) = if is_usable date_parse now s then some s else none

  unfoldable pub seen : ℕ → Spec → Spec
  seen now s = if s.looked then s else record { looked = true; kept = still now s.kept }

  unfoldable pub allows : Option Session → Permission → Bool
  allows none p = false
  allows (some s) p = includes_permission s.user.permissions p

  unfoldable pub spec_step : ℕ × Operation → Spec → Spec × Answer
  unfolding seen allows
  spec_step (now, look) s = (seen now s, session (seen now s).kept)
  spec_step (now, ask_token) s = (seen now s, token (token_of (seen now s).kept))
  spec_step (now, ask p) s = (seen now s, permitted (allows (seen now s).kept p))
  spec_step (now, sign_in t) s = (record { looked = true; kept = some t }, done)
  spec_step (now, sign_out) s = (record { looked = true; kept = none }, done)
  spec_step (now, new_page) s = (record s { looked = false }, done)

  unfoldable pub step : ℕ × Operation → AuthStore → AuthStore × Answer
  step (now, look) a = let (b, s) = get_session date_parse now a in (b, session s)
  step (now, ask_token) a = let (b, t) = get_token date_parse now a in (b, token t)
  step (now, ask p) a = let (b, r) = has_permission date_parse now p a in (b, permitted r)
  step (now, sign_in t) a = (set_session date_parse now t a, done)
  step (now, sign_out) a = (clear_session date_parse now a, done)
  step (now, new_page) a = (reload a, done)

  -- The answers of a sequence of operations, each at its time.
  unfoldable pub spec_answers : List (ℕ × Operation) → Spec → List Answer
  unfolding spec_step
  spec_answers [] s = []
  spec_answers (o ∷ os) s = let (t, r) = spec_step o s in r ∷ spec_answers os t

  unfoldable pub answers : List (ℕ × Operation) → AuthStore → List Answer
  unfolding step
  answers [] a = []
  answers (o ∷ os) a = let (b, r) = step o a in r ∷ answers os b

  abbrev pub kept_in : Item Session → Option Session
  kept_in (stored s) = some s
  kept_in _ = none

  -- The store stands for the specification, in a browser that keeps what is stored.
  pub record Implements (a : AuthStore) (s : Spec) : Type 0 where
    pub browser : a.window ≡ true
    pub readable : a.storage.readable ≡ true
    pub accepts : a.storage.accepts session_key ≡ true
    pub loaded : a.loaded ≡ s.looked
    pub stored_as : kept_in a.storage.session ≡ s.kept
    pub shown : a.state ≡ (if s.looked then s.kept else none)

  read_session-Implements :
      (now : ℕ) (i : Item Session) (a : AuthStore) (s : Spec)
      → Implements a s
      → a.storage.session ≡ i
      → s.looked ≡ false
      → Implements (read_session date_parse now i (record a { loaded = true })) (seen now s)
  unfolding read_session seen still
  read_session-Implements now (stored t) a s h e l = ground arith
  read_session-Implements now _ a s h e l = ground arith

  load-Implements :
      (now : ℕ) (a : AuthStore) (s : Spec)
      → Implements a s
      → Implements (load date_parse now a) (seen now s)
  unfolding load seen
  load-Implements now a s h =
      ground (arith, read_session-Implements now a.storage.session a s h refl)

  -- One operation: the answers agree, and the store still stands for the specification.
  pub step-Implements :
      (o : ℕ × Operation) (a : AuthStore) (s : Spec)
      → Implements a s
      → ((step o a).1 ≡ (spec_step o s).1) × Implements (step o a).0 (spec_step o s).0
  unfolding step spec_step get_session get_token has_permission allows reload seen set_session
      clear_session persist emit
  step-Implements (now, look) a s h = ground (arith, load-Implements now a s h)
  step-Implements (now, ask_token) a s h = ground (arith, load-Implements now a s h)
  step-Implements (now, ask p) a s h = ground (arith, load-Implements now a s h)
  step-Implements (now, sign_in t) a s h =
      ground (arith, load_keeps date_parse now a, load_done date_parse now a)
  step-Implements (now, sign_out) a s h =
      ground (arith, load_keeps date_parse now a, load_done date_parse now a)
  step-Implements (now, new_page) a s h = ground arith

  -- In a browser that keeps what is stored, whatever sequence of reads, sign-ins, sign-outs and new
  -- pages the clients make, at whatever times, they get the answers of the specification: one kept
  -- session, which is given up at the first look of a page if it is not usable then, and only then.
  pub answers_refine :
      (os : List (ℕ × Operation)) (a : AuthStore) (s : Spec)
      → Implements a s
      → answers os a ≡ spec_answers os s
  unfolding answers spec_answers
  answers_refine [] a s h = refl
  answers_refine (o ∷ os) a s h =
      let (e, k) = step-Implements o a s h in
      ground (arith, e, answers_refine os (step o a).0 (spec_step o s).0 k)
