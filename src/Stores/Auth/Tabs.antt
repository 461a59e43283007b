-- ===== src/Stores/Auth/Tabs.antt =====
-- web/src/lib/auth.ts in several tabs of one browser: each tab has the variables of the module, and all of
-- them have one `localStorage`. No tab listens to what another one stores.
pub mod Laws
use forgequeue.Common.{
  ℕ, zero, suc, ◌≡◌, refl, Bool, true, false, Option, none, some, List, [], ◌∷◌, Text, Number,
  arith, if◌then◌else◌,
}
use forgequeue.Stores.{Session, Item, stored, session_key, LocalStorage}
use forgequeue.Stores.Auth.Laws.{load_keeps, load_done}
use forgequeue.Stores.Auth.{
  AuthStore, read_session, load, persist, emit, get_session, get_token, token_of, set_session,
  clear_session, has_permission, reload,
}
use forgequeue.Stores.Auth.Refinement.{
  Operation, look, ask_token, ask, sign_in, sign_out, new_page, Answer, session, token, permitted,
  done, still, allows, step, kept_in,
}

-- A tab by its specification: whether it has looked yet, and the session that it holds since.
pub record Tab : Type 0 where
  pub looked : Bool
  pub held : Option Session

-- The browser by its specification: the session that is kept, and the tabs.
pub record TabsSpec : Type 0 where
  pub kept : Option Session
  pub tabs : List Tab

-- The browser: the storage, and the variables of each tab; the storage of the tabs is the shared one.
pub record Browser : Type 0 where
  pub storage : LocalStorage
  pub tabs : List AuthStore

module _ (date_parse : Text → Number) where
  -- The first look of a tab takes over what is kept, and gives it up if it is not usable.
  unfoldable pub tab_look : ℕ → Option Session × Tab → Option Session × Tab
  tab_look now (k, t) =
      if t.looked
      then (k, t)
      else (let s = still date_parse now k in (s, record { looked = true; held = s }))

  unfoldable pub tab_step : ℕ × Operation → Option Session × Tab → (Option Session × Tab) × Answer
  unfolding tab_look allows
  tab_step (now, look) x = let y = tab_look now x in (y, session y.1.held)
  tab_step (now, ask_token) x = let y = tab_look now x in (y, token (token_of y.1.held))
  tab_step (now, ask p) x = let y = tab_look now x in (y, permitted (allows date_parse y.1.held p))
  tab_step (now, sign_in s) x = ((some s, record { looked = true; held = some s }), done)
  tab_step (now, sign_out) x = ((none, record { looked = true; held = none }), done)
  tab_step (now, new_page) (k, t) = ((k, record t { looked = false }), done)

  -- An operation in one of the tabs, counted from 0.
  unfoldable pub spec_on : ℕ → ℕ × Operation → Option Session → List Tab → TabsSpec × Option Answer
  unfolding tab_step
  spec_on i o k [] = (record { kept = k; tabs = [] }, none)
  spec_on zero o k (t ∷ tabs) =
      let ((k', t'), r) = tab_step o (k, t) in (record { kept = k'; tabs = t' ∷ tabs }, some r)
  spec_on (suc i) o k (t ∷ tabs) =
      let (s, r) = spec_on i o k tabs in (record s { tabs = t ∷ s.tabs }, r)

  unfoldable pub on_tab :
      ℕ → ℕ × Operation → LocalStorage → List AuthStore → Browser × Option Answer
  unfolding step
  on_tab i o l [] = (record { storage = l; tabs = [] }, none)
  on_tab zero o l (a ∷ tabs) =
      let (b, r) = step date_parse o (record a { storage = l }) in
      (record { storage = b.storage; tabs = b ∷ tabs }, some r)
  on_tab (suc i) o l (a ∷ tabs) =
      let (s, r) = on_tab i o l tabs in (record s { tabs = a ∷ s.tabs }, r)

  -- The answers of a sequence of operations, each in its tab and at its time.
  unfoldable pub tabs_spec_answers : List (ℕ × ℕ × Operation) → TabsSpec → List (Option Answer)
  unfolding spec_on
  tabs_spec_answers [] s = []
  tabs_spec_answers ((i, now, o) ∷ os) s =
      let (t, r) = spec_on i (now, o) s.kept s.tabs in r ∷ tabs_spec_answers os t

  unfoldable pub tabs_answers : List (ℕ × ℕ × Operation) → Browser → List (Option Answer)
  unfolding on_tab
  tabs_answers [] b = []
  tabs_answers ((i, now, o) ∷ os) b =
      let (c, r) = on_tab i (now, o) b.storage b.tabs in r ∷ tabs_answers os c
