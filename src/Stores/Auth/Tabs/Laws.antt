-- ===== src/Stores/Auth/Tabs/Laws.antt =====
-- auth.ts in several tabs: the tabs implement their specification, and what it says of a sign-out.
use forgequeue.Common.{
  ℕ, zero, suc, ◌≡◌, refl, true, false, Option, none, List, [], ◌∷◌, Text, Number, arith,
  if◌then◌else◌,
}
use forgequeue.Stores.{Session, Item, stored, session_key, LocalStorage}
use forgequeue.Stores.Auth.Laws.{load_keeps, load_done}
use forgequeue.Stores.Auth.{
  AuthStore, read_session, load, persist, emit, get_session, get_token, set_session, clear_session,
  has_permission, reload,
}
use forgequeue.Stores.Auth.Refinement.{
  Operation, look, ask_token, ask, sign_in, sign_out, new_page, session, still, allows, step,
  kept_in,
}
use forgequeue.Stores.Auth.Tabs.{
  Tab, TabsSpec, Browser, tab_look, tab_step, spec_on, on_tab, tabs_spec_answers, tabs_answers,
}

module _ (date_parse : Text → Number) where
  -- The storage has what is kept, and accepts what is to be stored.
  pub record Holds (l : LocalStorage) (k : Option Session) : Type 0 where
    pub readable : l.readable ≡ true
    pub accepts : l.accepts session_key ≡ true
    pub stored_as : kept_in date_parse l.session ≡ k

  -- The variables of a tab stand for the tab.
  pub record Stands (a : AuthStore) (t : Tab) : Type 0 where
    pub browser : a.window ≡ true
    pub loaded : a.loaded ≡ t.looked
    pub shown : a.state ≡ (if t.looked then t.held else none)

  read_session-Stands :
      (now : ℕ) (i : Item Session) (a : AuthStore) (k : Option Session) (t : Tab)
      → Holds a.storage k
      → Stands a t
      → a.storage.session ≡ i
      → t.looked ≡ false
      → let b = read_session date_parse now i (record a { loaded = true }) in
        let (k', t') = tab_look date_parse now (k, t) in Holds b.storage k' × Stands b t'
  unfolding read_session tab_look still
  read_session-Stands now (stored s) a k t h g e l = ground arith
  read_session-Stands now _ a k t h g e l = ground arith

  load-Stands :
      (now : ℕ) (a : AuthStore) (k : Option Session) (t : Tab)
      → Holds a.storage k
      → Stands a t
      → let b = load date_parse now a in
        let (k', t') = tab_look date_parse now (k, t) in Holds b.storage k' × Stands b t'
  unfolding load tab_look
  load-Stands now a k t h g =
      ground (arith, read_session-Stands now a.storage.session a k t h g refl)

  step-Stands :
      (o : ℕ × Operation) (a : AuthStore) (k : Option Session) (t : Tab)
      → Holds a.storage k
      → Stands a t
      → let (b, r) = step date_parse o a in
        let ((k', t'), r') = tab_step date_parse o (k, t) in
        (r ≡ r') × Holds b.storage k' × Stands b t'
  unfolding step tab_step get_session get_token has_permission allows tab_look reload set_session
      clear_session persist emit
  step-Stands (now, look) a k t h g = ground (arith, load-Stands now a k t h g)
  step-Stands (now, ask_token) a k t h g = ground (arith, load-Stands now a k t h g)
  step-Stands (now, ask p) a k t h g = ground (arith, load-Stands now a k t h g)
  step-Stands (now, sign_in s) a k t h g =
      ground (arith, load_keeps date_parse now a, load_done date_parse now a)
  step-Stands (now, sign_out) a k t h g =
      ground (arith, load_keeps date_parse now a, load_done date_parse now a)
  step-Stands (now, new_page) a k t h g = ground arith

  abbrev pub AllStand : List AuthStore → List Tab → Type 0
  AllStand [] [] = Unit
  AllStand [] (t ∷ tabs) = ⊥
  AllStand (a ∷ stores) [] = ⊥
  AllStand (a ∷ stores) (t ∷ tabs) = Stands a t × AllStand stores tabs

  -- The browser stands for its specification.
  pub record Implements (b : Browser) (s : TabsSpec) : Type 0 where
    pub keeps : Holds b.storage s.kept
    pub stand : AllStand b.tabs s.tabs

  on_tab-Implements :
      (i : ℕ) (o : ℕ × Operation) (l : LocalStorage) (stores : List AuthStore) (k : Option Session)
      (tabs : List Tab)
      → Holds l k
      → AllStand stores tabs
      → let (b, r) = on_tab date_parse i o l stores in
        let (s, r') = spec_on date_parse i o k tabs in (r ≡ r') × Implements b s
  unfolding on_tab spec_on
  on_tab-Implements i o l [] k [] h g = (refl, record { keeps = h; stand = tt })
  on_tab-Implements i o l [] k (t ∷ tabs) h g = elim g [ ]
  on_tab-Implements zero o l (a ∷ stores) k [] h g = elim g [ ]
  on_tab-Implements (suc i) o l (a ∷ stores) k [] h g = elim g [ ]
  on_tab-Implements zero o l (a ∷ stores) k (t ∷ tabs) h g =
      let (e, h', g') =
        step-Stands o (record a { storage = l }) k t h
          (record { browser = g.0.browser; loaded = g.0.loaded; shown = g.0.shown }) in
      (rw e refl, record { keeps = h'; stand = (g', g.1) })
  on_tab-Implements (suc i) o l (a ∷ stores) k (t ∷ tabs) h g =
      let (e, both) = on_tab-Implements i o l stores k tabs h g.1 in
      (e, record { keeps = both.keeps; stand = (g.0, both.stand) })

  -- In a browser that keeps what is stored, with any number of tabs, whatever sequence of reads, sign-ins,
  -- sign-outs and new pages there is in them, in any order and at any times, each gets the answer of the
  -- specification: a tab takes over what is kept when it looks first, and afterwards only what it does
  -- itself changes the session that it has, while each sign-in and sign-out changes what is kept.
  pub tabs_refine :
      (os : List (ℕ × ℕ × Operation)) (b : Browser) (s : TabsSpec)
      → Implements b s
      → tabs_answers date_parse os b ≡ tabs_spec_answers date_parse os s
  unfolding tabs_answers tabs_spec_answers
  tabs_refine [] b s h = refl
  tabs_refine ((i, now, o) ∷ os) b s h =
      let (e, h') = on_tab-Implements i (now, o) b.storage b.tabs s.kept s.tabs h.keeps h.stand in
      let rest =
        tabs_refine os (on_tab date_parse i (now, o) b.storage b.tabs).0
          (spec_on date_parse i (now, o) s.kept s.tabs).0 h' in
      ground (arith, e, rest)
