-- ===== src/Stores/Auth.antt =====
-- web/src/lib/auth.ts: the session store. `listeners` is represented by the number of times that
-- they were called. `Date.parse` and the clock are arguments.
pub mod Laws
pub mod Refinement
pub mod Tabs
use forgequeue.Common.{
  ℕ, ◌+◌, Bool, true, false, not, ◌&&◌, Option, none, some, List, map, Text, txt, is_empty, has,
  Number, num, num_lt, is_finite, if◌then◌else◌,
}
use forgequeue.Stores.{
  Permission, system_read, queues_read, queues_write, jobs_read, jobs_write, workers_read, dlq_read,
  dlq_write, delayed_read, delayed_write, metrics_read, SessionUser, Session, Item, absent, blank,
  malformed, foreign, stored, session_key, LocalStorage,
}

unfoldable pub permission_text : Permission → Text
permission_text system_read = txt "system:read"
permission_text queues_read = txt "queues:read"
permission_text queues_write = txt "queues:write"
permission_text jobs_read = txt "jobs:read"
permission_text jobs_write = txt "jobs:write"
permission_text workers_read = txt "workers:read"
permission_text dlq_read = txt "dlq:read"
permission_text dlq_write = txt "dlq:write"
permission_text delayed_read = txt "delayed:read"
permission_text delayed_write = txt "delayed:write"
permission_text metrics_read = txt "metrics:read"

-- `permissions.includes(p)`
unfoldable pub includes_permission : List Permission → Permission → Bool
unfolding permission_text has
includes_permission permissions p = has (map permission_text permissions) (permission_text p)

-- The module's variables, with the storage that they are kept in. `window` says whether the code
-- runs in a browser.
pub record AuthStore : Type 0 where
  pub window : Bool
  pub state : Option Session
  pub loaded : Bool
  pub calls : ℕ
  pub storage : LocalStorage

-- `session?.token ?? null`
abbrev pub token_of : Option Session → Option Text
token_of none = none
token_of (some s) = some s.token

module _ (date_parse : Text → Number) (now : ℕ) where
  -- `Number.isFinite(t) && t <= Date.now()`
  unfoldable pub is_expired : Session → Bool
  is_expired s = let t = date_parse s.expires_at in is_finite t && not (num_lt (num now) t)

  -- `parsed?.token && !isExpired(parsed)`
  unfoldable pub is_usable : Session → Bool
  is_usable s = not (is_empty s.token) && not (is_expired s)

  -- The body of the `try` of `load`: a throw leaves what was done before it.
  unfoldable pub read_session : Item Session → AuthStore → AuthStore
  read_session absent a = a
  read_session blank a = a
  read_session malformed a = a
  read_session foreign a = record a { storage = record a.storage { session = absent } }
  read_session (stored s) a =
      if is_usable s
      then record a { state = some s }
      else record a { storage = record a.storage { session = absent } }

  unfoldable pub load : AuthStore → AuthStore
  load a =
      if a.loaded
      then a
      else if not a.window
      then a
      else if a.storage.readable
      then read_session a.storage.session (record a { loaded = true })
      else record a { loaded = true }

  -- `removeItem` throws only where the storage cannot be reached.
  unfoldable pub persist : AuthStore → AuthStore
  persist a = elim a.state [
    | some s ↦
        if a.storage.readable && a.storage.accepts session_key
        then record a { storage = record a.storage { session = stored s } }
        else a
    | none ↦
        if a.storage.readable
        then record a { storage = record a.storage { session = absent } }
        else a
  ]

  unfoldable pub emit : AuthStore → AuthStore
  emit a = record a { calls = a.calls + 1 }

  unfoldable pub get_session : AuthStore → AuthStore × Option Session
  get_session a = let b = load a in (b, b.state)

  unfoldable pub get_token : AuthStore → AuthStore × Option Text
  get_token a = let (b, session) = get_session a in (b, token_of session)

  unfoldable pub set_session : Session → AuthStore → AuthStore
  set_session next a = emit (persist (record (load a) { state = some next }))

  unfoldable pub clear_session : AuthStore → AuthStore
  clear_session a = emit (persist (record (load a) { state = none }))

  unfoldable pub has_permission : Permission → AuthStore → AuthStore × Bool
  has_permission p a =
      let (b, session) = get_session a in
      (b, elim session [ none ↦ false | some s ↦ includes_permission s.user.permissions p ])

-- A new page over the same storage: the module's variables start anew.
unfoldable pub reload : AuthStore → AuthStore
reload a = record {
  window = a.window;
  state = none;
  loaded = false;
  calls = 0;
  storage = a.storage;
}

-- What `useSession` gives: the store in a browser, and no session in the server's render.
unfoldable pub use_session : Bool → AuthStore → Option Session
use_session server a = if server then none else a.state

unfoldable pub use_has_permission : Bool → Permission → AuthStore → Bool
use_has_permission server p a = elim (use_session server a) [
  | none ↦ false
  | some s ↦ includes_permission s.user.permissions p
]
