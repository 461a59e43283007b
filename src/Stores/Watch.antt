-- ===== src/Stores/Watch.antt =====
-- web/src/lib/auth.ts, web/src/lib/prefs.ts and web/src/api/client.ts: the components that watch a store.
-- Each of the three modules has a set of listeners, an operation that adds to it, and changes that call
-- every listener; `Observable` is what they share. React's `useSyncExternalStore` reads the store when a
-- component is mounted, subscribes a listener, and reads again when the listener is called.
pub mod Laws
pub mod Instances
use forgequeue.Common.{
  ◌≡◌, Bool, true, not, List, [], ◌∷◌, ◌++◌, map, Text, text_eq, TextSet, add, delete, filter_by,
  if◌then◌else◌,
}

-- A store, read and changed in an environment such as the time. Once it is settled, reading it changes
-- nothing.
pub record Observable {α σ γ ν} (Env : Type α) (Store : Type σ) (Change : Type γ) (Value : Type ν)
    : Type (α ⊔ σ ⊔ γ ⊔ ν) where
  pub read : Env → Store → Store × Value
  pub change : Env → Change → Store → Store
  pub value : Store → Value
  pub is_settled : Store → Bool
  pub read-value : (e : Env) (s : Store) → (read e s).1 ≡ value (read e s).0
  pub read-settles : (e : Env) (s : Store) → is_settled (read e s).0 ≡ true
  pub read_settled : (e : Env) (s : Store) → is_settled s ≡ true → (read e s).0 ≡ s
  pub change-settles : (e : Env) (c : Change) (s : Store) → is_settled (change e c s) ≡ true

-- The page: a store with its listeners, and what each component shows. A component is named by a text, as
-- is its listener.
pub record Watched {σ ν} (Store : Type σ) (Value : Type ν) : Type (σ ⊔ ν) where
  pub store : Store
  pub listeners : TextSet
  pub shown : List (Text × Value)

pub data WatchStep {γ} (Change : Type γ) : Type γ where
  mount unmount : Text → WatchStep Change
  set : Change → WatchStep Change

module _ {σ ν} {Store : Type σ} {Value : Type ν} where
  -- `subscribe`, and the function that it returns
  unfoldable pub subscribe : Text → Watched Store Value → Watched Store Value
  subscribe id p = record p { listeners = add p.listeners id }

  unfoldable pub unsubscribe : Text → Watched Store Value → Watched Store Value
  unsubscribe id p = record p { listeners = delete p.listeners id }

  -- A page without components.
  abbrev pub unwatched : Store → Watched Store Value
  unwatched s = record { store = s; listeners = []; shown = [] }

-- What the component shows from now on.
abbrev pub show {ν} : {Value : Type ν} → Text → Value → List (Text × Value) → List (Text × Value)
show id v shown = map (λ x. if text_eq id x.0 then (x.0, v) else x) shown

module _ {α σ γ ν} {Env : Type α} {Store : Type σ} {Change : Type γ} {Value : Type ν}
    (o : Observable Env Store Change Value) where
  -- A listener: the component reads the store, and shows what it has read.
  unfoldable pub notify : Env → Text → Watched Store Value → Watched Store Value
  notify e id p = let (s, v) = o.read e p.store in record p { store = s; shown = show id v p.shown }

  -- `listeners.forEach((l) => l())`
  unfoldable pub emit_to : Env → TextSet → Watched Store Value → Watched Store Value
  emit_to e [] p = p
  emit_to e (l ∷ ls) p = emit_to e ls (notify e l p)

  unfoldable pub watch_step : Env → WatchStep Change → Watched Store Value → Watched Store Value
  unfolding subscribe unsubscribe emit_to
  watch_step e (mount id) p =
      let (s, v) = o.read e p.store in
      subscribe id (record p { store = s; shown = p.shown ++ (id, v) ∷ [] })
  watch_step e (unmount id) p =
      unsubscribe id (record p { shown = filter_by (λ x. not (text_eq id x.0)) p.shown })
  watch_step e (set c) p = emit_to e p.listeners (record p { store = o.change e c p.store })

  -- Each step in its environment.
  unfoldable pub watch_run :
      List (Env × WatchStep Change) → Watched Store Value → Watched Store Value
  unfolding watch_step
  watch_run [] p = p
  watch_run ((e, s) ∷ steps) p = watch_run steps (watch_step e s p)
