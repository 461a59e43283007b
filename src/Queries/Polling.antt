-- ===== src/Queries/Polling.antt =====
-- queries.ts: what a query asks of the query library: its entry of the cache, and how often it is sent.
use forgequeue.Common.{ℕ, ◌≡◌, ◌≢◌, ap, ◌∙◌, sym, Bool, false, Option, none, some, List, Text}
use forgequeue.Endpoints.{Call}
use forgequeue.Stores.{PrefsPatch}
use forgequeue.Stores.Preferences.{
  PrefsStore, get_prefs, set_prefs, merge, use_prefs, refresh_ms, or_else,
}
use forgequeue.Stores.Preferences.Laws.{get_prefs-set_prefs}
use forgequeue.Queries.{Query, cache_key, call_of}
use forgequeue.Queries.Keys.{cache_key_iff}

pub record Poll : Type 0 where
  pub interval : Option ℕ
  pub scope : Text

-- The options of `useQuery`, times in milliseconds; `placeholderData` is the library's function.
pub record QueryOptions : Type 0 where
  pub query_key : List Text
  pub query_fn : Call
  pub refetch_interval : Option ℕ
  pub stale_time : ℕ
  pub gc_time : ℕ
  pub retry : ℕ

module _ (env_base : Option Text) where
  -- On the server's render and in a browser, as `usePrefs` has it.
  unfoldable pub use_poll : Bool → PrefsStore → PrefsStore × Poll
  use_poll server s =
      let (t, p) = use_prefs env_base server s in
      (t, record { interval = refresh_ms p.auto_refresh; scope = p.api_base })

  unfoldable pub use_q : Bool → PrefsStore → Query → PrefsStore × QueryOptions
  unfolding use_poll
  use_q server s q =
      let (t, p) = use_poll server s in
      (
        t,
        record {
          query_key = cache_key q p.scope;
          query_fn = call_of q;
          refetch_interval = p.interval;
          stale_time = 2000;
          gc_time = 60000;
          retry = 1;
        },
      )

  poll-set_prefs :
      (s : PrefsStore) (patch : PrefsPatch)
      → (use_poll false (set_prefs env_base patch s)).1 ≡ (
          let p = merge (get_prefs env_base s).1 patch in
          record { interval = refresh_ms p.auto_refresh; scope = p.api_base })
  unfolding use_poll use_prefs
  poll-set_prefs s patch =
      ap (λ p. record { interval = refresh_ms p.auto_refresh; scope = p.api_base })
        (get_prefs-set_prefs env_base patch s)

  -- A change of the API base to another one, which sets no interval, leaves no query with the entry of
  -- the cache that it, or any other one, had before; each is sent as often as before.
  pub use_q-set_prefs :
      (p q : Query) (s : PrefsStore) (patch : PrefsPatch) (base : Text)
      → patch.api_base ≡ some base
      → patch.auto_refresh ≡ none
      → base ≢ (get_prefs env_base s).1.api_base
      → ((use_q false (set_prefs env_base patch s) p).1.query_key ≢ (use_q false s q).1.query_key)
        × ((use_q false (set_prefs env_base patch s) p).1.refetch_interval
            ≡ (use_q false s p).1.refetch_interval)
  unfolding use_q use_poll use_prefs merge
  use_q-set_prefs p q s patch base e f ne =
      let after = poll-set_prefs s patch in
      let scope =
        ap (λ p. p.scope) after ∙ ap (λ o. or_else o (get_prefs env_base s).1.api_base) e in
      (
        λ same. ne (sym scope ∙ ((cache_key_iff p q _ _).0 same).1),
        ap (λ p. p.interval) after
            ∙ ap (λ o. refresh_ms (or_else o (get_prefs env_base s).1.auto_refresh)) f,
      )
