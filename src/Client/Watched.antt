-- ===== src/Client/Watched.antt =====
-- client.ts with auth.ts and prefs.ts: what the components show that watch the connection, the session or
-- the preferences.
use forgequeue.Common.{ℕ, refl, true, Option, Text, Number}
use forgequeue.Stores.Watch.{Observable}
use forgequeue.Client.{ConnState, World, Reply, finish}

module _ (date_parse : Text → Number) (env_base : Option Text) where
  -- `useConnection`: every reply ends in one call of `setConn`, which calls the subscribers.
  unfoldable pub settle_reply : ℕ → Reply → World → World
  settle_reply now r w = (finish date_parse env_base now r w).0

  abbrev pub watched_connection : Observable ℕ World Reply ConnState
  watched_connection = record {
    read = λ now w. (w, w.conn);
    change = settle_reply;
    value = λ w. w.conn;
    is_settled = λ w. true;
    read-value = λ now w. refl;
    read-settles = λ now w. refl;
    read_settled = λ now w h. refl;
    change-settles = λ now r w. refl;
  }
