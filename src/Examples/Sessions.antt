-- ===== src/Examples/Sessions.antt =====
-- web/src/lib/auth.ts in two tabs, against the specification, and the components that watch the stores.
use forgequeue.Common.{ℕ, ◌≡◌, refl, true, false, Option, none, some, List, [], ◌∷◌, txt}
use forgequeue.Stores.{Session, PrefsPatch, jobs_write}
use forgequeue.Stores.Auth.Refinement.{
  Operation, look, ask_token, ask, sign_in, sign_out, new_page, token,
}
use forgequeue.Stores.Auth.Tabs.{Tab, TabsSpec, Browser, tabs_answers, tabs_spec_answers}
use forgequeue.Stores.Auth.Tabs.Laws.{Holds, Stands, Implements, tabs_refine}
use forgequeue.Stores.Watch.{WatchStep, mount, unmount, set}
use forgequeue.Client.{Reply, answered, no_text}
use forgequeue.Examples.Stores.{date_parse, alice, storage, page, darker}

-- Alice signs in in the first tab; both are loaded again before and after the session has expired.
abbrev visits : List (ℕ × ℕ × Operation)
visits =
    (0, 1, look)
    ∷ (0, 2, sign_in alice)
    ∷ (1, 3, ask_token)
    ∷ (1, 4, sign_out)
    ∷ (0, 5, ask_token)
    ∷ (0, 900, ask jobs_write)
    ∷ (0, 1500, sign_in alice)
    ∷ (1, 1600, new_page)
    ∷ (1, 1700, look)
    ∷ (2, 1800, look)
    ∷ []

abbrev two_tabs : Browser
two_tabs = record { storage = storage; tabs = page ∷ page ∷ [] }

abbrev unopened : Tab
unopened = record { looked = false; held = none }

abbrev nobody : TabsSpec
nobody = record { kept = none; tabs = unopened ∷ unopened ∷ [] }

page-Stands : Stands date_parse page unopened
page-Stands = record { browser = refl; loaded = refl; shown = refl }

storage-Holds : Holds date_parse storage none
storage-Holds = record { readable = refl; accepts = refl; stored_as = refl }

two_tabs-Implements : Implements date_parse two_tabs nobody
two_tabs-Implements = record { keeps = storage-Holds; stand = (page-Stands, (page-Stands, tt)) }

tabs_refine_example :
    tabs_answers date_parse visits two_tabs ≡ tabs_spec_answers date_parse visits nobody
tabs_refine_example = tabs_refine date_parse visits two_tabs nobody two_tabs-Implements

abbrev alice_tab : Tab
alice_tab = record { looked = true; held = some alice }

abbrev alice_again : Session
alice_again = record alice { token = txt "t2" }

abbrev sessions : List (ℕ × WatchStep (Option Session))
sessions =
    (1, mount (txt "root"))
    ∷ (2, set (some alice))
    ∷ (3, mount (txt "footer"))
    ∷ (4, set none)
    ∷ (5, unmount (txt "footer"))
    ∷ []

abbrev changes : List (Unit {0} × WatchStep PrefsPatch)
changes = (tt, mount (txt "bar")) ∷ (tt, set darker) ∷ []

abbrev replies : List (ℕ × WatchStep Reply)
replies = (1, mount (txt "dot")) ∷ (2, set (answered 200 (txt "OK") no_text)) ∷ []
