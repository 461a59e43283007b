-- ===== src/Console/Bulk/Settled.antt =====
-- web/src/api: what the replies of a bulk action leave: the toast, the cache and the session.
use mathlib.Core.Path.{ap₂}
use forgequeue.Common.{
  ℕ, ◌+◌, ◌==◌, ◌≡◌, ◌∙◌, refl, arith, Bool, true, false, ◌&&◌, Option, none, some, List, [], ◌∷◌,
  ◌++◌, any, length, Text, Number, Bool-cases, inl, inr, if◌then◌else◌,
}
use forgequeue.Stores.{Session}
use forgequeue.Stores.Auth.{AuthStore, get_session, clear_session}
use forgequeue.Stores.Auth.Laws.{get_session_signed_out}
use forgequeue.Client.{
  World, no_text, broken, json, Reply, failed, answered, Outcome, returned, api_error, other_error,
  error_message, is_ok, finish, finish_parsed,
}
use forgequeue.Client.Laws.{finish-window, is_readable}
use forgequeue.Queries.{Effects, success, failure, use_action, all_settled, use_bulk, bulk_label}
use forgequeue.Console.Bulk.{BulkAction, bulk_verb, BulkPage, receive_all, click_bulk, settle_bulk}
use forgequeue.Console.Bulk.Sent.{Encodes, click_bulk-sent, click_bulk-window}

-- What a reply makes its call fail with: the message of the network's error or of the parser, or that of
-- the API where the status is not from 200 to 299.
abbrev pub failure_of : Reply → Option Text
failure_of (failed m) = some m
failure_of (answered status st (broken m)) = some m
failure_of (answered status st no_text) =
    if is_ok status then none else some (error_message none st)
failure_of (answered status st (json v)) =
    if is_ok status then none else some (error_message (some v) st)

-- The first of the replies that fails.
abbrev pub first_failure : List (ℕ × Reply) → Option Text
first_failure [] = none
first_failure ((now, r) ∷ replies) = elim (failure_of r) [
  | some m ↦ some m
  | none ↦ first_failure replies
]

-- A reply that ends the session.
abbrev pub rejects : Reply → Bool
rejects (failed m) = false
rejects (answered status st b) = is_readable b && status == 401

-- One success and an invalidation, or one failure.
abbrev pub told : Text → Option Text → Effects → Effects
told label none e = record {
  toasts = e.toasts ++ success label ∷ [];
  invalidations = e.invalidations + 1;
}
told label (some m) e = record e { toasts = e.toasts ++ failure m ∷ [] }

abbrev message_of : Outcome → Option Text
message_of (returned v) = none
message_of (api_error m k v) = some m
message_of (other_error m) = some m

use_action-told :
    (label : Text) (o : Outcome) (e : Effects) → use_action label o e ≡ told label (message_of o) e
unfolding use_action
use_action-told label (returned v) e = refl
use_action-told label (api_error m k v) e = refl
use_action-told label (other_error m) e = refl

-- Once an outcome has failed, the ones behind it do not matter.
all_settled-∷ :
    (o : Outcome) (os : List Outcome)
    → message_of (all_settled (o ∷ os))
      ≡ elim (message_of o) [ some m ↦ some m | none ↦ message_of (all_settled os) ]
unfolding all_settled
all_settled-∷ (returned v) os = refl
all_settled-∷ (api_error m k v) os = refl
all_settled-∷ (other_error m) os = refl

module _ (date_parse : Text → Number) (env_base : Option Text) where
  finish-failure_of :
      (now : ℕ) (r : Reply) (w : World)
      → message_of (finish date_parse env_base now r w).1 ≡ failure_of r
  unfolding finish finish_parsed
  finish-failure_of now (failed m) w = refl
  finish-failure_of now (answered s st no_text) w = ground arith
  finish-failure_of now (answered s st (broken m)) w = refl
  finish-failure_of now (answered s st (json v)) w = ground arith

  receive_all-first_failure :
      (replies : List (ℕ × Reply)) (w : World)
      → message_of (all_settled (receive_all date_parse env_base replies w).1)
        ≡ first_failure replies
  unfolding receive_all
  receive_all-first_failure [] w = unfold all_settled in refl
  receive_all-first_failure ((now, r) ∷ replies) w =
      let v = (finish date_parse env_base now r w).0 in
      ground (
        arith,
        all_settled-∷ (finish date_parse env_base now r w).1
            (receive_all date_parse env_base replies v).1,
        finish-failure_of now r w,
        receive_all-first_failure replies v,
      )

  finish-rejects :
      (now : ℕ) (r : Reply) (w : World)
      → (finish date_parse env_base now r w).0.auth
        ≡ (if rejects r then clear_session date_parse now w.auth else w.auth)
  unfolding finish finish_parsed is_ok
  finish-rejects now (failed m) w = refl
  finish-rejects now (answered s st no_text) w = ground arith
  finish-rejects now (answered s st (broken m)) w = refl
  finish-rejects now (answered s st (json v)) w = ground arith

  -- The page has no session, whenever it is asked.
  abbrev SignedOut : AuthStore → Type 0
  SignedOut a = (later : ℕ) → (get_session date_parse later a).1 ≡ none

  receive_all-window :
      (replies : List (ℕ × Reply)) (w : World)
      → (receive_all date_parse env_base replies w).0.auth.window ≡ w.auth.window
  unfolding receive_all
  receive_all-window [] w = refl
  receive_all-window ((now, r) ∷ replies) w =
      receive_all-window replies (finish date_parse env_base now r w).0
      ∙ finish-window date_parse env_base now r w

  -- The session after replies, in a browser that had `x` before them.
  abbrev session_at : ℕ → World → Option Session
  session_at later w = (get_session date_parse later w.auth).1

  finish-session :
      (now later : ℕ) (r : Reply) (w : World)
      → w.auth.window ≡ true
      → session_at later (finish date_parse env_base now r w).0
        ≡ (if rejects r then none else session_at later w)
  finish-session now later r w win = elim (Bool-cases (rejects r)) [
    | inl e ↦
        ground
          (arith, e, finish-rejects now r w, get_session_signed_out date_parse now later w.auth win)
    | inr e ↦ ground (arith, e, finish-rejects now r w)
  ]

  receive_all-session :
      (later : ℕ) (replies : List (ℕ × Reply)) (w : World)
      → w.auth.window ≡ true
      → session_at later (receive_all date_parse env_base replies w).0
        ≡ (if any (λ x. rejects x.1) replies then none else session_at later w)
  unfolding receive_all
  receive_all-session later [] w win = refl
  receive_all-session later ((now, r) ∷ replies) w win =
      let v = (finish date_parse env_base now r w).0 in
      ground (
        arith,
        receive_all-session later replies v (finish-window date_parse env_base now r w ∙ win),
        finish-session now later r w win,
      )

  -- From the click to the toast, in a browser and where each selected identifier has its encoding. If
  -- every reply has a status from 200 to 299 and a body that is empty or parses, the page shows one
  -- success with the number of jobs, and the cache is invalidated once; otherwise it shows the message of
  -- the first reply that has not, in the order in which they came, alone, and nothing is invalidated, also
  -- if other jobs were changed. The session is gone if a reply has status 401 and a body that is empty or
  -- parses, and is what it was otherwise. Nothing is selected any more.
  pub settle_bulk-click_bulk :
      (uri_error : Text) (now later : ℕ) (action : BulkAction) (p : BulkPage) (es : List Text)
      (replies : List (ℕ × Reply))
      → p.world.auth.window ≡ true
      → Encodes p.sel es
      → let clicked = (click_bulk date_parse env_base uri_error now action p).0 in
        let q = settle_bulk date_parse env_base action p.sel replies clicked in
        (q.effects
          ≡ told (bulk_label (bulk_verb action) (length p.sel)) (first_failure replies) p.effects)
        × ((get_session date_parse later q.world.auth).1 ≡ (
            if any (λ x. rejects x.1) replies
            then none
            else (get_session date_parse later clicked.world.auth).1))
        × (q.sel ≡ [])
  unfolding settle_bulk use_bulk
  settle_bulk-click_bulk uri_error now later action p es replies win h =
      let clicked = (click_bulk date_parse env_base uri_error now action p).0 in
      let (sent, none_selected, kept, whole) =
        click_bulk-sent date_parse env_base uri_error now action p es h in
      let label = bulk_label (bulk_verb action) (length p.sel) in
      let outcome = all_settled (receive_all date_parse env_base replies clicked.world).1 in
      (
        use_action-told label outcome clicked.effects
            ∙ ap₂ (told label) (receive_all-first_failure replies clicked.world) kept,
        receive_all-session later replies clicked.world
            (click_bulk-window date_parse env_base uri_error now action p ∙ win),
        none_selected,
      )
