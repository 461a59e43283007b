-- ===== src/Console/Tables/Runs/Causes.antt =====
-- job-tables.tsx and dlq.tsx: where the requests of the actions come from.
use mathlib.Core.Path.{subst}
use forgequeue.Common.{
  ℕ, ◌≡◌, ◌∙◌, refl, ap, sym, arith, Bool, true, false, Option, none, some, Option-cases, List, [],
  ◌∷◌, map, Text, text_eq_refl, text_eq_iff, TextSet, txt, has, IsDistinct, Number, Bool-cases, inl,
  inr, All, All-append, All-implied,
}
use forgequeue.Endpoints.{Call, request_of, at, post, del}
use forgequeue.Endpoints.Encoding.{encode}
use forgequeue.Client.{World, Header, Outgoing, start}
use forgequeue.Queries.{Effects, bulk_calls}
use forgequeue.Console.{holds, Context}
use forgequeue.Console.Bulk.{
  BulkAction, retry, delete, retry_dead, delete_dead, BulkPage, bulk_call, method_text, send_call,
  send_all, click_bulk,
}
use forgequeue.Console.Bulk.Sent.{
  job_request, bulk_request, request_of-bulk_call, send_call_made, send_all_made,
  started-job_request,
}
use forgequeue.Console.Tables.Runs.{
  BulkTable, Shows, TablePage, Event, rendered, tick, tick_page, sort_by, resize, back, on, clear,
  act, act_row, settle, is_offered, offers_row, page_step, table_step, table_run, mounted_table,
}
use forgequeue.Console.Tables.Runs.Chosen.{shown_run, chosen, table_run-shown, table_run-Implements}

-- A request of the action for the job.
pub data IsFor (action : BulkAction) (id : Text) (out : Outgoing) : Type 0 where
  is_for :
      (base : Text) (hs : List Header) (e : Text)
      → encode id ≡ some e
      → out ≡ job_request action base hs e
      → IsFor action id out

-- A request of the action for one of these jobs.
abbrev IsAmong : BulkAction → TextSet → Outgoing → Type 0
IsAmong action ids out = (id : Text) × (has ids id ≡ true) × IsFor action id out

-- A request has a cause among the events, the latest one first, on a table that first shows `v` with `f`
-- chosen: a click on an action that is in the bar, when the session that the table was rendered with held
-- the permission and the identifier of the request was chosen; or a click on the action in the row with
-- that identifier, where the row offered it.
pub data IsCaused (T : BulkTable) (v : Shows T) (f : Text → Bool) (out : Outgoing)
    : List (Event T) → Type 0 where
  by_click :
      (action : BulkAction) (now : ℕ) (before : List (Event T)) (id : Text)
      → T.in_bar action ≡ true
      → chosen T before v f id ≡ true
      → holds (shown_run T before v).ctx.session T.write ≡ true
      → IsFor action id out
      → IsCaused T v f out (act action now ∷ before)
  by_row :
      (action : BulkAction) (now : ℕ) (before : List (Event T)) (id : Text)
      → offers_row T action id (shown_run T before v) ≡ true
      → IsFor action id out
      → IsCaused T v f out (act_row action id now ∷ before)
  earlier :
      (e : Event T) (before : List (Event T))
      → IsCaused T v f out before
      → IsCaused T v f out (e ∷ before)

request_of-bulk_call-none :
    (action : BulkAction) (id : Text) → encode id ≡ none → request_of (bulk_call action id) ≡ none
unfolding request_of bulk_call
request_of-bulk_call-none retry id h = ap (λ o. at post (txt "/jobs/") o (txt "/retry")) h
request_of-bulk_call-none delete id h = ap (λ o. at del (txt "/jobs/") o []) h
request_of-bulk_call-none retry_dead id h = ap (λ o. at post (txt "/dlq/") o (txt "/retry")) h
request_of-bulk_call-none delete_dead id h = ap (λ o. at del (txt "/dlq/") o []) h

has-head : (id : Text) (ids : TextSet) → has (id ∷ ids) id ≡ true
unfolding has
has-head id ids = ground (arith, text_eq_refl id)

has-tail : (id x : Text) (ids : TextSet) → has ids x ≡ true → has (id ∷ ids) x ≡ true
unfolding has
has-tail id x ids h = ground arith

module _ (date_parse : Text → Number) (env_base : Option Text) where
  send_call-none :
      (now : ℕ) (c : Call) (w : World)
      → request_of c ≡ none
      → send_call date_parse env_base now c w ≡ (w, none)
  unfolding send_call
  send_call-none now c w h = rw (h, send_call) refl

  send_all-throw :
      (now : ℕ) (c : Call) (cs : List Call) (w : World)
      → request_of c ≡ none
      → send_all date_parse env_base now (c ∷ cs) w ≡ (w, [], false)
  unfolding send_all
  send_all-throw now c cs w h =
      ap
        (λ (x : World × Option Outgoing).
          let (u, rest, whole) = send_all date_parse env_base now cs x.0 in
          let all : World × List Outgoing × Bool = elim x.1 [
            | none ↦ (x.0, [], false)
            | some o ↦ (u, o ∷ rest, whole)
          ] in
          all)
        (send_call-none now c w h)

  send_all-IsAmong :
      (now : ℕ) (action : BulkAction) (ids s : TextSet) (w : World)
      → ((x : Text) → has ids x ≡ true → has s x ≡ true)
      → All (IsAmong action s) (send_all date_parse env_base now (map (bulk_call action) ids) w).1
  unfolding send_all
  send_all-IsAmong now action [] s w h = tt
  send_all-IsAmong now action (id ∷ ids) s w h = elim (Option-cases (encode id)) [
    | inl k ↦
        rw
          (send_all-throw now (bulk_call action id) (map (bulk_call action) ids) w
            (request_of-bulk_call-none action id k))
          tt
    | inr (e, k) ↦
        let r = bulk_request action e in
        let started = start date_parse env_base now (method_text r.method) r.path r.body w in
        rw
          (send_all_made date_parse env_base now (bulk_call action id) (map (bulk_call action) ids)
            w started.0 started.1
            (send_call_made date_parse env_base now (bulk_call action id) r w
              (request_of-bulk_call action id e k)))
          (
            (
              id,
              h id (has-head id ids),
              is_for _ _ e k (started-job_request date_parse env_base now action e w),
            ),
            send_all-IsAmong now action ids s started.0 (λ x j. h x (has-tail id x ids j)),
          )
  ]

module _ (T : BulkTable) (date_parse : Text → Number) (env_base : Option Text) (uri_error : Text)
    (v : Shows T) (f : Text → Bool) where
  click_bulk-IsAmong :
      (now : ℕ) (action : BulkAction) (p : BulkPage)
      → All (IsAmong action p.sel) (click_bulk date_parse env_base uri_error now action p).0.sent
  unfolding click_bulk bulk_calls
  click_bulk-IsAmong now action p =
      send_all-IsAmong date_parse env_base now action p.sel p.sel p.world (λ x h. h)

  act-IsCaused :
      (action : BulkAction) (now : ℕ) (before : List (Event T)) (p : BulkPage)
      → ((x : Text) → has p.sel x ≡ chosen T before v f x)
      → All
          (λ out. IsCaused T v f out (act action now ∷ before))
          (page_step T date_parse env_base uri_error (act action now) (shown_run T before v) p).1
  unfolding page_step is_offered
  act-IsCaused action now before p h =
      let session = (shown_run T before v).ctx.session in
      elim (Bool-cases (is_offered T action session p.sel)) [
        | inl e ↦ rw e (
            All-implied _ _ _
              (λ out (id, k, fits).
                by_click action now before id (ground arith) (sym (h id) ∙ k) (ground arith) fits)
              (click_bulk-IsAmong now action p))
        | inr e ↦ rw e tt
      ]

  has_one : (id x : Text) → has (id ∷ []) x ≡ true → x ≡ id
  unfolding has
  has_one id x h = ground (arith, text_eq_iff id x)

  act_row-IsCaused :
      (action : BulkAction) (id : Text) (now : ℕ) (before : List (Event T)) (p : BulkPage)
      → All
          (λ out. IsCaused T v f out (act_row action id now ∷ before))
          (page_step T date_parse env_base uri_error
            (act_row action id now)
            (shown_run T before v)
            p).1
  unfolding page_step
  act_row-IsCaused action id now before p =
      elim (Bool-cases (offers_row T action id (shown_run T before v))) [
        | inl e ↦ rw e (
            All-implied _ _ _
              (λ out (x, k, fits).
                by_row action now before id e
                  (subst (λ y. IsFor action y out) (has_one id x k) fits))
              (click_bulk-IsAmong now action (record p { sel = id ∷ [] })))
        | inr e ↦ rw e tt
      ]

  page_step-IsCaused :
      (e : Event T) (before : List (Event T)) (p : BulkPage)
      → ((x : Text) → has p.sel x ≡ chosen T before v f x)
      → All
          (λ out. IsCaused T v f out (e ∷ before))
          (page_step T date_parse env_base uri_error e (shown_run T before v) p).1
  unfolding page_step
  page_step-IsCaused (act action now) before p h = act-IsCaused action now before p h
  page_step-IsCaused (act_row action id now) before p h = act_row-IsCaused action id now before p
  page_step-IsCaused (tick id) before p h = tt
  page_step-IsCaused (tick_page b) before p h = tt
  page_step-IsCaused clear before p h = tt
  page_step-IsCaused (settle action ids replies) before p h = tt
  page_step-IsCaused (rendered ctx rows) before p h = tt
  page_step-IsCaused (sort_by key) before p h = tt
  page_step-IsCaused (resize n) before p h = tt
  page_step-IsCaused back before p h = tt
  page_step-IsCaused on before p h = tt

module _ (T : BulkTable) (date_parse : Text → Number) (env_base : Option Text)
    (uri_error : Text) where
  table_run-asked :
      (es : List (Event T)) (p : TablePage T.Item)
      → IsDistinct p.page.sel
      → p.asked ≡ []
      → All
          (λ out. IsCaused T p.shown (has p.page.sel) out es)
          (table_run T date_parse env_base uri_error es p).asked
  unfolding table_run table_step
  table_run-asked [] p d h = rw h tt
  table_run-asked (e ∷ es) p d h =
      let q = table_run T date_parse env_base uri_error es p in
      let v = p.shown in
      let f = has p.page.sel in
      All-append (λ out. IsCaused T v f out (e ∷ es)) _ _
        (All-implied _ _ _ (λ out. earlier e es) (table_run-asked es p d h))
        (rw (table_run-shown T date_parse env_base uri_error es p) (
          page_step-IsCaused T date_parse env_base uri_error v f e es q.page
            (table_run-Implements T date_parse env_base uri_error es p d).0))

  -- Whatever happens while a table with actions over its selection is mounted, in any order, each request
  -- of its actions comes from a click on that action, for a session that held the permission of the page
  -- when the table was rendered before it: on an action of the bar, and the identifier of the request was
  -- chosen by the boxes since the last such click and the last `Clear`; or in the row of that identifier,
  -- which was on the page and had the action. The request is the one that the action sends for the
  -- encoding of the identifier. The tables are those of jobs and of dead letters, and others like them.
  pub table_run-IsCaused :
      (es : List (Event T)) (ctx : Context) (rows : Option (List T.Item)) (w : World)
      (effects : Effects)
      → let p = mounted_table T ctx rows w effects in
        All
          (λ out. IsCaused T p.shown (λ x. false) out es)
          (table_run T date_parse env_base uri_error es p).asked
  unfolding mounted_table has
  table_run-IsCaused es ctx rows w effects =
      table_run-asked es (mounted_table T ctx rows w effects) tt refl
