-- ===== src/Console/Bulk/Sent.antt =====
-- web/src/api: the requests that a bulk action sends.
use mathlib.Core.Path.{ap₂}
use forgequeue.Common.{
  ℕ, ◌≡◌, ◌∙◌, refl, ap, arith, Bool, true, false, Option, none, some, List, [], ◌∷◌, ◌++◌, map,
  Text, txt, Number, Option-cases, inl, inr,
}
use forgequeue.Types.{Json}
use forgequeue.Stores.Auth
use forgequeue.Stores.Auth.{AuthStore, get_session, get_token}
use forgequeue.Stores.Preferences
use forgequeue.Stores.Preferences.{PrefsStore, get_prefs}
use forgequeue.Stores.Watch.Instances.{
  load-settles, load_settled, load_prefs-settles, load_prefs_again,
}
use forgequeue.Endpoints.{Call, Request, post, del, at, request_of}
use forgequeue.Endpoints.Encoding.{encode}
use forgequeue.Client.{World, Header, Outgoing, get_api_base, headers, start}
use forgequeue.Client.Laws.{start-window}
use forgequeue.Queries.{bulk_calls}
use forgequeue.Console.Bulk.{
  BulkAction, retry, delete, retry_dead, delete_dead, bulk_call, method_text, send_call, send_all,
  BulkPage, click_bulk,
}

-- Each identifier has its encoding.
abbrev pub Encodes : List Text → List Text → Type 0
Encodes [] [] = Unit
Encodes [] (e ∷ es) = ⊥
Encodes (id ∷ ids) [] = ⊥
Encodes (id ∷ ids) (e ∷ es) = (encode id ≡ some e) × Encodes ids es

-- The request for one job, at a base and with the headers of the session.
abbrev pub job_request : BulkAction → Text → List Header → Text → Outgoing
job_request retry base hs e = record {
  method = txt "POST";
  url = base ++ (txt "/jobs/" ++ (e ++ txt "/retry"));
  headers = hs;
  body = none;
}
job_request delete base hs e = record {
  method = txt "DELETE";
  url = base ++ (txt "/jobs/" ++ (e ++ []));
  headers = hs;
  body = none;
}
job_request retry_dead base hs e = record {
  method = txt "POST";
  url = base ++ (txt "/dlq/" ++ (e ++ txt "/retry"));
  headers = hs;
  body = none;
}
job_request delete_dead base hs e = record {
  method = txt "DELETE";
  url = base ++ (txt "/dlq/" ++ (e ++ []));
  headers = hs;
  body = none;
}

abbrev pub bulk_request : BulkAction → Text → Request
bulk_request retry e = record {
  method = post;
  path = txt "/jobs/" ++ (e ++ txt "/retry");
  body = none;
}
bulk_request delete e = record { method = del; path = txt "/jobs/" ++ (e ++ []); body = none }
bulk_request retry_dead e = record {
  method = post;
  path = txt "/dlq/" ++ (e ++ txt "/retry");
  body = none;
}
bulk_request delete_dead e = record { method = del; path = txt "/dlq/" ++ (e ++ []); body = none }

pub request_of-bulk_call :
    (action : BulkAction) (id e : Text)
    → encode id ≡ some e
    → request_of (bulk_call action id) ≡ some (bulk_request action e)
unfolding request_of bulk_call
request_of-bulk_call retry id e h = ap (λ o. at post (txt "/jobs/") o (txt "/retry")) h
request_of-bulk_call delete id e h = ap (λ o. at del (txt "/jobs/") o []) h
request_of-bulk_call retry_dead id e h = ap (λ o. at post (txt "/dlq/") o (txt "/retry")) h
request_of-bulk_call delete_dead id e h = ap (λ o. at del (txt "/dlq/") o []) h

module _ (date_parse : Text → Number) (env_base : Option Text) where
  get_api_base-start :
      (now : ℕ) (m path : Text) (body : Option Json) (w : World)
      → (get_api_base date_parse env_base (start date_parse env_base now m path body w).0.prefs).1
        ≡ (get_api_base date_parse env_base w.prefs).1
  unfolding start get_api_base get_prefs
  get_api_base-start now m path body w =
      rw
        (load_prefs_again env_base (Preferences.load env_base w.prefs)
          (load_prefs-settles env_base w.prefs))
        refl

  headers-start :
      (now : ℕ) (m path : Text) (body : Option Json) (w : World)
      → (headers date_parse env_base now (start date_parse env_base now m path body w).0.auth).1
        ≡ (headers date_parse env_base now w.auth).1
  unfolding start headers get_token get_session
  headers-start now m path body w =
      rw
        (load_settled date_parse now (Auth.load date_parse now w.auth)
          (load-settles date_parse now w.auth))
        refl

  pub send_call_made :
      (now : ℕ) (c : Call) (r : Request) (w : World)
      → request_of c ≡ some r
      → let started = start date_parse env_base now (method_text r.method) r.path r.body w in
        send_call date_parse env_base now c w ≡ (started.0, some started.1)
  unfolding send_call
  send_call_made now c r w h = rw (h, send_call) refl

  pub send_all_made :
      (now : ℕ) (c : Call) (cs : List Call) (w v : World) (out : Outgoing)
      → send_call date_parse env_base now c w ≡ (v, some out)
      → send_all date_parse env_base now (c ∷ cs) w
        ≡ (let (u, rest, whole) = send_all date_parse env_base now cs v in (u, out ∷ rest, whole))
  unfolding send_all
  send_all_made now c cs w v out h =
      ap
        (λ (x : World × Option Outgoing).
          let (u, rest, whole) = send_all date_parse env_base now cs x.0 in
          let all : World × List Outgoing × Bool = elim x.1 [
            | none ↦ (x.0, [], false)
            | some o ↦ (u, o ∷ rest, whole)
          ] in
          all)
        h

  pub started-job_request :
      (now : ℕ) (action : BulkAction) (e : Text) (w : World)
      → let r = bulk_request action e in
        (start date_parse env_base now (method_text r.method) r.path r.body w).1
        ≡ job_request action
            (get_api_base date_parse env_base w.prefs).1
            (headers date_parse env_base now w.auth).1
            e
  unfolding start method_text
  started-job_request now retry e w = refl
  started-job_request now delete e w = refl
  started-job_request now retry_dead e w = refl
  started-job_request now delete_dead e w = refl

  -- Every request of the action goes to the same base with the same headers.
  send_all-jobs :
      (now : ℕ) (action : BulkAction) (ids es : List Text) (base : Text) (hs : List Header)
      (w : World)
      → Encodes ids es
      → (get_api_base date_parse env_base w.prefs).1 ≡ base
      → (headers date_parse env_base now w.auth).1 ≡ hs
      → let (v, sent, whole) = send_all date_parse env_base now (map (bulk_call action) ids) w in
        (sent ≡ map (job_request action base hs) es) × (whole ≡ true)
  unfolding send_all
  send_all-jobs now action [] [] base hs w h b k = (refl, refl)
  send_all-jobs now action [] (e ∷ es) base hs w h b k = elim h [ ]
  send_all-jobs now action (id ∷ ids) [] base hs w h b k = elim h [ ]
  send_all-jobs now action (id ∷ ids) (e ∷ es) base hs w (h, more) b k =
      let r = bulk_request action e in
      let m = method_text r.method in
      let v = (start date_parse env_base now m r.path r.body w).0 in
      let (sent, whole) =
        send_all-jobs now action ids es base hs v more
          (get_api_base-start now m r.path r.body w ∙ b)
          (headers-start now m r.path r.body w ∙ k) in
      let one = started-job_request now action e w ∙ ap₂ (λ x y. job_request action x y e) b k in
      rw
        (send_all_made now (bulk_call action id) (map (bulk_call action) ids) w v
          (start date_parse env_base now m r.path r.body w).1
          (send_call_made now (bulk_call action id) r w (request_of-bulk_call action id e h)))
        (ap₂ (◌∷◌) one sent, whole)

  send_call-window :
      (now : ℕ) (c : Call) (w : World)
      → (send_call date_parse env_base now c w).0.auth.window ≡ w.auth.window
  unfolding send_call
  send_call-window now c w = elim (Option-cases (request_of c)) [
    | inl e ↦ rw (e, send_call) refl
    | inr (r, e) ↦
        rw (send_call_made now c r w e)
          (start-window date_parse env_base now (method_text r.method) r.path r.body w)
  ]

  send_all-window :
      (now : ℕ) (cs : List Call) (w : World)
      → (send_all date_parse env_base now cs w).0.auth.window ≡ w.auth.window
  unfolding send_all
  send_all-window now [] w = refl
  send_all-window now (c ∷ cs) w =
      let (v, sent) = send_call date_parse env_base now c w in
      ground (arith, send_all-window now cs v, send_call-window now c w)

  pub click_bulk-window :
      (uri_error : Text) (now : ℕ) (action : BulkAction) (p : BulkPage)
      → (click_bulk date_parse env_base uri_error now action p).0.world.auth.window
        ≡ p.world.auth.window
  unfolding click_bulk
  click_bulk-window uri_error now action p =
      send_all-window now (bulk_calls (bulk_call action) p.sel) p.world

  -- Where each selected identifier has its encoding, a click sends exactly one request for each, in the
  -- order of the selection: to the base that the preferences give, with the headers of the session, so
  -- that all of them carry the same token. The selection is then empty, and nothing is shown yet.
  pub click_bulk-sent :
      (uri_error : Text) (now : ℕ) (action : BulkAction) (p : BulkPage) (es : List Text)
      → Encodes p.sel es
      → let (q, whole) = click_bulk date_parse env_base uri_error now action p in
        (q.sent
          ≡ map
              (job_request action
                (get_api_base date_parse env_base p.world.prefs).1
                (headers date_parse env_base now p.world.auth).1)
              es)
        × (q.sel ≡ [])
        × (q.effects ≡ p.effects)
        × (whole ≡ true)
  unfolding click_bulk bulk_calls
  click_bulk-sent uri_error now action p es h =
      let (sent, whole) = send_all-jobs now action p.sel es _ _ p.world h refl refl in
      (sent, refl, rw whole refl, whole)
