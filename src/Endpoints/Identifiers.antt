-- ===== src/Endpoints/Identifiers.antt =====
-- endpoints.ts: no two identifiers share a request.
use mathlib.Core.Option.{some-injective}
use forgequeue.Common.{
  ◌≡◌, refl, ap, sym, ◌∙◌, some, [], ◌∷◌, ◌++◌, Text, txt, All, drop, length, length-append, arith,
  Option-cases, inl, inr,
}
use forgequeue.Endpoints.{Call, Request, Method, get, post, del, at, request_of}
use forgequeue.Endpoints.Encoding.{encode}
use forgequeue.Endpoints.Encoding.Decoding.{IsUnit}
use forgequeue.Endpoints.Encoding.Inverse.{decode-encode}

-- The members of `Api` that take an identifier.
pub data Member : Type 0 where
  queue queue_jobs job retry_job requeue_job delete_job pause_queue : Member
  resume_queue purge_queue worker retry_dlq delete_dlq promote_delayed cancel_delayed : Member

abbrev pub call_with : Member → Text → Call
call_with queue id = Call.queue id
call_with queue_jobs id = Call.queue_jobs id
call_with job id = Call.job id
call_with retry_job id = Call.retry_job id
call_with requeue_job id = Call.requeue_job id
call_with delete_job id = Call.delete_job id
call_with pause_queue id = Call.pause_queue id
call_with resume_queue id = Call.resume_queue id
call_with purge_queue id = Call.purge_queue id
call_with worker id = Call.worker id
call_with retry_dlq id = Call.retry_dlq id
call_with delete_dlq id = Call.delete_dlq id
call_with promote_delayed id = Call.promote_delayed id
call_with cancel_delayed id = Call.cancel_delayed id

cancel_left : (p x y : Text) → p ++ x ≡ p ++ y → x ≡ y
cancel_left [] x y h = h
cancel_left (c ∷ p) x y h = cancel_left p x y (ap (drop 1) h)

cancel_right : (x y s : Text) → x ++ s ≡ y ++ s → x ≡ y
cancel_right [] [] s h = refl
cancel_right [] (c ∷ y) s h = absurd (omega (arith, ap length h, length-append y s))
cancel_right (c ∷ x) [] s h = absurd (omega (arith, ap length h, length-append x s))
cancel_right (c ∷ x) (d ∷ y) s h = ground (arith, h, cancel_right x y s)

encode_injective :
    (a b t : Text) → All IsUnit a → All IsUnit b → encode a ≡ some t → encode b ≡ some t → a ≡ b
encode_injective a b t ua ub ea eb =
    some-injective _ _ (sym (decode-encode a t ua ea) ∙ decode-encode b t ub eb)

-- What a path with an identifier in it shows of the identifier.
at_injective :
    (m : Method) (before after a b : Text) (r : Request)
    → All IsUnit a
    → All IsUnit b
    → at m before (encode a) after ≡ some r
    → at m before (encode b) after ≡ some r
    → a ≡ b
at_injective m before after a b r ua ub ea eb = elim (Option-cases (encode a)) [
  | inl n ↦ absurd (cc)
  | inr (s, es) ↦ elim (Option-cases (encode b)) [
    | inl n ↦ absurd (cc)
    | inr (t, et) ↦
        let path : before ++ (s ++ after) ≡ before ++ (t ++ after) =
          ap (λ (q : Request). q.path)
            (some-injective _ _ (
              ap (λ o. at m before o after) (sym es)
              ∙ ea
              ∙ sym eb
              ∙ ap (λ o. at m before o after) et)) in
        let same = cancel_right s t after (cancel_left before _ _ path) in
        encode_injective a b t ua ub (es ∙ ap some same) et
  ]
]

abbrev parts : Member → Method × Text × Text
parts queue = (get, txt "/queues/", [])
parts queue_jobs = (get, txt "/queues/", txt "/jobs")
parts job = (get, txt "/jobs/", [])
parts retry_job = (post, txt "/jobs/", txt "/retry")
parts requeue_job = (post, txt "/jobs/", txt "/requeue")
parts delete_job = (del, txt "/jobs/", [])
parts pause_queue = (post, txt "/queues/", txt "/pause")
parts resume_queue = (post, txt "/queues/", txt "/resume")
parts purge_queue = (post, txt "/queues/", txt "/purge")
parts worker = (get, txt "/workers/", [])
parts retry_dlq = (post, txt "/dlq/", txt "/retry")
parts delete_dlq = (del, txt "/dlq/", [])
parts promote_delayed = (post, txt "/delayed/", txt "/promote")
parts cancel_delayed = (del, txt "/delayed/", [])

request_parts :
    (f : Member) (x : Text)
    → request_of (call_with f x) ≡ at (parts f).0 (parts f).1 (encode x) (parts f).2
unfolding request_of
request_parts queue x = refl
request_parts _ x = refl

-- Two calls of the same member of `Api` for different identifiers are different requests, whatever units
-- the identifiers have, if there is a request at all.
pub request_of_injective :
    (f : Member) (a b : Text) (r : Request)
    → All IsUnit a
    → All IsUnit b
    → request_of (call_with f a) ≡ some r
    → request_of (call_with f b) ≡ some r
    → a ≡ b
request_of_injective f a b r ua ub ea eb =
    let p = parts f in
    at_injective p.0 p.1 p.2 a b r ua ub (sym (request_parts f a) ∙ ea)
      (sym (request_parts f b) ∙ eb)
