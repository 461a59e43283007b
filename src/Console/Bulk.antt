-- ===== src/Console/Bulk.antt =====
-- web/src/components/job-tables.tsx and web/src/routes/dlq.tsx with web/src/api/queries.ts, endpoints.ts and client.ts: a bulk action
-- from the click in the bar over the table to the toast.
pub mod Sent
pub mod Settled
use forgequeue.Common.{
  ℕ, ◌≡◌, Bool, true, false, Option, none, some, List, [], ◌∷◌, map, Text, txt, TextSet, Number,
  length, if◌then◌else◌,
}
use forgequeue.Endpoints.{
  Call, Method, get, post, del, Request, request_of, retry_job, delete_job, retry_dlq, delete_dlq,
}
use forgequeue.Client.{World, Outgoing, Reply, Outcome, other_error, start, finish}
use forgequeue.Queries.{Effects, use_action, use_bulk, bulk_calls, bulk_label}

unfoldable pub method_text : Method → Text
method_text get = txt "GET"
method_text post = txt "POST"
method_text del = txt "DELETE"

-- The page of the table: its selection, what was sent and not answered yet, and what the action has done.
pub record BulkPage : Type 0 where
  pub sel : TextSet
  pub world : World
  pub sent : List Outgoing
  pub effects : Effects

-- The buttons of the bar over the table of jobs, and of the one over the dead letters.
pub data BulkAction : Type 0 where
  retry delete retry_dead delete_dead : BulkAction

-- `useBulk(api.retryJob, "Retried")` and `useBulk(api.deleteJob, "Deleted")`; in routes/dlq.tsx
-- `useBulk(api.retryDlq, "Retried")` and `useBulk(api.deleteDlq, "Deleted")`
unfoldable pub bulk_call : BulkAction → Text → Call
bulk_call retry id = retry_job id
bulk_call delete id = delete_job id
bulk_call retry_dead id = retry_dlq id
bulk_call delete_dead id = delete_dlq id

unfoldable pub bulk_verb : BulkAction → Text
bulk_verb retry = txt "Retried"
bulk_verb delete = txt "Deleted"
bulk_verb retry_dead = txt "Retried"
bulk_verb delete_dead = txt "Deleted"

module _ (date_parse : Text → Number) (env_base : Option Text) where
  -- A member of `Api` up to the `await` of `request`; `none` where `encodeURIComponent` throws.
  unfoldable pub send_call : ℕ → Call → World → World × Option Outgoing
  send_call now c w = elim (request_of c) [
    | none ↦ (w, none)
    | some r ↦
        let (v, out) = start date_parse env_base now (method_text r.method) r.path r.body w in
        (v, some out)
  ]

  -- `ids.map(fn)`: the calls are made one after the other, and a throw ends them. The last part says
  -- whether all of them were made.
  unfoldable pub send_all : ℕ → List Call → World → World × List Outgoing × Bool
  unfolding send_call
  send_all now [] w = (w, [], true)
  send_all now (c ∷ cs) w =
      let (v, sent) = send_call now c w in
      let (u, rest, whole) = send_all now cs v in
      elim sent [ none ↦ (v, [], false) | some out ↦ (u, out ∷ rest, whole) ]

  -- The replies, in the order in which they come.
  unfoldable pub receive_all : List (ℕ × Reply) → World → World × List Outcome
  receive_all [] w = (w, [])
  receive_all ((now, r) ∷ replies) w =
      let (v, o) = finish date_parse env_base now r w in
      let (u, os) = receive_all replies v in (u, o ∷ os)

  -- The click: `mutate(ids)`, and the selection is emptied. Where a call throws, the action fails with
  -- the message of the `URIError`, whatever becomes of the requests that were sent before.
  unfoldable pub click_bulk : Text → ℕ → BulkAction → BulkPage → BulkPage × Bool
  unfolding bulk_call bulk_verb send_all
  click_bulk uri_error now action p =
      let (w, sent, whole) = send_all now (bulk_calls (bulk_call action) p.sel) p.world in
      (
        record {
          sel = [];
          world = w;
          sent = sent;
          effects =
              if whole
              then p.effects
              else use_action (bulk_label (bulk_verb action) (length p.sel)) (other_error uri_error)
                  p.effects;
        },
        whole,
      )

  -- The replies of an action over these identifiers, all of whose requests were sent, one for each.
  unfoldable pub settle_bulk : BulkAction → List Text → List (ℕ × Reply) → BulkPage → BulkPage
  unfolding bulk_verb receive_all
  settle_bulk action ids replies p =
      let (w, outcomes) = receive_all replies p.world in
      record p {
        world = w;
        sent = [];
        effects = use_bulk (bulk_verb action) ids outcomes p.effects;
      }
