-- ===== src/Console/Guards/Permissions.antt =====
-- The controls of the pages and the permissions of the session.
use forgequeue.Common.{
  ◌≡◌, refl, arith, ℕ, Bool, true, false, ◌&&◌, ◌==◌, Option, none, some, List, [], ◌∷◌, map, Text,
  txt, TextSet, length, every, Bool-cases, inl, inr,
}
use forgequeue.Types.{Job, DelayedJob, DlqItem, QueueSummary}
use forgequeue.Stores.{Permission, Session, queues_write, jobs_write, dlq_write, delayed_write}
use forgequeue.Endpoints.{retry_job, delete_job, retry_dlq, delete_dlq}
use forgequeue.DataTable.{Column}
use forgequeue.Console.{
  mutate, clear_selection, Control, button, confirmed, holds, can, Cell, Context,
}
use forgequeue.Console.Tables.{
  bulk_bar, jobs_bar, jobs_columns, delayed_columns, worker_cell, job_id_cell, remaining_cell,
  retry_cell, delayed_actions,
}
use forgequeue.Console.Pages.{
  is_paused, queue_actions, job_actions, dlq_head, dlq_bar, dlq_row_actions, queue_row_actions,
  overview_row_actions,
}
use forgequeue.Console.DeadLetters.{dlq_columns}
use forgequeue.Console.Guards.{needed, is_allowed, calls_of, permitted, every-map, every_append}

permitted-can :
    (session : Option Session) (p : Permission) (children : List Control)
    → (holds session p ≡ true → permitted session children ≡ true)
    → permitted session (can session p children) ≡ true
unfolding can
permitted-can session p children h = elim (Bool-cases (holds session p)) [
  | inl e ↦ rw e (h e)
  | inr e ↦ rw e refl
]

permitted-bulk_bar :
    (session : Option Session) (count : ℕ) (children : List Control)
    → permitted session children ≡ true
    → permitted session (bulk_bar count children) ≡ true
unfolding bulk_bar
permitted-bulk_bar session count children h = elim (Bool-cases (count == 0)) [
  | inl e ↦ rw e refl
  | inr e ↦ rw e (
      every_append (λ c. every (is_allowed session) (calls_of c)) children
        (button (txt "Clear") false clear_selection ∷ []) h refl)
]

jobs_bar-permitted :
    (session : Option Session) (sel : TextSet) → permitted session (jobs_bar session sel) ≡ true
unfolding jobs_bar needed
jobs_bar-permitted session sel = permitted-bulk_bar session (length sel) _ (
    permitted-can session jobs_write _ (λ h.
      let one : every (is_allowed session) (map retry_job sel) ≡ true =
        every-map (is_allowed session) retry_job sel (λ id. h) in
      let two : every (is_allowed session) (map delete_job sel) ≡ true =
        every-map (is_allowed session) delete_job sel (λ id. h) in
      rw (one, two) refl))

dlq_bar-permitted :
    (session : Option Session) (sel : TextSet) → permitted session (dlq_bar session sel) ≡ true
unfolding dlq_bar needed
dlq_bar-permitted session sel = permitted-bulk_bar session (length sel) _ (
    every_append (λ c. every (is_allowed session) (calls_of c))
      (can session dlq_write
        (button (txt "Retry selected") false (mutate true (map retry_dlq sel)) ∷ []))
      (can session dlq_write
        (confirmed (txt "Delete selected") false none (mutate true (map delete_dlq sel)) ∷ []))
      (permitted-can session dlq_write _
        (λ h. rw (every-map (is_allowed session) retry_dlq sel (λ id. h)) refl))
      (permitted-can session dlq_write _
        (λ h. rw (every-map (is_allowed session) delete_dlq sel (λ id. h)) refl)))

dlq_row_actions-permitted :
    (session : Option Session) (d : DlqItem) → permitted session (dlq_row_actions session d) ≡ true
unfolding dlq_row_actions needed
dlq_row_actions-permitted session d = permitted-can session dlq_write _ (λ h. rw h refl)

queue_actions-permitted :
    (session : Option Session) (name : Text) (q : Option QueueSummary)
    → permitted session (queue_actions session name q) ≡ true
unfolding queue_actions needed
queue_actions-permitted session name none = refl
queue_actions-permitted session name (some q) =
    permitted-can session queues_write _ (λ h. ground arith)

-- Every call that the controls of the bars, heads and rows make is one that the API allows to the
-- session, when the page guards them with `Can`: the bar over jobs, the head of a queue, the head of
-- a job, and the head, the bar and a row of the dead letter queue, whatever is selected and whatever
-- the rows are.
pub controls_permitted :
    (session : Option Session) (sel : TextSet) (name : Text) (q : Option QueueSummary) (j : Job)
    (rows : Option (List DlqItem)) (d : DlqItem)
    → (permitted session (jobs_bar session sel) ≡ true)
      × (permitted session (queue_actions session name q) ≡ true)
      × (permitted session (job_actions session j) ≡ true)
      × (permitted session (dlq_head session rows) ≡ true)
      × (permitted session (dlq_bar session sel) ≡ true)
      × (permitted session (dlq_row_actions session d) ≡ true)
unfolding job_actions dlq_head dlq_row_actions needed
controls_permitted session sel name q j rows d = (
  jobs_bar-permitted session sel,
  queue_actions-permitted session name q,
  permitted-can session jobs_write _ (λ h. rw h refl),
  permitted-can session dlq_write _ (λ h. rw h refl),
  dlq_bar-permitted session sel,
  permitted-can session dlq_write _ (λ h. rw h refl),
)

-- Every call that a cell of the row makes is allowed to the session.
abbrev pub row_permitted {ℓ} : {Row : Type ℓ} → Option Session → List (Column Row Cell) → Row → Bool
row_permitted session columns row = every (λ c. permitted session ((c.cell) row).controls) columns

worker_cell-permitted :
    (session : Option Session) (w : Option Text) → permitted session (worker_cell w).controls ≡ true
unfolding worker_cell
worker_cell-permitted session none = refl
worker_cell-permitted session (some []) = refl
worker_cell-permitted session (some (x ∷ w)) = refl

retry_cell-permitted :
    (session : Option Session) (j : Job)
    → holds session jobs_write ≡ true
    → permitted session (retry_cell j).controls ≡ true
unfolding retry_cell needed
retry_cell-permitted session j h = ground arith

jobs_columns-permitted :
    (ctx : Context) (show_queue : Bool) (j : Job)
    → row_permitted ctx.session (jobs_columns ctx show_queue) j ≡ true
unfolding jobs_columns job_id_cell
jobs_columns-permitted ctx true j = elim (Bool-cases (holds ctx.session jobs_write)) [
  | inl e ↦
      rw (worker_cell-permitted ctx.session j.worker_id, e, retry_cell-permitted ctx.session j e)
  | inr e ↦ rw (worker_cell-permitted ctx.session j.worker_id, e)
]
jobs_columns-permitted ctx false j = elim (Bool-cases (holds ctx.session jobs_write)) [
  | inl e ↦
      rw (worker_cell-permitted ctx.session j.worker_id, e, retry_cell-permitted ctx.session j e)
  | inr e ↦ rw (worker_cell-permitted ctx.session j.worker_id, e)
]

delayed_actions-permitted :
    (ctx : Context) (d : DelayedJob)
    → holds ctx.session delayed_write ≡ true
    → permitted ctx.session (delayed_actions ctx d).controls ≡ true
unfolding delayed_actions needed
delayed_actions-permitted ctx d h = rw h

delayed_columns-permitted :
    (ctx : Context) (show_queue : Bool) (d : DelayedJob)
    → row_permitted ctx.session (delayed_columns ctx show_queue) d ≡ true
unfolding delayed_columns job_id_cell remaining_cell
delayed_columns-permitted ctx true d = elim (Bool-cases (holds ctx.session delayed_write)) [
  | inl e ↦ rw (e, delayed_actions-permitted ctx d e)
  | inr e ↦ rw e
]
delayed_columns-permitted ctx false d = elim (Bool-cases (holds ctx.session delayed_write)) [
  | inl e ↦ rw (e, delayed_actions-permitted ctx d e)
  | inr e ↦ rw e
]

dlq_columns-permitted :
    (ctx : Context) (d : DlqItem) → row_permitted ctx.session (dlq_columns ctx) d ≡ true
unfolding dlq_columns job_id_cell
dlq_columns-permitted ctx d = rw (dlq_row_actions-permitted ctx.session d) refl

-- The columns of the tables of jobs, of delayed jobs and of the dead letter queue offer no call in a row
-- that the API does not allow to the session, with or without the column of queues.
pub columns_permitted :
    (ctx : Context) (show_queue : Bool) (j : Job) (d : DelayedJob) (dead : DlqItem)
    → (row_permitted ctx.session (jobs_columns ctx show_queue) j ≡ true)
      × (row_permitted ctx.session (delayed_columns ctx show_queue) d ≡ true)
      × (row_permitted ctx.session (dlq_columns ctx) dead ≡ true)
columns_permitted ctx show_queue j d dead = (
  jobs_columns-permitted ctx show_queue j,
  delayed_columns-permitted ctx show_queue d,
  dlq_columns-permitted ctx dead,
)

-- The tables of queues offer pausing and resuming to every session: the call of a row is allowed
-- exactly to the sessions with `queues:write`.
pub queue_rows_unguarded :
    (session : Option Session) (q : QueueSummary)
    → (permitted session (overview_row_actions q) ≡ holds session queues_write)
      × (permitted session (queue_row_actions q) ≡ holds session queues_write)
unfolding overview_row_actions queue_row_actions needed
queue_rows_unguarded session q = elim (Bool-cases (is_paused q.status)) [
  | inl e ↦ rw e (and_true (holds session queues_write), and_true (holds session queues_write))
  | inr e ↦ rw e (and_true (holds session queues_write), and_true (holds session queues_write))
]
  where
    and_true : (b : Bool) → (b && true && true) ≡ b
    and_true true = refl
    and_true false = refl
