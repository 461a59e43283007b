-- ===== src/Console/Guards/Cautions.antt =====
-- The calls that destroy something, and what the pages ask before them.
use forgequeue.Common.{
  ◌≡◌, refl, ℕ, Bool, true, false, ◌==◌, Option, none, some, List, [], ◌∷◌, ◌++◌, map, Text, txt,
  text_eq, text_eq_refl, TextSet, length, every, Bool-cases, inl, inr,
}
use forgequeue.Types.{Job, DelayedJob, DlqItem, QueueSummary}
use forgequeue.Stores.{Permission, Session, queues_write, jobs_write, dlq_write}
use forgequeue.Endpoints.{
  Call, retry_job, delete_job, purge_queue, retry_dlq, delete_dlq, purge_dlq, cancel_delayed,
}
use forgequeue.Console.{mutate, clear_selection, Control, button, confirmed, holds, can, Context}
use forgequeue.Console.Tables.{bulk_bar, jobs_bar, is_retryable, retry_cell, delayed_actions}
use forgequeue.Console.Pages.{
  is_paused, queue_actions, job_actions, dlq_head, dlq_bar, dlq_row_actions, queue_row_actions,
  overview_row_actions,
}
use forgequeue.Console.Guards.{calls_of, every-map, every_append}

-- What the control must ask before it makes the call: nothing, a confirmation, or a text.
pub data Caution : Type 0 where
  free : Caution
  confirm : Caution
  typed : Text → Caution

abbrev pub caution : Call → Caution
caution (delete_job id) = confirm
caution (delete_dlq id) = confirm
caution (cancel_delayed id) = confirm
caution (purge_queue n) = typed n
caution purge_dlq = typed (txt "purge dlq")
caution _ = free

abbrev pub meets : Control → Caution → Bool
meets c free = true
meets (button label disabled a) confirm = false
meets (button label disabled a) (typed t) = false
meets (confirmed label disabled required a) confirm = true
meets (confirmed label disabled none a) (typed t) = false
meets (confirmed label disabled (some u) a) (typed t) = text_eq u t

-- Every call that destroys something is behind the dialog that it needs.
abbrev pub careful : List Control → Bool
careful controls = every (λ c. every (λ call. meets c (caution call)) (calls_of c)) controls

careful-can :
    (session : Option Session) (p : Permission) (children : List Control)
    → careful children ≡ true
    → careful (can session p children) ≡ true
unfolding can
careful-can session p children h = elim (Bool-cases (holds session p)) [
  | inl e ↦ rw e h
  | inr e ↦ rw e refl
]

careful-bulk_bar :
    (count : ℕ) (children : List Control)
    → careful children ≡ true
    → careful (bulk_bar count children) ≡ true
unfolding bulk_bar
careful-bulk_bar count children h = elim (Bool-cases (count == 0)) [
  | inl e ↦ rw e refl
  | inr e ↦ rw e (
      every_append (λ c. every (λ call. meets c (caution call)) (calls_of c)) children
        (button (txt "Clear") false clear_selection ∷ []) h refl)
]

-- A control is careful if the calls that it makes for the rows of a selection are.
careful-map :
    (c : Control) (call_of : Text → Call) (sel : TextSet)
    → ((id : Text) → meets c (caution (call_of id)) ≡ true)
    → every (λ call. meets c (caution call)) (map call_of sel) ≡ true
careful-map c call_of sel h = every-map (λ call. meets c (caution call)) call_of sel h

jobs_bar-careful :
    (session : Option Session) (sel : TextSet) → careful (jobs_bar session sel) ≡ true
unfolding jobs_bar
jobs_bar-careful session sel =
    let retry : Control = button (txt "Retry") false (mutate true (map retry_job sel)) in
    let delete : Control = confirmed (txt "Delete") false none (mutate true (map delete_job sel)) in
    careful-bulk_bar (length sel) _ (
      careful-can session jobs_write _ (
        rw (
          careful-map retry retry_job sel (λ id. refl),
          careful-map delete delete_job sel (λ id. refl),
        )))

dlq_bar-careful : (session : Option Session) (sel : TextSet) → careful (dlq_bar session sel) ≡ true
unfolding dlq_bar
dlq_bar-careful session sel =
    let retry : Control = button (txt "Retry selected") false (mutate true (map retry_dlq sel)) in
    let delete : Control =
      confirmed (txt "Delete selected") false none (mutate true (map delete_dlq sel)) in
    careful-bulk_bar (length sel) _ (
      every_append (λ c. every (λ call. meets c (caution call)) (calls_of c))
        (can session dlq_write (retry ∷ [])) (can session dlq_write (delete ∷ []))
        (careful-can session dlq_write (retry ∷ [])
          (rw (careful-map retry retry_dlq sel (λ id. refl))))
        (careful-can session dlq_write (delete ∷ [])
          (rw (careful-map delete delete_dlq sel (λ id. refl)))))

queue_actions-careful :
    (session : Option Session) (name : Text) (q : Option QueueSummary)
    → careful (queue_actions session name q) ≡ true
unfolding queue_actions
queue_actions-careful session name none = refl
queue_actions-careful session name (some q) =
    careful-can session queues_write _ (elim (Bool-cases (is_paused q.status)) [
      | inl e ↦ rw (e, text_eq_refl name)
      | inr e ↦ rw (e, text_eq_refl name)
    ])

-- Deleting and cancelling stand behind a dialog, purging a queue behind a dialog that asks for the
-- name of the queue, and purging the dead letter queue behind one that asks for "purge dlq": on every
-- page, for every session, selection and row.
pub controls_careful :
    (ctx : Context) (session : Option Session) (sel : TextSet) (name : Text)
    (q : Option QueueSummary) (j : Job) (rows : Option (List DlqItem)) (d : DlqItem)
    (delayed_job : DelayedJob) (row : QueueSummary)
    → (careful (jobs_bar session sel) ≡ true)
      × (careful (queue_actions session name q) ≡ true)
      × (careful (job_actions session j) ≡ true)
      × (careful (dlq_head session rows) ≡ true)
      × (careful (dlq_bar session sel) ≡ true)
      × (careful (dlq_row_actions session d) ≡ true)
      × (careful (delayed_actions ctx delayed_job).controls ≡ true)
      × (careful (retry_cell j).controls ≡ true)
      × (careful (queue_row_actions row ++ overview_row_actions row) ≡ true)
unfolding job_actions dlq_head dlq_row_actions delayed_actions retry_cell queue_row_actions
    overview_row_actions
controls_careful ctx session sel name q j rows d delayed_job row = (
  jobs_bar-careful session sel,
  queue_actions-careful session name q,
  careful-can session jobs_write _ refl,
  careful-can session dlq_write _ (rw (text_eq_refl (txt "purge dlq"))),
  dlq_bar-careful session sel,
  careful-can session dlq_write _ refl,
  refl,
  elim (Bool-cases (is_retryable j.status)) [ inl e ↦ rw e refl | inr e ↦ rw e refl ],
  elim (Bool-cases (is_paused row.status)) [ inl e ↦ rw e refl | inr e ↦ rw e refl ],
)
