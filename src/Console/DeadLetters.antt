-- ===== src/Console/DeadLetters.antt =====
-- web/src/routes/dlq.tsx: the table of the dead letter queue.
use forgequeue.Common.{true, false, none, some, List, [], ◌∷◌, txt, show_nat, num, num_neg}
use forgequeue.Types.{DlqItem}
use forgequeue.DataTable.{Column, by_text, by_number, Sort, desc}
use forgequeue.Format.{fmt_duration}
use forgequeue.Console.{Cell, plain, Context, column}
use forgequeue.Console.Tables.{job_id_cell, age}
use forgequeue.Console.Pages.{dlq_row_actions}

-- The columns of the page; the last one shows its controls to a session that may write.
unfoldable pub dlq_columns : Context → List (Column DlqItem Cell)
dlq_columns ctx =
    column (txt "id") (txt "Job ID") (λ d. job_id_cell d.job_id) none false
    ∷ column (txt "q") (txt "Original queue") (λ d. plain d.original_queue)
        (some (by_text (λ d. d.original_queue))) false
    ∷ column (txt "t") (txt "Task") (λ d. plain d.task) (some (by_text (λ d. d.task))) false
    ∷ column (txt "a") (txt "Attempts") (λ d. plain (show_nat d.attempts))
        (some (by_number (λ d. num d.attempts))) true
    ∷ column (txt "e") (txt "Last error") (λ d. plain d.last_error) none false
    ∷ column (txt "f") (txt "Failed at") (λ d. plain (ctx.time_ago (some d.failed_at)))
        (some (by_text (λ d. d.failed_at))) false
    ∷ column (txt "age") (txt "Age") (λ d. plain (fmt_duration (some (age ctx d.failed_at))))
        (some (by_number (λ d. num_neg (ctx.date_parse d.failed_at)))) true
    ∷ column (txt "act") (txt "Actions")
        (λ d. record { shows = []; controls = dlq_row_actions ctx.session d }) none true
    ∷ []

-- the `defaultSort` of the table
abbrev pub dlq_default_sort : Sort
dlq_default_sort = record { key = txt "f"; dir = desc }
