-- ===== src/Console/Tables/Runs/Chosen.antt =====
-- job-tables.tsx and dlq.tsx: what is selected, from the boxes that were clicked.
use forgequeue.Common.{
  ℕ, ◌≡◌, refl, ap, sym, arith, Bool, false, not, Option, List, [], ◌∷◌, Text, text_eq, TextSet,
  has, IsDistinct, ltb, length, ◌&&◌, Number, Bool-cases, inl, inr, if◌then◌else◌,
}
use forgequeue.DataTable.Selection.{toggle_lem, select_page_lem}
use forgequeue.Console.{holds}
use forgequeue.Console.Bulk.{BulkAction, BulkPage, click_bulk, settle_bulk}
use forgequeue.Console.Tables.Runs.{
  BulkTable, Shows, TablePage, Event, rendered, tick, tick_page, sort_by, resize, back, on, clear,
  act, act_row, settle, is_offered, offers_row, ids_on_page, rows_on_page, show_step, page_step,
  table_step, table_run,
}

has-empty : (s : TextSet) (x : Text) → ltb 0 (length s) ≡ false → has s x ≡ false
unfolding has
has-empty [] x h = refl
has-empty (y ∷ s) x h = ground arith

module _ (T : BulkTable) where
  -- What the table shows after the events, the latest one first.
  abbrev pub shown_run : List (Event T) → Shows T → Shows T
  shown_run [] v = v
  shown_run (e ∷ es) v = show_step T e (shown_run es v)

  -- Which identifiers are chosen after an event, where the table shows the second argument: a box changes
  -- the rows that it stands for, and `Clear` and an action that is offered leave none.
  abbrev pub choose : Event T → Shows T → (Text → Bool) → Text → Bool
  choose (tick id) v f x =
      if has (ids_on_page T v) id then (if text_eq id x then not (f x) else f x) else f x
  choose (tick_page b) v f x = if has (ids_on_page T v) x then b else f x
  choose clear v f x = false
  choose (act action now) v f x =
      if T.in_bar action && holds v.ctx.session T.write then false else f x
  choose (act_row action id now) v f x = f x
  choose (settle action ids replies) v f x = f x
  choose (rendered ctx rows) v f x = f x
  choose (sort_by key) v f x = f x
  choose (resize n) v f x = f x
  choose back v f x = f x
  choose on v f x = f x

  abbrev pub chosen : List (Event T) → Shows T → (Text → Bool) → Text → Bool
  chosen [] v f = f
  chosen (e ∷ es) v f = choose e (shown_run es v) (chosen es v f)

  module _ (date_parse : Text → Number) (env_base : Option Text) (uri_error : Text) where
    -- The selection is the set of the chosen identifiers, each once.
    abbrev Implements : TextSet → (Text → Bool) → Type 0
    Implements s f = ((x : Text) → has s x ≡ f x) × IsDistinct s

    -- A click on an action, with what is chosen before it.
    act-Implements :
        (action : BulkAction) (now : ℕ) (v : Shows T) (p : BulkPage) (f : Text → Bool)
        → Implements p.sel f
        → Implements
            (page_step T date_parse env_base uri_error (act action now) v p).0.sel
            (choose (act action now) v f)
    unfolding page_step is_offered click_bulk has
    act-Implements action now v p f (h, d) =
        elim (Bool-cases (is_offered T action v.ctx.session p.sel)) [
          | inl e ↦ rw e (λ x. ground arith, tt)
          | inr e ↦
              let none_offered : (T.in_bar action
                    && ltb 0 (length p.sel)
                    && holds v.ctx.session T.write)
                  ≡ false =
                e in
              rw e (λ x. ground (arith, none_offered, h x, has-empty p.sel x), d)
        ]

    page_step-Implements :
        (e : Event T) (v : Shows T) (p : BulkPage) (f : Text → Bool)
        → Implements p.sel f
        → Implements (page_step T date_parse env_base uri_error e v p).0.sel (choose e v f)
    unfolding page_step settle_bulk has
    page_step-Implements (tick id) v p f (h, d) = elim (Bool-cases (has (ids_on_page T v) id)) [
      | inl e ↦
          rw e (λ x. ground (arith, (toggle_lem p.sel id x d).0, h x), (toggle_lem p.sel id id d).1)
      | inr e ↦ rw e (h, d)
    ]
    page_step-Implements (tick_page b) v p f (h, d) =
        let page = select_page_lem T.id_of b (rows_on_page T v) p.sel in
        (λ x. ground (arith, (page x d).0, h x), (page [] d).1)
    page_step-Implements clear v p f h = (λ x. refl, tt)
    page_step-Implements (act action now) v p f h = act-Implements action now v p f h
    page_step-Implements (act_row action id now) v p f h =
        elim (Bool-cases (offers_row T action id v)) [ inl e ↦ rw e h | inr e ↦ rw e h ]
    page_step-Implements (settle action ids replies) v p f h = h
    page_step-Implements (rendered ctx rows) v p f h = h
    page_step-Implements (sort_by key) v p f h = h
    page_step-Implements (resize n) v p f h = h
    page_step-Implements back v p f h = h
    page_step-Implements on v p f h = h

    pub table_run-shown :
        (es : List (Event T)) (p : TablePage T.Item)
        → (table_run T date_parse env_base uri_error es p).shown ≡ shown_run es p.shown
    unfolding table_run table_step
    table_run-shown [] p = refl
    table_run-shown (e ∷ es) p = ap (show_step T e) (table_run-shown es p)

    -- Where the selection has each identifier once, it has them once after any events, and it is the set
    -- that the clicks on the boxes choose, from what was selected before. The renderings between them, with
    -- other rows or another session, the sorting, the paging and the replies only decide which rows a
    -- click is about: a chosen row stays selected when it leaves the table, as by a filter of the page.
    pub table_run-Implements :
        (es : List (Event T)) (p : TablePage T.Item)
        → IsDistinct p.page.sel
        → let q = table_run T date_parse env_base uri_error es p in
          ((x : Text) → has q.page.sel x ≡ chosen es p.shown (has p.page.sel) x)
          × IsDistinct q.page.sel
    unfolding table_run table_step
    table_run-Implements [] p d = (λ x. refl, d)
    table_run-Implements (e ∷ es) p d =
        let q = table_run T date_parse env_base uri_error es p in
        rw (sym (table_run-shown es p)) (
          page_step-Implements e q.shown q.page (chosen es p.shown (has p.page.sel))
            (table_run-Implements es p d))
