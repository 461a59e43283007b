-- ===== src/Console/Tables/Views/Page.antt =====
-- job-tables.tsx: a bulk action over all jobs of a page.
use mathlib.Core.Path.{subst}
use mathlib.Core.List.{append-nil, append_assoc}
use forgequeue.Common.{
  ◌≡◌, ◌∙◌, refl, ap, sym, arith, Bool, true, false, Option, List, [], ◌∷◌, ◌++◌, map, Text,
  TextSet, text_eq_iff, has, has-append, add, IsDistinct, Number, ℕ,
}
use forgequeue.Types.{Job}
use forgequeue.DataTable.{Table, select_page}
use forgequeue.Client.{get_api_base, headers}
use forgequeue.Console.{Context}
use forgequeue.Console.Bulk.{BulkAction, BulkPage, click_bulk}
use forgequeue.Console.Bulk.Sent.{Encodes, job_request, click_bulk-sent}
use forgequeue.Console.Tables.Views.{shown_jobs, check_page}

-- In a list without repetitions nothing stands twice.
distinct_before : (s rest : TextSet) (x : Text) → IsDistinct (s ++ x ∷ rest) → has s x ≡ false
unfolding has
distinct_before [] rest x u = refl
distinct_before (z ∷ s) rest x u = ground (
  arith,
  distinct_before s rest x u.1,
  u.0,
  has-append s (x ∷ rest) z,
  text_eq_iff x z,
  text_eq_iff z x,
)

add_new : (s : TextSet) (x : Text) → has s x ≡ false → add s x ≡ s ++ x ∷ []
unfolding add
add_new s x h = rw h refl

select_page-append {ℓ} :
    {Row : Type ℓ} (get_id : Row → Text) (rows : List Row) (s : TextSet)
    → IsDistinct (s ++ map get_id rows)
    → select_page get_id true rows s ≡ s ++ map get_id rows
unfolding select_page
select_page-append get_id [] s u = sym (append-nil s)
select_page-append get_id (r ∷ rows) s u =
    let x = get_id r in
    let moved = append_assoc s (x ∷ []) (map get_id rows) in
    rw (add_new s x (distinct_before s (map get_id rows) x u))
      (select_page-append get_id rows (s ++ x ∷ []) (subst IsDistinct (sym moved) u) ∙ moved)

-- The identifiers of the jobs of the page.
abbrev pub page_ids : Context → Bool → List Job → Table → List Text
page_ids ctx show_queue jobs t = map (λ (j : Job). j.id) (shown_jobs ctx show_queue jobs t)

module _ (date_parse : Text → Number) (env_base : Option Text) where
  -- Where the jobs of the page that is shown have different identifiers, with encodings, and nothing is
  -- selected: a click on the box of the head and then on an action sends exactly one request of that action
  -- for each job of the page, in the order in which the page shows them, to the same base with the same
  -- headers; nothing is selected afterwards.
  pub click_bulk-check_page :
      (uri_error : Text) (now : ℕ) (action : BulkAction) (ctx : Context) (show_queue : Bool)
      (jobs : List Job) (t : Table) (p : BulkPage) (es : List Text)
      → p.sel ≡ []
      → IsDistinct (page_ids ctx show_queue jobs t)
      → Encodes (page_ids ctx show_queue jobs t) es
      → let (q, whole) =
          click_bulk date_parse env_base uri_error now action
            (check_page ctx show_queue jobs t true p) in
        (q.sent
          ≡ map
              (job_request action
                (get_api_base date_parse env_base p.world.prefs).1
                (headers date_parse env_base now p.world.auth).1)
              es)
        × (q.sel ≡ [])
        × (q.effects ≡ p.effects)
        × (whole ≡ true)
  unfolding check_page
  click_bulk-check_page uri_error now action ctx show_queue jobs t p es none_selected u h =
      let page = shown_jobs ctx show_queue jobs t in
      let checked = check_page ctx show_queue jobs t true p in
      let ids : checked.sel ≡ page_ids ctx show_queue jobs t =
        ap (select_page (λ (j : Job). j.id) true page) none_selected
        ∙ select_page-append (λ (j : Job). j.id) page [] u in
      click_bulk-sent date_parse env_base uri_error now action checked es
        (subst (λ s. Encodes s es) (sym ids) h)
