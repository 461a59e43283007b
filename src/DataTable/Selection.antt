-- ===== src/DataTable/Selection.antt =====
-- data-table.tsx: the check boxes, over the set of selected identifiers.
pub mod Clicks
use forgequeue.Common.{
  ◌≡◌, refl, Bool, true, false, not, ◌&&◌, List, [], ◌∷◌, map, arith, Text, text_eq, text_eq_iff,
  text_eq_refl, ◌∙◌, TextSet, IsDistinct, has, add, delete, has-add, has-delete, add_unique,
  delete_unique, if◌then◌else◌, every, length, ltb, Bool-cases, inl, inr,
}
use forgequeue.DataTable.{toggle, select_page, all_on_page}

-- A click on a row's box flips that row and no other one, and the selection stays a set.
pub toggle_lem :
    (s : TextSet) (id x : Text)
    → IsDistinct s
    → (has (toggle s id) x ≡ (if text_eq id x then not (has s x) else has s x))
      × IsDistinct (toggle s id)
unfolding toggle
toggle_lem s id x u = elim (Bool-cases (has s id)) [
  | inl e ↦ rw e (ground (arith, has-delete s id x u, text_eq_iff id x), delete_unique s id u)
  | inr e ↦ rw e (ground (arith, has-add s id x, text_eq_iff id x), add_unique s id u)
]

-- Two clicks on the same box leave the same rows selected as before.
pub toggle-toggle :
    (s : TextSet) (id x : Text) → IsDistinct s → has (toggle (toggle s id) id) x ≡ has s x
toggle-toggle s id x u =
    let (h, u') = toggle_lem s id x u in ground (arith, h, (toggle_lem (toggle s id) id x u').0)

module _ {ℓ} {Row : Type ℓ} (get_id : Row → Text) where
  -- The box of the head adds the rows of the page to the selection, or takes them from it; every
  -- other identifier is as before, and the selection stays a set.
  pub select_page_lem :
      (v : Bool) (rows : List Row) (s : TextSet) (x : Text)
      → IsDistinct s
      → (has (select_page get_id v rows s) x ≡ (if has (map get_id rows) x then v else has s x))
        × IsDistinct (select_page get_id v rows s)
  unfolding select_page has
  select_page_lem v [] s x u = (refl, u)
  select_page_lem true (r ∷ rows) s x u =
      let u' = add_unique s (get_id r) u in
      let (h, d) = select_page_lem true rows (add s (get_id r)) x u' in
      (ground (arith, h, has-add s (get_id r) x), d)
  select_page_lem false (r ∷ rows) s x u =
      let u' = delete_unique s (get_id r) u in
      let (h, d) = select_page_lem false rows (delete s (get_id r)) x u' in
      (ground (arith, h, has-delete s (get_id r) x u), d)

  every-has :
      (rows : List Row) (s : TextSet)
      → ((x : Text) → has (map get_id rows) x ≡ true → has s x ≡ true)
      → every (λ r. has s (get_id r)) rows ≡ true
  unfolding has
  every-has [] s h = refl
  every-has (r ∷ rows) s h =
      let rest = every-has rows s (λ x e. h x (ground (arith, e))) in
      ground (arith, rest, h (get_id r), text_eq_refl (get_id r))

  has-get_id : (r : Row) (rows : List Row) → has (map get_id (r ∷ rows)) (get_id r) ≡ true
  unfolding has
  has-get_id r rows = ground (arith, text_eq_refl (get_id r))

  -- After a click on the head's box it shows what was clicked, if the page has a row; on an empty
  -- page it stays unchecked.
  pub all_on_page-select_page :
      (v : Bool) (rows : List Row) (s : TextSet)
      → IsDistinct s
      → all_on_page get_id rows (select_page get_id v rows s) ≡ (v && ltb 0 (length rows))
  unfolding all_on_page
  all_on_page-select_page v [] s u = ground arith
  all_on_page-select_page true (r ∷ rows) s u =
      let all =
        every-has (r ∷ rows) (select_page get_id true (r ∷ rows) s)
          (λ x e. (select_page_lem true (r ∷ rows) s x u).0 ∙ rw e) in
      ground (arith, all)
  all_on_page-select_page false (r ∷ rows) s u =
      let out = (select_page_lem false (r ∷ rows) s (get_id r) u).0 in
      ground (arith, out, has-get_id r rows)
