-- ===== src/Console/Viewer/Lines.antt =====
-- web/src/components/json-viewer.tsx: the tree with all nodes open, against the raw text.
use forgequeue.Common.{
  ℕ, suc, ◌+◌, ◌*◌, ◌≡◌, refl, ap, ◌⊎◌, inl, inr, Bool, true, false, ◌&&◌, Option, none, some, List,
  [], ◌∷◌, ◌++◌, Text, txt, show_nat, text_eq, text_eq_sound, join, arith,
}
use forgequeue.Types.{Json, array, object, Items, nil, cons, Members, end, member}
use forgequeue.Console.Viewer.Stringify.{
  compact, quote, spaces, comma_items, comma_members, pretty, pretty_lines, pretty_items,
  pretty_members,
}
use forgequeue.Console.Viewer.Tree.{nothing, node, render, render_items, render_members}
use forgequeue.Console.Viewer.Rows.{
  Row, RowCell, scalar, opening, closing, shut, node_rows, row_items, row_members,
}
use mathlib.Core.Path.{subst}
use mathlib.Core.List.{append-nil}
use forgequeue.Console.Viewer.{
  Viewer, expand_all, viewer_step, viewer_content, tree_rows, raw_text, choose_raw,
}

-- A row as a line of text, indented by 2 for each level.
abbrev key_text : Option Text → Text
key_text none = []
key_text (some k) = (b'"' ∷ k ++ txt "\"") ++ txt ": "

abbrev cell_text : RowCell → Text
cell_text (scalar t) = t
cell_text (opening t) = t
cell_text (closing t) = t
cell_text (shut t n u) = t ++ txt " " ++ show_nat n ++ txt " … " ++ u

abbrev pub line_of : Row → Text
line_of r = spaces (2 * r.depth) ++ key_text r.key ++ cell_text r.cell

-- The rows have the texts of the lines, but for the comma that may end a line.
pub data AreLines : List Row → List Text → Type 0 where
  no_lines : AreLines [] []
  line :
      (r : Row) (t : Text) (rs : List Row) (ts : List Text)
      → (t ≡ line_of r) ⊎ (t ≡ line_of r ++ txt ",")
      → AreLines rs ts
      → AreLines (r ∷ rs) (t ∷ ts)

unfoldable is_plain_key : Text → Bool
unfolding quote text_eq
is_plain_key k = text_eq (quote k) (b'"' ∷ k ++ txt "\"")

-- A value without empty arrays and objects, whose keys have no unit that a string escapes.
unfoldable mutual
  unfolding is_plain_key

  pub is_plain : Json → Bool
  is_plain (array nil) = false
  is_plain (array (cons x xs)) = is_plain x && are_plain_items xs
  is_plain (object end) = false
  is_plain (object (member k v fs)) = is_plain_key k && is_plain v && are_plain_members fs
  is_plain _ = true

  pub are_plain_items : Items → Bool
  are_plain_items nil = true
  are_plain_items (cons x xs) = is_plain x && are_plain_items xs

  pub are_plain_members : Members → Bool
  are_plain_members end = true
  are_plain_members (member k v fs) = is_plain_key k && is_plain v && are_plain_members fs

-- What may stand after a value in its last line.
abbrev IsEnd : Text → Type 0
IsEnd after = (after ≡ []) ⊎ (after ≡ txt ",")

AreLines-append :
    (rs qs : List Row) (ts us : List Text)
    → AreLines rs ts
    → AreLines qs us
    → AreLines (rs ++ qs) (ts ++ us)
AreLines-append _ qs _ us no_lines k = k
AreLines-append _ qs _ us (line r t rs ts e h) k =
    line r t (rs ++ qs) (ts ++ us) e (AreLines-append rs qs ts us h k)

last_line :
    (indent before middle after : Text)
    → IsEnd after
    → (indent ++ before ++ middle ++ after ≡ indent ++ before ++ middle)
      ⊎ (indent ++ before ++ middle ++ after ≡ (indent ++ before ++ middle) ++ txt ",")
last_line indent before middle after (inl e) =
    inl (rw (e, append-nil (indent ++ before ++ middle)) refl)
last_line indent before middle after (inr e) = inr (rw e refl)

end_row :
    (depth indent : ℕ) (key : Option Text) (c : RowCell) (before after : Text)
    → indent ≡ 2 * depth
    → before ≡ key_text key
    → IsEnd after
    → AreLines
        (record { depth = depth; key = key; cell = c } ∷ [])
        ((spaces indent ++ before ++ cell_text c ++ after) ∷ [])
end_row depth indent key c before after i b a =
    rw (i, b)
      (line _ _ [] [] (last_line (spaces (2 * depth)) (key_text key) (cell_text c) after a)
        no_lines)

closing_row :
    (depth indent : ℕ) (c after : Text)
    → indent ≡ 2 * depth
    → IsEnd after
    → AreLines
        (record { depth = depth; key = none; cell = closing c } ∷ [])
        ((spaces indent ++ c ++ after) ∷ [])
closing_row depth indent c after i a =
    subst
      (λ t.
        AreLines (record { depth = depth; key = none; cell = closing c } ∷ [])
          ((t ++ c ++ after) ∷ []))
      (append-nil (spaces indent)) (end_row depth indent none (closing c) [] after i refl a)

-- The rows of a node that is open.
block :
    (depth indent : ℕ) (key : Option Text) (o c before after : Text) (rs : List Row)
    (ts : List Text)
    → indent ≡ 2 * depth
    → before ≡ key_text key
    → IsEnd after
    → AreLines rs ts
    → AreLines
        (record { depth = depth; key = key; cell = opening o } ∷ rs
          ++ (record { depth = depth; key = none; cell = closing c } ∷ []))
        ((spaces indent ++ before ++ o) ∷ ts ++ ((spaces indent ++ c ++ after) ∷ []))
block depth indent key o c before after rs ts i b a h =
    line _ _ _ _ (inl (rw (i, b) refl))
      (AreLines-append rs _ ts _ h (closing_row depth indent c after i a))

comma_items-IsEnd : (xs : Items) → IsEnd (comma_items xs)
comma_items-IsEnd nil = inl refl
comma_items-IsEnd (cons x xs) = inr refl

comma_members-IsEnd : (fs : Members) → IsEnd (comma_members fs)
comma_members-IsEnd end = inl refl
comma_members-IsEnd (member k v fs) = inr refl

key_line : (k : Text) → is_plain_key k ≡ true → quote k ++ txt ": " ≡ key_text (some k)
unfolding is_plain_key
key_line k h = ap (λ t. t ++ txt ": ") (text_eq_sound (quote k) (b'"' ∷ k ++ txt "\"") h)

mutual
  unfolding node_rows render node pretty_lines is_plain spaces

  expanded-AreLines :
      (depth indent : ℕ) (key : Option Text) (v : Json) (before after : Text)
      → indent ≡ 2 * depth
      → before ≡ key_text key
      → IsEnd after
      → is_plain v ≡ true
      → AreLines
          (node_rows depth key v (render true depth v none))
          (pretty_lines indent before v after)
  expanded-AreLines depth indent key (array nil) before after i b a p = absurd (cc)
  expanded-AreLines depth indent key (object end) before after i b a p = absurd (cc)
  expanded-AreLines depth indent key (array (cons x xs)) before after i b a p =
      block depth indent key (txt "[") (txt "]") before after _ _ i b a
        (expanded_items-AreLines (suc depth) (indent + 2) 0 (cons x xs) (omega arith) p)
  expanded-AreLines depth indent key (object (member k v fs)) before after i b a p =
      block depth indent key (txt "{") (txt "}") before after _ _ i b a
        (expanded_members-AreLines (suc depth) (indent + 2) (member k v fs) (omega arith) p)
  expanded-AreLines depth indent key v before after i b a p =
      end_row depth indent key (scalar (compact v)) before after i b a

  expanded_items-AreLines :
      (depth indent i : ℕ) (xs : Items)
      → indent ≡ 2 * depth
      → are_plain_items xs ≡ true
      → AreLines
          (row_items depth xs (render_items true depth i xs nothing))
          (pretty_items indent xs)
  expanded_items-AreLines depth indent i nil d p = no_lines
  expanded_items-AreLines depth indent i (cons x xs) d p =
      AreLines-append (node_rows depth none x (render true depth x none))
        (row_items depth xs (render_items true depth (suc i) xs nothing))
        (pretty_lines indent [] x (comma_items xs)) (pretty_items indent xs)
        (expanded-AreLines depth indent none x [] (comma_items xs) d refl (comma_items-IsEnd xs)
          (ground arith))
        (expanded_items-AreLines depth indent (suc i) xs d (ground arith))

  expanded_members-AreLines :
      (depth indent : ℕ) (fs : Members)
      → indent ≡ 2 * depth
      → are_plain_members fs ≡ true
      → AreLines
          (row_members depth fs (render_members true depth fs nothing))
          (pretty_members indent fs)
  expanded_members-AreLines depth indent end d p = no_lines
  expanded_members-AreLines depth indent (member k v fs) d p =
      AreLines-append (node_rows depth (some k) v (render true depth v none))
        (row_members depth fs (render_members true depth fs nothing))
        (pretty_lines indent (quote k ++ txt ": ") v (comma_members fs)) (pretty_members indent fs)
        (expanded-AreLines depth indent (some k) v (quote k ++ txt ": ") (comma_members fs) d
          (key_line k (ground arith)) (comma_members-IsEnd fs) (ground arith))
        (expanded_members-AreLines depth indent fs d (ground arith))

-- After `Expand all`, when no empty array or object is in the value and its keys have nothing that a
-- string escapes, the rows of the tree are the lines of the raw text, one by one, with the same
-- brackets, keys, values and indentation, but for the commas.
pub expand_all-AreLines :
    (s : Viewer)
    → s.raw ≡ false
    → s.all_open ≡ false
    → is_plain s.value ≡ true
    → (rs : List Row) × (viewer_content (viewer_step expand_all s) ≡ tree_rows rs)
      × (viewer_content (viewer_step (choose_raw true) s)
          ≡ raw_text (join (pretty_lines 0 [] s.value []) (b'\n' ∷ [])))
      × AreLines rs (pretty_lines 0 [] s.value [])
unfolding viewer_content viewer_step pretty
expand_all-AreLines s r o p = (
  node_rows 0 none s.value (render true 0 s.value none),
  ground arith,
  refl,
  expanded-AreLines 0 0 none s.value [] [] refl refl (inl refl) p,
)
