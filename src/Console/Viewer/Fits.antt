-- ===== src/Console/Viewer/Fits.antt =====
-- web/src/components/json-viewer.tsx: the mounted nodes are those of the value.
use forgequeue.Common.{
  ℕ, suc, ◌≡◌, refl, sym, Bool, true, false, not, Option, none, some, List, [], ◌∷◌, Text, show_nat,
  text_eq, Bool-cases, Option-cases, inl, inr, arith, if◌then◌else◌,
}
use forgequeue.Types.{Json, array, object, Items, nil, cons, Members, end, member}
use forgequeue.Console.Viewer.Tree.{
  View, state_of, Views, nothing, child, find_view, expanded_of, mounted, render, node,
  render_items, render_members, press, change_view, value_under, item_of, member_of, is_obj,
}
use forgequeue.Console.Viewer.{
  Viewer, ViewerEvent, choose_raw, expand_all, press_node, new_value, viewer_step, viewer_run,
  open_viewer,
}

-- The mounted nodes of a value: the node of an object or an array that is open has a child for each
-- entry, in order and under its key, and any other node has none.
unfoldable mutual
  pub Fits : Json → View → Type 0
  Fits (array xs) (state_of e cs) = if e then FitsItems 0 xs cs else (cs ≡ nothing)
  Fits (object fs) (state_of e cs) = if e then FitsMembers fs cs else (cs ≡ nothing)
  Fits _ (state_of e cs) = cs ≡ nothing

  pub FitsItems : ℕ → Items → Views → Type 0
  FitsItems i nil cs = cs ≡ nothing
  FitsItems i (cons x xs) nothing = ⊥
  FitsItems i (cons x xs) (child k w cs) = (k ≡ show_nat i) × Fits x w × FitsItems (suc i) xs cs

  pub FitsMembers : Members → Views → Type 0
  FitsMembers end cs = cs ≡ nothing
  FitsMembers (member f v fs) nothing = ⊥
  FitsMembers (member f v fs) (child k w cs) = (k ≡ f) × Fits v w × FitsMembers fs cs

kept :
    (P : Views → Type 0) (cs : Views) (e : Bool)
    → P cs
    → (if e then P (if e then cs else nothing) else ((if e then cs else nothing) ≡ nothing))
kept P cs true h = h
kept P cs false h = refl

kept_nothing : (e : Bool) → (if e then nothing else nothing) ≡ nothing
kept_nothing true = refl
kept_nothing false = refl

mutual
  unfolding Fits render node

  render-Fits :
      (opened : Bool) (depth : ℕ) (v : Json) (old : Option View)
      → Fits v (render opened depth v old)
  render-Fits opened depth (array xs) old =
      let e = expanded_of opened depth old in
      kept (λ cs. FitsItems 0 xs cs) (render_items opened (suc depth) 0 xs (mounted old)) e
        (render_items-Fits opened (suc depth) 0 xs (mounted old))
  render-Fits opened depth (object fs) old =
      let e = expanded_of opened depth old in
      kept (λ cs. FitsMembers fs cs) (render_members opened (suc depth) fs (mounted old)) e
        (render_members-Fits opened (suc depth) fs (mounted old))
  render-Fits opened depth _ old = kept_nothing (expanded_of opened depth old)

  render_items-Fits :
      (opened : Bool) (depth i : ℕ) (xs : Items) (old : Views)
      → FitsItems i xs (render_items opened depth i xs old)
  render_items-Fits opened depth i nil old = refl
  render_items-Fits opened depth i (cons x xs) old = (
    refl,
    render-Fits opened depth x (find_view (show_nat i) old),
    render_items-Fits opened depth (suc i) xs old,
  )

  render_members-Fits :
      (opened : Bool) (depth : ℕ) (fs : Members) (old : Views)
      → FitsMembers fs (render_members opened depth fs old)
  render_members-Fits opened depth end old = refl
  render_members-Fits opened depth (member k v fs) old =
      (refl, render-Fits opened depth v (find_view k old), render_members-Fits opened depth fs old)

change_items-Fits :
    (key : Text) (f : View → View) (i : ℕ) (ys : Items) (x : Json) (cs : Views)
    → item_of key i ys ≡ some x
    → ((w : View) → Fits x w → Fits x (f w))
    → FitsItems i ys cs
    → FitsItems i ys (change_view key f cs)
unfolding Fits item_of change_view
change_items-Fits key f i (cons y ys) x (child k w cs) e g (here, fits, rest) =
    elim (Bool-cases (text_eq (show_nat i) key)) [
      | inl is ↦
          let same : y ≡ x = ground arith in
          rw (here, is) (refl, rw same (g w (rw (sym same) fits)), rest)
      | inr other ↦
          let later : item_of key (suc i) ys ≡ some x = ground arith in
          rw (here, other) (refl, fits, change_items-Fits key f (suc i) ys x cs later g rest)
    ]
change_items-Fits key f i (cons y ys) x nothing e g h = absurd h
change_items-Fits key f i nil x cs e g h = cc

change_members-Fits :
    (key : Text) (f : View → View) (ys : Members) (x : Json) (cs : Views)
    → member_of key ys ≡ some x
    → ((w : View) → Fits x w → Fits x (f w))
    → FitsMembers ys cs
    → FitsMembers ys (change_view key f cs)
unfolding Fits member_of change_view
change_members-Fits key f (member m y ys) x (child k w cs) e g (here, fits, rest) =
    elim (Bool-cases (text_eq m key)) [
      | inl is ↦
          let same : y ≡ x = ground arith in
          rw (here, is) (refl, rw same (g w (rw (sym same) fits)), rest)
      | inr other ↦
          let later : member_of key ys ≡ some x = ground arith in
          rw (here, other) (refl, fits, change_members-Fits key f ys x cs later g rest)
    ]
change_members-Fits key f (member m y ys) x nothing e g h = absurd h
change_members-Fits key f end x cs e g h = cc

change_view-Fits :
    (key : Text) (f : View → View) (v x : Json) (e : Bool) (cs : Views)
    → value_under key v ≡ some x
    → ((w : View) → Fits x w → Fits x (f w))
    → Fits v (state_of e cs)
    → Fits v (state_of e (change_view key f cs))
unfolding Fits value_under change_view
change_view-Fits key f (array xs) x true cs n g h = change_items-Fits key f 0 xs x cs n g h
change_view-Fits key f (array xs) x false cs n g h = rw h refl
change_view-Fits key f (object fs) x true cs n g h = change_members-Fits key f fs x cs n g h
change_view-Fits key f (object fs) x false cs n g h = rw h refl
change_view-Fits key f _ x e cs n g h = rw h refl

press-Fits :
    (opened : Bool) (depth : ℕ) (v : Json) (path : List Text) (w : View)
    → Fits v w
    → Fits v (press opened depth v path w)
unfolding press is_obj
press-Fits opened depth (array xs) [] (state_of e cs) h =
    render-Fits opened depth (array xs) (some (state_of (not e) cs))
press-Fits opened depth (object fs) [] (state_of e cs) h =
    render-Fits opened depth (object fs) (some (state_of (not e) cs))
press-Fits opened depth v [] (state_of e cs) h = h
press-Fits opened depth v (k ∷ path) (state_of e cs) h = elim (Option-cases (value_under k v)) [
  | inl n ↦ rw (press, n) h
  | inr (x, n) ↦
      let f = press opened (suc depth) x path in
      rw (press, n)
        (change_view-Fits k f v x e cs n (λ w. press-Fits opened (suc depth) x path w) h)
]

-- The tree is mounted when the raw text is not shown, and its nodes are then those of the value.
pub record IsWhole (s : Viewer) : Type 0 where
  pub unmounted : s.raw ≡ elim s.tree [ none ↦ true | some w ↦ false ]
  pub fitting : (w : View) → s.tree ≡ some w → Fits s.value w

IsWhole-some :
    (a : Bool) (v : Json) (w : View)
    → Fits v w
    → IsWhole (record { raw = false; all_open = a; value = v; tree = some w })
IsWhole-some a v w h = record { unmounted = refl; fitting = λ u e. ground arith }

IsWhole-none :
    (a : Bool) (v : Json) → IsWhole (record { raw = true; all_open = a; value = v; tree = none })
IsWhole-none a v = record { unmounted = refl; fitting = λ u e. ground arith }

viewer_step-IsWhole : (e : ViewerEvent) (s : Viewer) → IsWhole s → IsWhole (viewer_step e s)
unfolding viewer_step
viewer_step-IsWhole (choose_raw true) s h = IsWhole-none s.all_open s.value
viewer_step-IsWhole (choose_raw false) s h =
    ground (arith, h.fitting, render-Fits s.all_open 0 s.value none)
viewer_step-IsWhole expand_all s h =
    ground (arith, h.fitting, render-Fits (not s.all_open) 0 s.value none)
viewer_step-IsWhole (press_node path) s h = elim (Option-cases s.tree) [
  | inl n ↦ ground (arith, h.fitting)
  | inr (w, m) ↦ ground (arith, press-Fits s.all_open 0 s.value path w (h.fitting w m))
]
viewer_step-IsWhole (new_value v) s h = elim (Option-cases s.tree) [
  | inl n ↦ ground arith
  | inr (w, m) ↦ ground (arith, render-Fits s.all_open 0 v (some w))
]

run_keeps : (es : List ViewerEvent) (s : Viewer) → IsWhole s → IsWhole (viewer_run es s)
unfolding viewer_run
run_keeps [] s h = h
run_keeps (e ∷ es) s h = run_keeps es (viewer_step e s) (viewer_step-IsWhole e s h)

-- Whatever clicks and whatever new values come, in any order, the viewer shows either the text, with
-- no tree mounted, or a tree whose nodes are those of the value it has then: a node that is open has a
-- child for each entry, in order and under its key, and every other node has none.
pub viewer_run-IsWhole :
    (es : List ViewerEvent) (v : Json) → IsWhole (viewer_run es (open_viewer v))
unfolding open_viewer
viewer_run-IsWhole es v =
    run_keeps es (open_viewer v)
      (IsWhole-some false v (render false 0 v none) (render-Fits false 0 v none))
