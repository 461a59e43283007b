-- ===== src/Console/Confirm.antt =====
-- web/src/components/confirm-dialog.tsx: the dialog, its text field and its confirm button.
use forgequeue.Common.{
  ◌≡◌, ◌≢◌, sym, ap, ◌∙◌, ◌⊎◌, ◌||◌, Bool, true, false, not, ◌&&◌, Option, none, some, List, [],
  ◌∷◌, Text, is_empty, text_eq, text_eq_iff, arith, if◌then◌else◌, Bool-cases, inl, inr,
}

-- `confirms` counts the calls of `onConfirm`.
pub record Dialog : Type 0 where
  pub is_open : Bool
  pub typed : Text

pub data DialogEvent : Type 0 where
  open_change : Bool → DialogEvent
  type_text : Text → DialogEvent
  press_confirm : DialogEvent

unfoldable pub closed_dialog : Dialog
closed_dialog = record { is_open = false; typed = [] }

-- `!!typeToConfirm && typed !== typeToConfirm`
unfoldable pub is_blocked : Option Text → Text → Bool
is_blocked none typed = false
is_blocked (some required) typed = not (is_empty required) && not (text_eq typed required)

-- The dialog after an event, and whether `onConfirm` is called. Opening and closing both empty the
-- field; the confirm button closes the dialog, as the dialog's action does, and does nothing while
-- it is disabled. In a closed dialog there is no field and no button.
unfoldable pub dialog_step : Option Text → Dialog → DialogEvent → Dialog × Bool
dialog_step required d (open_change v) = (record { is_open = v; typed = [] }, false)
dialog_step required d (type_text t) = (if d.is_open then record d { typed = t } else d, false)
dialog_step required d press_confirm =
    if d.is_open && not (is_blocked required d.typed)
    then (record { is_open = false; typed = [] }, true)
    else (d, false)

unfoldable pub dialog_run : Option Text → Dialog → List DialogEvent → Dialog
dialog_run required d [] = d
dialog_run required d (e ∷ events) = dialog_run required (dialog_step required d e).0 events

-- Whether a text was typed in the course of the events.
abbrev pub was_typed : Text → List DialogEvent → Bool
was_typed t [] = false
was_typed t (type_text u ∷ events) = text_eq u t || was_typed t events
was_typed t (open_change v ∷ events) = was_typed t events
was_typed t (press_confirm ∷ events) = was_typed t events

false_ne_true : ◌≢◌ {A = Bool} false true
false_ne_true h = cc

module _ (required : Text) (asked : is_empty required ≡ false) where
  not_empty : text_eq [] required ≡ false
  not_empty = elim (Bool-cases (text_eq [] required)) [
    | inl e ↦ absurd (false_ne_true (sym asked ∙ ap is_empty (sym ((text_eq_iff [] required).0 e))))
    | inr e ↦ e
  ]

  -- What stands in the field at the end stood there before or was typed.
  typed_before :
      (events : List DialogEvent) (d : Dialog)
      → text_eq (dialog_run (some required) d events).typed required ≡ true
      → (text_eq d.typed required ≡ true) ⊎ (was_typed required events ≡ true)
  unfolding dialog_run dialog_step
  typed_before [] d h = inl h
  typed_before (open_change v ∷ events) d h =
      ground (arith, typed_before events (record { is_open = v; typed = [] }), not_empty)
  typed_before (type_text t ∷ events) d h =
      ground (arith, typed_before events (if d.is_open then record d { typed = t } else d))
  typed_before (press_confirm ∷ events) d h =
      elim (Bool-cases (d.is_open && not (is_blocked (some required) d.typed))) [
        | inl e ↦
            ground (arith, typed_before events (record { is_open = false; typed = [] }), not_empty)
        | inr e ↦ ground (arith, typed_before events d)
      ]

  -- A dialog that was opened or closed, and what happened to it since.
  abbrev pub since : Dialog → Bool → List DialogEvent → Dialog
  since d v events =
      dialog_run (some required) (dialog_step (some required) d (open_change v)).0 events

  -- Where a dialog asks for a text that is not empty, the action is called only with exactly that
  -- text in the field of the open dialog, and the dialog closes with it; and the text has been typed
  -- since the dialog was last opened or closed, whatever else happened in between.
  pub confirm_needs_text :
      (d : Dialog) (v : Bool) (events : List DialogEvent)
      → (dialog_step (some required) (since d v events) press_confirm).1 ≡ true
      → ((since d v events).is_open ≡ true)
        × ((since d v events).typed ≡ required)
        × ((dialog_step (some required) (since d v events) press_confirm).0 ≡ closed_dialog)
        × (was_typed required events ≡ true)
  unfolding dialog_step is_blocked closed_dialog
  confirm_needs_text d v events h =
      let opened : Dialog = record { is_open = v; typed = [] } in
      let e = dialog_run (some required) opened events in
      let same : text_eq e.typed required ≡ true = ground arith in
      (
        ground arith,
        (text_eq_iff e.typed required).0 same,
        ground arith,
        ground (arith, typed_before events opened same, not_empty),
      )
