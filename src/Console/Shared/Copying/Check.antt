-- ===== src/Console/Shared/Copying/Check.antt =====
-- shared.tsx, `CopyButton`: how long its check mark stays.
use forgequeue.Common.{
  ℕ, ◌+◌, ◌≤◌, ◌<◌, ◌≡◌, refl, arith, Bool, true, false, not, List, [], ◌∷◌, filter_by, any, leb,
  every,
}
use forgequeue.Console.Shared.Copying.{
  CopyButton, CopyEvent, written, refused, elapsed, fresh_button, copied, run_timers, copy_step,
  copy_run,
}

-- No write of the clipboard settles after the moment.
abbrev pub is_by : ℕ → CopyEvent → Bool
is_by t (written now) = leb now t
is_by t (refused now) = true
is_by t (elapsed now) = true

-- A check mark has a timer to come, and every timer is due by the moment.
abbrev pub IsTimed : ℕ → CopyButton → Type 0
IsTimed due b =
    (every (λ t. leb t due) b.timers ≡ true)
    × (b.done ≡ true → any (λ t. leb t due) b.timers ≡ true)

every-filter_by :
    (now due : ℕ) (timers : List ℕ)
    → every (λ t. leb t due) timers ≡ true
    → every (λ t. leb t due) (filter_by (λ t. not (leb t now)) timers) ≡ true
every-filter_by now due [] h = refl
every-filter_by now due (t ∷ timers) h =
    let rest = every-filter_by now due timers in ground (arith, rest, h)

filter_by_due :
    (due now : ℕ) (timers : List ℕ)
    → due ≤ now
    → every (λ t. leb t due) timers ≡ true
    → filter_by (λ t. not (leb t now)) timers ≡ []
filter_by_due due now [] le h = refl
filter_by_due due now (t ∷ timers) le h =
    let rest = filter_by_due due now timers le in ground (arith, rest, h, le)

any_due_later :
    (due now : ℕ) (timers : List ℕ)
    → due ≤ now
    → any (λ t. leb t due) timers ≡ true
    → any (λ t. leb t now) timers ≡ true
any_due_later due now [] le h = h
any_due_later due now (t ∷ timers) le h =
    let rest = any_due_later due now timers le in ground (arith, rest, h, le)

any-filter_by :
    (now due : ℕ) (timers : List ℕ)
    → any (λ t. leb t due) timers ≡ true
    → any (λ t. leb t now) timers ≡ false
    → any (λ t. leb t due) (filter_by (λ t. not (leb t now)) timers) ≡ true
any-filter_by now due [] h e = h
any-filter_by now due (t ∷ timers) h e =
    let rest = any-filter_by now due timers in ground (arith, rest, h, e)

copy_step-IsTimed :
    (t : ℕ) (e : CopyEvent) (b : CopyButton)
    → is_by t e ≡ true
    → IsTimed (t + 1200) b
    → IsTimed (t + 1200) (copy_step e b)
unfolding copy_step copied run_timers
copy_step-IsTimed t (written now) b h (all, some_due) =
    (ground (arith, all, h), λ e. ground (arith, h))
copy_step-IsTimed t (refused now) b h timed = timed
copy_step-IsTimed t (elapsed now) b h (all, some_due) = (
  every-filter_by now (t + 1200) b.timers all,
  λ e. any-filter_by now (t + 1200) b.timers (some_due (ground (arith, e))) (ground (arith, e)),
)

copy_run-IsTimed :
    (t : ℕ) (events : List CopyEvent) (b : CopyButton)
    → every (is_by t) events ≡ true
    → IsTimed (t + 1200) b
    → IsTimed (t + 1200) (copy_run events b)
unfolding copy_run
copy_run-IsTimed t [] b h timed = timed
copy_run-IsTimed t (e ∷ events) b h timed =
    copy_run-IsTimed t events (copy_step e b) (ground (arith, h))
      (copy_step-IsTimed t e b (ground (arith, h)) timed)

-- Whatever is copied, in whatever order and however often, 1200 ms after the last copy the button shows
-- no check mark and has no timer; a copy on a button without timers shows it for all of that time.
pub copy_run-elapsed :
    (events : List CopyEvent) (b : CopyButton) (t later now at : ℕ)
    → every (is_by t) events ≡ true
    → t + 1200 ≤ later
    → b.timers ≡ []
    → at < now + 1200
    → (copy_step (elapsed later) (copy_run events fresh_button)).done ≡ false
      × (copy_step (elapsed later) (copy_run events fresh_button)).timers ≡ []
      × (copy_step (elapsed at) (copy_step (written now) b)).done ≡ true
unfolding copy_step copied run_timers
copy_run-elapsed events b t later now at h le idle lt =
    let (all, some_due) =
      copy_run-IsTimed t events fresh_button h (refl, λ e. absurd (ground (arith, e))) in
    let due = any_due_later (t + 1200) later (copy_run events fresh_button).timers le in
    (
      ground (arith, some_due, due),
      filter_by_due (t + 1200) later (copy_run events fresh_button).timers le all,
      rw idle (ground (arith, lt)),
    )
