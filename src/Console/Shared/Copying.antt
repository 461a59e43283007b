-- ===== src/Console/Shared/Copying.antt =====
-- web/src/components/shared.tsx: `CopyButton`, its check mark and the timers that take it away.
-- The clipboard is the browser's: it has written a text or has refused it when it settles.
pub mod Check
use forgequeue.Common.{
  ℕ, ◌+◌, Bool, true, false, not, ◌&&◌, ◌||◌, List, [], ◌∷◌, filter_by, any, leb, if◌then◌else◌,
}

pub record CopyButton : Type 0 where
  pub done : Bool
  -- when each `setTimeout` that has not run yet is due
  pub timers : List ℕ
  -- "Copied to clipboard", as often
  pub toasts : ℕ

-- What happens to the button: a write of the clipboard settles, or time has passed up to a moment.
pub data CopyEvent : Type 0 where
  written refused elapsed : ℕ → CopyEvent

abbrev pub fresh_button : CopyButton
fresh_button = record { done = false; timers = []; toasts = 0 }

-- `.then(() => ...)`; a refusal is not handled.
unfoldable pub copied : ℕ → CopyButton → CopyButton
copied now b = record { done = true; timers = (now + 1200) ∷ b.timers; toasts = b.toasts + 1 }

-- Each timer that is due runs `setDone(false)`, once.
unfoldable pub run_timers : ℕ → CopyButton → CopyButton
run_timers now b = record b {
  done = b.done && not (any (λ t. leb t now) b.timers);
  timers = filter_by (λ t. not (leb t now)) b.timers;
}

unfoldable pub copy_step : CopyEvent → CopyButton → CopyButton
copy_step (written now) b = copied now b
copy_step (refused now) b = b
copy_step (elapsed now) b = run_timers now b

unfoldable pub copy_run : List CopyEvent → CopyButton → CopyButton
copy_run [] b = b
copy_run (e ∷ events) b = copy_run events (copy_step e b)
