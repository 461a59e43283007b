-- ===== src/Console/Shared.antt =====
-- web/src/components/shared.tsx: the small components that the pages share, by what they show.
pub mod Copying
use forgequeue.Common.{
  ℕ, Bool, false, not, Option, none, some, [], ◌∷◌, ◌++◌, filter_by, Text, txt, is_empty, join,
  if◌then◌else◌,
}
use forgequeue.Types.{
  JobStatus, pending, processing, completed, failed, retrying, delayed, dlq, cancelled, QueueStatus,
  WorkerStatus, JobError,
}
use forgequeue.Stores.{Prefs}
use forgequeue.Console.{Cell, plain, Context}

-- Whether an optional text is truthy.
abbrev pub is_there : Option Text → Bool
is_there none = false
is_there (some t) = not (is_empty t)

pub data Tone : Type 0 where
  neutral info success warning danger : Tone

-- `STATUS_TONE`, for the statuses of jobs, queues and workers.
unfoldable pub job_tone : JobStatus → Tone
job_tone pending = neutral
job_tone processing = info
job_tone completed = success
job_tone failed = danger
job_tone retrying = warning
job_tone delayed = neutral
job_tone dlq = danger
job_tone cancelled = neutral

unfoldable pub queue_tone : QueueStatus → Tone
queue_tone QueueStatus.healthy = success
queue_tone QueueStatus.paused = warning
queue_tone QueueStatus.degraded = warning
queue_tone QueueStatus.unknown = neutral

unfoldable pub worker_tone : WorkerStatus → Tone
worker_tone WorkerStatus.healthy = success
worker_tone WorkerStatus.idle = neutral
worker_tone WorkerStatus.busy = info
worker_tone WorkerStatus.stale = warning
worker_tone WorkerStatus.disconnected = danger

-- `StatCard`: its label, its value (a number, a text, or not there yet), its tone, where it leads and
-- its hint.
pub data StatValue : Type 0 where
  waiting : StatValue
  number : ℕ → StatValue
  words : Text → StatValue

pub record StatCard : Type 0 where
  pub label : Text
  pub value : StatValue
  pub tone : Option Tone
  pub to : Option Text
  pub hint : Option Text

-- The text of the value, `none` for the placeholder.
unfoldable pub stat_text : Context → StatValue → Option Text
stat_text ctx waiting = none
stat_text ctx (number n) = some (ctx.fmt_num n)
stat_text ctx (words t) = some t

-- `TimeAgo`: the text and the text of its tooltip, from those that the date library makes of a time,
-- relative and absolute.
unfoldable pub time_texts : (Text → Text) → (Text → Text) → Prefs → Option Text → Text × Option Text
time_texts relative absolute p none = (txt "—", none)
time_texts relative absolute p (some iso) =
    if is_empty iso
    then (txt "—", none)
    else if p.relative_time
    then (relative iso, some (absolute iso ++ txt " · " ++ iso))
    else (absolute iso, some (relative iso))

-- An item of `KV`; a value that is null or undefined shows as a dash.
pub record Entry : Type 0 where
  pub key : Text
  pub value : Cell

abbrev pub or_dash : Option Text → Cell
or_dash none = plain (txt "—")
or_dash (some t) = plain t

abbrev pub kv : Text → Cell → Entry
kv key value = record { key = key; value = value }

-- `ErrorBlock`: what the button copies.
unfoldable pub error_copy : JobError → Text
unfolding join
error_copy e =
    let part : Option Text → Text = λ o. elim o [ none ↦ [] | some t ↦ t ] in
    join (filter_by (λ t. not (is_empty t)) (part e.code ∷ e.message ∷ part e.stack ∷ []))
      (txt "\n")
