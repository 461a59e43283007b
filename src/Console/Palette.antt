-- ===== src/Console/Palette.antt =====
-- web/src/components/app-shell.tsx: the command palette. How its library matches what is typed against
-- the `value` of an item is left out.
use forgequeue.Common.{false, Option, none, some, List, [], ◌∷◌, ◌++◌, map, Text, txt, slice}
use forgequeue.Types.{
  QueueSummary, Worker, DlqItem, DelayedJob, JobStatus, queue_status_text, worker_status_text,
  job_status_text,
}
use forgequeue.Types
use forgequeue.Stores.{Permission}
use forgequeue.Console.Shell.{NavEntry, nav, visible_nav}
use forgequeue.Console.Frame.{Frame, sys}

-- Where an item leads: the route, and the parameter in its path.
pub record Target : Type 0 where
  pub route : Text
  pub param : Option Text

-- An item: what is matched, the texts that it shows, and where it leads.
pub record PaletteItem : Type 0 where
  pub value : Text
  pub shows : List Text
  pub target : Target

pub record PaletteGroup : Type 0 where
  pub heading : Text
  pub items : List PaletteItem

-- A job of the list that the palette makes of dead letters and delayed jobs.
pub record FoundJob : Type 0 where
  pub id : Text
  pub queue : Text
  pub task : Text
  pub status : JobStatus

-- `jobs`
unfoldable pub found_jobs : List DlqItem → List DelayedJob → List FoundJob
found_jobs dead late =
    map (λ d. record { id = d.job_id; queue = d.original_queue; task = d.task; status = Types.dlq })
      dead
    ++ map (λ d. record { id = d.job_id; queue = d.queue; task = d.task; status = d.status }) late

unfoldable pub nav_item : NavEntry → PaletteItem
nav_item n = record {
  value = txt "go " ++ n.label;
  shows = n.label ∷ [];
  target = record { route = n.to; param = none };
}

unfoldable pub queue_item : QueueSummary → PaletteItem
queue_item q = record {
  value = txt "queue " ++ q.name;
  shows = q.name ∷ queue_status_text q.status ∷ [];
  target = record { route = txt "/queues/$queueName"; param = some q.name };
}

unfoldable pub worker_item : Worker → PaletteItem
worker_item w = record {
  value = txt "worker " ++ w.id ++ txt " " ++ w.hostname;
  shows = w.id ∷ w.hostname ∷ worker_status_text w.status ∷ [];
  target = record { route = txt "/workers/$workerId"; param = some w.id };
}

unfoldable pub job_item : FoundJob → PaletteItem
job_item j = record {
  value = txt "job " ++ j.id ++ txt " " ++ j.task ++ txt " " ++ j.queue;
  shows = slice j.id 0 13 ∷ (j.queue ++ txt " · " ++ j.task) ∷ job_status_text j.status ∷ [];
  target = record { route = txt "/jobs/$jobId"; param = some j.id };
}

-- The groups of `CommandPalette`; a list that is not there yet is empty.
unfoldable pub palette :
    List Permission
    → List QueueSummary
    → List Worker
    → List DlqItem
    → List DelayedJob
    → List PaletteGroup
unfolding visible_nav nav sys nav_item queue_item worker_item job_item found_jobs
palette perms queues workers dead late =
    record { heading = txt "Navigate"; items = map nav_item (visible_nav nav perms ++ sys) }
    ∷ record { heading = txt "Queues"; items = map queue_item queues }
    ∷ record { heading = txt "Workers"; items = map worker_item workers }
    ∷ record { heading = txt "Jobs"; items = map job_item (found_jobs dead late) }
    ∷ []

-- `go`: the palette is shut, then the route changes.
unfoldable pub select_item : PaletteItem → Frame → Frame × Target
select_item i f = (record f { palette_open = false }, i.target)
