-- ===== src/Types.antt =====
-- web/src/types/forgequeue.ts: the records that the API returns.
-- A time is the text that the API sends, `null` and a missing optional field are both `none`, and
-- `unknown` is a JSON value.
use forgequeue.Common.{ℕ, Bool, Option, List, Text, txt, ℤ}

mutual
  pub data Json : Type 0 where
    null : Json
    bool : Bool → Json
    number : ℤ → Json
    text : Text → Json
    array : Items → Json
    object : Members → Json

  pub data Items : Type 0 where
    nil : Items
    cons : Json → Items → Items

  pub data Members : Type 0 where
    end : Members
    member : Text → Json → Members → Members

pub data JobStatus : Type 0 where
  pending processing completed failed retrying delayed dlq cancelled : JobStatus

pub data QueueStatus : Type 0 where
  healthy paused degraded unknown : QueueStatus

pub data WorkerStatus : Type 0 where
  healthy idle busy stale disconnected : WorkerStatus

pub record Attempt : Type 0 where
  pub attempt : ℕ
  pub worker_id : Option Text
  pub started_at : Text
  pub finished_at : Option Text
  pub duration_ms : Option ℤ
  pub result : Option Json
  pub error : Option Text

pub data Backoff : Type 0 where
  exponential fixed : Backoff

pub record RetryPolicy : Type 0 where
  pub backoff : Backoff
  pub base_ms : ℕ
  pub max_ms : ℕ
  pub jitter : Bool

pub record JobError : Type 0 where
  pub message : Text
  pub stack : Option Text
  pub code : Option Text

pub record Job : Type 0 where
  pub id : Text
  pub queue : Text
  pub task : Text
  pub status : JobStatus
  pub attempts : ℕ
  pub max_attempts : ℕ
  pub created_at : Text
  pub enqueued_at : Option Text
  pub started_at : Option Text
  pub completed_at : Option Text
  pub failed_at : Option Text
  pub duration_ms : Option ℤ
  pub worker_id : Option Text
  pub lease_id : Option Text
  pub lease_expires_at : Option Text
  pub next_retry_at : Option Text
  pub retry_policy : Option RetryPolicy
  pub payload : Json
  pub result : Option Json
  pub error : Option JobError
  pub last_error_at : Option Text
  pub last_error : Option Text
  pub attempts_history : Option (List Attempt)

pub record QueueSummary : Type 0 where
  pub name : Text
  pub pending : ℕ
  pub processing : ℕ
  pub delayed : ℕ
  pub failed : ℕ
  pub completed : ℕ
  pub workers : ℕ
  pub rate_per_min : ℕ
  pub oldest_job_at : Option Text
  pub status : QueueStatus

pub record Lease : Type 0 where
  pub job_id : Text
  pub queue : Text
  pub task : Text
  pub lease_id : Text
  pub acquired_at : Text
  pub expires_at : Text

pub record RecentJob : Type 0 where
  pub job_id : Text
  pub queue : Text
  pub status : JobStatus
  pub duration_ms : Option ℤ
  pub finished_at : Option Text

pub record Worker : Type 0 where
  pub id : Text
  pub hostname : Text
  pub version : Text
  pub status : WorkerStatus
  pub started_at : Text
  pub last_heartbeat_at : Text
  pub lease_count : ℕ
  pub jobs_processing : ℕ
  pub concurrency : ℕ
  pub leases : List Lease
  pub recent_jobs : List RecentJob

pub record DlqItem : Type 0 where
  pub job_id : Text
  pub original_queue : Text
  pub task : Text
  pub attempts : ℕ
  pub last_error : Text
  pub failed_at : Text
  pub age_ms : ℤ
  pub job : Job

pub record DelayedJob : Type 0 where
  pub job_id : Text
  pub queue : Text
  pub task : Text
  pub attempts : ℕ
  pub scheduled_for : Text
  pub delay_ms : ℤ
  pub status : JobStatus

pub record ThroughputPoint : Type 0 where
  pub time : Text
  pub enqueued : ℕ
  pub completed : ℕ
  pub failed : ℕ

pub record MetricsPoint : Type 0 where
  pub throughput : ThroughputPoint
  pub depth : ℕ
  pub latency_ms : ℕ
  pub exec_ms : ℕ
  pub retries : ℕ
  pub dlq : ℕ
  pub workers : ℕ
  pub lease_expirations : ℕ

pub record SystemStats : Type 0 where
  pub queues : ℕ
  pub active_jobs : ℕ
  pub pending : ℕ
  pub processing : ℕ
  pub failed : ℕ
  pub delayed : ℕ
  pub dlq : ℕ
  pub active_workers : ℕ
  pub healthy_workers : ℕ
  pub stale_workers : ℕ
  pub workers_with_expired_leases : ℕ

-- The text of a status: its member of the union type.
unfoldable pub job_status_text : JobStatus → Text
job_status_text pending = txt "pending"
job_status_text processing = txt "processing"
job_status_text completed = txt "completed"
job_status_text failed = txt "failed"
job_status_text retrying = txt "retrying"
job_status_text delayed = txt "delayed"
job_status_text dlq = txt "dlq"
job_status_text cancelled = txt "cancelled"

unfoldable pub queue_status_text : QueueStatus → Text
queue_status_text QueueStatus.healthy = txt "healthy"
queue_status_text paused = txt "paused"
queue_status_text degraded = txt "degraded"
queue_status_text unknown = txt "unknown"

unfoldable pub worker_status_text : WorkerStatus → Text
worker_status_text WorkerStatus.healthy = txt "healthy"
worker_status_text idle = txt "idle"
worker_status_text busy = txt "busy"
worker_status_text stale = txt "stale"
worker_status_text disconnected = txt "disconnected"
