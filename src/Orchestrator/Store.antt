-- ===== src/Orchestrator/Store.antt =====
-- The tables that the orchestrator's services share, in the columns that they read or write, and
-- the queue messages that they send. A transaction holds the lock of its `Audit` row, so an
-- operation is one function of the tables; `now` is the clock that it reads. Rows of `AuditJob`
-- are kept in the order of their ids, in which the scheduler reads them.
use kase_ai.Prelude.{
  ℕ, suc, max, String, Bool, ◌||◌, Option, List, [], ◌∷◌, ◌++◌, ◌==◌, string_eq, find, update_where,
  if◌then◌else◌,
}
use kase_ai.Orchestrator.AuditState.{AuditStatus}
use kase_ai.Orchestrator.JobGraph.{JobGraphNode, JobStatus, is_queued, is_waiting}
use kase_ai.Orchestrator.JobGraph.Template.{Mode}
use kase_ai.Orchestrator.RetryPolicy.{JobErrorClass, TerminalStatus}

pub record Audit : Type 0 where
  pub id : String
  pub project_id : String
  pub mode : Mode
  pub status : AuditStatus
  pub degraded : Bool
  pub degradation_reasons : List String
  pub executed_categories : List String
  pub not_executed_categories : List (String × JobStatus)
  pub cancellation_requested_at : Option ℕ
  pub started_at : ℕ
  pub completed_at : Option ℕ

-- `StoredJob`, which extends `JobGraphNode`, and the other columns of its row.
pub record StoredJob : Type 0 where
  pub node : JobGraphNode
  pub open node use *
  pub audit_id : String
  pub category : Option String
  pub attempts : ℕ
  pub continuations : ℕ
  pub max_retries : ℕ
  pub timeout_ms : ℕ
  pub parent_job_id : Option String
  pub enqueued_at : Option ℕ
  pub started_at : Option ℕ
  pub finished_at : Option ℕ
  pub heartbeat_at : Option ℕ
  pub lease_expires_at : Option ℕ
  pub error : Option String
  pub error_class : Option JobErrorClass

pub record AgentRun : Type 0 where
  pub audit_job_id : String
  pub audit_id : String
  pub waiting_for_job_id : Option String
  pub deadline : Option ℕ

-- The `type` of an event with its `data`.
pub data EventData : Type 0 where
  audit_status : AuditStatus → EventData
  audit_degraded : List String → EventData
  audit_cancel : String → EventData
  job_running : String → String → EventData
  job_succeeded : String → EventData
  job_retrying : String → JobErrorClass → ℕ → EventData
  job_ended : TerminalStatus → String → JobErrorClass → ℕ → EventData

pub record AuditEvent : Type 0 where
  pub audit_id : String
  pub sequence : ℕ
  pub content : EventData

-- `ReconAuditJobPayload`
pub record Payload : Type 0 where
  pub audit_id : String
  pub audit_job_id : String
  pub project_id : String

-- What is handed to the queue transport; a delay is that of the timer that sends it.
pub data Message : Type 0 where
  enqueue : String → Payload → ℕ → Message
  wake_scheduler : Payload → ℕ → Message
  remove_pending : String → String → Message
  publish_cancellation : String → Message

pub record Tables : Type 0 where
  pub audits : List Audit
  pub jobs : List StoredJob
  pub runs : List AgentRun
  pub events : List AuditEvent
  pub sent : List Message

abbrev pub send : Message → Tables → Tables
send m db = record db { sent = db.sent ++ m ∷ [] }

abbrev pub find_audit : String → List Audit → Option Audit
find_audit id = find (λ a. a.id == id)

abbrev pub update_audits : (Audit → Bool) → (Audit → Audit) → Tables → Tables
update_audits test change db = record db { audits = update_where test change db.audits }

abbrev pub update_jobs : (StoredJob → Bool) → (StoredJob → StoredJob) → Tables → Tables
update_jobs test change db = record db { jobs = update_where test change db.jobs }

abbrev pub with_status : JobStatus → StoredJob → StoredJob
with_status status j = record j { node = record (j.node) { status = status } }

-- `last?.sequence ?? 0`: the greatest sequence number of the audit's events.
unfoldable pub last_sequence : String → List AuditEvent → ℕ
last_sequence id [] = 0
last_sequence id (e ∷ es) =
    let rest = last_sequence id es in if e.audit_id == id then max e.sequence rest else rest

unfoldable pub next_event : String → EventData → List AuditEvent → AuditEvent
unfolding last_sequence
next_event id content events = record {
  audit_id = id;
  sequence = suc (last_sequence id events);
  content = content;
}

-- `appendEventInTransaction`, and `AuditEventsService.append`, which does the same in a transaction
-- of its own.
unfoldable pub append_event : String → EventData → Tables → Tables
append_event id content db = record db {
  events = db.events ++ next_event id content db.events ∷ [];
}

-- `status: { in: ['queued', 'waiting'] }`
abbrev pub is_pending : JobStatus → Bool
is_pending s = is_queued s || is_waiting s
