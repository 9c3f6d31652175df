-- ===== src/Orchestrator/Cancellation.antt =====
-- apps/api/src/orchestrator/audit-cancellation.service.ts: the request to cancel an audit.
use kase_ai.Prelude.{
  ℕ, String, ◌&&◌, none, some, List, [], ◌∷◌, ◌++◌, map, Result, ok, err, is_some, ◌==◌, string_eq,
  filter, if◌then◌else◌,
}
use kase_ai.Orchestrator.AuditState.{AuditStatus, audit_status_eq, is_terminal_audit_status}
use kase_ai.Orchestrator.Store.{
  Audit, StoredJob, Message, Tables, remove_pending, publish_cancellation, wake_scheduler,
  audit_cancel, find_audit, update_audits, update_jobs, append_event, is_pending,
}
use kase_ai.Orchestrator.Scheduler.{of_audit, cancelled_row, payload_of}

pub data CancelError : Type 0 where
  not_found : CancelError
  conflict : AuditStatus → CancelError

-- The transaction for an audit that runs and has no request yet.
unfoldable pub request_cancellation : String → ℕ → Tables → Tables
request_cancellation id now db =
    update_audits (λ a. a.id == id) (λ a. record a { cancellation_requested_at = some now })
      (update_jobs (λ j. j.audit_id == id && is_pending j.status) (cancelled_row now) db)

abbrev pub removals : List StoredJob → List Message
removals jobs = map (λ j. remove_pending j.kind j.id) (filter (λ j. is_pending j.status) jobs)

-- `wakeJobId`: the scheduler is woken in the name of the audit's first job, if it has one.
abbrev pub wake_first : Audit → List StoredJob → List Message
wake_first audit [] = []
wake_first audit (j ∷ js) = wake_scheduler (payload_of audit j) 0 ∷ []

-- The first request: the jobs that were pending leave their queues, the workers are told and the
-- scheduler is woken. The record of the audit trail is not modelled.
unfoldable pub start_cancellation : Audit → String → ℕ → Tables → Tables
unfolding request_cancellation
start_cancellation audit actor_type now db =
    let jobs = of_audit audit.id db.jobs in
    let db' = request_cancellation audit.id now db in
    append_event audit.id (audit_cancel actor_type) (record db' {
      sent = db'.sent ++ (removals jobs ++ publish_cancellation audit.id ∷ wake_first audit jobs);
    })

-- A repeated request changes nothing.
unfoldable pub cancel : String → String → ℕ → Tables → Result CancelError Tables
unfolding start_cancellation
cancel audit_id actor_type now db = elim (find_audit audit_id db.audits) [
  | none ↦ err not_found
  | some audit ↦
      if audit.status == AuditStatus.cancelled
      then ok db
      else if is_terminal_audit_status audit.status
      then err (conflict audit.status)
      else if is_some audit.cancellation_requested_at
      then ok db
      else ok (start_cancellation audit actor_type now db)
]
