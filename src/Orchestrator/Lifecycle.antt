-- ===== src/Orchestrator/Lifecycle.antt =====
-- apps/api/src/orchestrator/audit-job-lifecycle.service.ts: what a worker does with its job. An
-- operation of a transaction that throws changes nothing; its error is a value.
use kase_ai.Prelude.{
  ℕ, suc, ◌+◌, ◌-◌, String, Bool, true, false, not, ◌&&◌, ◌||◌, Option, none, some, Result, ok, err,
  ◌>>=◌, ◌>>◌, throw_if, or_throw, is_some, is_none, get_or, ◌==◌, string_eq, nat_eq, find,
  count_where, if◌then◌else◌,
}
use kase_ai.Orchestrator.AuditState.{
  AuditStatus, audit_status_eq, is_terminal_audit_status, assert_audit_transition,
}
use kase_ai.Orchestrator.JobGraph.{JobStatus, is_queued, is_running, is_succeeded}
use kase_ai.Orchestrator.JobGraph.Template.{Mode, smoke}
use kase_ai.Orchestrator.RetryPolicy.{
  JobErrorClass, TerminalStatus, RetryDecision, Thrown, classify_job_error, retry_decision,
}
use kase_ai.Orchestrator.Store.{
  Audit, StoredJob, Payload, Tables, enqueue, wake_scheduler, audit_status, job_running,
  job_succeeded, job_retrying, job_ended, send, find_audit, update_audits, update_jobs, with_status,
  append_event,
}

pub data ClaimError : Type 0 where
  audit_mismatch cancellation_requested job_mismatch invalid_transition : ClaimError
  audit_terminal : AuditStatus → ClaimError
  not_claimable : JobStatus → ClaimError

abbrev pub is_smoke : Mode → Bool
is_smoke smoke = true
is_smoke _ = false

-- `audit?.mode === 'smoke'`
abbrev pub audit_is_smoke : Option Audit → Bool
audit_is_smoke none = false
audit_is_smoke (some a) = is_smoke a.mode

-- `findFirst({ where: { id: auditId, projectId } })`
abbrev pub is_audit_of : Payload → Audit → Bool
is_audit_of p a = a.id == p.audit_id && a.project_id == p.project_id

-- `findFirst({ where: { id: auditJobId, auditId } })`
abbrev pub is_row_of : Payload → StoredJob → Bool
is_row_of p j = j.id == p.audit_job_id && j.audit_id == p.audit_id

-- `...(attempt === undefined ? {} : { attempts: attempt })`
abbrev pub has_attempt : Option ℕ → StoredJob → Bool
has_attempt none j = true
has_attempt (some attempt) j = j.attempts == attempt

-- The row that a claim writes.
abbrev pub started : ℕ → ℕ → StoredJob → StoredJob
started now lease_ms j = record (with_status JobStatus.running j) {
  attempts = suc j.attempts;
  started_at = some (get_or j.started_at now);
  heartbeat_at = some now;
  lease_expires_at = some (now + lease_ms);
  enqueued_at = none;
  error = none;
  error_class = none;
}

-- `if (audit.status === 'queued') …`: the first claim starts the audit.
unfoldable pub start_audit : Audit → ℕ → Tables → Result ClaimError Tables
start_audit audit now db =
    if audit.status == AuditStatus.queued
    then elim (assert_audit_transition AuditStatus.queued AuditStatus.running) [
      | err e ↦ err invalid_transition
      | ok _ ↦ ok (
          append_event audit.id (audit_status AuditStatus.running) (
            update_audits (λ a. a.id == audit.id)
              (λ a. record a { status = AuditStatus.running; started_at = now }) db))
    ]
    else ok db

unfoldable pub claim_job :
    Audit → StoredJob → ℕ → ℕ → Tables → Result ClaimError (Option StoredJob × Tables)
unfolding start_audit
claim_job audit job lease_ms now db = do
  throw_if (not (is_queued job.status)) (not_claimable job.status)
  db' ← start_audit audit now (update_jobs (λ j. j.id == job.id) (started now lease_ms) db)
  ok (some (started now lease_ms job), append_event audit.id (job_running job.id job.kind) db')

-- The result is the claimed row, or `none` for a job that has already succeeded.
unfoldable pub claim : Payload → ℕ → ℕ → Tables → Result ClaimError (Option StoredJob × Tables)
unfolding claim_job
claim p lease_ms now db = do
  audit ← or_throw (find (is_audit_of p) db.audits) audit_mismatch
  throw_if (is_some audit.cancellation_requested_at || audit.status == AuditStatus.cancelled)
      cancellation_requested
  throw_if (is_terminal_audit_status audit.status) (audit_terminal audit.status)
  job ← or_throw (find (is_row_of p) db.jobs) job_mismatch
  if is_succeeded job.status then ok (none, db) else claim_job audit job lease_ms now db

-- Whether the row is the running attempt of the job.
abbrev pub is_attempt : String → Option ℕ → StoredJob → Bool
is_attempt job_id attempt j = j.id == job_id && is_running j.status && has_attempt attempt j

abbrev pub beaten : ℕ → ℕ → StoredJob → StoredJob
beaten lease_ms now j = record j {
  heartbeat_at = some now;
  lease_expires_at = some (now + lease_ms);
}

unfoldable pub heartbeat : String → ℕ → Option ℕ → ℕ → Tables → Bool × Tables
heartbeat audit_job_id lease_ms attempt now db = (
  count_where (is_attempt audit_job_id attempt) db.jobs == 1,
  update_jobs (is_attempt audit_job_id attempt) (beaten lease_ms now) db,
)

pub data WaitError : Type 0 where
  foreign_child : WaitError

abbrev pub has_parent : String → StoredJob → Bool
has_parent id j = elim j.parent_job_id [ none ↦ false | some parent ↦ parent == id ]

abbrev pub is_child_of : Payload → String → StoredJob → Bool
is_child_of p child_job_id c =
    c.id == child_job_id && c.audit_id == p.audit_id && has_parent p.audit_job_id c

-- A suspended attempt is not a failed one: `continuations` grows with it.
abbrev pub suspended : StoredJob → StoredJob
suspended j = record (with_status JobStatus.waiting j) {
  continuations = suc j.continuations;
  heartbeat_at = none;
  lease_expires_at = none;
  enqueued_at = none;
}

-- The row of the payload's job while the attempt runs.
abbrev pub is_attempt_of : Payload → Option ℕ → StoredJob → Bool
is_attempt_of p attempt j = is_row_of p j && is_running j.status && has_attempt attempt j

unfoldable pub wait_for_child : Payload → String → ℕ → Tables → Result WaitError Tables
wait_for_child p child_job_id attempt db = do
  _ ← or_throw (find (is_child_of p child_job_id) db.jobs) foreign_child
  ok (send (wake_scheduler p 0) (update_jobs (is_attempt_of p (some attempt)) suspended db))

abbrev pub ended : JobStatus → ℕ → StoredJob → StoredJob
ended status now j = record (with_status status j) {
  finished_at = some now;
  heartbeat_at = none;
  lease_expires_at = none;
}

-- `status: { in: ['queued', 'running'] }`
abbrev pub is_open : AuditStatus → Bool
is_open s = s == AuditStatus.queued || s == AuditStatus.running

abbrev pub close_audit : AuditStatus → ℕ → Audit → Audit
close_audit status now a = record a { status = status; completed_at = some now }

-- A smoke audit has no scheduler run: its one job completes it.
abbrev pub is_completable : Payload → Audit → Bool
is_completable p a = a.id == p.audit_id && is_open a.status && is_none a.cancellation_requested_at

unfoldable pub complete_smoke : Payload → ℕ → Tables → Tables
complete_smoke p now db =
    let db' = update_audits (is_completable p) (close_audit AuditStatus.completed now) db in
    if count_where (is_completable p) db.audits == 1
    then append_event p.audit_id (audit_status AuditStatus.completed) db'
    else db'

unfoldable pub succeed : Payload → Option ℕ → ℕ → Tables → Tables
unfolding complete_smoke
succeed p attempt now db =
    let db₁ = update_jobs (is_attempt_of p attempt) (ended JobStatus.succeeded now) db in
    let db₂ =
      if count_where (is_attempt_of p attempt) db.jobs == 1
      then append_event p.audit_id (job_succeeded p.audit_job_id) db₁
      else db₁ in
    if audit_is_smoke (find_audit p.audit_id db.audits)
    then complete_smoke p now db₂
    else send (wake_scheduler p 0) db₂

abbrev pub status_of_terminal : TerminalStatus → JobStatus
status_of_terminal TerminalStatus.failed = JobStatus.failed
status_of_terminal TerminalStatus.timed_out = JobStatus.timed_out
status_of_terminal TerminalStatus.cancelled = JobStatus.cancelled

-- An error as the service sees it: what the policy reads, and the text of `safeError`.
pub record JobError : Type 0 where
  pub thrown : Thrown
  pub text : String

-- The row that a failed attempt leaves. `terminalStatus` is there whenever `retry` is false.
abbrev pub failed_row : RetryDecision → JobErrorClass → String → ℕ → StoredJob → StoredJob
failed_row d error_class text now j =
    if d.retry
    then record (with_status JobStatus.queued j) {
      timeout_ms = d.timeout_ms;
      enqueued_at = none;
      heartbeat_at = none;
      lease_expires_at = none;
      error = some text;
      error_class = some error_class;
    }
    else record (ended (status_of_terminal (get_or d.terminal_status TerminalStatus.failed)) now
        j) { error = some text; error_class = some error_class }

-- The state in which a smoke audit ends with its job.
abbrev pub smoke_end : Option TerminalStatus → AuditStatus
smoke_end (some TerminalStatus.cancelled) = AuditStatus.cancelled
smoke_end (some _) = AuditStatus.failed
smoke_end none = AuditStatus.failed

-- What tells the others: a smoke audit ends or is enqueued again after the delay, any other wakes
-- the scheduler.
unfoldable pub after_failure : Payload → StoredJob → RetryDecision → ℕ → Tables → Tables
after_failure p job d now db =
    if audit_is_smoke (find_audit p.audit_id db.audits)
    then (if d.retry
        then send (enqueue job.kind p (get_or d.delay_ms 0)) db
        else update_audits (λ a. a.id == p.audit_id && is_open a.status)
            (close_audit (smoke_end d.terminal_status) now) db)
    else send (wake_scheduler p (get_or d.delay_ms 0)) db

-- `continuations` never exceeds `attempts`, so the truncated difference is the exact one.
abbrev pub decision_for : StoredJob → JobError → RetryDecision
decision_for job error =
    retry_decision (classify_job_error error.thrown) (job.attempts - job.continuations)
      job.max_retries job.timeout_ms

-- The write of `fail`, for the row that it has read before: other operations may come in between.
unfoldable pub fail_attempt : Payload → JobError → StoredJob → ℕ → Tables → Tables
unfolding after_failure
fail_attempt p error job now db =
    let error_class = classify_job_error error.thrown in
    let d = decision_for job error in
    let db₁ =
      update_jobs (is_attempt job.id (some job.attempts)) (failed_row d error_class error.text now)
        db in
    if count_where (is_attempt job.id (some job.attempts)) db.jobs == 1
    then after_failure p job d now (
        append_event p.audit_id
          (if d.retry
            then job_retrying p.audit_job_id error_class job.attempts
            else job_ended (get_or d.terminal_status TerminalStatus.failed) p.audit_job_id
                error_class job.attempts)
          db₁)
    else db₁

unfoldable pub fail : Payload → JobError → Option ℕ → ℕ → Tables → Tables
unfolding fail_attempt
fail p error attempt now db = elim (find (λ j. is_row_of p j && has_attempt attempt j) db.jobs) [
  | none ↦ db
  | some job ↦ if is_running job.status then fail_attempt p error job now db else db
]
