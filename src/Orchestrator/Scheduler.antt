-- ===== src/Orchestrator/Scheduler.antt =====
-- apps/api/src/orchestrator/audit-scheduler.service.ts: `advance`, which moves the graph of one
-- audit on, and `recover`, which returns jobs of lost workers to their queues.
use kase_ai.Prelude.{
  ℕ, zero, suc, ◌+◌, ◌-◌, String, Bool, true, false, not, ◌&&◌, ◌||◌, Option, none, some, List, [],
  ◌∷◌, ◌++◌, map, Result, ok, err, ◌>>=◌, ◌>>◌, is_some, is_none, ◌==◌, string_eq, find, filter,
  any, all, take, length, leb, ltb, count_where, update_where, contains, if◌then◌else◌,
}
use kase_ai.Orchestrator.AuditState.{
  AuditStatus, AuditTransitionError, is_terminal_audit_status, assert_audit_transition,
  completion_status, has_reasons, AuditCompletionInput, audit_status_eq,
}
use kase_ai.Orchestrator.JobGraph.{
  JobGraphNode, JobStatus, GraphError, is_queued, is_running, is_waiting, is_succeeded, is_terminal,
  is_empty, ready_jobs, blocked_jobs,
}
use kase_ai.Orchestrator.Settlement.{finish_settled_graph}
use kase_ai.Orchestrator.RetryPolicy.{JobErrorClass}
use kase_ai.Orchestrator.Store.{
  Audit, StoredJob, AgentRun, Payload, Message, enqueue, Tables, audit_status, audit_degraded,
  find_audit, update_audits, update_jobs, with_status, append_event, is_pending, send,
}
pub mod Skipping
pub mod Selection
pub mod Progress

pub data AdvanceError : Type 0 where
  graph : GraphError → AdvanceError
  transition : AuditTransitionError → AdvanceError
  enqueue_failed : String → AdvanceError
  out_of_fuel : AdvanceError

abbrev pub lift_error {ℓ κ μ} :
    {E : Type ℓ} {F : Type κ} {A : Type μ} → (E → F) → Result E A → Result F A
lift_error f (ok a) = ok a
lift_error f (err e) = err (f e)

-- Whether a waiting job resumes: its child is gone or has ended, or the run's deadline has passed.
unfoldable pub should_resume : List AgentRun → List StoredJob → ℕ → StoredJob → Bool
should_resume runs jobs now j =
    let run = find (λ r. r.audit_job_id == j.id && r.audit_id == j.audit_id) runs in
    let child : Option StoredJob = elim run [
      | none ↦ none
      | some r ↦ elim r.waiting_for_job_id [ none ↦ none | some id ↦ find (λ c. c.id == id) jobs ]
    ] in
    elim child [ none ↦ true | some c ↦ is_terminal c.status ] || elim run [
      | none ↦ false
      | some r ↦ elim r.deadline [ none ↦ false | some deadline ↦ leb deadline now ]
    ]

abbrev pub of_audit : String → List StoredJob → List StoredJob
of_audit id = filter (λ j. j.audit_id == id)

-- A job that resumes becomes `queued` at once; the tests of the jobs after it do not see that, as
-- neither `waiting` nor `queued` is terminal.
abbrev pub resumes : String → Tables → ℕ → StoredJob → Bool
resumes id db now j =
    j.audit_id == id && is_waiting j.status && should_resume db.runs (of_audit id db.jobs) now j

abbrev pub resumed_row : StoredJob → StoredJob
resumed_row j = record (with_status JobStatus.queued j) { enqueued_at = none }

abbrev pub cancelled_row : ℕ → StoredJob → StoredJob
cancelled_row now j = record (with_status JobStatus.cancelled j) {
  finished_at = some now;
  enqueued_at = none;
  error_class = some JobErrorClass.cancelled;
}

-- The branch of `advance` for an audit whose cancellation has been requested.
unfoldable pub advance_cancelled :
    Audit → List StoredJob → ℕ → Tables → Result AuditTransitionError Tables
advance_cancelled audit jobs now db =
    let db' =
      update_jobs (λ j. j.audit_id == audit.id && is_pending j.status) (cancelled_row now) db in
    if is_empty (filter (λ j. is_running j.status) jobs)
    then finish_settled_graph audit
        (update_where (λ j. is_pending j.status) (with_status JobStatus.cancelled) jobs) now db'
    else ok db'

abbrev pub skipped_row : ℕ → StoredJob → StoredJob
skipped_row now j = record (with_status JobStatus.skipped j) {
  finished_at = some now;
  enqueued_at = none;
  error = some "Required dependency did not succeed";
  error_class = some JobErrorClass.permanent;
}

abbrev pub job_ids : List StoredJob → List String
job_ids = map (λ j. j.id)

-- The loop that skips blocked jobs, over the rows and over the list `effectiveJobs`.
unfoldable pub skip_blocked :
    ℕ → ℕ → List StoredJob → List StoredJob → Result AdvanceError (List StoredJob × List StoredJob)
skip_blocked zero now rows jobs = err out_of_fuel
skip_blocked (suc fuel) now rows jobs = do
  blocked ← lift_error graph (blocked_jobs (λ j. j.node) jobs)
  let ids = job_ids blocked
  let rest = skip_blocked fuel now (update_where (λ j. contains ids j.id) (skipped_row now) rows) (
      update_where (λ j. contains ids j.id)
        (λ j. record (with_status JobStatus.skipped j) { finished_at = some now }) jobs)
  if is_empty blocked then ok (rows, jobs) else rest

-- The rows that the scheduler hands to the queues: of the ready jobs that are not enqueued yet, as
-- many as there are free slots.
unfoldable pub to_enqueue : ℕ → List StoredJob → Result AdvanceError (List StoredJob)
to_enqueue max_jobs jobs = do
  ready ← lift_error graph (ready_jobs (λ j. j.node) jobs (length jobs))
  ok (
      take (max_jobs - count_where (λ j. is_running j.status) jobs)
        (filter (λ j. is_none j.enqueued_at) ready))

abbrev pub payload_of : Audit → StoredJob → Payload
payload_of audit j = record {
  audit_id = audit.id;
  audit_job_id = j.id;
  project_id = audit.project_id;
}

-- `return []`
abbrev pub without_jobs :
    Result AuditTransitionError Tables → Result AdvanceError (Tables × List StoredJob)
without_jobs (err e) = err (transition e)
without_jobs (ok db) = ok (db, [])

-- The end of the transaction: a settled graph ends its audit, any other has jobs to enqueue.
unfoldable pub settle_or_enqueue :
    Audit
    → List StoredJob
    → List StoredJob
    → ℕ
    → Tables
    → Result AdvanceError (Tables × List StoredJob)
settle_or_enqueue audit jobs ready now db =
    if is_empty ready && all (λ j. is_terminal j.status) jobs
    then without_jobs (finish_settled_graph audit jobs now db)
    else ok (
      update_jobs (λ j. contains (job_ids ready) j.id) (λ j. record j { enqueued_at = some now })
          db,
      ready,
    )

-- The transaction of `advance` for an audit with no cancellation request: the new tables and the
-- jobs to enqueue.
unfoldable pub advance_open :
    ℕ → Audit → List StoredJob → ℕ → Tables → Result AdvanceError (Tables × List StoredJob)
unfolding to_enqueue settle_or_enqueue
advance_open max_jobs audit jobs now db = do
  skipped ← skip_blocked (suc (length jobs)) now db.jobs jobs
  ready ← to_enqueue max_jobs skipped.1
  settle_or_enqueue audit skipped.1 ready now (record db { jobs = skipped.0 })

unfoldable pub advance_audit :
    ℕ → Audit → ℕ → Tables → Result AdvanceError (Tables × List StoredJob)
unfolding advance_open advance_cancelled
advance_audit max_jobs audit now db =
    let db₁ = update_jobs (resumes audit.id db now) resumed_row db in
    let jobs =
      update_where (resumes audit.id db now) (with_status JobStatus.queued)
        (of_audit audit.id db.jobs) in
    if is_some audit.cancellation_requested_at
    then without_jobs (advance_cancelled audit jobs now db₁)
    else advance_open max_jobs audit jobs now db₁

-- The loop after the transaction. `refusal` tells for which jobs the queue refuses the message, and
-- with what error text; the first refusal is undone in the job's row and thrown.
unfoldable pub deliver :
    (String → Option String) → Audit → List StoredJob → Tables → Tables × Option AdvanceError
deliver refusal audit [] db = (db, none)
deliver refusal audit (j ∷ js) db =
    let rest = deliver refusal audit js (send (enqueue j.kind (payload_of audit j) 0) db) in
    elim (refusal j.id) [
      | none ↦ rest
      | some text ↦ (
        update_jobs (λ r. r.id == j.id)
            (λ r. record r {
              enqueued_at = none;
              error = some text;
              error_class = some JobErrorClass.transient;
            })
            db,
        some (enqueue_failed j.id),
      )
    ]

-- A transaction that throws changes nothing; the error stands beside the tables.
unfoldable pub advance :
    ℕ → (String → Option String) → String → ℕ → Tables → Tables × Option AdvanceError
unfolding advance_audit deliver
advance max_jobs refusal audit_id now db = elim (find_audit audit_id db.audits) [
  | none ↦ (db, none)
  | some audit ↦
      if is_terminal_audit_status audit.status
      then (db, none)
      else elim (advance_audit max_jobs audit now db) [
        | err e ↦ (db, some e)
        | ok r ↦ deliver refusal audit r.1 r.0
      ]
]

-- `DEFAULT_LEASE_MS`
abbrev pub default_lease_ms : ℕ
default_lease_ms = 60_000

-- `leaseExpiresAt: { lt: now }`, which a missing date does not meet.
abbrev pub is_before : Option ℕ → ℕ → Bool
is_before none now = false
is_before (some t) now = ltb t now

abbrev pub is_expired : ℕ → StoredJob → Bool
is_expired now j = is_running j.status && is_before j.lease_expires_at now

-- What `recover` makes of the row of a lost worker.
abbrev pub recovered_row : ℕ → StoredJob → StoredJob
recovered_row now j =
    if leb (j.attempts - j.continuations) j.max_retries
    then record (with_status JobStatus.queued j) {
      enqueued_at = none;
      heartbeat_at = none;
      lease_expires_at = none;
      error = some "Worker lease expired; recovered by scheduler";
      error_class = some JobErrorClass.transient;
    }
    else record (with_status JobStatus.failed j) {
      finished_at = some now;
      enqueued_at = none;
      heartbeat_at = none;
      lease_expires_at = none;
      error = some "Worker lease expired after the final permitted attempt";
      error_class = some JobErrorClass.transient;
    }

-- Each expired row is changed on its own, under the condition that found it.
unfoldable pub recover_jobs : ℕ → Tables → Tables
recover_jobs now db =
    update_jobs (λ j. is_queued j.status && is_before j.enqueued_at (now - default_lease_ms))
      (λ j. record j { enqueued_at = none }) (update_jobs (is_expired now) (recovered_row now) db)

-- `for (const audit of audits) await this.advance(audit.id)`: an error ends the loop.
unfoldable pub advance_all :
    ℕ → (String → Option String) → List Audit → ℕ → Tables → Tables × Option AdvanceError
unfolding advance
advance_all max_jobs refusal [] now db = (db, none)
advance_all max_jobs refusal (a ∷ rest_of) now db =
    let r = advance max_jobs refusal a.id now db in
    let rest = advance_all max_jobs refusal rest_of now r.0 in
    elim r.1 [ some e ↦ (r.0, some e) | none ↦ rest ]

-- `recover`, without the recon budgets, whose tables are others.
unfoldable pub recover : ℕ → (String → Option String) → ℕ → Tables → Tables × Option AdvanceError
unfolding recover_jobs advance_all
recover max_jobs refusal now db =
    let db' = recover_jobs now db in
    advance_all max_jobs refusal
      (filter (λ a. a.status == AuditStatus.queued || a.status == AuditStatus.running) db'.audits)
      now db'
