-- ===== src/Orchestrator/History/Work.antt =====
-- The workers' operations, row by row.
use mathlib.Core.List.{Memᴰ}
use mathlib.Core.Path.{subst}
use kase_ai.Prelude.{
  ℕ, String, ◌≡◌, refl, sym, inl, inr, Bool, true, false, ◌&&◌, Option, some, arith, ok, >>=-eq-ok,
  or_throw, ◌==◌, string_eq, find, Bool-cases, Option-cases, if◌then◌else◌, count_where, nat_eq,
}
use kase_ai.Orchestrator.AuditState.{AuditStatus, audit_status_eq, is_terminal_audit_status}
use kase_ai.Orchestrator.JobGraph.{JobStatus, is_running, is_terminal}
use kase_ai.Orchestrator.RetryPolicy.{RetryDecision, classify_job_error, retry-le}
use kase_ai.Orchestrator.Store.{
  Audit, StoredJob, Payload, Tables, find_audit, update_jobs, append_event, send, wake_scheduler,
  job_succeeded,
}
use kase_ai.Orchestrator.Lifecycle.{
  JobError, heartbeat, wait_for_child, suspended, succeed, complete_smoke, fail, fail_attempt,
  after_failure, failed_row, ended, is_row_of, has_attempt, is_attempt, decision_for, is_open,
  close_audit, audit_is_smoke, beaten, is_attempt_of, is_child_of, foreign_child, is_completable,
  smoke_end,
}
use kase_ai.Orchestrator.History.Moves.{
  JobStep, marked, suspends, ends, requeued, AuditStep, Evolves, Evolves-refl, Evolves-trans,
  update_jobs-Evolves, update_audits-Evolves, append_event-Evolves, send-Evolves,
}
use kase_ai.Orchestrator.History.Keys.{HasKeys, find-eq-some, same_row}

pub heartbeat-Evolves :
    (id : String) (lease_ms : ℕ) (attempt : Option ℕ) (now : ℕ) (db : Tables)
    → Evolves db (heartbeat id lease_ms attempt now db).1
unfolding heartbeat
heartbeat-Evolves id lease_ms attempt now db =
    update_jobs-Evolves (is_attempt id attempt) (beaten lease_ms now) db
      (λ j m h. record { frozen = ground arith; move = marked refl (refl, refl) })

suspended-JobStep : (j : StoredJob) → is_running j.status ≡ true → JobStep j (suspended j)
suspended-JobStep j h = record { frozen = ground arith; move = suspends h refl refl refl }

ended-JobStep :
    (status : JobStatus) (now : ℕ) (j : StoredJob)
    → is_running j.status ≡ true
    → is_terminal status ≡ true
    → JobStep j (ended status now j)
ended-JobStep status now j h t = record { frozen = ground arith; move = ends h t (refl, refl) }

failed_row-JobStep :
    (error : JobError) (now : ℕ) (j : StoredJob)
    → is_running j.status ≡ true
    → JobStep j
        (failed_row (decision_for j error) (classify_job_error error.thrown) error.text now j)
failed_row-JobStep error now j h = elim (Bool-cases (decision_for j error).retry) [
  | inl again ↦ rw again (record {
    frozen = ground arith;
    move = requeued h refl (refl, refl) (retry-le _ _ _ _ again);
  })
  | inr over ↦ rw over (record { frozen = ground arith; move = ends h (ground arith) (refl, refl) })
]

close_audit-AuditStep :
    (status : AuditStatus) (now : ℕ) (a : Audit)
    → is_open a.status ≡ true
    → is_terminal_audit_status status ≡ true
    → AuditStep a (close_audit status now a)
close_audit-AuditStep status now a h t = ground arith

pub if-Evolves :
    {db : Tables} {x y : Tables} (b : Bool)
    → Evolves db x
    → Evolves db y
    → Evolves db (if b then x else y)
if-Evolves true e f = e
if-Evolves false e f = f

pub wait_for_child-Evolves :
    (p : Payload) (child : String) (attempt : ℕ) (db db' : Tables)
    → wait_for_child p child attempt db ≡ ok db'
    → Evolves db db'
unfolding wait_for_child
wait_for_child-Evolves p child attempt db db' e =
    let (_, _, found) =
      >>=-eq-ok (or_throw (find (is_child_of p child) db.jobs) foreign_child) _ e in
    let same : send (wake_scheduler p 0) (update_jobs (is_attempt_of p (some attempt)) suspended db)
        ≡ db' =
      cc in
    subst (Evolves db) same (
      send-Evolves _ (
        update_jobs-Evolves (is_attempt_of p (some attempt)) suspended db
          (λ j m h. suspended-JobStep j (ground arith))))

complete_smoke-Evolves :
    (p : Payload) (now : ℕ) (db : Tables) → Evolves db (complete_smoke p now db)
unfolding complete_smoke
complete_smoke-Evolves p now db =
    let closed =
      update_audits-Evolves (is_completable p) (close_audit AuditStatus.completed now) db
        (λ a m h. close_audit-AuditStep AuditStatus.completed now a (ground arith) refl) in
    if-Evolves _ (append_event-Evolves _ _ closed) closed

pub succeed-Evolves :
    (p : Payload) (attempt : Option ℕ) (now : ℕ) (db : Tables)
    → Evolves db (succeed p attempt now db)
unfolding succeed
succeed-Evolves p attempt now db =
    let written : Tables =
      update_jobs (is_attempt_of p attempt) (ended JobStatus.succeeded now) db in
    let told : Tables =
      if count_where (is_attempt_of p attempt) db.jobs == 1
      then append_event p.audit_id (job_succeeded p.audit_job_id) written
      else written in
    let moved : Evolves db written =
      update_jobs-Evolves (is_attempt_of p attempt) (ended JobStatus.succeeded now) db
        (λ j m h. ended-JobStep JobStatus.succeeded now j (ground arith) refl) in
    let reached : Evolves db told = if-Evolves _ (append_event-Evolves _ _ moved) moved in
    if-Evolves (audit_is_smoke (find_audit p.audit_id db.audits))
      (Evolves-trans reached (complete_smoke-Evolves p now told)) (send-Evolves _ reached)

after_failure-Evolves :
    (p : Payload) (job : StoredJob) (d : RetryDecision) (now : ℕ) (db : Tables)
    → Evolves db (after_failure p job d now db)
unfolding after_failure
after_failure-Evolves p job d now db =
    if-Evolves _
      (if-Evolves d.retry (send-Evolves _ (Evolves-refl db)) (
        update_audits-Evolves (λ a. a.id == p.audit_id && is_open a.status)
          (close_audit (smoke_end d.terminal_status) now) db
          (λ a m h.
            close_audit-AuditStep (smoke_end d.terminal_status) now a (ground arith)
              (ground arith))))
      (send-Evolves _ (Evolves-refl db))

-- The row that `fail` reads is the row that it writes: no other has its id.
fail_attempt-Evolves :
    (p : Payload) (error : JobError) (job : StoredJob) (now : ℕ) (db : Tables)
    → HasKeys db
    → Memᴰ job db.jobs
    → Evolves db (fail_attempt p error job now db)
unfolding fail_attempt
fail_attempt-Evolves p error job now db keys mem =
    let d = decision_for job error in
    let test = is_attempt job.id (some job.attempts) in
    let change = failed_row d (classify_job_error error.thrown) error.text now in
    let moved : Evolves db (update_jobs test change db) =
      update_jobs-Evolves test change db λ j m h.
        let same : job ≡ j =
          same_row (λ k. k.id) db.jobs job j keys.jobs mem m
            (ground (arith, string_eq.eqb_iff j.id job.id)) in
        subst (λ k. JobStep k (change k)) same
          (failed_row-JobStep error now job
            (subst (λ k. is_running k.status ≡ true) (sym same) (ground arith))) in
    if-Evolves _
      (Evolves-trans (append_event-Evolves _ _ moved) (after_failure-Evolves p job d now _)) moved

pub fail-Evolves :
    (p : Payload) (error : JobError) (attempt : Option ℕ) (now : ℕ) (db : Tables)
    → HasKeys db
    → Evolves db (fail p error attempt now db)
unfolding fail
fail-Evolves p error attempt now db keys =
    elim (Option-cases (find (λ j. is_row_of p j && has_attempt attempt j) db.jobs)) [
      | inl missing ↦ rw (missing, fail) (Evolves-refl db)
      | inr (job, found) ↦
          let (mem, _) = find-eq-some _ db.jobs job found in
          rw (found, fail)
            (if-Evolves (is_running job.status) (fail_attempt-Evolves p error job now db keys mem)
              (Evolves-refl db))
    ]
