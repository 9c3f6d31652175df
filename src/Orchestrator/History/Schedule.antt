-- ===== src/Orchestrator/History/Schedule.antt =====
-- The scheduler's operations, row by row.
use mathlib.Core.List.{Memᴰ}
use mathlib.Core.Path.{subst}
use kase_ai.Prelude.{
  ℕ, suc, ◌≡◌, refl, ap, inl, inr, Bool, true, false, ◌&&◌, some, List, arith, Result, ok, err,
  ok_injective, >>=-eq-ok, ◌==◌, string_eq, contains, filter, update_where, length, all, Bool-cases,
  is_some, done,
}
use kase_ai.Orchestrator.AuditState.{
  AuditStatus, AuditTransitionError, audit_status_eq, is_terminal_audit_status,
  assert_audit_transition, completion_status, has_reasons, completion_status_legal,
}
use kase_ai.Orchestrator.JobGraph.{JobStatus, is_running, is_terminal, is_empty}
use kase_ai.Orchestrator.Store.{Audit, StoredJob, Tables, with_status, is_pending, update_jobs}
use kase_ai.Orchestrator.Settlement.{
  completion_input, reasons_for, finished_audit, finish_settled_graph,
}
use kase_ai.Orchestrator.Scheduler.{
  AdvanceError, skip_blocked, job_ids, resumes, of_audit, cancelled_row, advance_cancelled,
  to_enqueue, settle_or_enqueue, advance_open, advance_audit, without_jobs,
}
use kase_ai.Orchestrator.History.Moves.{
  marked, dropped, Evolves, Evolves-refl, Evolves-trans, update_jobs-Evolves, update_audits-Evolves,
  append_event-Evolves,
}
use kase_ai.Orchestrator.History.Keys.{HasKeys, same_row, Evolves-HasKeys}
use kase_ai.Orchestrator.History.Work.{if-Evolves}
use kase_ai.Orchestrator.History.Skip.{Agrees, Agrees-resumed, resumed-Evolves, skip_blocked-Rows}

not_queued :
    (s t : AuditStatus)
    → is_terminal_audit_status s ≡ true
    → s ≡ AuditStatus.queued
    → t ≡ AuditStatus.queued
not_queued s t h e = ground arith

pub finish_settled_graph-Evolves :
    (audit : Audit) (jobs : List StoredJob) (now : ℕ) (db db' : Tables)
    → HasKeys db
    → Memᴰ audit db.audits
    → is_terminal_audit_status audit.status ≡ false
    → finish_settled_graph audit jobs now db ≡ ok db'
    → Evolves db db'
unfolding finish_settled_graph
finish_settled_graph-Evolves audit jobs now db db' keys mem open_audit e =
    let input = completion_input audit jobs in
    let (_, _, e') =
      >>=-eq-ok (assert_audit_transition audit.status (completion_status input)) _ e in
    let (over, _, _) = completion_status_legal input in
    let moved =
      update_audits-Evolves (λ a. a.id == audit.id)
        (finished_audit (completion_status input) audit jobs now) db
        λ a m h.
          let one : audit ≡ a =
            same_row (λ k. k.id) db.audits audit a keys.audits mem m
              (ground (arith, string_eq.eqb_iff a.id audit.id)) in
          let open_row : is_terminal_audit_status a.status ≡ false =
            subst (λ k. is_terminal_audit_status k.status ≡ false) one open_audit in
          record {
            id = refl;
            project_id = refl;
            mode = refl;
            terminal = λ t. cc;
            started = λ q. not_queued (completion_status input) a.status over q;
          } in
    subst (Evolves db) (ok_injective e') (
      append_event-Evolves _ _
        (if-Evolves (has_reasons (reasons_for audit jobs)) (append_event-Evolves _ _ moved) moved))

pub cancelled-Evolves :
    (test : StoredJob → Bool) (now : ℕ) (db : Tables)
    → Evolves db (update_jobs (λ j. test j && is_pending j.status) (cancelled_row now) db)
cancelled-Evolves test now db =
    update_jobs-Evolves (λ j. test j && is_pending j.status) (cancelled_row now) db
      λ j m h. record {
        frozen = ground arith;
        move = dropped (ground arith) refl refl (refl, refl);
      }

advance_cancelled-Evolves :
    (audit : Audit) (jobs : List StoredJob) (now : ℕ) (db db' : Tables)
    → HasKeys db
    → Memᴰ audit db.audits
    → is_terminal_audit_status audit.status ≡ false
    → advance_cancelled audit jobs now db ≡ ok db'
    → Evolves db db'
unfolding advance_cancelled
advance_cancelled-Evolves audit jobs now db db' keys mem open_audit e =
    let moved = cancelled-Evolves (λ j. j.audit_id == audit.id) now db in
    elim (Bool-cases (is_empty (filter (λ (j : StoredJob). is_running j.status) jobs))) [
      | inl idle ↦ Evolves-trans moved (
          finish_settled_graph-Evolves audit _ now _ db' (Evolves-HasKeys moved keys) mem open_audit
            (rw idle at e))
      | inr busy ↦
          let same : ok (
                update_jobs (λ j. j.audit_id == audit.id && is_pending j.status) (cancelled_row now)
                  db)
              ≡ ok db' =
            rw busy at e in
          subst (Evolves db) (ok_injective same) moved
    ]

pub without_jobs-eq-ok :
    (m : Result AuditTransitionError Tables) (r : Tables × List StoredJob)
    → without_jobs m ≡ ok r
    → m ≡ ok r.0
without_jobs-eq-ok (ok db) r h =
    ap (λ (db : Tables). ok db) (ap (λ (x : Tables × List StoredJob). x.0) (ok_injective h))
without_jobs-eq-ok (err e) r h = cc

settle_or_enqueue-Evolves :
    (audit : Audit) (jobs ready : List StoredJob) (now : ℕ) (db : Tables)
    (r : Tables × List StoredJob)
    → HasKeys db
    → Memᴰ audit db.audits
    → is_terminal_audit_status audit.status ≡ false
    → settle_or_enqueue audit jobs ready now db ≡ ok r
    → Evolves db r.0
unfolding settle_or_enqueue
settle_or_enqueue-Evolves audit jobs ready now db r keys mem open_audit e =
    elim (Bool-cases (is_empty ready && all (λ (j : StoredJob). is_terminal j.status) jobs)) [
      | inl settled ↦
          finish_settled_graph-Evolves audit jobs now db r.0 keys mem open_audit
            (without_jobs-eq-ok _ r (rw settled at e))
      | inr unsettled ↦
          let test : StoredJob → Bool = λ j. contains (job_ids ready) j.id in
          let change : StoredJob → StoredJob = λ j. record j { enqueued_at = some now } in
          let same : ◌≡◌ {A = Result AdvanceError (Tables × List StoredJob)}
              (ok (update_jobs test change db, ready)) (ok r) =
            rw unsettled at e in
          subst (λ x. Evolves db x.0) (ok_injective same)
            (update_jobs-Evolves test change db
              (λ j m h. record { frozen = ground arith; move = marked refl (refl, refl) }))
    ]

advance_open-Evolves :
    (max_jobs : ℕ) (audit : Audit) (jobs : List StoredJob) (now : ℕ) (db : Tables)
    (r : Tables × List StoredJob)
    → HasKeys db
    → Memᴰ audit db.audits
    → is_terminal_audit_status audit.status ≡ false
    → Agrees db.jobs jobs
    → advance_open max_jobs audit jobs now db ≡ ok r
    → Evolves db r.0
unfolding advance_open
advance_open-Evolves max_jobs audit jobs now db r keys mem open_audit same e =
    let (skipped, a, e₁) = >>=-eq-ok (skip_blocked (suc (length jobs)) now db.jobs jobs) _ e in
    let (ready, _, e₂) = >>=-eq-ok (to_enqueue max_jobs skipped.1) _ e₁ in
    let moved : Evolves db (record db { jobs = skipped.0 }) = record {
      jobs = skip_blocked-Rows _ now db.jobs jobs skipped same a;
      audits = (Evolves-refl db).audits;
      events = done;
    } in
    Evolves-trans moved (
      settle_or_enqueue-Evolves audit skipped.1 ready now _ r (Evolves-HasKeys moved keys) mem
        open_audit e₂)

pub advance_audit-Evolves :
    (max_jobs : ℕ) (audit : Audit) (now : ℕ) (db : Tables) (r : Tables × List StoredJob)
    → HasKeys db
    → Memᴰ audit db.audits
    → is_terminal_audit_status audit.status ≡ false
    → advance_audit max_jobs audit now db ≡ ok r
    → Evolves db r.0
unfolding advance_audit
advance_audit-Evolves max_jobs audit now db r keys mem open_audit e =
    let moved = resumed-Evolves audit.id now db in
    let keys' = Evolves-HasKeys moved keys in
    let jobs =
      update_where (resumes audit.id db now) (with_status JobStatus.queued)
        (of_audit audit.id db.jobs) in
    elim (Bool-cases (is_some audit.cancellation_requested_at)) [
      | inl requested ↦ Evolves-trans moved (
          advance_cancelled-Evolves audit jobs now _ r.0 keys' mem open_audit
            (without_jobs-eq-ok _ r (rw requested at e)))
      | inr not_requested ↦ Evolves-trans moved (
          advance_open-Evolves max_jobs audit jobs now _ r keys' mem open_audit
            (Agrees-resumed audit.id now db keys) (rw not_requested at e))
    ]
