-- ===== src/Orchestrator/History/Claim.antt =====
-- The claim of a job by a worker, row by row.
use mathlib.Core.List.{Memᴰ}
use mathlib.Core.Path.{subst}
use kase_ai.Prelude.{
  ℕ, ◌≡◌, ◌⊎◌, or_throw-eq-ok, throw_if-eq-ok, refl, sym, inl, inr, Bool, true, false, not, ◌||◌,
  Option, none, some, arith, Result, ok, ok_injective, >>=-eq-ok, or_throw, throw_if, ◌==◌,
  string_eq, find, Bool-cases, if◌then◌else◌, is_some, nat_eq,
}
use kase_ai.Orchestrator.AuditState.{
  AuditStatus, audit_status_eq, is_terminal_audit_status, assert_audit_transition,
}
use kase_ai.Orchestrator.JobGraph.{is_queued, is_succeeded}
use kase_ai.Orchestrator.Store.{
  Audit, StoredJob, Payload, Tables, update_jobs, update_audits, append_event, audit_status,
  job_running,
}
use kase_ai.Orchestrator.Lifecycle.{
  ClaimError, claim, claim_job, start_audit, started, is_row_of, is_audit_of,
}
use kase_ai.Orchestrator.History.Moves.{
  claimed, Evolves, Evolves-refl, Evolves-trans, update_jobs-Evolves, update_audits-Evolves,
  append_event-Evolves,
}
use kase_ai.Orchestrator.History.Keys.{HasKeys, find-eq-some, same_row, Evolves-HasKeys}

start_audit-Evolves :
    (audit : Audit) (now : ℕ) (db db' : Tables)
    → HasKeys db
    → Memᴰ audit db.audits
    → start_audit audit now db ≡ ok db'
    → Evolves db db'
unfolding start_audit assert_audit_transition
start_audit-Evolves audit now db db' keys mem e =
    elim (Bool-cases (audit.status == AuditStatus.queued)) [
      | inr later ↦
          let same : db ≡ db' = ground (arith, later) in subst (Evolves db) same (Evolves-refl db)
      | inl first ↦
          let test : Audit → Bool = λ a. a.id == audit.id in
          let change : Audit → Audit =
            λ a. record a { status = AuditStatus.running; started_at = now } in
          let same : append_event audit.id (audit_status AuditStatus.running)
                (update_audits test change db)
              ≡ db' =
            ground (arith, first) in
          let moved : Evolves db (update_audits test change db) =
            update_audits-Evolves test change db λ a m h.
              let one : audit ≡ a =
                same_row (λ k. k.id) db.audits audit a keys.audits mem m
                  (ground (arith, string_eq.eqb_iff a.id audit.id)) in
              let is_first : (a.status == AuditStatus.queued) ≡ true =
                subst (λ k. (k.status == AuditStatus.queued) ≡ true) one first in
              ground (arith, is_first) in
          subst (Evolves db) same (append_event-Evolves _ _ moved)
    ]

-- What a successful claim has found, and what it returns.
pub record Claims (p : Payload) (lease_ms now : ℕ) (db : Tables) (r : Option StoredJob × Tables)
    : Type 0 where
  pub audit : Audit
  pub job : StoredJob
  pub audit_found : find (is_audit_of p) db.audits ≡ some audit
  pub job_found : find (is_row_of p) db.jobs ≡ some job
  pub not_requested : is_some audit.cancellation_requested_at ≡ false
  pub open_audit : is_terminal_audit_status audit.status ≡ false
  pub result :
      ((is_succeeded job.status ≡ true) × (r ≡ (none, db)))
      ⊎ (claim_job audit job lease_ms now db ≡ ok r)

claim_result :
    (audit : Audit) (job : StoredJob) (lease_ms now : ℕ) (db : Tables)
    (r : Option StoredJob × Tables)
    → (if is_succeeded job.status then ok (none, db) else claim_job audit job lease_ms now db)
      ≡ ok r
    → ((is_succeeded job.status ≡ true) × (r ≡ (none, db)))
      ⊎ (claim_job audit job lease_ms now db ≡ ok r)
claim_result audit job lease_ms now db r e = elim (Bool-cases (is_succeeded job.status)) [
  | inl succeeded_before ↦
      let same : ◌≡◌ {A = Result ClaimError (Option StoredJob × Tables)} (ok (none, db)) (ok r) =
        rw succeeded_before at e in
      inl (succeeded_before, sym (ok_injective same))
  | inr open_job ↦ inr (rw open_job at e)
]

pub claim-Claims :
    (p : Payload) (lease_ms now : ℕ) (db : Tables) (r : Option StoredJob × Tables)
    → claim p lease_ms now db ≡ ok r
    → Claims p lease_ms now db r
unfolding claim
claim-Claims p lease_ms now db r e =
    let (audit, a, e₁) =
      >>=-eq-ok (or_throw (find (is_audit_of p) db.audits) ClaimError.audit_mismatch) _ e in
    let requested =
      is_some audit.cancellation_requested_at || audit.status == AuditStatus.cancelled in
    let (_, b, e₂) = >>=-eq-ok (throw_if requested ClaimError.cancellation_requested) _ e₁ in
    let (_, c, e₃) =
      >>=-eq-ok
        (throw_if (is_terminal_audit_status audit.status) (ClaimError.audit_terminal audit.status))
        _ e₂ in
    let (job, d, e₄) =
      >>=-eq-ok (or_throw (find (is_row_of p) db.jobs) ClaimError.job_mismatch) _ e₃ in
    let free = throw_if-eq-ok requested _ b in
    record {
      audit = audit;
      job = job;
      audit_found = or_throw-eq-ok _ _ a;
      job_found = or_throw-eq-ok _ _ d;
      not_requested = ground arith;
      open_audit = throw_if-eq-ok _ _ c;
      result = claim_result audit job lease_ms now db r e₄;
    }

pub record ClaimsJob (audit : Audit) (job : StoredJob) (lease_ms now : ℕ) (db : Tables)
    (r : Option StoredJob × Tables) : Type 0 where
  pub queued : is_queued job.status ≡ true
  pub between : Tables
  pub audit_started :
      start_audit audit now (update_jobs (λ j. j.id == job.id) (started now lease_ms) db)
      ≡ ok between
  pub claimed_row : r.0 ≡ some (started now lease_ms job)
  pub tables : r.1 ≡ append_event audit.id (job_running job.id job.kind) between

pub claim_job-ClaimsJob :
    (audit : Audit) (job : StoredJob) (lease_ms now : ℕ) (db : Tables)
    (r : Option StoredJob × Tables)
    → claim_job audit job lease_ms now db ≡ ok r
    → ClaimsJob audit job lease_ms now db r
unfolding claim_job
claim_job-ClaimsJob audit job lease_ms now db r e =
    let (_, a, e₁) =
      >>=-eq-ok (throw_if (not (is_queued job.status)) (ClaimError.not_claimable job.status)) _ e in
    let (between, b, e₂) =
      >>=-eq-ok
        (start_audit audit now (update_jobs (λ j. j.id == job.id) (started now lease_ms) db)) _
        e₁ in
    let idle = throw_if-eq-ok _ _ a in
    record {
      queued = ground arith;
      between = between;
      audit_started = b;
      claimed_row = ground arith;
      tables = ground arith;
    }

started-Evolves :
    (job : StoredJob) (lease_ms now : ℕ) (db : Tables)
    → HasKeys db
    → Memᴰ job db.jobs
    → is_queued job.status ≡ true
    → Evolves db (update_jobs (λ j. j.id == job.id) (started now lease_ms) db)
started-Evolves job lease_ms now db keys mem idle =
    update_jobs-Evolves (λ j. j.id == job.id) (started now lease_ms) db
      λ j m h.
        let same : job ≡ j =
          same_row (λ k. k.id) db.jobs job j keys.jobs mem m
            (ground (arith, string_eq.eqb_iff j.id job.id)) in
        record {
          frozen = ground arith;
          move = claimed (subst (λ k. is_queued k.status ≡ true) same idle) refl refl refl;
        }

pub claim-Evolves :
    (p : Payload) (lease_ms now : ℕ) (db : Tables) (r : Option StoredJob × Tables)
    → HasKeys db
    → claim p lease_ms now db ≡ ok r
    → Evolves db r.1
claim-Evolves p lease_ms now db r keys e =
    let c = claim-Claims p lease_ms now db r e in
    let (a_mem, _) = find-eq-some _ db.audits c.audit c.audit_found in
    let (j_mem, _) = find-eq-some _ db.jobs c.job c.job_found in
    elim c.result [
      | inl (_, same) ↦ rw same (Evolves-refl db)
      | inr taken ↦
          let j = claim_job-ClaimsJob c.audit c.job lease_ms now db r taken in
          let moved = started-Evolves c.job lease_ms now db keys j_mem j.queued in
          let opened =
            start_audit-Evolves c.audit now _ j.between (Evolves-HasKeys moved keys) a_mem
              j.audit_started in
          rw j.tables (append_event-Evolves _ _ (Evolves-trans moved opened))
    ]
