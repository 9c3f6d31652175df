-- ===== src/Orchestrator/History/Fencing.antt =====
-- The attempt number as a fence: a worker whose attempt is not the job's current one.
use kase_ai.Prelude.{
  find-update_where, ℕ, String, ◌≡◌, ◌≢◌, refl, ◌∙◌, inl, inr, Bool, true, false, ◌&&◌, none, some,
  List, [], ◌∷◌, arith, ok, ◌>>=◌, or_throw, ◌==◌, string_eq, nat_eq, find, count_where,
  update_where, All, Bool-cases, if◌then◌else◌,
}
use kase_ai.Orchestrator.AuditState.{AuditStatus, audit_status_eq}
use kase_ai.Orchestrator.JobGraph.{JobStatus}
use kase_ai.Orchestrator.Store.{
  Audit, StoredJob, Payload, Tables, wake_scheduler, audit_status, send, find_audit, update_audits,
  append_event,
}
use kase_ai.Orchestrator.History.Keys.{find-eq-some}
use kase_ai.Orchestrator.Lifecycle.{
  JobError, foreign_child, heartbeat, wait_for_child, succeed, complete_smoke, fail, is_attempt,
  is_attempt_of, is_row_of, has_attempt, is_child_of, audit_is_smoke, is_smoke, is_open,
  is_completable, close_audit, suspended, ended, beaten,
}

-- The attempt is no longer, or never was, that of the payload's job.
abbrev pub IsStale : Payload → ℕ → Tables → Type 0
IsStale p attempt db = All (λ j. j.id ≡ p.audit_job_id → j.attempts ≢ attempt) db.jobs

module _ {ℓ} {A : Type ℓ} (p : A → Bool) where
  update_where-none :
      (f : A → A) (xs : List A) → All (λ x. p x ≡ false) xs → update_where p f xs ≡ xs
  update_where-none f [] h = refl
  update_where-none f (x ∷ xs) (q, h) = rw (q, update_where-none f xs h)

  count_where-none : (xs : List A) → All (λ x. p x ≡ false) xs → count_where p xs ≡ 0
  count_where-none [] h = refl
  count_where-none (x ∷ xs) (q, h) = rw (q, count_where-none xs h)

  find-none : (xs : List A) → All (λ x. p x ≡ false) xs → find p xs ≡ none
  find-none [] h = refl
  find-none (x ∷ xs) (q, h) = rw (q, find-none xs h)

stale-rows :
    (id : String) (attempt : ℕ) (test : StoredJob → Bool) (jobs : List StoredJob)
    → ((j : StoredJob) → test j ≡ true → ((j.id == id) ≡ true) × ((j.attempts == attempt) ≡ true))
    → All (λ j. j.id ≡ id → j.attempts ≢ attempt) jobs
    → All (λ j. test j ≡ false) jobs
stale-rows id attempt test [] k h = tt
stale-rows id attempt test (j ∷ js) k (p, h) = (
  elim (Bool-cases (test j)) [
    | inr miss ↦ miss
    | inl hit ↦
        let (a, b) = k j hit in
        absurd (p ((string_eq.eqb_iff j.id id).0 a) ((nat_eq.eqb_iff j.attempts attempt).0 b))
  ],
  stale-rows id attempt test js k h,
)

module _ (p : Payload) (attempt now : ℕ) (db : Tables) (stale : IsStale p attempt db) where
  stale-heartbeat :
      (lease_ms : ℕ) → heartbeat p.audit_job_id lease_ms (some attempt) now db ≡ (false, db)
  unfolding heartbeat
  stale-heartbeat lease_ms =
      let untouched =
        stale-rows p.audit_job_id attempt (is_attempt p.audit_job_id (some attempt)) db.jobs
          (λ j h. ground (arith, h)) stale in
      rw
        (
          update_where-none (is_attempt p.audit_job_id (some attempt)) (beaten lease_ms now) db.jobs
              untouched,
          count_where-none (is_attempt p.audit_job_id (some attempt)) db.jobs untouched,
        )
        refl

  stale-is_attempt_of : All (λ j. is_attempt_of p (some attempt) j ≡ false) db.jobs
  stale-is_attempt_of =
      stale-rows p.audit_job_id attempt (is_attempt_of p (some attempt)) db.jobs
        (λ j h. ground (arith, h)) stale

  stale-fail : (error : JobError) → fail p error (some attempt) now db ≡ db
  unfolding fail
  stale-fail error =
      let untouched =
        stale-rows p.audit_job_id attempt (λ j. is_row_of p j && has_attempt (some attempt) j)
          db.jobs (λ j h. ground (arith, h)) stale in
      rw (find-none (λ j. is_row_of p j && has_attempt (some attempt) j) db.jobs untouched, fail)
        refl

  stale-wait :
      (child : String)
      → wait_for_child p child attempt db ≡ (
          or_throw (find (is_child_of p child) db.jobs) foreign_child >>= λ _.
          ok (send (wake_scheduler p 0) db))
  unfolding wait_for_child
  stale-wait child =
      rw (update_where-none (is_attempt_of p (some attempt)) suspended db.jobs stale-is_attempt_of)
        refl

  stale-succeed : succeed p (some attempt) now db ≡ (
      if audit_is_smoke (find_audit p.audit_id db.audits)
      then complete_smoke p now db
      else send (wake_scheduler p 0) db)
  unfolding succeed
  stale-succeed =
      let kept =
        update_where-none (is_attempt_of p (some attempt)) (ended JobStatus.succeeded now) db.jobs
          stale-is_attempt_of in
      let uncounted =
        count_where-none (is_attempt_of p (some attempt)) db.jobs stale-is_attempt_of in
      rw (kept, uncounted) refl

-- A worker whose attempt is not the current one of its job changes no table with a heartbeat, with
-- a failure or with a suspension, and learns from the heartbeat that it has lost the job; a
-- suspension for a child of the job only wakes the scheduler.
pub stale_attempt_fenced :
    (p : Payload) (attempt now : ℕ) (db : Tables) (lease_ms : ℕ) (error : JobError) (child : String)
    → IsStale p attempt db
    → (heartbeat p.audit_job_id lease_ms (some attempt) now db ≡ (false, db))
      × (fail p error (some attempt) now db ≡ db)
      × (wait_for_child p child attempt db ≡ (
          or_throw (find (is_child_of p child) db.jobs) foreign_child >>= λ _.
          ok (send (wake_scheduler p 0) db)))
stale_attempt_fenced p attempt now db lease_ms error child stale = (
  stale-heartbeat p attempt now db stale lease_ms,
  stale-fail p attempt now db stale error,
  stale-wait p attempt now db stale child,
)

complete_smoke-completes :
    (p : Payload) (now : ℕ) (db : Tables) (audit : Audit)
    → find_audit p.audit_id db.audits ≡ some audit
    → is_completable p audit ≡ true
    → find_audit p.audit_id (complete_smoke p now db).audits
      ≡ some (close_audit AuditStatus.completed now audit)
unfolding complete_smoke append_event
complete_smoke-completes p now db audit found able =
    let db' = update_audits (is_completable p) (close_audit AuditStatus.completed now) db in
    let told : Tables = append_event p.audit_id (audit_status AuditStatus.completed) db' in
    let closed : find_audit p.audit_id db'.audits
        ≡ some (close_audit AuditStatus.completed now audit) =
      find-update_where (λ a. a.id == p.audit_id) (is_completable p)
        (close_audit AuditStatus.completed now) db.audits audit (λ x. refl) found
      ∙ rw able refl in
    elim (Bool-cases (count_where (is_completable p) db.audits == 1)) [
      | inl one ↦ rw (one, complete_smoke) closed
      | inr other ↦ rw (other, complete_smoke) closed
    ]

complete_smoke-jobs :
    (p : Payload) (now : ℕ) (db : Tables) → (complete_smoke p now db).jobs ≡ db.jobs
unfolding complete_smoke append_event
complete_smoke-jobs p now db = elim (Bool-cases (count_where (is_completable p) db.audits == 1)) [
  | inl one ↦ rw (one, complete_smoke) refl
  | inr other ↦ rw (other, complete_smoke) refl
]

-- The success of a stale attempt completes a smoke audit that is open and not to be cancelled,
-- though it changes no job.
pub stale_success_completes_smoke :
    (p : Payload) (attempt now : ℕ) (db : Tables) (audit : Audit)
    → IsStale p attempt db
    → find_audit p.audit_id db.audits ≡ some audit
    → is_smoke audit.mode ≡ true
    → is_open audit.status ≡ true
    → audit.cancellation_requested_at ≡ none
    → ((succeed p (some attempt) now db).jobs ≡ db.jobs)
      × (find_audit p.audit_id (succeed p (some attempt) now db).audits
          ≡ some (close_audit AuditStatus.completed now audit))
stale_success_completes_smoke p attempt now db audit stale found smoke open_audit wanted =
    let (_, own) = find-eq-some (λ a. a.id == p.audit_id) db.audits audit found in
    let able : is_completable p audit ≡ true = rw (own, open_audit, wanted) refl in
    let is_it : audit_is_smoke (find_audit p.audit_id db.audits) ≡ true = rw found smoke in
    let same : succeed p (some attempt) now db ≡ complete_smoke p now db =
      rw is_it at (stale-succeed p attempt now db stale) in
    (
      rw same (complete_smoke-jobs p now db),
      rw same (complete_smoke-completes p now db audit found able),
    )
