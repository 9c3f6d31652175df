-- ===== src/Orchestrator/Scheduler/Progress.antt =====
-- A run of the scheduler on an idle graph hands out a job or ends the audit.
use mathlib.Core.Path.{subst}
use kase_ai.Prelude.{
  All-of-mem, All, ℕ, suc, ◌-◌, String, ◌≡◌, refl, sym, ◌∙◌, inl, inr, Bool, true, false, none,
  some, is_none, List, [], ◌∷◌, map, arith, Result, ok, ok_injective, >>=-eq-ok, ◌==◌, string_eq,
  contains, filter, update_where, count_where, length, take, Bool-cases, if◌then◌else◌, All-mem,
  Rows, Rows-All, any, all, take-eq-nil, ◌⊎◌,
}
use kase_ai.Orchestrator.AuditState.{
  is_terminal_audit_status, completion_status, completion_status_legal, assert_audit_transition,
  has_reasons,
}
use kase_ai.Orchestrator.JobGraph.{
  JobGraphNode, is_queued, is_running, is_terminal, is_empty, blocked_jobs,
}
use kase_ai.Orchestrator.JobGraph.Validation.{IsValid}
use kase_ai.Orchestrator.JobGraph.Progress.{IsSettled, HasInput, ready_or_blocked}
use kase_ai.Orchestrator.Store.{
  Audit, StoredJob, Tables, EventData, update_audits, update_jobs, append_event,
}
use kase_ai.Orchestrator.Settlement.{
  finish_settled_graph, completion_input, reasons_for, finished_audit,
}
use kase_ai.Orchestrator.Scheduler.{
  AdvanceError, skip_blocked, to_enqueue, settle_or_enqueue, advance_open, job_ids,
}
use kase_ai.Orchestrator.Scheduler.Skipping.{
  SkipStep, SkipStep-nodes, IsValid-Rows, skip_blocked_returns, is_empty-nil,
}
use kase_ai.Orchestrator.Scheduler.Selection.{to_enqueue-eq-ok, ready_jobs-mem}
use kase_ai.Orchestrator.History.Schedule.{without_jobs-eq-ok}

-- The jobs of an audit that waits for nothing but its scheduler.
pub record IsIdle (jobs : List StoredJob) : Type 0 where
  pub valid : IsValid (map (λ j. j.node) jobs)
  pub settled : All (λ j. IsSettled j.node) jobs
  pub inputs : All (λ j. HasInput j.node) jobs
  pub fresh : All (λ j. j.enqueued_at ≡ none) jobs

All-nodes :
    (P : JobGraphNode → Type 0) (jobs : List StoredJob)
    → All (λ j. P j.node) jobs
    → All P (map (λ j. j.node) jobs)
All-nodes P [] h = tt
All-nodes P (j ∷ js) (p, h) = (p, All-nodes P js h)

IsIdle-skip : {jobs jobs' : List StoredJob} → Rows SkipStep jobs jobs' → IsIdle jobs → IsIdle jobs'
IsIdle-skip r i = record {
  valid = IsValid-Rows (SkipStep-nodes r) i.valid;
  settled = Rows-All SkipStep (λ j. IsSettled j.node) (λ j j' s h. ground arith) r i.settled;
  inputs =
      Rows-All SkipStep (λ j. HasInput j.node)
        (λ j j' s h k. rw s.same.depends_on (h (rw s.same.kind at k))) r i.inputs;
  fresh = Rows-All SkipStep (λ j. j.enqueued_at ≡ none) (λ j j' s h. s.enqueued_at ∙ h) r i.fresh;
}

filter-fresh :
    (jobs : List StoredJob)
    → All (λ j. j.enqueued_at ≡ none) jobs
    → filter (λ j. is_none j.enqueued_at) jobs ≡ jobs
filter-fresh [] h = refl
filter-fresh (j ∷ js) (p, h) = rw (p, filter-fresh js h)

none_running :
    (jobs : List StoredJob)
    → All (λ j. IsSettled j.node) jobs
    → count_where (λ j. is_running j.status) jobs ≡ 0
none_running [] h = refl
none_running (j ∷ js) ((r, w), h) = rw (r, none_running js h)

all_terminal :
    (jobs : List StoredJob)
    → All (λ j. IsSettled j.node) jobs
    → any (λ j. is_queued j.status) jobs ≡ false
    → all (λ j. is_terminal j.status) jobs ≡ true
all_terminal [] h q = refl
all_terminal (j ∷ js) ((r, w), h) q = ground (arith, all_terminal js h)

-- With a slot free, an idle graph of no blocked job that hands out no job has ended.
no_stall :
    (slots : ℕ) (jobs : List StoredJob)
    → IsIdle jobs
    → blocked_jobs (λ j. j.node) jobs ≡ ok []
    → to_enqueue (suc slots) jobs ≡ ok []
    → all (λ j. is_terminal j.status) jobs ≡ true
no_stall slots [] i b e = refl
no_stall slots (j ∷ js) i b e =
    let jobs : List StoredJob = j ∷ js in
    let (found, r, same) = to_enqueue-eq-ok (suc slots) jobs [] e in
    let fresh =
      All-of-mem (λ k. k.enqueued_at ≡ none) found
        (λ k m. All-mem _ jobs k i.fresh (ready_jobs-mem jobs found (length jobs) k r m).0) in
    let cut : take (suc slots) found ≡ [] =
      let same' : [] ≡ take (suc slots - 0) found =
        rw (none_running jobs i.settled, filter-fresh found fresh) at same in
      let whole : suc slots - 0 ≡ suc slots = omega arith in sym (rw whole at same') in
    let nothing = take-eq-nil slots found cut in
    elim (Bool-cases (any (λ k. is_queued k.status) jobs)) [
      | inr over ↦ all_terminal jobs i.settled over
      | inl queued_job ↦ absurd (
          ready_or_blocked (λ k. k.node) jobs (length js) i.valid
            (All-nodes IsSettled jobs i.settled) (All-nodes HasInput jobs i.inputs) queued_job
            (rw nothing at r, b))
    ]

-- What ends an audit: no row of it is left in a state that is not terminal.
abbrev pub HasEnded : Audit → Tables → Type 0
HasEnded audit db = All (λ a. a.id ≡ audit.id → is_terminal_audit_status a.status ≡ true) db.audits

HasEnded-append :
    (audit : Audit) (id : String) (content : EventData) (db : Tables)
    → HasEnded audit db
    → HasEnded audit (append_event id content db)
unfolding append_event
HasEnded-append audit id content db h = h

HasEnded-if :
    (audit : Audit) (b : Bool) (x y : Tables)
    → HasEnded audit x
    → HasEnded audit y
    → HasEnded audit (if b then x else y)
HasEnded-if audit true x y h k = h
HasEnded-if audit false x y h k = k

HasEnded-close :
    (audit : Audit) (change : Audit → Audit) (audits : List Audit)
    → ((a : Audit) → is_terminal_audit_status (change a).status ≡ true)
    → All
        (λ a. a.id ≡ audit.id → is_terminal_audit_status a.status ≡ true)
        (update_where (λ a. a.id == audit.id) change audits)
HasEnded-close audit change [] over = tt
HasEnded-close audit change (a ∷ audits) over = (
  (λ e. elim (Bool-cases (a.id == audit.id)) [
    | inl hit ↦ rw hit (over a)
    | inr miss ↦
        let apart : a.id ≡ audit.id = rw miss at e in
        let hit = (string_eq.eqb_iff a.id audit.id).1 apart in cc
  ]),
  HasEnded-close audit change audits over,
)

HasEnded-finish :
    (audit : Audit) (jobs : List StoredJob) (now : ℕ) (db db' : Tables)
    → finish_settled_graph audit jobs now db ≡ ok db'
    → HasEnded audit db'
unfolding finish_settled_graph
HasEnded-finish audit jobs now db db' e =
    let input = completion_input audit jobs in
    let (_, _, e') =
      >>=-eq-ok (assert_audit_transition audit.status (completion_status input)) _ e in
    let (over, _, _) = completion_status_legal input in
    let closed =
      HasEnded-close audit (finished_audit (completion_status input) audit jobs now) db.audits
        (λ a. over) in
    let db₁ =
      update_audits (λ a. a.id == audit.id)
        (finished_audit (completion_status input) audit jobs now) db in
    subst (HasEnded audit) (ok_injective e') (
      HasEnded-append audit _ _ _ (
        HasEnded-if audit (has_reasons (reasons_for audit jobs)) _ db₁
          (HasEnded-append audit _ _ db₁ closed) closed))

HasEnded-settle :
    (audit : Audit) (jobs : List StoredJob) (now : ℕ) (db : Tables) (r : Tables × List StoredJob)
    → all (λ j. is_terminal j.status) jobs ≡ true
    → settle_or_enqueue audit jobs [] now db ≡ ok r
    → HasEnded audit r.0
unfolding settle_or_enqueue
HasEnded-settle audit jobs now db r over e =
    HasEnded-finish audit jobs now db r.0 (without_jobs-eq-ok _ r (rw over at e))

settle_or_enqueue-kept :
    (audit : Audit) (jobs ready : List StoredJob) (now : ℕ) (db : Tables)
    (r : Tables × List StoredJob)
    → is_empty ready ≡ false
    → settle_or_enqueue audit jobs ready now db ≡ ok r
    → is_empty r.1 ≡ false
unfolding settle_or_enqueue
settle_or_enqueue-kept audit jobs ready now db r h e =
    let same : ◌≡◌ {A = Result AdvanceError (Tables × List StoredJob)}
        (ok (
          update_jobs (λ j. contains (job_ids ready) j.id)
              (λ j. record j { enqueued_at = some now }) db,
          ready,
        ))
        (ok r) =
      rw h at e in
    subst (λ x. is_empty x.1 ≡ false) (ok_injective same) h

-- A run of the scheduler for an audit with no cancellation request, none of whose jobs is running,
-- waiting or enqueued, in a valid graph whose normalizing jobs have dependencies, never stalls:
-- where it returns, it hands at least one job to the queues or it has ended the audit.
pub scheduler_progress :
    (slots : ℕ) (audit : Audit) (jobs : List StoredJob) (now : ℕ) (db : Tables)
    (r : Tables × List StoredJob)
    → IsIdle jobs
    → advance_open (suc slots) audit jobs now db ≡ ok r
    → (is_empty r.1 ≡ false) ⊎ HasEnded audit r.0
unfolding advance_open
scheduler_progress slots audit jobs now db r i e =
    let (skipped, a, e₁) = >>=-eq-ok (skip_blocked (suc (length jobs)) now db.jobs jobs) _ e in
    let (ready, b, e₂) = >>=-eq-ok (to_enqueue (suc slots) skipped.1) _ e₁ in
    let (skipped', a', none_blocked, rows) = skip_blocked_returns now db.jobs jobs i.valid in
    let same : skipped' ≡ skipped = ok_injective (sym a' ∙ a) in
    let idle = IsIdle-skip (subst (λ s. Rows SkipStep jobs s.1) same rows) i in
    let unblocked = subst (λ s. blocked_jobs (λ j. j.node) s.1 ≡ ok []) same none_blocked in
    elim (Bool-cases (is_empty ready)) [
      | inr some_ready ↦ inl (settle_or_enqueue-kept audit skipped.1 ready now _ r some_ready e₂)
      | inl no_ready ↦
          let nothing = is_empty-nil ready no_ready in
          let over = no_stall slots skipped.1 idle unblocked (rw nothing at b) in
          inr (HasEnded-settle audit skipped.1 now _ r over (rw nothing at e₂))
    ]
