-- ===== src/Orchestrator/Settlement.antt =====
-- apps/api/src/orchestrator/audit-scheduler.service.ts, `finishSettledGraph`: the end of an audit.
use kase_ai.Prelude.{
  ℕ, String, Bool, true, false, not, ◌&&◌, Option, none, some, List, [], ◌∷◌, ◌++◌, map, Result, ok,
  ◌>>◌, is_some, ◌==◌, string_eq, filter, any, contains, if◌then◌else◌,
}
use kase_ai.Orchestrator.AuditState.{
  AuditStatus, AuditTransitionError, assert_audit_transition, completion_status, has_reasons,
  AuditCompletionInput,
}
use kase_ai.Orchestrator.JobGraph.{JobStatus, is_succeeded}
use kase_ai.Orchestrator.Store.{
  Audit, StoredJob, Tables, audit_status, audit_degraded, update_audits, append_event,
}

-- `[...new Set(values)]`: the first occurrences, in their order.
unfoldable pub unique_from : List String → List String → List String
unique_from seen [] = []
unique_from seen (x ∷ xs) =
    let fresh = unique_from (x ∷ seen) xs in
    let old = unique_from seen xs in if contains seen x then old else x ∷ fresh

abbrev is_failed : JobStatus → Bool
is_failed JobStatus.failed = true
is_failed JobStatus.timed_out = true
is_failed _ = false

abbrev is_timed_out : JobStatus → Bool
is_timed_out JobStatus.timed_out = true
is_timed_out _ = false

-- `category: job.category!` of the jobs that pass the test and whose category is neither null nor
-- the empty text, with their statuses.
unfoldable pub categories_where : (JobStatus → Bool) → List StoredJob → List (String × JobStatus)
categories_where test [] = []
categories_where test (j ∷ js) =
    let rest = categories_where test js in
    elim j.category [
      | none ↦ rest
      | some c ↦ if test j.status && not (c == "") then (c, j.status) ∷ rest else rest
    ]

-- `required !== false`
abbrev is_required : Option Bool → Bool
is_required none = true
is_required (some b) = b

abbrev is_not_executed : JobStatus → Bool
is_not_executed JobStatus.failed = true
is_not_executed JobStatus.timed_out = true
is_not_executed JobStatus.cancelled = true
is_not_executed JobStatus.skipped = true
is_not_executed _ = false

-- `failed`, and the reasons of degradation that they add.
abbrev pub failed_jobs : List StoredJob → List StoredJob
failed_jobs = filter (λ j. is_failed j.status)

abbrev pub reasons_for : Audit → List StoredJob → List String
reasons_for audit jobs = unique_from [] (
    audit.degradation_reasons
    ++ (if audit.degraded then "audit_degraded" ∷ [] else [])
    ++ map (λ j. if is_timed_out j.status then "job_timeout" else "job_exhausted")
        (failed_jobs jobs))

abbrev pub completion_input : Audit → List StoredJob → AuditCompletionInput
completion_input audit jobs = record {
  setup_failed = any (λ j. j.kind == "build_provenance") (failed_jobs jobs);
  cancellation_requested = is_some audit.cancellation_requested_at;
  has_usable_results = any (λ j. is_succeeded j.status && not (j.kind == "build_provenance")) jobs;
  required_jobs_failed = any (λ j. is_required j.required) (failed_jobs jobs);
  degradation_reasons = reasons_for audit jobs;
}

abbrev pub finished_audit : AuditStatus → Audit → List StoredJob → ℕ → Audit → Audit
finished_audit status audit jobs now a = record a {
  status = status;
  degraded = has_reasons (reasons_for audit jobs);
  degradation_reasons = reasons_for audit jobs;
  executed_categories =
      unique_from [] (map (λ (c : String × JobStatus). c.0) (categories_where is_succeeded jobs));
  not_executed_categories = categories_where is_not_executed jobs;
  completed_at = some now;
}

unfoldable pub finish_settled_graph :
    Audit → List StoredJob → ℕ → Tables → Result AuditTransitionError Tables
finish_settled_graph audit jobs now db =
    let status = completion_status (completion_input audit jobs) in
    do
      assert_audit_transition audit.status status
      let db₁ = update_audits (λ a. a.id == audit.id) (finished_audit status audit jobs now) db
      let db₂ =
          if has_reasons (reasons_for audit jobs)
          then append_event audit.id (audit_degraded (reasons_for audit jobs)) db₁
          else db₁
      ok (append_event audit.id (audit_status status) db₂)
