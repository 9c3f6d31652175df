-- ===== src/Orchestrator/Examples.antt =====
-- The orchestrator's theorems at small tables: an audit of two jobs.
use mathlib.Core.List.{Memᴰ}
use kase_ai.Prelude.{
  ℕ, ◌-◌, ◌≤◌, String, ◌≡◌, ◌⊎◌, true, false, refl, some, none, Option, List, [], ◌∷◌, map, Result,
  ok, err, ◌>>=◌, or_throw, arith, All, Rows, done, more, find, is_none, string_eq,
}
use kase_ai.Orchestrator.AuditState.{AuditStatus, AuditCompletionInput, assert_audit_transition}
use kase_ai.Orchestrator.JobGraph.{
  JobStatus, is_empty, is_ready, validate_job_graph, ready_jobs, blocked_jobs, is_blocked,
  status_of,
}
use kase_ai.Orchestrator.JobGraph.Validation.{IsValid}
use kase_ai.Orchestrator.JobGraph.Acceptance.{validate_job_graph_iff}
use kase_ai.Orchestrator.JobGraph.Template.{Mode}
use kase_ai.Orchestrator.Store.{
  Audit, StoredJob, Payload, Tables, find_audit, append_event, next_event, last_sequence, send,
  wake_scheduler,
}
use kase_ai.Orchestrator.Lifecycle.{
  JobError, claim, claim_job, start_audit, succeed, heartbeat, fail, wait_for_child, foreign_child,
  is_child_of, close_audit,
}
use kase_ai.Orchestrator.Scheduler.{
  skip_blocked, to_enqueue, advance, advance_open, settle_or_enqueue,
}
use kase_ai.Orchestrator.Scheduler.Skipping.{SkipStep, skip_blocked_returns}
use kase_ai.Orchestrator.Scheduler.Selection.{to_enqueue_bounded}
use kase_ai.Orchestrator.Scheduler.Progress.{IsIdle, HasEnded, scheduler_progress}
use kase_ai.Orchestrator.History.Keys.{HasKeys}
use kase_ai.Orchestrator.History.Steps.{Reach, claims, succeeds}
use kase_ai.Orchestrator.History.Invariants.{
  IsBounded, IsOrdered, attempts-IsBounded, events-IsOrdered,
}
use kase_ai.Orchestrator.History.Fencing.{stale_attempt_fenced, stale_success_completes_smoke}

abbrev degraded_input : AuditCompletionInput
degraded_input = record {
  setup_failed = false;
  cancellation_requested = false;
  has_usable_results = true;
  required_jobs_failed = false;
  degradation_reasons = "job_timeout" ∷ [];
}

abbrev payload : Payload
payload = record { audit_id = "aud_1"; audit_job_id = "job_1"; project_id = "prj_1" }

abbrev audit : Mode → AuditStatus → Audit
audit mode status = record {
  id = "aud_1";
  project_id = "prj_1";
  mode = mode;
  status = status;
  degraded = false;
  degradation_reasons = [];
  executed_categories = [];
  not_executed_categories = [];
  cancellation_requested_at = none;
  started_at = 0;
  completed_at = none;
}

abbrev job : String → String → List String → JobStatus → ℕ → StoredJob
job id kind depends_on status attempts = record {
  node = record { id = id; kind = kind; depends_on = depends_on; status = status; required = none };
  audit_id = "aud_1";
  category = none;
  attempts = attempts;
  continuations = 0;
  max_retries = 2;
  timeout_ms = 600_000;
  parent_job_id = none;
  enqueued_at = none;
  started_at = none;
  finished_at = none;
  heartbeat_at = none;
  lease_expires_at = none;
  error = none;
  error_class = none;
}

abbrev tables : Audit → List StoredJob → Tables
tables a jobs = record { audits = a ∷ []; jobs = jobs; runs = []; events = []; sent = [] }

abbrev fresh_jobs : List StoredJob
fresh_jobs =
    job "job_1" "build_provenance" [] JobStatus.queued 0
    ∷ job "job_2" "semgrep" ("job_1" ∷ []) JobStatus.queued 0
    ∷ []

abbrev start : Tables
start = tables (audit Mode.security AuditStatus.queued) fresh_jobs

abbrev ok_or {ℓ κ} : {E : Type ℓ} {A : Type κ} → A → Result E A → A
ok_or a (ok b) = b
ok_or a (err e) = a

abbrev claimed : Option StoredJob × Tables
claimed = ok_or (none, start) (claim payload 60_000 5 start)

claimed_lem : claim payload 60_000 5 start ≡ ok claimed
unfolding claim claim_job start_audit assert_audit_transition append_event next_event last_sequence
claimed_lem = refl

abbrev finish : Tables
finish = succeed payload (some 1) 9 claimed.1

claim_and_succeed : Reach start finish
claim_and_succeed =
    more (claims payload 60_000 5 claimed claimed_lem refl)
      (more (succeeds payload (some 1) 9 refl) done)

start_keys : HasKeys start
start_keys = record { audits = (refl, tt); jobs = (refl, (refl, tt)) }

IsBounded-example : All IsBounded finish.jobs
IsBounded-example = attempts-IsBounded start finish start_keys claim_and_succeed (ground arith)

IsOrdered-example : IsOrdered finish.events
IsOrdered-example = events-IsOrdered start finish start_keys claim_and_succeed tt

abbrev ended : Tables
ended = tables (audit Mode.security AuditStatus.failed) (
    job "job_1" "build_provenance" [] JobStatus.failed 3
    ∷ job "job_2" "semgrep" ("job_1" ∷ []) JobStatus.skipped 0
    ∷ [])

abbrev after_end : Tables
after_end = (heartbeat "job_1" 60_000 none 8 (advance 4 (λ id. none) "aud_1" 7 ended).0).1

abbrev broken_jobs : List StoredJob
broken_jobs =
    job "job_1" "build_provenance" [] JobStatus.failed 3
    ∷ job "job_2" "semgrep" ("job_1" ∷ []) JobStatus.queued 0
    ∷ job "job_3" "normalize_severity" ("job_2" ∷ []) JobStatus.queued 0
    ∷ []

broken-IsValid : IsValid (map (λ (j : StoredJob). j.node) broken_jobs)
unfolding validate_job_graph
broken-IsValid = (validate_job_graph_iff (map (λ (j : StoredJob). j.node) broken_jobs)).0 refl

fresh-IsValid : IsValid (map (λ (j : StoredJob). j.node) fresh_jobs)
unfolding validate_job_graph
fresh-IsValid = (validate_job_graph_iff (map (λ (j : StoredJob). j.node) fresh_jobs)).0 refl

skip_example :
    (r : List StoredJob × List StoredJob) × (skip_blocked 4 7 broken_jobs broken_jobs ≡ ok r)
    × (blocked_jobs (λ (j : StoredJob). j.node) r.1 ≡ ok [])
    × Rows SkipStep broken_jobs r.1
skip_example = skip_blocked_returns 7 broken_jobs broken_jobs broken-IsValid

fresh_ready :
    to_enqueue 4 fresh_jobs ≡ ok (job "job_1" "build_provenance" [] JobStatus.queued 0 ∷ [])
unfolding to_enqueue ready_jobs is_ready status_of validate_job_graph
fresh_ready = refl

bounded_enqueue_example :
    (1 ≤ 4 - 0)
    × All
        (λ j.
          Memᴰ j fresh_jobs
          × (is_ready (map (λ (k : StoredJob). k.node) fresh_jobs) j.node ≡ true)
          × (is_none j.enqueued_at ≡ true))
        (job "job_1" "build_provenance" [] JobStatus.queued 0 ∷ [])
bounded_enqueue_example =
    to_enqueue_bounded 4 fresh_jobs (job "job_1" "build_provenance" [] JobStatus.queued 0 ∷ [])
      fresh_ready

fresh-IsIdle : IsIdle fresh_jobs
fresh-IsIdle = record {
  valid = fresh-IsValid;
  settled = ground arith;
  inputs = ground arith;
  fresh = ground arith;
}

abbrev advanced : Tables × List StoredJob
advanced =
    ok_or (start, []) (advance_open 4 (audit Mode.security AuditStatus.queued) fresh_jobs 7 start)

advanced_lem :
    advance_open 4 (audit Mode.security AuditStatus.queued) fresh_jobs 7 start ≡ ok advanced
unfolding advance_open skip_blocked blocked_jobs is_blocked to_enqueue settle_or_enqueue ready_jobs
    is_ready status_of validate_job_graph
advanced_lem = refl

progress_example :
    (is_empty advanced.1 ≡ false) ⊎ HasEnded (audit Mode.security AuditStatus.queued) advanced.0
progress_example =
    scheduler_progress 3 (audit Mode.security AuditStatus.queued) fresh_jobs 7 start advanced
      fresh-IsIdle advanced_lem

abbrev smoke_tables : Tables
smoke_tables =
    tables (audit Mode.smoke AuditStatus.running) (job "job_1" "recon" [] JobStatus.running 2 ∷ [])

abbrev lost : JobError
lost = record {
  thrown = record {
    is_cancelled_job_error = false;
    is_job_timeout_error = false;
    is_permanent_job_error = false;
    error_name = none;
    code = none;
  };
  text = "socket closed";
}

fenced_example :
    (heartbeat "job_1" 60_000 (some 1) 9 smoke_tables ≡ (false, smoke_tables))
    × (fail payload lost (some 1) 9 smoke_tables ≡ smoke_tables)
    × (wait_for_child payload "job_9" 1 smoke_tables ≡ (
        or_throw (find (is_child_of payload "job_9") smoke_tables.jobs) foreign_child >>= λ _.
        ok (send (wake_scheduler payload 0) smoke_tables)))
fenced_example = stale_attempt_fenced payload 1 9 smoke_tables 60_000 lost "job_9" (ground arith)

stale_smoke_example :
    ((succeed payload (some 1) 9 smoke_tables).jobs ≡ smoke_tables.jobs)
    × (find_audit "aud_1" (succeed payload (some 1) 9 smoke_tables).audits
        ≡ some (close_audit AuditStatus.completed 9 (audit Mode.smoke AuditStatus.running)))
stale_smoke_example =
    stale_success_completes_smoke payload 1 9 smoke_tables (audit Mode.smoke AuditStatus.running)
      (ground arith) refl refl refl refl
