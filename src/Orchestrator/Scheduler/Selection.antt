-- ===== src/Orchestrator/Scheduler/Selection.antt =====
-- What a run of the scheduler hands to the queues.
use mathlib.Core.List.{Memᴰ}
use mathlib.Core.Path.{subst}
use kase_ai.Prelude.{
  All-of-mem, All, ℕ, ◌-◌, ◌≤◌, ◌≡◌, sym, inl, inr, true, is_none, List, [], map, arith, ok,
  ok_injective, >>=-eq-ok, string_eq, filter, mem-filter, mem-take, length-take, count_where,
  length, take, leb, Bool-cases,
}
use kase_ai.Orchestrator.JobGraph.{
  JobGraphNode, is_running, is_ready, ready_jobs, validate_job_graph,
}
use kase_ai.Orchestrator.Store.{StoredJob}
use kase_ai.Orchestrator.Scheduler.{AdvanceError, lift_error, to_enqueue}
use kase_ai.Orchestrator.History.Skip.{lift_error-eq-ok}

pub to_enqueue-eq-ok :
    (max_jobs : ℕ) (jobs ready : List StoredJob)
    → to_enqueue max_jobs jobs ≡ ok ready
    → (all_ready : List StoredJob) × (ready_jobs (λ j. j.node) jobs (length jobs) ≡ ok all_ready)
      × (ready
          ≡ take
              (max_jobs - count_where (λ j. is_running j.status) jobs)
              (filter (λ j. is_none j.enqueued_at) all_ready))
unfolding to_enqueue
to_enqueue-eq-ok max_jobs jobs ready e =
    let (found, a, e') =
      >>=-eq-ok (lift_error AdvanceError.graph (ready_jobs (λ j. j.node) jobs (length jobs))) _ e in
    (found, lift_error-eq-ok _ _ a, sym (ok_injective e'))

pub ready_jobs-mem :
    (jobs ready : List StoredJob) (k : ℕ) (j : StoredJob)
    → ready_jobs (λ j. j.node) jobs k ≡ ok ready
    → Memᴰ j ready
    → Memᴰ j jobs × (is_ready (map (λ j. j.node) jobs) j.node ≡ true)
unfolding ready_jobs
ready_jobs-mem jobs ready k j r m = elim (Bool-cases (leb k 0)) [
  | inl idle ↦
      let none_ready : ready ≡ [] = ground (arith, idle) in
      elim (subst (λ l. Memᴰ j l) none_ready m) [ ]
  | inr busy ↦
      let ns : List JobGraphNode = map (λ (i : StoredJob). i.node) jobs in
      let (_, _, e) = >>=-eq-ok (validate_job_graph ns) _ (rw busy at r) in
      let taken : ready ≡ take k (filter (λ i. is_ready ns i.node) jobs) = cc in
      mem-filter _ jobs j (mem-take k _ j (subst (λ l. Memᴰ j l) taken m))
]

-- A run hands out at most as many jobs as `MAX_JOBS_PER_AUDIT` exceeds the number of running ones,
-- and each of them is a job of the audit that is ready and not enqueued yet.
pub to_enqueue_bounded :
    (max_jobs : ℕ) (jobs ready : List StoredJob)
    → to_enqueue max_jobs jobs ≡ ok ready
    → (length ready ≤ max_jobs - count_where (λ j. is_running j.status) jobs)
      × All
          (λ j.
            Memᴰ j jobs
            × (is_ready (map (λ k. k.node) jobs) j.node ≡ true)
            × (is_none j.enqueued_at ≡ true))
          ready
to_enqueue_bounded max_jobs jobs ready e =
    let (found, r, same) = to_enqueue-eq-ok max_jobs jobs ready e in
    let slots = max_jobs - count_where (λ (j : StoredJob). is_running j.status) jobs in
    let fresh = filter (λ (j : StoredJob). is_none j.enqueued_at) found in
    (
      rw same (omega (arith, length-take slots fresh)),
      All-of-mem _ ready (λ j m.
          let (m', idle) =
            mem-filter _ found j (mem-take slots fresh j (subst (λ l. Memᴰ j l) same m)) in
          let (mem, ready_job) = ready_jobs-mem jobs found (length jobs) j r m' in
          (mem, ready_job, idle)),
    )
