-- ===== src/Orchestrator/JobGraph/Examples.antt =====
-- The job graph's theorems at small graphs, and runs of `validateJobGraph`, `readyJobs`,
-- `blockedJobs` and `graphTemplate`.
use kase_ai.Prelude.{String, ◌≡◌, ◌≢◌, ◌↔◌, refl, some, none, List, [], ◌∷◌, map, ok, err, All}
use kase_ai.Orchestrator.JobGraph.{
  JobGraphNode, JobStatus, queued, succeeded, failed, cycle, out_of_fuel, missing_dependency,
  validate_job_graph, ready_jobs, blocked_jobs, is_ready, is_blocked, status_of,
}
use kase_ai.Orchestrator.JobGraph.Validation.{IsValid}
use kase_ai.Orchestrator.JobGraph.Acceptance.{validate_job_graph_iff, validate_job_graph_returns}
use kase_ai.Orchestrator.JobGraph.Progress.{HasInput}
use kase_ai.Orchestrator.JobGraph.Template.{
  JobTemplate, full, blackbox, whitebox, graph_template, new_node,
}
use kase_ai.Orchestrator.JobGraph.Template.Validity.{graph_template_accepted}

abbrev job : String → List String → JobStatus → JobGraphNode
job id depends_on status = record {
  id = id;
  kind = id;
  depends_on = depends_on;
  status = status;
  required = none;
}

abbrev chain : List JobGraphNode
chain =
    job "build_provenance" [] succeeded
    ∷ job "semgrep" ("build_provenance" ∷ []) failed
    ∷ job "code_map" ("build_provenance" ∷ []) queued
    ∷ job "normalize_severity" ("semgrep" ∷ []) queued
    ∷ []

abbrev loop : List JobGraphNode
loop = job "a" ("b" ∷ []) queued ∷ job "b" ("a" ∷ []) queued ∷ []

loop_rejected : validate_job_graph loop ≡ err (cycle "a")
unfolding validate_job_graph
loop_rejected = refl

dangling_rejected :
    validate_job_graph (job "a" ("z" ∷ []) queued ∷ []) ≡ err (missing_dependency "a" "z")
unfolding validate_job_graph
dangling_rejected = refl

chain_ready :
    ready_jobs (λ n. n) chain 4 ≡ ok (job "code_map" ("build_provenance" ∷ []) queued ∷ [])
unfolding ready_jobs is_ready status_of validate_job_graph
chain_ready = refl

chain_blocked :
    blocked_jobs (λ n. n) chain ≡ ok (job "normalize_severity" ("semgrep" ∷ []) queued ∷ [])
unfolding blocked_jobs is_blocked status_of validate_job_graph
chain_blocked = refl

agent_kinds :
    map (λ (t : JobTemplate). t.kind) (graph_template full (some (blackbox ∷ [])))
    ≡ "build_provenance" ∷ "katana_discover" ∷ "scope_filter" ∷ "httpx_verify" ∷ "inventory_merge"
      ∷ "inventory_drift" ∷ "blackbox_agent" ∷ []
unfolding graph_template
agent_kinds = refl

validate_job_graph_iff_example : (validate_job_graph chain ≡ ok tt) ↔ IsValid chain
validate_job_graph_iff_example = validate_job_graph_iff chain

validate_job_graph_returns_example : validate_job_graph loop ≢ err out_of_fuel
validate_job_graph_returns_example = validate_job_graph_returns loop

chain_accepted : validate_job_graph chain ≡ ok tt
unfolding validate_job_graph
chain_accepted = refl

graph_template_accepted_example :
    let nodes = map (new_node (λ kind. kind)) (graph_template full (some (whitebox ∷ []))) in
    (validate_job_graph nodes ≡ ok tt) × All HasInput nodes
graph_template_accepted_example =
    graph_template_accepted (λ kind. kind) (λ a b e. e) full (some (whitebox ∷ []))
