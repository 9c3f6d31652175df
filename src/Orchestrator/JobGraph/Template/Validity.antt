-- ===== src/Orchestrator/JobGraph/Template/Validity.antt =====
-- The graph of a new audit is accepted by `validateJobGraph`, whatever ids its jobs are given.
use kase_ai.Prelude.{
  String, ◌≡◌, refl, Bool, true, false, Option, none, some, List, [], ◌∷◌, map, arith, ok, contains,
  string_eq, All, ap, ◌++◌, contains-append,
}
use kase_ai.Orchestrator.JobGraph.{JobGraphNode, validate_job_graph}
use kase_ai.Orchestrator.JobGraph.Acceptance.{validate_job_graph_iff}
use kase_ai.Orchestrator.JobGraph.Progress.{HasInput}
use kase_ai.Orchestrator.JobGraph.Renaming.{rename, IsValid-rename}
use kase_ai.Orchestrator.JobGraph.Template.{
  Mode, smoke, Category, category_eq, sast, http, blackbox, whitebox, JobTemplate, selected_jobs,
  select_categories, graph_template, new_node,
}

-- The same graph under its kinds' own names.
named : JobTemplate → JobGraphNode
unfolding new_node
named t = record (new_node (λ k. k) t) { depends_on = t.depends_on_kinds }

selected_jobs_accepted :
    (s h b w : Bool)
    → (b ≡ true → h ≡ true)
    → (w ≡ true → s ≡ true)
    → validate_job_graph (map named (selected_jobs s h b w)) ≡ ok tt
unfolding selected_jobs named validate_job_graph
selected_jobs_accepted true true true true p q = refl
selected_jobs_accepted true true true false p q = refl
selected_jobs_accepted true true false true p q = refl
selected_jobs_accepted true true false false p q = refl
selected_jobs_accepted true false false true p q = refl
selected_jobs_accepted true false false false p q = refl
selected_jobs_accepted false true true false p q = refl
selected_jobs_accepted false true false false p q = refl
selected_jobs_accepted false false false false p q = refl
selected_jobs_accepted s false true w p q = cc (p refl)
selected_jobs_accepted false h b true p q = cc (q refl)

-- What the agents rest on is always selected with them.
select_categories_closed :
    (mode : Mode) (categories : Option (List Category))
    → let selected = select_categories mode categories in
      (contains selected blackbox ≡ true → contains selected http ≡ true)
      × (contains selected whitebox ≡ true → contains selected sast ≡ true)
unfolding select_categories
select_categories_closed mode none = ground arith
select_categories_closed mode (some cs) = ground (
  arith,
  contains-append cs (http ∷ []) http,
  contains-append cs (http ∷ []) blackbox,
  contains-append cs (http ∷ []) whitebox,
  contains-append cs (http ∷ []) sast,
  contains-append (cs ++ http ∷ []) (sast ∷ []) http,
  contains-append (cs ++ http ∷ []) (sast ∷ []) blackbox,
  contains-append (cs ++ http ∷ []) (sast ∷ []) whitebox,
  contains-append (cs ++ http ∷ []) (sast ∷ []) sast,
  contains-append cs (sast ∷ []) http,
  contains-append cs (sast ∷ []) blackbox,
  contains-append cs (sast ∷ []) whitebox,
  contains-append cs (sast ∷ []) sast,
)

new_nodes-rename :
    (job_ids : String → String) (ts : List JobTemplate)
    → map (new_node job_ids) ts ≡ map (rename job_ids) (map named ts)
unfolding new_node named rename
new_nodes-rename job_ids [] = refl
new_nodes-rename job_ids (t ∷ ts) =
    ap (λ nodes. new_node job_ids t ∷ nodes) (new_nodes-rename job_ids ts)

graph_template-named :
    (mode : Mode) (categories : Option (List Category))
    → validate_job_graph (map named (graph_template mode categories)) ≡ ok tt
unfolding graph_template
graph_template-named smoke categories = unfold named validate_job_graph in refl
graph_template-named mode categories =
    let (agents, reviews) = select_categories_closed mode categories in
    selected_jobs_accepted _ _ _ _ agents reviews

selected_jobs-HasInput :
    (job_ids : String → String) (s h b w : Bool)
    → All HasInput (map (new_node job_ids) (selected_jobs s h b w))
unfolding new_node selected_jobs
selected_jobs-HasInput job_ids s h b w = ground arith

graph_template-HasInput :
    (job_ids : String → String) (mode : Mode) (categories : Option (List Category))
    → All HasInput (map (new_node job_ids) (graph_template mode categories))
unfolding graph_template
graph_template-HasInput job_ids smoke categories = unfold new_node in ground arith
graph_template-HasInput job_ids mode categories = selected_jobs-HasInput job_ids _ _ _ _

-- The jobs of a new audit, under any distinct ids and for any mode and categories, form a graph
-- that validation accepts, and the normalizing job among them has a dependency.
pub graph_template_accepted :
    (job_ids : String → String)
    → ((a b : String) → job_ids a ≡ job_ids b → a ≡ b)
    → (mode : Mode) (categories : Option (List Category))
    → let nodes = map (new_node job_ids) (graph_template mode categories) in
      (validate_job_graph nodes ≡ ok tt) × All HasInput nodes
graph_template_accepted job_ids injective mode categories = (
  rw (new_nodes-rename job_ids (graph_template mode categories)) (
      (validate_job_graph_iff _).1 (
        IsValid-rename job_ids injective _
          ((validate_job_graph_iff _).0 (graph_template-named mode categories)))),
  graph_template-HasInput job_ids mode categories,
)
