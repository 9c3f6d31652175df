-- ===== src/Orchestrator/JobGraph/Acceptance.antt =====
-- `validateJobGraph` as a whole: it accepts exactly the valid graphs, and always returns.
use kase_ai.Prelude.{
  ℕ, suc, ◌<◌, String, ◌≡◌, refl, inl, inr, ◌↔◌, ◌≢◌, true, List, [], ◌∷◌, arith, Result, ok, err,
  >>=-eq-ok, >>=-eq-err, Result-cases, contains, length, string_eq, All, All-map, All-of_contains,
}
use kase_ai.Orchestrator.JobGraph.{
  JobGraphNode, GraphError, cycle, out_of_fuel, ids, dependencies_of, visit, visit_all,
  check_unique, check_dependencies, check_all_dependencies, validate_job_graph,
}
use kase_ai.Orchestrator.JobGraph.Order.{visit_sound, visit_all_sound, rank, rank_decreases}
use kase_ai.Orchestrator.JobGraph.Validation.{
  IsUnique, IsRanked, IsValid, dependencies_of-All, dependencies_of_self, check_unique_sound,
  check_unique_complete, check_all_dependencies_sound, check_all_dependencies_complete,
}
use kase_ai.Orchestrator.JobGraph.Search.{
  visit_all-err, visit_fails_by_cycle, visit_no_cycle, room-le-length,
}

-- The search as `validateJobGraph` starts it.
abbrev search_all : List JobGraphNode → Result GraphError (List String)
search_all nodes = visit_all (visit (suc (length nodes)) nodes []) [] (ids nodes)

-- From ranks of ids to ranks of nodes, through the map `byId`.
IsRanked-nodes :
    (r : String → ℕ) (nodes ms : List JobGraphNode)
    → All (λ n. dependencies_of nodes n.id ≡ n.depends_on) ms
    → All (λ i. All (λ d. r d < r i) (dependencies_of nodes i)) (ids ms)
    → IsRanked r ms
IsRanked-nodes r nodes [] h k = tt
IsRanked-nodes r nodes (m ∷ ms) (p, h) (q, k) = (rw p at q, IsRanked-nodes r nodes ms h k)

search_all-IsRanked :
    (nodes : List JobGraphNode) (v : List String)
    → IsUnique (ids nodes)
    → search_all nodes ≡ ok v
    → IsRanked (rank v) nodes
search_all-IsRanked nodes v u e =
    let ((ordered, _), covered) =
      visit_all_sound (dependencies_of nodes) (visit (suc (length nodes)) nodes [])
        (visit_sound (suc (length nodes)) nodes []) (ids nodes) [] v tt e in
    IsRanked-nodes (rank v) nodes nodes (dependencies_of_self nodes u) (
      All-map _ _
        (λ i m.
          All-map _ _ (λ d p. p.1) (dependencies_of nodes i)
            (rank_decreases (dependencies_of nodes) v i ordered m))
        (ids nodes) covered)

-- A failure of the search that is not a cycle does not happen.
search_all-err :
    (nodes : List JobGraphNode) (x : GraphError)
    → All (λ n. All (λ d. contains (ids nodes) d ≡ true) n.depends_on) nodes
    → search_all nodes ≡ err x
    → (v : List String) × (d : String) × (i : String) × (x ≡ cycle i)
      × (visit (suc (length nodes)) nodes [] v d ≡ err x)
search_all-err nodes x present e =
    let (v, d, m, later) = visit_all-err _ (ids nodes) [] x e in
    let (i, same) =
      visit_fails_by_cycle (suc (length nodes)) nodes [] v d x
        (λ k.
          dependencies_of-All (λ _ ds. All (λ d'. contains (ids nodes) d' ≡ true) ds) nodes k
            present tt)
        m (omega (arith, room-le-length nodes [])) later in
    (v, d, i, same, later)

validate_sound : (nodes : List JobGraphNode) → validate_job_graph nodes ≡ ok tt → IsValid nodes
unfolding validate_job_graph
validate_sound nodes e =
    let (_, unique, e₁) = >>=-eq-ok (check_unique [] nodes) _ e in
    let (_, present, e₂) = >>=-eq-ok (check_all_dependencies (ids nodes) nodes) _ e₁ in
    let (v, found, _) = >>=-eq-ok (search_all nodes) _ e₂ in
    let (u, _) = check_unique_sound [] nodes unique in
    record {
      unique = u;
      present = check_all_dependencies_sound (ids nodes) nodes present;
      acyclic = (rank v, search_all-IsRanked nodes v u found);
    }

search_all_complete :
    (nodes : List JobGraphNode) → IsValid nodes → (v : List String) × (search_all nodes ≡ ok v)
search_all_complete nodes h = elim (Result-cases (search_all nodes)) [
  | inl found ↦ found
  | inr (x, failed) ↦
      let (v, d, i, same, later) = search_all-err nodes x h.present failed in
      let (r, ranked) = h.acyclic in
      absurd (
        visit_no_cycle r (suc (length nodes)) nodes [] v d i
          (λ k. dependencies_of-All (λ i' ds. All (λ d'. r d' < r i') ds) nodes k ranked tt) tt
          (rw same at later))
]

validate_complete : (nodes : List JobGraphNode) → IsValid nodes → validate_job_graph nodes ≡ ok tt
unfolding validate_job_graph
validate_complete nodes h =
    let (r, ranked) = h.acyclic in
    let (v, found) = search_all_complete nodes h in
    rw (check_unique_complete [] nodes h.unique (All-of_contains _ (ids nodes) (λ _ _. refl)))
      (rw (check_all_dependencies_complete r (ids nodes) nodes h.present ranked) (rw found refl))

-- Validation accepts a graph exactly when its ids are distinct, its dependencies are nodes, and some
-- ranking of the ids puts every dependency below what depends on it.
pub validate_job_graph_iff :
    (nodes : List JobGraphNode) → (validate_job_graph nodes ≡ ok tt) ↔ IsValid nodes
validate_job_graph_iff nodes = (validate_sound nodes, validate_complete nodes)

check_unique_fuel :
    (seen : List String) (nodes : List JobGraphNode) → check_unique seen nodes ≢ err out_of_fuel
unfolding check_unique
check_unique_fuel seen [] e = cc
check_unique_fuel seen (n ∷ ns) e = ground (arith, check_unique_fuel (n.id ∷ seen) ns)

check_dependencies_fuel :
    (known : List String) (id : String) (ds : List String)
    → check_dependencies known id ds ≢ err out_of_fuel
unfolding check_dependencies
check_dependencies_fuel known id [] e = cc
check_dependencies_fuel known id (d ∷ ds) e = ground (arith, check_dependencies_fuel known id ds)

check_all_dependencies_fuel :
    (known : List String) (nodes : List JobGraphNode)
    → check_all_dependencies known nodes ≢ err out_of_fuel
unfolding check_all_dependencies
check_all_dependencies_fuel known [] e = cc
check_all_dependencies_fuel known (n ∷ ns) e =
    elim (>>=-eq-err (check_dependencies known n.id n.depends_on) _ e) [
      | inl here ↦ check_dependencies_fuel known n.id n.depends_on here
      | inr (_, _, later) ↦ check_all_dependencies_fuel known ns later
    ]

-- One unit of fuel more than there are nodes is enough for the depth-first search: validation
-- never stops for want of fuel, on any graph.
pub validate_job_graph_returns :
    (nodes : List JobGraphNode) → validate_job_graph nodes ≢ err out_of_fuel
unfolding validate_job_graph
validate_job_graph_returns nodes e = elim (>>=-eq-err (check_unique [] nodes) _ e) [
  | inl a ↦ check_unique_fuel [] nodes a
  | inr (_, _, e₁) ↦ elim (>>=-eq-err (check_all_dependencies (ids nodes) nodes) _ e₁) [
    | inl b ↦ check_all_dependencies_fuel (ids nodes) nodes b
    | inr (_, present, e₂) ↦ elim (>>=-eq-err (search_all nodes) _ e₂) [
      | inl c ↦
          let (_, _, i, same, _) =
            search_all-err nodes out_of_fuel
              (check_all_dependencies_sound (ids nodes) nodes present) c in
          cc
      | inr (_, _, d) ↦ cc
    ]
  ]
]
