-- ===== src/Orchestrator/JobGraph.antt =====
-- apps/api/src/orchestrator/job-graph.ts, the checks and queries: `validateJobGraph`, `readyJobs`
-- and `blockedJobs`. `throw` is `err`. A `Map` built from entries is the list of its entries, of
-- which a later one replaces an earlier one with its key.
pub mod Order
pub mod Validation
pub mod Search
pub mod Renaming
pub mod Acceptance
pub mod Progress
pub mod Template
mod Examples
use kase_ai.Prelude.{
  ℕ, zero, suc, String, Bool, true, false, ◌&&◌, ◌||◌, not, Option, none, some, List, [], ◌∷◌, map,
  Result, ok, err, ◌>>=◌, ◌>>◌, throw_if, ◌==◌, if◌then◌else◌, contains, filter, any, all, take,
  length, leb, string_eq,
}

pub data JobStatus : Type 0 where
  queued running waiting succeeded failed skipped timed_out cancelled : JobStatus

-- `status === 'queued'` and its like.
abbrev pub is_queued : JobStatus → Bool
is_queued queued = true
is_queued _ = false

abbrev pub is_running : JobStatus → Bool
is_running running = true
is_running _ = false

abbrev pub is_waiting : JobStatus → Bool
is_waiting waiting = true
is_waiting _ = false

abbrev pub is_succeeded : JobStatus → Bool
is_succeeded succeeded = true
is_succeeded _ = false

-- `TERMINAL_JOB_STATUSES.includes`
abbrev pub is_terminal : JobStatus → Bool
is_terminal queued = false
is_terminal running = false
is_terminal waiting = false
is_terminal _ = true

pub record JobGraphNode : Type 0 where
  pub id : String
  pub kind : String
  pub depends_on : List String
  pub status : JobStatus
  pub required : Option Bool

pub data GraphError : Type 0 where
  duplicate self_dependency cycle : String → GraphError
  missing_dependency : String → String → GraphError
  out_of_fuel : GraphError

abbrev pub ids : List JobGraphNode → List String
ids = map (λ n. n.id)

-- The first loop of `validateJobGraph`; `seen` holds the keys of `byId`.
unfoldable pub check_unique : List String → List JobGraphNode → Result GraphError (Unit {0})
check_unique seen [] = ok tt
check_unique seen (n ∷ ns) = do
  throw_if (contains seen n.id) (duplicate n.id)
  check_unique (n.id ∷ seen) ns

unfoldable pub check_dependencies :
    List String → String → List String → Result GraphError (Unit {0})
check_dependencies known id [] = ok tt
check_dependencies known id (d ∷ ds) = do
  throw_if (d == id) (self_dependency id)
  throw_if (not (contains known d)) (missing_dependency id d)
  check_dependencies known id ds

-- The second loop.
unfoldable pub check_all_dependencies :
    List String → List JobGraphNode → Result GraphError (Unit {0})
check_all_dependencies known [] = ok tt
check_all_dependencies known (n ∷ ns) = do
  check_dependencies known n.id n.depends_on
  check_all_dependencies known ns

-- `byId.get(id)?.dependsOn ?? []`
unfoldable pub dependencies_of : List JobGraphNode → String → List String
dependencies_of [] id = []
dependencies_of (n ∷ ns) id = if n.id == id then n.depends_on else dependencies_of ns id

-- `for (const id of ids) visit(id)`, with the set `visited` passed along.
unfoldable pub visit_all :
    (List String → String → Result GraphError (List String))
    → List String
    → List String
    → Result GraphError (List String)
visit_all visit visited [] = ok visited
visit_all visit visited (d ∷ ds) = do visited' ← visit visited d; visit_all visit visited' ds

-- The depth-first search. A call removes from `visiting` what it has added, so `visiting` is an
-- argument; the fuel bounds the depth of the calls.
unfoldable pub visit :
    ℕ → List JobGraphNode → List String → List String → String → Result GraphError (List String)
visit zero nodes visiting visited id = err out_of_fuel
visit (suc fuel) nodes visiting visited id =
    if contains visiting id then err (cycle id) else if contains visited id then ok visited else do
      visited' ← visit_all (visit fuel nodes (id ∷ visiting)) visited (dependencies_of nodes id)
      ok (id ∷ visited')

-- One more than the number of nodes is enough fuel: no path repeats an id.
unfoldable pub validate_job_graph : List JobGraphNode → Result GraphError (Unit {0})
unfolding check_unique check_dependencies check_all_dependencies visit visit_all dependencies_of
validate_job_graph nodes = do
  check_unique [] nodes
  check_all_dependencies (ids nodes) nodes
  visited ← visit_all (visit (suc (length nodes)) nodes []) [] (ids nodes)
  ok tt

-- `status.get(id)`
unfoldable pub status_of : List JobGraphNode → String → Option JobStatus
status_of [] id = none
status_of (n ∷ ns) id = elim (status_of ns id) [
  | some s ↦ some s
  | none ↦ if n.id == id then some n.status else none
]

abbrev pub on_status : (JobStatus → Bool) → Option JobStatus → Bool
on_status test none = false
on_status test (some s) = test s

abbrev pub is_empty {ℓ} : {A : Type ℓ} → List A → Bool
is_empty [] = true
is_empty (x ∷ xs) = false

-- The test of `readyJobs`, over the statuses of the dependencies.
unfoldable pub is_ready_with : JobGraphNode → List (Option JobStatus) → Bool
is_ready_with n dependencies =
    is_queued n.status
    && (if n.kind == "normalize_severity"
        then not (is_empty dependencies)
          && all (on_status is_terminal) dependencies
          && any (on_status is_succeeded) dependencies
        else all (on_status is_succeeded) dependencies)

-- The test of `blockedJobs`; `value !== 'succeeded'` holds of a missing status too.
unfoldable pub is_blocked_with : JobGraphNode → List (Option JobStatus) → Bool
is_blocked_with n dependencies =
    is_queued n.status
    && not (is_empty dependencies)
    && all (on_status is_terminal) dependencies
    && (if n.kind == "normalize_severity"
        then not (any (on_status is_succeeded) dependencies)
        else any (λ s. not (on_status is_succeeded s)) dependencies)

unfoldable pub is_ready : List JobGraphNode → JobGraphNode → Bool
unfolding is_ready_with
is_ready nodes n = is_ready_with n (map (status_of nodes) n.depends_on)

unfoldable pub is_blocked : List JobGraphNode → JobGraphNode → Bool
unfolding is_blocked_with
is_blocked nodes n = is_blocked_with n (map (status_of nodes) n.depends_on)

-- The queries return the elements that they are given, which may be of a type that extends
-- `JobGraphNode`.
module _ {A : Type 0} (node : A → JobGraphNode) where
  unfoldable pub ready_jobs : List A → ℕ → Result GraphError (List A)
  ready_jobs jobs concurrency_available = if leb concurrency_available 0 then ok [] else do
    validate_job_graph (map node jobs)
    ok (take concurrency_available (filter (λ j. is_ready (map node jobs) (node j)) jobs))

  unfoldable pub blocked_jobs : List A → Result GraphError (List A)
  blocked_jobs jobs = do
    validate_job_graph (map node jobs)
    ok (filter (λ j. is_blocked (map node jobs) (node j)) jobs)
