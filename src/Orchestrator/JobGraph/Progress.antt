-- ===== src/Orchestrator/JobGraph/Progress.antt =====
-- The scheduling queries never leave a settled graph stuck.
use mathlib.Core.List.{Memᴰ}
use mathlib.Core.Path.{subst}
use kase_ai.Prelude.{
  ℕ, zero, suc, ◌<◌, String, ◌≡◌, refl, inl, inr, ◌⊎◌, true, false, Option, none, some, List, [],
  ◌∷◌, map, arith, ok, ◌==◌, contains, string_eq, All, All-mem, All-contains, ◌∙◌, Bool-cases, leb,
  any, all, any-eq-true, any_of_mem, not-all, any-filter_nil, take-eq-nil, any-map, filter,
  mem-filter, mem-take, >>=-eq-ok, take,
}
use kase_ai.Orchestrator.JobGraph.{
  JobGraphNode, JobStatus, ids, is_queued, is_running, is_waiting, is_succeeded, is_terminal,
  is_empty, on_status, status_of, is_ready_with, is_blocked_with, is_ready, is_blocked, ready_jobs,
  blocked_jobs, validate_job_graph,
}
use kase_ai.Orchestrator.JobGraph.Validation.{IsValid}
use kase_ai.Orchestrator.JobGraph.Acceptance.{validate_job_graph_iff}

-- A node that waits for nobody outside the graph: not with a worker, not waiting for a child.
abbrev pub IsSettled : JobGraphNode → Type 0
IsSettled n = (is_running n.status ≡ false) × (is_waiting n.status ≡ false)

-- The template's only normalizing job depends on an adapter.
abbrev pub HasInput : JobGraphNode → Type 0
HasInput n = (n.kind == "normalize_severity") ≡ true → is_empty n.depends_on ≡ false

status_of-absent :
    (nodes : List JobGraphNode) (id : String)
    → contains (ids nodes) id ≡ false
    → status_of nodes id ≡ none
unfolding status_of
status_of-absent [] id h = refl
status_of-absent (n ∷ ns) id h = ground (arith, status_of-absent ns id)

-- A known id has the status of a node with that id.
status_of-present :
    (nodes : List JobGraphNode) (id : String)
    → contains (ids nodes) id ≡ true
    → (m : JobGraphNode) × Memᴰ m nodes × (m.id ≡ id) × (status_of nodes id ≡ some m.status)
unfolding status_of
status_of-present [] id h = cc
status_of-present (n ∷ ns) id h = elim (Bool-cases (contains (ids ns) id)) [
  | inl later ↦
      let (m, mem, same, e) = status_of-present ns id later in
      (m, Memᴰ.tail mem, same, rw (e, status_of))
  | inr only ↦
      let same : (n.id == id) ≡ true = ground arith in
      (
        n,
        Memᴰ.head refl,
        (string_eq.eqb_iff n.id id).0 same,
        rw (status_of-absent ns id only, status_of) (rw same refl),
      )
]

-- Either every dependency is terminal or one of them is not, which is then a node of the graph.
dependencies_settled :
    (nodes : List JobGraphNode) (ds : List String)
    → All (λ d. contains (ids nodes) d ≡ true) ds
    → (all (on_status is_terminal) (map (status_of nodes) ds) ≡ true)
      ⊎ ((m : JobGraphNode) × Memᴰ m nodes
          × (contains ds m.id ≡ true)
          × (is_terminal m.status ≡ false))
dependencies_settled nodes [] h = inl refl
dependencies_settled nodes (d ∷ ds) (p, h) =
    let (m, mem, same, e) = status_of-present nodes d p in
    elim (Bool-cases (is_terminal m.status)) [
      | inr open_status ↦ inr (m, mem, ground (arith, string_eq.eqb_iff d m.id), open_status)
      | inl done ↦ elim (dependencies_settled nodes ds h) [
        | inl others ↦ inl (rw e (rw done others))
        | inr (k, mem', dep, open_status) ↦ inr (k, mem', ground arith, open_status)
      ]
    ]

-- A queued node whose dependencies are terminal is ready or blocked.
settled_decides :
    (n : JobGraphNode) (ss : List (Option JobStatus))
    → is_queued n.status ≡ true
    → all (on_status is_terminal) ss ≡ true
    → ((n.kind == "normalize_severity") ≡ true → is_empty ss ≡ false)
    → (is_ready_with n ss ≡ true) ⊎ (is_blocked_with n ss ≡ true)
unfolding is_ready_with is_blocked_with
settled_decides n [] q t h = elim (Bool-cases (n.kind == "normalize_severity")) [
  | inl normal ↦ let bad = h normal in cc
  | inr other ↦ inl (ground arith)
]
settled_decides n (s ∷ ss) q t h = ground (arith, not-all (on_status is_succeeded) (s ∷ ss))

-- No node is both ready and blocked.
exclusive_with :
    (n : JobGraphNode) (ss : List (Option JobStatus))
    → is_ready_with n ss ≡ true
    → is_blocked_with n ss ≡ false
unfolding is_ready_with is_blocked_with
exclusive_with n ss h = ground (arith, not-all (on_status is_succeeded) ss)

is_empty-map {ℓ κ} :
    {A : Type ℓ} {B : Type κ} (f : A → B) (xs : List A) → is_empty (map f xs) ≡ is_empty xs
is_empty-map f [] = refl
is_empty-map f (x ∷ xs) = refl

module _ (nodes : List JobGraphNode) (valid : IsValid nodes) (settled : All IsSettled nodes)
    (inputs : All HasInput nodes) where
  -- From a queued node, down the ranks, to one that is ready or blocked.
  descend :
      (k : ℕ) (n : JobGraphNode)
      → Memᴰ n nodes
      → valid.acyclic.0 n.id < k
      → is_queued n.status ≡ true
      → (m : JobGraphNode) × Memᴰ m nodes
        × ((is_ready nodes m ≡ true) ⊎ (is_blocked nodes m ≡ true))
  unfolding is_ready is_blocked
  descend zero n mem h q = absurd (omega arith)
  descend (suc k) n mem h q =
      elim (dependencies_settled nodes n.depends_on (All-mem _ nodes n valid.present mem)) [
        | inl done ↦ (
          n,
          mem,
          settled_decides n (map (status_of nodes) n.depends_on) q done (λ e.
              is_empty-map (status_of nodes) n.depends_on ∙ All-mem HasInput nodes n inputs mem e),
        )
        | inr (m, mem', dep, open_status) ↦
            let lower : valid.acyclic.0 m.id < valid.acyclic.0 n.id =
              All-contains _ n.depends_on m.id (All-mem _ nodes n valid.acyclic.1 mem) dep in
            let still = All-mem IsSettled nodes m settled mem' in
            descend k m mem' (omega arith) (ground arith)
      ]

  some_ready_or_blocked :
      any (λ n. is_queued n.status) nodes ≡ true
      → (any (is_ready nodes) nodes ≡ true) ⊎ (any (is_blocked nodes) nodes ≡ true)
  some_ready_or_blocked h =
      let (n, mem, q) = any-eq-true (λ n. is_queued n.status) nodes h in
      let (m, mem', found) = descend (suc (valid.acyclic.0 n.id)) n mem (omega arith) q in
      elim found [
        | inl ready ↦ inl (any_of_mem (is_ready nodes) nodes m mem' ready)
        | inr blocked ↦ inr (any_of_mem (is_blocked nodes) nodes m mem' blocked)
      ]

module _ {A : Type 0} (node : A → JobGraphNode) where
  ready_jobs-nil :
      (jobs : List A) (k : ℕ)
      → IsValid (map node jobs)
      → ready_jobs node jobs (suc k) ≡ ok []
      → any (is_ready (map node jobs)) (map node jobs) ≡ false
  unfolding ready_jobs
  ready_jobs-nil jobs k valid e =
      let accepted = (validate_job_graph_iff (map node jobs)).1 valid in
      let taken : take (suc k) (filter (λ j. is_ready (map node jobs) (node j)) jobs) ≡ [] =
        ground (arith, accepted) in
      any-map (is_ready (map node jobs)) node jobs
      ∙ any-filter_nil (λ j. is_ready (map node jobs) (node j)) jobs (take-eq-nil k _ taken)

  blocked_jobs-nil :
      (jobs : List A)
      → IsValid (map node jobs)
      → blocked_jobs node jobs ≡ ok []
      → any (is_blocked (map node jobs)) (map node jobs) ≡ false
  unfolding blocked_jobs
  blocked_jobs-nil jobs valid e =
      let accepted = (validate_job_graph_iff (map node jobs)).1 valid in
      let empty : filter (λ j. is_blocked (map node jobs) (node j)) jobs ≡ [] =
        ground (arith, accepted) in
      any-map (is_blocked (map node jobs)) node jobs
      ∙ any-filter_nil (λ j. is_blocked (map node jobs) (node j)) jobs empty

  -- In a valid graph with no job running or waiting, whose normalizing jobs have dependencies, a
  -- queued job means that some job is ready or some job is blocked: the two queries are not both
  -- empty, however few slots are asked for beyond none.
  pub ready_or_blocked :
      (jobs : List A) (k : ℕ)
      → IsValid (map node jobs)
      → All IsSettled (map node jobs)
      → All HasInput (map node jobs)
      → any (λ j. is_queued (node j).status) jobs ≡ true
      → ¬ ((ready_jobs node jobs (suc k) ≡ ok []) × (blocked_jobs node jobs ≡ ok []))
  ready_or_blocked jobs k valid settled inputs h (r, b) =
      let found =
        some_ready_or_blocked (map node jobs) valid settled inputs
          (any-map (λ n. is_queued n.status) node jobs ∙ h) in
      elim found [
        | inl ready ↦ let idle = ready_jobs-nil jobs k valid r in cc
        | inr blocked ↦ let idle = blocked_jobs-nil jobs valid b in cc
      ]

  ready_jobs-mem :
      (jobs ready : List A) (k : ℕ) (j : A)
      → ready_jobs node jobs k ≡ ok ready
      → Memᴰ j ready
      → is_ready_with (node j) (map (status_of (map node jobs)) (node j).depends_on) ≡ true
  unfolding ready_jobs is_ready
  ready_jobs-mem jobs ready k j r m = elim (Bool-cases (leb k 0)) [
    | inl idle ↦
        let none_ready : ready ≡ [] = ground (arith, idle) in
        elim (subst (λ l. Memᴰ j l) none_ready m) [ ]
    | inr busy ↦
        let (_, _, e) = >>=-eq-ok (validate_job_graph (map node jobs)) _ (rw busy at r) in
        let taken : ready ≡ take k (filter (λ i. is_ready (map node jobs) (node i)) jobs) = cc in
        (mem-filter _ jobs j (mem-take k _ j (subst (λ l. Memᴰ j l) taken m))).1
  ]

  blocked_jobs-mem :
      (jobs blocked : List A) (j : A)
      → blocked_jobs node jobs ≡ ok blocked
      → Memᴰ j blocked
      → is_blocked_with (node j) (map (status_of (map node jobs)) (node j).depends_on) ≡ true
  unfolding blocked_jobs is_blocked
  blocked_jobs-mem jobs blocked j b m =
      let (_, _, e) = >>=-eq-ok (validate_job_graph (map node jobs)) _ b in
      let listed : blocked ≡ filter (λ i. is_blocked (map node jobs) (node i)) jobs = cc in
      (mem-filter _ jobs j (subst (λ l. Memᴰ j l) listed m)).1

  -- No job is returned by both queries: a job that `blockedJobs` lists is not one that `readyJobs`
  -- lists, whatever the graph.
  pub ready_blocked_exclusive :
      (jobs ready blocked : List A) (k : ℕ) (j : A)
      → ready_jobs node jobs k ≡ ok ready
      → blocked_jobs node jobs ≡ ok blocked
      → Memᴰ j ready
      → ¬ Memᴰ j blocked
  ready_blocked_exclusive jobs ready blocked k j r b m m' =
      let is_in = ready_jobs-mem jobs ready k j r m in
      let is_out = blocked_jobs-mem jobs blocked j b m' in
      let bad = exclusive_with (node j) _ is_in in cc
