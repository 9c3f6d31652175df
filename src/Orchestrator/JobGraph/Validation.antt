-- ===== src/Orchestrator/JobGraph/Validation.antt =====
-- `validateJobGraph` against a description of the graphs that it accepts.
use kase_ai.Prelude.{
  ℕ, ◌<◌, String, ◌≡◌, refl, inl, inr, true, false, List, [], ◌∷◌, arith, ok, err, >>=-eq-ok, ◌==◌,
  contains, string_eq, All, Bool-cases,
}
use kase_ai.Orchestrator.JobGraph.{
  JobGraphNode, GraphError, ids, dependencies_of, check_unique, check_dependencies,
  check_all_dependencies,
}

abbrev pub IsUnique : List String → Type 0
IsUnique [] = Unit
IsUnique (x ∷ xs) = (contains xs x ≡ false) × IsUnique xs

-- Every dependency of a node has a lower rank than the node: no cycle.
abbrev pub IsRanked : (String → ℕ) → List JobGraphNode → Type 0
IsRanked r nodes = All (λ n. All (λ d. r d < r n.id) n.depends_on) nodes

pub record IsValid (nodes : List JobGraphNode) : Type 0 where
  pub unique : IsUnique (ids nodes)
  pub present : All (λ n. All (λ d. contains (ids nodes) d ≡ true) n.depends_on) nodes
  pub acyclic : (r : String → ℕ) × IsRanked r nodes

-- What holds of the dependencies of every node, and of none, holds of those of an id.
pub dependencies_of-All :
    (P : String → List String → Type 0) (nodes : List JobGraphNode) (id : String)
    → All (λ n. P n.id n.depends_on) nodes
    → P id []
    → P id (dependencies_of nodes id)
unfolding dependencies_of
dependencies_of-All P [] id h k = k
dependencies_of-All P (n ∷ ns) id (p, h) k = elim (Bool-cases (n.id == id)) [
  | inl same ↦ rw same (rw ((string_eq.eqb_iff n.id id).0 same) at p)
  | inr apart ↦ rw apart (dependencies_of-All P ns id h k)
]

dependencies_of-skip :
    (n : JobGraphNode) (ns ms : List JobGraphNode)
    → contains (ids ms) n.id ≡ false
    → All (λ m. dependencies_of ns m.id ≡ m.depends_on) ms
    → All (λ m. dependencies_of (n ∷ ns) m.id ≡ m.depends_on) ms
unfolding dependencies_of
dependencies_of-skip n ns [] h k = tt
dependencies_of-skip n ns (m ∷ ms) h (p, k) = (
  ground (arith, string_eq.eqb_iff n.id m.id, string_eq.eqb_iff m.id n.id),
  dependencies_of-skip n ns ms (ground arith) k,
)

-- Where the ids are distinct, the map `byId` leads from each node to that node.
pub dependencies_of_self :
    (nodes : List JobGraphNode)
    → IsUnique (ids nodes)
    → All (λ n. dependencies_of nodes n.id ≡ n.depends_on) nodes
unfolding dependencies_of
dependencies_of_self [] h = tt
dependencies_of_self (n ∷ ns) (fresh, h) = (
  rw ((string_eq.eqb_iff n.id n.id).1 refl) refl,
  dependencies_of-skip n ns ns fresh (dependencies_of_self ns h),
)

-- No id of `xs` is in `x ∷ seen` exactly when none is in `seen` and none is `x`.
apart-cons :
    (x : String) (seen xs : List String)
    → All (λ i. contains (x ∷ seen) i ≡ false) xs
    → (contains xs x ≡ false) × All (λ i. contains seen i ≡ false) xs
apart-cons x seen [] h = (refl, tt)
apart-cons x seen (i ∷ is) (p, h) =
    let (q, k) = apart-cons x seen is h in
    (ground (arith, string_eq.eqb_iff i x, string_eq.eqb_iff x i), (ground arith, k))

cons-apart :
    (x : String) (seen xs : List String)
    → contains xs x ≡ false
    → All (λ i. contains seen i ≡ false) xs
    → All (λ i. contains (x ∷ seen) i ≡ false) xs
cons-apart x seen [] h k = tt
cons-apart x seen (i ∷ is) h (p, k) = (
  ground (arith, string_eq.eqb_iff i x, string_eq.eqb_iff x i),
  cons-apart x seen is (ground arith) k,
)

pub check_unique_sound :
    (seen : List String) (nodes : List JobGraphNode)
    → check_unique seen nodes ≡ ok tt
    → IsUnique (ids nodes) × All (λ i. contains seen i ≡ false) (ids nodes)
unfolding check_unique
check_unique_sound seen [] e = (tt, tt)
check_unique_sound seen (n ∷ ns) e = elim (Bool-cases (contains seen n.id)) [
  | inl old ↦ let bad : err (GraphError.duplicate n.id) ≡ ok tt = rw old at e in cc
  | inr fresh ↦
      let (u, apart) = check_unique_sound (n.id ∷ seen) ns (rw fresh at e) in
      let (once, others) = apart-cons n.id seen (ids ns) apart in ((once, u), (fresh, others))
]

pub check_unique_complete :
    (seen : List String) (nodes : List JobGraphNode)
    → IsUnique (ids nodes)
    → All (λ i. contains seen i ≡ false) (ids nodes)
    → check_unique seen nodes ≡ ok tt
unfolding check_unique
check_unique_complete seen [] u k = refl
check_unique_complete seen (n ∷ ns) (once, u) (fresh, k) =
    rw fresh (check_unique_complete (n.id ∷ seen) ns u (cons-apart n.id seen (ids ns) once k))

check_dependencies_sound :
    (known : List String) (id : String) (ds : List String)
    → check_dependencies known id ds ≡ ok tt
    → All (λ d. contains known d ≡ true) ds
unfolding check_dependencies
check_dependencies_sound known id [] e = tt
check_dependencies_sound known id (d ∷ ds) e =
    (ground arith, check_dependencies_sound known id ds (ground arith))

check_dependencies_complete :
    (r : String → ℕ) (known : List String) (id : String) (ds : List String)
    → All (λ d. contains known d ≡ true) ds
    → All (λ d. r d < r id) ds
    → check_dependencies known id ds ≡ ok tt
unfolding check_dependencies
check_dependencies_complete r known id [] h k = refl
check_dependencies_complete r known id (d ∷ ds) (p, h) (q, k) = elim (Bool-cases (d == id)) [
  | inl self ↦
      let bad : r id < r id = rw ((string_eq.eqb_iff d id).0 self) at q in absurd (omega arith)
  | inr other ↦ rw (other, p) (check_dependencies_complete r known id ds h k)
]

pub check_all_dependencies_sound :
    (known : List String) (nodes : List JobGraphNode)
    → check_all_dependencies known nodes ≡ ok tt
    → All (λ n. All (λ d. contains known d ≡ true) n.depends_on) nodes
unfolding check_all_dependencies
check_all_dependencies_sound known [] e = tt
check_all_dependencies_sound known (n ∷ ns) e =
    let (_, here, later) = >>=-eq-ok (check_dependencies known n.id n.depends_on) _ e in
    (
      check_dependencies_sound known n.id n.depends_on here,
      check_all_dependencies_sound known ns later,
    )

pub check_all_dependencies_complete :
    (r : String → ℕ) (known : List String) (nodes : List JobGraphNode)
    → All (λ n. All (λ d. contains known d ≡ true) n.depends_on) nodes
    → IsRanked r nodes
    → check_all_dependencies known nodes ≡ ok tt
unfolding check_all_dependencies
check_all_dependencies_complete r known [] h k = refl
check_all_dependencies_complete r known (n ∷ ns) (p, h) (q, k) =
    rw (check_dependencies_complete r known n.id n.depends_on p q)
      (check_all_dependencies_complete r known ns h k)
