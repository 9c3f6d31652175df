-- ===== src/Orchestrator/JobGraph/Order.antt =====
-- What a finished depth-first search of `validateJobGraph` leaves in `visited`: an order in which
-- every id stands after its dependencies.
use kase_ai.Prelude.{
  ℕ, zero, suc, ◌<◌, String, ◌≡◌, ◌⊎◌, inl, inr, true, List, [], ◌∷◌, arith, Result, ok, err,
  >>=-eq-ok, if◌then◌else◌, contains, contains-cons, contains-cons_self, contains-cons_ne, length,
  string_eq, All, All-map, Bool-cases,
}
use kase_ai.Orchestrator.JobGraph.{
  JobGraphNode, GraphError, cycle, dependencies_of, visit, visit_all,
}

-- The finished ids, the last one first: each one's dependencies were finished before it.
abbrev pub IsOrdered : (String → List String) → List String → Type 0
IsOrdered deps [] = Unit
IsOrdered deps (x ∷ xs) = All (λ d. contains xs d ≡ true) (deps x) × IsOrdered deps xs

abbrev pub IsSubset : List String → List String → Type 0
IsSubset xs ys = (x : String) → contains xs x ≡ true → contains ys x ≡ true

-- What a call of the search promises when it returns.
abbrev Extends : (String → List String) → List String → List String → Type 0
Extends deps visited visited' = IsOrdered deps visited' × IsSubset visited visited'

module _ (deps : String → List String)
    (search_from : List String → String → Result GraphError (List String))
    (sound : (visited : List String) (id : String) (r : List String)
      → IsOrdered deps visited
      → search_from visited id ≡ ok r
      → Extends deps visited r × (contains r id ≡ true)) where
  pub visit_all_sound :
      (ds visited r : List String)
      → IsOrdered deps visited
      → visit_all search_from visited ds ≡ ok r
      → Extends deps visited r × All (λ d. contains r d ≡ true) ds
  unfolding visit_all
  visit_all_sound [] visited r h e = let p : visited ≡ r = cc in rw (← p) ((h, λ x m. m), tt)
  visit_all_sound (d ∷ ds) visited r h e =
      let (visited', here, later) = >>=-eq-ok (search_from visited d) _ e in
      let ((o, s), has) = sound visited d visited' h here in
      let ((o', s'), rest) = visit_all_sound ds visited' r o later in
      ((o', λ x m. s' x (s x m)), (s' d has, rest))

-- A call that returns has either met a finished id or finished the id after its dependencies.
visit-eq-ok :
    (fuel : ℕ) (nodes : List JobGraphNode) (visiting visited : List String) (id : String)
    (r : List String)
    → visit (suc fuel) nodes visiting visited id ≡ ok r
    → ((contains visited id ≡ true) × (r ≡ visited))
      ⊎ ((v : List String) × (visit_all
              (visit fuel nodes (id ∷ visiting))
              visited
              (dependencies_of nodes id)
            ≡ ok v)
          × (r ≡ id ∷ v))
unfolding visit
visit-eq-ok fuel nodes visiting visited id r e = elim (Bool-cases (contains visiting id)) [
  | inl on_path ↦ let bad : err (cycle id) ≡ ok r = rw on_path at e in cc
  | inr off_path ↦ elim (Bool-cases (contains visited id)) [
    | inl done ↦ let same : ok visited ≡ ok r = rw (off_path, done) at e in inl (done, cc)
    | inr fresh ↦
        let (v, found, last) = >>=-eq-ok _ (λ v. ok (id ∷ v)) (rw (off_path, fresh) at e) in
        inr (v, found, cc)
  ]
]

pub visit_sound :
    (fuel : ℕ) (nodes : List JobGraphNode) (visiting visited : List String) (id : String)
    (r : List String)
    → IsOrdered (dependencies_of nodes) visited
    → visit fuel nodes visiting visited id ≡ ok r
    → Extends (dependencies_of nodes) visited r × (contains r id ≡ true)
visit_sound zero nodes visiting visited id r h e = unfold visit in cc
visit_sound (suc fuel) nodes visiting visited id r h e =
    elim (visit-eq-ok fuel nodes visiting visited id r e) [
      | inl (done, same) ↦ rw same ((h, λ x m. m), done)
      | inr (v, found, same) ↦
          let ((o, s), all_done) =
            visit_all_sound (dependencies_of nodes) (visit fuel nodes (id ∷ visiting))
              (visit_sound fuel nodes (id ∷ visiting)) (dependencies_of nodes id) visited v h
              found in
          rw same (((all_done, o), λ x m. contains-cons id x v (s x m)), contains-cons_self id v)
    ]

-- The position of an id in the order, counted from the end: the place of its last occurrence.
pub rank : List String → String → ℕ
rank [] x = 0
rank (y ∷ ys) x = if contains ys x then rank ys x else length ys

rank-lt-length : (ys : List String) (x : String) → contains ys x ≡ true → rank ys x < length ys
unfolding rank
rank-lt-length [] x h = cc
rank-lt-length (y ∷ ys) x h = ground (arith, rank-lt-length ys x)

-- In an order every dependency has a lower rank than what depends on it.
pub rank_decreases :
    (deps : String → List String) (ys : List String) (x : String)
    → IsOrdered deps ys
    → contains ys x ≡ true
    → All (λ d. (contains ys d ≡ true) × (rank ys d < rank ys x)) (deps x)
unfolding rank
rank_decreases deps [] x h m = cc
rank_decreases deps (y ∷ ys) x (here, later) m = elim (Bool-cases (contains ys x)) [
  | inl inside ↦
      All-map _ _ (λ d p. (contains-cons y d ys p.0, rw (p.0, inside) p.1)) (deps x)
        (rank_decreases deps ys x later inside)
  | inr head ↦
      let same : y ≡ x = contains-cons_ne y x ys m head in
      All-map _ _ (λ d p. (contains-cons y d ys p, rw (p, head) (rank-lt-length ys d p))) (deps x)
        (rw same at here)
]
