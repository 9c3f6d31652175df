-- ===== src/Orchestrator/JobGraph/Search.antt =====
-- When the depth-first search of `validateJobGraph` fails: only on a cycle, never for want of fuel.
use kase_ai.Prelude.{
  ℕ, zero, suc, ◌≤◌, ◌<◌, String, ◌≡◌, ◌⊎◌, inl, inr, true, false, not, List, [], ◌∷◌, arith,
  Result, ok, err, ◌==◌, contains, contains-cons, contains-cons_self, string_eq, All, All-map,
  All-contains, Bool-cases, count_where, >>=-eq-err, ◌≢◌, length,
}
use kase_ai.Orchestrator.JobGraph.{
  JobGraphNode, GraphError, cycle, ids, dependencies_of, visit, visit_all,
}

pub visit_all-err :
    (search_from : List String → String → Result GraphError (List String))
    (ds visited : List String) (x : GraphError)
    → visit_all search_from visited ds ≡ err x
    → (v : List String) × (d : String) × (contains ds d ≡ true) × (search_from v d ≡ err x)
unfolding visit_all
visit_all-err search_from [] visited x e = cc
visit_all-err search_from (d ∷ ds) visited x e = elim (>>=-eq-err (search_from visited d) _ e) [
  | inl here ↦ (visited, d, contains-cons_self d ds, here)
  | inr (v, found, later) ↦
      let (w, d', mem, q) = visit_all-err search_from ds v x later in
      (w, d', contains-cons d d' ds mem, q)
]

-- A call that fails closes a cycle itself, or one of the calls that it makes fails.
pub visit-eq-err :
    (fuel : ℕ) (nodes : List JobGraphNode) (visiting visited : List String) (id : String)
    (x : GraphError)
    → visit (suc fuel) nodes visiting visited id ≡ err x
    → ((contains visiting id ≡ true) × (x ≡ cycle id))
      ⊎ ((contains visiting id ≡ false)
          × ((v : List String) × (d : String) × (contains (dependencies_of nodes id) d ≡ true)
              × (visit fuel nodes (id ∷ visiting) v d ≡ err x)))
unfolding visit
visit-eq-err fuel nodes visiting visited id x e = elim (Bool-cases (contains visiting id)) [
  | inl on_path ↦ let bad : err (cycle id) ≡ err x = rw on_path at e in inl (on_path, cc)
  | inr off_path ↦ elim (Bool-cases (contains visited id)) [
    | inl done ↦ let bad : ok visited ≡ err x = rw (off_path, done) at e in cc
    | inr fresh ↦ elim (>>=-eq-err _ (λ v. ok (id ∷ v)) (rw (off_path, fresh) at e)) [
      | inl inside ↦ inr (
        off_path,
        visit_all-err (visit fuel nodes (id ∷ visiting)) (dependencies_of nodes id) visited x
            inside,
      )
      | inr (v, found, bad) ↦ cc
    ]
  ]
]

-- How many of `ys` are not on the path of the search.
pub room : List String → List String → ℕ
room ys visiting = count_where (λ y. not (contains visiting y)) ys

room-cons_le :
    (ys visiting : List String) (id : String) → room ys (id ∷ visiting) ≤ room ys visiting
unfolding room
room-cons_le [] visiting id = omega arith
room-cons_le (y ∷ ys) visiting id = ground (arith, room-cons_le ys visiting id)

room-cons_lt :
    (ys visiting : List String) (id : String)
    → contains ys id ≡ true
    → contains visiting id ≡ false
    → room ys (id ∷ visiting) < room ys visiting
unfolding room
room-cons_lt [] visiting id m h = cc
room-cons_lt (y ∷ ys) visiting id m h = elim (Bool-cases (y == id)) [
  | inl same ↦
      let p : y ≡ id = (string_eq.eqb_iff y id).0 same in
      let q : (id == y) ≡ true = (string_eq.eqb_iff id y).1 (cc) in
      let off : contains visiting y ≡ false = rw p h in ground (arith, room-cons_le ys visiting id)
  | inr apart ↦ ground (arith, room-cons_lt ys visiting id, room-cons_le ys visiting id)
]

pub room-le-length :
    (nodes : List JobGraphNode) (visiting : List String) → room (ids nodes) visiting ≤ length nodes
unfolding room
room-le-length [] visiting = omega arith
room-le-length (n ∷ ns) visiting = ground (arith, room-le-length ns visiting)

-- With a unit of fuel for each node that is not on the path, a failure is a cycle.
pub visit_fails_by_cycle :
    (fuel : ℕ) (nodes : List JobGraphNode) (visiting visited : List String) (id : String)
    (x : GraphError)
    → ((i : String) → All (λ d. contains (ids nodes) d ≡ true) (dependencies_of nodes i))
    → contains (ids nodes) id ≡ true
    → room (ids nodes) visiting < fuel
    → visit fuel nodes visiting visited id ≡ err x
    → (i : String) × (x ≡ cycle i)
visit_fails_by_cycle zero nodes visiting visited id x present m h e = absurd (omega arith)
visit_fails_by_cycle (suc fuel) nodes visiting visited id x present m h e =
    elim (visit-eq-err fuel nodes visiting visited id x e) [
      | inl (on_path, same) ↦ (id, same)
      | inr (off_path, (v, d, dep, later)) ↦
          visit_fails_by_cycle fuel nodes (id ∷ visiting) v d x present
            (All-contains _ (dependencies_of nodes id) d (present id) dep)
            (omega (arith, room-cons_lt (ids nodes) visiting id m off_path)) later
    ]

-- Where dependencies have lower ranks, and every id on the path a higher one, there is no cycle.
pub visit_no_cycle :
    (r : String → ℕ) (fuel : ℕ) (nodes : List JobGraphNode) (visiting visited : List String)
    (id i : String)
    → ((k : String) → All (λ d. r d < r k) (dependencies_of nodes k))
    → All (λ v. r id < r v) visiting
    → visit fuel nodes visiting visited id ≢ err (cycle i)
visit_no_cycle r zero nodes visiting visited id i ranked h e = unfold visit in cc
visit_no_cycle r (suc fuel) nodes visiting visited id i ranked h e =
    elim (visit-eq-err fuel nodes visiting visited id (cycle i) e) [
      | inl (on_path, same) ↦
          let bad : r id < r id = All-contains _ visiting id h on_path in absurd (omega arith)
      | inr (off_path, (v, d, dep, later)) ↦
          let below : r d < r id = All-contains _ (dependencies_of nodes id) d (ranked id) dep in
          visit_no_cycle r fuel nodes (id ∷ visiting) v d i ranked
            (below, All-map _ _ (λ v' p. omega arith) visiting h) later
    ]
