-- ===== src/Orchestrator/JobGraph/Renaming.antt =====
-- Giving the jobs of a valid graph other ids, distinct ones, leaves it valid.
use kase_ai.Prelude.{
  ℕ, ◌<◌, String, ◌≡◌, refl, inl, inr, true, false, List, [], ◌∷◌, map, arith, ◌==◌, contains,
  string_eq, All, All-zip, ap, ◌∙◌, if◌then◌else◌, contains-cons, contains-cons_self, Bool-cases,
}
use kase_ai.Orchestrator.JobGraph.{JobGraphNode, ids}
use kase_ai.Orchestrator.JobGraph.Validation.{IsUnique, IsRanked, IsValid}

unfoldable pub rename : (String → String) → JobGraphNode → JobGraphNode
rename f n = record n { id = f n.id; depends_on = map f n.depends_on }

ids_known_from :
    (known : List String) (nodes : List JobGraphNode)
    → ((x : String) → contains (ids nodes) x ≡ true → contains known x ≡ true)
    → All (λ n. contains known n.id ≡ true) nodes
ids_known_from known [] k = tt
ids_known_from known (n ∷ ns) k = (
  k n.id (contains-cons_self n.id (ids ns)),
  ids_known_from known ns (λ x m. k x (contains-cons n.id x (ids ns) m)),
)

ids_known : (nodes : List JobGraphNode) → All (λ n. contains (ids nodes) n.id ≡ true) nodes
ids_known nodes = ids_known_from (ids nodes) nodes (λ x m. m)

module _ (f : String → String) (injective : (a b : String) → f a ≡ f b → a ≡ b) where
  contains-map : (xs : List String) (a : String) → contains (map f xs) (f a) ≡ contains xs a
  contains-map [] a = refl
  contains-map (x ∷ xs) a = elim (Bool-cases (x == a)) [
    | inl same ↦
        let p : f x ≡ f a = ap f ((string_eq.eqb_iff x a).0 same) in
        rw (same, (string_eq.eqb_iff (f x) (f a)).1 p) refl
    | inr apart ↦ elim (Bool-cases (f x == f a)) [
      | inl same ↦
          let p : (x == a) ≡ true =
            (string_eq.eqb_iff x a).1 (injective x a ((string_eq.eqb_iff (f x) (f a)).0 same)) in
          cc
      | inr apart' ↦ rw (apart, apart') (contains-map xs a)
    ]
  ]

  IsUnique-map : (xs : List String) → IsUnique xs → IsUnique (map f xs)
  IsUnique-map [] u = tt
  IsUnique-map (x ∷ xs) (once, u) = (contains-map xs x ∙ once, IsUnique-map xs u)

  ids-rename : (nodes : List JobGraphNode) → ids (map (rename f) nodes) ≡ map f (ids nodes)
  unfolding rename
  ids-rename [] = refl
  ids-rename (n ∷ ns) = rw (ids-rename ns)

  -- The rank of a new id is that of the node whose id it stands for.
  new_rank : (String → ℕ) → List JobGraphNode → String → ℕ
  new_rank r [] y = 0
  new_rank r (n ∷ ns) y = if f n.id == y then r n.id else new_rank r ns y

  new_rank_lem :
      (r : String → ℕ) (nodes : List JobGraphNode) (x : String)
      → contains (ids nodes) x ≡ true
      → new_rank r nodes (f x) ≡ r x
  unfolding new_rank
  new_rank_lem r [] x h = cc
  new_rank_lem r (n ∷ ns) x h = elim (Bool-cases (f n.id == f x)) [
    | inl same ↦ rw same (ap r (injective n.id x ((string_eq.eqb_iff (f n.id) (f x)).0 same)))
    | inr apart ↦
        let other : (n.id == x) ≡ false = ground (arith, contains-map (n.id ∷ []) x) in
        rw apart (new_rank_lem r ns x (ground arith))
  ]

  All-rename :
      (P Q : String → Type 0) (ds : List String)
      → ((d : String) → P d → Q (f d))
      → All P ds
      → All Q (map f ds)
  All-rename P Q [] k h = tt
  All-rename P Q (d ∷ ds) k (p, h) = (k d p, All-rename P Q ds k h)

  present-rename :
      (known : List String) (nodes : List JobGraphNode)
      → All (λ n. All (λ d. contains known d ≡ true) n.depends_on) nodes
      → All (λ n. All (λ d. contains (map f known) d ≡ true) n.depends_on) (map (rename f) nodes)
  unfolding rename
  present-rename known [] h = tt
  present-rename known (n ∷ ns) (p, h) =
      (All-rename _ _ n.depends_on (λ d q. contains-map known d ∙ q) p, present-rename known ns h)

  IsRanked-rename :
      (r r' : String → ℕ) (known : List String) (nodes : List JobGraphNode)
      → ((x : String) → contains known x ≡ true → r' (f x) ≡ r x)
      → All (λ n. All (λ d. contains known d ≡ true) n.depends_on) nodes
      → All (λ n. contains known n.id ≡ true) nodes
      → IsRanked r nodes
      → IsRanked r' (map (rename f) nodes)
  unfolding rename
  IsRanked-rename r r' known [] same present here ranked = tt
  IsRanked-rename r r' known (n ∷ ns) same (p, present) (m, here) (q, ranked) = (
    All-rename (λ d. (contains known d ≡ true) × (r d < r n.id)) _ n.depends_on
        (λ d k. rw (same d k.0, same n.id m) k.1) (All-zip _ _ n.depends_on p q),
    IsRanked-rename r r' known ns same present here ranked,
  )

  -- Ranks carry over to the new ids.
  pub IsValid-rename : (nodes : List JobGraphNode) → IsValid nodes → IsValid (map (rename f) nodes)
  IsValid-rename nodes h = record {
    unique = rw (ids-rename nodes) (IsUnique-map (ids nodes) h.unique);
    present = rw (ids-rename nodes) (present-rename (ids nodes) nodes h.present);
    acyclic = (
      new_rank h.acyclic.0 nodes,
      IsRanked-rename h.acyclic.0 _ (ids nodes) nodes (new_rank_lem h.acyclic.0 nodes) h.present
          (ids_known nodes) h.acyclic.1,
    );
  }
