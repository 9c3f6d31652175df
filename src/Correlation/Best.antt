-- ===== src/Correlation/Best.antt =====
-- The routes that a request is resolved to are the best of all that serve it.
use mathlib.Core.List.{Memᴰ}
use mathlib.Core.Path.{subst}
use kase_ai.Prelude.{
  ℕ, suc, ◌≤◌, String, ◌≡◌, refl, sym, ap, ◌⊎◌, inl, inr, Bool, true, List, [], ◌∷◌, map, arith,
  ◌==◌, string_eq, nat_eq, filter, mem-filter, mem-map, contains, Bool-cases,
}
use kase_ai.Correlation.{
  ResolvedRoute, rank_of, methods, segments_of, candidates_of, highest_of, lowest_rank,
  most_specific, best_ranked, route_of, resolve_routes,
}

highest_of-le :
    (cs : List (ResolvedRoute × ℕ)) (c : ResolvedRoute × ℕ) → Memᴰ c cs → c.1 ≤ highest_of cs
highest_of-le [] c m = elim m [ ]
highest_of-le ((r, n) ∷ cs) c (Memᴰ.head e) = rw e (omega arith)
highest_of-le ((r, n) ∷ cs) c (Memᴰ.tail m) = omega (arith, highest_of-le cs c m)

lowest_rank-le :
    (cs : List (ResolvedRoute × ℕ)) (c : ResolvedRoute × ℕ)
    → Memᴰ c cs
    → lowest_rank cs ≤ rank_of c.0.source
lowest_rank-le [] c m = elim m [ ]
lowest_rank-le ((r, n) ∷ cs) c (Memᴰ.head e) = rw e (omega arith)
lowest_rank-le ((r, n) ∷ cs) c (Memᴰ.tail m) = omega (arith, lowest_rank-le cs c m)

mem-of_filter :
    (p : ResolvedRoute × ℕ → Bool) (cs : List (ResolvedRoute × ℕ)) (c : ResolvedRoute × ℕ)
    → Memᴰ c cs
    → p c ≡ true
    → Memᴰ c (filter p cs)
mem-of_filter p [] c m h = elim m [ ]
mem-of_filter p (d ∷ cs) c (Memᴰ.head e) h = rw (← e, h) (Memᴰ.head refl)
mem-of_filter p (d ∷ cs) c (Memᴰ.tail m) h =
    let later = mem-of_filter p cs c m h in
    elim (Bool-cases (p d)) [
      | inl kept ↦ rw kept (Memᴰ.tail later)
      | inr dropped ↦ rw dropped later
    ]

best_of :
    (cs : List (ResolvedRoute × ℕ)) (route other : ResolvedRoute) (k : ℕ)
    → Memᴰ route (map route_of (best_ranked (most_specific cs)))
    → Memᴰ (other, k) cs
    → (n : ℕ) × Memᴰ (route, n) cs
      × (k ≤ n)
      × ((suc k ≤ n) ⊎ (rank_of route.source ≤ rank_of other.source))
best_of cs route other k m c =
    let (x, m₁, same) = mem-map route_of (best_ranked (most_specific cs)) route m in
    let (m₂, low) =
      mem-filter (λ (c : ResolvedRoute × ℕ). rank_of c.0.source == lowest_rank (most_specific cs))
        (most_specific cs) x m₁ in
    let (m₃, high) = mem-filter (λ (c : ResolvedRoute × ℕ). c.1 == highest_of cs) cs x m₂ in
    let top = (nat_eq.eqb_iff x.1 (highest_of cs)).0 high in
    let first = (nat_eq.eqb_iff (rank_of x.0.source) (lowest_rank (most_specific cs))).0 low in
    let below = highest_of-le cs (other, k) c in
    (
      x.1,
      subst (λ r. Memᴰ (r, x.1) cs) (sym same) m₃,
      omega (arith, below, top),
      elim (Bool-cases (k == highest_of cs)) [
        | inl level ↦
            let among =
              mem-of_filter (λ (c : ResolvedRoute × ℕ). c.1 == highest_of cs) cs (other, k) c
                level in
            let above = lowest_rank-le (most_specific cs) (other, k) among in
            let mine : rank_of route.source ≡ rank_of x.0.source =
              ap (λ (r : ResolvedRoute). rank_of r.source) same in
            inr (omega (arith, above, first, mine))
        | inr lower ↦ inl (ground (arith, lower, below, top, nat_eq.eqb_iff k (highest_of cs)))
      ],
    )

-- A route that a request is resolved to serves it; no route that serves it is more specific, and none of
-- those that are as specific comes from a better source.
pub resolve_routes_best :
    (to_upper : String → String) (method pathname : String) (routes : List ResolvedRoute)
    (route other : ResolvedRoute) (k : ℕ)
    → Memᴰ route (resolve_routes to_upper method pathname routes)
    → Memᴰ
        (other, k)
        (candidates_of
          (segments_of pathname)
          (filter (λ r. to_upper r.method == to_upper method) routes))
    → (n : ℕ) × Memᴰ
        (route, n)
        (candidates_of
          (segments_of pathname)
          (filter (λ r. to_upper r.method == to_upper method) routes))
      × (k ≤ n)
      × ((suc k ≤ n) ⊎ (rank_of route.source ≤ rank_of other.source))
unfolding resolve_routes
resolve_routes_best to_upper method pathname routes route other k m c =
    elim (Bool-cases (contains methods (to_upper method))) [
      | inr unknown ↦ elim (rw unknown at m) [ ]
      | inl known ↦
          let cs =
            candidates_of (segments_of pathname)
              (filter (λ r. to_upper r.method == to_upper method) routes) in
          let m' : Memᴰ route (map route_of (best_ranked (most_specific cs))) = rw known at m in
          best_of cs route other k m' c
    ]
