-- ===== src/Retention/Worker/Claims.antt =====
-- Which rows a batch claims, and which it leaves to others.
use mathlib.Core.List.{Memᴰ}
use mathlib.Core.Path.{subst}
use kase_ai.Prelude.{
  ℕ, ◌+◌, ◌<◌, String, ◌≡◌, refl, ap, ◌⊎◌, inl, inr, Bool, true, false, ◌&&◌, some, List, [], ◌∷◌,
  map, arith, string_eq, nat_eq, filter, mem-filter, mem-take, mem-map, mem-of_contains,
  mem-update_cases, contains, Bool-cases, is_some, IsKeyed, keyed_unique,
}
use kase_ai.Retention.{Evidence, RetentionTables}
use kase_ai.Retention.Policy.Writes.{project_of}
use kase_ai.Retention.Worker.{
  RetentionCandidate, is_claimable, insert_row, in_order, comes_first, claimable_rows, claim_batch,
  candidate, leased, retention_lease_ms, retention_batch_limit,
}

module _ {ℓ} {A : Type ℓ} {x y : A} where
  mem-cons_weaken : {xs ys : List A} → Memᴰ x (y ∷ xs) → (Memᴰ x xs → Memᴰ x ys) → Memᴰ x (y ∷ ys)
  mem-cons_weaken (Memᴰ.head e) k = Memᴰ.head e
  mem-cons_weaken (Memᴰ.tail m) k = Memᴰ.tail (k m)

  mem-second : {ys : List A} {z : A} → Memᴰ x (z ∷ ys) → Memᴰ x (z ∷ y ∷ ys)
  mem-second (Memᴰ.head e) = Memᴰ.head e
  mem-second (Memᴰ.tail m) = Memᴰ.tail (Memᴰ.tail m)

  mem-cons_past :
      {z : A} {xs ys : List A}
      → Memᴰ x (y ∷ xs)
      → (Memᴰ x xs → Memᴰ x (z ∷ ys))
      → Memᴰ x (z ∷ y ∷ ys)
  mem-cons_past (Memᴰ.head e) k = Memᴰ.tail (Memᴰ.head e)
  mem-cons_past (Memᴰ.tail m) k = mem-second (k m)

module _ (id_le : String → String → Bool) where
  mem-insert_row :
      (e : Evidence) (fs : List Evidence) (x : Evidence)
      → Memᴰ x (insert_row id_le e fs)
      → Memᴰ x (e ∷ fs)
  mem-insert_row e [] x m = m
  mem-insert_row e (f ∷ fs) x m = elim (Bool-cases (comes_first id_le e f)) [
    | inl first ↦ rw first at m
    | inr later ↦ mem-cons_past (rw later at m) (mem-insert_row e fs x)
  ]

  mem-in_order : (es : List Evidence) (x : Evidence) → Memᴰ x (in_order id_le es) → Memᴰ x es
  mem-in_order [] x m = m
  mem-in_order (e ∷ es) x m =
      mem-cons_weaken (mem-insert_row e (in_order id_le es) x m) (mem-in_order es x)

  pub claimable_row :
      (now : ℕ) (db : RetentionTables) (e : Evidence)
      → Memᴰ e (claimable_rows id_le now db)
      → Memᴰ e db.evidence × (is_claimable now e ≡ true)
  unfolding claimable_rows
  claimable_row now db e m =
      let p : Evidence → Bool = λ k. is_claimable now k && is_some (project_of k db) in
      let (k, h) =
        mem-filter p db.evidence e
          (mem-in_order (filter p db.evidence) e (mem-take retention_batch_limit _ e m)) in
      (k, ground (arith, h))

  -- Of a table whose ids differ, exactly the claimed rows carry the new lease.
  pub claimed_row :
      (now : ℕ) (db : RetentionTables) (e : Evidence)
      → IsKeyed (λ k. k.id) db.evidence
      → Memᴰ e db.evidence
      → contains (map (λ k. k.id) (claimable_rows id_le now db)) e.id ≡ true
      → is_claimable now e ≡ true
  claimed_row now db e u m h =
      let (r, k, same) = mem-of_contains (λ k. k.id) (claimable_rows id_le now db) e.id h in
      let (k', claimable) = claimable_row now db r k in
      subst (λ x. is_claimable now x ≡ true) (keyed_unique (λ x. x.id) db.evidence r e u k' m same)
        claimable

  -- What a claim leaves: a row that it has not claimed, or one that carries its lease.
  claimed_cases :
      (now : ℕ) (lease_id : String) (db : RetentionTables) (e : Evidence)
      → Memᴰ e (claim_batch id_le now lease_id db).1.evidence
      → (contains (map (λ k. k.id) (claimable_rows id_le now db)) e.id ≡ false)
        ⊎ (e.deletion_lease_expires_at ≡ some (now + retention_lease_ms))
  unfolding claim_batch
  claimed_cases now lease_id db e m =
      let ids = map (λ k. k.id) (claimable_rows id_le now db) in
      let (x, _, c) =
        mem-update_cases (λ k. contains ids k.id) (leased lease_id (now + retention_lease_ms))
          db.evidence e m in
      elim c [
        | inl (hit, same) ↦ inr (ap (λ k. k.deletion_lease_expires_at) same)
        | inr (miss, same) ↦ inl (rw same miss)
      ]

  candidate_ids :
      (db : RetentionTables) (rs : List Evidence)
      → map (λ c. c.id) (map (candidate db) rs) ≡ map (λ k. k.id) rs
  candidate_ids db [] = refl
  candidate_ids db (r ∷ rs) = ap (λ ids. r.id ∷ ids) (candidate_ids db rs)

  -- While the lease of a batch has not run out, no row that it claimed is claimed by the next batch,
  -- whichever worker runs it.
  pub claims_disjoint :
      (now later : ℕ) (lease next_lease : String) (db : RetentionTables) (c : RetentionCandidate)
      → later < now + retention_lease_ms
      → Memᴰ c (claim_batch id_le later next_lease (claim_batch id_le now lease db).1).0
      → contains (map (λ k. k.id) (claim_batch id_le now lease db).0) c.id ≡ false
  claims_disjoint now later lease next_lease db c early m =
      let first = (claim_batch id_le now lease db).1 in
      let (e, k, same) =
        mem-map (candidate first) (claimable_rows id_le later first) c (unfold claim_batch in m) in
      let (held, claimable) = claimable_row later first e k in
      elim (claimed_cases now lease db e held) [
        | inl apart ↦
            unfold claim_batch in rw (same, candidate_ids db (claimable_rows id_le now db)) apart
        | inr leased_until ↦ ground (arith, leased_until, claimable, early)
      ]
