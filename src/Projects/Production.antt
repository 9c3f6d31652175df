-- ===== src/Projects/Production.antt =====
-- What `updateTarget` demands before it changes a target in production.
use mathlib.Core.List.{Memᴰ}
use kase_ai.Prelude.{
  ℕ, ◌+◌, ◌≤◌, String, ◌≡◌, sym, ap, inl, inr, true, ◌||◌, some, List, [], ◌∷◌, arith, ◌==◌,
  string_eq, ok, >>=-eq-ok, throw_if-eq-ok, or_throw, or_throw-eq-ok, mem-filter, ltb, Bool-cases,
}
use kase_ai.Projects.{
  Actor, ScopePolicy, Target, ProjectTables, attestation_required, attestation_max_age_ms,
  is_attestation_stale, newer_of, newest, current_policy, assert_credential_usable, is_production,
}
use kase_ai.Projects.Sections.{
  UpdateTarget, find_target, to_production, assert_fresh_attestation, update_target,
}

some_injective {ℓ} : {A : Type ℓ} {a b : A} → some a ≡ some b → a ≡ b
some_injective e = cc

newest-mem : (ps : List ScopePolicy) (p : ScopePolicy) → newest ps ≡ some p → Memᴰ p ps
newest-mem [] p e = ground (arith, e)
newest-mem (q ∷ []) p e = Memᴰ.head (sym (some_injective e))
newest-mem (q ∷ r ∷ ps) p e =
    let later = newer_of r (newest ps) in
    elim (Bool-cases (ltb q.authorization_attested_at later.authorization_attested_at)) [
      | inl older ↦
          let same : later ≡ p = some_injective (rw older at e) in
          Memᴰ.tail (newest-mem (r ∷ ps) p (ap some same))
      | inr kept ↦ Memᴰ.head (sym (some_injective (rw kept at e)))
    ]

fresh_policy :
    (project_id : String) (now : ℕ) (db : ProjectTables)
    → assert_fresh_attestation project_id now db ≡ ok tt
    → (policy : ScopePolicy) × Memᴰ policy db.scope_policies
      × (policy.project_id ≡ project_id)
      × (now ≤ policy.authorization_attested_at + attestation_max_age_ms)
unfolding assert_fresh_attestation
fresh_policy project_id now db e =
    let (policy, found, e₁) =
      >>=-eq-ok (or_throw (current_policy project_id db) attestation_required) _ e in
    let listed = newest-mem _ policy (or_throw-eq-ok _ _ found) in
    let (m, own) = mem-filter (λ p. p.project_id == project_id) db.scope_policies policy listed in
    let fresh = throw_if-eq-ok (is_attestation_stale policy.authorization_attested_at now) _ e₁ in
    (policy, m, (string_eq.eqb_iff policy.project_id project_id).0 own, ground (arith, fresh))

-- A target that is in production, or that is moved there, is changed only if the project has a scope
-- policy that was attested at most 365 days ago.
pub production_change_attested :
    (project_id id : String) (dto : UpdateTarget) (actor : Actor) (now : ℕ) (before : Target)
    (db db' : ProjectTables)
    → find_target project_id id db ≡ some before
    → (is_production before.environment || to_production dto.environment) ≡ true
    → update_target project_id id dto actor now db ≡ ok db'
    → (policy : ScopePolicy) × Memᴰ policy db.scope_policies
      × (policy.project_id ≡ project_id)
      × (now ≤ policy.authorization_attested_at + attestation_max_age_ms)
unfolding update_target
production_change_attested project_id id dto actor now before db db' found touched e =
    let e₀ = rw found at e in
    let (_, _, e₁) =
      >>=-eq-ok (assert_credential_usable project_id dto.auth_credential_id db) _ e₀ in
    let (_, fresh, _) =
      >>=-eq-ok (assert_fresh_attestation project_id now db) _ (rw touched at e₁) in
    fresh_policy project_id now db fresh
