-- ===== src/Secrets/Rotation.antt =====
-- The value of a rotated secret, from its encryption to the worker that reads it.
use kase_ai.Prelude.{
  ℕ, ◌+◌, String, ◌≡◌, refl, ◌∙◌, none, some, [], ◌∷◌, ◌++◌, arith, string_eq, ok, >>=-eq-ok,
  throw_if, or_throw, filter, update_where, is_some, mem-filter, mem-update_where, filter-snoc,
}
use kase_ai.Orchestrator.History.Keys.{find-eq-some}
use kase_ai.Projects.{Actor}
use kase_ai.Secrets.{
  Platform, IsPlatform, KeyEncryptionProvider, IsProvider, Draws, encrypt, decrypt-encrypt,
}
use kase_ai.Secrets.Service.{
  SecretTables, SecretView, conflict, not_found, version_data, context_for, is_current, is_live,
  is_wanted, highest, rotated_row, find_secret, claim_rotation, rotate_secret, resolve_for_worker,
}
use kase_ai.Secrets.Versions.{IsVersioned, claim_rotation-IsRotated}
use kase_ai.Secrets.Keeping.{highest-snoc, find-of_mem, current_facts}

module _ (node : Platform) (keys : KeyEncryptionProvider) where
  claimed_value_resolves :
      (version_id : String) (draws : Draws) (project_id id : String) (read : ℕ) (value : String)
      (actor : Actor) (now : ℕ) (view : SecretView) (db db' : SecretTables)
      → IsPlatform node
      → IsProvider keys
      → IsVersioned db
      → claim_rotation node keys version_id draws project_id id read value actor now db
        ≡ ok (view, db')
      → resolve_for_worker node keys project_id id none db' ≡ ok value
  unfolding resolve_for_worker
  claimed_value_resolves version_id draws project_id id read value actor now view db db' sound wraps
        h e =
      let did =
        claim_rotation-IsRotated node keys version_id draws project_id id read value actor now view
          db db' e in
      let (ours, at, live) = current_facts project_id id read did.found did.claimed in
      let version =
        version_data version_id id (read + 1) actor
          (encrypt node keys draws value (context_for id (read + 1))) in
      let claim = is_current project_id id read in
      let (secret, found) =
        find-of_mem (is_live project_id id)
          (update_where claim (rotated_row (read + 1) now) db.secrets)
          (rotated_row (read + 1) now did.found)
          (mem-update_where claim (rotated_row (read + 1) now) db.secrets did.found did.listed
            did.claimed)
          live in
      let (_, hit) = find-eq-some (is_live project_id id) _ secret found in
      let own : secret.id ≡ id = ground (arith, hit, string_eq.eqb_iff secret.id id) in
      let wanted = (string_eq.eqb_iff id id).1 refl in
      let last : highest (filter (is_wanted id none) db.versions ++ version ∷ []) ≡ some version =
        highest-snoc (filter (is_wanted id none) db.versions) version (λ w m.
          let (k, mine) = mem-filter (is_wanted id none) db.versions w m in
          let shared : w.secret_id ≡ id = ground (arith, mine, string_eq.eqb_iff w.secret_id id) in
          let low = h.bounded w k did.found did.listed (shared ∙ ours) in omega (arith, low, at)) in
      rw
        (
          did.rows,
          found,
          own,
          did.added,
          filter-snoc (is_wanted id none) db.versions version,
          wanted,
          last,
          decrypt-encrypt node keys draws value (context_for id (read + 1)) sound wraps,
        )
        refl

  -- Under a platform and a provider of keys that keep their contracts, and on tables where no version is
  -- higher than its secret's current one, a worker reads after a rotation the value that the secret was
  -- rotated to.
  pub rotated_secret_resolves :
      (version_id : String) (draws : Draws) (project_id id : String) (value : String)
      (actor : Actor) (now : ℕ) (view : SecretView) (db db' : SecretTables)
      → IsPlatform node
      → IsProvider keys
      → IsVersioned db
      → rotate_secret node keys version_id draws project_id id value actor now db ≡ ok (view, db')
      → resolve_for_worker node keys project_id id none db' ≡ ok value
  unfolding rotate_secret
  rotated_secret_resolves version_id draws project_id id value actor now view db db' sound wraps h
        e =
      let (current, _, e₁) = >>=-eq-ok (or_throw (find_secret project_id id db) not_found) _ e in
      let (_, _, e₂) = >>=-eq-ok (throw_if (is_some current.revoked_at) conflict) _ e₁ in
      claimed_value_resolves version_id draws project_id id current.current_version value actor now
        view db db' sound wraps h e₂
