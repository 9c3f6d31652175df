-- ===== src/Secrets/Frozen.antt =====
-- What a worker reads of a frozen version is always the same value.
use mathlib.Core.List.{Memᴰ}
use kase_ai.Prelude.{
  ℕ, ◌+◌, String, ◌≡◌, refl, sym, ◌∙◌, inl, inr, true, false, some, [], ◌∷◌, ◌++◌, map, arith, ◌==◌,
  string_eq, nat_eq, ok, >>=-eq-ok, or_throw, or_throw-eq-ok, find, filter, contains, mem-filter,
  filter-snoc, Bool-cases, Star, Star-keeps,
}
use kase_ai.Orchestrator.History.Keys.{find-eq-some}
use kase_ai.Secrets.{Platform, KeyEncryptionProvider, decrypt}
use kase_ai.Secrets.Service.{
  SecretRow, SecretVersion, SecretTables, not_found, context_for, is_current, is_live, is_wanted,
  highest, deciphered, resolve_for_worker,
}
use kase_ai.Secrets.Versions.{
  id_of, IsVersioned, created-IsVersioned, rotated-IsVersioned, SecretStep, creates, claims,
  revokes, create_secret-IsCreated, claim_rotation-IsRotated, true_false,
}
use kase_ai.Secrets.Keeping.{
  highest-mem, current_facts, revoke_secret-rows, same-IsVersioned, revoked-IsVersioned,
}

-- What a worker reads of a frozen version, whatever the secret's row is.
record IsPinned (node : Platform) (keys : KeyEncryptionProvider) (id : String) (frozen : ℕ)
    (value : String) (db : SecretTables) : Type 0 where
  version : SecretVersion
  chosen : highest (filter (is_wanted id (some frozen)) db.versions) ≡ some version
  opened : deciphered (decrypt node keys version.value (context_for id version.version)) ≡ ok value

module _ (node : Platform) (keys : KeyEncryptionProvider) where
  pub step-IsVersioned :
      (db db' : SecretTables) → SecretStep node keys db db' → IsVersioned db → IsVersioned db'
  step-IsVersioned db db' (creates id version_id draws project_id dto actor now view e) h =
      let made =
        create_secret-IsCreated node keys id version_id draws project_id dto actor now view db db'
          e in
      created-IsVersioned db db' _ _ made.rows made.added made.fresh refl (omega arith) h
  step-IsVersioned db db' (claims version_id draws project_id id read value actor now view e) h =
      let done_so =
        claim_rotation-IsRotated node keys version_id draws project_id id read value actor now view
          db db' e in
      rotated-IsVersioned (is_current project_id id read) (read + 1) now db db' done_so.found _
        done_so.rows done_so.added done_so.listed
        (λ t k. let (_, at, _) = current_facts project_id id read t k in omega (arith, at))
        done_so.claimed (current_facts project_id id read done_so.found done_so.claimed).0 refl h
  step-IsVersioned db db' (revokes project_id id actor now e) h =
      let (old, rows) = revoke_secret-rows project_id id actor now db db' e in
      elim rows [
        | inl same ↦ same-IsVersioned db db' old same h
        | inr changed ↦ revoked-IsVersioned (λ s. s.id == id) now db db' old changed h
      ]

  pinned_row :
      (id : String) (frozen : ℕ) (value : String) (db : SecretTables)
      (k : IsPinned node keys id frozen value db)
      → Memᴰ k.version db.versions × (k.version.secret_id ≡ id) × (k.version.version ≡ frozen)
  pinned_row id frozen value db k =
      let (m, wanted) =
        mem-filter (is_wanted id (some frozen)) db.versions k.version
          (highest-mem _ k.version k.chosen) in
      (
        m,
        ground (arith, wanted, string_eq.eqb_iff k.version.secret_id id),
        ground (arith, wanted, nat_eq.eqb_iff k.version.version frozen),
      )

  -- A version of another secret, or of another number, does not matter.
  added-IsPinned :
      (id : String) (frozen : ℕ) (value : String) (db db' : SecretTables) (v : SecretVersion)
      → db'.versions ≡ db.versions ++ v ∷ []
      → is_wanted id (some frozen) v ≡ false
      → IsPinned node keys id frozen value db
      → IsPinned node keys id frozen value db'
  added-IsPinned id frozen value db db' v added other k = record {
    version = k.version;
    chosen = rw (added, filter-snoc (is_wanted id (some frozen)) db.versions v, other) k.chosen;
    opened = k.opened;
  }

  step-IsPinned :
      (id : String) (frozen : ℕ) (value : String) (db db' : SecretTables)
      → SecretStep node keys db db'
      → IsVersioned db
      → IsPinned node keys id frozen value db
      → IsPinned node keys id frozen value db'
  step-IsPinned id frozen value db db'
        (creates new version_id draws project_id dto actor now view e) h k =
      let made =
        create_secret-IsCreated node keys new version_id draws project_id dto actor now view db db'
          e in
      let (m, own, _) = pinned_row id frozen value db k in
      let owned : contains (map id_of db.secrets) id ≡ true = rw (← own) (h.owned k.version m) in
      added-IsPinned id frozen value db db' _ made.added
        (elim (Bool-cases (new == id)) [
          | inl same ↦ true_false owned (rw (← (string_eq.eqb_iff new id).0 same) made.fresh)
          | inr apart ↦ ground (arith, apart)
        ])
        k
  step-IsPinned id frozen value db db'
        (claims version_id draws project_id other read text actor now view e) h k =
      let did =
        claim_rotation-IsRotated node keys version_id draws project_id other read text actor now
          view db db' e in
      let (m, own, at) = pinned_row id frozen value db k in
      let (ours, now_at, _) = current_facts project_id other read did.found did.claimed in
      added-IsPinned id frozen value db db' _ did.added
        (elim (Bool-cases (other == id)) [
          | inl same ↦
              let one : k.version.secret_id ≡ did.found.id =
                own ∙ sym ((string_eq.eqb_iff other id).0 same) ∙ ours in
              let low = h.bounded k.version m did.found did.listed one in
              ground (arith, low, at, now_at, nat_eq.eqb_iff (read + 1) frozen)
          | inr apart ↦ ground (arith, apart)
        ])
        k
  step-IsPinned id frozen value db db' (revokes project_id other actor now e) h k =
      let (old, _) = revoke_secret-rows project_id other actor now db db' e in
      record { version = k.version; chosen = rw old k.chosen; opened = k.opened }

  history-IsPinned :
      (id : String) (frozen : ℕ) (value : String) (db db' : SecretTables)
      → Star (SecretStep node keys) db db'
      → IsVersioned db
      → IsPinned node keys id frozen value db
      → IsPinned node keys id frozen value db'
  history-IsPinned id frozen value db db' steps h k =
      (Star-keeps (λ t. IsVersioned t × IsPinned node keys id frozen value t)
        (λ a b s (v, p). (step-IsVersioned a b s v, step-IsPinned id frozen value a b s v p)) steps
        (h, k)).1

  resolve-IsPinned :
      (project_id id : String) (frozen : ℕ) (value : String) (db : SecretTables)
      → resolve_for_worker node keys project_id id (some frozen) db ≡ ok value
      → IsPinned node keys id frozen value db
  unfolding resolve_for_worker
  resolve-IsPinned project_id id frozen value db e =
      let (secret, live, e₁) =
        >>=-eq-ok (or_throw (find (is_live project_id id) db.secrets) not_found) _ e in
      let (version, picked, e₂) =
        >>=-eq-ok
          (or_throw (highest (filter (is_wanted secret.id (some frozen)) db.versions)) not_found) _
          e₁ in
      let (_, hit) =
        find-eq-some (is_live project_id id) db.secrets secret (or_throw-eq-ok _ _ live) in
      let own : secret.id ≡ id = ground (arith, hit, string_eq.eqb_iff secret.id id) in
      record {
        version = version;
        chosen = rw (← own) (or_throw-eq-ok _ _ picked);
        opened = rw (← own) e₂;
      }

  pinned-resolves :
      (project_id id : String) (frozen : ℕ) (value : String) (db : SecretTables)
      (secret : SecretRow)
      → IsPinned node keys id frozen value db
      → find (is_live project_id id) db.secrets ≡ some secret
      → resolve_for_worker node keys project_id id (some frozen) db ≡ ok value
  unfolding resolve_for_worker
  pinned-resolves project_id id frozen value db secret k found =
      let (_, hit) = find-eq-some (is_live project_id id) db.secrets secret found in
      let own : secret.id ≡ id = ground (arith, hit, string_eq.eqb_iff secret.id id) in
      rw (found, own, k.chosen) k.opened

  -- On tables where no version is higher than its secret's current one: once a worker can read a frozen
  -- version of a secret, then whatever secrets are created, rotated and revoked later, it reads the same
  -- value as long as the secret is not revoked.
  pub frozen_version_keeps :
      (project_id id : String) (frozen : ℕ) (value : String) (db db' : SecretTables)
      (secret : SecretRow)
      → IsVersioned db
      → resolve_for_worker node keys project_id id (some frozen) db ≡ ok value
      → Star (SecretStep node keys) db db'
      → find (is_live project_id id) db'.secrets ≡ some secret
      → resolve_for_worker node keys project_id id (some frozen) db' ≡ ok value
  frozen_version_keeps project_id id frozen value db db' secret h read steps live =
      pinned-resolves project_id id frozen value db' secret
        (history-IsPinned id frozen value db db' steps h
          (resolve-IsPinned project_id id frozen value db read))
        live
