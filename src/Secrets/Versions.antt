-- ===== src/Secrets/Versions.antt =====
-- The versions of the secrets in any order of creations, rotations and revocations: no version is higher
-- than the one that its secret calls current.
use mathlib.Core.List.{Memᴰ}
use mathlib.Core.Path.{subst}
use kase_ai.Prelude.{
  ℕ, ◌+◌, ◌≤◌, String, ◌≡◌, refl, sym, ap, ◌⊎◌, inl, inr, Bool, true, false, not, ◌||◌, List, [],
  ◌∷◌, ◌++◌, map, arith, ◌==◌, string_eq, nat_eq, ok, ok_injective, >>=-eq-ok, throw_if,
  throw_if-eq-ok, or_throw, find, any, contains, count_where, update_where, IsKeyed, IsKeyed-snoc,
  IsKeyed-update, IsKeyed-update_keys, contains-snoc, keyed_unique, mem-key, mem-snoc,
  mem-update_cases, mem-of_count,
}
use kase_ai.Projects.{Actor}
use kase_ai.Secrets.{Platform, KeyEncryptionProvider, Draws, encrypt}
use kase_ai.Secrets.Service.{
  SecretRow, SecretVersion, SecretTables, SecretView, CreateSecret, conflict, unique_violated,
  foreign_key_violated, not_found, new_secret, version_data, context_for, is_same_secret,
  is_same_version, is_current, rotated_row, create_secret, claim_rotation, revoke_secret,
}

abbrev pub id_of : SecretRow → String
id_of s = s.id

pub record IsVersioned (db : SecretTables) : Type 0 where
  pub keyed : IsKeyed id_of db.secrets
  pub bounded :
      (v : SecretVersion)
      → Memᴰ v db.versions
      → (s : SecretRow) → Memᴰ s db.secrets
      → v.secret_id ≡ s.id
      → v.version ≤ s.current_version
  pub owned :
      (v : SecretVersion) → Memᴰ v db.versions → contains (map id_of db.secrets) v.secret_id ≡ true

pub true_false {ℓ} : {P : Type ℓ} {b : Bool} → b ≡ true → b ≡ false → P
true_false t f = cc

module _ (db : SecretTables) (h : IsVersioned db) (w : SecretVersion) where
  created-bounded :
      (s t : SecretRow) (v : SecretVersion)
      → contains (map id_of db.secrets) s.id ≡ false
      → v.secret_id ≡ s.id
      → v.version ≤ s.current_version
      → Memᴰ w db.versions ⊎ (w ≡ v)
      → Memᴰ t db.secrets ⊎ (t ≡ s)
      → w.secret_id ≡ t.id
      → w.version ≤ t.current_version
  created-bounded s t v fresh own bound (inl m) (inl k) e = h.bounded w m t k e
  created-bounded s t v fresh own bound (inl m) (inr same) e =
      true_false (h.owned w m) (rw (e, same) fresh)
  created-bounded s t v fresh own bound (inr new) (inl k) e =
      let shared : t.id ≡ s.id = cc in true_false (mem-key id_of db.secrets t k) (rw shared fresh)
  created-bounded s t v fresh own bound (inr new) (inr same) e = rw (new, same) bound

  rotated-bounded :
      (p : SecretRow → Bool) (next now : ℕ) (s t t' : SecretRow) (v : SecretVersion)
      → Memᴰ s db.secrets
      → ((t : SecretRow) → p t ≡ true → t.current_version ≤ next)
      → p s ≡ true
      → v.secret_id ≡ s.id
      → v.version ≡ next
      → Memᴰ w db.versions ⊎ (w ≡ v)
      → Memᴰ t db.secrets
      → ((p t ≡ true) × (t' ≡ rotated_row next now t)) ⊎ ((p t ≡ false) × (t' ≡ t))
      → w.secret_id ≡ t'.id
      → w.version ≤ t'.current_version
  rotated-bounded p next now s t t' v m up hit own at (inl k) l (inl (found, same)) e =
      let kept : w.secret_id ≡ t.id = rw same at e in
      let low = h.bounded w k t l kept in
      let high = up t found in rw same (omega (arith, low, high))
  rotated-bounded p next now s t t' v m up hit own at (inl k) l (inr (missed, same)) e =
      rw same (h.bounded w k t l (rw same at e))
  rotated-bounded p next now s t t' v m up hit own at (inr new) l (inl (found, same)) e =
      rw (new, same, at) (omega arith)
  rotated-bounded p next now s t t' v m up hit own at (inr new) l (inr (missed, same)) e =
      let shared : t.id ≡ s.id = cc in
      let one = keyed_unique id_of db.secrets t s h.keyed l m shared in
      true_false (rw one hit) missed

-- A secret and its first version, of an id that no secret has.
pub created-IsVersioned :
    (db db' : SecretTables) (s : SecretRow) (v : SecretVersion)
    → db'.secrets ≡ db.secrets ++ s ∷ []
    → db'.versions ≡ db.versions ++ v ∷ []
    → contains (map id_of db.secrets) s.id ≡ false
    → v.secret_id ≡ s.id
    → v.version ≤ s.current_version
    → IsVersioned db
    → IsVersioned db'
created-IsVersioned db db' s v rows new fresh own bound h = record {
  keyed = rw rows (IsKeyed-snoc id_of db.secrets s h.keyed fresh);
  bounded = λ w m t k e.
      created-bounded db h w s t v fresh own bound (mem-snoc db.versions v w (subst (Memᴰ w) new m))
        (mem-snoc db.secrets s t (subst (Memᴰ t) rows k)) e;
  owned = λ w m. elim (mem-snoc db.versions v w (subst (Memᴰ w) new m)) [
    | inl k ↦
        let old = h.owned w k in
        rw (rows, contains-snoc id_of db.secrets s w.secret_id) (ground (arith, old))
    | inr same ↦
        let mine = (string_eq.eqb_iff s.id s.id).1 refl in
        rw (rows, contains-snoc id_of db.secrets s w.secret_id, same, own) (ground (arith, mine))
  ];
}

-- A rotated secret, whose current version goes up, and the new version.
pub rotated-IsVersioned :
    (p : SecretRow → Bool) (next now : ℕ) (db db' : SecretTables) (s : SecretRow)
    (v : SecretVersion)
    → db'.secrets ≡ update_where p (rotated_row next now) db.secrets
    → db'.versions ≡ db.versions ++ v ∷ []
    → Memᴰ s db.secrets
    → ((t : SecretRow) → p t ≡ true → t.current_version ≤ next)
    → p s ≡ true
    → v.secret_id ≡ s.id
    → v.version ≡ next
    → IsVersioned db
    → IsVersioned db'
rotated-IsVersioned p next now db db' s v rows new m up hit own at h = record {
  keyed = rw rows (IsKeyed-update id_of p (rotated_row next now) db.secrets (λ t. refl) h.keyed);
  bounded = λ w k t' l e.
      let (t, l', c) =
        mem-update_cases p (rotated_row next now) db.secrets t' (subst (Memᴰ t') rows l) in
      rotated-bounded db h w p next now s t t' v m up hit own at
        (mem-snoc db.versions v w (subst (Memᴰ w) new k)) l' c e;
  owned = λ w k.
      rw (rows, IsKeyed-update_keys id_of p (rotated_row next now) db.secrets (λ t. refl))
        (elim (mem-snoc db.versions v w (subst (Memᴰ w) new k)) [
          | inl old ↦ h.owned w old
          | inr same ↦ rw (same, own) (mem-key id_of db.secrets s m)
        ]);
}

module _ (node : Platform) (keys : KeyEncryptionProvider) where
  -- The operations in any order. A rotation claims the version that it read at some time before.
  pub data SecretStep (db db' : SecretTables) : Type 0 where
    creates :
        (id version_id : String) (draws : Draws) (project_id : String) (dto : CreateSecret)
        (actor : Actor) (now : ℕ) (view : SecretView)
        → create_secret node keys id version_id draws project_id dto actor now db ≡ ok (view, db')
        → SecretStep db db'
    claims :
        (version_id : String) (draws : Draws) (project_id id : String) (read : ℕ) (value : String)
        (actor : Actor) (now : ℕ) (view : SecretView)
        → claim_rotation node keys version_id draws project_id id read value actor now db
          ≡ ok (view, db')
        → SecretStep db db'
    revokes :
        (project_id id : String) (actor : Actor) (now : ℕ)
        → revoke_secret project_id id actor now db ≡ ok db'
        → SecretStep db db'

  -- What a creation has found and done.
  pub record IsCreated (id project_id : String) (dto : CreateSecret) (actor : Actor) (now : ℕ)
      (v : SecretVersion) (db db' : SecretTables) : Type 0 where
    pub fresh : contains (map id_of db.secrets) id ≡ false
    pub rows : db'.secrets ≡ db.secrets ++ new_secret id project_id dto actor now ∷ []
    pub added : db'.versions ≡ db.versions ++ v ∷ []

  fresh_id :
      (s : SecretRow) (ss : List SecretRow)
      → any (is_same_secret s) ss ≡ false
      → contains (map id_of ss) s.id ≡ false
  fresh_id s [] h = refl
  fresh_id s (t ∷ ss) h = ground (arith, h, fresh_id s ss)

  pub create_secret-IsCreated :
      (id version_id : String) (draws : Draws) (project_id : String) (dto : CreateSecret)
      (actor : Actor) (now : ℕ) (view : SecretView) (db db' : SecretTables)
      → create_secret node keys id version_id draws project_id dto actor now db ≡ ok (view, db')
      → IsCreated id project_id dto actor now
          (version_data version_id id 1 actor
            (encrypt node keys draws dto.value (context_for id 1)))
          db
          db'
  unfolding create_secret
  create_secret-IsCreated id version_id draws project_id dto actor now view db db' e =
      let secret = new_secret id project_id dto actor now in
      let version =
        version_data version_id id 1 actor (encrypt node keys draws dto.value (context_for id 1)) in
      let (_, once, e₁) =
        >>=-eq-ok
          (throw_if
            (any (is_same_secret secret) db.secrets || any (is_same_version version) db.versions)
            conflict)
          _ e in
      let (_, _, e₂) =
        >>=-eq-ok (throw_if (not (contains db.projects project_id)) foreign_key_violated) _ e₁ in
      let clear = throw_if-eq-ok _ _ once in
      let out = ap (λ (r : SecretView × SecretTables). r.1) (ok_injective e₂) in
      record {
        fresh = fresh_id secret db.secrets (ground (arith, clear));
        rows = sym (ap (λ (t : SecretTables). t.secrets) out);
        added = sym (ap (λ (t : SecretTables). t.versions) out);
      }

  -- What a rotation has found and done.
  pub record IsRotated (project_id id : String) (read now : ℕ) (v : SecretVersion)
      (db db' : SecretTables) : Type 0 where
    pub found : SecretRow
    pub listed : Memᴰ found db.secrets
    pub claimed : is_current project_id id read found ≡ true
    pub rows :
        db'.secrets
        ≡ update_where (is_current project_id id read) (rotated_row (read + 1) now) db.secrets
    pub added : db'.versions ≡ db.versions ++ v ∷ []

  pub claim_rotation-IsRotated :
      (version_id : String) (draws : Draws) (project_id id : String) (read : ℕ) (value : String)
      (actor : Actor) (now : ℕ) (view : SecretView) (db db' : SecretTables)
      → claim_rotation node keys version_id draws project_id id read value actor now db
        ≡ ok (view, db')
      → IsRotated project_id id read now
          (version_data version_id id
            (read + 1)
            actor
            (encrypt node keys draws value (context_for id (read + 1))))
          db
          db'
  unfolding claim_rotation
  claim_rotation-IsRotated version_id draws project_id id read value actor now view db db' e =
      let version =
        version_data version_id id (read + 1) actor
          (encrypt node keys draws value (context_for id (read + 1))) in
      let rows =
        update_where (is_current project_id id read) (rotated_row (read + 1) now) db.secrets in
      let (_, one, e₁) =
        >>=-eq-ok
          (throw_if (not (count_where (is_current project_id id read) db.secrets == 1)) conflict) _
          e in
      let (_, _, e₂) =
        >>=-eq-ok (throw_if (any (is_same_version version) db.versions) unique_violated) _ e₁ in
      let (_, _, e₃) = >>=-eq-ok (or_throw (find (λ s. s.id == id) rows) not_found) _ e₂ in
      let counted = throw_if-eq-ok _ _ one in
      let (found, listed, claimed) =
        mem-of_count (is_current project_id id read) db.secrets
          (λ none_there. ground (arith, counted, none_there)) in
      let out = ap (λ (r : SecretView × SecretTables). r.1) (ok_injective e₃) in
      record {
        found = found;
        listed = listed;
        claimed = claimed;
        rows = sym (ap (λ (t : SecretTables). t.secrets) out);
        added = sym (ap (λ (t : SecretTables). t.versions) out);
      }
