-- ===== src/Secrets/Keeping.antt =====
-- The choice of the highest version, and what a revocation keeps of the versions.
use mathlib.Core.List.{Memᴰ}
use mathlib.Core.Path.{subst}
use kase_ai.Prelude.{
  ℕ, ◌<◌, String, ◌≡◌, refl, sym, ap, ◌⊎◌, inl, inr, Bool, true, some, List, [], ◌∷◌, ◌++◌, arith,
  ◌==◌, string_eq, nat_eq, ok, ok_injective, >>=-eq-ok, or_throw, find, update_where, is_some, ltb,
  mem-update_cases, IsKeyed-update, IsKeyed-update_keys, Bool-cases,
}
use kase_ai.Projects.{Actor}
use kase_ai.Secrets.Service.{
  SecretRow, SecretVersion, SecretTables, not_found, is_current, is_live, higher_of, highest,
  revoked_row, find_secret, revoke_secret,
}
use kase_ai.Secrets.Versions.{id_of, IsVersioned}

pub highest-mem : (vs : List SecretVersion) (v : SecretVersion) → highest vs ≡ some v → Memᴰ v vs
highest-mem [] v e = ground (arith, e)
highest-mem (w ∷ []) v e = Memᴰ.head (let same : w ≡ v = cc in sym same)
highest-mem (w ∷ x ∷ vs) v e =
    let other = higher_of x (highest vs) in
    elim (Bool-cases (ltb w.version other.version)) [
      | inl lower ↦
          let e' : some other ≡ some v = rw lower at e in Memᴰ.tail (highest-mem (x ∷ vs) v e')
      | inr kept ↦
          let e' : some w ≡ some v = rw kept at e in Memᴰ.head (let same : w ≡ v = cc in sym same)
    ]

pub highest-snoc :
    (vs : List SecretVersion) (v : SecretVersion)
    → ((w : SecretVersion) → Memᴰ w vs → w.version < v.version)
    → highest (vs ++ v ∷ []) ≡ some v
highest-snoc [] v low = refl
highest-snoc (w ∷ vs) v low =
    let rest = highest-snoc vs v (λ x m. low x (Memᴰ.tail m)) in
    let below = low w (Memᴰ.head refl) in rw rest (ground (arith, below))

pub find-of_mem {ℓ} :
    {A : Type ℓ} (p : A → Bool) (xs : List A) (x : A)
    → Memᴰ x xs
    → p x ≡ true
    → (y : A) × (find p xs ≡ some y)
find-of_mem p [] x m h = elim m [ ]
find-of_mem p (y ∷ xs) x (Memᴰ.head e) h = (y, rw (← e, h) refl)
find-of_mem p (y ∷ xs) x (Memᴰ.tail m) h = elim (Bool-cases (p y)) [
  | inl hit ↦ (y, rw hit refl)
  | inr miss ↦ let (z, found) = find-of_mem p xs x m h in (z, rw (miss, found) refl)
]

pub current_facts :
    (project_id id : String) (read : ℕ) (s : SecretRow)
    → is_current project_id id read s ≡ true
    → (id ≡ s.id) × (s.current_version ≡ read) × (is_live project_id id s ≡ true)
current_facts project_id id read s h = (
  ground (arith, h, string_eq.eqb_iff s.id id),
  ground (arith, h, nat_eq.eqb_iff s.current_version read),
  ground (arith, h),
)

pub revoke_secret-rows :
    (project_id id : String) (actor : Actor) (now : ℕ) (db db' : SecretTables)
    → revoke_secret project_id id actor now db ≡ ok db'
    → (db'.versions ≡ db.versions)
      × ((db'.secrets ≡ db.secrets)
          ⊎ (db'.secrets ≡ update_where (λ s. s.id == id) (revoked_row now) db.secrets))
unfolding revoke_secret
revoke_secret-rows project_id id actor now db db' e =
    let (existing, _, e₁) = >>=-eq-ok (or_throw (find_secret project_id id db) not_found) _ e in
    let out = ok_injective e₁ in
    elim (Bool-cases (is_some existing.revoked_at)) [
      | inl before ↦
          let same : db ≡ db' = rw before at out in
          (
            sym (ap (λ (t : SecretTables). t.versions) same),
            inl (sym (ap (λ (t : SecretTables). t.secrets) same)),
          )
      | inr live ↦
          let same = rw live at out in
          (
            sym (ap (λ (t : SecretTables). t.versions) same),
            inr (sym (ap (λ (t : SecretTables). t.secrets) same)),
          )
    ]

pub same-IsVersioned :
    (db db' : SecretTables)
    → db'.versions ≡ db.versions
    → db'.secrets ≡ db.secrets
    → IsVersioned db
    → IsVersioned db'
same-IsVersioned db db' old rows h = record {
  keyed = rw rows h.keyed;
  bounded = λ v m s k e. h.bounded v (subst (Memᴰ v) old m) s (subst (Memᴰ s) rows k) e;
  owned = λ v m. rw rows (h.owned v (subst (Memᴰ v) old m));
}

pub revoked-IsVersioned :
    (p : SecretRow → Bool) (now : ℕ) (db db' : SecretTables)
    → db'.versions ≡ db.versions
    → db'.secrets ≡ update_where p (revoked_row now) db.secrets
    → IsVersioned db
    → IsVersioned db'
revoked-IsVersioned p now db db' old rows h = record {
  keyed = rw rows (IsKeyed-update id_of p (revoked_row now) db.secrets (λ t. refl) h.keyed);
  bounded = λ v m s k e.
      let (t, l, c) = mem-update_cases p (revoked_row now) db.secrets s (subst (Memᴰ s) rows k) in
      let low = h.bounded v (subst (Memᴰ v) old m) t l in
      elim c [
        | inl (_, same) ↦ rw same (low (rw same at e))
        | inr (_, same) ↦ rw same (low (rw same at e))
      ];
  owned = λ v m.
      rw (rows, IsKeyed-update_keys id_of p (revoked_row now) db.secrets (λ t. refl))
        (h.owned v (subst (Memᴰ v) old m));
}
