-- ===== src/Retention/Worker/Keeping.antt =====
-- What the captures, the policies and the workers' statements keep of the rows of evidence.
use mathlib.Core.List.{Memᴰ}
use mathlib.Core.Path.{subst}
use kase_ai.Prelude.{
  ℕ, ◌+◌, String, ◌≡◌, refl, ap, ◌∙◌, inl, inr, Bool, true, false, ◌&&◌, none, List, [], ◌∷◌, ◌++◌,
  map, arith, ◌==◌, string_eq, contains, update_where, Bool-cases, Option-cases, is_none,
  if◌then◌else◌, All-append, All-mem, IsKeyed-snoc, IsKeyed-map, All-map_rows, mem-of_map,
  update_where-map, mem-append_left, Star, done, more,
}
use kase_ai.Retention.{Evidence, RetentionTables, ProjectRow}
use kase_ai.Retention.Policy.Writes.{
  project_of, days_of, earlier_expiry, reschedule_row, reschedule, save_organization_policy,
  save_project_policy, upsert_organization, upsert_override,
}
use kase_ai.Retention.Worker.{
  is_claimable, claimable_rows, claim_batch, leased, retention_lease_ms, is_held, tombstone,
  tombstone_row, unleased, release_row,
}
use kase_ai.Retention.Worker.Claims.{claimed_row}
use kase_ai.Retention.Worker.History.{
  IsKept, IsConsistent, Later, Follows, HasClock, RetentionStep, captures, saves_organization,
  saves_project, claims, tombstones, releases, other_rows,
}

Later-refl : (e : Evidence) → Later e e
Later-refl e = record { id = refl; captured = refl; sooner = omega arith; frozen = λ t h. refl }

Later-trans : (e e' e'' : Evidence) → Later e e' → Later e' e'' → Later e e''
Later-trans e e' e'' a b = record {
  id = b.id ∙ a.id;
  captured = b.captured ∙ a.captured;
  sooner = omega arith;
  frozen = λ t h. let same = a.frozen t h in b.frozen t (ap (λ k. k.tombstoned_at) same ∙ h) ∙ same;
}

-- A change of a row that keeps what holds of it.
abbrev Keeps : Evidence → Evidence → Type 0
Keeps e e' = IsKept e → IsKept e' × Later e e'

rows_keep :
    (f : Evidence → Evidence) (rows : List Evidence)
    → ((e : Evidence) → (f e).id ≡ e.id)
    → ((e : Evidence) → Memᴰ e rows → Keeps e (f e))
    → IsConsistent rows
    → IsConsistent (map f rows) × Follows rows (map f rows)
rows_keep f rows same k c = (
  record {
    keys = IsKeyed-map (λ e. e.id) f rows same c.keys;
    kept = All-map_rows IsKept f rows (λ e m p. (k e m p).0) c.kept;
  },
  λ e m. (f e, mem-of_map f rows e m, (k e m (All-mem IsKept rows e c.kept m)).1),
)

Keeps-earlier : (e : Evidence) (days : ℕ) → e.tombstoned_at ≡ none → Keeps e (earlier_expiry e days)
Keeps-earlier e days live p = (
  ground (arith, live, p),
  record {
    id = refl;
    captured = refl;
    sooner = omega arith;
    frozen = λ t q. ground (arith, q, live);
  },
)

Keeps-leased :
    (e : Evidence) (now : ℕ) (lease_id : String)
    → is_claimable now e ≡ true
    → Keeps e (leased lease_id (now + retention_lease_ms) e)
Keeps-leased e now lease_id h p = (
  ground (arith, h, p),
  record { id = refl; captured = refl; sooner = omega arith; frozen = λ t q. ground (arith, q, h) },
)

Keeps-tombstone :
    (e : Evidence) (id lease_id : String) (t : ℕ)
    → is_held id lease_id e ≡ true
    → HasClock t e.deletion_lease_expires_at
    → Keeps e (tombstone t e)
Keeps-tombstone e id lease_id t h clock p = (
  ground (arith, h, clock, p),
  record { id = refl; captured = refl; sooner = omega arith; frozen = λ t q. ground (arith, q, h) },
)

Keeps-unleased :
    (e : Evidence) (id lease_id : String) → is_held id lease_id e ≡ true → Keeps e (unleased e)
Keeps-unleased e id lease_id h p = (
  ground (arith, h, p),
  record { id = refl; captured = refl; sooner = omega arith; frozen = λ t q. ground (arith, q, h) },
)

Keeps-refl : (e : Evidence) → Keeps e e
Keeps-refl e p = (p, Later-refl e)

reschedule_row-Keeps :
    (chosen : ProjectRow → Bool) (db : RetentionTables) (e : Evidence)
    → Keeps e (reschedule_row chosen db e)
reschedule_row-Keeps chosen db e = elim (Option-cases (project_of e db)) [
  | inl gone ↦ rw (reschedule_row, gone) (Keeps-refl e)
  | inr (p, found) ↦ elim (Bool-cases (chosen p && is_none e.tombstoned_at)) [
    | inl hit ↦
        rw (reschedule_row, found, hit) (Keeps-earlier e (days_of e p db) (ground (arith, hit)))
    | inr miss ↦ rw (reschedule_row, found, miss) (Keeps-refl e)
  ]
]

reschedule_row-id :
    (chosen : ProjectRow → Bool) (db : RetentionTables) (e : Evidence)
    → (reschedule_row chosen db e).id ≡ e.id
reschedule_row-id chosen db e = elim (Option-cases (project_of e db)) [
  | inl gone ↦ rw (reschedule_row, gone) refl
  | inr (p, found) ↦ rw (reschedule_row, found) (ground arith)
]

abbrev pub Outcome : List Evidence → List Evidence → Type 0
Outcome rows rows' = IsConsistent rows' × Follows rows rows'

-- `updateMany` on rows that meet a condition.
updated_rows_keep :
    (p : Evidence → Bool) (f : Evidence → Evidence) (rows : List Evidence)
    → ((e : Evidence) → (f e).id ≡ e.id)
    → ((e : Evidence) → Memᴰ e rows → p e ≡ true → Keeps e (f e))
    → IsConsistent rows
    → Outcome rows (update_where p f rows)
updated_rows_keep p f rows same k c = rw (update_where-map p f rows) (
    rows_keep (λ e. if p e then f e else e) rows (λ e. let s = same e in ground (arith, s))
      (λ e m. elim (Bool-cases (p e)) [
        | inl hit ↦ rw hit (k e m hit)
        | inr miss ↦ rw miss (Keeps-refl e)
      ])
      c)

captures_keep :
    (rows : List Evidence) (e : Evidence)
    → contains (map (λ k. k.id) rows) e.id ≡ false
    → IsKept e
    → IsConsistent rows
    → Outcome rows (rows ++ e ∷ [])
captures_keep rows e fresh p c = (
  record {
    keys = IsKeyed-snoc (λ k. k.id) rows e c.keys fresh;
    kept = All-append IsKept rows (e ∷ []) c.kept (p, tt);
  },
  λ k m. (k, mem-append_left rows (e ∷ []) k m, Later-refl k),
)

step_keeps :
    (db db' : RetentionTables)
    → RetentionStep db db'
    → IsConsistent db.evidence
    → Outcome db.evidence db'.evidence
unfolding reschedule save_organization_policy save_project_policy claim_batch tombstone_row
    release_row
step_keeps db db' (captures e fresh p same) c =
    subst (λ t. Outcome db.evidence t.evidence) same (captures_keep db.evidence e fresh p c)
step_keeps db db' (saves_organization row same) c =
    let saved = record db {
      organization_policies = upsert_organization row db.organization_policies;
    } in
    let chosen : ProjectRow → Bool = λ p. p.organization_id == row.organization_id in
    subst (λ t. Outcome db.evidence t.evidence) same
      (rows_keep (reschedule_row chosen saved) db.evidence (reschedule_row-id chosen saved)
        (λ e m. reschedule_row-Keeps chosen saved e) c)
step_keeps db db' (saves_project row same) c =
    let saved = record db { project_overrides = upsert_override row db.project_overrides } in
    let chosen : ProjectRow → Bool = λ p. p.id == row.project_id in
    subst (λ t. Outcome db.evidence t.evidence) same
      (rows_keep (reschedule_row chosen saved) db.evidence (reschedule_row-id chosen saved)
        (λ e m. reschedule_row-Keeps chosen saved e) c)
step_keeps db db' (claims id_le now lease_id same) c =
    subst (λ t. Outcome db.evidence t.evidence) same
      (updated_rows_keep (λ e. contains (map (λ r. r.id) (claimable_rows id_le now db)) e.id)
        (leased lease_id (now + retention_lease_ms)) db.evidence (λ e. refl)
        (λ e m hit. Keeps-leased e now lease_id (claimed_row id_le now db e c.keys m hit)) c)
step_keeps db db' (tombstones x lease_id t clock same) c =
    let held =
      updated_rows_keep (is_held x.id lease_id) (tombstone t) db.evidence (λ e. refl)
        (λ e m hit. Keeps-tombstone e x.id lease_id t hit (
          All-mem (λ k. is_held x.id lease_id k ≡ true → HasClock t k.deletion_lease_expires_at)
            db.evidence e clock m hit))
        c in
    subst (λ t. Outcome db.evidence t.evidence) same (ground (arith, held))
step_keeps db db' (releases x lease_id same) c =
    subst (λ t. Outcome db.evidence t.evidence) same
      (updated_rows_keep (is_held x.id lease_id) unleased db.evidence (λ e. refl)
        (λ e m hit. Keeps-unleased e x.id lease_id hit) c)
step_keeps db db' (other_rows ps ms as_ ts same) c =
    subst (λ t. Outcome db.evidence t.evidence) same (c, λ e m. (e, m, Later-refl e))

-- However captures, policies, claims, deletions and failures interleave, evidence is deleted no earlier
-- than it expires, and carries a lease only after its expiry; each piece of evidence stays in the table,
-- its expiry never moves later, and once it is deleted its row does not change any more.
pub history_keeps :
    (db db' : RetentionTables)
    → Star RetentionStep db db'
    → IsConsistent db.evidence
    → IsConsistent db'.evidence × Follows db.evidence db'.evidence
history_keeps db db' done c = (c, λ e m. (e, m, Later-refl e))
history_keeps db db' (more {y = mid} step rest) c =
    let (c', f) = step_keeps db mid step c in
    let (c'', f') = history_keeps mid db' rest c' in
    (
      c'',
      λ e m.
          let (e', m', a) = f e m in
          let (e'', m'', b) = f' e' m' in (e'', m'', Later-trans e e' e'' a b),
    )
