-- ===== src/Retention/Worker/History.antt =====
-- Captures, policies and the workers' statements in any order: what they do to the rows of evidence.
use mathlib.Core.List.{Memᴰ}
use kase_ai.Prelude.{
  ℕ, ◌+◌, ◌≤◌, String, ◌≡◌, Bool, true, false, Option, none, some, List, [], ◌∷◌, ◌++◌, map,
  string_eq, contains, All, IsKeyed,
}
use kase_ai.Retention.{
  Evidence, RetentionTables, OrganizationPolicy, ProjectOverride, ProjectRow, AuditRow, MemberRow,
  TrailEntry,
}
use kase_ai.Retention.Policy.Writes.{save_organization_policy, save_project_policy}
use kase_ai.Retention.Worker.{
  RetentionCandidate, claim_batch, retention_lease_ms, is_held, tombstone_row, release_row,
}

-- Of a row that is not deleted: it carries no lease, or one that was taken after its expiry.
abbrev pub IsLeased : Option String → Option ℕ → ℕ → Type 0
IsLeased none none expires_at = Unit {0}
IsLeased (some id) (some until) expires_at = expires_at + retention_lease_ms ≤ until
IsLeased _ _ expires_at = ⊥

abbrev pub KeptAs : Option ℕ → Evidence → Type 0
KeptAs none e = IsLeased e.deletion_lease_id e.deletion_lease_expires_at e.expires_at
KeptAs (some t) e =
    (e.artifact_uri ≡ none)
    × (e.object_deleted_at ≡ some t)
    × (e.deletion_lease_id ≡ none)
    × (e.deletion_lease_expires_at ≡ none)
    × (e.expires_at ≤ t)

-- Deleted evidence has no artifact, was deleted no earlier than it expired, and is not leased.
abbrev pub IsKept : Evidence → Type 0
IsKept e = KeptAs e.tombstoned_at e

pub record IsConsistent (rows : List Evidence) : Type 0 where
  pub keys : IsKeyed (λ e. e.id) rows
  pub kept : All IsKept rows

-- The same evidence at a later time.
pub record Later (e e' : Evidence) : Type 0 where
  pub id : e'.id ≡ e.id
  pub captured : e'.captured_at ≡ e.captured_at
  pub sooner : e'.expires_at ≤ e.expires_at
  pub frozen : (t : ℕ) → e.tombstoned_at ≡ some t → e' ≡ e

abbrev pub Follows : List Evidence → List Evidence → Type 0
Follows rows rows' = (e : Evidence) → Memᴰ e rows → (e' : Evidence) × Memᴰ e' rows' × Later e e'

-- The worker's clock has not gone back since it took the lease.
abbrev pub HasClock : ℕ → Option ℕ → Type 0
HasClock t none = Unit {0}
HasClock t (some until) = until ≤ t + retention_lease_ms

pub data RetentionStep (db db' : RetentionTables) : Type 0 where
  captures :
      (e : Evidence)
      → contains (map (λ k. k.id) db.evidence) e.id ≡ false
      → IsKept e
      → record db { evidence = db.evidence ++ e ∷ [] } ≡ db'
      → RetentionStep db db'
  saves_organization :
      (row : OrganizationPolicy) → save_organization_policy row db ≡ db' → RetentionStep db db'
  saves_project : (row : ProjectOverride) → save_project_policy row db ≡ db' → RetentionStep db db'
  claims :
      (id_le : String → String → Bool) (now : ℕ) (lease_id : String)
      → (claim_batch id_le now lease_id db).1 ≡ db'
      → RetentionStep db db'
  tombstones :
      (c : RetentionCandidate) (lease_id : String) (deleted_at : ℕ)
      → All
          (λ e. is_held c.id lease_id e ≡ true → HasClock deleted_at e.deletion_lease_expires_at)
          db.evidence
      → (tombstone_row c lease_id deleted_at db).1 ≡ db'
      → RetentionStep db db'
  releases :
      (c : RetentionCandidate) (lease_id : String)
      → release_row c lease_id db ≡ db'
      → RetentionStep db db'
  other_rows :
      (projects : List ProjectRow) (members : List MemberRow) (audits : List AuditRow)
      (trail : List TrailEntry)
      → record db { projects = projects; members = members; audits = audits; trail = trail } ≡ db'
      → RetentionStep db db'
