-- ===== src/Retention/Worker.antt =====
-- apps/api/src/retention/retention-worker.service.ts: the deletion of expired evidence by workers that
-- hold a row for the time of a lease. The order of ids and the object store are parameters.
pub mod Claims
pub mod History
pub mod Keeping
use kase_ai.Prelude.{
  ℕ, ◌+◌, ◌*◌, String, Bool, true, false, not, ◌&&◌, ◌||◌, Option, none, some, List, [], ◌∷◌, ◌==◌,
  string_eq, nat_eq, Result, ok, err, ◌>>=◌, ◌>>◌, throw_if, or_throw, find, filter, length, take,
  map, count_where, is_none, is_some, get_or, contains, update_where, leb, ltb, if◌then◌else◌,
}
use kase_ai.Retention.{Evidence, RetentionTables, evidence_delete, record_trail}
use kase_ai.Retention.Policy.Writes.{project_of, is_text}

abbrev pub retention_batch_limit : ℕ
retention_batch_limit = 100

abbrev pub retention_lease_ms : ℕ
retention_lease_ms = 5 * 60 * 1_000

-- `RetentionCandidate`
pub record RetentionCandidate : Type 0 where
  pub id : String
  pub project_id : String
  pub artifact_uri : String
  pub sha256 : String

abbrev pub is_over : Option ℕ → ℕ → Bool
is_over none now = true
is_over (some t) now = leb t now

-- The condition of `CLAIM_SQL` on a row.
abbrev pub is_claimable : ℕ → Evidence → Bool
is_claimable now e =
    is_none e.tombstoned_at
    && is_some e.artifact_uri
    && leb e.expires_at now
    && is_over e.deletion_lease_expires_at now

abbrev pub leased : String → ℕ → Evidence → Evidence
leased lease_id lease_expires_at e = record e {
  deletion_lease_id = some lease_id;
  deletion_lease_expires_at = some lease_expires_at;
}

abbrev pub project_id_of : Evidence → RetentionTables → String
project_id_of e db = elim (project_of e db) [ none ↦ "" | some p ↦ p.id ]

abbrev pub candidate : RetentionTables → Evidence → RetentionCandidate
candidate db e = record {
  id = e.id;
  project_id = project_id_of e db;
  artifact_uri = get_or e.artifact_uri "";
  sha256 = e.sha256;
}

module _ (id_le : String → String → Bool) where
  abbrev pub comes_first : Evidence → Evidence → Bool
  comes_first e f =
      if e.expires_at == f.expires_at then id_le e.id f.id else ltb e.expires_at f.expires_at

  abbrev pub insert_row : Evidence → List Evidence → List Evidence
  insert_row e [] = e ∷ []
  insert_row e (f ∷ fs) = if comes_first e f then e ∷ f ∷ fs else f ∷ insert_row e fs

  -- `ORDER BY e."expiresAt", e."id"`
  abbrev pub in_order : List Evidence → List Evidence
  in_order [] = []
  in_order (e ∷ es) = insert_row e (in_order es)

  -- The rows of the `candidates` of `CLAIM_SQL`; the join leaves rows without a project out.
  unfoldable pub claimable_rows : ℕ → RetentionTables → List Evidence
  claimable_rows now db =
      take retention_batch_limit
        (in_order (filter (λ e. is_claimable now e && is_some (project_of e db)) db.evidence))

  -- `CLAIM_SQL`: the rows that are claimed, and the tables in which they carry the lease.
  unfoldable pub claim_batch :
      ℕ → String → RetentionTables → List RetentionCandidate × RetentionTables
  unfolding claimable_rows
  claim_batch now lease_id db =
      let rows = claimable_rows now db in
      (
        map (candidate db) rows,
        record db {
          evidence =
              update_where (λ e. contains (map (λ r. r.id) rows) e.id)
                (leased lease_id (now + retention_lease_ms)) db.evidence;
        },
      )

-- `{ id: candidate.id, deletionLeaseId: leaseId, tombstonedAt: null }`
abbrev pub is_held : String → String → Evidence → Bool
is_held id lease_id e =
    e.id == id && is_text e.deletion_lease_id lease_id && is_none e.tombstoned_at

abbrev pub tombstone : ℕ → Evidence → Evidence
tombstone deleted_at e = record e {
  artifact_uri = none;
  object_deleted_at = some deleted_at;
  tombstoned_at = some deleted_at;
  deletion_lease_id = none;
  deletion_lease_expires_at = none;
}

abbrev pub unleased : Evidence → Evidence
unleased e = record e { deletion_lease_id = none; deletion_lease_expires_at = none }

-- After the object is gone: the number of rows that were still held, and the tables.
unfoldable pub tombstone_row :
    RetentionCandidate → String → ℕ → RetentionTables → ℕ × RetentionTables
tombstone_row c lease_id deleted_at db =
    let count = count_where (is_held c.id lease_id) db.evidence in
    let written = record db {
      evidence = update_where (is_held c.id lease_id) (tombstone deleted_at) db.evidence;
    } in
    if count == 1
    then (1, record_trail (evidence_delete c.project_id c.id c.sha256) written)
    else (0, written)

-- After a failure: the row may be claimed again.
unfoldable pub release_row : RetentionCandidate → String → RetentionTables → RetentionTables
release_row c lease_id db = record db {
  evidence = update_where (is_held c.id lease_id) unleased db.evidence;
}

pub record BatchResult : Type 0 where
  pub claimed : ℕ
  pub tombstoned : ℕ
  pub failed : ℕ

-- The loop of `runBatch`; `deletes` says of which artifacts the store deletes the object.
unfoldable pub delete_all :
    (String → Bool)
    → ℕ
    → String
    → List RetentionCandidate
    → BatchResult
    → RetentionTables
    → BatchResult × RetentionTables
unfolding tombstone_row release_row
delete_all deletes deleted_at lease_id [] sum db = (sum, db)
delete_all deletes deleted_at lease_id (c ∷ cs) sum db = elim (deletes c.artifact_uri) [
  | true ↦
      let (n, db') = tombstone_row c lease_id deleted_at db in
      delete_all deletes deleted_at lease_id cs (record sum { tombstoned = sum.tombstoned + n }) db'
  | false ↦
      delete_all deletes deleted_at lease_id cs (record sum { failed = sum.failed + 1 })
        (release_row c lease_id db)
]

-- `runBatch`
unfoldable pub run_batch :
    (String → String → Bool)
    → (String → Bool)
    → ℕ
    → ℕ
    → String
    → RetentionTables
    → BatchResult × RetentionTables
unfolding claim_batch delete_all
run_batch id_le deletes now deleted_at lease_id db =
    let (candidates, claimed) = claim_batch id_le now lease_id db in
    delete_all deletes deleted_at lease_id candidates
      (record { claimed = length candidates; tombstoned = 0; failed = 0 }) claimed

pub data ArtifactError : Type 0 where
  evidence_not_found evidence_expired : ArtifactError

-- `requireLiveArtifact`; an empty location is none.
unfoldable pub require_live_artifact : String → RetentionTables → Result ArtifactError String
require_live_artifact evidence_id db = do
  e ← or_throw (find (λ e. e.id == evidence_id) db.evidence) evidence_not_found
  throw_if (is_some e.tombstoned_at || get_or e.artifact_uri "" == "") evidence_expired
  ok (get_or e.artifact_uri "")
