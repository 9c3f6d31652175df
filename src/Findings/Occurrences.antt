-- ===== src/Findings/Occurrences.antt =====
-- The number of occurrences that an identity records is that of its findings.
use kase_ai.Prelude.{String, ◌≡◌, ok}
use kase_ai.Findings.Persistence.{NormalizedFinding, FindingTables, persist}

-- The storing of a finding of a tool, of any audit of any project.
pub data PersistStep (sha256_hex : String → String) (db db' : FindingTables) : Type 0 where
  persists :
      (project_id audit_id evidence_id : String) (f : NormalizedFinding) (id : String)
      → persist sha256_hex project_id audit_id evidence_id f db ≡ ok (id, db')
      → PersistStep sha256_hex db db'
