-- ===== src/Retention.antt =====
-- apps/api/src/retention: how long evidence is kept, and its deletion. The tables of both services.
pub mod Policy
pub mod Worker
mod Examples
use kase_ai.Prelude.{
  ℕ, String, Bool, Option, none, some, List, ◌++◌, [], ◌∷◌, ◌==◌, string_eq, find, update_where,
}

-- A value for each class of evidence: `Record<PolicyField, ...>`.
pub record PolicyRecord {ℓ} (A : Type ℓ) : Type ℓ where
  pub replayable_evidence_days : A
  pub non_replayable_evidence_days : A
  pub raw_tool_output_days : A
  pub agent_transcript_days : A

-- `EvidenceRetentionPolicy`
pub record OrganizationPolicy : Type 0 where
  pub organization_id : String
  pub days : PolicyRecord ℕ
  pub updated_by : String

-- `ProjectEvidenceRetentionOverride`
pub record ProjectOverride : Type 0 where
  pub project_id : String
  pub days : PolicyRecord (Option ℕ)
  pub updated_by : String

pub record ProjectRow : Type 0 where
  pub id : String
  pub organization_id : String

pub record AuditRow : Type 0 where
  pub id : String
  pub project_id : String

pub record MemberRow : Type 0 where
  pub user_id : String
  pub organization_id : String
  pub role : String

-- `Evidence`
pub record Evidence : Type 0 where
  pub id : String
  pub audit_id : String
  pub evidence_type : String
  pub replayable : Bool
  pub artifact_uri : Option String
  pub sha256 : String
  pub captured_at : ℕ
  pub expires_at : ℕ
  pub object_deleted_at : Option ℕ
  pub tombstoned_at : Option ℕ
  pub deletion_lease_id : Option String
  pub deletion_lease_expires_at : Option ℕ

-- What the services write to the audit trail.
pub data TrailEntry : Type 0 where
  organization_update : String → PolicyRecord ℕ → PolicyRecord ℕ → TrailEntry
  project_update : String → PolicyRecord (Option ℕ) → PolicyRecord (Option ℕ) → TrailEntry
  evidence_delete : String → String → String → TrailEntry

pub record RetentionTables : Type 0 where
  pub projects : List ProjectRow
  pub members : List MemberRow
  pub organization_policies : List OrganizationPolicy
  pub project_overrides : List ProjectOverride
  pub audits : List AuditRow
  pub evidence : List Evidence
  pub trail : List TrailEntry

abbrev pub record_trail : TrailEntry → RetentionTables → RetentionTables
record_trail e db = record db { trail = db.trail ++ e ∷ [] }
