-- ===== src/Retention/Policy/Writes.antt =====
-- The operations of `RetentionPolicyService` that ask for a principal or write, with the SQL that moves
-- the expiries of the evidence. An interval of days is added in UTC.
use kase_ai.Prelude.{
  ℕ, ◌+◌, ◌*◌, min, String, Bool, true, false, not, ◌&&◌, Option, none, some, List, [], ◌∷◌, ◌==◌,
  string_eq, Result, ok, ◌>>=◌, ◌>>◌, throw_if, or_throw, find, is_none, get_or, map, is_empty_text,
  if◌then◌else◌,
}
use kase_ai.Retention.{
  PolicyRecord, OrganizationPolicy, ProjectOverride, ProjectRow, AuditRow, Evidence,
  RetentionTables, organization_update, project_update, record_trail,
}
use kase_ai.Retention.Policy.{
  PolicyField, replayable_evidence_days, non_replayable_evidence_days, raw_tool_output_days,
  agent_transcript_days, EffectiveDays, PolicyError, not_found, forbidden, field_of,
  organization_field, values_of, normalize_stored_overrides, validate_complete_policy,
  normalize_overrides, is_raw_output, day_ms, find_project, override_of, organization_policy_of,
  override_days, organization_days, get_project_policy,
}

-- `Actor`
pub record Actor : Type 0 where
  pub is_user : Bool
  pub id : Option String
  pub organization_id : Option String

abbrev pub is_text : Option String → String → Bool
is_text none t = false
is_text (some s) t = s == t

-- The id of a user of the organization, by its session alone.
abbrev pub session_user : String → Actor → Option String
session_user organization_id actor =
    if actor.is_user && is_text actor.organization_id organization_id then actor.id else none

-- `assertOrganizationMember`, with the id that it has found to be there.
unfoldable pub assert_organization_member :
    String → Actor → Bool → RetentionTables → Result PolicyError String
assert_organization_member organization_id actor require_admin db = do
  user_id ← or_throw (session_user organization_id actor) forbidden
  throw_if (is_empty_text user_id) forbidden
  member ←
      or_throw (find (λ k. k.user_id == user_id && k.organization_id == organization_id) db.members)
        forbidden
  throw_if (require_admin && not (member.role == "admin")) forbidden
  ok user_id

-- `getOrganizationPolicy`
unfoldable pub get_organization_policy :
    String → Actor → RetentionTables → Result PolicyError (PolicyRecord ℕ)
unfolding assert_organization_member
get_organization_policy organization_id actor db = do
  user_id ← assert_organization_member organization_id actor false db
  ok (values_of (organization_days (organization_policy_of organization_id db)))

-- A column of the joined row of the overrides; the row may be absent.
abbrev pub override_column : PolicyField → Option (PolicyRecord (Option ℕ)) → Option ℕ
override_column field none = none
override_column field (some o) = field_of field o

-- `COALESCE(o.field, op.field, otherwise)`
abbrev pub coalesce : Option ℕ → Option ℕ → ℕ → ℕ
coalesce (some d) o otherwise = d
coalesce none o otherwise = get_or o otherwise

-- `EFFECTIVE_DAYS_SQL`
unfoldable pub effective_days_sql :
    String → Bool → Option (PolicyRecord (Option ℕ)) → Option (PolicyRecord ℕ) → ℕ
effective_days_sql evidence_type replayable o op =
    if evidence_type == "agent_transcript"
    then coalesce (override_column agent_transcript_days o)
        (organization_field agent_transcript_days op) 30
    else if is_raw_output evidence_type
    then coalesce (override_column raw_tool_output_days o)
        (organization_field raw_tool_output_days op) 30
    else if replayable
    then coalesce (override_column replayable_evidence_days o)
        (organization_field replayable_evidence_days op) 90
    else coalesce (override_column non_replayable_evidence_days o)
        (organization_field non_replayable_evidence_days op) 30

abbrev pub find_audit : String → RetentionTables → Option AuditRow
find_audit audit_id db = find (λ a. a.id == audit_id) db.audits

-- The project that a piece of evidence belongs to, through its audit.
abbrev pub project_of_audit : String → RetentionTables → Option ProjectRow
project_of_audit audit_id db = elim (find_audit audit_id db) [
  | none ↦ none
  | some a ↦ find_project a.project_id db
]

abbrev pub project_of : Evidence → RetentionTables → Option ProjectRow
project_of e db = project_of_audit e.audit_id db

abbrev pub days_of : Evidence → ProjectRow → RetentionTables → ℕ
days_of e p db =
    effective_days_sql e.evidence_type e.replayable (override_days (override_of p.id db))
      (organization_days (organization_policy_of p.organization_id db))

abbrev pub earlier_expiry : Evidence → ℕ → Evidence
earlier_expiry e days = record e { expires_at = min e.expires_at (e.captured_at + days * day_ms) }

abbrev pub reschedule_row : (ProjectRow → Bool) → RetentionTables → Evidence → Evidence
reschedule_row chosen db e = elim (project_of e db) [
  | none ↦ e
  | some p ↦ if chosen p && is_none e.tombstoned_at then earlier_expiry e (days_of e p db) else e
]

-- `RESCHEDULE_ORGANIZATION_SQL` and `RESCHEDULE_PROJECT_SQL`, for the projects that the condition picks.
unfoldable pub reschedule : (ProjectRow → Bool) → RetentionTables → RetentionTables
reschedule chosen db = record db { evidence = map (reschedule_row chosen db) db.evidence }

abbrev pub upsert_organization :
    OrganizationPolicy → List OrganizationPolicy → List OrganizationPolicy
upsert_organization row [] = row ∷ []
upsert_organization row (o ∷ os) =
    if o.organization_id == row.organization_id then row ∷ os else o ∷ upsert_organization row os

abbrev pub upsert_override : ProjectOverride → List ProjectOverride → List ProjectOverride
upsert_override row [] = row ∷ []
upsert_override row (o ∷ os) =
    if o.project_id == row.project_id then row ∷ os else o ∷ upsert_override row os

-- The transaction of `putOrganizationPolicy`.
unfoldable pub save_organization_policy : OrganizationPolicy → RetentionTables → RetentionTables
unfolding reschedule
save_organization_policy row db =
    reschedule (λ p. p.organization_id == row.organization_id)
      (record db { organization_policies = upsert_organization row db.organization_policies })

-- `putOrganizationPolicy`
unfoldable pub put_organization_policy :
    String
    → PolicyRecord ℕ
    → Actor
    → RetentionTables
    → Result PolicyError (PolicyRecord ℕ × RetentionTables)
unfolding assert_organization_member save_organization_policy validate_complete_policy
put_organization_policy organization_id dto actor db = do
  validate_complete_policy dto
  user_id ← assert_organization_member organization_id actor true db
  let before = values_of (organization_days (organization_policy_of organization_id db))
  let row : OrganizationPolicy = record {
    organization_id = organization_id;
    days = dto;
    updated_by = user_id;
  }
  ok (
    dto,
    record_trail (organization_update organization_id before dto) (save_organization_policy row db),
  )

-- The transaction of `putProjectPolicy`.
unfoldable pub save_project_policy : ProjectOverride → RetentionTables → RetentionTables
unfolding reschedule
save_project_policy row db =
    reschedule (λ p. p.id == row.project_id)
      (record db { project_overrides = upsert_override row db.project_overrides })

-- `putProjectPolicy`
unfoldable pub put_project_policy :
    String
    → PolicyRecord (Option ℕ)
    → Actor
    → RetentionTables
    → Result PolicyError ((PolicyRecord (Option ℕ) × PolicyRecord EffectiveDays) × RetentionTables)
unfolding save_project_policy normalize_overrides get_project_policy
put_project_policy project_id dto actor db = do
  overrides ← normalize_overrides dto
  p ← or_throw (find_project project_id db) not_found
  let before = normalize_stored_overrides (override_days (override_of project_id db))
  let row : ProjectOverride = record {
    project_id = project_id;
    days = overrides;
    updated_by = get_or actor.id "system";
  }
  let saved = save_project_policy row db
  result ← get_project_policy project_id saved
  ok (result, record_trail (project_update project_id before overrides) saved)
