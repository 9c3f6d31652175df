-- ===== src/Retention/Policy.antt =====
-- apps/api/src/retention/retention-policy.service.ts: the days that evidence is kept. Days are natural
-- numbers; the type of a row that is stored leaves no field of a policy undefined.
pub mod Writes
pub mod Effective
pub mod Expiry
use kase_ai.Prelude.{
  ℕ, ◌+◌, ◌*◌, min, String, Bool, true, false, not, ◌&&◌, ◌||◌, Option, none, some, List, [], ◌∷◌,
  ◌==◌, string_eq, Result, ok, err, ◌>>=◌, ◌>>◌, throw_if, or_throw, find, any, leb, is_none,
  is_some, get_or, contains, update_where, if◌then◌else◌,
}
use kase_ai.Retention.{
  PolicyRecord, OrganizationPolicy, ProjectOverride, ProjectRow, AuditRow, Evidence,
  RetentionTables, organization_update, project_update, record_trail,
}

pub data PolicyField : Type 0 where
  replayable_evidence_days non_replayable_evidence_days : PolicyField
  raw_tool_output_days agent_transcript_days : PolicyField

abbrev pub field_of {ℓ} : {A : Type ℓ} → PolicyField → PolicyRecord A → A
field_of replayable_evidence_days r = r.replayable_evidence_days
field_of non_replayable_evidence_days r = r.non_replayable_evidence_days
field_of raw_tool_output_days r = r.raw_tool_output_days
field_of agent_transcript_days r = r.agent_transcript_days

-- `for (const field of POLICY_FIELDS) out[field] = ...`
abbrev pub for_fields {ℓ} : {A : Type ℓ} → (PolicyField → A) → PolicyRecord A
for_fields f = record {
  replayable_evidence_days = f replayable_evidence_days;
  non_replayable_evidence_days = f non_replayable_evidence_days;
  raw_tool_output_days = f raw_tool_output_days;
  agent_transcript_days = f agent_transcript_days;
}

abbrev pub platform_evidence_policy : PolicyRecord ℕ
platform_evidence_policy = record {
  replayable_evidence_days = 90;
  non_replayable_evidence_days = 30;
  raw_tool_output_days = 30;
  agent_transcript_days = 30;
}

abbrev pub min_retention_days : ℕ
min_retention_days = 1

abbrev pub max_retention_days : ℕ
max_retention_days = 365

pub data PolicySource : Type 0 where
  project organization platform : PolicySource

pub record EffectiveDays : Type 0 where
  pub days : ℕ
  pub source : PolicySource

pub data PolicyError : Type 0 where
  not_found forbidden : PolicyError
  invalid_days : PolicyField → PolicyError

abbrev pub normalize_stored_overrides : Option (PolicyRecord (Option ℕ)) → PolicyRecord (Option ℕ)
normalize_stored_overrides none = for_fields (λ field. none)
normalize_stored_overrides (some value) = for_fields (λ field. field_of field value)

abbrev pub effective_days : Option ℕ → Option ℕ → ℕ → EffectiveDays
effective_days (some d) o p = record { days = d; source = project }
effective_days none (some d) p = record { days = d; source = organization }
effective_days none none p = record { days = p; source = platform }

abbrev pub organization_field : PolicyField → Option (PolicyRecord ℕ) → Option ℕ
organization_field field none = none
organization_field field (some p) = some (field_of field p)

-- `resolveProjectPolicy`: the overrides as configured, and what holds in effect.
unfoldable pub resolve_project_policy :
    Option (PolicyRecord (Option ℕ))
    → Option (PolicyRecord ℕ)
    → PolicyRecord (Option ℕ) × PolicyRecord EffectiveDays
resolve_project_policy override inherited =
    let configured = normalize_stored_overrides override in
    (
      configured,
      for_fields (λ field.
          effective_days (field_of field configured) (organization_field field inherited)
            (field_of field platform_evidence_policy)),
    )

-- `valuesOf(configured ?? PLATFORM_EVIDENCE_POLICY)`
abbrev pub values_of : Option (PolicyRecord ℕ) → PolicyRecord ℕ
values_of none = platform_evidence_policy
values_of (some values) = for_fields (λ field. field_of field values)

abbrev pub is_valid_days : ℕ → Bool
is_valid_days d = leb min_retention_days d && leb d max_retention_days

-- `validateDays`
abbrev pub validate_days : PolicyField → Bool → Option ℕ → Result PolicyError (Unit {0})
validate_days field nullable none = throw_if (not nullable) (invalid_days field)
validate_days field nullable (some d) = throw_if (not (is_valid_days d)) (invalid_days field)

unfoldable pub validate_complete_policy : PolicyRecord ℕ → Result PolicyError (Unit {0})
validate_complete_policy value = do
  validate_days replayable_evidence_days false (some value.replayable_evidence_days)
  validate_days non_replayable_evidence_days false (some value.non_replayable_evidence_days)
  validate_days raw_tool_output_days false (some value.raw_tool_output_days)
  validate_days agent_transcript_days false (some value.agent_transcript_days)

-- `normalizeOverrides`: a field that is undefined is null.
unfoldable pub normalize_overrides :
    PolicyRecord (Option ℕ) → Result PolicyError (PolicyRecord (Option ℕ))
normalize_overrides value = do
  validate_days replayable_evidence_days true value.replayable_evidence_days
  validate_days non_replayable_evidence_days true value.non_replayable_evidence_days
  validate_days raw_tool_output_days true value.raw_tool_output_days
  validate_days agent_transcript_days true value.agent_transcript_days
  ok value

abbrev pub is_raw_output : String → Bool
is_raw_output evidence_type =
    contains ("tool_stdout" ∷ "tool_stderr" ∷ "raw_tool_output" ∷ []) evidence_type

-- The class of evidence, as `expiryForCapture` finds it.
abbrev pub policy_field : String → Bool → PolicyField
policy_field evidence_type replayable =
    if evidence_type == "agent_transcript"
    then agent_transcript_days
    else if is_raw_output evidence_type
    then raw_tool_output_days
    else if replayable
    then replayable_evidence_days
    else non_replayable_evidence_days

abbrev pub day_ms : ℕ
day_ms = 24 * 60 * 60 * 1_000

abbrev pub find_project : String → RetentionTables → Option ProjectRow
find_project project_id db = find (λ p. p.id == project_id) db.projects

abbrev pub override_of : String → RetentionTables → Option ProjectOverride
override_of project_id db = find (λ o. o.project_id == project_id) db.project_overrides

abbrev pub organization_policy_of : String → RetentionTables → Option OrganizationPolicy
organization_policy_of organization_id db =
    find (λ o. o.organization_id == organization_id) db.organization_policies

abbrev pub override_days : Option ProjectOverride → Option (PolicyRecord (Option ℕ))
override_days none = none
override_days (some o) = some o.days

abbrev pub organization_days : Option OrganizationPolicy → Option (PolicyRecord ℕ)
organization_days none = none
organization_days (some o) = some o.days

-- `getProjectPolicy`
unfoldable pub get_project_policy :
    String
    → RetentionTables
    → Result PolicyError (PolicyRecord (Option ℕ) × PolicyRecord EffectiveDays)
unfolding resolve_project_policy
get_project_policy project_id db = do
  p ← or_throw (find_project project_id db) not_found
  ok (
      resolve_project_policy (override_days (override_of project_id db))
        (organization_days (organization_policy_of p.organization_id db)))

-- `expiryForCapture`
unfoldable pub expiry_for_capture :
    String → String → Bool → ℕ → RetentionTables → Result PolicyError ℕ
unfolding get_project_policy
expiry_for_capture project_id evidence_type replayable captured_at db = do
  policy ← get_project_policy project_id db
  ok (captured_at + (field_of (policy_field evidence_type replayable) policy.1).days * day_ms)
