-- ===== src/Retention/Policy/Effective.antt =====
-- The days that the SQL of a rescheduling computes and those that a capture is given.
use kase_ai.Prelude.{ℕ, String, ◌≡◌, Bool, Option, arith, string_eq}
use kase_ai.Retention.{PolicyRecord}
use kase_ai.Retention.Policy.{
  PolicyField, replayable_evidence_days, non_replayable_evidence_days, raw_tool_output_days,
  agent_transcript_days, field_of, policy_field, resolve_project_policy, organization_field,
  platform_evidence_policy,
}
use kase_ai.Retention.Policy.Writes.{effective_days_sql, coalesce, override_column}

-- Of one class, with the platform's default.
coalesce_effective :
    (field : PolicyField) (o : Option (PolicyRecord (Option ℕ))) (op : Option (PolicyRecord ℕ))
    → coalesce
        (override_column field o)
        (organization_field field op)
        (field_of field platform_evidence_policy)
      ≡ (field_of field (resolve_project_policy o op).1).days
unfolding resolve_project_policy
coalesce_effective replayable_evidence_days o op = ground arith
coalesce_effective non_replayable_evidence_days o op = ground arith
coalesce_effective raw_tool_output_days o op = ground arith
coalesce_effective agent_transcript_days o op = ground arith

-- The SQL that moves the expiries and `resolveProjectPolicy`, which sets them at a capture, agree on the
-- days of every piece of evidence, whatever is configured for the project and for its organization.
pub effective_days_agree :
    (evidence_type : String) (replayable : Bool) (o : Option (PolicyRecord (Option ℕ)))
    (op : Option (PolicyRecord ℕ))
    → effective_days_sql evidence_type replayable o op
      ≡ (field_of (policy_field evidence_type replayable) (resolve_project_policy o op).1).days
unfolding effective_days_sql
effective_days_agree evidence_type replayable o op = ground (
  arith,
  coalesce_effective replayable_evidence_days o op,
  coalesce_effective non_replayable_evidence_days o op,
  coalesce_effective raw_tool_output_days o op,
  coalesce_effective agent_transcript_days o op,
)
