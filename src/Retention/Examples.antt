-- ===== src/Retention/Examples.antt =====
-- The retention's theorems at a project of one audit with two pieces of evidence.
use mathlib.Core.List.{Memᴰ}
use kase_ai.Prelude.{
  ℕ, ◌+◌, ◌*◌, ◌≤◌, String, ◌≡◌, refl, Bool, true, false, Option, none, some, List, [], ◌∷◌, arith,
  Result, ok, err, Star, done, more, contains, string_eq, map,
}
use kase_ai.Retention.{PolicyRecord, Evidence, RetentionTables}
use kase_ai.Retention.Policy.{
  EffectiveDays, policy_field, field_of, day_ms, resolve_project_policy, get_project_policy,
  normalize_overrides,
}
use kase_ai.Retention.Policy.Effective.{effective_days_agree}
use kase_ai.Retention.Policy.Writes.{
  Actor, effective_days_sql, project_of, put_project_policy, save_project_policy, reschedule,
}
use kase_ai.Retention.Policy.Expiry.{put_project_policy_applied}
use kase_ai.Retention.Worker.{
  RetentionCandidate, claim_batch, claimable_rows, tombstone_row, run_batch, delete_all,
  release_row,
}
use kase_ai.Retention.Worker.Claims.{claims_disjoint}
use kase_ai.Retention.Worker.History.{IsConsistent, Follows, RetentionStep, claims, tombstones}
use kase_ai.Retention.Worker.Keeping.{history_keeps}

abbrev keep_none : PolicyRecord (Option ℕ)
keep_none = record {
  replayable_evidence_days = some 2;
  non_replayable_evidence_days = none;
  raw_tool_output_days = none;
  agent_transcript_days = none;
}

abbrev log : Evidence
log = record {
  id = "ev_1";
  audit_id = "aud_1";
  evidence_type = "http_exchange";
  replayable = true;
  artifact_uri = some "s3://evidence/1";
  sha256 = "aa";
  captured_at = 0;
  expires_at = 90 * day_ms;
  object_deleted_at = none;
  tombstoned_at = none;
  deletion_lease_id = none;
  deletion_lease_expires_at = none;
}

abbrev tables : RetentionTables
tables = record {
  projects = record { id = "prj_1"; organization_id = "org_1" } ∷ [];
  members = [];
  organization_policies = [];
  project_overrides = [];
  audits = record { id = "aud_1"; project_id = "prj_1" } ∷ [];
  evidence =
      log
      ∷ record log { id = "ev_2"; evidence_type = "tool_stdout"; expires_at = 30 * day_ms }
      ∷ [];
  trail = [];
}

agreement_example :
    effective_days_sql "http_exchange" true (some keep_none) none
    ≡ (field_of
        (policy_field "http_exchange" true)
        (resolve_project_policy (some keep_none) none).1).days
agreement_example = effective_days_agree "http_exchange" true (some keep_none) none

abbrev owner : Actor
owner = record { is_user = true; id = some "usr_1"; organization_id = some "org_1" }

abbrev ok_or {ℓ κ} : {E : Type ℓ} {A : Type κ} → A → Result E A → A
ok_or a (ok b) = b
ok_or a (err e) = a

abbrev put : (PolicyRecord (Option ℕ) × PolicyRecord EffectiveDays) × RetentionTables
put =
    ok_or (resolve_project_policy none none, tables)
      (put_project_policy "prj_1" keep_none owner tables)

put_lem : put_project_policy "prj_1" keep_none owner tables ≡ ok (put.0, put.1)
unfolding put_project_policy save_project_policy reschedule get_project_policy normalize_overrides
    resolve_project_policy effective_days_sql
put_lem = refl

abbrev sooner : Evidence
sooner = record log { expires_at = 2 * day_ms }

sooner_mem : Memᴰ sooner put.1.evidence
unfolding put_project_policy save_project_policy reschedule get_project_policy normalize_overrides
    resolve_project_policy effective_days_sql
sooner_mem = Memᴰ.head refl

sooner_owner : project_of sooner put.1 ≡ some (record { id = "prj_1"; organization_id = "org_1" })
unfolding put_project_policy save_project_policy reschedule get_project_policy normalize_overrides
    resolve_project_policy effective_days_sql
sooner_owner = refl

applied_example :
    sooner.expires_at
    ≤ sooner.captured_at
      + (field_of (policy_field sooner.evidence_type sooner.replayable) put.0.1).days * day_ms
applied_example =
    put_project_policy_applied "prj_1" keep_none owner tables put.1 put.0 sooner
      (record { id = "prj_1"; organization_id = "org_1" }) put_lem sooner_mem sooner_owner refl refl

abbrev next_log : Evidence
next_log = record sooner { id = "ev_2"; expires_at = 2 * day_ms + 1_000 }

abbrev expiring : RetentionTables
expiring = record tables { evidence = sooner ∷ next_log ∷ [] }

abbrev first_id : String → String → Bool
first_id a b = true

abbrev second_claim : List RetentionCandidate × RetentionTables
second_claim =
    claim_batch first_id (2 * day_ms + 2_000) "lease_2"
      (claim_batch first_id (2 * day_ms) "lease_1" expiring).1

abbrev next_candidate : RetentionCandidate
next_candidate = record {
  id = "ev_2";
  project_id = "prj_1";
  artifact_uri = "s3://evidence/1";
  sha256 = "aa";
}

next_claimed : Memᴰ next_candidate second_claim.0
unfolding claim_batch claimable_rows
next_claimed = Memᴰ.head refl

disjoint_example :
    contains
      (map
        (λ (k : RetentionCandidate). k.id)
        (claim_batch first_id (2 * day_ms) "lease_1" expiring).0)
      "ev_2"
    ≡ false
disjoint_example =
    claims_disjoint first_id (2 * day_ms) (2 * day_ms + 2_000) "lease_1" "lease_2" expiring
      next_candidate (omega arith) next_claimed

abbrev first_claim : RetentionTables
first_claim = (claim_batch first_id (2 * day_ms) "lease_1" expiring).1

abbrev first_candidate : RetentionCandidate
first_candidate = record next_candidate { id = "ev_1" }

abbrev deleted : RetentionTables
deleted = (tombstone_row first_candidate "lease_1" (2 * day_ms + 500) first_claim).1

first_deletion : Star RetentionStep expiring deleted
unfolding claim_batch claimable_rows
first_deletion = more (claims first_id (2 * day_ms) "lease_1" refl) (
    more
      (tombstones first_candidate "lease_1" (2 * day_ms + 500) (λ h. omega arith, (λ h. tt, tt))
        refl)
      done)

deletion_example : IsConsistent deleted.evidence × Follows expiring.evidence deleted.evidence
deletion_example =
    history_keeps expiring deleted first_deletion
      (record { keys = (refl, (refl, tt)); kept = (tt, (tt, tt)) })

abbrev is_stored : String → Bool
is_stored uri = true

batch_deletes :
    (run_batch first_id is_stored (2 * day_ms) (2 * day_ms + 500) "lease_1" expiring).0
    ≡ record { claimed = 1; tombstoned = 1; failed = 0 }
unfolding run_batch claim_batch claimable_rows delete_all tombstone_row release_row
batch_deletes = refl
