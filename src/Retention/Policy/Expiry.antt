-- ===== src/Retention/Policy/Expiry.antt =====
-- What the policy of a project, once it is put, means for the evidence that is there.
use mathlib.Core.List.{Memᴰ}
use mathlib.Core.Path.{subst}
use kase_ai.Prelude.{
  ℕ, ◌+◌, ◌*◌, ◌≤◌, String, ◌≡◌, refl, sym, ap, ◌∙◌, inl, inr, Bool, true, Option, none, some,
  arith, ◌==◌, string_eq, ok, ok_injective, >>=-eq-ok, or_throw, or_throw-eq-ok, Option-cases,
  mem-map, get_or,
}
use kase_ai.Orchestrator.History.Keys.{find-eq-some}
use kase_ai.Retention.{
  PolicyRecord, ProjectOverride, ProjectRow, Evidence, RetentionTables, TrailEntry, project_update,
  record_trail,
}
use kase_ai.Retention.Policy.{
  EffectiveDays, not_found, field_of, policy_field, day_ms, find_project, override_of,
  override_days, organization_policy_of, organization_days, resolve_project_policy,
  normalize_overrides, normalize_stored_overrides, get_project_policy,
}
use kase_ai.Retention.Policy.Effective.{effective_days_agree}
use kase_ai.Retention.Policy.Writes.{
  Actor, project_of, project_of_audit, find_audit, days_of, reschedule_row, reschedule,
  upsert_override, save_project_policy, put_project_policy,
}

-- A live row of a picked project, after the rescheduling.
rescheduled_row :
    (chosen : ProjectRow → Bool) (db : RetentionTables) (e : Evidence) (p : ProjectRow)
    → project_of e db ≡ some p
    → chosen p ≡ true
    → (reschedule_row chosen db e).tombstoned_at ≡ none
    → (reschedule_row chosen db e).expires_at ≤ e.captured_at + days_of e p db * day_ms
rescheduled_row chosen db e p found picked live =
    let still = rw (reschedule_row, found, picked) at live in
    rw (reschedule_row, found, picked) (ground (arith, still))

find_project-id :
    (project_id : String) (db : RetentionTables) (p : ProjectRow)
    → find_project project_id db ≡ some p
    → p.id ≡ project_id
find_project-id project_id db p e =
    let (_, hit) = find-eq-some (λ k. k.id == project_id) db.projects p e in
    (string_eq.eqb_iff p.id project_id).0 hit

project_of-find :
    (e : Evidence) (db : RetentionTables) (p : ProjectRow)
    → project_of e db ≡ some p
    → find_project p.id db ≡ some p
project_of-find e db p found = elim (Option-cases (find_audit e.audit_id db)) [
  | inl gone ↦ ground (arith, found, gone)
  | inr (a, here) ↦
      let owner : find_project a.project_id db ≡ some p = rw (project_of_audit, here) at found in
      ap (λ id. find_project id db) (find_project-id a.project_id db p owner) ∙ owner
]

project_of-same :
    (db : RetentionTables) (e e' : Evidence) {p : ProjectRow}
    → e.audit_id ≡ e'.audit_id
    → project_of e db ≡ some p
    → project_of e' db ≡ some p
project_of-same db e e' {p} same found = subst (λ id. project_of_audit id db ≡ some p) same found

reschedule_row-same :
    (chosen : ProjectRow → Bool) (db : RetentionTables) (e : Evidence)
    → ((reschedule_row chosen db e).audit_id ≡ e.audit_id)
      × ((reschedule_row chosen db e).captured_at ≡ e.captured_at)
      × ((reschedule_row chosen db e).evidence_type ≡ e.evidence_type)
      × ((reschedule_row chosen db e).replayable ≡ e.replayable)
reschedule_row-same chosen db e = elim (Option-cases (project_of e db)) [
  | inl gone ↦ rw (reschedule_row, gone) (refl, refl, refl, refl)
  | inr (p, found) ↦ rw (reschedule_row, found) (ground arith)
]

-- A put that succeeds has saved the overrides, and answers with the policy as it then is.
put_project_policy-eq-ok :
    (project_id : String) (dto : PolicyRecord (Option ℕ)) (actor : Actor) (db db' : RetentionTables)
    (result : PolicyRecord (Option ℕ) × PolicyRecord EffectiveDays)
    → put_project_policy project_id dto actor db ≡ ok (result, db')
    → (row : ProjectOverride) × (entry : TrailEntry) × (row.project_id ≡ project_id)
      × (get_project_policy project_id (save_project_policy row db) ≡ ok result)
      × (db' ≡ record_trail entry (save_project_policy row db))
unfolding put_project_policy
put_project_policy-eq-ok project_id dto actor db db' result put =
    let (overrides, _, put₁) = >>=-eq-ok (normalize_overrides dto) _ put in
    let (q, found, put₂) = >>=-eq-ok (or_throw (find_project project_id db) not_found) _ put₁ in
    let row : ProjectOverride = record {
      project_id = project_id;
      days = overrides;
      updated_by = get_or actor.id "system";
    } in
    let entry =
      project_update project_id
        (normalize_stored_overrides (override_days (override_of project_id db))) overrides in
    let (answer, got, put₃) =
      >>=-eq-ok (get_project_policy project_id (save_project_policy row db)) _ put₂ in
    let both = ok_injective put₃ in
    (row, entry, refl, got ∙ ap (λ r. ok r) (ap (λ r. r.0) both), sym (ap (λ r. r.1) both))

-- Evidence of a project whose overrides have just been saved.
saved_project_applied :
    (row : ProjectOverride) (db : RetentionTables)
    (result : PolicyRecord (Option ℕ) × PolicyRecord EffectiveDays) (e : Evidence) (p : ProjectRow)
    → get_project_policy row.project_id (save_project_policy row db) ≡ ok result
    → Memᴰ e (save_project_policy row db).evidence
    → project_of e (save_project_policy row db) ≡ some p
    → p.id ≡ row.project_id
    → e.tombstoned_at ≡ none
    → e.expires_at
      ≤ e.captured_at
        + (field_of (policy_field e.evidence_type e.replayable) result.1).days * day_ms
unfolding save_project_policy reschedule get_project_policy
saved_project_applied row db result e p got m owner own live =
    let saved = record db { project_overrides = upsert_override row db.project_overrides } in
    let chosen : ProjectRow → Bool = λ q. q.id == row.project_id in
    let (q, found, answered) =
      >>=-eq-ok (or_throw (find_project row.project_id saved) not_found) _ got in
    let (x, _, same) = mem-map (reschedule_row chosen saved) db.evidence e m in
    let (audit, captured, type, kind) = reschedule_row-same chosen saved x in
    let owner' : project_of x saved ≡ some p =
      project_of-same saved (reschedule_row chosen saved x) x audit
        (subst (λ k. project_of k saved ≡ some p) same owner) in
    let there : find_project row.project_id saved ≡ some p =
      subst (λ id. find_project id saved ≡ some p) own (project_of-find x saved p owner') in
    let one : q ≡ p = ground (arith, there, or_throw-eq-ok _ _ found) in
    let bound =
      rescheduled_row chosen saved x p owner' ((string_eq.eqb_iff p.id row.project_id).1 own)
        (subst (λ k. k.tombstoned_at ≡ none) same live) in
    let policy =
      resolve_project_policy (override_days (override_of p.id saved))
        (organization_days (organization_policy_of p.organization_id saved)) in
    let answer : policy ≡ result =
      subst
        (λ (k : ProjectRow).
          resolve_project_policy (override_days (override_of p.id saved))
            (organization_days (organization_policy_of k.organization_id saved))
          ≡ result)
        one
        (subst
          (λ id.
            resolve_project_policy (override_days (override_of id saved))
              (organization_days (organization_policy_of q.organization_id saved))
            ≡ result)
          (sym own) (ok_injective answered)) in
    let days : days_of x p saved
        ≡ (field_of (policy_field x.evidence_type x.replayable) result.1).days =
      effective_days_agree x.evidence_type x.replayable _ _
      ∙ ap
          (λ (r : PolicyRecord (Option ℕ) × PolicyRecord EffectiveDays).
            (field_of (policy_field x.evidence_type x.replayable) r.1).days)
          answer in
    let bound' : (reschedule_row chosen saved x).expires_at
        ≤ x.captured_at
          + (field_of (policy_field x.evidence_type x.replayable) result.1).days * day_ms =
      rw days at bound in
    subst
      (λ (k : Evidence).
        k.expires_at
        ≤ k.captured_at
          + (field_of (policy_field k.evidence_type k.replayable) result.1).days * day_ms)
      (sym same) (rw (captured, type, kind) bound')

-- Once the policy of a project has been put, no evidence of it that is not deleted expires later than
-- the days after its capture which the answer gives for its class.
pub put_project_policy_applied :
    (project_id : String) (dto : PolicyRecord (Option ℕ)) (actor : Actor) (db db' : RetentionTables)
    (result : PolicyRecord (Option ℕ) × PolicyRecord EffectiveDays) (e : Evidence) (p : ProjectRow)
    → put_project_policy project_id dto actor db ≡ ok (result, db')
    → Memᴰ e db'.evidence
    → project_of e db' ≡ some p
    → p.id ≡ project_id
    → e.tombstoned_at ≡ none
    → e.expires_at
      ≤ e.captured_at
        + (field_of (policy_field e.evidence_type e.replayable) result.1).days * day_ms
put_project_policy_applied project_id dto actor db db' result e p put m owner own live =
    let (row, entry, same_id, got, same) =
      put_project_policy-eq-ok project_id dto actor db db' result put in
    saved_project_applied row db result e p
      (subst (λ id. get_project_policy id (save_project_policy row db) ≡ ok result) (sym same_id)
        got)
      (subst (λ t. Memᴰ e t.evidence) same m) (subst (λ t. project_of e t ≡ some p) same owner)
      (own ∙ sym same_id) live
