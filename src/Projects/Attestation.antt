-- ===== src/Projects/Attestation.antt =====
-- What the operations of `ProjectsService` keep: every project is attested.
use mathlib.Core.Path.{subst}
use kase_ai.Prelude.{
  ℕ, String, ◌≡◌, refl, ap, Bool, true, some, List, [], ◌∷◌, ◌++◌, arith, ◌==◌, string_eq, ok, err,
  ok_injective, >>=-eq-ok, throw_if, throw_if-eq-ok, or_throw, or_throw-eq-ok, any, get_or, is_some,
  is_empty_text, All, All-mem, All-map, All-append, All-update_where, Star, Star-keeps,
}
use kase_ai.Orchestrator.History.Keys.{find-eq-some}
use kase_ai.Projects.{
  Actor, Project, ScopePolicy, ProjectTables, not_found, conflict, forbidden, validation_failed,
  foreign_key_violated, find_project, find_slug, given, assert_destructive_is_attested,
  record_trail,
}
use kase_ai.Projects.Slug.{slugify}
use kase_ai.Projects.Operations.{
  ScopePolicyInput, CreateProject, UpdateProject, is_destructive, new_scope_policy, new_project,
  add_repository, add_targets, rooted, create, update, remove, replace_scope_policy, enroll,
  creator_of, changed_slug, is_taken, updated_project,
}
use kase_ai.Projects.History.{
  IsCovered, IsBounded, IsAttested, ProjectStep, creates, updates, removes, replaces_policy,
  creates_repository, updates_repository, removes_repository, creates_target, updates_target,
  removes_target, other_rows,
}
use kase_ai.Projects.Roots.{
  SameRoots-IsAttested, create_repository-roots, update_repository-roots, remove_repository-roots,
  create_target-roots, update_target-roots, remove_target-roots, SameRoots-trans,
  add_repository-roots, add_targets-roots, enroll-roots,
}

any-append_left {ℓ} :
    {A : Type ℓ} (p : A → Bool) (xs ys : List A) → any p xs ≡ true → any p (xs ++ ys) ≡ true
any-append_left p [] ys h = ground (arith, h)
any-append_left p (x ∷ xs) ys h = ground (arith, h, any-append_left p xs ys)

any-append_last {ℓ} :
    {A : Type ℓ} (p : A → Bool) (xs : List A) (x : A) → p x ≡ true → any p (xs ++ x ∷ []) ≡ true
any-append_last p [] x h = ground (arith, h)
any-append_last p (y ∷ xs) x h = ground (arith, any-append_last p xs x h)

more-IsCovered :
    (policies : List ScopePolicy) (s : ScopePolicy) (projects : List Project)
    → All (IsCovered policies) projects
    → All (IsCovered (policies ++ s ∷ [])) projects
more-IsCovered policies s projects =
    All-map (IsCovered policies) (IsCovered (policies ++ s ∷ []))
      (λ p h. any-append_left (λ k. k.project_id == p.id) policies (s ∷ []) h) projects

attested_policy :
    (id project_id : String) (dto : ScopePolicyInput) (now : ℕ)
    → assert_destructive_is_attested (is_destructive dto) dto.allowed_hosts ≡ ok tt
    → IsBounded (new_scope_policy id project_id dto now)
unfolding assert_destructive_is_attested
attested_policy id project_id dto now e = throw_if-eq-ok _ _ e

rooted-IsAttested :
    (project : Project) (policy : ScopePolicy) (db : ProjectTables)
    → policy.project_id ≡ project.id
    → IsBounded policy
    → IsAttested db
    → IsAttested (rooted project policy db)
rooted-IsAttested project policy db own b a = record {
  covered =
      All-append (IsCovered (db.scope_policies ++ policy ∷ [])) db.projects (project ∷ [])
        (more-IsCovered db.scope_policies policy db.projects a.covered)
        (
          any-append_last (λ k. k.project_id == project.id) db.scope_policies policy
              ((string_eq.eqb_iff policy.project_id project.id).1 own),
          tt,
        );
  bounded = All-append IsBounded db.scope_policies (policy ∷ []) a.bounded (b, tt);
}

create-IsAttested :
    (fold : String → String) (new_id : ℕ → String) (dto : CreateProject) (actor : Actor) (now : ℕ)
    (id : String) (db db' : ProjectTables)
    → create fold new_id dto actor now db ≡ ok (id, db')
    → IsAttested db
    → IsAttested db'
unfolding create
create-IsAttested fold new_id dto actor now id db db' e a =
    let slug = get_or dto.slug (slugify fold dto.name) in
    let (org, _, e₁) = >>=-eq-ok (or_throw (given actor.organization_id) forbidden) _ e in
    let (_, _, e₂) = >>=-eq-ok (throw_if (is_empty_text slug) validation_failed) _ e₁ in
    let (_, _, e₃) = >>=-eq-ok (throw_if (is_some (find_slug slug db)) conflict) _ e₂ in
    let (_, attested, e₄) =
      >>=-eq-ok
        (assert_destructive_is_attested (is_destructive dto.scope_policy)
          dto.scope_policy.allowed_hosts)
        _ e₃ in
    let project = new_project (new_id 0) org dto.name slug (new_id 1) in
    let policy = new_scope_policy (new_id 2) (new_id 0) dto.scope_policy now in
    let (db₁, added, e₅) =
      >>=-eq-ok (add_repository (new_id 3) (new_id 0) dto.repository (rooted project policy db)) _
        e₄ in
    let (db₂, targeted, e₆) =
      >>=-eq-ok (add_targets new_id 4 (new_id 0) (get_or dto.targets []) db₁) _ e₅ in
    let enrolled = enroll (creator_of actor) (new_id 0) db₂ in
    let same : record_trail (new_id 0) actor "project.create" (new_id 0) enrolled ≡ db' =
      ap (λ (r : String × ProjectTables). r.1) (ok_injective e₆) in
    let rooted_ok =
      rooted-IsAttested project policy db refl
        (attested_policy (new_id 2) (new_id 0) dto.scope_policy now attested) a in
    let roots =
      SameRoots-trans (rooted project policy db) db₂ enrolled
        (SameRoots-trans (rooted project policy db) db₁ db₂
          (add_repository-roots (new_id 3) (new_id 0) dto.repository (rooted project policy db) db₁
            added)
          (add_targets-roots new_id 4 (new_id 0) (get_or dto.targets []) db₁ db₂ targeted))
        (enroll-roots (creator_of actor) (new_id 0) db₂) in
    let kept = SameRoots-IsAttested (rooted project policy db) enrolled roots rooted_ok in
    subst IsAttested same (record { covered = kept.covered; bounded = kept.bounded })

update-IsAttested :
    (id : String) (dto : UpdateProject) (actor : Actor) (db db' : ProjectTables)
    → update id dto actor db ≡ ok db'
    → IsAttested db
    → IsAttested db'
unfolding update
update-IsAttested id dto actor db db' e a =
    let (before, _, e₁) = >>=-eq-ok (or_throw (find_project id db) not_found) _ e in
    let (_, _, e₂) = >>=-eq-ok (throw_if (is_taken (changed_slug dto before) db) conflict) _ e₁ in
    subst IsAttested (ok_injective e₂) (record {
      covered =
          All-update_where (IsCovered db.scope_policies) (λ p. p.id == id) (updated_project dto)
            db.projects (λ p h hit. h) a.covered;
      bounded = a.bounded;
    })

replace-IsAttested :
    (id project_id : String) (dto : ScopePolicyInput) (actor : Actor) (now : ℕ)
    (policy : ScopePolicy) (db db' : ProjectTables)
    → replace_scope_policy id project_id dto actor now db ≡ ok (policy, db')
    → IsAttested db
    → IsAttested db'
unfolding replace_scope_policy
replace-IsAttested id project_id dto actor now policy db db' e a =
    let (_, _, e₁) = >>=-eq-ok (or_throw (find_project project_id db) not_found) _ e in
    let (_, attested, e₂) =
      >>=-eq-ok (assert_destructive_is_attested (is_destructive dto) dto.allowed_hosts) _ e₁ in
    let created = new_scope_policy id project_id dto now in
    subst IsAttested (ap (λ (r : ScopePolicy × ProjectTables). r.1) (ok_injective e₂)) (record {
      covered = more-IsCovered db.scope_policies created db.projects a.covered;
      bounded =
          All-append IsBounded db.scope_policies (created ∷ []) a.bounded
            (attested_policy id project_id dto now attested, tt);
    })

remove-found :
    (id : String) (actor : Actor) (db db' : ProjectTables)
    → remove id actor db ≡ ok db'
    → (p : Project) × (find_project id db ≡ some p)
unfolding remove
remove-found id actor db db' e =
    let (p, found, _) = >>=-eq-ok (or_throw (find_project id db) not_found) _ e in
    (p, or_throw-eq-ok _ _ found)

-- A project that is covered is never deleted.
remove_refused :
    (id : String) (actor : Actor) (p : Project) (db : ProjectTables)
    → find_project id db ≡ some p
    → IsAttested db
    → remove id actor db ≡ err foreign_key_violated
unfolding remove
remove_refused id actor p db found a =
    let (m, hit) = find-eq-some (λ k. k.id == id) db.projects p found in
    let own : p.id ≡ id = (string_eq.eqb_iff p.id id).0 hit in
    let held = All-mem (IsCovered db.scope_policies) db.projects p a.covered m in
    let kept : any (λ s. s.project_id == id) db.scope_policies ≡ true =
      subst (λ k. any (λ s. s.project_id == k) db.scope_policies ≡ true) own held in
    rw (found, kept) refl

step_keeps : (db db' : ProjectTables) → ProjectStep db db' → IsAttested db → IsAttested db'
step_keeps db db' (creates fold new_id dto actor now id e) a =
    create-IsAttested fold new_id dto actor now id db db' e a
step_keeps db db' (updates id dto actor e) a = update-IsAttested id dto actor db db' e a
step_keeps db db' (removes id actor e) a =
    let (p, found) = remove-found id actor db db' e in
    let refused = remove_refused id actor p db found a in ground (arith, e, refused)
step_keeps db db' (replaces_policy id project_id dto actor now policy e) a =
    replace-IsAttested id project_id dto actor now policy db db' e a
step_keeps db db' (creates_repository id project_id dto actor e) a =
    SameRoots-IsAttested db db' (create_repository-roots actor db db' id project_id dto e) a
step_keeps db db' (updates_repository project_id id dto actor e) a =
    SameRoots-IsAttested db db' (update_repository-roots actor db db' project_id id dto e) a
step_keeps db db' (removes_repository project_id id actor e) a =
    SameRoots-IsAttested db db' (remove_repository-roots actor db db' project_id id e) a
step_keeps db db' (creates_target id project_id dto actor e) a =
    SameRoots-IsAttested db db' (create_target-roots actor db db' id project_id dto e) a
step_keeps db db' (updates_target project_id id dto actor now e) a =
    SameRoots-IsAttested db db' (update_target-roots actor db db' project_id id dto now e) a
step_keeps db db' (removes_target project_id id actor e) a =
    SameRoots-IsAttested db db' (remove_target-roots actor db db' project_id id e) a
step_keeps db db' (other_rows gates members secrets audits trail same) a =
    subst IsAttested same (record { covered = a.covered; bounded = a.bounded })

-- If at first each project has a scope policy, and no policy allows destructive tests together with a
-- wildcard among its hosts, then it stays so however the operations of the service interleave.
pub projects-IsAttested :
    (db db' : ProjectTables) → Star ProjectStep db db' → IsAttested db → IsAttested db'
projects-IsAttested db db' steps a = Star-keeps IsAttested step_keeps steps a

-- The removal of a project fails: where at first each project has a scope policy and no policy allows
-- destructive tests with a wildcard, then whatever operations follow, the database refuses to delete any
-- project that is found, since a scope policy refers to it.
pub project_removal_fails :
    (id : String) (actor : Actor) (p : Project) (db db' : ProjectTables)
    → IsAttested db
    → Star ProjectStep db db'
    → find_project id db' ≡ some p
    → remove id actor db' ≡ err foreign_key_violated
project_removal_fails id actor p db db' a steps found =
    remove_refused id actor p db' found (projects-IsAttested db db' steps a)
