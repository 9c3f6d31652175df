-- ===== src/Projects/History.antt =====
-- The operations of `ProjectsService` in any order, and what they keep of the projects and policies.
use kase_ai.Prelude.{ℕ, String, ◌≡◌, true, false, ◌&&◌, List, ◌==◌, string_eq, ok, any, All}
use kase_ai.Projects.{
  Actor, Project, GatePolicy, ScopePolicy, ProjectMember, Secret, TrailRow, ProjectTables,
  has_wildcard,
}
use kase_ai.Projects.Operations.{
  ScopePolicyInput, RepositoryInput, TargetInput, CreateProject, UpdateProject, create, update,
  remove, replace_scope_policy,
}
use kase_ai.Projects.Sections.{
  UpdateRepository, UpdateTarget, create_repository, update_repository, remove_repository,
  create_target, update_target, remove_target,
}

abbrev pub IsCovered : List ScopePolicy → Project → Type 0
IsCovered policies p = any (λ s. s.project_id == p.id) policies ≡ true

abbrev pub IsBounded : ScopePolicy → Type 0
IsBounded s = (s.destructive_allowed && any has_wildcard s.allowed_hosts) ≡ false

-- Each project has a scope policy, and no policy allows destructive tests of hosts it does not name.
pub record IsAttested (db : ProjectTables) : Type 0 where
  pub covered : All (IsCovered db.scope_policies) db.projects
  pub bounded : All IsBounded db.scope_policies

pub data ProjectStep (db db' : ProjectTables) : Type 0 where
  creates :
      (fold : String → String) (new_id : ℕ → String) (dto : CreateProject) (actor : Actor) (now : ℕ)
      (id : String)
      → create fold new_id dto actor now db ≡ ok (id, db')
      → ProjectStep db db'
  updates :
      (id : String) (dto : UpdateProject) (actor : Actor)
      → update id dto actor db ≡ ok db'
      → ProjectStep db db'
  removes : (id : String) (actor : Actor) → remove id actor db ≡ ok db' → ProjectStep db db'
  replaces_policy :
      (id project_id : String) (dto : ScopePolicyInput) (actor : Actor) (now : ℕ)
      (policy : ScopePolicy)
      → replace_scope_policy id project_id dto actor now db ≡ ok (policy, db')
      → ProjectStep db db'
  creates_repository :
      (id project_id : String) (dto : RepositoryInput) (actor : Actor)
      → create_repository id project_id dto actor db ≡ ok db'
      → ProjectStep db db'
  updates_repository :
      (project_id id : String) (dto : UpdateRepository) (actor : Actor)
      → update_repository project_id id dto actor db ≡ ok db'
      → ProjectStep db db'
  removes_repository :
      (project_id id : String) (actor : Actor)
      → remove_repository project_id id actor db ≡ ok db'
      → ProjectStep db db'
  creates_target :
      (id project_id : String) (dto : TargetInput) (actor : Actor)
      → create_target id project_id dto actor db ≡ ok db'
      → ProjectStep db db'
  updates_target :
      (project_id id : String) (dto : UpdateTarget) (actor : Actor) (now : ℕ)
      → update_target project_id id dto actor now db ≡ ok db'
      → ProjectStep db db'
  removes_target :
      (project_id id : String) (actor : Actor)
      → remove_target project_id id actor db ≡ ok db'
      → ProjectStep db db'
  other_rows :
      (gates : List GatePolicy) (members : List ProjectMember) (secrets : List Secret)
      (audit_projects : List String) (trail : List TrailRow)
      → record db {
        gate_policies = gates;
        members = members;
        secrets = secrets;
        audit_projects = audit_projects;
        trail = trail;
      }
        ≡ db'
      → ProjectStep db db'
