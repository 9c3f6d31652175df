-- ===== src/Projects/Operations.antt =====
-- The operations of `ProjectsService` on a project and on its scope policy. `new_id` is the n-th id that
-- `newId` draws in an operation.
use kase_ai.Prelude.{
  ℕ, suc, String, Bool, false, not, ◌||◌, Option, none, some, List, [], ◌∷◌, ◌++◌, ◌==◌, string_eq,
  Result, ok, ◌>>=◌, ◌>>◌, throw_if, or_throw, filter, any, is_some, get_or, is_empty_text,
  update_where, if◌then◌else◌,
}
use kase_ai.Projects.{
  is_user, Actor, Project, ScopePolicy, Repository, Environment, AuthMode, Target, ProjectTables,
  ProjectError, forbidden, not_found, conflict, validation_failed, foreign_key_violated,
  record_trail, find_project, find_slug, given, assert_destructive_is_attested, credential_key,
}
use kase_ai.Projects.Slug.{slugify}

-- `ScopePolicyInputDto`
pub record ScopePolicyInput : Type 0 where
  pub allowed_hosts : List String
  pub denied_paths : Option (List String)
  pub max_requests_per_second : ℕ
  pub max_requests_per_audit : ℕ
  pub destructive_allowed : Option Bool
  pub authorization_attested_by : String

-- `RepositoryInputDto`
pub record RepositoryInput : Type 0 where
  pub provider : String
  pub url : String
  pub default_branch : String
  pub credential_id : Option String

-- `TargetInputDto`
pub record TargetInput : Type 0 where
  pub name : String
  pub base_url : String
  pub environment : Environment
  pub auth_mode : Option AuthMode
  pub auth_credential_id : Option String
  pub build_info_url : Option String

-- `CreateProjectDto`
pub record CreateProject : Type 0 where
  pub name : String
  pub slug : Option String
  pub repository : Option RepositoryInput
  pub targets : Option (List TargetInput)
  pub scope_policy : ScopePolicyInput

-- `UpdateProjectDto`
pub record UpdateProject : Type 0 where
  pub name : Option String
  pub slug : Option String
  pub default_gate_policy_id : Option String

abbrev pub is_destructive : ScopePolicyInput → Bool
is_destructive dto = get_or dto.destructive_allowed false

abbrev pub new_scope_policy : String → String → ScopePolicyInput → ℕ → ScopePolicy
new_scope_policy id project_id dto now = record {
  id = id;
  project_id = project_id;
  allowed_hosts = dto.allowed_hosts;
  denied_paths = get_or dto.denied_paths [];
  max_requests_per_second = dto.max_requests_per_second;
  max_requests_per_audit = dto.max_requests_per_audit;
  destructive_allowed = is_destructive dto;
  authorization_attested_by = dto.authorization_attested_by;
  authorization_attested_at = now;
}

abbrev pub new_repository : String → String → RepositoryInput → Repository
new_repository id project_id dto = record {
  id = id;
  project_id = project_id;
  provider = dto.provider;
  url = dto.url;
  default_branch = dto.default_branch;
  credential_id = dto.credential_id;
}

abbrev pub new_target : String → String → TargetInput → Target
new_target id project_id dto = record {
  id = id;
  project_id = project_id;
  name = dto.name;
  base_url = dto.base_url;
  environment = dto.environment;
  auth_mode = get_or dto.auth_mode AuthMode.no_auth;
  auth_credential_id = dto.auth_credential_id;
  build_info_url = dto.build_info_url;
}

abbrev pub new_project : String → String → String → String → String → Project
new_project id organization_id name slug gate_policy_id = record {
  id = id;
  organization_id = organization_id;
  name = name;
  slug = slug;
  default_gate_policy_id = gate_policy_id;
}

-- `if (dto.repository)`: of the nested rows only the foreign keys of the credentials are checked.
abbrev pub add_repository :
    String → String → Option RepositoryInput → ProjectTables → Result ProjectError ProjectTables
add_repository id project_id none db = ok db
add_repository id project_id (some dto) db = do
  credential_key project_id dto.credential_id db
  ok (record db { repositories = db.repositories ++ new_repository id project_id dto ∷ [] })

abbrev pub add_targets :
    (ℕ → String) → ℕ → String → List TargetInput → ProjectTables → Result ProjectError ProjectTables
add_targets new_id n project_id [] db = ok db
add_targets new_id n project_id (t ∷ ts) db = do
  credential_key project_id t.auth_credential_id db
  add_targets new_id (suc n) project_id ts
      (record db { targets = db.targets ++ new_target (new_id n) project_id t ∷ [] })

abbrev pub creator_of : Actor → Option String
creator_of actor = if is_user actor.actor_type then given actor.id else none

abbrev pub enroll : Option String → String → ProjectTables → ProjectTables
enroll none project_id db = db
enroll (some user_id) project_id db = record db {
  members =
      db.members ++ record { user_id = user_id; project_id = project_id; role = "admin" } ∷ [];
}

-- The project, its gate policy and its scope policy, the first three rows of the transaction.
abbrev pub rooted : Project → ScopePolicy → ProjectTables → ProjectTables
rooted project policy db = record db {
  projects = db.projects ++ project ∷ [];
  gate_policies =
      db.gate_policies
      ++ record { id = project.default_gate_policy_id; project_id = project.id; version = 1 } ∷ [];
  scope_policies = db.scope_policies ++ policy ∷ [];
}

-- `create`, with the id of the project.
unfoldable pub create :
    (String → String)
    → (ℕ → String)
    → CreateProject
    → Actor
    → ℕ
    → ProjectTables
    → Result ProjectError (String × ProjectTables)
unfolding slugify assert_destructive_is_attested credential_key
create fold new_id dto actor now db = do
  organization_id ← or_throw (given actor.organization_id) forbidden
  let slug = get_or dto.slug (slugify fold dto.name)
  throw_if (is_empty_text slug) validation_failed
  throw_if (is_some (find_slug slug db)) conflict
  assert_destructive_is_attested (is_destructive dto.scope_policy) dto.scope_policy.allowed_hosts
  let project = new_project (new_id 0) organization_id dto.name slug (new_id 1)
  let policy = new_scope_policy (new_id 2) (new_id 0) dto.scope_policy now
  with_repository ← add_repository (new_id 3) (new_id 0) dto.repository (rooted project policy db)
  with_targets ← add_targets new_id 4 (new_id 0) (get_or dto.targets []) with_repository
  ok (
    new_id 0,
    record_trail (new_id 0) actor "project.create" (new_id 0)
        (enroll (creator_of actor) (new_id 0) with_targets),
  )

-- `findOne`
unfoldable pub find_one : String → ProjectTables → Result ProjectError Project
find_one id db = or_throw (find_project id db) not_found

abbrev pub changed_slug : UpdateProject → Project → Option String
changed_slug dto before = elim (given dto.slug) [
  | none ↦ none
  | some slug ↦ if slug == before.slug then none else some slug
]

abbrev pub updated_project : UpdateProject → Project → Project
updated_project dto p = record p {
  name = get_or dto.name p.name;
  slug = get_or dto.slug p.slug;
  default_gate_policy_id = get_or dto.default_gate_policy_id p.default_gate_policy_id;
}

abbrev pub is_taken : Option String → ProjectTables → Bool
is_taken none db = false
is_taken (some slug) db = is_some (find_slug slug db)

-- `update`
unfoldable pub update :
    String → UpdateProject → Actor → ProjectTables → Result ProjectError ProjectTables
update id dto actor db = do
  before ← or_throw (find_project id db) not_found
  throw_if (is_taken (changed_slug dto before) db) conflict
  ok (
      record_trail id actor "project.update" id
        (record db { projects = update_where (λ p. p.id == id) (updated_project dto) db.projects }))

-- The tables whose foreign key keeps a project from being deleted: the migration declares
-- `ON DELETE RESTRICT` for them.
abbrev pub is_referenced : String → ProjectTables → Bool
is_referenced id db =
    any (λ p. p.project_id == id) db.scope_policies
    || any (λ r. r.project_id == id) db.repositories
    || any (λ t. t.project_id == id) db.targets
    || any (λ a. a == id) db.audit_projects

-- `project.delete`: the other rows of the project go with it, `ON DELETE CASCADE`.
abbrev pub delete_project : String → ProjectTables → ProjectTables
delete_project id db = record db {
  projects = filter (λ p. not (p.id == id)) db.projects;
  gate_policies = filter (λ p. not (p.project_id == id)) db.gate_policies;
  members = filter (λ k. not (k.project_id == id)) db.members;
  secrets = filter (λ s. not (s.project_id == id)) db.secrets;
}

-- `remove`
unfoldable pub remove : String → Actor → ProjectTables → Result ProjectError ProjectTables
remove id actor db = do
  before ← or_throw (find_project id db) not_found
  throw_if (is_referenced id db) foreign_key_violated
  ok (record_trail id actor "project.delete" id (delete_project id db))

-- `replaceScopePolicy`: the new policy is a row of its own.
unfoldable pub replace_scope_policy :
    String
    → String
    → ScopePolicyInput
    → Actor
    → ℕ
    → ProjectTables
    → Result ProjectError (ScopePolicy × ProjectTables)
unfolding assert_destructive_is_attested
replace_scope_policy id project_id dto actor now db = do
  project ← or_throw (find_project project_id db) not_found
  assert_destructive_is_attested (is_destructive dto) dto.allowed_hosts
  let created = new_scope_policy id project_id dto now
  ok (
    created,
    record_trail project_id actor "scope_policy.replace" id
        (record db { scope_policies = db.scope_policies ++ created ∷ [] }),
  )
