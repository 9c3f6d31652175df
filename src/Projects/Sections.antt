-- ===== src/Projects/Sections.antt =====
-- The operations of `ProjectsService` on the repositories and the targets of a project.
use kase_ai.Prelude.{
  ℕ, String, Bool, false, not, ◌&&◌, ◌||◌, Option, none, some, List, [], ◌∷◌, ◌++◌, ◌==◌, string_eq,
  Result, ok, ◌>>=◌, ◌>>◌, throw_if, or_throw, find, filter, get_or, update_where, if◌then◌else◌,
}
use kase_ai.Projects.{
  Actor, Repository, Environment, is_production, AuthMode, Target, ProjectTables, ProjectError,
  not_found, attestation_required, attestation_stale, record_trail, is_attestation_stale,
  assert_project_exists, current_policy, assert_credential_usable, credential_key,
}
use kase_ai.Projects.Operations.{RepositoryInput, TargetInput, new_repository, new_target}

-- `UpdateRepositoryDto`
pub record UpdateRepository : Type 0 where
  pub provider : Option String
  pub url : Option String
  pub default_branch : Option String
  pub credential_id : Option String

-- `UpdateTargetDto`
pub record UpdateTarget : Type 0 where
  pub name : Option String
  pub base_url : Option String
  pub environment : Option Environment
  pub auth_mode : Option AuthMode
  pub auth_credential_id : Option String
  pub build_info_url : Option String

abbrev pub or_else {ℓ} : {A : Type ℓ} → Option A → Option A → Option A
or_else none o = o
or_else (some a) o = some a

abbrev pub find_repository : String → String → ProjectTables → Option Repository
find_repository project_id id db =
    find (λ r. r.id == id && r.project_id == project_id) db.repositories

abbrev pub find_target : String → String → ProjectTables → Option Target
find_target project_id id db = find (λ t. t.id == id && t.project_id == project_id) db.targets

-- `listRepositories`, and `listTargets` below, in the order of the table.
unfoldable pub list_repositories : String → ProjectTables → Result ProjectError (List Repository)
list_repositories project_id db = do
  project ← assert_project_exists project_id db
  ok (filter (λ r. r.project_id == project_id) db.repositories)

-- `createRepository`
unfoldable pub create_repository :
    String → String → RepositoryInput → Actor → ProjectTables → Result ProjectError ProjectTables
unfolding assert_credential_usable credential_key
create_repository id project_id dto actor db = do
  project ← assert_project_exists project_id db
  assert_credential_usable project_id dto.credential_id db
  credential_key project_id dto.credential_id db
  ok (
      record_trail project_id actor "repository.create" id
        (record db { repositories = db.repositories ++ new_repository id project_id dto ∷ [] }))

abbrev pub updated_repository : UpdateRepository → Repository → Repository
updated_repository dto r = record r {
  provider = get_or dto.provider r.provider;
  url = get_or dto.url r.url;
  default_branch = get_or dto.default_branch r.default_branch;
  credential_id = or_else dto.credential_id r.credential_id;
}

-- `updateRepository`
unfoldable pub update_repository :
    String → String → UpdateRepository → Actor → ProjectTables → Result ProjectError ProjectTables
unfolding assert_credential_usable credential_key
update_repository project_id id dto actor db = do
  before ← or_throw (find_repository project_id id db) not_found
  assert_credential_usable project_id dto.credential_id db
  credential_key project_id dto.credential_id db
  ok (
      record_trail project_id actor "repository.update" id (record db {
        repositories = update_where (λ r. r.id == id) (updated_repository dto) db.repositories;
      }))

-- `removeRepository`; the audits' columns of the repository are not kept.
unfoldable pub remove_repository :
    String → String → Actor → ProjectTables → Result ProjectError ProjectTables
remove_repository project_id id actor db = do
  before ← or_throw (find_repository project_id id db) not_found
  ok (
      record_trail project_id actor "repository.delete" id
        (record db { repositories = filter (λ r. not (r.id == id)) db.repositories }))

unfoldable pub list_targets : String → ProjectTables → Result ProjectError (List Target)
list_targets project_id db = do
  project ← assert_project_exists project_id db
  ok (filter (λ t. t.project_id == project_id) db.targets)

-- `createTarget`
unfoldable pub create_target :
    String → String → TargetInput → Actor → ProjectTables → Result ProjectError ProjectTables
unfolding assert_credential_usable credential_key
create_target id project_id dto actor db = do
  project ← assert_project_exists project_id db
  assert_credential_usable project_id dto.auth_credential_id db
  credential_key project_id dto.auth_credential_id db
  ok (
      record_trail project_id actor "target.create" id
        (record db { targets = db.targets ++ new_target id project_id dto ∷ [] }))

abbrev pub updated_target : UpdateTarget → Target → Target
updated_target dto t = record t {
  name = get_or dto.name t.name;
  base_url = get_or dto.base_url t.base_url;
  environment = get_or dto.environment t.environment;
  auth_mode = get_or dto.auth_mode t.auth_mode;
  auth_credential_id = or_else dto.auth_credential_id t.auth_credential_id;
  build_info_url = or_else dto.build_info_url t.build_info_url;
}

abbrev pub to_production : Option Environment → Bool
to_production none = false
to_production (some e) = is_production e

abbrev pub touches_production : UpdateTarget → Target → Bool
touches_production dto before = is_production before.environment || to_production dto.environment

-- The policy under which a production target may be changed.
unfoldable pub assert_fresh_attestation :
    String → ℕ → ProjectTables → Result ProjectError (Unit {0})
assert_fresh_attestation project_id now db = do
  policy ← or_throw (current_policy project_id db) attestation_required
  throw_if (is_attestation_stale policy.authorization_attested_at now) attestation_stale

-- `updateTarget`
unfoldable pub update_target :
    String → String → UpdateTarget → Actor → ℕ → ProjectTables → Result ProjectError ProjectTables
unfolding assert_credential_usable credential_key assert_fresh_attestation
update_target project_id id dto actor now db = do
  before ← or_throw (find_target project_id id db) not_found
  assert_credential_usable project_id dto.auth_credential_id db
  if touches_production dto before then assert_fresh_attestation project_id now db else ok tt
  credential_key project_id dto.auth_credential_id db
  ok (
      record_trail project_id actor "target.update" id
        (record db { targets = update_where (λ t. t.id == id) (updated_target dto) db.targets }))

-- `removeTarget`; the audits' columns of the target are not kept.
unfoldable pub remove_target :
    String → String → Actor → ProjectTables → Result ProjectError ProjectTables
remove_target project_id id actor db = do
  before ← or_throw (find_target project_id id db) not_found
  ok (
      record_trail project_id actor "target.delete" id
        (record db { targets = filter (λ t. not (t.id == id)) db.targets }))
