-- ===== src/Projects.antt =====
-- apps/api/src/projects/projects.service.ts: projects, with their policies, repositories and targets.
-- The tables of the service, and how its operations look rows up. The differences that the trail
-- records are left out.
pub mod Slug
pub mod Operations
pub mod Sections
pub mod History
pub mod Roots
pub mod Attestation
pub mod Production
mod Examples
use kase_ai.Prelude.{
  ℕ, ◌+◌, ◌-◌, ◌*◌, String, Bool, true, false, not, ◌&&◌, ◌||◌, Option, none, some, List, [], ◌∷◌,
  ◌++◌, ◌==◌, string_eq, Result, ok, err, ◌>>=◌, ◌>>◌, throw_if, or_throw, find, filter, any,
  is_none, is_some, is_empty_text, leb, ltb, if◌then◌else◌,
}
use kase_ai.Scope.HostPattern.{includes}

pub data ActorType : Type 0 where
  user token system : ActorType

pub record Actor : Type 0 where
  pub actor_type : ActorType
  pub id : Option String
  pub organization_id : Option String

abbrev pub is_user : ActorType → Bool
is_user user = true
is_user _ = false

pub record Project : Type 0 where
  pub id : String
  pub organization_id : String
  pub name : String
  pub slug : String
  pub default_gate_policy_id : String

pub record GatePolicy : Type 0 where
  pub id : String
  pub project_id : String
  pub version : ℕ

pub record ScopePolicy : Type 0 where
  pub id : String
  pub project_id : String
  pub allowed_hosts : List String
  pub denied_paths : List String
  pub max_requests_per_second : ℕ
  pub max_requests_per_audit : ℕ
  pub destructive_allowed : Bool
  pub authorization_attested_by : String
  pub authorization_attested_at : ℕ

pub record Repository : Type 0 where
  pub id : String
  pub project_id : String
  pub provider : String
  pub url : String
  pub default_branch : String
  pub credential_id : Option String

pub data Environment : Type 0 where
  production staging beta local : Environment

abbrev pub is_production : Environment → Bool
is_production production = true
is_production _ = false

pub data AuthMode : Type 0 where
  no_auth header cookie oauth form : AuthMode

pub record Target : Type 0 where
  pub id : String
  pub project_id : String
  pub name : String
  pub base_url : String
  pub environment : Environment
  pub auth_mode : AuthMode
  pub auth_credential_id : Option String
  pub build_info_url : Option String

pub record ProjectMember : Type 0 where
  pub user_id : String
  pub project_id : String
  pub role : String

pub record Secret : Type 0 where
  pub id : String
  pub project_id : String
  pub revoked_at : Option ℕ

-- A row of the audit trail: the project, the actor, the action and the row that it is about.
pub record TrailRow : Type 0 where
  pub project_id : String
  pub actor_id : Option String
  pub action : String
  pub resource_id : String

-- Of an audit only the project that it belongs to.
pub record ProjectTables : Type 0 where
  pub projects : List Project
  pub gate_policies : List GatePolicy
  pub scope_policies : List ScopePolicy
  pub repositories : List Repository
  pub targets : List Target
  pub members : List ProjectMember
  pub secrets : List Secret
  pub audit_projects : List String
  pub trail : List TrailRow

pub data ProjectError : Type 0 where
  forbidden not_found conflict validation_failed scope_violation : ProjectError
  attestation_required attestation_stale foreign_key_violated : ProjectError

abbrev pub record_trail : String → Actor → String → String → ProjectTables → ProjectTables
record_trail project_id actor action resource_id db = record db {
  trail =
      db.trail
      ++ record {
        project_id = project_id;
        actor_id = actor.id;
        action = action;
        resource_id = resource_id;
      }
        ∷ [];
}

abbrev pub attestation_max_age_ms : ℕ
attestation_max_age_ms = 365 * 24 * 60 * 60 * 1_000

-- `isAttestationStale`
abbrev pub is_attestation_stale : ℕ → ℕ → Bool
is_attestation_stale attested_at now = ltb attestation_max_age_ms (now - attested_at)

abbrev pub find_project : String → ProjectTables → Option Project
find_project id db = find (λ p. p.id == id) db.projects

abbrev pub find_slug : String → ProjectTables → Option Project
find_slug slug db = find (λ p. p.slug == slug) db.projects

-- `assertProjectExists`
abbrev pub assert_project_exists : String → ProjectTables → Result ProjectError Project
assert_project_exists id db = or_throw (find_project id db) not_found

abbrev pub newer_of : ScopePolicy → Option ScopePolicy → ScopePolicy
newer_of p none = p
newer_of p (some q) = if ltb p.authorization_attested_at q.authorization_attested_at then q else p

-- `findFirst({ orderBy: { authorizationAttestedAt: 'desc' } })`
abbrev pub newest : List ScopePolicy → Option ScopePolicy
newest [] = none
newest (p ∷ ps) = some (newer_of p (newest ps))

abbrev pub current_policy : String → ProjectTables → Option ScopePolicy
current_policy project_id db = newest (filter (λ p. p.project_id == project_id) db.scope_policies)

-- `getScopePolicy`
unfoldable pub get_scope_policy : String → ProjectTables → Result ProjectError ScopePolicy
get_scope_policy project_id db = or_throw (current_policy project_id db) not_found

-- A text that is present and not empty.
abbrev pub given : Option String → Option String
given none = none
given (some s) = if is_empty_text s then none else some s

abbrev pub is_secret_of : String → String → Secret → Bool
is_secret_of project_id id s = s.id == id && s.project_id == project_id

-- `assertCredentialUsable`, of a credential that is given.
unfoldable pub assert_credential_usable :
    String → Option String → ProjectTables → Result ProjectError (Unit {0})
assert_credential_usable project_id credential db = elim (given credential) [
  | none ↦ ok tt
  | some id ↦
      throw_if (not (any (λ s. is_secret_of project_id id s && is_none s.revoked_at) db.secrets))
        validation_failed
]

-- The foreign key of a credential and its project, which the database checks.
unfoldable pub credential_key :
    String → Option String → ProjectTables → Result ProjectError (Unit {0})
credential_key project_id none db = ok tt
credential_key project_id (some id) db =
    throw_if (not (any (is_secret_of project_id id) db.secrets)) foreign_key_violated

abbrev pub has_wildcard : String → Bool
has_wildcard host = includes host "*"

-- `assertDestructiveIsAttested`
unfoldable pub assert_destructive_is_attested : Bool → List String → Result ProjectError (Unit {0})
assert_destructive_is_attested destructive_allowed allowed_hosts =
    throw_if (destructive_allowed && any has_wildcard allowed_hosts) scope_violation
