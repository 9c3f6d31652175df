-- ===== src/Access.antt =====
-- apps/api/src/auth: who the caller is, and which roles there are.
pub mod Guards
pub mod Tokens
pub mod Pipeline
pub mod Soundness
pub mod Revocation
mod Examples
use text.Mathlib.Text.{starts_with}
use kase_ai.Prelude.{
  ℕ, String, Bool, true, false, not, ◌&&◌, ◌||◌, Option, none, some, List, [], ◌∷◌, ◌==◌, string_eq,
  Result, ok, err, find, is_some, is_none, ltb, if◌then◌else◌, drop_chars, is_empty_text, trim,
}

pub data Role : Type 0 where
  viewer operator approver admin : Role

abbrev pub is_same_role : Role → Role → Bool
is_same_role viewer viewer = true
is_same_role operator operator = true
is_same_role approver approver = true
is_same_role admin admin = true
is_same_role _ _ = false

-- `isRole`, with the role that the text names.
unfoldable pub to_role : String → Option Role
to_role value =
    if value == "viewer"
    then some viewer
    else if value == "operator"
    then some operator
    else if value == "approver"
    then some approver
    else if value == "admin"
    then some admin
    else none

-- The rate class of a caller is its kind.
pub data Principal : Type 0 where
  session : String → String → Option Role → Principal
  token : String → String → Role → Principal

abbrev pub role_of : Principal → Option Role
role_of (session user_id organization_id role) = role
role_of (token token_id project_id role) = some role

pub data Problem : Type 0 where
  unauthenticated project_scope_denied not_found forbidden : Problem

-- What the guards write to the audit trail.
pub data TrailEntry : Type 0 where
  auth_denied : Option String → TrailEntry
  scope_denied : Option String → TrailEntry
  authorization_denied : Option String → TrailEntry
  token_created token_revoked : String → TrailEntry

pub record ApiToken : Type 0 where
  pub id : String
  pub project_id : String
  pub token_hash : String
  pub role : String
  pub expires_at : Option ℕ
  pub revoked_at : Option ℕ

pub record ProjectMember : Type 0 where
  pub user_id : String
  pub project_id : String
  pub role : String

pub record OrganizationMember : Type 0 where
  pub user_id : String
  pub organization_id : String
  pub role : String

pub record AccessTables : Type 0 where
  pub tokens : List ApiToken
  pub members : List ProjectMember
  pub organization_members : List OrganizationMember
  pub audit_projects : List (String × String)
  pub trail : List TrailEntry

-- The route's decorators. A decorator of the method stands for one of the class.
pub data ScopeMeta : Type 0 where
  project_scope audit_scope : String → ScopeMeta
  org_scope : ScopeMeta

pub record Route : Type 0 where
  pub is_public : Bool
  pub scope : Option ScopeMeta
  pub required : List Role

pub record HttpRequest : Type 0 where
  pub authorization : Option String
  pub params : List (String × String)

abbrev pub param_of : String → HttpRequest → Option String
param_of name r = elim (find (λ (p : String × String). p.0 == name) r.params) [
  | none ↦ none
  | some p ↦ some p.1
]

-- `looksLikeApiToken`
abbrev pub looks_like_api_token : String → Bool
looks_like_api_token value = starts_with value "kase_"

-- `extractBearer`
unfoldable pub extract_bearer : HttpRequest → Option String
extract_bearer r = elim r.authorization [
  | none ↦ none
  | some header ↦
      let value = trim (drop_chars 7 header) in
      if not (starts_with header "Bearer ") || is_empty_text value then none else some value
]

-- The claims `sub` and `org` of a session token, of which either may not be a text.
pub record Claims : Type 0 where
  pub sub : Option String
  pub org : Option String

pub data IdKind : Type 0 where
  user organization project audit : IdKind

-- What the guards take from other packages: the hash of a token, the verification of a session token
-- against the public key, and the test of an id's form.
pub record Externals : Type 0 where
  pub hash_api_token : String → String
  pub verify_jwt : String → Option Claims
  pub is_id : IdKind → String → Bool
