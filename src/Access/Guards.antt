-- ===== src/Access/Guards.antt =====
-- The guards of a route: apps/api/src/auth/auth.guard.ts, project-scope.guard.ts, roles.guard.ts and
-- organization-admin.guard.ts. A guard that throws may have written to the trail before.
use kase_ai.Prelude.{
  ℕ, String, Bool, true, false, not, ◌&&◌, ◌||◌, Option, none, some, List, [], ◌∷◌, ◌++◌, ◌==◌,
  string_eq, Result, ok, err, find, any, is_none, ltb, if◌then◌else◌,
}
use kase_ai.Access.{
  Role, is_same_role, to_role, Principal, session, token, role_of, Problem, unauthenticated,
  project_scope_denied, not_found, forbidden, TrailEntry, auth_denied, scope_denied,
  authorization_denied, ApiToken, ProjectMember, OrganizationMember, AccessTables, ScopeMeta,
  project_scope, audit_scope, org_scope, HttpRequest, param_of, looks_like_api_token,
  extract_bearer, Claims, IdKind, user, organization, project, audit, Externals,
}

abbrev pub record_trail : TrailEntry → AccessTables → AccessTables
record_trail e db = record db { trail = db.trail ++ e ∷ [] }

-- `record.expiresAt && record.expiresAt < new Date()`
abbrev pub is_past : Option ℕ → ℕ → Bool
is_past none now = false
is_past (some t) now = ltb t now

abbrev pub is_usable : ℕ → ApiToken → Bool
is_usable now r = is_none r.revoked_at && not (is_past r.expires_at now)

module _ (ext : Externals) where
  -- `authenticateToken`; the date of the last use is not kept.
  unfoldable pub authenticate_token :
      String → ℕ → AccessTables → Result Problem Principal × AccessTables
  unfolding to_role
  authenticate_token plaintext now db =
      elim (find (λ r. r.token_hash == ext.hash_api_token plaintext) db.tokens) [
        | none ↦ (err unauthenticated, record_trail (auth_denied none) db)
        | some r ↦
            if not (is_usable now r)
            then (err unauthenticated, record_trail (auth_denied (some r.id)) db)
            else elim (to_role r.role) [
              | none ↦ (err unauthenticated, db)
              | some role ↦ (ok (token r.id r.project_id role), db)
            ]
      ]

  -- `principalFromClaims`
  unfoldable pub principal_from_claims : Claims → Option Principal
  principal_from_claims c = elim c.sub [
    | none ↦ none
    | some user_id ↦ elim c.org [
      | none ↦ none
      | some organization_id ↦
          if ext.is_id user user_id && ext.is_id organization organization_id
          then some (session user_id organization_id none)
          else none
    ]
  ]

  -- `authenticateSession`
  unfoldable pub authenticate_session :
      String → AccessTables → Result Problem Principal × AccessTables
  unfolding principal_from_claims
  authenticate_session jwt db =
      let principal : Option Principal = elim (ext.verify_jwt jwt) [
        | none ↦ none
        | some c ↦ principal_from_claims c
      ] in
      elim principal [
        | none ↦ (err unauthenticated, record_trail (auth_denied none) db)
        | some p ↦ (ok p, db)
      ]

  -- `AuthGuard.canActivate` for a route that is not public.
  unfoldable pub auth_guard :
      HttpRequest → ℕ → AccessTables → Result Problem Principal × AccessTables
  unfolding extract_bearer authenticate_token authenticate_session
  auth_guard req now db = elim (extract_bearer req) [
    | none ↦ (err unauthenticated, db)
    | some credential ↦
        if looks_like_api_token credential
        then authenticate_token credential now db
        else authenticate_session credential db
  ]

-- The role of a user in a project, if it is one.
abbrev pub membership : String → String → List ProjectMember → Option Role
membership user_id project_id members =
    elim (find (λ m. m.user_id == user_id && m.project_id == project_id) members) [
      | none ↦ none
      | some m ↦ to_role m.role
    ]

-- `authorizeProject`: the principal, with the role that a membership gives to a session.
unfoldable pub authorize_project :
    String → Principal → AccessTables → Result Problem Principal × AccessTables
unfolding to_role
authorize_project project_id (token token_id own role) db =
    if own == project_id
    then (ok (token token_id own role), db)
    else (err project_scope_denied, record_trail (scope_denied (some project_id)) db)
authorize_project project_id (session user_id organization_id old) db =
    elim (membership user_id project_id db.members) [
      | none ↦ (err project_scope_denied, record_trail (scope_denied (some project_id)) db)
      | some r ↦ (ok (session user_id organization_id (some r)), db)
    ]

-- The project that `checkProjectScope` and `checkAuditScope` find for the route's parameter.
unfoldable pub project_of_scope :
    (IdKind → String → Bool) → ScopeMeta → HttpRequest → AccessTables → Option String
project_of_scope is_id org_scope req db = none
project_of_scope is_id (project_scope name) req db = elim (param_of name req) [
  | none ↦ none
  | some id ↦ if is_id project id then some id else none
]
project_of_scope is_id (audit_scope name) req db = elim (param_of name req) [
  | none ↦ none
  | some id ↦
      if is_id audit id
      then elim (find (λ (a : String × String). a.0 == id) db.audit_projects) [
        | none ↦ none
        | some a ↦ some a.1
      ]
      else none
]

-- `checkOrgScope`
unfoldable pub check_org_scope : Principal → AccessTables → Result Problem Principal × AccessTables
check_org_scope (session user_id organization_id role) db =
    (ok (session user_id organization_id role), db)
check_org_scope (token token_id project_id role) db =
    (err project_scope_denied, record_trail (scope_denied none) db)

-- `ProjectScopeGuard.canActivate` for a route that is not public, with a principal.
unfoldable pub scope_guard :
    (IdKind → String → Bool)
    → Option ScopeMeta
    → Principal
    → HttpRequest
    → AccessTables
    → Result Problem Principal × AccessTables
unfolding project_of_scope check_org_scope authorize_project
scope_guard is_id none p req db = (err project_scope_denied, db)
scope_guard is_id (some org_scope) p req db = check_org_scope p db
scope_guard is_id (some scope) p req db = elim (project_of_scope is_id scope req db) [
  | none ↦ (err not_found, db)
  | some project_id ↦ authorize_project project_id p db
]

abbrev pub has_role : List Role → Option Role → Bool
has_role required none = false
has_role required (some role) = any (is_same_role role) required

abbrev pub requires_none : List Role → Bool
requires_none [] = true
requires_none (r ∷ rs) = false

-- `RolesGuard.canActivate`; a route without the decorator requires no role.
unfoldable pub roles_guard : List Role → Principal → Result Problem (Unit {0})
roles_guard required p =
    if requires_none required || has_role required (role_of p) then ok tt else err forbidden

-- The role `admin` in the organization, of the row that has one.
abbrev pub is_organization_admin : String → String → List OrganizationMember → Bool
is_organization_admin user_id organization_id members =
    elim (find (λ m. m.user_id == user_id && m.organization_id == organization_id) members) [
      | none ↦ false
      | some m ↦ m.role == "admin"
    ]

-- `OrganizationAdminGuard.canActivate`
unfoldable pub organization_admin_guard :
    Principal → HttpRequest → AccessTables → Result Problem (Unit {0}) × AccessTables
organization_admin_guard (token token_id project_id role) req db =
    (err forbidden, record_trail (authorization_denied (param_of "id" req)) db)
organization_admin_guard (session user_id own role) req db = elim (param_of "id" req) [
  | none ↦ (err forbidden, record_trail (authorization_denied none) db)
  | some id ↦
      if own == id && is_organization_admin user_id id db.organization_members
      then (ok tt, db)
      else (err forbidden, record_trail (authorization_denied (some id)) db)
]
