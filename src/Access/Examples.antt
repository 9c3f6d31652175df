-- ===== src/Access/Examples.antt =====
-- The access theorems at a project with one token.
use kase_ai.Prelude.{
  ◌≡◌, refl, ◌⊎◌, true, false, ◌||◌, none, some, [], ◌∷◌, string_eq, Result, ok, err,
}
use kase_ai.Access.{
  operator, admin, Principal, token, unauthenticated, ApiToken, AccessTables, project_scope, Route,
  HttpRequest, Externals, extract_bearer, to_role,
}
use kase_ai.Access.Guards.{
  authenticate_token, auth_guard, scope_guard, project_of_scope, authorize_project, roles_guard,
  has_role, requires_none,
}
use kase_ai.Access.Pipeline.{admit}
use kase_ai.Access.Tokens.{revoke}
use kase_ai.Access.Soundness.{TokenCaller, SessionCaller, BelongsTo, admitted_belongs}
use kase_ai.Access.Revocation.{revoked_refused}

abbrev ext : Externals
ext = record {
  hash_api_token = λ plaintext. plaintext;
  verify_jwt = λ jwt. none;
  is_id = λ kind id. true;
}

abbrev ci_token : ApiToken
ci_token = record {
  id = "tok_1";
  project_id = "prj_1";
  token_hash = "kase_abc";
  role = "operator";
  expires_at = some 100;
  revoked_at = none;
}

abbrev db : AccessTables
db = record {
  tokens = ci_token ∷ [];
  members = [];
  organization_members = [];
  audit_projects = [];
  trail = [];
}

abbrev req : HttpRequest
req = record { authorization = some "Bearer kase_abc"; params = ("id", "prj_1") ∷ [] }

abbrev route : Route
route = record {
  is_public = false;
  scope = some (project_scope "id");
  required = operator ∷ admin ∷ [];
}

admitted : (admit ext route req 50 db).0 ≡ ok (some (token "tok_1" "prj_1" operator))
unfolding admit auth_guard extract_bearer authenticate_token to_role scope_guard project_of_scope
    authorize_project roles_guard
admitted = refl

named : project_of_scope ext.is_id (project_scope "id") req db ≡ some "prj_1"
unfolding project_of_scope
named = refl

admitted_example :
    (p : Principal) × (TokenCaller ext req 50 db p ⊎ SessionCaller ext req p)
    × BelongsTo "prj_1" db p (token "tok_1" "prj_1" operator)
    × ((requires_none route.required || has_role route.required (some operator)) ≡ true)
admitted_example =
    admitted_belongs ext route (project_scope "id") "prj_1" req 50 db
      (token "tok_1" "prj_1" operator) refl refl named admitted

abbrev unmarked : Route
unmarked = record { is_public = false; scope = none; required = [] }

abbrev ok_or {ℓ κ} : {E : Type ℓ} {A : Type κ} → A → Result E A → A
ok_or a (ok b) = b
ok_or a (err e) = a

abbrev revoked : AccessTables
revoked = ok_or db (revoke "prj_1" "tok_1" 60 db)

revoked_lem : revoke "prj_1" "tok_1" 60 db ≡ ok revoked
unfolding revoke
revoked_lem = refl

revoked_example : (authenticate_token ext "kase_abc" 70 revoked).0 ≡ err unauthenticated
revoked_example =
    revoked_refused ext "kase_abc" "prj_1" 60 70 db revoked ci_token (refl, tt) refl revoked_lem
