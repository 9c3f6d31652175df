-- ===== src/Access/Soundness.antt =====
-- Who is admitted to the routes of a project.
use kase_ai.Prelude.{
  ℕ, String, ◌≡◌, ◌≢◌, refl, sym, ap, ◌∙◌, inl, inr, ◌⊎◌, Bool, true, false, ◌&&◌, ◌||◌, Option,
  none, some, List, ◌==◌, string_eq, Result, ok, err, find, Bool-cases, Option-cases,
}
use kase_ai.Access.{
  Role, to_role, Principal, session, token, role_of, Problem, ApiToken, AccessTables, ScopeMeta,
  project_scope, audit_scope, org_scope, Route, HttpRequest, looks_like_api_token, extract_bearer,
  Claims, IdKind, user, organization, Externals,
}
use kase_ai.Access.Guards.{
  is_usable, authenticate_token, principal_from_claims, authenticate_session, auth_guard,
  membership, authorize_project, project_of_scope, scope_guard, has_role, requires_none,
  roles_guard,
}
use kase_ai.Access.Pipeline.{and_then, with_principal, admit}

-- The caller presented an API token that is known, neither revoked nor expired.
pub record TokenCaller (ext : Externals) (req : HttpRequest) (now : ℕ) (db : AccessTables)
    (p : Principal) : Type 0 where
  pub credential : String
  pub row : ApiToken
  pub role : Role
  pub bearer : extract_bearer req ≡ some credential
  pub found : find (λ r. r.token_hash == ext.hash_api_token credential) db.tokens ≡ some row
  pub usable : is_usable now row ≡ true
  pub principal : p ≡ token row.id row.project_id role

-- The caller presented a session token that was verified, with well-formed claims.
pub record SessionCaller (ext : Externals) (req : HttpRequest) (p : Principal) : Type 0 where
  pub credential : String
  pub claims : Claims
  pub user_id : String
  pub organization_id : String
  pub bearer : extract_bearer req ≡ some credential
  pub verified : ext.verify_jwt credential ≡ some claims
  pub sub : claims.sub ≡ some user_id
  pub principal : p ≡ session user_id organization_id none

pair_fst {ℓ κ} :
    {A : Type ℓ} {B : Type κ} {a c : A} {b d : B} → ◌≡◌ {A = A × B} (a, b) (c, d) → a ≡ c
pair_fst h = ap (λ x. x.0) h

authenticate_token-eq-ok :
    (ext : Externals) (req : HttpRequest) (credential : String) (now : ℕ) (db db' : AccessTables)
    (p : Principal)
    → extract_bearer req ≡ some credential
    → authenticate_token ext credential now db ≡ (ok p, db')
    → (db' ≡ db) × TokenCaller ext req now db p
unfolding authenticate_token
authenticate_token-eq-ok ext req credential now db db' p bearer e =
    elim (Option-cases (find (λ r. r.token_hash == ext.hash_api_token credential) db.tokens)) [
      | inl missing ↦ let bad = rw (missing, authenticate_token) at e in cc
      | inr (row, found) ↦ elim (Bool-cases (is_usable now row)) [
        | inr unusable ↦ let bad = rw (found, unusable, authenticate_token) at e in cc
        | inl usable ↦ elim (Option-cases (to_role row.role)) [
          | inl unknown ↦ let bad = rw (found, usable, unknown, authenticate_token) at e in cc
          | inr (role, known) ↦
              let same : ◌≡◌ {A = Result Problem Principal × AccessTables}
                  (ok (token row.id row.project_id role), db) (ok p, db') =
                rw (found, usable, known, authenticate_token) at e in
              (
                cc,
                record {
                  credential = credential;
                  row = row;
                  role = role;
                  bearer = bearer;
                  found = found;
                  usable = usable;
                  principal = cc;
                },
              )
        ]
      ]
    ]

principal_from_claims-eq-some :
    (ext : Externals) (c : Claims) (p : Principal)
    → principal_from_claims ext c ≡ some p
    → (user_id : String) × (organization_id : String) × (c.sub ≡ some user_id)
      × (p ≡ session user_id organization_id none)
unfolding principal_from_claims
principal_from_claims-eq-some ext c p e = elim (Option-cases c.sub) [
  | inl missing ↦ let bad = rw (missing, principal_from_claims) at e in cc
  | inr (user_id, sub) ↦ elim (Option-cases c.org) [
    | inl missing ↦ let bad = rw (sub, missing, principal_from_claims) at e in cc
    | inr (organization_id, org) ↦
        elim (Bool-cases (ext.is_id user user_id && ext.is_id organization organization_id)) [
          | inr malformed ↦ let bad = rw (sub, org, malformed, principal_from_claims) at e in cc
          | inl formed ↦
              let same : ◌≡◌ {A = Option Principal} (some (session user_id organization_id none))
                  (some p) =
                rw (sub, org, formed, principal_from_claims) at e in
              (user_id, organization_id, sub, cc)
        ]
  ]
]

authenticate_session-eq-ok :
    (ext : Externals) (req : HttpRequest) (credential : String) (db db' : AccessTables)
    (p : Principal)
    → extract_bearer req ≡ some credential
    → authenticate_session ext credential db ≡ (ok p, db')
    → (db' ≡ db) × SessionCaller ext req p
unfolding authenticate_session
authenticate_session-eq-ok ext req credential db db' p bearer e =
    elim (Option-cases (ext.verify_jwt credential)) [
      | inl invalid ↦ let bad = rw (invalid, authenticate_session) at e in cc
      | inr (claims, verified) ↦ elim (Option-cases (principal_from_claims ext claims)) [
        | inl malformed ↦ let bad = rw (verified, malformed, authenticate_session) at e in cc
        | inr (q, formed) ↦
            let same : ◌≡◌ {A = Result Problem Principal × AccessTables} (ok q, db) (ok p, db') =
              rw (verified, formed, authenticate_session) at e in
            let is_p : q ≡ p = cc in
            let (user_id, organization_id, sub, principal) =
              principal_from_claims-eq-some ext claims q formed in
            (
              cc,
              record {
                credential = credential;
                claims = claims;
                user_id = user_id;
                organization_id = organization_id;
                bearer = bearer;
                verified = verified;
                sub = sub;
                principal = sym is_p ∙ principal;
              },
            )
      ]
    ]

auth_guard-eq-ok :
    (ext : Externals) (req : HttpRequest) (now : ℕ) (db db' : AccessTables) (p : Principal)
    → auth_guard ext req now db ≡ (ok p, db')
    → (db' ≡ db) × (TokenCaller ext req now db p ⊎ SessionCaller ext req p)
unfolding auth_guard
auth_guard-eq-ok ext req now db db' p e = elim (Option-cases (extract_bearer req)) [
  | inl missing ↦ let bad = rw (missing, auth_guard) at e in cc
  | inr (credential, bearer) ↦ elim (Bool-cases (looks_like_api_token credential)) [
    | inl is_token ↦
        let (same, caller) =
          authenticate_token-eq-ok ext req credential now db db' p bearer
            (rw (bearer, is_token, auth_guard) at e) in
        (same, inl caller)
    | inr is_jwt ↦
        let (same, caller) =
          authenticate_session-eq-ok ext req credential db db' p bearer
            (rw (bearer, is_jwt, auth_guard) at e) in
        (same, inr caller)
  ]
]

-- The principal belongs to the project: a token of the project, or a session of a member, whose role
-- it then carries.
abbrev pub BelongsTo : String → AccessTables → Principal → Principal → Type 0
BelongsTo project_id db p q =
    ((token_id : String) × (role : Role) × (p ≡ token token_id project_id role) × (q ≡ p))
    ⊎ ((user_id : String) × (organization_id : String) × (old : Option Role) × (role : Role) × (p
          ≡ session user_id organization_id old)
        × (membership user_id project_id db.members ≡ some role)
        × (q ≡ session user_id organization_id (some role)))

authorize_project-eq-ok :
    (project_id : String) (p q : Principal) (db db' : AccessTables)
    → authorize_project project_id p db ≡ (ok q, db')
    → BelongsTo project_id db p q
unfolding authorize_project
authorize_project-eq-ok project_id (token token_id own role) q db db' e =
    elim (Bool-cases (own == project_id)) [
      | inr foreign ↦ let bad = rw (foreign, authorize_project) at e in cc
      | inl same ↦
          let result : ◌≡◌ {A = Result Problem Principal × AccessTables}
              (ok (token token_id own role), db) (ok q, db') =
            rw (same, authorize_project) at e in
          let is_it = (string_eq.eqb_iff own project_id).0 same in
          inl (token_id, role, ap (λ o. token token_id o role) is_it, cc)
    ]
authorize_project-eq-ok project_id (session user_id organization_id old) q db db' e =
    elim (Option-cases (membership user_id project_id db.members)) [
      | inl stranger ↦ let bad = rw (stranger, authorize_project) at e in cc
      | inr (role, member) ↦
          let result : ◌≡◌ {A = Result Problem Principal × AccessTables}
              (ok (session user_id organization_id (some role)), db) (ok q, db') =
            rw (member, authorize_project) at e in
          inr (user_id, organization_id, old, role, refl, member, cc)
    ]

scope_guard-eq-ok :
    (is_id : IdKind → String → Bool) (scope : ScopeMeta) (project_id : String) (p q : Principal)
    (req : HttpRequest) (db db' : AccessTables)
    → project_of_scope is_id scope req db ≡ some project_id
    → scope_guard is_id (some scope) p req db ≡ (ok q, db')
    → BelongsTo project_id db p q
unfolding scope_guard project_of_scope
scope_guard-eq-ok is_id org_scope project_id p q req db db' h e = cc
scope_guard-eq-ok is_id (project_scope name) project_id p q req db db' h e =
    authorize_project-eq-ok project_id p q db db' (rw (h, scope_guard) at e)
scope_guard-eq-ok is_id (audit_scope name) project_id p q req db db' h e =
    authorize_project-eq-ok project_id p q db db' (rw (h, scope_guard) at e)

and_then-eq-ok {ℓ κ} :
    {A : Type ℓ} {B : Type κ} (x : Result Problem A × AccessTables)
    (next : A → AccessTables → Result Problem B × AccessTables) {b : B}
    → (and_then x next).0 ≡ ok b
    → (a : A) × (db : AccessTables) × (x ≡ (ok a, db)) × ((next a db).0 ≡ ok b)
and_then-eq-ok (err e, db) next h = cc
and_then-eq-ok (ok a, db) next h = (a, db, refl, h)

roles_guard-eq-ok :
    (required : List Role) (p : Principal) (q : Principal)
    → with_principal p (roles_guard required p) ≡ ok (some q)
    → (p ≡ q) × ((requires_none required || has_role required (role_of p)) ≡ true)
unfolding roles_guard
roles_guard-eq-ok required p q h =
    elim (Bool-cases (requires_none required || has_role required (role_of p))) [
      | inl may ↦
          let same : ◌≡◌ {A = Result Problem (Option Principal)} (ok (some p)) (ok (some q)) =
            rw (may, roles_guard) at h in
          (cc, may)
      | inr may_not ↦ let bad = rw (may_not, roles_guard) at h in cc
    ]

-- A request that the guards admit to a route of a project, named by the path or by an audit of it,
-- carries an API token of that very project which is known, not revoked and not expired, or a session
-- token that was verified of a user who is a member of that very project; and the caller's role is one
-- that the route requires, if it requires any.
pub admitted_belongs :
    (ext : Externals) (route : Route) (scope : ScopeMeta) (project_id : String) (req : HttpRequest)
    (now : ℕ) (db : AccessTables) (q : Principal)
    → route.is_public ≡ false
    → route.scope ≡ some scope
    → project_of_scope ext.is_id scope req db ≡ some project_id
    → (admit ext route req now db).0 ≡ ok (some q)
    → (p : Principal) × (TokenCaller ext req now db p ⊎ SessionCaller ext req p)
      × BelongsTo project_id db p q
      × ((requires_none route.required || has_role route.required (role_of q)) ≡ true)
unfolding admit
admitted_belongs ext route scope project_id req now db q guarded scoped named e =
    let (p, db₁, authenticated, e₁) =
      and_then-eq-ok (auth_guard ext req now db) _ (rw guarded at e) in
    let (q', db₂, allowed, e₂) =
      and_then-eq-ok (scope_guard ext.is_id route.scope p req db₁) _ e₁ in
    let (kept, caller) = auth_guard-eq-ok ext req now db db₁ p authenticated in
    let (same, may) = roles_guard-eq-ok route.required q' q e₂ in
    let belongs =
      scope_guard-eq-ok ext.is_id scope project_id p q' req db db₂ named
        (rw (scoped, kept) at allowed) in
    (p, caller, rw (← same) belongs, rw (← same) may)

-- A route that is not public and carries no scope admits nobody, whatever the credential.
pub unmarked_denied :
    (ext : Externals) (route : Route) (req : HttpRequest) (now : ℕ) (db : AccessTables)
    (q : Option Principal)
    → route.is_public ≡ false
    → route.scope ≡ none
    → (admit ext route req now db).0 ≢ ok q
unfolding admit scope_guard
unmarked_denied ext route req now db q guarded unmarked e =
    let (p, db₁, _, e₁) = and_then-eq-ok (auth_guard ext req now db) _ (rw guarded at e) in
    let (q', db₂, allowed, _) = and_then-eq-ok (scope_guard ext.is_id route.scope p req db₁) _ e₁ in
    let bad = rw unmarked at allowed in cc
