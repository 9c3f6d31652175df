-- ===== src/Access/Pipeline.antt =====
-- The guards in their order: AuthGuard, ProjectScopeGuard, RolesGuard.
use kase_ai.Prelude.{ℕ, Option, none, some, Result, ok, err, if◌then◌else◌}
use kase_ai.Access.{Principal, Problem, AccessTables, Route, HttpRequest, Externals}
use kase_ai.Access.Guards.{auth_guard, scope_guard, roles_guard}

-- A guard that throws ends the request.
abbrev pub and_then {ℓ κ} :
    {A : Type ℓ} {B : Type κ}
    → Result Problem A × AccessTables
    → (A → AccessTables → Result Problem B × AccessTables)
    → Result Problem B × AccessTables
and_then (err e, db) next = (err e, db)
and_then (ok a, db) next = next a db

abbrev pub with_principal :
    Principal → Result Problem (Unit {0}) → Result Problem (Option Principal)
with_principal p (err e) = err e
with_principal p (ok _) = ok (some p)

-- What the handler of a route is called with: no principal on a public route.
unfoldable pub admit :
    Externals
    → Route
    → HttpRequest
    → ℕ
    → AccessTables
    → Result Problem (Option Principal) × AccessTables
unfolding auth_guard scope_guard roles_guard
admit ext route req now db =
    if route.is_public
    then (ok none, db)
    else and_then (auth_guard ext req now db) λ p db₁.
      and_then (scope_guard ext.is_id route.scope p req db₁)
        λ q db₂. (with_principal q (roles_guard route.required q), db₂)
