-- ===== src/Projects/Roots.antt =====
-- The operations of `ProjectsService` that leave the projects and the policies as they are.
use mathlib.Core.Path.{subst}
use kase_ai.Prelude.{
  ℕ, suc, String, ◌≡◌, refl, sym, ◌∙◌, Option, none, some, List, [], ◌∷◌, arith, string_eq, ok,
  >>=-eq-ok, All,
}
use kase_ai.Projects.{Actor, ProjectTables, credential_key}
use kase_ai.Projects.Operations.{RepositoryInput, TargetInput, add_repository, add_targets, enroll}
use kase_ai.Projects.Sections.{
  UpdateRepository, UpdateTarget, create_repository, update_repository, remove_repository,
  create_target, update_target, remove_target,
}
use kase_ai.Projects.History.{IsCovered, IsBounded, IsAttested}

-- An operation on other tables than those of projects and policies.
pub record SameRoots (db db' : ProjectTables) : Type 0 where
  pub projects : db'.projects ≡ db.projects
  pub policies : db'.scope_policies ≡ db.scope_policies

pub SameRoots-IsAttested :
    (db db' : ProjectTables) → SameRoots db db' → IsAttested db → IsAttested db'
SameRoots-IsAttested db db' s a = record {
  covered = rw s.policies (subst (All (IsCovered db.scope_policies)) (sym s.projects) a.covered);
  bounded = subst (All IsBounded) (sym s.policies) a.bounded;
}

module _ (actor : Actor) (db db' : ProjectTables) where
  pub create_repository-roots :
      (id project_id : String) (dto : RepositoryInput)
      → create_repository id project_id dto actor db ≡ ok db'
      → SameRoots db db'
  unfolding create_repository
  create_repository-roots id project_id dto e = ground (arith, e)

  pub update_repository-roots :
      (project_id id : String) (dto : UpdateRepository)
      → update_repository project_id id dto actor db ≡ ok db'
      → SameRoots db db'
  unfolding update_repository
  update_repository-roots project_id id dto e = ground (arith, e)

  pub remove_repository-roots :
      (project_id id : String)
      → remove_repository project_id id actor db ≡ ok db'
      → SameRoots db db'
  unfolding remove_repository
  remove_repository-roots project_id id e = ground (arith, e)

  pub create_target-roots :
      (id project_id : String) (dto : TargetInput)
      → create_target id project_id dto actor db ≡ ok db'
      → SameRoots db db'
  unfolding create_target
  create_target-roots id project_id dto e = ground (arith, e)

  pub update_target-roots :
      (project_id id : String) (dto : UpdateTarget) (now : ℕ)
      → update_target project_id id dto actor now db ≡ ok db'
      → SameRoots db db'
  unfolding update_target
  update_target-roots project_id id dto now e = ground (arith, e)

  pub remove_target-roots :
      (project_id id : String) → remove_target project_id id actor db ≡ ok db' → SameRoots db db'
  unfolding remove_target
  remove_target-roots project_id id e = ground (arith, e)

pub SameRoots-trans : (a b c : ProjectTables) → SameRoots a b → SameRoots b c → SameRoots a c
SameRoots-trans a b c s t = record {
  projects = t.projects ∙ s.projects;
  policies = t.policies ∙ s.policies;
}

pub add_repository-roots :
    (id project_id : String) (dto : Option RepositoryInput) (db db' : ProjectTables)
    → add_repository id project_id dto db ≡ ok db'
    → SameRoots db db'
unfolding credential_key
add_repository-roots id project_id none db db' e = ground (arith, e)
add_repository-roots id project_id (some dto) db db' e = ground (arith, e)

pub add_targets-roots :
    (new_id : ℕ → String) (n : ℕ) (project_id : String) (ts : List TargetInput)
    (db db' : ProjectTables)
    → add_targets new_id n project_id ts db ≡ ok db'
    → SameRoots db db'
add_targets-roots new_id n project_id [] db db' e = ground (arith, e)
add_targets-roots new_id n project_id (t ∷ ts) db db' e =
    let (_, _, e') = >>=-eq-ok (credential_key project_id t.auth_credential_id db) _ e in
    let s = add_targets-roots new_id (suc n) project_id ts _ db' e' in
    record { projects = s.projects; policies = s.policies }

pub enroll-roots :
    (user : Option String) (project_id : String) (db : ProjectTables)
    → SameRoots db (enroll user project_id db)
enroll-roots none project_id db = record { projects = refl; policies = refl }
enroll-roots (some u) project_id db = record { projects = refl; policies = refl }
