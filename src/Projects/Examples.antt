-- ===== src/Projects/Examples.antt =====
-- The projects' theorems at a project that is created, is given a new policy, and has a target in
-- production.
use mathlib.Core.List.{Memᴰ}
use kase_ai.Prelude.{
  ℕ, zero, suc, ◌+◌, ◌≤◌, String, ◌≡◌, refl, true, ◌||◌, none, some, [], ◌∷◌, Result, ok, err, Star,
  done, more, is_empty_text,
}
use kase_ai.Scope.HostPattern.{count_chars}
use kase_ai.Projects.{
  ActorType, Actor, ScopePolicy, Environment, AuthMode, Target, ProjectTables, ProjectError,
  foreign_key_violated, find_project, attestation_max_age_ms,
}
use kase_ai.Projects.Slug.{slugify, is_slug, slugify_shape}
use kase_ai.Projects.Operations.{
  ScopePolicyInput, TargetInput, CreateProject, create, replace_scope_policy, remove, new_project,
}
use kase_ai.Projects.Sections.{UpdateTarget, update_target}
use kase_ai.Projects.History.{IsAttested, ProjectStep, creates, replaces_policy}
use kase_ai.Projects.Attestation.{projects-IsAttested, project_removal_fails}
use kase_ai.Projects.Production.{production_change_attested}

abbrev same_text : String → String
same_text s = s

abbrev number_id : ℕ → String
number_id zero = "prj_1"
number_id (suc zero) = "gte_1"
number_id (suc (suc zero)) = "scp_1"
number_id (suc (suc (suc n))) = "tgt_1"

abbrev policy_input : ScopePolicyInput
policy_input = record {
  allowed_hosts = "shop.test" ∷ [];
  denied_paths = none;
  max_requests_per_second = 5;
  max_requests_per_audit = 500;
  destructive_allowed = some true;
  authorization_attested_by = "legal";
}

abbrev shop : TargetInput
shop = record {
  name = "shop";
  base_url = "https://shop.test";
  environment = Environment.production;
  auth_mode = none;
  auth_credential_id = none;
  build_info_url = none;
}

abbrev input : CreateProject
input = record {
  name = "my shop";
  slug = none;
  repository = none;
  targets = some (shop ∷ []);
  scope_policy = policy_input;
}

abbrev owner : Actor
owner = record { actor_type = ActorType.user; id = some "usr_1"; organization_id = some "org_1" }

abbrev empty_tables : ProjectTables
empty_tables = record {
  projects = [];
  gate_policies = [];
  scope_policies = [];
  repositories = [];
  targets = [];
  members = [];
  secrets = [];
  audit_projects = [];
  trail = [];
}

abbrev tables_of {ℓ} : {A : Type ℓ} → Result ProjectError (A × ProjectTables) → ProjectTables
tables_of (ok (_, db)) = db
tables_of (err _) = empty_tables

abbrev created : ProjectTables
created = tables_of (create same_text number_id input owner 7 empty_tables)

abbrev replaced : ProjectTables
replaced = tables_of (replace_scope_policy "scp_2" "prj_1" policy_input owner 9 created)

abbrev empty_is_attested : IsAttested empty_tables
empty_is_attested = record { covered = tt; bounded = tt }

created_run : create same_text number_id input owner 7 empty_tables ≡ ok ("prj_1", created)
unfolding create slugify
created_run = refl

abbrev new_policy : ScopePolicy
new_policy = record {
  id = "scp_2";
  project_id = "prj_1";
  allowed_hosts = "shop.test" ∷ [];
  denied_paths = [];
  max_requests_per_second = 5;
  max_requests_per_audit = 500;
  destructive_allowed = true;
  authorization_attested_by = "legal";
  authorization_attested_at = 9;
}

replaced_run :
    replace_scope_policy "scp_2" "prj_1" policy_input owner 9 created ≡ ok (new_policy, replaced)
unfolding create slugify replace_scope_policy
replaced_run = refl

abbrev history : Star ProjectStep empty_tables replaced
history =
    more (creates same_text number_id input owner 7 "prj_1" created_run)
      (more (replaces_policy "scp_2" "prj_1" policy_input owner 9 new_policy replaced_run) done)

slug_example :
    ((is_empty_text (slugify same_text "my shop") || is_slug (slugify same_text "my shop")) ≡ true)
    × (count_chars (slugify same_text "my shop") ≤ 120)
slug_example = slugify_shape same_text "my shop"

slug_run : slugify same_text "--My  shop" ≡ "y-shop"
unfolding slugify
slug_run = refl

attested_example : IsAttested replaced
attested_example = projects-IsAttested empty_tables replaced history empty_is_attested

found_run :
    find_project "prj_1" replaced ≡ some (new_project "prj_1" "org_1" "my shop" "my-shop" "gte_1")
unfolding create slugify replace_scope_policy
found_run = refl

removal_example : remove "prj_1" owner replaced ≡ err foreign_key_violated
removal_example =
    project_removal_fails "prj_1" owner (new_project "prj_1" "org_1" "my shop" "my-shop" "gte_1")
      empty_tables replaced empty_is_attested history found_run

abbrev renamed : UpdateTarget
renamed = record {
  name = some "store";
  base_url = none;
  environment = none;
  auth_mode = none;
  auth_credential_id = none;
  build_info_url = none;
}

abbrev shop_target : Target
shop_target = record {
  id = "tgt_1";
  project_id = "prj_1";
  name = "shop";
  base_url = "https://shop.test";
  environment = Environment.production;
  auth_mode = AuthMode.no_auth;
  auth_credential_id = none;
  build_info_url = none;
}

abbrev placed : ProjectTables
placed = record empty_tables { targets = shop_target ∷ []; scope_policies = new_policy ∷ [] }

abbrev tables_after : Result ProjectError ProjectTables → ProjectTables
tables_after (ok db) = db
tables_after (err _) = empty_tables

abbrev after_rename : ProjectTables
after_rename = tables_after (update_target "prj_1" "tgt_1" renamed owner 10 placed)

rename_run : update_target "prj_1" "tgt_1" renamed owner 10 placed ≡ ok after_rename
unfolding update_target
rename_run = refl

production_example :
    (policy : ScopePolicy) × Memᴰ policy placed.scope_policies
    × (policy.project_id ≡ "prj_1")
    × (10 ≤ policy.authorization_attested_at + attestation_max_age_ms)
production_example =
    production_change_attested "prj_1" "tgt_1" renamed owner 10 shop_target placed after_rename refl
      refl rename_run
