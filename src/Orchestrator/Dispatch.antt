-- ===== src/Orchestrator/Dispatch.antt =====
-- apps/api/src/orchestrator/orchestrator.service.ts: what `OrchestratorService.dispatch` asks of a
-- request before it reads the project's rows.
pub mod Requests
mod Examples
use kase_ai.Prelude.{
  String, Bool, true, false, not, ◌&&◌, ◌||◌, Option, none, some, List, [], ◌∷◌, ◌==◌, string_eq,
  get_or, Result, ok, err, any, contains, is_empty_text, if◌then◌else◌,
}
use kase_ai.Orchestrator.JobGraph.Template.{Mode, smoke, security, full}
use kase_ai.Orchestrator.Settlement.{unique_from}

-- `CreateAuditDto`
pub record CreateAudit : Type 0 where
  pub mode : Mode
  pub category : Option String
  pub categories : Option (List String)
  pub target_id : Option String
  pub repository_id : Option String

-- A text that is present and not empty.
abbrev pub is_given : Option String → Bool
is_given none = false
is_given (some s) = not (is_empty_text s)

pub data RequestError : Type 0 where
  unsupported_categories nothing_to_audit target_required repository_required : RequestError
  http_target_required : RequestError

abbrev pub is_smoke : Mode → Bool
is_smoke smoke = true
is_smoke _ = false

abbrev pub first_of : List String → Option String
first_of [] = none
first_of (c ∷ cs) = some c

abbrev pub smoke_category : Option String → Option (List String) → String
smoke_category (some c) categories = c
smoke_category none categories = get_or (first_of (get_or categories [])) "fixture_health"

abbrev pub default_categories : Mode → List String
default_categories full = "sast" ∷ "http" ∷ []
default_categories _ = "sast" ∷ []

abbrev pub categories_or : List String → List String → List String
categories_or [] d = d
categories_or (c ∷ cs) d = c ∷ cs

unfoldable pub requested_categories : CreateAudit → List String
requested_categories dto =
    if is_smoke dto.mode
    then smoke_category dto.category dto.categories ∷ []
    else unique_from [] (categories_or (get_or dto.categories []) (default_categories dto.mode))

abbrev pub allowed_categories : Mode → List String
allowed_categories smoke = "fixture_health" ∷ []
allowed_categories security = "sast" ∷ []
allowed_categories full = "sast" ∷ "http" ∷ "blackbox" ∷ "whitebox" ∷ []

abbrev pub needs_target : List String → Bool
needs_target cs = contains cs "http" || contains cs "blackbox"

-- The categories of the audit, or the first refusal.
unfoldable pub check_request : CreateAudit → Result RequestError (List String)
check_request dto =
    let requested = requested_categories dto in
    if any (λ c. not (contains (allowed_categories dto.mode) c)) requested
    then err unsupported_categories
    else if not (is_given dto.target_id) && not (is_given dto.repository_id)
    then err nothing_to_audit
    else if is_smoke dto.mode && not (is_given dto.target_id)
    then err target_required
    else if not (is_smoke dto.mode) && not (is_given dto.repository_id)
    then err repository_required
    else if needs_target requested && not (is_given dto.target_id)
    then err http_target_required
    else ok requested
