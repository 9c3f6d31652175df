-- ===== src/Orchestrator/Dispatch/Examples.antt =====
-- Requests for an audit: a full one with a category named twice, and one without a target.
use kase_ai.Prelude.{◌≡◌, refl, none, some, [], ◌∷◌, ok, err}
use kase_ai.Orchestrator.JobGraph.Template.{full}
use kase_ai.Orchestrator.Settlement.{unique_from}
use kase_ai.Orchestrator.Dispatch.{
  CreateAudit, check_request, requested_categories, http_target_required,
}

abbrev request : CreateAudit
request = record {
  mode = full;
  category = none;
  categories = some ("sast" ∷ "http" ∷ "sast" ∷ []);
  target_id = some "tgt_1";
  repository_id = some "rep_1";
}

named_twice : check_request request ≡ ok ("sast" ∷ "http" ∷ [])
unfolding check_request requested_categories unique_from
named_twice = refl

no_target : check_request (record request { target_id = none }) ≡ err http_target_required
unfolding check_request requested_categories unique_from
no_target = refl

request_lem : check_request request ≡ ok (requested_categories request)
unfolding check_request requested_categories unique_from
request_lem = refl
