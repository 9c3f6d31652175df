-- ===== src/Orchestrator/Dispatch/Requests.antt =====
-- Which requests for an audit pass the first checks of `dispatch`.
use kase_ai.Prelude.{◌≡◌, ◌↔◌, true, false, not, ok, any, contains, string_eq, arith}
use kase_ai.Orchestrator.Dispatch.{
  CreateAudit, is_given, is_smoke, requested_categories, allowed_categories, needs_target,
  check_request,
}

pub record IsAccepted (dto : CreateAudit) : Type 0 where
  pub known :
      any (λ c. not (contains (allowed_categories dto.mode) c)) (requested_categories dto) ≡ false
  pub smoke_target : is_smoke dto.mode ≡ true → is_given dto.target_id ≡ true
  pub repository : is_smoke dto.mode ≡ false → is_given dto.repository_id ≡ true
  pub http_target : needs_target (requested_categories dto) ≡ true → is_given dto.target_id ≡ true

check_request_sound :
    (dto : CreateAudit) → check_request dto ≡ ok (requested_categories dto) → IsAccepted dto
unfolding check_request
check_request_sound dto h = record {
  known = ground (arith, h);
  smoke_target = λ s. ground (arith, h, s);
  repository = λ s. ground (arith, h, s);
  http_target = λ s. ground (arith, h, s);
}

check_request_complete :
    (dto : CreateAudit) → IsAccepted dto → check_request dto ≡ ok (requested_categories dto)
unfolding check_request
check_request_complete dto a =
    let k = a.known in
    let s = a.smoke_target in
    let r = a.repository in let t = a.http_target in ground (arith, k, s, r, t)

-- A request passes just when its categories are known to its mode, a smoke audit has a target, any
-- other has a repository, and one that sends requests has a target.
pub check_request_iff :
    (dto : CreateAudit) → (check_request dto ≡ ok (requested_categories dto)) ↔ IsAccepted dto
check_request_iff dto = (check_request_sound dto, check_request_complete dto)
