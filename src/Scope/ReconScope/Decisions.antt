-- ===== src/Scope/ReconScope/Decisions.antt =====
-- What the check of a URL decides.
use kase_ai.Prelude.{
  String, ◌≡◌, ◌↔◌, refl, inl, inr, true, false, Option, some, [], ◌∷◌, arith, ◌==◌, string_eq, any,
  contains, is_empty_text, Option-cases,
}
use kase_ai.Scope.HostPattern.{is_host_allowed}
use kase_ai.Scope.ReconScope.{
  ReconScopePolicy, Url, effective_port, matches_denied_path, check_urls, check,
}

module _ (to_lower : String → String) where
  pub record IsInScope (url target : Url) (policy : ReconScopePolicy) : Type 0 where
    pub no_username : is_empty_text url.username ≡ true
    pub no_password : is_empty_text url.password ≡ true
    pub scheme : contains ("http:" ∷ "https:" ∷ []) url.protocol ≡ true
    pub host : is_host_allowed to_lower (to_lower url.hostname) policy.allowed_hosts ≡ true
    pub port : (effective_port url == effective_port target) ≡ true
    pub path : any (matches_denied_path url.pathname) policy.denied_paths ≡ false

  check_urls_sound :
      (print_url : Url → String) (url target : Url) (policy : ReconScopePolicy)
      → (check_urls to_lower print_url url target policy).allowed ≡ true
      → IsInScope url target policy
  unfolding check_urls
  check_urls_sound print_url url target policy h = record {
    no_username = ground (arith, h);
    no_password = ground (arith, h);
    scheme = ground (arith, h);
    host = ground (arith, h);
    port = ground (arith, h);
    path = ground (arith, h);
  }

  check_urls_complete :
      (print_url : Url → String) (url target : Url) (policy : ReconScopePolicy)
      → IsInScope url target policy
      → (check_urls to_lower print_url url target policy).allowed ≡ true
  unfolding check_urls
  check_urls_complete print_url url target policy s =
      rw (s.no_username, s.no_password, s.scheme, s.host, s.port, s.path) refl

  -- A URL is let through just when it and the target parse, it has no credentials, its scheme is http
  -- or https, a pattern covers its host, its port is the target's and no denied path matches its path.
  pub check_iff :
      (parse_url : String → Option Url) (print_url : Url → String) (raw : String)
      (policy : ReconScopePolicy)
      → ((check to_lower print_url parse_url raw policy).allowed ≡ true) ↔ (
          (url : Url) × (target : Url) × (parse_url raw ≡ some url)
          × (parse_url policy.target_base_url ≡ some target)
          × IsInScope url target policy)
  unfolding check
  check_iff parse_url print_url raw policy = (
    λ h. elim (Option-cases (parse_url raw)) [
      | inl bad ↦ ground (arith, rw (check, bad) at h)
      | inr (url, good) ↦ elim (Option-cases (parse_url policy.target_base_url)) [
        | inl bad ↦ ground (arith, rw (check, good, bad) at h)
        | inr (target, found) ↦ (
          url,
          target,
          good,
          found,
          check_urls_sound print_url url target policy (rw (check, good, found) at h),
        )
      ]
    ],
    λ (url, target, good, found, inside).
        rw (check, good, found) (check_urls_complete print_url url target policy inside),
  )
