-- ===== src/Scope/Examples.antt =====
-- The scope's theorems at concrete patterns and URLs.
use Prim.Native.String.{◌++◌ as append}
use kase_ai.Prelude.{String, ◌≡◌, refl, true, false, ◌⊎◌, trim, drop_chars, is_empty_text, ok, err}
use kase_ai.Scope.HostPattern.{
  validate_host_pattern, host_matches_pattern, split_labels, includes, check_pattern_labels,
  check_labels, check_wildcard, is_label, bare_tld, wildcard_on_public_suffix,
}
use kase_ai.Scope.HostPattern.Accepted.{IsExact, IsWildcard, accepted_pattern, wildcard_one_label}
use kase_ai.Prelude.{Option, none, some, [], ◌∷◌, ◌==◌, string_eq, if◌then◌else◌}
use kase_ai.Scope.HostPattern.{is_host_allowed}
use kase_ai.Scope.ReconScope.{Url, ReconScopePolicy, check, check_urls, matches_denied_path}
use kase_ai.Scope.ReconScope.Decisions.{IsInScope, check_iff}

abbrev same : String → String
same s = s

wildcard_accepted : validate_host_pattern same " *.acme.com" ≡ ok tt
unfolding validate_host_pattern check_pattern_labels check_labels check_wildcard is_label
wildcard_accepted = refl

tld_rejected : validate_host_pattern same "*.com" ≡ err bare_tld
unfolding validate_host_pattern check_pattern_labels check_labels check_wildcard is_label
tld_rejected = refl

suffix_rejected : validate_host_pattern same "*.co.uk" ≡ err wildcard_on_public_suffix
unfolding validate_host_pattern check_pattern_labels check_labels check_wildcard is_label
suffix_rejected = refl

accepted_example :
    IsExact (split_labels (trim " *.acme.com")) (trim " *.acme.com")
    ⊎ IsWildcard (split_labels (trim " *.acme.com"))
accepted_example = accepted_pattern same " *.acme.com" wildcard_accepted

covered : host_matches_pattern same "api.acme.com" "*.acme.com" ≡ true
unfolding host_matches_pattern
covered = refl

one_label_example :
    (label : String) × ("api.acme.com" ≡ append label (append "." (drop_chars 2 "*.acme.com")))
    × (is_empty_text label ≡ false)
    × (includes label "." ≡ false)
one_label_example = wildcard_one_label same "api.acme.com" "*.acme.com" refl covered

abbrev target_url : Url
target_url = record {
  protocol = "https:";
  username = "";
  password = "";
  hostname = "api.acme.com";
  port = "";
  pathname = "/users";
  hash = "";
}

abbrev parse_one : String → Option Url
parse_one raw = if raw == "https://api.acme.com/users" then some target_url else none

abbrev print_host : Url → String
print_host url = url.hostname

abbrev scope_policy : ReconScopePolicy
scope_policy = record {
  allowed_hosts = "*.acme.com" ∷ [];
  denied_paths = "/admin*" ∷ "logout" ∷ [];
  target_base_url = "https://api.acme.com/users";
}

let_through :
    (check same print_host parse_one "https://api.acme.com/users" scope_policy).allowed ≡ true
unfolding check check_urls is_host_allowed host_matches_pattern matches_denied_path
let_through = refl

glob_denied : matches_denied_path "/admin/users" "adm*n" ≡ true
unfolding matches_denied_path
glob_denied = refl

segment_kept : matches_denied_path "/logouts" "logout" ≡ false
unfolding matches_denied_path
segment_kept = refl

scope_example :
    (url : Url) × (target : Url) × (parse_one "https://api.acme.com/users" ≡ some url)
    × (parse_one scope_policy.target_base_url ≡ some target)
    × IsInScope same url target scope_policy
scope_example =
    (check_iff same parse_one print_host "https://api.acme.com/users" scope_policy).0 let_through
