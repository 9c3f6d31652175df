-- ===== src/Scope/ReconScope.antt =====
-- apps/api/src/recon/recon-scope.service.ts: which URLs the recon of an audit may touch. `new URL`,
-- its `toString` and `toLowerCase` are parameters. A path of a URL has no line end, so that `.*` of
-- the patterns stands for any text.
pub mod Decisions
use Prim.Native.Char.{code}
use Prim.Native.String.{◌++◌ as append}
use text.Mathlib.Text.{starts_with}
use kase_ai.Prelude.{
  ℕ, String, Bool, true, false, not, ◌&&◌, ◌||◌, Option, none, some, List, [], ◌∷◌, ◌==◌, string_eq,
  nat_eq, if◌then◌else◌, any, contains, is_empty_text,
}
use kase_ai.Scope.HostPattern.{is_host_allowed}

pub data ScopeDenialReason : Type 0 where
  invalid_url credentials_forbidden scheme_not_allowed host_not_allowed : ScopeDenialReason
  port_not_allowed path_denied : ScopeDenialReason

pub record ReconScopePolicy : Type 0 where
  pub allowed_hosts : List String
  pub denied_paths : List String
  pub target_base_url : String

pub record ScopeDecision : Type 0 where
  pub allowed : Bool
  pub url : Option String
  pub reason : Option ScopeDenialReason
  pub host : Option String
  pub path : Option String

-- `URL`
pub record Url : Type 0 where
  pub protocol : String
  pub username : String
  pub password : String
  pub hostname : String
  pub port : String
  pub pathname : String
  pub hash : String

abbrev pub effective_port : Url → String
effective_port url =
    if is_empty_text url.port then (if url.protocol == "https:" then "443" else "80") else url.port

-- `(?:$|/)`
abbrev pub ends_segment : String → Bool
ends_segment String.[] = true
ends_segment (String.◌∷◌ c s) = code c == 47

-- `.*`, and what follows it.
abbrev pub any_suffix : (String → Bool) → String → Bool
any_suffix follows String.[] = follows ""
any_suffix follows (String.◌∷◌ c s) = follows (String.◌∷◌ c s) || any_suffix follows s

-- The expression of `globToRegex` from the start of a path, to the end of a segment.
abbrev pub matches_glob : String → String → Bool
matches_glob String.[] path = ends_segment path
matches_glob (String.◌∷◌ g glob) String.[] = code g == 42 && matches_glob glob ""
matches_glob (String.◌∷◌ g glob) (String.◌∷◌ c path) =
    let one = matches_glob glob path in
    if code g == 42
    then any_suffix (matches_glob glob) (String.◌∷◌ c path)
    else code g == code c && one

unfoldable pub matches_denied_path : String → String → Bool
matches_denied_path path pattern =
    matches_glob (if starts_with pattern "/" then pattern else append "/" pattern) path

abbrev pub invalid_decision : ScopeDecision
invalid_decision = record {
  allowed = false;
  url = none;
  reason = some invalid_url;
  host = none;
  path = none;
}

module _ (to_lower : String → String) where
  abbrev pub denied : Url → ScopeDenialReason → ScopeDecision
  denied url reason = record {
    allowed = false;
    url = none;
    reason = some reason;
    host = some (to_lower url.hostname);
    path = some url.pathname;
  }

module _ (to_lower : String → String) (print_url : Url → String) where
  -- `check`, of URLs that parse.
  unfoldable pub check_urls : Url → Url → ReconScopePolicy → ScopeDecision
  unfolding is_host_allowed matches_denied_path
  check_urls url target policy =
      let host = to_lower url.hostname in
      if not (is_empty_text url.username) || not (is_empty_text url.password)
      then denied to_lower url credentials_forbidden
      else if not (contains ("http:" ∷ "https:" ∷ []) url.protocol)
      then denied to_lower url scheme_not_allowed
      else if not (is_host_allowed to_lower host policy.allowed_hosts)
      then denied to_lower url host_not_allowed
      else if not (effective_port url == effective_port target)
      then denied to_lower url port_not_allowed
      else if any (matches_denied_path url.pathname) policy.denied_paths
      then denied to_lower url path_denied
      else record {
        allowed = true;
        url = some (print_url (record url { username = ""; password = ""; hash = "" }));
        reason = none;
        host = some host;
        path = some url.pathname;
      }

  unfoldable pub check : (String → Option Url) → String → ReconScopePolicy → ScopeDecision
  unfolding check_urls
  check parse_url raw policy = elim (parse_url raw) [
    | none ↦ invalid_decision
    | some url ↦ elim (parse_url policy.target_base_url) [
      | none ↦ invalid_decision
      | some target ↦ check_urls url target policy
    ]
  ]

-- `canonicalDeniedUrl`; `url.host` is the name and the port that is not the scheme's own.
unfoldable pub canonical_denied_url : (String → Option Url) → String → Option String
canonical_denied_url parse_url raw = elim (parse_url raw) [
  | none ↦ none
  | some url ↦ some (
      append url.protocol (
        append "//" (
          append url.hostname
            (append (if is_empty_text url.port then "" else append ":" url.port) url.pathname))))
]
