-- ===== src/Provenance/Examples.antt =====
-- The theorem on provenance at a target whose caller and response header name one commit.
use kase_ai.Prelude.{
  String, ◌≡◌, refl, true, false, Option, none, some, List, [], ◌∷◌, ◌==◌, string_eq, Result, ok,
  err, any, is_some, All, if◌then◌else◌,
}
use kase_ai.Provenance.{
  Repository, HeaderValue, ResolveInput, ResolvedProvenance, ProvenanceError, failed,
  ProvenanceSource, Externals, claims_of, resolve,
}
use kase_ai.Provenance.Agreement.{Agrees, provenance-Agrees}

abbrev commit_at : Repository → String → Result ProvenanceError String
commit_at repository ref = if ref == "main" then ok "0a1b" else ok "c0ffee"

abbrev joined : List (String × String) → String
joined [] = ""
joined ((k, v) ∷ rows) = v

abbrev platform : Externals
platform = record {
  resolve_commit = commit_at;
  read_build_info = λ url. err (failed "unreachable");
  to_lower = λ s. s;
  is_before = λ a b. true;
  stringify = joined;
  sha256_hex = λ s. s;
}

abbrev input : ResolveInput
input = record {
  repository = record { url = "git@shop"; default_branch = "main" };
  build_info_url = some "";
  caller_commit_sha = some " v1 ";
  response_headers = ("x-build-sha", HeaderValue.many ("v1" ∷ "v2" ∷ [])) ∷ [];
}

abbrev resolved_or :
    ResolvedProvenance → Result ProvenanceError ResolvedProvenance → ResolvedProvenance
resolved_or r (ok s) = s
resolved_or r (err e) = r

abbrev unresolved : ResolvedProvenance
unresolved = record {
  commit_sha = "";
  branch = none;
  build_id = none;
  source = ProvenanceSource.assumed;
  verified = false;
  target_fingerprint = "";
  observations = [];
}

abbrev resolved : ResolvedProvenance
resolved = resolved_or unresolved (resolve platform input)

resolved_run : resolve platform input ≡ ok resolved
unfolding resolve
resolved_run = refl

commit_example :
    All (Agrees platform input.repository resolved.commit_sha) (claims_of platform input none)
    × (resolved.verified
        ≡ any (λ (c : String × Option String). is_some c.1) (claims_of platform input none))
commit_example = provenance-Agrees platform input none resolved refl resolved_run

assumed_run :
    resolve platform (record input { caller_commit_sha = none; response_headers = [] })
    ≡ ok (record {
      commit_sha = "0a1b";
      branch = some "main";
      build_id = none;
      source = ProvenanceSource.assumed;
      verified = false;
      target_fingerprint = "assumed";
      observations =
          ("repositoryUrl", "git@shop")
          ∷ ("defaultBranch", "main")
          ∷ ("selectedCommitSha", "0a1b")
          ∷ ("source", "assumed")
          ∷ [];
    })
unfolding resolve
assumed_run = refl
