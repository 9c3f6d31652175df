-- ===== src/Provenance.antt =====
-- apps/api/src/provenance/provenance-resolver.ts: which commit a target runs. The Git client, the reader of
-- build information and the functions of the platform are parameters.
pub mod Agreement
mod Examples
use kase_ai.Prelude.{
  ℕ, String, Bool, true, false, not, ◌&&◌, ◌||◌, Option, none, some, List, [], ◌∷◌, ◌++◌, map, ◌==◌,
  string_eq, Result, ok, err, ◌>>=◌, ◌>>◌, throw_if, find, all, is_some, is_empty_text, trim,
  if◌then◌else◌,
}
use kase_ai.Projects.{given}

pub data ProvenanceSource : Type 0 where
  ci_supplied build_info_endpoint response_header assumed : ProvenanceSource

abbrev pub source_name : ProvenanceSource → String
source_name ci_supplied = "ci_supplied"
source_name build_info_endpoint = "build_info_endpoint"
source_name response_header = "response_header"
source_name assumed = "assumed"

abbrev pub is_assumed : ProvenanceSource → Bool
is_assumed assumed = true
is_assumed _ = false

-- `ProvenanceRepository`
pub record Repository : Type 0 where
  pub url : String
  pub default_branch : String

-- `BuildInfoObservation`
pub record BuildInfo : Type 0 where
  pub commit_sha : Option String
  pub branch : Option String
  pub build_id : Option String

-- `string | string[] | undefined`
pub data HeaderValue : Type 0 where
  one : String → HeaderValue
  many : List String → HeaderValue
  absent : HeaderValue

-- `ResolveProvenanceInput`, without the signal that aborts it.
pub record ResolveInput : Type 0 where
  pub repository : Repository
  pub build_info_url : Option String
  pub caller_commit_sha : Option String
  pub response_headers : List (String × HeaderValue)

pub data ProvenanceError : Type 0 where
  provenance_mismatch : ProvenanceError
  failed : String → ProvenanceError

-- `ResolvedProvenance`
pub record ResolvedProvenance : Type 0 where
  pub commit_sha : String
  pub branch : Option String
  pub build_id : Option String
  pub source : ProvenanceSource
  pub verified : Bool
  pub target_fingerprint : String
  pub observations : List (String × String)

pub record Externals : Type 0 where
  pub resolve_commit : Repository → String → Result ProvenanceError String
  pub read_build_info : String → Result ProvenanceError BuildInfo
  pub to_lower : String → String
  pub is_before : String → String → Bool
  pub stringify : List (String × String) → String
  pub sha256_hex : String → String

-- `clean`
abbrev pub clean : Option String → Option String
clean none = none
clean (some s) = given (some (trim s))

abbrev pub first_of : HeaderValue → Option String
first_of (one s) = some s
first_of (many []) = none
first_of (many (s ∷ ss)) = some s
first_of absent = none

abbrev pub header_of : Option (String × HeaderValue) → Option String
header_of none = none
header_of (some (_, value)) = first_of value

abbrev pub commit_of : Option BuildInfo → Option String
commit_of none = none
commit_of (some build) = build.commit_sha

abbrev pub branch_of : Option BuildInfo → Option String
branch_of none = none
branch_of (some build) = build.branch

abbrev pub build_id_of : Option BuildInfo → Option String
build_id_of none = none
build_id_of (some build) = build.build_id

-- A property of a record of texts, set or set anew.
abbrev pub set_entry : String → String → List (String × String) → List (String × String)
set_entry key value [] = (key, value) ∷ []
set_entry key value ((k, v) ∷ rows) =
    let rest = set_entry key value rows in if k == key then (key, value) ∷ rows else (k, v) ∷ rest

abbrev pub set_given : String → Option String → List (String × String) → List (String × String)
set_given key none rows = rows
set_given key (some value) rows = set_entry key value rows

module _ (ext : Externals) where
  -- `getHeader`
  abbrev pub get_header : List (String × HeaderValue) → String → Option String
  get_header headers name =
      header_of (find (λ (h : String × HeaderValue). ext.to_lower h.0 == name) headers)

  abbrev pub read_build : Option String → Result ProvenanceError (Option BuildInfo)
  read_build none = ok none
  read_build (some url) = do build ← ext.read_build_info url; ok (some build)

  abbrev pub claims_of : ResolveInput → Option BuildInfo → List (String × Option String)
  claims_of input build =
      ("caller", clean input.caller_commit_sha)
      ∷ ("build_info", clean (commit_of build))
      ∷ ("response_header", clean (get_header input.response_headers "x-build-sha"))
      ∷ []

  abbrev pub resolve_claims :
      Repository → List (String × Option String) → Result ProvenanceError (List (String × String))
  resolve_claims repository [] = ok []
  resolve_claims repository ((name, none) ∷ claims) = resolve_claims repository claims
  resolve_claims repository ((name, some claim) ∷ claims) = do
    sha ← ext.resolve_commit repository claim
    rest ← resolve_claims repository claims
    ok ((name, sha) ∷ rest)

  -- `distinct.size > 1`, negated: all are the first.
  abbrev pub is_one_commit : List (String × String) → Bool
  is_one_commit [] = true
  is_one_commit ((name, sha) ∷ claims) =
      all (λ (c : String × String). ext.to_lower c.1 == ext.to_lower sha) claims

  abbrev pub source_of : ResolveInput → Option BuildInfo → ProvenanceSource
  source_of input build =
      if is_some (clean input.caller_commit_sha)
      then ci_supplied
      else if is_some (clean (commit_of build))
      then build_info_endpoint
      else if is_some (clean (get_header input.response_headers "x-build-sha"))
      then response_header
      else assumed

  abbrev pub selected_commit : Repository → List (String × String) → Result ProvenanceError String
  selected_commit repository [] = ext.resolve_commit repository repository.default_branch
  selected_commit repository ((name, sha) ∷ claims) = ok sha

  abbrev pub set_claims : List (String × String) → List (String × String) → List (String × String)
  set_claims [] rows = rows
  set_claims ((name, sha) ∷ claims) rows =
      set_claims claims (set_entry name (ext.to_lower sha) rows)

  abbrev pub insert_entry : String × String → List (String × String) → List (String × String)
  insert_entry e [] = e ∷ []
  insert_entry e (f ∷ fs) =
      let rest = insert_entry e fs in if ext.is_before f.0 e.0 then f ∷ rest else e ∷ f ∷ fs

  abbrev pub sort_entries : List (String × String) → List (String × String)
  sort_entries [] = []
  sort_entries (e ∷ es) = insert_entry e (sort_entries es)

  -- `canonicalJson`
  abbrev pub canonical_json : List (String × String) → String
  canonical_json rows = ext.stringify (sort_entries rows)

  abbrev pub branch_or_default : ResolveInput → Option BuildInfo → Option String
  branch_or_default input build = elim (branch_of build) [
    | some branch ↦ some branch
    | none ↦
        if is_assumed (source_of input build) then some input.repository.default_branch else none
  ]

  abbrev pub observations_of :
      ResolveInput → Option BuildInfo → List (String × String) → String → List (String × String)
  observations_of input build resolved commit_sha =
      set_given "buildId" (given (build_id_of build)) (
        set_given "branch" (given (branch_of build)) (
          set_claims resolved (
            ("repositoryUrl", input.repository.url)
            ∷ ("defaultBranch", input.repository.default_branch)
            ∷ ("selectedCommitSha", ext.to_lower commit_sha)
            ∷ ("source", source_name (source_of input build))
            ∷ [])))

  -- `resolve`
  unfoldable pub resolve : ResolveInput → Result ProvenanceError ResolvedProvenance
  resolve input = do
    build ← read_build (given input.build_info_url)
    resolved ← resolve_claims input.repository (claims_of input build)
    throw_if (not (is_one_commit resolved)) provenance_mismatch
    commit_sha ← selected_commit input.repository resolved
    let observations = observations_of input build resolved commit_sha
    ok (record {
      commit_sha = commit_sha;
      branch = branch_or_default input build;
      build_id = build_id_of build;
      source = source_of input build;
      verified = not (is_assumed (source_of input build));
      target_fingerprint = ext.sha256_hex (canonical_json observations);
      observations = observations;
    })
