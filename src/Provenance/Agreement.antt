-- ===== src/Provenance/Agreement.antt =====
-- What a resolved provenance promises: all that claim a commit claim the one that is chosen.
use mathlib.Core.Path.{subst}
use kase_ai.Prelude.{
  String, ◌≡◌, refl, sym, ap, ◌∙◌, true, not, Option, none, some, List, [], ◌∷◌, arith, ◌==◌,
  string_eq, ok, ok_injective, >>=-eq-ok, throw_if, throw_if-eq-ok, all, any, is_some, All,
}
use kase_ai.Projects.{given}
use kase_ai.Provenance.{
  Repository, BuildInfo, ResolveInput, ResolvedProvenance, provenance_mismatch, is_assumed,
  Externals, read_build, claims_of, resolve_claims, is_one_commit, source_of, selected_commit,
  resolve,
}

module _ (ext : Externals) (repository : Repository) where
  -- A claim that is made resolves to the commit.
  abbrev pub Agrees : String → String × Option String → Type 0
  Agrees commit_sha (name, none) = Unit {0}
  Agrees commit_sha (name, some claim) =
      (sha : String) × (ext.resolve_commit repository claim ≡ ok sha)
      × (ext.to_lower sha ≡ ext.to_lower commit_sha)

  abbrev IsOf : String → String × String → Type 0
  IsOf commit_sha (name, sha) = ext.to_lower sha ≡ ext.to_lower commit_sha

  resolve_claims-Agrees :
      (commit_sha : String) (claims : List (String × Option String))
      (resolved : List (String × String))
      → resolve_claims ext repository claims ≡ ok resolved
      → All (IsOf commit_sha) resolved
      → All (Agrees commit_sha) claims
  resolve_claims-Agrees commit_sha [] resolved e h = tt
  resolve_claims-Agrees commit_sha ((name, none) ∷ claims) resolved e h =
      (tt, resolve_claims-Agrees commit_sha claims resolved e h)
  resolve_claims-Agrees commit_sha ((name, some claim) ∷ claims) resolved e h =
      let (sha, found, e₁) = >>=-eq-ok (ext.resolve_commit repository claim) _ e in
      let (rest, others, e₂) = >>=-eq-ok (resolve_claims ext repository claims) _ e₁ in
      let (first, later) = subst (All (IsOf commit_sha)) (sym (ok_injective e₂)) h in
      ((sha, found, first), resolve_claims-Agrees commit_sha claims rest others later)

  all-IsOf :
      (sha : String) (claims : List (String × String))
      → all (λ (c : String × String). ext.to_lower c.1 == ext.to_lower sha) claims ≡ true
      → All (IsOf sha) claims
  all-IsOf sha [] h = tt
  all-IsOf sha ((name, other) ∷ claims) h = (
    (string_eq.eqb_iff (ext.to_lower other) (ext.to_lower sha)).0 (ground (arith, h)),
    all-IsOf sha claims (ground (arith, h)),
  )

  one_commit-IsOf :
      (commit_sha : String) (resolved : List (String × String))
      → is_one_commit ext resolved ≡ true
      → selected_commit ext repository resolved ≡ ok commit_sha
      → All (IsOf commit_sha) resolved
  one_commit-IsOf commit_sha [] h e = tt
  one_commit-IsOf commit_sha ((name, sha) ∷ claims) h e =
      subst (λ s. All (IsOf s) ((name, sha) ∷ claims)) (ok_injective e)
        (refl, all-IsOf sha claims h)

-- A provenance that is resolved: the caller, the build information and the response header, as far as they
-- claim a commit, claim the chosen one, and it counts as verified just when one of them does.
pub provenance-Agrees :
    (ext : Externals) (input : ResolveInput) (build : Option BuildInfo) (r : ResolvedProvenance)
    → read_build ext (given input.build_info_url) ≡ ok build
    → resolve ext input ≡ ok r
    → All (Agrees ext input.repository r.commit_sha) (claims_of ext input build)
      × (r.verified ≡ any (λ (c : String × Option String). is_some c.1) (claims_of ext input build))
unfolding resolve
provenance-Agrees ext input build r read e =
    let e₀ = rw read at e in
    let (resolved, claimed, e₁) =
      >>=-eq-ok (resolve_claims ext input.repository (claims_of ext input build)) _ e₀ in
    let (_, one, e₂) =
      >>=-eq-ok (throw_if (not (is_one_commit ext resolved)) provenance_mismatch) _ e₁ in
    let (commit_sha, selected, e₃) =
      >>=-eq-ok (selected_commit ext input.repository resolved) _ e₂ in
    let agreed = throw_if-eq-ok _ _ one in
    let out = ok_injective e₃ in
    let same : commit_sha ≡ r.commit_sha = ap (λ (p : ResolvedProvenance). p.commit_sha) out in
    let checked : not (is_assumed (source_of ext input build)) ≡ r.verified =
      ap (λ (p : ResolvedProvenance). p.verified) out in
    (
      resolve_claims-Agrees ext input.repository r.commit_sha (claims_of ext input build) resolved
          claimed
          (subst (λ s. All (IsOf ext input.repository s) resolved) same
            (one_commit-IsOf ext input.repository commit_sha resolved (ground (arith, agreed))
              selected)),
      sym checked ∙ source_verified ext input build,
    )
  where
    source_verified :
        (ext : Externals) (input : ResolveInput) (build : Option BuildInfo)
        → not (is_assumed (source_of ext input build))
          ≡ any (λ (c : String × Option String). is_some c.1) (claims_of ext input build)
    source_verified ext input build = ground arith
