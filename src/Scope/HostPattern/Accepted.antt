-- ===== src/Scope/HostPattern/Accepted.antt =====
-- What the patterns of a policy cover, and which are accepted.
use Prim.Native.String.{◌++◌ as append}
use mathlib.Core.Path.{subst}
use text.Mathlib.Text.{starts_with}
use text.Mathlib.TextLemmas.{nil-append, cons-append}
use kase_ai.Prelude.{
  suc, ◌-◌, ◌≤◌, String, ◌≡◌, refl, sym, ap, ◌∙◌, inl, inr, ◌⊎◌, true, false, not, ◌&&◌, List, [],
  ◌∷◌, arith, ◌==◌, string_eq, nat_eq, ok, >>=-eq-ok, throw_if, throw_if-eq-ok, contains, length,
  count_where, ltb, is_empty_text, trim, drop_chars, All, Bool-cases,
}
use kase_ai.Scope.HostPattern.{
  multipart_suffixes, allowed_single_label, includes, split_labels, join_labels, is_label, is_ipv4,
  check_labels, check_exact, check_wildcard, check_pattern_labels, validate_host_pattern,
  count_chars, ends_with, take_chars, host_matches_pattern, wildcard_not_leftmost, invalid_label,
  ip_address, wildcard_on_public_suffix, multiple_wildcards, empty, not_lowercase, contains_scheme,
  contains_credentials, contains_path, contains_port, wildcard_alone,
}

check_labels-eq-ok : (ls : List String) → check_labels ls ≡ ok tt → All (λ l. is_label l ≡ true) ls
unfolding check_labels
check_labels-eq-ok [] e = tt
check_labels-eq-ok (l ∷ ls) e =
    let (_, _, e₁) = >>=-eq-ok (throw_if (includes l "*") wildcard_not_leftmost) _ e in
    let (_, b, e₂) = >>=-eq-ok (throw_if (not (is_label l)) invalid_label) _ e₁ in
    let formed = throw_if-eq-ok _ _ b in (ground arith, check_labels-eq-ok ls e₂)

-- A host with no wildcard: several labels that are not an address, or a local name.
pub record IsExact (labels : List String) (host : String) : Type 0 where
  pub labels_valid : All (λ l. is_label l ≡ true) labels
  pub no_address : is_ipv4 labels ≡ false
  pub qualified : ((length labels == 1) ≡ false) ⊎ (contains allowed_single_label host ≡ true)

-- A wildcard before a domain of at least two labels that is no public suffix.
pub record IsWildcard (labels : List String) : Type 0 where
  pub rest : List String
  pub leftmost : labels ≡ "*" ∷ rest
  pub labels_valid : All (λ l. is_label l ≡ true) rest
  pub registrable : 2 ≤ length rest
  pub no_suffix : contains multipart_suffixes (join_labels rest) ≡ false

check_exact-eq-ok :
    (labels : List String) (host : String)
    → check_exact labels host ≡ ok tt
    → All (λ l. is_label l ≡ true) labels
    → IsExact labels host
unfolding check_exact
check_exact-eq-ok labels host e valid =
    let (_, a, e₁) = >>=-eq-ok (throw_if (is_ipv4 labels) ip_address) _ e in
    let local = throw_if-eq-ok _ _ e₁ in
    record {
      labels_valid = valid;
      no_address = throw_if-eq-ok _ _ a;
      qualified = ground (arith, local);
    }

check_wildcard-eq-ok :
    (rest : List String)
    → check_wildcard rest ≡ ok tt
    → All (λ l. is_label l ≡ true) rest
    → IsWildcard ("*" ∷ rest)
unfolding check_wildcard
check_wildcard-eq-ok rest e valid =
    let (_, a, e₁) =
      >>=-eq-ok
        (throw_if (contains multipart_suffixes (join_labels rest)) wildcard_on_public_suffix) _ e in
    let short = throw_if-eq-ok _ _ e₁ in
    record {
      rest = rest;
      leftmost = refl;
      labels_valid = valid;
      registrable = ground (arith, short);
      no_suffix = throw_if-eq-ok _ _ a;
    }

check_pattern_labels-eq-ok :
    (labels : List String) (host : String)
    → check_pattern_labels labels host ≡ ok tt
    → IsExact labels host ⊎ IsWildcard labels
unfolding check_pattern_labels
check_pattern_labels-eq-ok [] host e = inl (check_exact-eq-ok [] host e tt)
check_pattern_labels-eq-ok (l ∷ ls) host e =
    let wildcards = count_where (λ k. k == "*") (l ∷ ls) in
    let (_, _, e₁) = >>=-eq-ok (throw_if (ltb 1 wildcards) multiple_wildcards) _ e in
    let (_, b, e₂) =
      >>=-eq-ok (throw_if (wildcards == 1 && not (l == "*")) wildcard_not_leftmost) _ e₁ in
    let placed = throw_if-eq-ok _ _ b in
    elim (Bool-cases (wildcards == 1)) [
      | inl one ↦
          let (_, c, e₃) = >>=-eq-ok (check_labels ls) _ (rw one at e₂) in
          let star : (l == "*") ≡ true = ground (arith, one, placed) in
          let is_star : "*" ≡ l = sym ((string_eq.eqb_iff l "*").0 star) in
          inr (
            subst (λ k. IsWildcard (k ∷ ls)) is_star
              (check_wildcard-eq-ok ls e₃ (check_labels-eq-ok ls c)))
      | inr none_or_more ↦
          let (_, c, e₃) = >>=-eq-ok (check_labels (l ∷ ls)) _ (rw none_or_more at e₂) in
          inl (check_exact-eq-ok (l ∷ ls) host e₃ (check_labels-eq-ok (l ∷ ls) c))
    ]

-- An accepted pattern is either a host of valid labels, no address, that has several labels or is a
-- local name; or one wildcard before a domain of at least two valid labels that is not a public suffix
-- of the list.
pub accepted_pattern :
    (to_lower : String → String) (raw : String)
    → validate_host_pattern to_lower raw ≡ ok tt
    → IsExact (split_labels (trim raw)) (trim raw) ⊎ IsWildcard (split_labels (trim raw))
unfolding validate_host_pattern
accepted_pattern to_lower raw e =
    let host = trim raw in
    let (_, _, e₁) = >>=-eq-ok (throw_if (is_empty_text host) empty) _ e in
    let (_, _, e₂) = >>=-eq-ok (throw_if (not (host == to_lower host)) not_lowercase) _ e₁ in
    let (_, _, e₃) = >>=-eq-ok (throw_if (includes host "://") contains_scheme) _ e₂ in
    let (_, _, e₄) = >>=-eq-ok (throw_if (includes host "@") contains_credentials) _ e₃ in
    let (_, _, e₅) = >>=-eq-ok (throw_if (includes host "/") contains_path) _ e₄ in
    let (_, _, e₆) = >>=-eq-ok (throw_if (includes host ":") contains_port) _ e₅ in
    let (_, _, e₇) = >>=-eq-ok (throw_if (host == "*") wildcard_alone) _ e₆ in
    check_pattern_labels-eq-ok (split_labels host) host e₇

is_empty_text-eq : (t : String) → is_empty_text t ≡ true → t ≡ ""
is_empty_text-eq String.[] h = refl
is_empty_text-eq (String.◌∷◌ c t) h = cc

ends_with-le : (s t : String) → ends_with s t ≡ true → count_chars t ≤ count_chars s
ends_with-le String.[] t h = rw (is_empty_text-eq t h) (omega arith)
ends_with-le (String.◌∷◌ c s) t h = elim (Bool-cases (String.◌∷◌ c s == t)) [
  | inl whole ↦
      let same = (string_eq.eqb_iff (String.◌∷◌ c s) t).0 whole in
      subst (λ u. count_chars u ≤ suc (count_chars s)) same (omega arith)
  | inr part ↦ let less = ends_with-le s t (ground (arith, part)) in omega (arith, less)
]

-- A text that ends with another is what precedes that other, and it.
ends_with-take :
    (s t : String)
    → ends_with s t ≡ true
    → s ≡ append (take_chars (count_chars s - count_chars t) s) t
ends_with-take String.[] t h = rw (is_empty_text-eq t h) (sym (nil-append ""))
ends_with-take (String.◌∷◌ c s) t h = elim (Bool-cases (String.◌∷◌ c s == t)) [
  | inl whole ↦
      let same = (string_eq.eqb_iff (String.◌∷◌ c s) t).0 whole in
      let none_before : suc (count_chars s) - suc (count_chars s) ≡ 0 = omega arith in
      subst
        (λ u.
          String.◌∷◌ c s
          ≡ append (take_chars (suc (count_chars s) - count_chars u) (String.◌∷◌ c s)) u)
        same (rw none_before (sym (nil-append (String.◌∷◌ c s))))
  | inr part ↦
      let later : ends_with s t ≡ true = ground (arith, part) in
      let less = ends_with-le s t later in
      let one_more : suc (count_chars s) - count_chars t ≡ suc (count_chars s - count_chars t) =
        omega (arith, less) in
      let rest = ends_with-take s t later in
      rw one_more (
        ap (String.◌∷◌ c) rest
        ∙ sym (cons-append c (take_chars (count_chars s - count_chars t) s) t))
]

-- A pattern that starts with a wildcard covers only hosts of one label, not empty, before the rest of
-- the pattern: neither the bare domain nor a host that is two labels below it.
pub wildcard_one_label :
    (to_lower : String → String) (host pattern : String)
    → starts_with (to_lower (trim pattern)) "*." ≡ true
    → host_matches_pattern to_lower host pattern ≡ true
    → (label : String) × (to_lower (trim host)
        ≡ append label (append "." (drop_chars 2 (to_lower (trim pattern)))))
      × (is_empty_text label ≡ false)
      × (includes label "." ≡ false)
unfolding host_matches_pattern
wildcard_one_label to_lower host pattern wild h =
    let s = to_lower (trim host) in
    let suffix = drop_chars 2 (to_lower (trim pattern)) in
    let label = take_chars (count_chars s - count_chars suffix - 1) s in
    let tested : (ends_with s (append "." suffix)
          && not (is_empty_text label)
          && not (includes label "."))
        ≡ true =
      rw wild at h in
    let longer : count_chars (append "." suffix) ≡ suc (count_chars suffix) =
      ap count_chars (cons-append _ "" suffix)
      ∙ ap (λ u. suc (count_chars u)) (nil-append suffix) in
    let same : count_chars s - count_chars (append "." suffix)
        ≡ count_chars s - count_chars suffix - 1 =
      rw longer (omega arith) in
    let parts = ends_with-take s (append "." suffix) (ground (arith, tested)) in
    (label, rw same at parts, ground (arith, tested), ground (arith, tested))
