-- ===== src/Scope/HostPattern.antt =====
-- apps/api/src/common/host-pattern.ts: the patterns of a scope policy, and which hosts they cover.
-- `toLowerCase` follows the Unicode tables, which are a parameter.
pub mod Accepted
use Prim.Native.Char.{code}
use Prim.Native.String.{◌++◌ as append}
use text.Mathlib.Text.{starts_with}
use kase_ai.Prelude.{
  ℕ, zero, suc, ◌+◌, ◌-◌, String, Bool, true, false, not, ◌&&◌, ◌||◌, Option, none, some, List, [],
  ◌∷◌, ◌++◌, ◌==◌, string_eq, nat_eq, Result, ok, err, ◌>>=◌, ◌>>◌, throw_if, if◌then◌else◌,
  contains, any, filter, count_where, length, leb, ltb, is_empty_text, trim, drop_chars,
}

abbrev pub multipart_suffixes : List String
multipart_suffixes =
    "co.uk" ∷ "org.uk" ∷ "me.uk" ∷ "gov.uk" ∷ "ac.uk" ∷ "net.uk" ∷ "sch.uk" ∷ "com.au" ∷ "net.au"
    ∷ "org.au" ∷ "edu.au" ∷ "gov.au" ∷ "id.au" ∷ "co.nz" ∷ "net.nz" ∷ "org.nz" ∷ "govt.nz" ∷ "ac.nz"
    ∷ "co.jp" ∷ "or.jp" ∷ "ne.jp" ∷ "ac.jp" ∷ "go.jp" ∷ "com.br" ∷ "net.br" ∷ "org.br" ∷ "gov.br"
    ∷ "co.za" ∷ "org.za" ∷ "net.za" ∷ "gov.za" ∷ "com.cn" ∷ "net.cn" ∷ "org.cn" ∷ "gov.cn" ∷ "co.in"
    ∷ "net.in" ∷ "org.in" ∷ "gov.in" ∷ "com.mx" ∷ "com.ar" ∷ "com.sg" ∷ "com.hk" ∷ "com.tw"
    ∷ "com.tr" ∷ "github.io" ∷ "gitlab.io" ∷ "vercel.app" ∷ "netlify.app" ∷ "herokuapp.com"
    ∷ "pages.dev" ∷ "workers.dev" ∷ "azurewebsites.net" ∷ "cloudfront.net" ∷ []

abbrev pub allowed_single_label : List String
allowed_single_label = "localhost" ∷ []

-- `includes`
abbrev pub includes : String → String → Bool
includes String.[] t = is_empty_text t
includes (String.◌∷◌ c s) t = starts_with (String.◌∷◌ c s) t || includes s t

abbrev pub all_chars : (ℕ → Bool) → String → Bool
all_chars p String.[] = true
all_chars p (String.◌∷◌ c s) = p (code c) && all_chars p s

abbrev pub count_chars : String → ℕ
count_chars String.[] = 0
count_chars (String.◌∷◌ c s) = suc (count_chars s)

abbrev cons_label : String → List String → List String
cons_label c [] = c ∷ []
cons_label c (l ∷ ls) = append c l ∷ ls

-- `split('.')`
abbrev pub split_labels : String → List String
split_labels String.[] = "" ∷ []
split_labels (String.◌∷◌ c s) =
    let rest = split_labels s in
    if code c == 46 then "" ∷ rest else cons_label (String.◌∷◌ c "") rest

-- `join('.')`
abbrev pub join_labels : List String → String
join_labels [] = ""
join_labels (l ∷ []) = l
join_labels (l ∷ m ∷ ls) = append l (append "." (join_labels (m ∷ ls)))

abbrev is_digit : ℕ → Bool
is_digit n = leb 48 n && leb n 57

abbrev is_alphanumeric : ℕ → Bool
is_alphanumeric n = is_digit n || (leb 97 n && leb n 122)

abbrev ends_alphanumeric : String → Bool
ends_alphanumeric String.[] = false
ends_alphanumeric (String.◌∷◌ c s) =
    let rest = ends_alphanumeric s in if is_empty_text s then is_alphanumeric (code c) else rest

abbrev starts_alphanumeric : String → Bool
starts_alphanumeric String.[] = false
starts_alphanumeric (String.◌∷◌ c s) = is_alphanumeric (code c)

-- `LABEL_RE`: letters, digits and hyphens, with no hyphen at either end.
unfoldable pub is_label : String → Bool
is_label s =
    starts_alphanumeric s && ends_alphanumeric s && all_chars (λ n. is_alphanumeric n || n == 45) s

-- `IPV4_RE`
unfoldable pub is_ipv4 : List String → Bool
is_ipv4 labels =
    length labels == 4
    && count_where (λ l. all_chars is_digit l && leb 1 (count_chars l) && leb (count_chars l) 3)
        labels
      == 4

pub data HostPatternRejection : Type 0 where
  empty not_lowercase contains_scheme contains_path contains_port contains_credentials invalid_label
        wildcard_alone wildcard_not_leftmost multiple_wildcards wildcard_on_public_suffix bare_tld
        ip_address :
      HostPatternRejection

-- The loop over the labels.
unfoldable pub check_labels : List String → Result HostPatternRejection (Unit {0})
unfolding is_label
check_labels [] = ok tt
check_labels (l ∷ ls) = do
  throw_if (includes l "*") wildcard_not_leftmost
  throw_if (not (is_label l)) invalid_label
  check_labels ls

-- The end of the test for a host with no wildcard, whose labels are well-formed.
unfoldable pub check_exact : List String → String → Result HostPatternRejection (Unit {0})
unfolding is_ipv4
check_exact labels host = do
  throw_if (is_ipv4 labels) ip_address
  throw_if (length labels == 1 && not (contains allowed_single_label host)) bare_tld

-- The end of the test for a leading wildcard.
unfoldable pub check_wildcard : List String → Result HostPatternRejection (Unit {0})
check_wildcard rest = do
  throw_if (contains multipart_suffixes (join_labels rest)) wildcard_on_public_suffix
  throw_if (ltb (length rest + 1) 3) bare_tld

-- What is tested of the labels of a host, of which a wildcard may be the first.
unfoldable pub check_pattern_labels : List String → String → Result HostPatternRejection (Unit {0})
unfolding check_labels check_exact check_wildcard
check_pattern_labels [] host = check_exact [] host
check_pattern_labels (l ∷ ls) host =
    let wildcards = count_where (λ k. k == "*") (l ∷ ls) in
    do
      throw_if (ltb 1 wildcards) multiple_wildcards
      throw_if (wildcards == 1 && not (l == "*")) wildcard_not_leftmost
      if wildcards == 1
          then check_labels ls >> check_wildcard ls
          else check_labels (l ∷ ls) >> check_exact (l ∷ ls) host

-- `endsWith`
abbrev pub ends_with : String → String → Bool
ends_with String.[] t = is_empty_text t
ends_with (String.◌∷◌ c s) t = String.◌∷◌ c s == t || ends_with s t

abbrev pub take_chars : ℕ → String → String
take_chars zero s = ""
take_chars (suc n) String.[] = ""
take_chars (suc n) (String.◌∷◌ c s) = String.◌∷◌ c (take_chars n s)

pub data AllowedHostError : Type 0 where
  none_given : AllowedHostError
  rejected : HostPatternRejection → AllowedHostError
  duplicate : String → AllowedHostError

module _ (to_lower : String → String) where
  -- `validateHostPattern`, without the texts of `detail`.
  unfoldable pub validate_host_pattern : String → Result HostPatternRejection (Unit {0})
  unfolding check_pattern_labels
  validate_host_pattern raw =
      let host = trim raw in
      do
        throw_if (is_empty_text host) empty
        throw_if (not (host == to_lower host)) not_lowercase
        throw_if (includes host "://") contains_scheme
        throw_if (includes host "@") contains_credentials
        throw_if (includes host "/") contains_path
        throw_if (includes host ":") contains_port
        throw_if (host == "*") wildcard_alone
        check_pattern_labels (split_labels host) host

  -- `hostMatchesPattern`
  unfoldable pub host_matches_pattern : String → String → Bool
  host_matches_pattern host pattern =
      let h = to_lower (trim host) in
      let p = to_lower (trim pattern) in
      let suffix = drop_chars 2 p in
      let prefix = take_chars (count_chars h - count_chars suffix - 1) h in
      if not (starts_with p "*.")
      then h == p
      else ends_with h (append "." suffix)
        && not (is_empty_text prefix)
        && not (includes prefix ".")

  -- `isHostAllowed`
  unfoldable pub is_host_allowed : String → List String → Bool
  unfolding host_matches_pattern
  is_host_allowed host allowed_hosts = any (host_matches_pattern host) allowed_hosts

  -- The loop of `validateAllowedHosts`.
  unfoldable pub allowed_host_errors : List String → List String → List AllowedHostError
  unfolding validate_host_pattern
  allowed_host_errors seen [] = []
  allowed_host_errors seen (h ∷ hs) =
      let key = trim h in
      let invalid_rest = allowed_host_errors seen hs in
      let valid_rest = allowed_host_errors (key ∷ seen) hs in
      elim (validate_host_pattern h) [
        | err e ↦ rejected e ∷ invalid_rest
        | ok _ ↦ if contains seen key then duplicate key ∷ valid_rest else valid_rest
      ]

  -- `validateAllowedHosts`, by its errors: it is valid if there are none.
  unfoldable pub validate_allowed_hosts : List String → List AllowedHostError
  unfolding allowed_host_errors
  validate_allowed_hosts [] = none_given ∷ []
  validate_allowed_hosts (h ∷ hs) = allowed_host_errors [] (h ∷ hs)
