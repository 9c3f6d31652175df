-- ===== src/Findings.antt =====
-- apps/api/src/agent-runtime/capabilities/finding-authority.ts: the severity and the
-- fingerprint of a finding. `toLowerCase` and SHA-256 in hexadecimal are parameters.
pub mod Severity
pub mod Fingerprint
pub mod Persistence
pub mod Counting
pub mod Occurrences
mod Examples
use Prim.Native.Char.{code}
use Prim.Native.String.{◌++◌ as append}
use kase_ai.Prelude.{
  ℕ, String, Bool, true, false, ◌&&◌, ◌||◌, Option, none, some, List, [], ◌∷◌, ◌==◌, string_eq,
  nat_eq, get_or, is_some, leb, ltb, is_empty_text, if◌then◌else◌,
}

-- `SEVERITY_FLOORS`
abbrev pub severity_floors : List (String × String)
severity_floors =
    ("CWE-639", "high")
    ∷ ("CWE-285", "high")
    ∷ ("CWE-862", "high")
    ∷ ("CWE-863", "high")
    ∷ ("CWE-89", "critical")
    ∷ ("CWE-78", "critical")
    ∷ ("CWE-79", "medium")
    ∷ ("CWE-502", "high")
    ∷ ("CWE-918", "high")
    ∷ ("CWE-22", "high")
    ∷ []

abbrev pub lookup : String → List (String × String) → Option String
lookup key [] = none
lookup key ((k, v) ∷ rows) = let rest = lookup key rows in if k == key then some v else rest

-- `SEVERITY_ORDER[severity] ?? 0`
unfoldable pub severity_order : String → ℕ
severity_order severity =
    if severity == "low"
    then 1
    else if severity == "medium"
    then 2
    else if severity == "high"
    then 3
    else if severity == "critical"
    then 4
    else 0

-- A severity and the source that decided it.
pub record SeverityDecision : Type 0 where
  pub severity : String
  pub severity_source : String

abbrev pub raised : String → String → SeverityDecision → SeverityDecision
raised severity source d =
    if ltb (severity_order d.severity) (severity_order severity)
    then record { severity = severity; severity_source = source }
    else d

abbrev pub raised_by : String → Option String → SeverityDecision → SeverityDecision
raised_by source none d = d
raised_by source (some severity) d = raised severity source d

abbrev pub cwe_floor : Option String → SeverityDecision → SeverityDecision
cwe_floor none d = d
cwe_floor (some cwe) d = raised_by "cwe_floor" (lookup cwe severity_floors) d

abbrev pub is_high_category : String → Bool
is_high_category category =
    category == "authorization" || category == "injection" || category == "authentication"

abbrev pub category_floor : (String → String) → Option String → SeverityDecision → SeverityDecision
category_floor to_lower none d = d
category_floor to_lower (some category) d =
    if is_high_category (to_lower category) then raised "high" "category_floor" d else d

-- `computeSeverity`
unfoldable pub compute_severity :
    (String → String) → String → Option String → Option String → SeverityDecision
compute_severity to_lower proposed cwe category = raised (to_lower proposed) "agent_proposed" (
    category_floor to_lower category
      (cwe_floor cwe (record { severity = "informational"; severity_source = "agent_proposed" })))

-- The input of `computeFingerprint`
pub record FingerprintInput : Type 0 where
  pub category : String
  pub rule_key : String
  pub target : String
  pub endpoint : Option String
  pub cwe : Option String
  pub enclosing_symbol : Option String

abbrev pub parts_of : FingerprintInput → List String
parts_of input =
    input.category
    ∷ input.rule_key
    ∷ input.target
    ∷ get_or input.endpoint ""
    ∷ get_or input.cwe ""
    ∷ get_or input.enclosing_symbol ""
    ∷ []

-- `join`
abbrev pub join_with : String → List String → String
join_with separator [] = ""
join_with separator (p ∷ []) = p
join_with separator (p ∷ q ∷ ps) = append p (append separator (join_with separator (q ∷ ps)))

abbrev pub unit_separator : String
unit_separator = "\u{1f}"

-- `computeFingerprint`
unfoldable pub compute_fingerprint : (String → String) → FingerprintInput → String
compute_fingerprint sha256_hex input = sha256_hex (join_with unit_separator (parts_of input))

abbrev pub is_key_char : ℕ → Bool
is_key_char c = leb 97 c && leb c 122 || leb 48 c && leb c 57 || c == 95 || c == 45

-- `replace(/[^a-z0-9_-]/g, '_')`, which replaces UTF-16 units: two of a character beyond the first plane.
abbrev pub replace_others : String → String
replace_others String.[] = ""
replace_others (String.◌∷◌ c s) =
    let rest = replace_others s in
    if is_key_char (code c)
    then String.◌∷◌ c rest
    else if leb 65536 (code c)
    then append "__" rest
    else append "_" rest

-- `syntheticRuleKey`
abbrev pub synthetic_rule_key : (String → String) → String → String → String
synthetic_rule_key to_lower origin category =
    append "kase.agent." (append origin (append "." (replace_others (to_lower category))))
