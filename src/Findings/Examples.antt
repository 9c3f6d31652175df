-- ===== src/Findings/Examples.antt =====
-- The theorems on findings at a missing owner check that two audits find.
use kase_ai.Prelude.{
  String, ◌≡◌, ◌≢◌, ◌⊎◌, refl, true, none, some, [], max, contains, string_eq, Result, ok, err,
}
use kase_ai.Findings.{
  severity_order, compute_severity, FingerprintInput, parts_of, compute_fingerprint,
  synthetic_rule_key,
}
use kase_ai.Findings.Severity.{known_severities, cwe_rank, category_rank, severity_is_highest}
use kase_ai.Findings.Fingerprint.{fingerprint_tells_apart}
use kase_ai.Findings.Persistence.{NormalizedFinding, FindingTables, FindingError, persist}

abbrev same_text : String → String
same_text s = s

severity_example :
    (contains known_severities
        (compute_severity same_text "critical" (some "CWE-79") (some "injection")).severity
      ≡ true)
    × (severity_order
          (compute_severity same_text "critical" (some "CWE-79") (some "injection")).severity
        ≡ max
            (max (cwe_rank (some "CWE-79")) (category_rank same_text (some "injection")))
            (severity_order (same_text "critical")))
severity_example = severity_is_highest same_text "critical" (some "CWE-79") (some "injection")

floor_run : (compute_severity same_text "low" (some "CWE-89") none).severity ≡ "critical"
unfolding compute_severity severity_order
floor_run = refl

key_run : synthetic_rule_key same_text "blackbox" "Broken auth" ≡ "kase.agent.blackbox._roken_auth"
key_run = refl

abbrev input : FingerprintInput
input = record {
  category = "authorization";
  rule_key = "kase.agent.blackbox.authorization";
  target = "https://shop.test";
  endpoint = some "/orders";
  cwe = some "CWE-639";
  enclosing_symbol = none;
}

input_run :
    compute_fingerprint same_text input
    ≡ compute_fingerprint same_text (record input { enclosing_symbol = some "" })
unfolding compute_fingerprint
input_run = refl

fingerprint_example :
    (parts_of input ≡ parts_of (record input { enclosing_symbol = some "" }))
    ⊎ ((m : String) × (n : String) × (m ≢ n) × (same_text m ≡ same_text n))
fingerprint_example =
    fingerprint_tells_apart same_text input (record input { enclosing_symbol = some "" }) refl refl
      input_run

abbrev missing_owner : NormalizedFinding
missing_owner = record {
  fingerprint = "f1";
  rule_id = "kase.idor.missing-ownership-predicate";
  category = "authorization";
  cwe = "CWE-639";
  title = "no owner";
  severity = "high";
  severity_source = "kase-policy";
  affected_target = "shop";
  description = "no owner";
  confidence_band = "high";
  gate_eligible = true;
  place = record {
    file = "orders.ts";
    enclosing_symbol = "Orders.get";
    line = 12;
    end_line = 14;
    commit_sha = "abc";
  };
}

abbrev no_findings : FindingTables
no_findings = record { identities = []; findings = []; places = []; links = [] }

abbrev tables_of : Result FindingError (String × FindingTables) → String × FindingTables
tables_of (ok r) = r
tables_of (err e) = ("", no_findings)

abbrev first : String × FindingTables
first = tables_of (persist same_text "prj_1" "aud_1" "ev_1" missing_owner no_findings)

abbrev second : String × FindingTables
second = tables_of (persist same_text "prj_1" "aud_2" "ev_2" missing_owner first.1)
