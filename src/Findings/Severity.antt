-- ===== src/Findings/Severity.antt =====
-- The severity of a finding is the highest of its floors and of what the agent proposes.
use kase_ai.Prelude.{
  ℕ, String, ◌≡◌, ◌≢◌, refl, sym, ap, ◌∙◌, inl, inr, true, Option, none, some, List, [], ◌∷◌, max,
  arith, ◌==◌, string_eq, ltb, contains, Bool-cases, if◌then◌else◌,
}
use kase_ai.Findings.{
  severity_floors, lookup, severity_order, SeverityDecision, raised, raised_by, cwe_floor,
  is_high_category, category_floor, compute_severity,
}

-- The ranks of the floors, apart from the decisions.
abbrev rank_of : Option String → ℕ
rank_of none = 0
rank_of (some severity) = severity_order severity

abbrev pub cwe_rank : Option String → ℕ
cwe_rank none = 0
cwe_rank (some cwe) = rank_of (lookup cwe severity_floors)

abbrev pub category_rank : (String → String) → Option String → ℕ
category_rank to_lower none = 0
category_rank to_lower (some category) = if is_high_category (to_lower category) then 3 else 0

abbrev pub known_severities : List String
known_severities = "informational" ∷ "low" ∷ "medium" ∷ "high" ∷ "critical" ∷ []

raised-order :
    (severity source : String) (d : SeverityDecision)
    → severity_order (raised severity source d).severity
      ≡ max (severity_order d.severity) (severity_order severity)
raised-order severity source d =
    elim (Bool-cases (ltb (severity_order d.severity) (severity_order severity))) [
      | inl up ↦ ground (arith, up)
      | inr kept ↦ ground (arith, kept)
    ]

order-known :
    (severity : String) → severity_order severity ≢ 0 → contains known_severities severity ≡ true
unfolding severity_order
order-known severity h = ground (arith, h, flip "low", flip "medium", flip "high", flip "critical")
  where
    flip : (known : String) → (severity == known) ≡ true → (known == severity) ≡ true
    flip known e =
        (string_eq.eqb_iff known severity).1 (sym ((string_eq.eqb_iff severity known).0 e))

-- A severity that has a rank is a known one.
raised-known :
    (severity source : String) (d : SeverityDecision)
    → contains known_severities d.severity ≡ true
    → contains known_severities (raised severity source d).severity ≡ true
raised-known severity source d h =
    elim (Bool-cases (ltb (severity_order d.severity) (severity_order severity))) [
      | inl up ↦ rw up (order-known severity (λ low. ground (arith, up, low)))
      | inr kept ↦ rw kept h
    ]

raised_by-order :
    (source : String) (floor : Option String) (d : SeverityDecision)
    → severity_order (raised_by source floor d).severity
      ≡ max (severity_order d.severity) (rank_of floor)
raised_by-order source none d = omega arith
raised_by-order source (some severity) d = raised-order severity source d

cwe_floor-order :
    (cwe : Option String) (d : SeverityDecision)
    → severity_order (cwe_floor cwe d).severity ≡ max (severity_order d.severity) (cwe_rank cwe)
cwe_floor-order none d = omega arith
cwe_floor-order (some cwe) d = raised_by-order "cwe_floor" (lookup cwe severity_floors) d

raised_by-known :
    (source : String) (floor : Option String) (d : SeverityDecision)
    → contains known_severities d.severity ≡ true
    → contains known_severities (raised_by source floor d).severity ≡ true
raised_by-known source none d h = h
raised_by-known source (some severity) d h = raised-known severity source d h

cwe_floor-known :
    (cwe : Option String) (d : SeverityDecision)
    → contains known_severities d.severity ≡ true
    → contains known_severities (cwe_floor cwe d).severity ≡ true
cwe_floor-known none d h = h
cwe_floor-known (some cwe) d h = raised_by-known "cwe_floor" (lookup cwe severity_floors) d h

high_order : severity_order "high" ≡ 3
unfolding severity_order
high_order = refl

informational_order : severity_order "informational" ≡ 0
unfolding severity_order
informational_order = refl

category_floor-order :
    (to_lower : String → String) (category : Option String) (d : SeverityDecision)
    → severity_order (category_floor to_lower category d).severity
      ≡ max (severity_order d.severity) (category_rank to_lower category)
category_floor-order to_lower none d = omega arith
category_floor-order to_lower (some category) d =
    elim (Bool-cases (is_high_category (to_lower category))) [
      | inl high ↦
          rw high (
            raised-order "high" "category_floor" d
            ∙ ap (max (severity_order d.severity)) high_order)
      | inr other ↦ rw other (omega arith)
    ]

category_floor-known :
    (to_lower : String → String) (category : Option String) (d : SeverityDecision)
    → contains known_severities d.severity ≡ true
    → contains known_severities (category_floor to_lower category d).severity ≡ true
category_floor-known to_lower none d h = h
category_floor-known to_lower (some category) d h =
    elim (Bool-cases (is_high_category (to_lower category))) [
      | inl high ↦ rw high (raised-known "high" "category_floor" d h)
      | inr other ↦ rw other h
    ]

-- The severity of a finding is one of the five known ones, whatever the agent proposes, and its rank is
-- the highest among the floor of its weakness, the floor of its category and the proposal.
pub severity_is_highest :
    (to_lower : String → String) (proposed : String) (cwe category : Option String)
    → (contains known_severities (compute_severity to_lower proposed cwe category).severity ≡ true)
      × (severity_order (compute_severity to_lower proposed cwe category).severity
          ≡ max
              (max (cwe_rank cwe) (category_rank to_lower category))
              (severity_order (to_lower proposed)))
unfolding compute_severity
severity_is_highest to_lower proposed cwe category =
    let start : SeverityDecision = record {
      severity = "informational";
      severity_source = "agent_proposed";
    } in
    let first = cwe_floor cwe start in
    let second = category_floor to_lower category first in
    (
      raised-known (to_lower proposed) "agent_proposed" second
          (category_floor-known to_lower category first (cwe_floor-known cwe start refl)),
      omega (
        arith,
        raised-order (to_lower proposed) "agent_proposed" second,
        category_floor-order to_lower category first,
        cwe_floor-order cwe start,
        informational_order,
      ),
    )
