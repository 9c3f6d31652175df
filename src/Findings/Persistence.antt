-- ===== src/Findings/Persistence.antt =====
-- apps/api/src/findings/finding-persistence.service.ts: how a finding of a tool is stored. SHA-256 in
-- hexadecimal is a parameter; the columns with a fixed text are left out, and the foreign keys to projects,
-- audits and evidence.
use Prim.Native.String.{◌++◌ as append}
use kase_ai.Prelude.{
  ℕ, suc, String, Bool, false, not, ◌&&◌, Option, none, some, List, [], ◌∷◌, ◌++◌, ◌==◌, string_eq,
  Result, ok, ◌>>=◌, ◌>>◌, throw_if, find, any, update_where, if◌then◌else◌,
}
use kase_ai.Projects.Slug.{slice_to}
use kase_ai.Secrets.Service.{decimal_from}

pub record SourcePlace : Type 0 where
  pub file : String
  pub enclosing_symbol : String
  pub line : ℕ
  pub end_line : ℕ
  pub commit_sha : String

-- `NormalizedSastFinding`
pub record NormalizedFinding : Type 0 where
  pub fingerprint : String
  pub rule_id : String
  pub category : String
  pub cwe : String
  pub title : String
  pub severity : String
  pub severity_source : String
  pub affected_target : String
  pub description : String
  pub confidence_band : String
  pub gate_eligible : Bool
  pub place : SourcePlace

pub record FindingIdentity : Type 0 where
  pub id : String
  pub project_id : String
  pub fingerprint : String
  pub status : String
  pub first_seen_audit_id : String
  pub last_seen_audit_id : String
  pub occurrences : ℕ
  pub current_severity : String

pub record Finding : Type 0 where
  pub id : String
  pub audit_id : String
  pub identity_id : String
  pub origin : String
  pub category : String
  pub rule_id : String
  pub cwe : String
  pub title : String
  pub severity : String
  pub severity_source : String
  pub affected_target : String
  pub description : String
  pub confidence_band : String
  pub ai_generated : Bool
  pub gate_eligible : Bool

pub record PlaceRow : Type 0 where
  pub id : String
  pub finding_id : String
  pub place : SourcePlace

pub record EvidenceLink : Type 0 where
  pub finding_id : String
  pub evidence_id : String
  pub role : String

pub record FindingTables : Type 0 where
  pub identities : List FindingIdentity
  pub findings : List Finding
  pub places : List PlaceRow
  pub links : List EvidenceLink

pub data FindingError : Type 0 where
  unique_violated foreign_key_violated : FindingError

-- `deterministicId`
abbrev pub deterministic_id : (String → String) → String → String → String
deterministic_id sha256_hex kind material =
    append kind (append "_" (slice_to 26 (sha256_hex material)))

abbrev pub colon : String → String → String
colon a b = append a (append ":" b)

abbrev pub is_identity_of : String → String → FindingIdentity → Bool
is_identity_of project_id fingerprint i = i.project_id == project_id && i.fingerprint == fingerprint

abbrev pub is_finding_of : String → String → Finding → Bool
is_finding_of audit_id identity_id f = f.audit_id == audit_id && f.identity_id == identity_id

abbrev pub new_identity : String → String → String → NormalizedFinding → FindingIdentity
new_identity id project_id audit_id f = record {
  id = id;
  project_id = project_id;
  fingerprint = f.fingerprint;
  status = "new";
  first_seen_audit_id = audit_id;
  last_seen_audit_id = audit_id;
  occurrences = 0;
  current_severity = f.severity;
}

abbrev pub seen_again : String → NormalizedFinding → FindingIdentity → FindingIdentity
seen_again audit_id f i = record i { last_seen_audit_id = audit_id; current_severity = f.severity }

-- `findingIdentity.upsert`, with the id of the row.
abbrev pub save_identity :
    String
    → String
    → String
    → NormalizedFinding
    → Option FindingIdentity
    → FindingTables
    → Result FindingError (String × FindingTables)
save_identity id project_id audit_id f none db = do
  throw_if (any (λ i. i.id == id) db.identities) unique_violated
  ok (id, record db { identities = db.identities ++ new_identity id project_id audit_id f ∷ [] })
save_identity id project_id audit_id f (some i) db = ok (
  i.id,
  record db { identities = update_where (λ j. j.id == i.id) (seen_again audit_id f) db.identities },
)

abbrev pub new_finding : String → String → String → NormalizedFinding → Finding
new_finding id audit_id identity_id f = record {
  id = id;
  audit_id = audit_id;
  identity_id = identity_id;
  origin = "tool";
  category = f.category;
  rule_id = f.rule_id;
  cwe = f.cwe;
  title = f.title;
  severity = f.severity;
  severity_source = f.severity_source;
  affected_target = f.affected_target;
  description = f.description;
  confidence_band = f.confidence_band;
  ai_generated = false;
  gate_eligible = f.gate_eligible;
}

abbrev pub rated_again : NormalizedFinding → Finding → Finding
rated_again f old = record old {
  severity = f.severity;
  severity_source = f.severity_source;
  description = f.description;
}

-- `finding.upsert`
abbrev pub save_finding :
    String
    → String
    → String
    → NormalizedFinding
    → Option Finding
    → FindingTables
    → Result FindingError FindingTables
save_finding id audit_id identity_id f none db = do
  throw_if (any (λ g. g.id == id) db.findings) unique_violated
  ok (record db { findings = db.findings ++ new_finding id audit_id identity_id f ∷ [] })
save_finding id audit_id identity_id f (some old) db = ok (record db {
  findings = update_where (is_finding_of audit_id identity_id) (rated_again f) db.findings;
})

-- `sourceLocation.upsert`, whose finding has to exist.
abbrev pub save_place :
    String → String → SourcePlace → FindingTables → Result FindingError FindingTables
save_place id finding_id place db = do
  throw_if (not (any (λ g. g.id == finding_id) db.findings)) foreign_key_violated
  let changed = update_where (λ p. p.id == id) (λ p. record p { place = place }) db.places
  let added = db.places ++ record { id = id; finding_id = finding_id; place = place } ∷ []
  ok (record db { places = if any (λ p. p.id == id) db.places then changed else added })

abbrev pub is_link_of : String → String → EvidenceLink → Bool
is_link_of finding_id evidence_id l = l.finding_id == finding_id && l.evidence_id == evidence_id

-- `findingEvidence.upsert`
abbrev pub save_link : String → String → FindingTables → FindingTables
save_link finding_id evidence_id db =
    let changed =
      update_where (is_link_of finding_id evidence_id) (λ l. record l { role = "primary" })
        db.links in
    let added =
      db.links
      ++ record { finding_id = finding_id; evidence_id = evidence_id; role = "primary" } ∷ [] in
    record db {
      links = if any (is_link_of finding_id evidence_id) db.links then changed else added;
    }

abbrev pub counted_once_more : FindingIdentity → FindingIdentity
counted_once_more i = record i { occurrences = suc i.occurrences }

-- `if (!existingOccurrence)`
abbrev pub count_occurrence : Option Finding → String → FindingTables → FindingTables
count_occurrence none identity_id db = record db {
  identities = update_where (λ i. i.id == identity_id) counted_once_more db.identities;
}
count_occurrence (some old) identity_id db = db

-- What follows the identity's row.
abbrev pub persist_occurrence :
    (String → String)
    → String
    → String
    → String
    → NormalizedFinding
    → FindingTables
    → Result FindingError (String × FindingTables)
persist_occurrence sha256_hex audit_id evidence_id identity_id f db = do
  let finding_id = deterministic_id sha256_hex "finding" (colon audit_id identity_id)
  let existing = find (is_finding_of audit_id identity_id) db.findings
  with_finding ← save_finding finding_id audit_id identity_id f existing db
  let place_id =
      deterministic_id sha256_hex "sourceLocation"
        (colon finding_id (colon f.place.file (decimal_from (suc f.place.line) f.place.line)))
  with_place ← save_place place_id finding_id f.place with_finding
  ok (
    finding_id,
    count_occurrence existing identity_id (save_link finding_id evidence_id with_place),
  )

-- `persist`, with the id of the finding.
unfoldable pub persist :
    (String → String)
    → String
    → String
    → String
    → NormalizedFinding
    → FindingTables
    → Result FindingError (String × FindingTables)
persist sha256_hex project_id audit_id evidence_id f db = do
  let new_id = deterministic_id sha256_hex "findingIdentity" (colon project_id f.fingerprint)
  let known = find (is_identity_of project_id f.fingerprint) db.identities
  saved ← save_identity new_id project_id audit_id f known db
  persist_occurrence sha256_hex audit_id evidence_id saved.0 f saved.1
