-- ===== src/AuditTrail.antt =====
-- apps/api/src/audit-trail/audit-trail.service.ts: what the audit trail records. `toLowerCase` is a
-- parameter; the differences that callers compute are left out.
pub mod Redaction
mod Examples
use kase_ai.Prelude.{
  ℕ, suc, ◌+◌, String, Bool, true, false, Option, none, some, List, [], ◌∷◌, ◌++◌, contains,
  string_eq, ltb, Result, ok, err, if◌then◌else◌,
}

-- A value of JSON as JavaScript has it; a date is its ISO text, and an object the list of its own
-- properties.
mutual
  pub data Value : Type 0 where
    null undefined : Value
    boolean : Bool → Value
    number : ℕ → Value
    text date : String → Value
    array : Values → Value
    object : Entries → Value

  pub data Values : Type 0 where
    no_values : Values
    value : Value → Values → Values

  pub data Entries : Type 0 where
    no_entries : Entries
    entry : String → Value → Entries → Entries

-- `REDACT_KEYS`
abbrev pub redact_keys : List String
redact_keys =
    "password" ∷ "secret" ∷ "token" ∷ "tokenhash" ∷ "apikey" ∷ "authorization" ∷ "credential"
    ∷ "privatekey" ∷ "clientsecret" ∷ "accesskey" ∷ "secretkey" ∷ []

abbrev pub is_sensitive : (String → String) → String → Bool
is_sensitive to_lower key = contains redact_keys (to_lower key)

abbrev pub max_depth : ℕ
max_depth = 8

abbrev pub truncated : Value
truncated = text "[truncated]"

abbrev pub redacted : Value
redacted = text "[redacted]"

-- `redact`, at a depth.
unfoldable mutual
  pub redact : (String → String) → ℕ → Value → Value
  redact to_lower depth null = null
  redact to_lower depth undefined = undefined
  redact to_lower depth (boolean b) = if ltb max_depth depth then truncated else boolean b
  redact to_lower depth (number n) = if ltb max_depth depth then truncated else number n
  redact to_lower depth (text s) = if ltb max_depth depth then truncated else text s
  redact to_lower depth (date s) = if ltb max_depth depth then truncated else text s
  redact to_lower depth (array vs) =
      let inner = redact_values to_lower (suc depth) vs in
      if ltb max_depth depth then truncated else array inner
  redact to_lower depth (object es) =
      let inner = redact_entries to_lower (suc depth) es in
      if ltb max_depth depth then truncated else object inner

  pub redact_values : (String → String) → ℕ → Values → Values
  redact_values to_lower depth no_values = no_values
  redact_values to_lower depth (value v vs) =
      value (redact to_lower depth v) (redact_values to_lower depth vs)

  pub redact_entries : (String → String) → ℕ → Entries → Entries
  redact_entries to_lower depth no_entries = no_entries
  redact_entries to_lower depth (entry key v es) =
      let inner = redact to_lower depth v in
      entry key (if is_sensitive to_lower key then redacted else inner)
        (redact_entries to_lower depth es)

pub data ActorType : Type 0 where
  user token system : ActorType

pub data Outcome : Type 0 where
  allowed denied error : Outcome

-- `AuditTrailInput`
pub record AuditTrailInput : Type 0 where
  pub project_id : Option String
  pub actor_type : ActorType
  pub actor_id : Option String
  pub action : String
  pub resource_type : Option String
  pub resource_id : Option String
  pub diff : Value
  pub metadata : Value
  pub outcome : Outcome

-- `?? undefined`
abbrev pub or_undefined : Value → Value
or_undefined null = undefined
or_undefined v = v

abbrev pub event_of : (String → String) → AuditTrailInput → AuditTrailInput
event_of to_lower input = record input {
  diff = or_undefined (redact to_lower 0 input.diff);
  metadata = or_undefined (redact to_lower 0 input.metadata);
}

-- `record`: a write that fails is logged, and the request goes on.
abbrev pub record_event :
    (String → String) → Bool → AuditTrailInput → List AuditTrailInput → List AuditTrailInput
record_event to_lower stored input events =
    if stored then events ++ event_of to_lower input ∷ [] else events
