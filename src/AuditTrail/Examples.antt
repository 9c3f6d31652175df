-- ===== src/AuditTrail/Examples.antt =====
-- The theorem on the redaction at metadata with a token in it.
use kase_ai.Prelude.{◌≤◌, String, ◌≡◌, refl, true}
use kase_ai.AuditTrail.{
  Value, text, date, array, object, no_values, value, no_entries, entry, redact,
}
use kase_ai.AuditTrail.Redaction.{is_clean, nesting, redact-is_clean}

abbrev same_text : String → String
same_text s = s

abbrev metadata : Value
metadata = object (
    entry "host" (text "shop.test") (
      entry "headers" (array (value (object (entry "token" (text "s3cr3t") no_entries)) no_values))
        (entry "at" (date "2026-01-01T00:00:00.000Z") no_entries)))

redacted_run :
    redact same_text 0 metadata
    ≡ object (
        entry "host" (text "shop.test") (
          entry "headers"
            (array (value (object (entry "token" (text "[redacted]") no_entries)) no_values))
            (entry "at" (text "2026-01-01T00:00:00.000Z") no_entries)))
unfolding redact
redacted_run = refl

redaction_example :
    (is_clean same_text (redact same_text 0 metadata) ≡ true)
    × (nesting (redact same_text 0 metadata) ≤ 9)
    × (redact same_text 0 (redact same_text 0 metadata) ≡ redact same_text 0 metadata)
redaction_example = redact-is_clean same_text metadata
