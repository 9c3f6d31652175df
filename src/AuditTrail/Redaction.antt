-- ===== src/AuditTrail/Redaction.antt =====
-- What the redaction promises: no value under a sensitive key, a bounded nesting, and that a recorded value
-- is recorded again as it is.
use kase_ai.Prelude.{
  ℕ, suc, ◌-◌, ◌≤◌, String, ◌≡◌, refl, ap, inl, inr, Bool, true, false, not, ◌&&◌, ◌||◌, max, arith,
  ◌==◌, string_eq, ltb, Bool-cases,
}
use kase_ai.AuditTrail.{
  Value, Values, Entries, null, undefined, boolean, number, text, date, array, object, no_values,
  value, no_entries, entry, is_sensitive, max_depth, redacted, redact, redact_values,
  redact_entries,
}

abbrev pub is_marker : Value → Bool
is_marker (text s) = s == "[redacted]"
is_marker _ = false

-- Nothing but the marker stands under a sensitive key.
abbrev mutual
  pub is_clean : (String → String) → Value → Bool
  is_clean to_lower (array vs) = are_clean to_lower vs
  is_clean to_lower (object es) = are_clean_entries to_lower es
  is_clean to_lower _ = true

  pub are_clean : (String → String) → Values → Bool
  are_clean to_lower no_values = true
  are_clean to_lower (value v vs) = is_clean to_lower v && are_clean to_lower vs

  pub are_clean_entries : (String → String) → Entries → Bool
  are_clean_entries to_lower no_entries = true
  are_clean_entries to_lower (entry key v es) =
      (not (is_sensitive to_lower key) || is_marker v)
      && is_clean to_lower v
      && are_clean_entries to_lower es

-- How deep arrays and objects stand in one another.
abbrev mutual
  pub nesting : Value → ℕ
  nesting (array vs) = suc (nesting_values vs)
  nesting (object es) = suc (nesting_entries es)
  nesting _ = 0

  pub nesting_values : Values → ℕ
  nesting_values no_values = 0
  nesting_values (value v vs) = max (nesting v) (nesting_values vs)

  pub nesting_entries : Entries → ℕ
  nesting_entries no_entries = 0
  nesting_entries (entry key v es) = max (nesting v) (nesting_entries es)

mutual
  unfolding redact

  redact-clean : (l : String → String) (d : ℕ) (v : Value) → is_clean l (redact l d v) ≡ true
  redact-clean l d null = refl
  redact-clean l d undefined = refl
  redact-clean l d (boolean b) = ground arith
  redact-clean l d (number n) = ground arith
  redact-clean l d (text s) = ground arith
  redact-clean l d (date s) = ground arith
  redact-clean l d (array vs) = elim (Bool-cases (ltb max_depth d)) [
    | inl cut ↦ rw cut refl
    | inr kept ↦ rw kept (redact_values-clean l (suc d) vs)
  ]
  redact-clean l d (object es) = elim (Bool-cases (ltb max_depth d)) [
    | inl cut ↦ rw cut refl
    | inr kept ↦ rw kept (redact_entries-clean l (suc d) es)
  ]

  redact_values-clean :
      (l : String → String) (d : ℕ) (vs : Values) → are_clean l (redact_values l d vs) ≡ true
  redact_values-clean l d no_values = refl
  redact_values-clean l d (value v vs) = rw (redact-clean l d v) (redact_values-clean l d vs)

  redact_entries-clean :
      (l : String → String) (d : ℕ) (es : Entries)
      → are_clean_entries l (redact_entries l d es) ≡ true
  redact_entries-clean l d no_entries = refl
  redact_entries-clean l d (entry key v es) = elim (Bool-cases (is_sensitive l key)) [
    | inl hidden ↦ rw hidden (redact_entries-clean l d es)
    | inr shown ↦ rw (shown, redact-clean l d v) (redact_entries-clean l d es)
  ]

one_deeper : (d n : ℕ) → ltb max_depth d ≡ false → n ≤ 9 - suc d → suc n ≤ 9 - d
one_deeper d n kept h = ground (arith, kept, h)

mutual
  unfolding redact

  redact-nesting : (l : String → String) (d : ℕ) (v : Value) → nesting (redact l d v) ≤ 9 - d
  redact-nesting l d null = omega arith
  redact-nesting l d undefined = omega arith
  redact-nesting l d (boolean b) = ground arith
  redact-nesting l d (number n) = ground arith
  redact-nesting l d (text s) = ground arith
  redact-nesting l d (date s) = ground arith
  redact-nesting l d (array vs) = elim (Bool-cases (ltb max_depth d)) [
    | inl cut ↦ rw cut (omega arith)
    | inr kept ↦
        let inner = redact_values-nesting l (suc d) vs in rw kept (one_deeper d _ kept inner)
  ]
  redact-nesting l d (object es) = elim (Bool-cases (ltb max_depth d)) [
    | inl cut ↦ rw cut (omega arith)
    | inr kept ↦
        let inner = redact_entries-nesting l (suc d) es in rw kept (one_deeper d _ kept inner)
  ]

  redact_values-nesting :
      (l : String → String) (d : ℕ) (vs : Values) → nesting_values (redact_values l d vs) ≤ 9 - d
  redact_values-nesting l d no_values = omega arith
  redact_values-nesting l d (value v vs) =
      omega (arith, redact-nesting l d v, redact_values-nesting l d vs)

  redact_entries-nesting :
      (l : String → String) (d : ℕ) (es : Entries) → nesting_entries (redact_entries l d es) ≤ 9 - d
  redact_entries-nesting l d no_entries = omega arith
  redact_entries-nesting l d (entry key v es) = elim (Bool-cases (is_sensitive l key)) [
    | inl hidden ↦ rw hidden (omega (arith, redact_entries-nesting l d es))
    | inr shown ↦ rw shown (omega (arith, redact-nesting l d v, redact_entries-nesting l d es))
  ]

mutual
  unfolding redact

  redact-again :
      (l : String → String) (d : ℕ) (v : Value) → redact l d (redact l d v) ≡ redact l d v
  redact-again l d null = refl
  redact-again l d undefined = refl
  redact-again l d (boolean b) = elim (Bool-cases (ltb max_depth d)) [
    | inl cut ↦ rw cut (rw cut refl)
    | inr kept ↦ rw kept (rw kept refl)
  ]
  redact-again l d (number n) = elim (Bool-cases (ltb max_depth d)) [
    | inl cut ↦ rw cut (rw cut refl)
    | inr kept ↦ rw kept (rw kept refl)
  ]
  redact-again l d (text s) = elim (Bool-cases (ltb max_depth d)) [
    | inl cut ↦ rw cut (rw cut refl)
    | inr kept ↦ rw kept (rw kept refl)
  ]
  redact-again l d (date s) = elim (Bool-cases (ltb max_depth d)) [
    | inl cut ↦ rw cut (rw cut refl)
    | inr kept ↦ rw kept (rw kept refl)
  ]
  redact-again l d (array vs) = elim (Bool-cases (ltb max_depth d)) [
    | inl cut ↦ rw cut (rw cut refl)
    | inr kept ↦ rw kept (rw kept (ap array (redact_values-again l (suc d) vs)))
  ]
  redact-again l d (object es) = elim (Bool-cases (ltb max_depth d)) [
    | inl cut ↦ rw cut (rw cut refl)
    | inr kept ↦ rw kept (rw kept (ap object (redact_entries-again l (suc d) es)))
  ]

  redact_values-again :
      (l : String → String) (d : ℕ) (vs : Values)
      → redact_values l d (redact_values l d vs) ≡ redact_values l d vs
  redact_values-again l d no_values = refl
  redact_values-again l d (value v vs) = rw (redact-again l d v, redact_values-again l d vs) refl

  redact_entries-again :
      (l : String → String) (d : ℕ) (es : Entries)
      → redact_entries l d (redact_entries l d es) ≡ redact_entries l d es
  redact_entries-again l d no_entries = refl
  redact_entries-again l d (entry key v es) = elim (Bool-cases (is_sensitive l key)) [
    | inl hidden ↦ rw hidden (ap (entry key redacted) (redact_entries-again l d es))
    | inr shown ↦ rw (shown, redact-again l d v, redact_entries-again l d es) refl
  ]

-- Whatever value is recorded, in its redacted form only the marker stands under a sensitive key, however
-- deep, arrays and objects stand in one another at most nine deep, and its redaction is that form again.
pub redact-is_clean :
    (to_lower : String → String) (v : Value)
    → (is_clean to_lower (redact to_lower 0 v) ≡ true)
      × (nesting (redact to_lower 0 v) ≤ 9)
      × (redact to_lower 0 (redact to_lower 0 v) ≡ redact to_lower 0 v)
redact-is_clean to_lower v =
    (redact-clean to_lower 0 v, redact-nesting to_lower 0 v, redact-again to_lower 0 v)
