-- ===== src/Projects/Slug.antt =====
-- `slugify` of apps/api/src/projects/projects.service.ts, and the expression that a slug has to match.
-- `toLowerCase` and `normalize('NFKD')` follow the Unicode tables, which are a parameter.
use Prim.Native.Char.{code}
use kase_ai.Prelude.{
  ℕ, zero, suc, ◌≤◌, String, ◌≡◌, refl, inl, inr, Bool, true, false, not, ◌&&◌, ◌||◌, arith, leb,
  ◌==◌, nat_eq, if◌then◌else◌, is_empty_text, Bool-cases,
}
use kase_ai.Scope.HostPattern.{count_chars}

abbrev pub is_slug_char : ℕ → Bool
is_slug_char c = (leb 97 c && leb c 122) || (leb 48 c && leb c 57)

abbrev pub is_dash : ℕ → Bool
is_dash c = c == 45

-- `replace(/[\u0300-\u036f]/g, '')`
abbrev pub strip_marks : String → String
strip_marks String.[] = ""
strip_marks (String.◌∷◌ c s) =
    let rest = strip_marks s in
    if leb 768 (code c) && leb (code c) 879 then rest else String.◌∷◌ c rest

-- `replace(/[^a-z0-9]+/g, '-')`, after a dash or not.
abbrev pub dash_runs : Bool → String → String
dash_runs dashed String.[] = ""
dash_runs dashed (String.◌∷◌ c s) =
    let after_char = dash_runs false s in
    let after_dash = dash_runs true s in
    if is_slug_char (code c)
    then String.◌∷◌ c after_char
    else if dashed
    then after_dash
    else String.◌∷◌ "-" after_dash

abbrev pub strip_leading : String → String
strip_leading String.[] = ""
strip_leading (String.◌∷◌ c s) =
    let rest = strip_leading s in if is_dash (code c) then rest else String.◌∷◌ c s

abbrev pub strip_trailing : String → String
strip_trailing String.[] = ""
strip_trailing (String.◌∷◌ c s) =
    let rest = strip_trailing s in
    if is_empty_text rest && is_dash (code c) then "" else String.◌∷◌ c rest

-- `slice(0, n)`
abbrev pub slice_to : ℕ → String → String
slice_to zero s = ""
slice_to (suc n) String.[] = ""
slice_to (suc n) (String.◌∷◌ c s) = String.◌∷◌ c (slice_to n s)

unfoldable pub slugify : (String → String) → String → String
slugify fold name =
    strip_trailing
      (slice_to 120 (strip_trailing (strip_leading (dash_runs false (strip_marks (fold name))))))

-- `SLUG_RE`, after a character of a word or not.
abbrev pub slug_from : Bool → String → Bool
slug_from word String.[] = word
slug_from word (String.◌∷◌ c s) =
    let next = slug_from true s in
    let dashed = slug_from false s in
    if is_slug_char (code c) then next else is_dash (code c) && word && dashed

abbrev pub is_slug : String → Bool
is_slug s = slug_from false s

-- Words with single dashes between them, after a dash or not.
abbrev single : Bool → String → Bool
single dashed String.[] = true
single dashed (String.◌∷◌ c s) =
    let word = single false s in
    let dash = single true s in
    if is_slug_char (code c) then word else is_dash (code c) && not dashed && dash

single-dash_runs : (dashed : Bool) (s : String) → single dashed (dash_runs dashed s) ≡ true
single-dash_runs dashed String.[] = refl
single-dash_runs dashed (String.◌∷◌ c s) =
    ground (arith, single-dash_runs false s, single-dash_runs true s)

single-strip_leading :
    (dashed : Bool) (s : String) → single dashed s ≡ true → single true (strip_leading s) ≡ true
single-strip_leading dashed String.[] h = refl
single-strip_leading dashed (String.◌∷◌ c s) h = ground (arith, single-strip_leading true s)

single-strip_trailing :
    (dashed : Bool) (s : String) → single dashed s ≡ true → single dashed (strip_trailing s) ≡ true
single-strip_trailing dashed String.[] h = refl
single-strip_trailing dashed (String.◌∷◌ c s) h =
    elim (Bool-cases (is_empty_text (strip_trailing s) && is_dash (code c))) [
      | inl cut ↦ rw cut refl
      | inr kept ↦
          rw kept (ground (arith, single-strip_trailing false s, single-strip_trailing true s))
    ]

single-slice_to :
    (n : ℕ) (dashed : Bool) (s : String)
    → single dashed s ≡ true
    → single dashed (slice_to n s) ≡ true
single-slice_to zero dashed s h = refl
single-slice_to (suc n) dashed String.[] h = refl
single-slice_to (suc n) dashed (String.◌∷◌ c s) h =
    ground (arith, single-slice_to n false s, single-slice_to n true s)

is_empty_text-eq : (s : String) → is_empty_text s ≡ true → s ≡ ""
is_empty_text-eq String.[] h = refl
is_empty_text-eq (String.◌∷◌ c s) h = cc

slug_from-strip_trailing :
    (dashed : Bool) (s : String)
    → single dashed s ≡ true
    → (is_empty_text (strip_trailing s) || slug_from (not dashed) (strip_trailing s)) ≡ true
slug_from-strip_trailing dashed String.[] h = refl
slug_from-strip_trailing dashed (String.◌∷◌ c s) h =
    elim (Bool-cases (is_empty_text (strip_trailing s))) [
      | inl empty ↦
          let nothing = is_empty_text-eq (strip_trailing s) empty in
          rw (empty, nothing) (ground (arith, h))
      | inr some_text ↦ rw some_text (
          ground
            (arith, some_text, slug_from-strip_trailing false s, slug_from-strip_trailing true s))
    ]

count_chars-strip_trailing : (s : String) → count_chars (strip_trailing s) ≤ count_chars s
count_chars-strip_trailing String.[] = omega arith
count_chars-strip_trailing (String.◌∷◌ c s) = ground (arith, count_chars-strip_trailing s)

count_chars-slice_to : (n : ℕ) (s : String) → count_chars (slice_to n s) ≤ n
count_chars-slice_to zero s = omega arith
count_chars-slice_to (suc n) String.[] = omega arith
count_chars-slice_to (suc n) (String.◌∷◌ c s) = omega (arith, count_chars-slice_to n s)

-- Whatever a project's name, the slug that is derived from it is empty, for which the creation is
-- refused, or one that the expression for slugs matches; and it has at most 120 characters.
pub slugify_shape :
    (fold : String → String) (name : String)
    → ((is_empty_text (slugify fold name) || is_slug (slugify fold name)) ≡ true)
      × (count_chars (slugify fold name) ≤ 120)
unfolding slugify
slugify_shape fold name =
    let dashed = dash_runs false (strip_marks (fold name)) in
    let inner = strip_trailing (strip_leading dashed) in
    let cut = slice_to 120 inner in
    (
      slug_from-strip_trailing true cut (
          single-slice_to 120 true inner (
            single-strip_trailing true (strip_leading dashed) (
              single-strip_leading false dashed
                (single-dash_runs false (strip_marks (fold name)))))),
      omega (arith, count_chars-strip_trailing cut, count_chars-slice_to 120 inner),
    )
