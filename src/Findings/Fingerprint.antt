-- ===== src/Findings/Fingerprint.antt =====
-- The fingerprint of a finding forgets nothing of its parts but by a collision of the hash.
use Prim.Native.Char.{Char, code}
use Prim.Native.String.{◌++◌ as append}
use text.Mathlib.TextLemmas.{nil-append, cons-append}
use kase_ai.Prelude.{
  String, ◌≡◌, ◌≢◌, refl, sym, ap, ◌∙◌, ◌⊎◌, inl, inr, Bool, true, false, not, ◌&&◌, List, [], ◌∷◌,
  arith, ◌==◌, string_eq, nat_eq, length, all, Bool-cases,
}
use kase_ai.Findings.{FingerprintInput, parts_of, join_with, unit_separator, compute_fingerprint}

-- A text without the separator.
abbrev pub is_free : String → Bool
is_free String.[] = true
is_free (String.◌∷◌ c s) = not (code c == 31) && is_free s

abbrev separator : Char
separator = "\u{1f}"

unit_separator-append : (s : String) → append unit_separator s ≡ String.◌∷◌ separator s
unit_separator-append s = cons-append separator "" s ∙ ap (String.◌∷◌ separator) (nil-append s)

cut_apart :
    (p q s t : String)
    → is_free p ≡ true
    → is_free q ≡ true
    → append p (String.◌∷◌ separator s) ≡ append q (String.◌∷◌ separator t)
    → (p ≡ q) × (s ≡ t)
cut_apart String.[] String.[] s t f g e =
    let e' = sym (nil-append (String.◌∷◌ separator s)) ∙ e ∙ nil-append (String.◌∷◌ separator t) in
    (refl, cc)
cut_apart String.[] (String.◌∷◌ d q) s t f g e =
    let e' =
      sym (nil-append (String.◌∷◌ separator s)) ∙ e ∙ cons-append d q (String.◌∷◌ separator t) in
    let same : separator ≡ d = cc in
    let bad : false ≡ true = rw (← same) at g in ground (arith, bad)
cut_apart (String.◌∷◌ c p) String.[] s t f g e =
    let e' =
      sym (cons-append c p (String.◌∷◌ separator s)) ∙ e ∙ nil-append (String.◌∷◌ separator t) in
    let same : c ≡ separator = cc in let bad : false ≡ true = rw same at f in ground (arith, bad)
cut_apart (String.◌∷◌ c p) (String.◌∷◌ d q) s t f g e =
    let e' =
      sym (cons-append c p (String.◌∷◌ separator s))
      ∙ e
      ∙ cons-append d q (String.◌∷◌ separator t) in
    let same : c ≡ d = cc in
    let rest : append p (String.◌∷◌ separator s) ≡ append q (String.◌∷◌ separator t) = cc in
    let (ends, tails) = cut_apart p q s t (ground (arith, f)) (ground (arith, g)) rest in
    (rw (same, ends) refl, tails)

join_with-injective :
    (ps qs : List String)
    → length ps ≡ length qs
    → all is_free ps ≡ true
    → all is_free qs ≡ true
    → join_with unit_separator ps ≡ join_with unit_separator qs
    → ps ≡ qs
join_with-injective [] [] l f g e = refl
join_with-injective [] (q ∷ qs) l f g e = ground (arith, l)
join_with-injective (p ∷ ps) [] l f g e = ground (arith, l)
join_with-injective (p ∷ []) (q ∷ []) l f g e = rw e refl
join_with-injective (p ∷ []) (q ∷ r ∷ qs) l f g e = ground (arith, l)
join_with-injective (p ∷ o ∷ ps) (q ∷ []) l f g e = ground (arith, l)
join_with-injective (p ∷ o ∷ ps) (q ∷ r ∷ qs) l f g e =
    let rest_p = join_with unit_separator (o ∷ ps) in
    let rest_q = join_with unit_separator (r ∷ qs) in
    let e' =
      sym (ap (append p) (unit_separator-append rest_p))
      ∙ e
      ∙ ap (append q) (unit_separator-append rest_q) in
    let (heads, tails) = cut_apart p q rest_p rest_q (ground (arith, f)) (ground (arith, g)) e' in
    let others =
      join_with-injective (o ∷ ps) (r ∷ qs) (ground (arith, l)) (ground (arith, f))
        (ground (arith, g)) tails in
    rw (heads, others) refl

-- Two findings whose parts do not contain the separator and that have one fingerprint agree in all their
-- parts, or their materials are a collision of the hash.
pub fingerprint_tells_apart :
    (sha256_hex : String → String) (a b : FingerprintInput)
    → all is_free (parts_of a) ≡ true
    → all is_free (parts_of b) ≡ true
    → compute_fingerprint sha256_hex a ≡ compute_fingerprint sha256_hex b
    → (parts_of a ≡ parts_of b)
      ⊎ ((m : String) × (n : String) × (m ≢ n) × (sha256_hex m ≡ sha256_hex n))
unfolding compute_fingerprint
fingerprint_tells_apart sha256_hex a b f g e =
    let m = join_with unit_separator (parts_of a) in
    let n = join_with unit_separator (parts_of b) in
    elim (Bool-cases (m == n)) [
      | inl same ↦
          inl (
            join_with-injective (parts_of a) (parts_of b) refl f g ((string_eq.eqb_iff m n).0 same))
      | inr apart ↦ inr (
        m,
        n,
        (λ same. let hit = (string_eq.eqb_iff m n).1 same in ground (arith, apart, hit)),
        e,
      )
    ]
