-- ===== src/Storage/Artifacts.antt =====
-- Evidence that is uploaded is found again by its URI: by the download, by the verification and by the
-- deletion, which reads the bucket from the URI.
use Prim.Native.Char.{code}
use Prim.Native.String.{◌++◌ as append}
use text.Mathlib.Text.{starts_with}
use text.Mathlib.TextEquality.{starts_with_iff}
use text.Mathlib.TextLemmas.{nil-append, cons-append, append_assoc, prefix-append}
use mathlib.Core.Path.{subst}
use kase_ai.Prelude.{
  ℕ, suc, ◌+◌, String, ◌≡◌, ◌≢◌, refl, sym, ap, ◌∙◌, inl, inr, true, false, not, ◌||◌, Option, none,
  some, length, arith, ◌==◌, string_eq, nat_eq, ok, ok_injective, >>=-eq-ok, throw_if,
  throw_if-eq-ok, or_throw, Bool-cases, drop_chars,
}
use kase_ai.Scope.HostPattern.{count_chars, take_chars}
use kase_ai.Secrets.{Bytes}
use kase_ai.Storage.{
  ObjectStore, IsObjectStore, StoredEvidence, slash, uri_of, key_of, is_verified, key_from_uri,
  next_index, index_of_slash, split_at, parse_s3_uri, missing_object, unverified, upload_evidence,
  download_evidence, verify_evidence,
}

drop_chars-append : (p s : String) → drop_chars (count_chars p) (append p s) ≡ s
drop_chars-append String.[] s = nil-append s
drop_chars-append (String.◌∷◌ c p) s = rw (cons-append c p s) (drop_chars-append p s)

take_chars-append : (p s : String) → take_chars (count_chars p) (append p s) ≡ p
take_chars-append String.[] s = refl
take_chars-append (String.◌∷◌ c p) s =
    rw (cons-append c p s) (ap (String.◌∷◌ c) (take_chars-append p s))

count_chars-append : (p s : String) → count_chars (append p s) ≡ count_chars p + count_chars s
count_chars-append String.[] s = rw (nil-append s) (omega arith)
count_chars-append (String.◌∷◌ c p) s =
    let rest = count_chars-append p s in rw (cons-append c p s) (omega (arith, rest))

starts_with-append : (p s : String) → starts_with (append p s) p ≡ true
starts_with-append p s = (starts_with_iff (append p s) p).1 (prefix-append p s)

slash-eq : (a b : String) → slash a b ≡ append a (String.◌∷◌ "/" b)
slash-eq a b = ap (append a) (cons-append "/" "" b ∙ ap (String.◌∷◌ "/") (nil-append b))

next_index-eq-none : (o : Option ℕ) → next_index o ≡ none → o ≡ none
next_index-eq-none none h = refl
next_index-eq-none (some i) h = cc

-- The bucket of a URI ends where its first slash stands.
index_of_slash-append :
    (b s : String)
    → index_of_slash b ≡ none
    → index_of_slash (append b (String.◌∷◌ "/" s)) ≡ some (count_chars b)
index_of_slash-append String.[] s h = rw (nil-append (String.◌∷◌ "/" s)) refl
index_of_slash-append (String.◌∷◌ c b) s h = elim (Bool-cases (code c == 47)) [
  | inl hit ↦ let bad : Path (Option ℕ) (some 0) none = rw hit at h in cc
  | inr miss ↦
      let later =
        index_of_slash-append b s (next_index-eq-none (index_of_slash b) (rw miss at h)) in
      rw (cons-append c b (String.◌∷◌ "/" s), miss, later) refl
]

drop_chars_after-append :
    (b s : String) → drop_chars (suc (count_chars b)) (append b (String.◌∷◌ "/" s)) ≡ s
drop_chars_after-append String.[] s = rw (nil-append (String.◌∷◌ "/" s)) refl
drop_chars_after-append (String.◌∷◌ c b) s =
    rw (cons-append c b (String.◌∷◌ "/" s)) (drop_chars_after-append b s)

count_chars-ne-zero : (s : String) → s ≢ "" → count_chars s ≢ 0
count_chars-ne-zero String.[] h = elim (h refl) [ ]
count_chars-ne-zero (String.◌∷◌ c s) h = λ e. ground (arith, e)

split_at-append :
    (bucket key : String)
    → bucket ≢ ""
    → key ≢ ""
    → split_at (append bucket (String.◌∷◌ "/" key)) (some (count_chars bucket)) ≡ ok (bucket, key)
split_at-append bucket key some_bucket some_key =
    let whole = count_chars-append bucket (String.◌∷◌ "/" key) in
    let one = count_chars-ne-zero bucket some_bucket in
    let other = count_chars-ne-zero key some_key in
    let inside : (count_chars bucket == 0
          || suc (count_chars bucket) == count_chars (append bucket (String.◌∷◌ "/" key)))
        ≡ false =
      ground (
        arith,
        whole,
        one,
        other,
        nat_eq.eqb_iff (count_chars bucket) 0,
        nat_eq.eqb_iff (suc (count_chars bucket))
            (count_chars (append bucket (String.◌∷◌ "/" key))),
      ) in
    rw (inside, take_chars-append bucket (String.◌∷◌ "/" key), drop_chars_after-append bucket key)
      refl

parse_s3_uri-uri_of :
    (bucket key : String)
    → bucket ≢ ""
    → index_of_slash bucket ≡ none
    → key ≢ ""
    → parse_s3_uri (uri_of bucket key) ≡ ok (bucket, key)
unfolding parse_s3_uri
parse_s3_uri-uri_of bucket key some_bucket one_label some_key =
    let rest : drop_chars 5 (uri_of bucket key) ≡ append bucket (String.◌∷◌ "/" key) =
      drop_chars-append "s3://" (slash bucket key) ∙ slash-eq bucket key in
    rw
      (
        starts_with-append "s3://" (slash bucket key),
        rest,
        index_of_slash-append bucket key one_label,
      )
      (split_at-append bucket key some_bucket some_key)

uri_of-eq :
    (bucket key : String) → uri_of bucket key ≡ append (append "s3://" (append bucket "/")) key
uri_of-eq bucket key =
    ap (append "s3://") (sym (append_assoc bucket "/" key))
    ∙ sym (append_assoc "s3://" (append bucket "/") key)

key_from_uri-uri_of : (bucket key : String) → key_from_uri bucket (uri_of bucket key) ≡ ok key
key_from_uri-uri_of bucket key =
    let prefix = append "s3://" (append bucket "/") in
    subst (λ u. key_from_uri bucket u ≡ ok key) (sym (uri_of-eq bucket key))
      (rw (starts_with-append prefix key, drop_chars-append prefix key) refl)

key_of-ne-empty : (project_id audit_id hash : String) → key_of project_id audit_id hash ≢ ""
key_of-ne-empty project_id audit_id hash e =
    let whole = ap count_chars (sym (slash-eq project_id (slash audit_id hash)) ∙ e) in
    let long = count_chars-append project_id (String.◌∷◌ "/" (slash audit_id hash)) in
    ground (arith, whole, long)

module _ (store : ObjectStore) (sha256_hex : Bytes → String) where
  -- An upload that wrote its object: its URI names the configured bucket and the object's key, and under
  -- it the download has the content, which the verification accepts. The bucket has a name without a slash.
  pub uploaded_evidence_found :
      (bucket project_id audit_id : String) (content : Bytes) (evidence : StoredEvidence)
      (s written s' : store.State)
      → IsObjectStore store
      → bucket ≢ ""
      → index_of_slash bucket ≡ none
      → store.put bucket
          (key_of project_id audit_id (sha256_hex content))
          content
          (sha256_hex content)
          s
        ≡ ok written
      → upload_evidence store sha256_hex bucket project_id audit_id content s ≡ ok (evidence, s')
      → (parse_s3_uri evidence.uri ≡ ok (bucket, key_of project_id audit_id (sha256_hex content)))
        × (download_evidence store sha256_hex bucket evidence.uri s' ≡ ok content)
        × (verify_evidence store sha256_hex bucket evidence.uri evidence.sha256 (length content) s'
            ≡ ok tt)
  unfolding upload_evidence download_evidence verify_evidence
  uploaded_evidence_found bucket project_id audit_id content evidence s written s' sound some_bucket
        one_label put e =
      let hash = sha256_hex content in
      let key = key_of project_id audit_id hash in
      let e₁ = rw put at e in
      let (head, _, e₂) =
        >>=-eq-ok (or_throw (store.head bucket key written) missing_object) _ e₁ in
      let (_, passed, e₃) =
        >>=-eq-ok (throw_if (not (is_verified (length content) hash head)) unverified) _ e₂ in
      let verified = throw_if-eq-ok _ _ passed in
      let out = ok_injective e₃ in
      let accepted : (length content == 0
            || not (length content == length content)
            || not (hash == hash))
          ≡ false =
        ground (
          arith,
          verified,
          string_eq.eqb_iff hash hash,
          nat_eq.eqb_iff (length content) (length content),
          nat_eq.eqb_iff (length content) 0,
          nat_eq.eqb_iff head.content_length (length content),
          nat_eq.eqb_iff head.content_length 0,
        ) in
      subst
        (λ (r : StoredEvidence × store.State).
          (parse_s3_uri r.0.uri ≡ ok (bucket, key))
          × (download_evidence store sha256_hex bucket r.0.uri r.1 ≡ ok content)
          × (verify_evidence store sha256_hex bucket r.0.uri r.0.sha256 (length content) r.1
              ≡ ok tt))
        out
        (
          parse_s3_uri-uri_of bucket key some_bucket one_label
              (key_of-ne-empty project_id audit_id hash),
          rw (key_from_uri-uri_of bucket key, sound.stored bucket key content hash s written put)
              refl,
          rw
              (
                key_from_uri-uri_of bucket key,
                sound.stored bucket key content hash s written put,
                accepted,
              )
              refl,
        )
