-- ===== src/Storage/Examples.antt =====
-- The theorem on uploads at an object store that is a list of objects.
use mathlib.Core.Path.{subst}
use kase_ai.Prelude.{
  ℕ, String, ◌≡◌, ◌≢◌, refl, Bool, ◌&&◌, Option, none, some, List, [], ◌∷◌, length, ◌==◌, string_eq,
  Result, ok, err, ok_injective, ap, find, filter, not,
}
use kase_ai.Secrets.{Bytes}
use kase_ai.Storage.{
  ObjectHead, ObjectStore, IsObjectStore, StoredEvidence, key_of, parse_s3_uri, upload_evidence,
  download_evidence, verify_evidence, delete_artifact,
}
use kase_ai.Storage.Artifacts.{uploaded_evidence_found}

record Object : Type 0 where
  bucket : String
  key : String
  body : Bytes
  sha256 : String

abbrev is_at : String → String → Object → Bool
is_at bucket key o = o.bucket == bucket && o.key == key

abbrev body_of : Option Object → Option Bytes
body_of none = none
body_of (some o) = some o.body

abbrev head_of : Option Object → Option ObjectHead
head_of none = none
head_of (some o) = some (record { content_length = length o.body; sha256 = some o.sha256 })

abbrev written : Option Object → Object → List Object → Result ℕ (List Object)
written none o os = ok (o ∷ os)
written (some old) o os = err 412

abbrev objects : ObjectStore
objects = record {
  State = List Object;
  put = λ bucket key body sha256 os.
      written (find (is_at bucket key) os)
        (record { bucket = bucket; key = key; body = body; sha256 = sha256 }) os;
  head = λ bucket key os. head_of (find (is_at bucket key) os);
  get = λ bucket key os. body_of (find (is_at bucket key) os);
  delete = λ bucket key os. filter (λ o. not (is_at bucket key o)) os;
}

written-found :
    (bucket key : String) (body : Bytes) (sha256 : String) (known : Option Object)
    (os os' : List Object)
    → written known (record { bucket = bucket; key = key; body = body; sha256 = sha256 }) os
      ≡ ok os'
    → body_of (find (is_at bucket key) os') ≡ some body
written-found bucket key body sha256 none os os' e =
    let one = (string_eq.eqb_iff bucket bucket).1 refl in
    let other = (string_eq.eqb_iff key key).1 refl in
    let whole : body_of (
          find (is_at bucket key)
            (record { bucket = bucket; key = key; body = body; sha256 = sha256 } ∷ os))
        ≡ some body =
      rw (one, other) refl in
    subst (λ (l : List Object). body_of (find (is_at bucket key) l) ≡ some body) (ok_injective e)
      whole
written-found bucket key body sha256 (some old) os os' e = cc

head_of-body_of :
    (found : Option Object) (head : ObjectHead)
    → head_of found ≡ some head
    → (body : Bytes) × (body_of found ≡ some body) × (length body ≡ head.content_length)
head_of-body_of none head e = cc
head_of-body_of (some o) head e =
    let same : Path ObjectHead (record { content_length = length o.body; sha256 = some o.sha256 })
        head =
      cc in
    (o.body, refl, ap (λ (h : ObjectHead). h.content_length) same)

objects-IsObjectStore : IsObjectStore objects
objects-IsObjectStore = record {
  stored = λ bucket key body sha256 s s' e. written-found bucket key body sha256 _ s s' e;
  measured = λ bucket key head s e. head_of-body_of _ head e;
}

abbrev hash : Bytes → String
hash bytes = "e3b0"

abbrev log : Bytes
log = 104 ∷ 105 ∷ []

abbrev after_upload : List Object
after_upload =
    record { bucket = "evidence"; key = "prj_1/aud_1/e3b0"; body = log; sha256 = "e3b0" } ∷ []

abbrev stored_log : StoredEvidence
stored_log = record { uri = "s3://evidence/prj_1/aud_1/e3b0"; sha256 = "e3b0" }

upload_run :
    upload_evidence objects hash "evidence" "prj_1" "aud_1" log [] ≡ ok (stored_log, after_upload)
unfolding upload_evidence
upload_run = refl

some_name : ◌≢◌ {A = String} "evidence" ""
some_name = λ e. cc

found_example :
    (parse_s3_uri stored_log.uri ≡ ok ("evidence", key_of "prj_1" "aud_1" (hash log)))
    × (download_evidence objects hash "evidence" stored_log.uri after_upload ≡ ok log)
    × (verify_evidence objects hash "evidence" stored_log.uri stored_log.sha256
          (length log)
          after_upload
        ≡ ok tt)
found_example =
    uploaded_evidence_found objects hash "evidence" "prj_1" "aud_1" log stored_log [] after_upload
      after_upload objects-IsObjectStore some_name refl refl upload_run

deletion_run : delete_artifact objects hash "s3://evidence/prj_1/aud_1/e3b0" after_upload ≡ ok []
unfolding delete_artifact parse_s3_uri
deletion_run = refl
