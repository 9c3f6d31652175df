-- ===== src/Storage.antt =====
-- apps/api/src/storage/s3.service.ts, and how retention/retention-object-store.service.ts finds an object
-- again. The object store is a parameter, and SHA-256 in hexadecimal.
pub mod Artifacts
mod Examples
use Prim.Native.Char.{code}
use Prim.Native.String.{◌++◌ as append}
use text.Mathlib.Text.{starts_with}
use kase_ai.Prelude.{
  ℕ, zero, suc, ◌+◌, String, ◌≡◌, Bool, true, false, not, ◌&&◌, ◌||◌, Option, none, some, List, [],
  ◌∷◌, length, ◌==◌, string_eq, nat_eq, Result, ok, err, ◌>>=◌, ◌>>◌, throw_if, or_throw,
  drop_chars, is_none, if◌then◌else◌,
}
use kase_ai.Scope.HostPattern.{count_chars, take_chars}
use kase_ai.Secrets.{Bytes}

-- `HeadObject`, with the metadata `sha256`.
pub record ObjectHead : Type 0 where
  pub content_length : ℕ
  pub sha256 : Option String

-- S3: `put` writes an object with its metadata, unless the key has one (`IfNoneMatch: '*'`), or fails with
-- a status.
pub record ObjectStore : Type 1 where
  pub State : Type 0
  pub put : String → String → Bytes → String → State → Result ℕ State
  pub head : String → String → State → Option ObjectHead
  pub get : String → String → State → Option Bytes
  pub delete : String → String → State → State

-- What is documented of it: a `put` that succeeds has stored the bytes, and an object's length is that of
-- its bytes.
pub record IsObjectStore (store : ObjectStore) : Type 0 where
  pub stored :
      (bucket key : String) (body : Bytes) (sha256 : String) (s s' : store.State)
      → store.put bucket key body sha256 s ≡ ok s'
      → store.get bucket key s' ≡ some body
  pub measured :
      (bucket key : String) (head : ObjectHead) (s : store.State)
      → store.head bucket key s ≡ some head
      → (body : Bytes) × (store.get bucket key s ≡ some body) × (length body ≡ head.content_length)

pub data StorageError : Type 0 where
  put_failed : ℕ → StorageError
  missing_object unverified foreign_bucket : StorageError
  not_an_s3_uri no_bucket_or_key : StorageError

pub record StoredEvidence : Type 0 where
  pub uri : String
  pub sha256 : String

abbrev pub slash : String → String → String
slash a b = append a (append "/" b)

abbrev pub uri_of : String → String → String
uri_of bucket key = append "s3://" (slash bucket key)

abbrev pub key_of : String → String → String → String
key_of project_id audit_id hash = slash project_id (slash audit_id hash)

-- A status by which the object is there already.
abbrev pub is_there : ℕ → Bool
is_there status = status == 409 || status == 412

abbrev pub written_or_there {ℓ} : {S : Type ℓ} → S → Result ℕ S → Result StorageError S
written_or_there s (ok s') = ok s'
written_or_there s (err status) = if is_there status then ok s else err (put_failed status)

abbrev pub is_given : String → Option String → Bool
is_given hash none = false
is_given hash (some sha256) = sha256 == hash

abbrev pub is_verified : ℕ → String → ObjectHead → Bool
is_verified size hash head =
    not (head.content_length == 0) && head.content_length == size && is_given hash head.sha256

-- `keyFromUri`
abbrev pub key_from_uri : String → String → Result StorageError String
key_from_uri bucket uri =
    let prefix = append "s3://" (append bucket "/") in
    if starts_with uri prefix then ok (drop_chars (count_chars prefix) uri) else err foreign_bucket

abbrev pub next_index : Option ℕ → Option ℕ
next_index none = none
next_index (some i) = some (suc i)

abbrev pub index_of_slash : String → Option ℕ
index_of_slash String.[] = none
index_of_slash (String.◌∷◌ c s) =
    let rest = index_of_slash s in if code c == 47 then some 0 else next_index rest

abbrev pub split_at : String → Option ℕ → Result StorageError (String × String)
split_at rest none = err no_bucket_or_key
split_at rest (some separator) = do
  throw_if (separator == 0 || suc separator == count_chars rest) no_bucket_or_key
  ok (take_chars separator rest, drop_chars (suc separator) rest)

-- `parseS3Uri`, with the bucket and the key.
unfoldable pub parse_s3_uri : String → Result StorageError (String × String)
parse_s3_uri uri = do
  throw_if (not (starts_with uri "s3://")) not_an_s3_uri
  let rest = drop_chars 5 uri
  split_at rest (index_of_slash rest)

module _ (store : ObjectStore) (sha256_hex : Bytes → String) where
  abbrev pub put_once :
      String → String → Bytes → String → store.State → Result StorageError store.State
  put_once bucket key content hash s = written_or_there s (store.put bucket key content hash s)

  -- `uploadEvidence`
  unfoldable pub upload_evidence :
      String
      → String
      → String
      → Bytes
      → store.State
      → Result StorageError (StoredEvidence × store.State)
  upload_evidence bucket project_id audit_id content s = do
    let hash = sha256_hex content
    let key = key_of project_id audit_id hash
    s' ← put_once bucket key content hash s
    head ← or_throw (store.head bucket key s') missing_object
    throw_if (not (is_verified (length content) hash head)) unverified
    ok (record { uri = uri_of bucket key; sha256 = hash }, s')

  -- `downloadEvidence`
  unfoldable pub download_evidence : String → String → store.State → Result StorageError Bytes
  download_evidence bucket uri s = do
    key ← key_from_uri bucket uri
    or_throw (store.get bucket key s) missing_object

  -- `verifyEvidence`
  unfoldable pub verify_evidence :
      String → String → String → ℕ → store.State → Result StorageError (Unit {0})
  verify_evidence bucket uri expected_sha256 expected_size s = do
    key ← key_from_uri bucket uri
    bytes ← or_throw (store.get bucket key s) missing_object
    throw_if
        (length bytes == 0
          || not (length bytes == expected_size)
          || not (sha256_hex bytes == expected_sha256))
        unverified

  -- `deleteArtifact`
  unfoldable pub delete_artifact : String → store.State → Result StorageError store.State
  delete_artifact uri s = do place ← parse_s3_uri uri; ok (store.delete place.0 place.1 s)
