-- ===== src/Secrets/Service.antt =====
-- apps/api/src/secrets/secrets.service.ts: secrets and their versions. The ids, the random draws and the
-- time are arguments.
use Prim.Native.String.{◌++◌ as append}
use kase_ai.Prelude.{
  ℕ, zero, suc, ◌+◌, ◌/◌, ◌%◌, String, Bool, true, not, ◌&&◌, ◌||◌, Option, none, some, List, [],
  ◌∷◌, ◌++◌, map, ◌==◌, string_eq, nat_eq, Result, ok, err, ◌>>=◌, ◌>>◌, throw_if, or_throw, find,
  filter, any, count_where, contains, get_or, is_some, is_none, update_where, ltb, drop_chars,
  if◌then◌else◌,
}
use kase_ai.Projects.{Actor}
use kase_ai.Projects.Slug.{slice_to}
use kase_ai.Secrets.{
  Platform, CryptoError, KeyEncryptionProvider, EncryptedEnvelope, Draws, encrypt, decrypt,
}

pub record SecretRow : Type 0 where
  pub id : String
  pub project_id : String
  pub name : String
  pub kind : String
  pub current_version : ℕ
  pub created_by : String
  pub created_at : ℕ
  pub updated_at : ℕ
  pub revoked_at : Option ℕ

pub record SecretVersion : Type 0 where
  pub id : String
  pub secret_id : String
  pub version : ℕ
  pub value : EncryptedEnvelope
  pub created_by : String

-- What `recordLifecycle` writes.
pub record LifecycleRow : Type 0 where
  pub action : String
  pub project_id : String
  pub secret_id : String
  pub actor_id : Option String
  pub version : ℕ

-- Of the projects only the ids.
pub record SecretTables : Type 0 where
  pub projects : List String
  pub secrets : List SecretRow
  pub versions : List SecretVersion
  pub trail : List LifecycleRow

-- The last three are thrown by the database and by the decryption.
pub data SecretError : Type 0 where
  not_found conflict validation_failed unique_violated foreign_key_violated : SecretError
  undecipherable : CryptoError → SecretError

-- `SecretView`
pub record SecretView : Type 0 where
  pub id : String
  pub name : String
  pub kind : String
  pub current_version : ℕ
  pub created_by : String
  pub created_at : ℕ
  pub updated_at : ℕ
  pub revoked_at : Option ℕ

-- `CreateSecretDto`
pub record CreateSecret : Type 0 where
  pub name : String
  pub kind : String
  pub value : String

-- `toView`
abbrev pub to_view : SecretRow → SecretView
to_view s = record {
  id = s.id;
  name = s.name;
  kind = s.kind;
  current_version = s.current_version;
  created_by = s.created_by;
  created_at = s.created_at;
  updated_at = s.updated_at;
  revoked_at = s.revoked_at;
}

-- A number in decimal digits, on fuel.
abbrev pub decimal_from : ℕ → ℕ → String
decimal_from zero n = ""
decimal_from (suc fuel) n =
    let rest = decimal_from fuel (n / 10) in
    let digit = slice_to 1 (drop_chars (n % 10) "0123456789") in
    if ltb n 10 then digit else append rest digit

-- `contextFor`
abbrev pub context_for : String → ℕ → String
context_for secret_id version =
    append "kase:secret:" (append secret_id (append ":v" (decimal_from (suc version) version)))

-- `versionData`
abbrev pub version_data : String → String → ℕ → Actor → EncryptedEnvelope → SecretVersion
version_data id secret_id version actor value = record {
  id = id;
  secret_id = secret_id;
  version = version;
  value = value;
  created_by = get_or actor.id "unknown";
}

-- `recordLifecycle`
abbrev pub record_lifecycle : String → String → String → Actor → ℕ → SecretTables → SecretTables
record_lifecycle action project_id secret_id actor version db = record db {
  trail =
      db.trail
      ++ record {
        action = action;
        project_id = project_id;
        secret_id = secret_id;
        actor_id = actor.id;
        version = version;
      }
        ∷ [];
}

abbrev pub new_secret : String → String → CreateSecret → Actor → ℕ → SecretRow
new_secret id project_id dto actor now = record {
  id = id;
  project_id = project_id;
  name = dto.name;
  kind = dto.kind;
  current_version = 1;
  created_by = get_or actor.id "unknown";
  created_at = now;
  updated_at = now;
  revoked_at = none;
}

-- The unique keys of the two tables.
abbrev pub is_same_secret : SecretRow → SecretRow → Bool
is_same_secret new s = s.id == new.id || s.project_id == new.project_id && s.name == new.name

abbrev pub is_same_version : SecretVersion → SecretVersion → Bool
is_same_version new v = v.id == new.id || v.secret_id == new.secret_id && v.version == new.version

abbrev pub find_secret : String → String → SecretTables → Option SecretRow
find_secret project_id id db = find (λ s. s.id == id && s.project_id == project_id) db.secrets

-- The row that a rotation claims, as it was read.
abbrev pub is_current : String → String → ℕ → SecretRow → Bool
is_current project_id id version s =
    s.id == id && s.project_id == project_id && s.current_version == version && is_none s.revoked_at

abbrev pub rotated_row : ℕ → ℕ → SecretRow → SecretRow
rotated_row version now s = record s { current_version = version; updated_at = now }

abbrev pub revoked_row : ℕ → SecretRow → SecretRow
revoked_row now s = record s { revoked_at = some now; updated_at = now }

abbrev pub is_live : String → String → SecretRow → Bool
is_live project_id id s = s.id == id && s.project_id == project_id && is_none s.revoked_at

abbrev pub is_frozen : Option ℕ → ℕ → Bool
is_frozen none version = true
is_frozen (some frozen) version = version == frozen

abbrev pub is_wanted : String → Option ℕ → SecretVersion → Bool
is_wanted secret_id frozen v = v.secret_id == secret_id && is_frozen frozen v.version

abbrev pub higher_of : SecretVersion → Option SecretVersion → SecretVersion
higher_of v none = v
higher_of v (some w) = if ltb v.version w.version then w else v

-- `orderBy: { version: 'desc' }, take: 1`
abbrev pub highest : List SecretVersion → Option SecretVersion
highest [] = none
highest (v ∷ vs) = some (higher_of v (highest vs))

-- `orderBy: { createdAt: 'desc' }`
abbrev pub insert_newest : SecretRow → List SecretRow → List SecretRow
insert_newest s [] = s ∷ []
insert_newest s (t ∷ ts) =
    let rest = insert_newest s ts in if ltb s.created_at t.created_at then t ∷ rest else s ∷ t ∷ ts

abbrev pub newest_first : List SecretRow → List SecretRow
newest_first [] = []
newest_first (s ∷ ss) = insert_newest s (newest_first ss)

-- `list`
unfoldable pub list_secrets : String → SecretTables → List SecretView
list_secrets project_id db =
    map to_view (newest_first (filter (λ s. s.project_id == project_id) db.secrets))

abbrev pub deciphered : Result CryptoError String → Result SecretError String
deciphered (ok text) = ok text
deciphered (err e) = err (undecipherable e)

-- `assertUsable`
unfoldable pub assert_usable : String → String → SecretTables → Result SecretError (Unit {0})
assert_usable project_id id db =
    throw_if (not (count_where (is_live project_id id) db.secrets == 1)) validation_failed

-- `revoke`
unfoldable pub revoke_secret :
    String → String → Actor → ℕ → SecretTables → Result SecretError SecretTables
revoke_secret project_id id actor now db = do
  existing ← or_throw (find_secret project_id id db) not_found
  let revoked =
      record_lifecycle "secret.revoke" project_id id actor existing.current_version
        (record db { secrets = update_where (λ s. s.id == id) (revoked_row now) db.secrets })
  ok (if is_some existing.revoked_at then db else revoked)

module _ (node : Platform) (keys : KeyEncryptionProvider) where
  -- `create`
  unfoldable pub create_secret :
      String
      → String
      → Draws
      → String
      → CreateSecret
      → Actor
      → ℕ
      → SecretTables
      → Result SecretError (SecretView × SecretTables)
  create_secret id version_id draws project_id dto actor now db = do
    let envelope = encrypt node keys draws dto.value (context_for id 1)
    let secret = new_secret id project_id dto actor now
    let version = version_data version_id id 1 actor envelope
    throw_if (any (is_same_secret secret) db.secrets || any (is_same_version version) db.versions)
        conflict
    throw_if (not (contains db.projects project_id)) foreign_key_violated
    ok (
      to_view secret,
      record_lifecycle "secret.create" project_id id actor 1 (record db {
        secrets = db.secrets ++ secret ∷ [];
        versions = db.versions ++ version ∷ [];
      }),
    )

  -- `rotate` from the encryption on: `read` is the version of the row that was read before.
  unfoldable pub claim_rotation :
      String
      → Draws
      → String
      → String
      → ℕ
      → String
      → Actor
      → ℕ
      → SecretTables
      → Result SecretError (SecretView × SecretTables)
  claim_rotation version_id draws project_id id read value actor now db = do
    let next = read + 1
    let version =
        version_data version_id id next actor (encrypt node keys draws value (context_for id next))
    throw_if (not (count_where (is_current project_id id read) db.secrets == 1)) conflict
    throw_if (any (is_same_version version) db.versions) unique_violated
    let secrets = update_where (is_current project_id id read) (rotated_row next now) db.secrets
    updated ← or_throw (find (λ s. s.id == id) secrets) not_found
    ok (
      to_view updated,
      record_lifecycle "secret.rotate" project_id id actor next
          (record db { secrets = secrets; versions = db.versions ++ version ∷ [] }),
    )

  -- `rotate`
  unfoldable pub rotate_secret :
      String
      → Draws
      → String
      → String
      → String
      → Actor
      → ℕ
      → SecretTables
      → Result SecretError (SecretView × SecretTables)
  rotate_secret version_id draws project_id id value actor now db = do
    current ← or_throw (find_secret project_id id db) not_found
    throw_if (is_some current.revoked_at) conflict
    claim_rotation version_id draws project_id id current.current_version value actor now db

  -- `resolveForWorker`
  unfoldable pub resolve_for_worker :
      String → String → Option ℕ → SecretTables → Result SecretError String
  resolve_for_worker project_id id frozen db = do
    secret ← or_throw (find (is_live project_id id) db.secrets) not_found
    version ← or_throw (highest (filter (is_wanted secret.id frozen) db.versions)) not_found
    deciphered (decrypt node keys version.value (context_for secret.id version.version))
