-- ===== src/Secrets.antt =====
-- apps/api/src/secrets/envelope-crypto.service.ts and key-encryption.provider.ts: how the value of a
-- secret is encrypted. The random draws are arguments; a key is not erased from the memory.
pub mod Service
pub mod Versions
pub mod Keeping
pub mod Frozen
pub mod Rotation
mod Examples
use Prim.Native.Char.{code}
use Prim.Native.String.{◌++◌ as append}
use mathlib.Core.Path.{subst}
use kase_ai.Prelude.{
  ℕ, suc, String, ◌≡◌, refl, Bool, true, false, not, ◌||◌, Option, none, some, List, [], ◌∷◌,
  length, ◌==◌, string_eq, nat_eq, Result, ok, err, ok_injective, ◌>>=◌, ◌>>◌, >>=-eq-ok, throw_if,
  or_throw, is_empty_text, if◌then◌else◌,
}
use kase_ai.Projects.Slug.{slice_to}

abbrev pub Bytes : Type 0
Bytes = List ℕ

-- What the code takes from Node: the encodings of `Buffer`, SHA-256 in hexadecimal, and AES-256-GCM
-- under a key, an initialisation vector and associated data, with its tag.
pub record Platform : Type 0 where
  pub encode : String → Bytes
  pub decode : Bytes → String
  pub from_base64 : String → Bytes
  pub sha256_hex : Bytes → String
  pub seal : Bytes → Bytes → Bytes → Bytes → Bytes × Bytes
  pub unseal : Bytes → Bytes → Bytes → Bytes → Bytes → Option Bytes

-- What is documented of it: a text is read back, and what was sealed is unsealed.
pub record IsPlatform (node : Platform) : Type 0 where
  pub decoded : (text : String) → node.decode (node.encode text) ≡ text
  pub unsealed :
      (key iv aad plain : Bytes)
      → node.unseal key iv aad (node.seal key iv aad plain).0 (node.seal key iv aad plain).1
        ≡ some plain

pub data CryptoError : Type 0 where
  missing_key wrong_key_length wrong_key unauthentic : CryptoError

pub record WrappedKey : Type 0 where
  pub ciphertext : Bytes
  pub iv : Bytes
  pub auth_tag : Bytes
  pub key_id : String
  pub provider : String

-- `KeyEncryptionProvider`; the first argument of `wrap_key` is the vector that it draws.
pub record KeyEncryptionProvider : Type 0 where
  pub wrap_key : Bytes → Bytes → String → WrappedKey
  pub unwrap_key : WrappedKey → String → Result CryptoError Bytes

-- The contract of a provider: under its context a wrapped key is unwrapped.
pub record IsProvider (keys : KeyEncryptionProvider) : Type 0 where
  pub unwrapped :
      (iv key : Bytes) (context : String)
      → keys.unwrap_key (keys.wrap_key iv key context) context ≡ ok key

-- `keyId` of the local provider
abbrev pub local_key_id : Platform → Bytes → String
local_key_id node key = append "local:" (slice_to 16 (node.sha256_hex key))

abbrev pub local_wrap : Platform → Bytes → Bytes → Bytes → String → WrappedKey
local_wrap node key iv data_key context = record {
  ciphertext = (node.seal key iv (node.encode context) data_key).0;
  iv = iv;
  auth_tag = (node.seal key iv (node.encode context) data_key).1;
  key_id = local_key_id node key;
  provider = "local";
}

abbrev pub local_unwrap : Platform → Bytes → WrappedKey → String → Result CryptoError Bytes
local_unwrap node key wrapped context = do
  throw_if (not (wrapped.provider == "local") || not (wrapped.key_id == local_key_id node key))
      wrong_key
  or_throw (node.unseal key wrapped.iv (node.encode context) wrapped.ciphertext wrapped.auth_tag)
      unauthentic

-- `replace(/-/g, '+').replace(/_/g, '/')`
abbrev pub replace_url_safe : String → String
replace_url_safe String.[] = ""
replace_url_safe (String.◌∷◌ c s) =
    let rest = replace_url_safe s in
    if code c == 45
    then String.◌∷◌ "+" rest
    else if code c == 95
    then String.◌∷◌ "/" rest
    else String.◌∷◌ c rest

-- `decodeKey`
abbrev pub decode_key : Platform → String → Bytes
decode_key node value = node.from_base64 (replace_url_safe value)

abbrev pub local_keys : Platform → Bytes → KeyEncryptionProvider
local_keys node key = record { wrap_key = local_wrap node key; unwrap_key = local_unwrap node key }

abbrev pub configured_key : Platform → Option String → Result CryptoError Bytes
configured_key node none = err missing_key
configured_key node (some encoded) = do
  throw_if (is_empty_text encoded) missing_key
  throw_if (not (length (decode_key node encoded) == 32)) wrong_key_length
  ok (decode_key node encoded)

-- The constructor of `LocalKeyEncryptionProvider`
unfoldable pub local_provider : Platform → Option String → Result CryptoError KeyEncryptionProvider
local_provider node encoded_key = do key ← configured_key node encoded_key; ok (local_keys node key)

-- `EncryptedEnvelope`
pub record EncryptedEnvelope : Type 0 where
  pub ciphertext : Bytes
  pub iv : Bytes
  pub auth_tag : Bytes
  pub wrapped_data_key : Bytes
  pub wrapped_data_key_iv : Bytes
  pub wrapped_data_key_tag : Bytes
  pub key_provider : String
  pub key_id : String

-- What an encryption draws at random.
pub record Draws : Type 0 where
  pub data_key : Bytes
  pub iv : Bytes
  pub wrap_iv : Bytes

module _ (node : Platform) (keys : KeyEncryptionProvider) where
  -- `encrypt`
  unfoldable pub encrypt : Draws → String → String → EncryptedEnvelope
  encrypt draws plaintext context =
      let sealed =
        node.seal draws.data_key draws.iv (node.encode context) (node.encode plaintext) in
      let wrapped = keys.wrap_key draws.wrap_iv draws.data_key context in
      record {
        ciphertext = sealed.0;
        iv = draws.iv;
        auth_tag = sealed.1;
        wrapped_data_key = wrapped.ciphertext;
        wrapped_data_key_iv = wrapped.iv;
        wrapped_data_key_tag = wrapped.auth_tag;
        key_provider = wrapped.provider;
        key_id = wrapped.key_id;
      }

  -- `decrypt`
  unfoldable pub decrypt : EncryptedEnvelope → String → Result CryptoError String
  decrypt envelope context = do
    data_key ←
        keys.unwrap_key
          (record {
            ciphertext = envelope.wrapped_data_key;
            iv = envelope.wrapped_data_key_iv;
            auth_tag = envelope.wrapped_data_key_tag;
            key_id = envelope.key_id;
            provider = envelope.key_provider;
          })
          context
    plain ←
        or_throw
          (node.unseal data_key envelope.iv (node.encode context) envelope.ciphertext
            envelope.auth_tag)
          unauthentic
    ok (node.decode plain)

  -- Whatever the provider of keys, the text comes back.
  pub decrypt-encrypt :
      (draws : Draws) (plaintext context : String)
      → IsPlatform node
      → IsProvider keys
      → decrypt (encrypt draws plaintext context) context ≡ ok plaintext
  unfolding encrypt decrypt
  decrypt-encrypt draws plaintext context sound wraps =
      rw
        (
          wraps.unwrapped draws.wrap_iv draws.data_key context,
          sound.unsealed draws.data_key draws.iv (node.encode context) (node.encode plaintext),
          sound.decoded plaintext,
        )
        refl

local_keys-IsProvider :
    (node : Platform) (key : Bytes) → IsPlatform node → IsProvider (local_keys node key)
local_keys-IsProvider node key sound = record {
  unwrapped = λ iv data_key context.
      let own = (string_eq.eqb_iff (local_key_id node key) (local_key_id node key)).1 refl in
      rw (own, sound.unsealed key iv (node.encode context) data_key) refl;
}

-- The local provider keeps the contract.
pub local_provider-IsProvider :
    (node : Platform) (encoded_key : Option String) (keys : KeyEncryptionProvider)
    → IsPlatform node
    → local_provider node encoded_key ≡ ok keys
    → IsProvider keys
unfolding local_provider
local_provider-IsProvider node encoded_key keys sound e =
    let (key, _, same) = >>=-eq-ok (configured_key node encoded_key) _ e in
    subst IsProvider (ok_injective same) (local_keys-IsProvider node key sound)
