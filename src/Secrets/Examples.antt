-- ===== src/Secrets/Examples.antt =====
-- The theorems on secrets at a secret that is created and rotated. The platform of the examples writes a
-- text as its code points and seals by a tag of the key, the vector and the associated data.
use Prim.Native.Char.{Char, char, code, nul, IsScalar}
use Prim.Native.Nat.{Ordering, compare}
use text.Mathlib.TextEquality.{Char-path}
use kase_ai.Prelude.{
  ℕ, String, ◌≡◌, refl, Bool, true, false, ◌&&◌, none, some, [], ◌∷◌, ◌++◌, arith, ◌==◌, nat_eq,
  Result, ok, err, find, done, more, if◌then◌else◌,
}
use kase_ai.Projects.{ActorType, Actor}
use kase_ai.Secrets.{
  Bytes, Platform, IsPlatform, KeyEncryptionProvider, IsProvider, Draws, local_provider, local_keys,
  decode_key, encrypt, decrypt, local_provider-IsProvider,
}
use kase_ai.Secrets.Service.{
  SecretRow, SecretTables, SecretError, SecretView, CreateSecret, create_secret, claim_rotation,
  rotate_secret, resolve_for_worker, is_live,
}
use kase_ai.Secrets.Versions.{IsVersioned, creates, claims}
use kase_ai.Secrets.Frozen.{step-IsVersioned, frozen_version_keeps}
use kase_ai.Secrets.Rotation.{rotated_secret_resolves}

abbrev scalar_char :
    (n : ℕ) (a b c : Ordering)
    → compare n 55296 ≡ a
    → compare 57343 n ≡ b
    → compare n 1114112 ≡ c
    → Char
scalar_char n Ordering.lt b c e f g = char n (rw e tt)
scalar_char n Ordering.eq Ordering.lt Ordering.lt e f g = char n (rw (e, f, g) tt)
scalar_char n Ordering.gt Ordering.lt Ordering.lt e f g = char n (rw (e, f, g) tt)
scalar_char n _ _ _ e f g = nul

code-scalar_char :
    (n : ℕ) (a b c : Ordering) (e : compare n 55296 ≡ a) (f : compare 57343 n ≡ b)
    (g : compare n 1114112 ≡ c)
    → IsScalar n
    → code (scalar_char n a b c e f g) ≡ n
code-scalar_char n Ordering.lt b c e f g p = refl
code-scalar_char n Ordering.eq Ordering.lt Ordering.lt e f g p = refl
code-scalar_char n Ordering.eq Ordering.lt Ordering.eq e f g p =
    let bad : ⊥ = rw (e, f, g) at p in elim bad [ ]
code-scalar_char n Ordering.eq Ordering.lt Ordering.gt e f g p =
    let bad : ⊥ = rw (e, f, g) at p in elim bad [ ]
code-scalar_char n Ordering.eq Ordering.eq c e f g p = let bad : ⊥ = rw (e, f) at p in elim bad [ ]
code-scalar_char n Ordering.eq Ordering.gt c e f g p = let bad : ⊥ = rw (e, f) at p in elim bad [ ]
code-scalar_char n Ordering.gt Ordering.lt Ordering.lt e f g p = refl
code-scalar_char n Ordering.gt Ordering.lt Ordering.eq e f g p =
    let bad : ⊥ = rw (e, f, g) at p in elim bad [ ]
code-scalar_char n Ordering.gt Ordering.lt Ordering.gt e f g p =
    let bad : ⊥ = rw (e, f, g) at p in elim bad [ ]
code-scalar_char n Ordering.gt Ordering.eq c e f g p = let bad : ⊥ = rw (e, f) at p in elim bad [ ]
code-scalar_char n Ordering.gt Ordering.gt c e f g p = let bad : ⊥ = rw (e, f) at p in elim bad [ ]

abbrev char_of : ℕ → Char
char_of n = scalar_char n (compare n 55296) (compare 57343 n) (compare n 1114112) refl refl refl

char_of-code : (c : Char) → char_of (code c) ≡ c
char_of-code (char n p) = Char-path _ _ (code-scalar_char n _ _ _ refl refl refl p)

abbrev points_of : String → Bytes
points_of String.[] = []
points_of (String.◌∷◌ c s) = code c ∷ points_of s

abbrev text_of : Bytes → String
text_of [] = ""
text_of (n ∷ ns) = String.◌∷◌ (char_of n) (text_of ns)

text_of-points_of : (s : String) → text_of (points_of s) ≡ s
text_of-points_of String.[] = refl
text_of-points_of (String.◌∷◌ c s) = rw (char_of-code c, text_of-points_of s) refl

abbrev same_bytes : Bytes → Bytes → Bool
same_bytes [] [] = true
same_bytes [] (n ∷ ns) = false
same_bytes (m ∷ ms) [] = false
same_bytes (m ∷ ms) (n ∷ ns) = m == n && same_bytes ms ns

same_bytes_refl : (ns : Bytes) → same_bytes ns ns ≡ true
same_bytes_refl [] = refl
same_bytes_refl (n ∷ ns) = ground (arith, same_bytes_refl ns, nat_eq.eqb_iff n n)

abbrev node : Platform
node = record {
  encode = points_of;
  decode = text_of;
  from_base64 = points_of;
  sha256_hex = text_of;
  seal = λ key iv aad plain. (plain, key ++ iv ++ aad);
  unseal = λ key iv aad sealed tag. if same_bytes tag (key ++ iv ++ aad) then some sealed else none;
}

node-IsPlatform : IsPlatform node
node-IsPlatform = record {
  decoded = text_of-points_of;
  unsealed = λ key iv aad plain. rw (same_bytes_refl (key ++ iv ++ aad)) refl;
}

abbrev encoded_key : String
encoded_key = "0123456789abcdef0123456789-bcd_f"

abbrev keys : KeyEncryptionProvider
keys = local_keys node (decode_key node encoded_key)

keys_run : local_provider node (some encoded_key) ≡ ok keys
unfolding local_provider
keys_run = refl

keys-IsProvider : IsProvider keys
keys-IsProvider = local_provider-IsProvider node (some encoded_key) keys node-IsPlatform keys_run

abbrev owner : Actor
owner = record { actor_type = ActorType.user; id = some "usr_1"; organization_id = none }

abbrev no_secrets : SecretTables
no_secrets = record { projects = "prj_1" ∷ []; secrets = []; versions = []; trail = [] }

no_secrets-IsVersioned : IsVersioned no_secrets
no_secrets-IsVersioned = record {
  keyed = tt;
  bounded = λ v m s k e. elim m [ ];
  owned = λ v m. elim m [ ];
}

abbrev draws : ℕ → Draws
draws n = record { data_key = n ∷ 1 ∷ []; iv = n ∷ 2 ∷ []; wrap_iv = n ∷ 3 ∷ [] }

abbrev password : CreateSecret
password = record { name = "login"; kind = "target_header"; value = "first" }

abbrev result_of : Result SecretError (SecretView × SecretTables) → SecretView × SecretTables
result_of (ok r) = r
result_of (err e) = (
  record {
    id = "";
    name = "";
    kind = "";
    current_version = 0;
    created_by = "";
    created_at = 0;
    updated_at = 0;
    revoked_at = none;
  },
  no_secrets,
)

abbrev created : SecretView × SecretTables
created =
    result_of
      (create_secret node keys "sec_1" "ver_1" (draws 5) "prj_1" password owner 10 no_secrets)

abbrev rotated : SecretView × SecretTables
rotated =
    result_of
      (rotate_secret node keys "ver_2" (draws 6) "prj_1" "sec_1" "second" owner 20 created.1)

created_run :
    create_secret node keys "sec_1" "ver_1" (draws 5) "prj_1" password owner 10 no_secrets
    ≡ ok (created.0, created.1)
unfolding create_secret
created_run = refl

rotated_run :
    rotate_secret node keys "ver_2" (draws 6) "prj_1" "sec_1" "second" owner 20 created.1
    ≡ ok (rotated.0, rotated.1)
unfolding create_secret rotate_secret claim_rotation
rotated_run = refl

claimed_run :
    claim_rotation node keys "ver_2" (draws 6) "prj_1" "sec_1" 1 "second" owner 20 created.1
    ≡ ok (rotated.0, rotated.1)
unfolding create_secret rotate_secret claim_rotation
claimed_run = refl

first_run : resolve_for_worker node keys "prj_1" "sec_1" (some 1) created.1 ≡ ok "first"
unfolding create_secret resolve_for_worker encrypt decrypt
first_run = refl

abbrev rotated_secret : SecretRow
rotated_secret = record {
  id = "sec_1";
  project_id = "prj_1";
  name = "login";
  kind = "target_header";
  current_version = 2;
  created_by = "usr_1";
  created_at = 10;
  updated_at = 20;
  revoked_at = none;
}

live_run : find (is_live "prj_1" "sec_1") rotated.1.secrets ≡ some rotated_secret
unfolding create_secret rotate_secret claim_rotation
live_run = refl

created-IsVersioned_run : IsVersioned created.1
created-IsVersioned_run =
    step-IsVersioned node keys no_secrets created.1
      (creates "sec_1" "ver_1" (draws 5) "prj_1" password owner 10 created.0 created_run)
      no_secrets-IsVersioned

rotation_example : resolve_for_worker node keys "prj_1" "sec_1" none rotated.1 ≡ ok "second"
rotation_example =
    rotated_secret_resolves node keys "ver_2" (draws 6) "prj_1" "sec_1" "second" owner 20 rotated.0
      created.1 rotated.1 node-IsPlatform keys-IsProvider created-IsVersioned_run rotated_run

frozen_example : resolve_for_worker node keys "prj_1" "sec_1" (some 1) rotated.1 ≡ ok "first"
frozen_example =
    frozen_version_keeps node keys "prj_1" "sec_1" 1 "first" created.1 rotated.1 rotated_secret
      created-IsVersioned_run first_run
      (more (claims "ver_2" (draws 6) "prj_1" "sec_1" 1 "second" owner 20 rotated.0 claimed_run)
        done)
      live_run
