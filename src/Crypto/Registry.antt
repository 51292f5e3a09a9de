-- ===== src/Crypto/Registry.antt =====
-- crypto.go, CipherRegistry: routes by the version that a stored value carries.
pub mod Rotation
use go_messaging.Prelude.{
  ℕ, Bool, true, false, ◌&&◌, ◌||◌, not, Option, none, some, List, [], ◌∷◌, ◌++◌, Bytes, codes,
  bytes_eq, leb, ◌==◌, if◌then◌else◌,
}
use go_messaging.Message.{Error, text, wrapped}
use go_messaging.Cipher.{Result, ok, err, ◌>>=◌, MessageCipher}
use go_messaging.Crypto.Base64
use go_messaging.Crypto.Json.{marshal_string, unmarshal_string}

-- [A-Za-z0-9_.-]
unfoldable pub is_version_char : ℕ → Bool
is_version_char c =
    (leb b'A' c && leb c b'Z')
    || (leb b'a' c && leb c b'z')
    || (leb b'0' c && leb c b'9')
    || c == b'_'
    || c == b'.'
    || c == b'-'

all_version_chars : Bytes → Bool
all_version_chars [] = true
all_version_chars (c ∷ cs) = is_version_char c && all_version_chars cs

-- cipherVersionRegex
unfoldable pub is_version : Bytes → Bool
unfolding all_version_chars
is_version [] = false
is_version (c ∷ cs) = all_version_chars (c ∷ cs)

-- The Go map from versions to ciphers.
unfoldable pub lookup : Bytes → List MessageCipher → Option MessageCipher
lookup v [] = none
lookup v (c ∷ cs) = if bytes_eq c.version v then some c else lookup v cs

-- type CipherRegistry struct
pub record CipherRegistry : Type 0 where
  pub by_version : List MessageCipher
  pub current : MessageCipher

is_some {ℓ} : {A : Type ℓ} → Option A → Bool
is_some none = false
is_some (some a) = true

-- %q of a text in which nothing has to be escaped.
quoted : Bytes → Bytes
quoted s = b'"' ∷ (s ++ b'"' ∷ [])

-- The loop over the ciphers: each version is checked before it is added.
add_ciphers : List MessageCipher → List MessageCipher → Result (List MessageCipher)
unfolding is_some quoted
add_ciphers seen [] = ok seen
add_ciphers seen (c ∷ cs) =
    let rest = add_ciphers (c ∷ seen) cs in
    if not (is_version c.version)
    then err (text (codes "message: CipherRegistry: invalid version " ++ quoted c.version))
    else if is_some (lookup c.version seen)
    then err (text (codes "message: CipherRegistry: duplicate version " ++ quoted c.version))
    else rest

choose : Bytes → List MessageCipher → Option MessageCipher → Result CipherRegistry
unfolding quoted
choose v cs none = err (
    text (
      codes "message: CipherRegistry: currentVersion "
      ++ quoted v
      ++ codes " is not among the ciphers"))
choose v cs (some c) = ok (record { by_version = cs; current = c })

-- NewCipherRegistry
unfoldable pub new_cipher_registry : List MessageCipher → Bytes → Result CipherRegistry
unfolding add_ciphers choose
new_cipher_registry [] current =
    err (text (codes "message: CipherRegistry: at least one cipher is required"))
new_cipher_registry (c ∷ cs) current = do
  by_version ← add_ciphers [] (c ∷ cs)
  choose current by_version (lookup current by_version)

-- The part of `New` that builds the registry from the options.
unfoldable pub registry_of : List MessageCipher → Bytes → Result (Option CipherRegistry)
registry_of [] current = ok none
registry_of (c ∷ []) [] = do r ← new_cipher_registry (c ∷ []) c.version; ok (some r)
registry_of (c ∷ d ∷ cs) [] = err (
    text
      (codes "message: WithCiphers: currentVersion is required when more than one cipher is given"))
registry_of (c ∷ cs) (v ∷ vs) = do r ← new_cipher_registry (c ∷ cs) (v ∷ vs); ok (some r)

-- r.current.Version() + ":" + base64(ct), as JSON.
pub stamp : Bytes → Bytes → Bytes
stamp version ct = marshal_string (version ++ b':' ∷ Base64.encode ct)

-- (*CipherRegistry).Encrypt
unfoldable pub registry_encrypt : CipherRegistry → ℕ → Bytes → Result Bytes
registry_encrypt r seed plaintext = do
  ct ← r.current.encrypt seed plaintext
  ok (stamp r.current.version ct)

push : ℕ → Option (Bytes × Bytes) → Option (Bytes × Bytes)
push c none = none
push c (some (before, after)) = some (c ∷ before, after)

-- What stands before and after the first colon.
unfoldable cut : Bytes → Option (Bytes × Bytes)
unfolding push
cut [] = none
cut (c ∷ cs) = let rest = cut cs in if c == b':' then some ([], cs) else push c rest

open_body : MessageCipher → Option Bytes → Result Bytes
open_body c none = err (text (codes "message: CipherRegistry: invalid base64 body"))
open_body c (some ct) = c.decrypt ct

open_with : Bytes → Bytes → Option MessageCipher → Result Bytes
unfolding open_body quoted
open_with version body none =
    err
      (text (codes "message: CipherRegistry: no cipher registered for version " ++ quoted version))
open_with version body (some c) = open_body c (Base64.decode body)

missing_prefix : Result Bytes
missing_prefix = err (text (codes "message: CipherRegistry: ciphertext missing version prefix"))

-- `if i <= 0` refuses a stamped value with no colon, and one that begins with it.
open_stamped : CipherRegistry → Option (Bytes × Bytes) → Result Bytes
unfolding open_with missing_prefix
open_stamped r none = missing_prefix
open_stamped r (some ([], body)) = missing_prefix
open_stamped r (some (c ∷ cs, body)) = open_with (c ∷ cs) body (lookup (c ∷ cs) r.by_version)

open_value : CipherRegistry → Option Bytes → Result Bytes
unfolding open_stamped
open_value r none = err (text (codes "message: CipherRegistry: stored value is not a JSON string"))
open_value r (some stamped) = open_stamped r (cut stamped)

-- (*CipherRegistry).Decrypt
pub registry_decrypt : CipherRegistry → Bytes → Result Bytes
unfolding open_value
registry_decrypt r stored = open_value r (unmarshal_string stored)
