-- ===== src/Crypto/Registry/Rotation.antt =====
-- What was encrypted is decrypted again, by any registry that still holds the cipher.
use go_messaging.Prelude.{
  ℕ, ◌<◌, ◌≡◌, refl, ap, ◌∙◌, arith, true, false, Option, none, some, List, [], ◌∷◌, ◌++◌, Bytes,
  bytes_eq, bytes_eq-eq, All, All-append, Bool-cases, inl, inr, ◌==◌,
}
use go_messaging.Cipher.{ok, MessageCipher, >>=-eq-ok, ok-injective}
use mathlib.Core.Path.{subst}
use go_messaging.Crypto.Base64
use go_messaging.Crypto.Base64.{AreBytes, decode-encode, encode_ascii}
use go_messaging.Crypto.Json.RoundTrip.{IsAscii, unmarshal_string-marshal_string}
use go_messaging.Crypto.Registry.{
  CipherRegistry, is_version_char, all_version_chars, is_version, lookup, add_ciphers, choose,
  new_cipher_registry, stamp, registry_encrypt, registry_decrypt, cut, is_some,
}

version_char-lt : (c : ℕ) → is_version_char c ≡ true → c < 128
unfolding is_version_char
version_char-lt c h = ground arith

version_char-colon : (c : ℕ) → is_version_char c ≡ true → (c == b':') ≡ false
unfolding is_version_char
version_char-colon c h = ground arith

version-IsAscii : (v : Bytes) → all_version_chars v ≡ true → IsAscii v
unfolding all_version_chars
version-IsAscii [] h = tt
version-IsAscii (c ∷ cs) h = (version_char-lt c (ground arith), version-IsAscii cs (ground arith))

-- The version ends at the first colon, since no version holds one.
cut-version :
    (v rest : Bytes) → all_version_chars v ≡ true → cut (v ++ b':' ∷ rest) ≡ some (v, rest)
unfolding all_version_chars cut
cut-version [] rest h = refl
cut-version (c ∷ cs) rest h = ground (arith, version_char-colon c, cut-version cs rest)

is_version-chars : (v : Bytes) → is_version v ≡ true → all_version_chars v ≡ true
unfolding is_version
is_version-chars [] h = cc
is_version-chars (c ∷ cs) h = h

-- A stamped value is routed to the cipher that the registry has for its version.
decrypt-stamp :
    (r : CipherRegistry) (c : MessageCipher) (v ct : Bytes)
    → is_version v ≡ true
    → AreBytes ct
    → lookup v r.by_version ≡ some c
    → registry_decrypt r (stamp v ct) ≡ c.decrypt ct
unfolding registry_decrypt stamp
decrypt-stamp r c [] ct valid bytes found = unfold is_version in cc
decrypt-stamp r c (x ∷ xs) ct valid bytes found =
    let chars = is_version-chars (x ∷ xs) valid in
    let ascii =
      All-append (λ b. b < 128) (x ∷ xs) (b':' ∷ Base64.encode ct) (version-IsAscii (x ∷ xs) chars)
        (omega arith, encode_ascii ct bytes) in
    rw (
      unmarshal_string-marshal_string ((x ∷ xs) ++ b':' ∷ Base64.encode ct) ascii,
      cut-version (x ∷ xs) (Base64.encode ct) chars,
      found,
      decode-encode ct bytes,
    )

-- What a cipher encrypts it decrypts again.
pub record IsSound (c : MessageCipher) : Type 0 where
  pub opens :
      (seed : ℕ) (plaintext ct : Bytes)
      → c.encrypt seed plaintext ≡ ok ct
      → AreBytes ct × (c.decrypt ct ≡ ok plaintext)

abbrev AreVersioned : List MessageCipher → Type 0
AreVersioned = All (λ c. is_version c.version ≡ true)

add_ciphers-AreVersioned :
    (seen cs : List MessageCipher) {all : List MessageCipher}
    → AreVersioned seen
    → add_ciphers seen cs ≡ ok all
    → AreVersioned all
unfolding add_ciphers
add_ciphers-AreVersioned seen [] {all} h e = subst AreVersioned (ok-injective e) h
add_ciphers-AreVersioned seen (c ∷ cs) {all} h e = elim (Bool-cases (is_version c.version)) [
  | inl valid ↦ elim (Bool-cases (is_some (lookup c.version seen))) [
    | inl dup ↦ absurd (ground arith)
    | inr fresh ↦ add_ciphers-AreVersioned (c ∷ seen) cs {all = all} (valid, h) (ground arith)
  ]
  | inr invalid ↦ absurd (ground arith)
]

lookup-version :
    (v : Bytes) (cs : List MessageCipher) (c : MessageCipher)
    → lookup v cs ≡ some c
    → AreVersioned cs
    → (c.version ≡ v) × (is_version c.version ≡ true)
unfolding lookup
lookup-version v [] c e h = cc
lookup-version v (d ∷ cs) c e h = elim (Bool-cases (bytes_eq d.version v)) [
  | inl hit ↦ let same : d ≡ c = ground arith in rw (← same) (bytes_eq-eq d.version v hit, h.0)
  | inr miss ↦ lookup-version v cs c (ground arith) h.1
]

-- In a registry that was built, the current cipher has a valid version and is found under it.
record IsBuilt (r : CipherRegistry) : Type 0 where
  pub valid : is_version r.current.version ≡ true
  pub found : lookup r.current.version r.by_version ≡ some r.current

choose-IsBuilt :
    (v : Bytes) (cs : List MessageCipher) (o : Option MessageCipher) {r : CipherRegistry}
    → lookup v cs ≡ o
    → AreVersioned cs
    → choose v cs o ≡ ok r
    → IsBuilt r
unfolding choose
choose-IsBuilt v cs none {r} e h k = cc
choose-IsBuilt v cs (some c) {r} e h k =
    let (named, valid) = lookup-version v cs c e h in
    subst IsBuilt (ok-injective k)
      (record { valid = valid; found = ap (λ w. lookup w cs) named ∙ e })

new_cipher_registry-IsBuilt :
    (cs : List MessageCipher) (v : Bytes) {r : CipherRegistry}
    → new_cipher_registry cs v ≡ ok r
    → IsBuilt r
unfolding new_cipher_registry
new_cipher_registry-IsBuilt [] v e = cc
new_cipher_registry-IsBuilt (c ∷ cs) v e =
    let (all, added, chosen) =
      >>=-eq-ok (add_ciphers [] (c ∷ cs)) (λ all. choose v all (lookup v all)) e in
    choose-IsBuilt v all (lookup v all) refl (add_ciphers-AreVersioned [] (c ∷ cs) tt added) chosen

-- One value that the current cipher can decrypt again.
pub decrypt-encrypt_at :
    (cs : List MessageCipher) (v : Bytes) (r later : CipherRegistry) (seed : ℕ)
    (plaintext stored : Bytes)
    → new_cipher_registry cs v ≡ ok r
    → ((ct : Bytes)
        → r.current.encrypt seed plaintext ≡ ok ct
        → AreBytes ct × (r.current.decrypt ct ≡ ok plaintext))
    → lookup r.current.version later.by_version ≡ some r.current
    → registry_encrypt r seed plaintext ≡ ok stored
    → registry_decrypt later stored ≡ ok plaintext
unfolding registry_encrypt
decrypt-encrypt_at cs v r later seed plaintext stored built opens kept e =
    let (ct, sealed, stamped) =
      >>=-eq-ok (r.current.encrypt seed plaintext) (λ ct. ok (stamp r.current.version ct)) e in
    let (bytes, opened) = opens ct sealed in
    let valid = (new_cipher_registry-IsBuilt cs v built).valid in
    rw (← ok-injective stamped)
      (decrypt-stamp later r.current r.current.version ct valid bytes kept ∙ opened)

-- What a registry that was built has encrypted, every registry decrypts that has its current
-- cipher under the same version; so a rotation that keeps the old ciphers loses no stored value.
pub decrypt-encrypt :
    (cs : List MessageCipher) (v : Bytes) (r later : CipherRegistry) (seed : ℕ)
    (plaintext stored : Bytes)
    → new_cipher_registry cs v ≡ ok r
    → IsSound r.current
    → lookup r.current.version later.by_version ≡ some r.current
    → registry_encrypt r seed plaintext ≡ ok stored
    → registry_decrypt later stored ≡ ok plaintext
decrypt-encrypt cs v r later seed plaintext stored built sound kept e =
    decrypt-encrypt_at cs v r later seed plaintext stored built (sound.opens seed plaintext) kept e

-- In particular the registry itself does.
pub decrypt-encrypt_self :
    (cs : List MessageCipher) (v : Bytes) (r : CipherRegistry) (seed : ℕ) (plaintext stored : Bytes)
    → new_cipher_registry cs v ≡ ok r
    → IsSound r.current
    → registry_encrypt r seed plaintext ≡ ok stored
    → registry_decrypt r stored ≡ ok plaintext
decrypt-encrypt_self cs v r seed plaintext stored built sound e =
    decrypt-encrypt cs v r r seed plaintext stored built sound
      (new_cipher_registry-IsBuilt cs v built).found e
