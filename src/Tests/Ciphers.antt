-- ===== src/Tests/Ciphers.antt =====
-- Ciphers, encodings and encrypted fields at concrete values.
use mathlib.Core.Path.{subst}
use go_messaging.Prelude.{
  ℕ, zero, suc, ap, ◌==◌, ◌≡◌, refl, arith, Bool, true, ◌&&◌, none, some, [], ◌∷◌, Bytes, bytes_eq,
  codes, length, take, ltb, if◌then◌else◌, Bool-cases, inl, inr, ◌%◌,
}
use go_messaging.Message.{text}
use go_messaging.Cipher.{Result, ok, err, MessageCipher, ok-injective}
use go_messaging.Crypto.Base64
use go_messaging.Crypto.Registry.{
  CipherRegistry, new_cipher_registry, registry_encrypt, registry_decrypt, stamp, lookup,
  is_version, is_version_char,
}
use go_messaging.Crypto.Registry.Rotation.{IsSound, decrypt-encrypt}
use go_messaging.Crypto.Aes.{
  Aead, Primitives, aes_encrypt, aes256_gcm_cipher, new_aes256_gcm_cipher,
}
use go_messaging.Crypto.Aes.Framing.{
  IsAead, AreLawful, aes_decrypt-aes_encrypt, registry_decrypt-aes,
}
use go_messaging.Database.{◌>>=◌}
use go_messaging.Store.{prepare_fields, prepare_with, encrypt_with}
use go_messaging.Store.Scan.{hydrate}
use go_messaging.Store.Scan.RoundTrip.{hydrate-prepare_fields}
use go_messaging.System.Fixtures.{config, codec, order, empty_world}

-- A cipher that puts the seed before the plaintext.
are_bytes : Bytes → Bool
are_bytes [] = true
are_bytes (b ∷ bs) = ltb b 256 && are_bytes bs

toy_encrypt : ℕ → Bytes → Result Bytes
unfolding are_bytes
toy_encrypt seed p = if are_bytes p then ok (seed % 256 ∷ p) else err (text (codes "not bytes"))

toy_decrypt : Bytes → Result Bytes
toy_decrypt [] = err (text (codes "short"))
toy_decrypt (s ∷ p) = ok p

abbrev toy : Bytes → MessageCipher
toy v = record { version = v; encrypt = toy_encrypt; decrypt = toy_decrypt }

are_bytes-AreBytes : (bs : Bytes) → are_bytes bs ≡ true → Base64.AreBytes bs
unfolding are_bytes
are_bytes-AreBytes [] h = tt
are_bytes-AreBytes (b ∷ bs) h = (ground (arith, h), are_bytes-AreBytes bs (ground (arith, h)))

sealed :
    (seed : ℕ) (p ct : Bytes)
    → are_bytes p ≡ true
    → toy_encrypt seed p ≡ ok ct
    → ok (seed % 256 ∷ p) ≡ ok ct
unfolding toy_encrypt
sealed seed p ct fine e = ground arith

toy-IsSound : (v : Bytes) → IsSound (toy v)
unfolding toy_encrypt toy_decrypt
toy-IsSound v = record {
  opens = λ seed p ct e. elim (Bool-cases (are_bytes p)) [
    | inl fine ↦
        subst (λ ct. Base64.AreBytes ct × (toy_decrypt ct ≡ ok p))
          (ok-injective (sealed seed p ct fine e)) ((omega arith, are_bytes-AreBytes p fine), refl)
    | inr bad ↦ absurd (ground (arith, bad))
  ];
}

abbrev old_registry : CipherRegistry
old_registry = record { by_version = toy (codes "v1") ∷ []; current = toy (codes "v1") }

abbrev new_registry : CipherRegistry
new_registry = record {
  by_version = toy (codes "v1") ∷ toy (codes "v2") ∷ [];
  current = toy (codes "v2");
}

decrypt-encrypt_example :
    registry_decrypt new_registry (stamp (codes "v1") (7 ∷ 1 ∷ 2 ∷ [])) ≡ ok (1 ∷ 2 ∷ [])
unfolding new_cipher_registry lookup bytes_eq registry_encrypt toy_encrypt is_version
    is_version_char
decrypt-encrypt_example =
    decrypt-encrypt (toy (codes "v1") ∷ []) (codes "v1") old_registry new_registry 7 (1 ∷ 2 ∷ [])
      (stamp (codes "v1") (7 ∷ 1 ∷ 2 ∷ [])) refl (toy-IsSound (codes "v1")) refl refl

-- An AEAD whose tag is the length of the plaintext, and randomness that repeats one byte.
toy_open : Bytes → Bytes → Result Bytes
toy_open nonce [] = err (text (codes "no tag"))
toy_open nonce (tag ∷ p) = if tag == length p % 256 then ok p else err (text (codes "forged"))

abbrev toy_aead : Aead
toy_aead = record { nonce_size = 2; seal = λ nonce p. length p % 256 ∷ p; open_sealed = toy_open }

repeated : ℕ → ℕ → Bytes
repeated b zero = []
repeated b (suc n) = b % 256 ∷ repeated b n

repeated-fills : (b n : ℕ) → (length (repeated b n) ≡ n) × Base64.AreBytes (repeated b n)
unfolding repeated
repeated-fills b zero = (refl, tt)
repeated-fills b (suc n) =
    let (sized, bytes) = repeated-fills b n in (ap suc sized, (omega arith, bytes))

abbrev toy_primitives : Primitives Bytes
toy_primitives = record {
  sum256 = take 32;
  new_cipher = ok;
  new_gcm = λ block. ok toy_aead;
  read_full = λ seed n. ok (repeated seed n);
}

toy_aead-IsAead : IsAead toy_aead
unfolding toy_open
toy_aead-IsAead = record {
  bytes = λ nonce p h. (omega arith, h);
  opens = λ nonce p h e. ground arith;
}

toy_primitives-AreLawful : AreLawful toy_primitives
toy_primitives-AreLawful = record {
  gcm = λ block h. subst IsAead (ok-injective h) toy_aead-IsAead;
  fills = λ seed n h.
      subst (λ nonce. (length nonce ≡ n) × Base64.AreBytes nonce) (ok-injective h)
        (repeated-fills seed n);
}

abbrev toy_cipher : MessageCipher
toy_cipher = aes256_gcm_cipher toy_primitives (codes "v1") toy_aead

aes_decrypt-aes_encrypt_example :
    (codes "v1" ≡ codes "v1")
    × Base64.AreBytes (7 ∷ 7 ∷ 3 ∷ 1 ∷ 2 ∷ 9 ∷ [])
    × (toy_cipher.decrypt (7 ∷ 7 ∷ 3 ∷ 1 ∷ 2 ∷ 9 ∷ []) ≡ ok (1 ∷ 2 ∷ 9 ∷ []))
unfolding new_aes256_gcm_cipher aes256_gcm_cipher aes_encrypt repeated
aes_decrypt-aes_encrypt_example =
    aes_decrypt-aes_encrypt toy_primitives toy_primitives-AreLawful (codes "v1") (codes "secret")
      toy_cipher 7 (1 ∷ 2 ∷ 9 ∷ []) (7 ∷ 7 ∷ 3 ∷ 1 ∷ 2 ∷ 9 ∷ []) refl
      (omega arith, (omega arith, (omega arith, tt))) refl

abbrev aes_registry : CipherRegistry
aes_registry = record { by_version = toy_cipher ∷ []; current = toy_cipher }

registry_decrypt-aes_example :
    registry_decrypt aes_registry (stamp (codes "v1") (7 ∷ 7 ∷ 1 ∷ 9 ∷ [])) ≡ ok (9 ∷ [])
unfolding new_aes256_gcm_cipher aes256_gcm_cipher aes_encrypt repeated new_cipher_registry lookup
    bytes_eq registry_encrypt is_version is_version_char
registry_decrypt-aes_example =
    registry_decrypt-aes toy_primitives toy_primitives-AreLawful (codes "v1") (codes "secret")
      (codes "v1") (toy_cipher ∷ []) aes_registry aes_registry 7 (9 ∷ [])
      (stamp (codes "v1") (7 ∷ 7 ∷ 1 ∷ 9 ∷ [])) refl refl refl (omega arith, tt) refl

hydrate-prepare_fields_example :
    hydrate
      (record { cfg = config; cipher = some old_registry; codec = codec })
      (record order {
        encrypted = true;
        payload = stamp (codes "v1") (0 ∷ 1 ∷ 2 ∷ []);
        raw_headers = some (stamp (codes "v1") (1 ∷ codes "{}"));
      })
    ≡ (
      ok tt,
      record order { encrypted = true; payload = 1 ∷ 2 ∷ []; headers = []; raw_headers = none },
    )
unfolding new_cipher_registry lookup bytes_eq registry_encrypt toy_encrypt is_version
    is_version_char prepare_fields prepare_with encrypt_with ◌>>=◌
hydrate-prepare_fields_example =
    hydrate-prepare_fields config codec old_registry (toy (codes "v1") ∷ []) (codes "v1")
      (1 ∷ 2 ∷ []) [] empty_world (stamp (codes "v1") (0 ∷ 1 ∷ 2 ∷ []))
      (stamp (codes "v1") (1 ∷ codes "{}")) order refl (toy-IsSound (codes "v1")) refl refl
