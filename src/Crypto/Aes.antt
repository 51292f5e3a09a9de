-- ===== src/Crypto/Aes.antt =====
-- crypto.go, aes256GCMCipher: the default cipher, and how it frames the nonce and the sealed text.
pub mod Framing
use go_messaging.Prelude.{
  ℕ, Bool, [], ◌∷◌, ◌++◌, Bytes, codes, length, take, drop, ltb, if◌then◌else◌,
}
use go_messaging.Message.{text, wrapped, error_text}
use go_messaging.Cipher.{Result, ok, err, ◌>>=◌, MessageCipher}

-- cipher.AEAD for one key: NonceSize, what Seal appends to its destination, and Open.
pub record Aead : Type 0 where
  pub nonce_size : ℕ
  pub seal : Bytes → Bytes → Bytes
  pub open_sealed : Bytes → Bytes → Result Bytes

-- What is used of crypto/sha256, crypto/aes, crypto/cipher and crypto/rand. `read_full seed n`
-- fills n bytes from the randomness `seed`.
pub record Primitives (Block : Type 0) : Type 0 where
  pub sum256 : Bytes → Bytes
  pub new_cipher : Bytes → Result Block
  pub new_gcm : Block → Result Aead
  pub read_full : ℕ → ℕ → Result Bytes

-- "message: NewAES256GCMCipher: " + err.Error()
refused_key {ℓ} : {A : Type ℓ} → Result A → Result A
refused_key (ok value) = ok value
refused_key (err e) = err (text (codes "message: NewAES256GCMCipher: " ++ error_text e))

-- What Encrypt returns once the nonce has been drawn.
sealed_with : Aead → Bytes → Result Bytes → Result Bytes
sealed_with gcm plaintext (err e) = err (wrapped (codes "message: nonce") e)
sealed_with gcm plaintext (ok nonce) = ok (nonce ++ gcm.seal nonce plaintext)

-- What Decrypt returns once the sealed text has been opened.
opened : Result Bytes → Result Bytes
opened (err e) = err (wrapped (codes "message: decrypt") e)
opened (ok plaintext) = ok plaintext

-- (*aes256GCMCipher).Decrypt
unfoldable pub aes_decrypt : Aead → Bytes → Result Bytes
unfolding opened
aes_decrypt gcm ciphertext =
    if ltb (length ciphertext) gcm.nonce_size
    then err (text (codes "message: ciphertext too short"))
    else opened (gcm.open_sealed (take gcm.nonce_size ciphertext) (drop gcm.nonce_size ciphertext))

module _ {Block : Type 0} (lib : Primitives Block) where
  -- (*aes256GCMCipher).Encrypt
  unfoldable pub aes_encrypt : Aead → ℕ → Bytes → Result Bytes
  unfolding sealed_with
  aes_encrypt gcm seed plaintext = sealed_with gcm plaintext (lib.read_full seed gcm.nonce_size)

  -- type aes256GCMCipher struct, behind the interface.
  unfoldable pub aes256_gcm_cipher : Bytes → Aead → MessageCipher
  aes256_gcm_cipher version gcm = record {
    version = version;
    encrypt = aes_encrypt gcm;
    decrypt = aes_decrypt gcm;
  }

  -- NewAES256GCMCipher; an error is a panic with its text.
  unfoldable pub new_aes256_gcm_cipher : Bytes → Bytes → Result MessageCipher
  unfolding refused_key
  new_aes256_gcm_cipher version [] =
      err (text (codes "message: NewAES256GCMCipher: a non-empty secret is required"))
  new_aes256_gcm_cipher version (s ∷ secret) = do
    block ← refused_key (lib.new_cipher (lib.sum256 (s ∷ secret)))
    gcm ← refused_key (lib.new_gcm block)
    ok (aes256_gcm_cipher version gcm)

  -- NewDefaultCipher
  pub new_default_cipher : Bytes → Result MessageCipher
  new_default_cipher secret = new_aes256_gcm_cipher (codes "v0.0.0") secret
