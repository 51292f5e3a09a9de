-- ===== src/Crypto/Aes/Framing.antt =====
-- What the default cipher seals it opens again, alone and in a registry.
use go_messaging.Prelude.{
  ℕ, ◌≡◌, refl, ◌∙◌, arith, false, some, [], ◌∷◌, ◌++◌, Bytes, length, take, drop, ltb, All-append,
  length-append, List,
}
use mathlib.Core.Path.{subst}
use go_messaging.Cipher.{Result, ok, err, ◌>>=◌, MessageCipher, >>=-eq-ok, ok-injective}
use go_messaging.Crypto.Base64.{AreBytes}
use go_messaging.Crypto.Registry.{
  CipherRegistry, lookup, new_cipher_registry, registry_encrypt, registry_decrypt,
}
use go_messaging.Crypto.Registry.Rotation.{decrypt-encrypt_at}
use go_messaging.Crypto.Aes.{
  Aead, Primitives, refused_key, sealed_with, opened, aes_decrypt, aes_encrypt, aes256_gcm_cipher,
  new_aes256_gcm_cipher,
}

-- What the documentation of cipher.AEAD promises: for bytes, Seal gives bytes, which Open under
-- the same nonce, of the right size, turns back.
pub record IsAead (gcm : Aead) : Type 0 where
  pub bytes : (nonce p : Bytes) → AreBytes p → AreBytes (gcm.seal nonce p)
  pub opens :
      (nonce p : Bytes)
      → AreBytes p
      → length nonce ≡ gcm.nonce_size
      → gcm.open_sealed nonce (gcm.seal nonce p) ≡ ok p

-- What the documentation of the packages promises: NewGCM gives an AEAD, and ReadFull fills all the
-- bytes when it returns no error.
pub record AreLawful {Block : Type 0} (lib : Primitives Block) : Type 0 where
  pub gcm : (block : Block) {gcm : Aead} → lib.new_gcm block ≡ ok gcm → IsAead gcm
  pub fills :
      (seed n : ℕ) {nonce : Bytes}
      → lib.read_full seed n ≡ ok nonce
      → (length nonce ≡ n) × AreBytes nonce

take-append : (xs ys : Bytes) → take (length xs) (xs ++ ys) ≡ xs
take-append [] ys = refl
take-append (x ∷ xs) ys = rw (take-append xs ys)

drop-append : (xs ys : Bytes) → drop (length xs) (xs ++ ys) ≡ ys
drop-append [] ys = refl
drop-append (x ∷ xs) ys = drop-append xs ys

refused_key-ok {ℓ} : {A : Type ℓ} (r : Result A) {a : A} → refused_key r ≡ ok a → r ≡ ok a
unfolding refused_key
refused_key-ok (ok a) h = h
refused_key-ok (err e) h = cc

-- The nonce stands in front of the sealed text, where Decrypt looks for it.
aes_decrypt-nonce :
    (gcm : Aead) (nonce body : Bytes)
    → length nonce ≡ gcm.nonce_size
    → aes_decrypt gcm (nonce ++ body) ≡ opened (gcm.open_sealed nonce body)
unfolding aes_decrypt
aes_decrypt-nonce gcm nonce body sized =
    let long : ltb (length (nonce ++ body)) (length nonce) ≡ false =
      ground (arith, length-append nonce body) in
    rw (← sized, long, take-append nonce body, drop-append nonce body) refl

opened-ok : {r : Result Bytes} {p : Bytes} → r ≡ ok p → opened r ≡ ok p
unfolding opened
opened-ok h = rw h refl

sealed_with-ok :
    (gcm : Aead) (p : Bytes) (drawn : Result Bytes) {ct : Bytes}
    → sealed_with gcm p drawn ≡ ok ct
    → (nonce : Bytes) × (drawn ≡ ok nonce) × (nonce ++ gcm.seal nonce p ≡ ct)
unfolding sealed_with
sealed_with-ok gcm p (err e) h = cc
sealed_with-ok gcm p (ok nonce) h = (nonce, refl, ok-injective h)

module _ {Block : Type 0} (lib : Primitives Block) (lawful : AreLawful lib) where
  aead_opens :
      (gcm : Aead) (seed : ℕ) (plaintext ct : Bytes)
      → IsAead gcm
      → AreBytes plaintext
      → aes_encrypt lib gcm seed plaintext ≡ ok ct
      → AreBytes ct × (aes_decrypt gcm ct ≡ ok plaintext)
  unfolding aes_encrypt
  aead_opens gcm seed plaintext ct sound bytes e =
      let (nonce, drawn, sealed) =
        sealed_with-ok gcm plaintext (lib.read_full seed gcm.nonce_size) e in
      let (sized, fresh) = lawful.fills seed gcm.nonce_size drawn in
      let body = gcm.seal nonce plaintext in
      subst (λ ct. AreBytes ct × (aes_decrypt gcm ct ≡ ok plaintext)) sealed
        (
          All-append _ nonce body fresh (sound.bytes nonce plaintext bytes),
          aes_decrypt-nonce gcm nonce body sized
              ∙ opened-ok (sound.opens nonce plaintext bytes sized),
        )

  -- A cipher that was built is the AEAD of its key under the version it was given.
  built :
      (version secret : Bytes) {c : MessageCipher}
      → new_aes256_gcm_cipher lib version secret ≡ ok c
      → (gcm : Aead) × IsAead gcm × (aes256_gcm_cipher lib version gcm ≡ c)
  unfolding new_aes256_gcm_cipher
  built version [] e = cc
  built version (s ∷ secret) {c} e =
      let key = lib.new_cipher (lib.sum256 (s ∷ secret)) in
      let (block, keyed, rest) =
        >>=-eq-ok (refused_key key)
          (λ block. refused_key (lib.new_gcm block) >>= (λ g. ok (aes256_gcm_cipher lib version g)))
          {last = c} e in
      let (gcm, moded, same) =
        >>=-eq-ok (refused_key (lib.new_gcm block)) (λ g. ok (aes256_gcm_cipher lib version g))
          {last = c} rest in
      (gcm, lawful.gcm block (refused_key-ok (lib.new_gcm block) moded), ok-injective same)

  -- A cipher that NewAES256GCMCipher built has the version it was given, and what it encrypts are
  -- bytes that it decrypts again; where the libraries do as documented and the plaintext is bytes.
  pub aes_decrypt-aes_encrypt :
      (version secret : Bytes) (c : MessageCipher) (seed : ℕ) (plaintext ct : Bytes)
      → new_aes256_gcm_cipher lib version secret ≡ ok c
      → AreBytes plaintext
      → c.encrypt seed plaintext ≡ ok ct
      → (c.version ≡ version) × AreBytes ct × (c.decrypt ct ≡ ok plaintext)
  unfolding aes256_gcm_cipher
  aes_decrypt-aes_encrypt version secret c seed plaintext ct e bytes =
      let (gcm, sound, same) = built version secret {c = c} e in
      subst
        (λ c.
          c.encrypt seed plaintext ≡ ok ct
          → (c.version ≡ version) × AreBytes ct × (c.decrypt ct ≡ ok plaintext))
        same
        (λ sealed.
          let (framed, opens) = aead_opens gcm seed plaintext ct sound bytes sealed in
          (refl, framed, opens))

  -- A registry whose current cipher is one that NewAES256GCMCipher built encrypts bytes so that
  -- every registry which holds that cipher under its version decrypts them; where the libraries do
  -- as documented.
  pub registry_decrypt-aes :
      (version secret v : Bytes) (cs : List MessageCipher) (r later : CipherRegistry) (seed : ℕ)
      (plaintext stored : Bytes)
      → new_aes256_gcm_cipher lib version secret ≡ ok r.current
      → new_cipher_registry cs v ≡ ok r
      → lookup r.current.version later.by_version ≡ some r.current
      → AreBytes plaintext
      → registry_encrypt r seed plaintext ≡ ok stored
      → registry_decrypt later stored ≡ ok plaintext
  registry_decrypt-aes version secret v cs r later seed plaintext stored e made kept bytes sealed =
      decrypt-encrypt_at cs v r later seed plaintext stored made
        (λ ct sealed.
          let (named, framed, opens) =
            aes_decrypt-aes_encrypt version secret r.current seed plaintext ct e bytes sealed in
          (framed, opens))
        kept sealed
