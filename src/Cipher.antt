-- ===== src/Cipher.antt =====
-- crypto.go: the interface of a cipher, and results of calls that may return an error.
use go_messaging.Prelude.{ℕ, Bytes, ◌≡◌, refl}
use go_messaging.Message.{Error}

-- The result of a call that may return an error.
pub data Result {ℓ} (A : Type ℓ) : Type ℓ where
  ok : A → Result A
  err : Error → Result A

module _ {ℓ κ} {A : Type ℓ} {B : Type κ} where
  -- if err != nil { return …, err }
  infixl 5 ◌>>=◌
  abbrev pub ◌>>=◌ : Result A → (A → Result B) → Result B
  err e >>= next = err e
  ok value >>= next = next value

-- type MessageCipher interface. The number stands for the randomness that an encryption draws.
pub record MessageCipher : Type 0 where
  pub version : Bytes
  pub encrypt : ℕ → Bytes → Result Bytes
  pub decrypt : Bytes → Result Bytes

module _ {ℓ κ} {A : Type ℓ} {B : Type κ} where
  -- Inversion of a chain that returned a value.
  pub >>=-eq-ok :
      (first : Result A) (next : A → Result B) {last : B}
      → (first >>= next) ≡ ok last
      → (value : A) × (first ≡ ok value) × (next value ≡ ok last)
  >>=-eq-ok (err e) next h = cc
  >>=-eq-ok (ok value) next h = (value, refl, h)

pub ok-injective {ℓ} : {A : Type ℓ} {a b : A} → ok a ≡ ok b → a ≡ b
ok-injective h = cc
