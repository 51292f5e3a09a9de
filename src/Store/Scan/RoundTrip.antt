-- ===== src/Store/Scan/RoundTrip.antt =====
-- store.go, prepareFields and hydrate: what is stored encrypted is read back.
use go_messaging.Prelude.{suc, ◌≡◌, ap, ◌∙◌, true, none, some, List, Bytes, codes}
use go_messaging.Message.{Message, Headers}
use go_messaging.Config.{Config}
use go_messaging.Cipher.{Result, ok, err, MessageCipher}
use go_messaging.Crypto.Registry.{
  CipherRegistry, new_cipher_registry, registry_encrypt, registry_decrypt,
}
use go_messaging.Crypto.Registry.Rotation.{IsSound, decrypt-encrypt_self}
use go_messaging.Database.{World, ◌>>=◌, in_context, continue}
use go_messaging.Store.{HeaderCodec, prepare_fields, prepare_with, encrypt_with}
use go_messaging.Store.Scan.{
  hydrate, open_fields, open_payload, open_headers, settle, set_headers, message_labels,
}

module _ (r : CipherRegistry) (headers p h : Bytes) where
  second-eq-ok :
      (a : Bytes) (y : Result Bytes) (w : World)
      → (continue {B = Bytes × Bytes}
          (in_context (codes "message: encrypt headers") (y, w))
          (λ b w2. (ok (a, b), w2))).0
        ≡ ok (p, h)
      → (a ≡ p) × (y ≡ ok h)
  second-eq-ok a (err f) w e = cc
  second-eq-ok a (ok b) w e = (cc, cc)

  first-eq-ok :
      (x : Result Bytes) (w : World)
      → (continue {B = Bytes × Bytes}
          (in_context (codes "message: encrypt payload") (x, w))
          (λ a w1.
            continue {B = Bytes × Bytes}
              (in_context (codes "message: encrypt headers") (encrypt_with r headers w1))
              (λ b w2. (ok (a, b), w2)))).0
        ≡ ok (p, h)
      → (x ≡ ok p) × (registry_encrypt r w.seed headers ≡ ok h)
  unfolding encrypt_with
  first-eq-ok (err f) w e = cc
  first-eq-ok (ok a) w e =
      let (same, sealed) =
        second-eq-ok a (registry_encrypt r w.seed headers) (record w { seed = suc w.seed }) e in
      (ap ok same, sealed)

  -- The two encryptions that prepareFields makes, where it succeeds.
  prepare_with-eq-ok :
      (payload : Bytes) (w : World)
      → (prepare_with (some r) payload headers w).0 ≡ ok (p, h)
      → (registry_encrypt r w.seed payload ≡ ok p)
        × (registry_encrypt r (suc w.seed) headers ≡ ok h)
  unfolding prepare_with encrypt_with ◌>>=◌
  prepare_with-eq-ok payload w e =
      first-eq-ok (registry_encrypt r w.seed payload) (record w { seed = suc w.seed }) e

-- The fields of a row, opened.
open_fields-eq-ok :
    (id : Bytes) (r : CipherRegistry) (p h payload headers : Bytes)
    → registry_decrypt r p ≡ ok payload
    → registry_decrypt r h ≡ ok headers
    → open_fields (message_labels id) (some r) true p (some h) ≡ ok (payload, some headers)
unfolding open_fields open_payload open_headers
open_fields-eq-ok id r p h payload headers e f =
    ap (λ x. open_payload (message_labels id) r x (some h)) e
    ∙ ap (open_headers (message_labels id) payload) f

-- In a store with a registry of ciphers that was built and whose current cipher is sound, whatever
-- row is read with the payload and the headers that prepareFields made of a message's is hydrated to
-- a message with the payload and the headers of the first, and without error. It is asked that the
-- encoding of headers reads back what it has written.
pub hydrate-prepare_fields :
    (cfg : Config) (codec : HeaderCodec) (r : CipherRegistry) (cs : List MessageCipher) (v : Bytes)
    (payload : Bytes) (headers : Headers) (w : World) (p h : Bytes) (msg : Message)
    → new_cipher_registry cs v ≡ ok r
    → IsSound r.current
    → codec.unmarshal (codec.marshal headers) ≡ some headers
    → (prepare_fields (record { cfg = cfg; cipher = some r; codec = codec }) payload headers w).0
      ≡ ok (p, h)
    → hydrate
        (record { cfg = cfg; cipher = some r; codec = codec })
        (record msg { encrypted = true; payload = p; raw_headers = some h })
      ≡ (
        ok tt,
        record msg { encrypted = true; payload = payload; headers = headers; raw_headers = none },
      )
unfolding prepare_fields hydrate settle set_headers
hydrate-prepare_fields cfg codec r cs v payload headers w p h msg built sound reads e =
    let (sealed, sealed_headers) = prepare_with-eq-ok r (codec.marshal headers) p h payload w e in
    ap
      (settle codec (message_labels msg.message_id)
        (record msg { encrypted = true; payload = p; raw_headers = some h }))
      (open_fields-eq-ok msg.message_id r p h payload (codec.marshal headers)
        (decrypt-encrypt_self cs v r w.seed payload p built sound sealed)
        (decrypt-encrypt_self cs v r (suc w.seed) (codec.marshal headers) h built sound
          sealed_headers))
    ∙ ap
        (set_headers (message_labels msg.message_id)
          (record msg { encrypted = true; payload = payload; raw_headers = none }))
        reads
