-- ===== src/Store/Scan.antt =====
-- store.go: rows as messages, and `hydrate`, which decrypts and reads the headers.
pub mod RoundTrip
use go_messaging.Prelude.{
  Bool, true, false, Option, none, some, List, [], ◌∷◌, ◌++◌, Bytes, codes, if◌then◌else◌,
}
use go_messaging.Message.{Headers, Message, err_no_cipher, text, wrapped}
use go_messaging.Cipher.{Result, ok, err}
use go_messaging.Crypto.Registry.{CipherRegistry, registry_decrypt}
use go_messaging.Database.{HotRow, Act, pure, lift, ◌>>=◌, ◌>>◌, wrapping, db_call}
use go_messaging.Store.{Store, HeaderCodec}

-- sql.NullString.String: NULL is read as the empty string.
unfoldable pub or_empty : Option Bytes → Bytes
or_empty none = []
or_empty (some s) = s

-- The assignments of scanMessageRow.
unfoldable pub message_of : HotRow → Message
unfolding or_empty
message_of r = record {
  message_id = r.message_id;
  partition_key = or_empty r.partition_key;
  topic = r.topic;
  payload = r.payload;
  headers = [];
  source = or_empty r.source;
  encrypted = r.encrypted;
  status = r.status;
  retry_count = r.retry_count;
  max_retries = r.max_retry;
  next_retry_at = r.next_retry_at;
  processing_by = r.processing_by;
  processing_at = r.processing_at;
  created_at = r.created_at;
  processed_at = r.processed_at;
  last_error = r.last_error;
  raw_headers = r.headers;
}

-- What the errors about a row say: "<verb> <kind>payload <id>" and the like.
pub record Labels : Type 0 where
  pub no_cipher : Bytes
  pub of_payload : Bytes
  pub of_headers : Bytes
  pub of_json : Bytes

unfoldable pub message_labels : Bytes → Labels
message_labels id = record {
  no_cipher = codes "message: decrypt " ++ id;
  of_payload = codes "message: decrypt payload " ++ id;
  of_headers = codes "message: decrypt headers " ++ id;
  of_json = codes "message: unmarshal headers " ++ id;
}

unfoldable open_headers : Labels → Bytes → Result Bytes → Result (Bytes × Option Bytes)
open_headers l payload (ok h) = ok (payload, some h)
open_headers l payload (err e) = err (wrapped l.of_headers e)

unfoldable open_payload :
    Labels → CipherRegistry → Result Bytes → Option Bytes → Result (Bytes × Option Bytes)
unfolding open_headers
open_payload l r (err e) headers = err (wrapped l.of_payload e)
open_payload l r (ok p) none = ok (p, none)
open_payload l r (ok p) (some h) = open_headers l p (registry_decrypt r h)

-- The first half of hydrate: the two fields, decrypted where the row is encrypted.
unfoldable pub open_fields :
    Labels → Option CipherRegistry → Bool → Bytes → Option Bytes → Result (Bytes × Option Bytes)
unfolding open_payload
open_fields l cipher false payload headers = ok (payload, headers)
open_fields l none true payload headers = err (wrapped l.no_cipher err_no_cipher)
open_fields l (some r) true payload headers = open_payload l r (registry_decrypt r payload) headers

unfoldable pub set_headers : Labels → Message → Option Headers → Result (Unit {0}) × Message
set_headers l m none = (err (wrapped l.of_json (text (codes "invalid headers"))), m)
set_headers l m (some hs) = (ok tt, record m { headers = hs })

unfoldable pub settle :
    HeaderCodec → Labels → Message → Result (Bytes × Option Bytes) → Result (Unit {0}) × Message
unfolding set_headers
settle c l m (err e) = (err e, m)
settle c l m (ok (p, none)) = (ok tt, record m { payload = p; raw_headers = none })
settle c l m (ok (p, some h)) =
    set_headers l (record m { payload = p; raw_headers = none }) (c.unmarshal h)

-- (*store).hydrate: the error, and the message as it is left.
unfoldable pub hydrate : Store → Message → Result (Unit {0}) × Message
unfolding open_fields settle message_labels
hydrate s m =
    let l = message_labels m.message_id in
    settle s.codec l m (open_fields l s.cipher m.encrypted m.payload m.raw_headers)

-- (*store).hydrateSafe
unfoldable hydrate_safe : Store → Message → Message
hydrate_safe s m = (hydrate s m).1

-- scanMessageRow: reading the columns is one more call that may fail.
unfoldable pub scan_message_row : HotRow → Act Message
unfolding message_of
scan_message_row r = do wrapping (codes "message: scan row") db_call; pure (message_of r)

unfoldable pub hydrated_or : Result (Unit {0}) × Message → Result Message
hydrated_or (ok u, m) = ok m
hydrated_or (err e, m) = err e

-- Rows that are not encrypted are hydrated at once.
unfoldable pub hydrate_plain : Store → Message → Result Message
unfolding hydrated_or
hydrate_plain s m = if m.encrypted then ok m else hydrated_or (hydrate s m)

-- (*store).scanMessages; it ends with rows.Err().
unfoldable pub scan_messages : Store → List HotRow → Act (List Message)
unfolding scan_message_row hydrate_plain
scan_messages s [] = do db_call; pure []
scan_messages s (r ∷ rs) = do
  m ← scan_message_row r
  m' ← lift (hydrate_plain s m)
  ms ← scan_messages s rs
  pure (m' ∷ ms)

-- (*store).scanMessagesSafe
pub scan_messages_safe : Store → List HotRow → Act (List Message)
unfolding scan_message_row
scan_messages_safe s [] = do db_call; pure []
scan_messages_safe s (r ∷ rs) = do
  m ← scan_message_row r
  ms ← scan_messages_safe s rs
  pure (hydrate_safe s m ∷ ms)
