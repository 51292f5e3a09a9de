-- ===== src/Store.antt =====
-- store.go: the statements of the package on the three tables.
pub mod Scan
pub mod Archived
pub mod Claims
use mathlib.Core.Option
use go_messaging.Prelude.{
  ℕ, suc, ◌+◌, ltb, leb, Bool, true, false, not, ◌&&◌, ◌||◌, Option, none, some, List, [], ◌∷◌,
  ◌++◌, map, Bytes, codes, bytes_eq, take, if◌then◌else◌,
}
use go_messaging.Message.{
  Status, pending, processing, retry, failed, final_processed, Headers, Message, Time, Error,
  err_duplicate, err_no_cipher, text, wrapped,
}
use go_messaging.Backoff.{truncate_error}
use go_messaging.Config.{Config}
use go_messaging.Cipher.{Result, ok, err}
use go_messaging.Crypto.Registry.{CipherRegistry, registry_encrypt, registry_decrypt}
use go_messaging.Database.{
  DedupRow, HotRow, ArchiveRow, Tables, World, Act, pure, raise, lift, ◌>>=◌, ◌>>◌, wrapping,
  db_call, execute, rows_affected, rows_affected_or_zero, TxEnd, commits, rolls_back, in_tx,
}
use go_messaging.Database.Rows.{
  select_where, update_where, delete_where, count_where, order_by, member, at_value, is_null,
}

-- encoding/json on map[string]string: Marshal cannot fail, Unmarshal can.
pub record HeaderCodec : Type 0 where
  pub marshal : Headers → Bytes
  pub unmarshal : Bytes → Option Headers

-- type store struct; the tables are those of the world.
pub record Store : Type 0 where
  pub cfg : Config
  pub cipher : Option CipherRegistry
  pub codec : HeaderCodec

-- nullString
pub null_string : Bytes → Option Bytes
null_string [] = none
null_string (c ∷ cs) = some (c ∷ cs)

-- s.cipher != nil
unfoldable is_encrypting : Option CipherRegistry → Bool
is_encrypting none = false
is_encrypting (some r) = true

unfoldable pub encrypt_with : CipherRegistry → Bytes → Act Bytes
encrypt_with r plaintext w = (registry_encrypt r w.seed plaintext, record w { seed = suc w.seed })

unfoldable pub prepare_with : Option CipherRegistry → Bytes → Bytes → Act (Bytes × Bytes)
unfolding encrypt_with
prepare_with none payload headers = pure (payload, headers)
prepare_with (some r) payload headers = do
  out_payload ← wrapping (codes "message: encrypt payload") (encrypt_with r payload)
  out_headers ← wrapping (codes "message: encrypt headers") (encrypt_with r headers)
  pure (out_payload, out_headers)

-- (*store).prepareFields
unfoldable pub prepare_fields : Store → Bytes → Headers → Act (Bytes × Bytes)
unfolding prepare_with
prepare_fields s payload headers = prepare_with s.cipher payload (s.codec.marshal headers)

-- INSERT … ON CONFLICT (message_id) DO NOTHING: the rows, and how many were inserted.
unfoldable pub insert_dedup_row : DedupRow → List DedupRow → ℕ × List DedupRow
unfolding count_where
insert_dedup_row row rows =
    if leb 1 (count_where (λ r. bytes_eq r.message_id row.message_id) rows)
    then (0, rows)
    else (1, rows ++ row ∷ [])

unfoldable pub insert_hot_row : HotRow → List HotRow → List HotRow
unfolding count_where
insert_hot_row row rows =
    if leb 1 (count_where (λ r. bytes_eq r.message_id row.message_id) rows)
    then rows
    else rows ++ row ∷ []

unfoldable pub insert_dedup_statement : DedupRow → World → Option (ℕ × Tables)
unfolding insert_dedup_row
insert_dedup_statement row w =
    if w.engine.accepts_dedup row
    then (let (n, rows) = insert_dedup_row row w.dedup in
        some (n, record w.tables { dedup = rows }))
    else none

-- (*store).insertDedup
unfoldable pub insert_dedup : Store → Message → Option Time → Act (Unit {0})
unfolding insert_dedup_statement null_string
insert_dedup s msg expire_at = do
  n ← wrapping (codes "message: insert dedup") (
      execute (λ w.
        insert_dedup_statement
          (record {
            message_id = msg.message_id;
            partition_key = null_string msg.partition_key;
            topic = msg.topic;
            source = null_string msg.source;
            first_seen_at = w.now;
            expire_at = expire_at;
          })
          w))
  rows ← wrapping (codes "message: insert dedup rows affected") (rows_affected n)
  if ltb 0 rows then pure tt else raise err_duplicate

-- The row that a message is inserted as.
unfoldable pub hot_row : Store → Message → Bytes → Bytes → Time → HotRow
unfolding null_string is_encrypting
hot_row s msg payload headers created_at = record {
  message_id = msg.message_id;
  partition_key = null_string msg.partition_key;
  topic = msg.topic;
  payload = payload;
  headers = some headers;
  source = null_string msg.source;
  encrypted = is_encrypting s.cipher;
  status = pending;
  retry_count = 0;
  max_retry = msg.max_retries;
  next_retry_at = none;
  processing_by = none;
  processing_at = none;
  created_at = created_at;
  processed_at = none;
  last_error = none;
}

-- The JSONB columns hold what the database makes of the two values.
unfoldable pub stored_as : (Bytes → Bytes) → HotRow → HotRow
stored_as jsonb r = record r { payload = jsonb r.payload; headers = Option.map jsonb r.headers }

unfoldable pub insert_rows : (Bytes → Bytes) → List HotRow → List HotRow → List HotRow
unfolding insert_hot_row stored_as
insert_rows jsonb [] rows = rows
insert_rows jsonb (r ∷ rs) rows = insert_rows jsonb rs (insert_hot_row (stored_as jsonb r) rows)

pub all_accepted : (HotRow → Bool) → List HotRow → Bool
all_accepted accepts [] = true
all_accepted accepts (r ∷ rs) = accepts r && all_accepted accepts rs

-- One statement inserts all the rows, or none where the database refuses one.
unfoldable pub insert_hot_statement : List HotRow → World → Option (Unit {0} × Tables)
unfolding insert_rows all_accepted
insert_hot_statement new w =
    if all_accepted w.engine.accepts_hot new
    then some (tt, record w.tables { hot = insert_rows w.engine.jsonb new w.hot })
    else none

-- (*store).insertHot
unfoldable pub insert_hot : Store → Message → Act (Unit {0})
unfolding prepare_fields insert_hot_statement hot_row
insert_hot s msg = do
  (payload, headers) ← prepare_fields s msg.payload msg.headers
  wrapping (codes "message: insert hot")
      (execute (λ w. insert_hot_statement (hot_row s msg payload headers w.local_now ∷ []) w))

unfoldable pub prepare_rows : Store → Time → List Message → Act (List HotRow)
unfolding prepare_fields hot_row
prepare_rows s now [] = pure []
prepare_rows s now (msg ∷ msgs) = do
  (payload, headers) ← prepare_fields s msg.payload msg.headers
  rows ← prepare_rows s now msgs
  pure (hot_row s msg payload headers now ∷ rows)

-- (*store).insertHotBatch; all rows have one creation time.
unfoldable pub insert_hot_batch : Store → List Message → Act (Unit {0})
unfolding prepare_rows insert_hot_statement
insert_hot_batch s [] w = (ok tt, w)
insert_hot_batch s (msg ∷ msgs) w =
    (do
      rows ← prepare_rows s w.local_now (msg ∷ msgs)
      wrapping (codes "message: insert hot batch") (execute (insert_hot_statement rows)))
      w
