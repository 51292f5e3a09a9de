-- ===== src/Tests.antt =====
-- The parts without a database at concrete values: names, delays, defaults, the runner, the schema.
mod Ciphers
mod Cut
mod Queries
use mathlib.Core.Path.{subst}
use go_messaging.Prelude.{
  ◌⊎◌, ◌↔◌, ℕ, zero, suc, ap, ◌==◌, ◌≡◌, ◌≢◌, false, All, ◌≤◌, refl, arith, pos, negsuc, Bool, true,
  ◌&&◌, none, Option, some, [], ◌∷◌, ◌++◌, Bytes, bytes_eq, codes, length, take, ltb, if◌then◌else◌,
  Bool-cases, inl, inr, ◌%◌,
}
use go_messaging.Message.{text}
use go_messaging.Backoff.{linear, exponential, next_delay, truncate_error}
use go_messaging.Backoff.Delays.{
  exponential-eq-min, exponential-overflow, min_int64, truncate_error_prefix,
}
use go_messaging.Config.{Config, with_defaults}
use go_messaging.Crypto.Registry.{registry_of}
use go_messaging.Config.{apply_options}
use go_messaging.Messaging.{Messaging, new_messaging}
use go_messaging.Messaging.Building.{IsBuilt, new_messaging-IsBuilt}
use go_messaging.Cipher.{Result, ok, err, MessageCipher, ok-injective}
use go_messaging.Crypto.Base64
use go_messaging.Crypto.Json.{marshal_string, unmarshal_string}
use go_messaging.Crypto.Json.RoundTrip.{unmarshal_string-marshal_string}
use go_messaging.Crypto.Registry.{
  CipherRegistry, new_cipher_registry, registry_encrypt, registry_decrypt, stamp, lookup,
  is_version, is_version_char,
}
use go_messaging.Crypto.Registry.Rotation.{IsSound, decrypt-encrypt}
use go_messaging.Crypto.Aes.{
  Aead, Primitives, aes_encrypt, aes256_gcm_cipher, new_aes256_gcm_cipher,
}
use go_messaging.Crypto.Aes.Framing.{
  IsAead, AreLawful, aes_decrypt-aes_encrypt, registry_decrypt-aes,
}
use go_messaging.Database.{◌>>=◌}
use go_messaging.Store.{prepare_fields, prepare_with, encrypt_with}
use go_messaging.Store.Scan.{hydrate}
use go_messaging.Store.Scan.RoundTrip.{hydrate-prepare_fields}
use go_messaging.System.Fixtures.{config, codec, order, empty_world}
use go_messaging.Names.{assert_valid_name, all_name_chars, is_name_char, table_name}
use go_messaging.Runner.{
  Runner, born, polling, close_done, is_closed, start, stop, starts_loop, stops_loop, enters,
  returns, stay, step_on,
}
use go_messaging.Runner.Prompt.{Prompt, idle, goes_on, new_runner}
use go_messaging.Runner.Returning.{CanClose, stops_return}
use go_messaging.Runner.Stopping.{stop_never_returns}
use go_messaging.Schema.{
  Relation, carry_out, index_of, migrate, drop_schema_tables, schema, drop_schema, run_from,
  has_name, add_relation,
}
use go_messaging.Database.Rows.{delete_where}
use go_messaging.Schema.Reruns.{no_fault, migrate-resumes, belongs}
use go_messaging.Schema.Teardown.{drop_schema_tables-migrate}
use go_messaging.Schema.Indexes.{archive_indexes_collide}
use go_messaging.Names.Identifiers.{length-table_name, IsSameTable, table_name-IsSameTable}

length-table_name_example : length (table_name (codes "asset") (codes "archive")) ≤ 63
unfolding assert_valid_name all_name_chars is_name_char
length-table_name_example =
    length-table_name (codes "asset") (codes "archive") refl (inr (inr refl))

-- Two names that differ in the case of a letter, and have the same table.
table_name-IsSameTable_example :
    IsSameTable
      (table_name (codes "Asset") (codes "hot"))
      (table_name (codes "asset") (codes "hot"))
    ↔ IsSameTable (codes "Asset") (codes "asset")
table_name-IsSameTable_example =
    table_name-IsSameTable (codes "Asset") (codes "asset") (codes "hot")

abbrev unset : Config
unset = record {
  name = codes "asset";
  default_max_retries = pos 0;
  default_backoff = none;
  worker_id = [];
  claim_timeout = negsuc 3;
  dedup_ttl = pos 0;
  failed_retention = pos 0;
  concurrency = pos 0;
  handler_timeout = pos 0;
}

abbrev made : Messaging
made = record {
  store = record { cfg = with_defaults (with_defaults unset); cipher = none; codec = codec };
  cfg = with_defaults unset;
  backoff = some (linear (pos 1_000_000_000));
  saturate = λ x. min_int64;
  handlers = [];
  default_handler = none;
}

new_messaging-IsBuilt_example : IsBuilt made × (made.cfg.name ≡ codes "asset")
unfolding new_messaging assert_valid_name all_name_chars is_name_char registry_of apply_options
    with_defaults
new_messaging-IsBuilt_example = new_messaging-IsBuilt unset [] codec (λ x. min_int64) made refl

exponential-eq-min_example :
    next_delay (λ x. min_int64) (exponential (pos 10) (pos 50)) (pos 4) ≡ pos 50
exponential-eq-min_example =
    exponential-eq-min (λ x. min_int64) 10 50 3 (omega arith) (omega arith) (omega arith)
      (omega arith)

exponential-overflow_example :
    next_delay (λ _. min_int64) (exponential (pos 1_000_000_000) (pos 60_000_000_000)) (pos 35)
    ≡ min_int64
exponential-overflow_example = exponential-overflow 1_000_000_000 60_000_000_000 34 (omega arith)

truncate_error_prefix_example :
    (rest : Bytes) × (truncate_error (codes "boom") ++ rest ≡ codes "boom")
    × (length (truncate_error (codes "boom")) ≡ 4)
truncate_error_prefix_example = truncate_error_prefix (codes "boom")

abbrev long_name : Bytes
long_name = codes "a_service_whose_name_is_forty_three_letters"

long_name_valid : assert_valid_name long_name ≡ ok tt
unfolding assert_valid_name all_name_chars is_name_char
long_name_valid = refl

archive_indexes_collide_example :
    carry_out (take 63) (index_of (table_name long_name (codes "archive")) (codes "topic")) (
      carry_out
        (take 63)
        (index_of (table_name long_name (codes "archive")) (codes "message_id"))
        [])
    ≡ carry_out
        (take 63)
        (index_of (table_name long_name (codes "archive")) (codes "message_id"))
        []
archive_indexes_collide_example =
    archive_indexes_collide (take 63) long_name (codes "message_id") (codes "topic") [] (λ s. refl)
      (omega arith)

abbrev just_started : Runner
just_started = record {
  slot = some 0;
  starts = 1;
  loops = born 0 ∷ [];
  waits = [];
  closed = [];
  ended = [];
  panicked = false;
}

-- The goroutine enters after Stop, and closes a nil channel.
stop_never_returns_example : All (λ (k : ℕ). k ≢ 0) []
unfolding close_done stop is_closed
stop_never_returns_example =
    stop_never_returns 0 just_started
      (close_done none (record (stop 0 just_started) { loops = [] })) (omega arith) (tt, tt) tt
      (step_on (enters (stop 0 just_started) [] [] 0 refl) (
        step_on
          (returns (record (stop 0 just_started) { loops = polling 0 none ∷ [] }) [] [] 0 none refl
            refl)
          (stay (close_done none (record (stop 0 just_started) { loops = [] })))))

abbrev entered : Runner
entered = record (start new_runner) { loops = polling 0 (some 0) ∷ [] }

-- Stop comes after the goroutine has entered.
entered-Prompt : Prompt (stop 0 entered)
unfolding start stop
entered-Prompt =
    goes_on
      (goes_on (goes_on idle (starts_loop new_runner refl) (refl, tt))
        (enters (start new_runner) [] [] 0 refl) (tt, tt))
      (stops_loop entered 0 refl) (tt, tt)

stops_return_example :
    ((stop 0 entered).panicked ≡ false)
    × All
        (λ n. (is_closed n (stop 0 entered).closed ≡ true) ⊎ CanClose n (stop 0 entered))
        (stop 0 entered).waits
stops_return_example = stops_return (stop 0 entered) entered-Prompt

-- The fourth statement fails.
fails_fourth : ℕ → Option Bytes
fails_fourth i = if i == 3 then some (codes "boom") else none

abbrev public_table : Relation
public_table = record { name = codes "accounts"; table = codes "accounts" }

migrate-resumes_example :
    migrate
      (take 63)
      no_fault
      (codes "asset")
      (migrate (take 63) fails_fourth (codes "asset") (public_table ∷ [])).1
    ≡ migrate (take 63) no_fault (codes "asset") (public_table ∷ [])
migrate-resumes_example = migrate-resumes (take 63) fails_fourth (codes "asset") (public_table ∷ [])

drop_schema_tables-migrate_example :
    (drop_schema_tables
      (take 63)
      no_fault
      (codes "asset")
      (migrate (take 63) fails_fourth (codes "asset") (public_table ∷ [])).1).1
    ≡ public_table ∷ []
unfolding migrate drop_schema_tables belongs table_name bytes_eq schema drop_schema run_from
    assert_valid_name all_name_chars is_name_char has_name add_relation delete_where
drop_schema_tables-migrate_example =
    drop_schema_tables-migrate (take 63) fails_fourth no_fault (codes "asset") (public_table ∷ [])
      (refl, tt) refl
