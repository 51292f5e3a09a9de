-- ===== src/Messaging.antt =====
-- messaging.go: New, Receive, Enqueue and EnqueueBatch.
pub mod Process
pub mod Goroutines
pub mod Building
pub mod Insertion
pub mod Deduplication
use go_messaging.Prelude.{
  ℕ, ◌+◌, ◌-◌, ℤ, pos, pos_part, neg_part, leb_ℤ, ltb_ℤ, Bool, true, false, Option, none, some,
  List, [], ◌∷◌, ◌++◌, map, Bytes, codes, if◌then◌else◌,
}
use go_messaging.Message.{
  Message, Time, Error, is_duplicate, LogLevel, debug, info, warn, error, logged, dedup_hit,
  dedup_miss,
}
use go_messaging.Backoff.{Backoff}
use go_messaging.Config.{Config, with_defaults, Options, Setting, apply_options, CallOptions}
use go_messaging.Cipher.{Result, ok, err}
use go_messaging.Crypto.Registry.{CipherRegistry, registry_of}
use go_messaging.Names.{assert_valid_name}
use go_messaging.Database.{
  World, Act, pure, raise, lift, attempt, ◌>>=◌, ◌>>◌, emit, commits, in_tx,
}
use go_messaging.Store.{Store, HeaderCodec, insert_dedup, insert_hot, insert_hot_batch}

-- type Handler: it gets the timeout of its context and the message, and returns an error text or
-- none. What it writes, and what others write while it runs, is in the world that it leaves.
abbrev pub Handler : Type 0
Handler = Option ℤ → Message → World → Option Bytes × World

-- type topicRegistration struct
pub record TopicRegistration : Type 0 where
  pub handler : Handler
  pub opts : CallOptions

-- type Messaging struct. `saturate` is how this machine converts a float that no int64 holds, or NaN.
pub record Messaging : Type 0 where
  pub store : Store
  pub cfg : Config
  pub backoff : Option Backoff
  pub saturate : Option ℤ → ℤ
  pub handlers : List (Bytes × TopicRegistration)
  pub default_handler : Option TopicRegistration

-- newStore
unfoldable new_store : Config → Option CipherRegistry → HeaderCodec → Store
new_store cfg cipher codec = record { cfg = with_defaults cfg; cipher = cipher; codec = codec }

unfoldable or_else {ℓ} : {A : Type ℓ} → Option A → Option A → Option A
or_else none b = b
or_else (some a) b = some a

unfoldable continue : {A B : Type 0} → Result A → (A → Result B) → Result B
continue (ok a) f = f a
continue (err e) f = err e

unfoldable build :
    Config → Options → HeaderCodec → (Option ℤ → ℤ) → Option CipherRegistry → Messaging
unfolding new_store or_else
build cfg o codec saturate cipher = record {
  store = new_store cfg cipher codec;
  cfg = cfg;
  backoff = or_else o.backoff cfg.default_backoff;
  saturate = saturate;
  handlers = [];
  default_handler = none;
}

-- New
unfoldable pub new_messaging :
    Config → List Setting → HeaderCodec → (Option ℤ → ℤ) → Result Messaging
unfolding build continue
new_messaging cfg settings codec saturate =
    let o = apply_options settings in
    continue (assert_valid_name cfg.name) λ _.
      continue (registry_of o.ciphers o.current_cipher_version)
        λ cipher. ok (build (with_defaults cfg) o codec saturate cipher)

-- `if msg.MaxRetries <= 0`
unfoldable pub with_retries : Messaging → Message → Message
with_retries m msg =
    if leb_ℤ msg.max_retries (pos 0)
    then record msg { max_retries = m.cfg.default_max_retries }
    else msg

-- t.Add(d); the origin of times is the year 1, and a duration spans 292 years at most.
unfoldable add_duration : Time → ℤ → Time
add_duration t d = t + pos_part d - neg_part d

pub expiry : ℤ → Time → Option Time
unfolding add_duration
expiry ttl now = if ltb_ℤ (pos 0) ttl then some (add_duration now ttl) else none

unfoldable pub receive_refused : Message → Error → Act Bool
receive_refused msg e =
    if is_duplicate e
    then (do
      emit dedup_hit
      emit (logged debug (codes "receive.duplicate") msg.message_id)
      pure false)
    else (do emit (logged error (codes "receive.error") msg.message_id); raise e)

unfoldable pub receive_stored : Message → Result (Unit {0}) → Act Bool
receive_stored msg (err e) = do emit (logged error (codes "receive.error") msg.message_id); raise e
receive_stored msg (ok u) = do
  emit dedup_miss
  emit (logged info (codes "receive") msg.message_id)
  pure true

unfoldable pub receive_new : Store → Message → Result (Unit {0}) → Act Bool
unfolding receive_refused receive_stored
receive_new s msg (err e) = receive_refused msg e
receive_new s msg (ok u) = do r ← attempt (insert_hot s msg); receive_stored msg r

-- (*Messaging).Receive. A transaction of the caller and the plain connection see the same two
-- statements; the caller's transaction is undone by the caller (`in_tx`), the connection by nobody.
unfoldable pub receive : Messaging → Message → Act Bool
unfolding receive_new with_retries expiry
receive m msg w =
    let msg' = with_retries m msg in
    (do
      r ← attempt (insert_dedup m.store msg' (expiry m.cfg.dedup_ttl w.local_now))
      receive_new m.store msg' r)
      w

unfoldable pub enqueue_done : Message → Result (Unit {0}) → Act (Unit {0})
enqueue_done msg (ok u) = emit (logged info (codes "enqueue") msg.message_id)
enqueue_done msg (err e) = do emit (logged error (codes "enqueue.error") msg.message_id); raise e

-- Whose transaction the insert runs in: the caller's, or one of its own.
pub data Tx : Type 0 where
  callers own : Tx

unfoldable pub run_in : Tx → Bytes → Act (Unit {0}) → Act (Unit {0})
run_in callers context body = body
run_in own context body = in_tx context none (do body; pure (commits tt))

-- (*Messaging).Enqueue
unfoldable pub enqueue : Messaging → Tx → Message → Act (Unit {0})
unfolding enqueue_done with_retries run_in
enqueue m tx msg =
    let msg' = with_retries m msg in
    do
      r ← attempt (run_in tx (codes "message: enqueue: begin tx") (insert_hot m.store msg'))
      enqueue_done msg' r

-- (*Messaging).EnqueueBatch
unfoldable pub enqueue_batch : Messaging → Tx → List Message → Act (Unit {0})
unfolding with_retries run_in
enqueue_batch m tx [] = pure tt
enqueue_batch m tx (msg ∷ msgs) =
    run_in tx (codes "message: enqueue batch: begin tx")
      (insert_hot_batch m.store (map (with_retries m) (msg ∷ msgs)))
