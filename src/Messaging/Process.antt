-- ===== src/Messaging/Process.antt =====
-- messaging.go: Register, RegisterDefault and ProcessBatch.
pub mod Outcomes
use go_messaging.Prelude.{
  ℕ, suc, ◌+◌, ℤ, pos, ltb_ℤ, Bool, true, false, Option, none, some, List, [], ◌∷◌, ◌++◌, Bytes,
  codes, bytes_eq, length, if◌then◌else◌,
}
use go_messaging.Message.{
  Message, Error, error_text, info, warn, error, logged, message_processed, message_retry,
  message_failed,
}
use go_messaging.Backoff.{Backoff, next_delay, to_error_message}
use go_messaging.Config.{CallOptions, apply_call_options}
use go_messaging.Cipher.{Result, ok, err}
use go_messaging.Database.{World, Act, pure, attempt, ◌>>=◌, ◌>>◌, emit}
use go_messaging.Store.Scan.{hydrate}
use go_messaging.Store.Claims.{
  claim_batch, mark_done_and_archive, mark_retry, mark_failed, dead_letter,
}
use go_messaging.Messaging.{Handler, TopicRegistration, Messaging, add_duration}

-- m.handlers[topic] = reg
unfoldable put_handler :
    Bytes → TopicRegistration → List (Bytes × TopicRegistration) → List (Bytes × TopicRegistration)
put_handler topic reg [] = (topic, reg) ∷ []
put_handler topic reg ((t, r) ∷ rest) =
    if bytes_eq t topic then (topic, reg) ∷ rest else (t, r) ∷ put_handler topic reg rest

unfoldable pub find_handler : Bytes → List (Bytes × TopicRegistration) → Option TopicRegistration
find_handler topic [] = none
find_handler topic ((t, r) ∷ rest) = if bytes_eq t topic then some r else find_handler topic rest

-- (*Messaging).Register
unfoldable register : Messaging → Bytes → Handler → List ℤ → Messaging
unfolding put_handler
register m topic handler opts = record m {
  handlers =
      put_handler topic (record { handler = handler; opts = apply_call_options opts }) m.handlers;
}

-- (*Messaging).RegisterDefault
unfoldable register_default : Messaging → Handler → List ℤ → Messaging
register_default m handler opts = record m {
  default_handler = some (record { handler = handler; opts = apply_call_options opts });
}

unfoldable timeout_or : ℤ → Option ℤ → ℤ
timeout_or d none = d
timeout_or d (some t) = t

-- (*Messaging).handlerCtx: the timeout of the handler's context, none where it is only cancelled.
unfoldable pub call_timeout : Messaging → CallOptions → Option ℤ
unfolding timeout_or
call_timeout m co =
    let t = timeout_or m.cfg.handler_timeout co.handler_timeout in
    if ltb_ℤ (pos 0) t then some t else none

unfoldable delay_of : Messaging → Option Backoff → ℕ → ℤ
delay_of m none n = pos 0
delay_of m (some b) n = next_delay m.saturate b (pos n)

-- `if err == nil && owned`
unfoldable pub if_owned : Result Bool → Act (Unit {0}) → Act (Unit {0})
if_owned (ok true) report = report
if_owned _ report = pure tt

-- (*Messaging).handleRetry
unfoldable pub handle_retry : Messaging → Message → Bytes → Act (Unit {0})
unfolding delay_of if_owned add_duration
handle_retry m msg handler_err w =
    let retry_count = msg.retry_count + 1 in
    (if ltb_ℤ msg.max_retries (pos retry_count)
        then (do
          r ← attempt (mark_failed m.store msg.message_id handler_err)
          if_owned r (do
            emit (message_failed msg.topic)
            emit (logged error (codes "process.failed") msg.message_id)))
        else (do
          r ← attempt (
              mark_retry m.store msg.message_id retry_count
                (add_duration w.local_now (delay_of m m.backoff retry_count)) handler_err)
          if_owned r (do
            emit (message_retry msg.topic)
            emit (logged warn (codes "process.retry") msg.message_id))))
      w

unfoldable pub archived : Message → Result Bool → Act (Unit {0})
archived msg (err e) = emit (logged error (codes "process.archive_error") msg.message_id)
archived msg (ok false) = pure tt
archived msg (ok true) = do
  emit (message_processed msg.topic)
  emit (logged info (codes "processed") msg.message_id)

-- What follows the handler's return.
unfoldable pub after_handler : Messaging → Message → Option Bytes → Act (Unit {0})
unfolding archived
after_handler m msg (some handler_err) w = handle_retry m msg handler_err w
after_handler m msg none w =
    (do r ← attempt (mark_done_and_archive m.store msg.message_id w.local_now); archived msg r) w

unfoldable pub run_handler : Messaging → Message → Handler → CallOptions → Act (Unit {0})
run_handler m msg handler co w =
    let (e, w') = handler (call_timeout m co) msg w in after_handler m msg e w'

-- A row that cannot be handled is dead-lettered, whatever that call returns.
unfoldable pub give_up : Message → Bytes → Bytes → Act (Unit {0})
give_up msg reason event = do
  attempt (dead_letter msg.message_id reason)
  emit (message_failed msg.topic)
  emit (logged error event msg.message_id)

unfoldable pub hydrated :
    Messaging → Handler → CallOptions → Result (Unit {0}) × Message → Act (Unit {0})
hydrated m handler co (ok u, msg) = run_handler m msg handler co
hydrated m handler co (err e, msg) =
    give_up msg (codes "message decrypt failed: " ++ to_error_message e)
      (codes "process.decrypt_failed")

-- (*Messaging).handleOne
unfoldable pub handle_one : Messaging → Message → Handler → CallOptions → Act (Unit {0})
unfolding hydrated run_handler give_up
handle_one m msg handler co =
    if msg.encrypted
    then hydrated m handler co (hydrate m.store msg)
    else run_handler m msg handler co

-- The handler of a message: the one given, the topic's, or the default one.
unfoldable pub route : Messaging → Option Handler → CallOptions → Bytes → Option TopicRegistration
route m (some h) co topic = some (record { handler = h; opts = co })
route m none co topic = elim (find_handler topic m.handlers) [
  | some r ↦ some r
  | none ↦ m.default_handler
]

-- A goroutine that the context stops before it has a slot leaves its message as it is.
unfoldable pub dispatch :
    Messaging → (Bytes → Bool) → Message → Option TopicRegistration → Act (Unit {0})
unfolding give_up
dispatch m admitted msg none =
    give_up msg (codes "no handler for topic: " ++ msg.topic) (codes "process.unhandled")
dispatch m admitted msg (some reg) =
    if admitted msg.message_id then handle_one m msg reg.handler reg.opts else pure tt

unfoldable pub process_all :
    Messaging → Option Handler → CallOptions → (Bytes → Bool) → List Message → Act (Unit {0})
unfolding dispatch route
process_all m handler co admitted [] = pure tt
process_all m handler co admitted (msg ∷ msgs) = do
  dispatch m admitted msg (route m handler co msg.topic)
  process_all m handler co admitted msgs

-- (*Messaging).ProcessBatch. The goroutines are run one after another: what others do meanwhile is
-- part of what a handler may do to the world. `admitted` tells which of them got a slot before the
-- context was done.
unfoldable pub process_batch : Messaging → ℤ → Option Handler → List ℤ → (Bytes → Bool) → Act ℕ
unfolding process_all
process_batch m size handler opts admitted = do
  msgs ← claim_batch m.store size
  process_all m handler (apply_call_options opts) admitted msgs
  pure (length msgs)
