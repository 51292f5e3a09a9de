-- ===== src/Invariant/Calls.antt =====
-- The calls of the package keep an invariant of the tables, if the handlers do.
use go_messaging.Prelude.{
  ◌+◌, ◌≡◌, refl, Bool, true, false, Option, none, some, List, [], ◌∷◌, Bytes, ℤ, pos, arith, leb_ℤ,
  ltb_ℤ, bytes_eq, Bool-cases, inl, inr, All, map,
}
use go_messaging.Message.{Message, Error, Event}
use go_messaging.Config.{CallOptions}
use go_messaging.Cipher.{Result, ok, err}
use go_messaging.Database.{Tables, World, Act, attempt, ◌>>=◌, ◌>>◌, emit}
use go_messaging.Database.Keeps.{
  Keeps, Keeps-bind, Keeps-attempt, Keeps-pure, Keeps-in_tx, Keeps-if, keeps_rules,
}
use go_messaging.Store.{insert_dedup}
use go_messaging.Messaging.{
  Messaging, Handler, TopicRegistration, with_retries, receive, receive_new, receive_refused,
  receive_stored, enqueue, enqueue_done, enqueue_batch, run_in, Tx, callers, own, expiry,
}
use go_messaging.Messaging.Process.{
  handle_retry, if_owned, archived, after_handler, run_handler, give_up, hydrated, handle_one,
  route, find_handler, dispatch, process_all, process_batch,
}
use go_messaging.Invariant.Interface.{TakesIn, Works}
use go_messaging.Invariant.Operations
use go_messaging.Invariant.Operations.{HasBudget}

-- The retries that a message gets by default are no negative number.
abbrev pub HasDefault : Messaging → Type 0
HasDefault m = leb_ℤ (pos 0) m.cfg.default_max_retries ≡ true

with_retries-HasBudget :
    (m : Messaging) (msg : Message) → HasDefault m → HasBudget (with_retries m msg)
unfolding with_retries
with_retries-HasBudget m msg h = ground arith

budgets :
    (m : Messaging) (msgs : List Message) → HasDefault m → All HasBudget (map (with_retries m) msgs)
budgets m [] h = tt
budgets m (msg ∷ msgs) h = (with_retries-HasBudget m msg h, budgets m msgs h)

-- A handler that keeps `P`, with what others do meanwhile.
abbrev IsTame : (Tables → Type 0) → Handler → Type 0
IsTame P h = (t : Option ℤ) (msg : Message) (w : World) → P w.tables → P (h t msg w).1.tables

abbrev pub AreTame : (Tables → Type 0) → Messaging → Type 0
AreTame P m =
    All (λ (p : Bytes × TopicRegistration). IsTame P p.1.handler) m.handlers
    × ((r : TopicRegistration) → m.default_handler ≡ some r → IsTame P r.handler)

-- The handler that a message is routed to.
abbrev TameRoute : (Tables → Type 0) → Option TopicRegistration → Type 0
TameRoute P none = Unit
TameRoute P (some r) = IsTame P r.handler

abbrev pub TameGiven : (Tables → Type 0) → Option Handler → Type 0
TameGiven P none = Unit
TameGiven P (some h) = IsTame P h

module _ {P : Tables → Type 0} (inv : TakesIn P) where
  receive_refused-Keeps : (msg : Message) (e : Error) → Keeps P (receive_refused msg e)
  unfolding receive_refused
  receive_refused-Keeps msg e = search keeps_rules depth 7

  receive_stored-Keeps : (msg : Message) (r : Result (Unit {0})) → Keeps P (receive_stored msg r)
  unfolding receive_stored
  receive_stored-Keeps msg (ok u) = search keeps_rules
  receive_stored-Keeps msg (err e) = search keeps_rules

  pub receive-Keeps : (m : Messaging) (msg : Message) → HasDefault m → Keeps P (receive m msg)
  unfolding receive receive_new
  receive-Keeps m msg h = record { at = λ w v. (by_clock w).at w v }
    where
      msg' : Message
      msg' = with_retries m msg

      new-Keeps : (r : Result (Unit {0})) → Keeps P (receive_new m.store msg' r)
      new-Keeps (err e) = receive_refused-Keeps msg' e
      new-Keeps (ok u) =
          Keeps-bind _ _
            (Keeps-attempt _
              (Operations.insert_hot-Keeps inv m.store msg' (with_retries-HasBudget m msg h)))
            (λ r. receive_stored-Keeps msg' r)

      by_clock :
          (w : World)
          → Keeps P (
              attempt (insert_dedup m.store msg' (expiry m.cfg.dedup_ttl w.local_now)) >>= λ r.
              receive_new m.store msg' r)
      by_clock w =
          Keeps-bind _ _ (Keeps-attempt _ (Operations.insert_dedup-Keeps inv m.store msg' _))
            (λ r. new-Keeps r)

  enqueue_done-Keeps : (msg : Message) (r : Result (Unit {0})) → Keeps P (enqueue_done msg r)
  unfolding enqueue_done
  enqueue_done-Keeps msg (ok u) = search keeps_rules
  enqueue_done-Keeps msg (err e) = search keeps_rules

  run_in-Keeps :
      (tx : Tx) (context : Bytes) (body : Act (Unit {0}))
      → Keeps P body
      → Keeps P (run_in tx context body)
  unfolding run_in
  run_in-Keeps callers context body k = k
  run_in-Keeps own context body k = Keeps-in_tx _ _ _ (search keeps_rules)

  pub enqueue-Keeps :
      (m : Messaging) (tx : Tx) (msg : Message) → HasDefault m → Keeps P (enqueue m tx msg)
  unfolding enqueue
  enqueue-Keeps m tx msg h =
      Keeps-bind _ _
        (Keeps-attempt _ (
          run_in-Keeps tx _ _
            (Operations.insert_hot-Keeps inv m.store _ (with_retries-HasBudget m msg h))))
        (λ r. enqueue_done-Keeps (with_retries m msg) r)

  pub enqueue_batch-Keeps :
      (m : Messaging) (tx : Tx) (msgs : List Message)
      → HasDefault m
      → Keeps P (enqueue_batch m tx msgs)
  unfolding enqueue_batch
  enqueue_batch-Keeps m tx [] h = Keeps-pure tt
  enqueue_batch-Keeps m tx (msg ∷ msgs) h =
      run_in-Keeps tx _ _
        (Operations.insert_hot_batch-Keeps inv m.store _ (budgets m (msg ∷ msgs) h))

module _ {P : Tables → Type 0} where
  report-Keeps : (e f : Event) → Keeps P (emit e >> emit f)
  report-Keeps e f = search keeps_rules

  if_owned-Keeps : (r : Result Bool) (m : Act (Unit {0})) → Keeps P m → Keeps P (if_owned r m)
  unfolding if_owned
  if_owned-Keeps (ok true) m k = k
  if_owned-Keeps (ok false) m k = Keeps-pure tt
  if_owned-Keeps (err e) m k = Keeps-pure tt

module _ {P : Tables → Type 0} (inv : Works P) where
  handle_retry-Keeps : (m : Messaging) (msg : Message) (e : Bytes) → Keeps P (handle_retry m msg e)
  unfolding handle_retry
  handle_retry-Keeps m msg e = record {
    at = λ w v. elim (Bool-cases (ltb_ℤ msg.max_retries (pos (msg.retry_count + 1)))) [
      | inl over ↦ rw over (
          (Keeps-bind _ _
              (Keeps-attempt _ (Operations.mark_failed-Keeps inv m.store msg.message_id e))
              (λ r. if_owned-Keeps r _ (report-Keeps _ _))).at
            w v)
      | inr room ↦ rw room (
          (Keeps-bind _ _
              (Keeps-attempt _ (Operations.mark_retry-Keeps inv m.store msg.message_id _ _ e))
              (λ r. if_owned-Keeps r _ (report-Keeps _ _))).at
            w v)
    ];
  }

  archived-Keeps : (msg : Message) (r : Result Bool) → Keeps P (archived msg r)
  unfolding archived
  archived-Keeps msg (ok true) = search keeps_rules
  archived-Keeps msg (ok false) = search keeps_rules
  archived-Keeps msg (err e) = search keeps_rules

  after_handler-Keeps :
      (m : Messaging) (msg : Message) (e : Option Bytes) → Keeps P (after_handler m msg e)
  unfolding after_handler
  after_handler-Keeps m msg (some e) = record { at = (handle_retry-Keeps m msg e).at }
  after_handler-Keeps m msg none = record {
    at = λ w v.
        (Keeps-bind _ _ (Keeps-attempt _ (inv.finishes m.store msg.message_id w.local_now))
            (λ r. archived-Keeps msg r)).at
          w v;
  }

  run_handler-Keeps :
      (m : Messaging) (msg : Message) (h : Handler) (co : CallOptions)
      → IsTame P h
      → Keeps P (run_handler m msg h co)
  unfolding run_handler
  run_handler-Keeps m msg h co tame = record {
    at = λ w v. (after_handler-Keeps m msg _).at _ (tame _ msg w v);
  }

  give_up-Keeps : (msg : Message) (reason event : Bytes) → Keeps P (give_up msg reason event)
  unfolding give_up
  give_up-Keeps msg reason event =
      Keeps-bind _ _
        (Keeps-attempt _ (Operations.dead_letter-Keeps inv.gives_up msg.message_id reason))
        (λ r. report-Keeps _ _)

  hydrated-Keeps :
      (m : Messaging) (h : Handler) (co : CallOptions) (x : Result (Unit {0}) × Message)
      → IsTame P h
      → Keeps P (hydrated m h co x)
  unfolding hydrated
  hydrated-Keeps m h co (ok u, msg) tame = run_handler-Keeps m msg h co tame
  hydrated-Keeps m h co (err e, msg) tame = give_up-Keeps msg _ _

  handle_one-Keeps :
      (m : Messaging) (msg : Message) (h : Handler) (co : CallOptions)
      → IsTame P h
      → Keeps P (handle_one m msg h co)
  unfolding handle_one
  handle_one-Keeps m msg h co tame =
      Keeps-if msg.encrypted _ _ (λ sealed. hydrated-Keeps m h co _ tame)
        (λ plain. run_handler-Keeps m msg h co tame)

  find_handler-tame :
      (topic : Bytes) (hs : List (Bytes × TopicRegistration))
      → All (λ (p : Bytes × TopicRegistration). IsTame P p.1.handler) hs
      → TameRoute P (find_handler topic hs)
  unfolding find_handler
  find_handler-tame topic [] h = tt
  find_handler-tame topic ((t, r) ∷ rest) h = elim (Bool-cases (bytes_eq t topic)) [
    | inl hit ↦ rw hit h.0
    | inr miss ↦ rw miss (find_handler-tame topic rest h.1)
  ]

  default-tame :
      (o : Option TopicRegistration)
      → ((r : TopicRegistration) → o ≡ some r → IsTame P r.handler)
      → TameRoute P o
  default-tame none h = tt
  default-tame (some r) h = h r refl

  route-tame :
      (m : Messaging) (given : Option Handler) (co : CallOptions) (topic : Bytes)
      → AreTame P m
      → TameGiven P given
      → TameRoute P (route m given co topic)
  unfolding route
  route-tame m (some h) co topic tame g = g
  route-tame m none co topic tame g =
      by_topic (find_handler topic m.handlers) (find_handler-tame topic m.handlers tame.0)
    where
      by_topic :
          (o : Option TopicRegistration)
          → TameRoute P o
          → TameRoute P (elim o [ some r ↦ some r | none ↦ m.default_handler ])
      by_topic (some r) h = h
      by_topic none h = default-tame m.default_handler tame.1

  dispatch-Keeps :
      (m : Messaging) (admitted : Bytes → Bool) (msg : Message) (o : Option TopicRegistration)
      → TameRoute P o
      → Keeps P (dispatch m admitted msg o)
  unfolding dispatch
  dispatch-Keeps m admitted msg none h = give_up-Keeps msg _ _
  dispatch-Keeps m admitted msg (some r) h =
      Keeps-if (admitted msg.message_id) _ _ (λ _. handle_one-Keeps m msg r.handler r.opts h)
        (λ _. Keeps-pure tt)

  process_all-Keeps :
      (m : Messaging) (given : Option Handler) (co : CallOptions) (admitted : Bytes → Bool)
      (msgs : List Message)
      → AreTame P m
      → TameGiven P given
      → Keeps P (process_all m given co admitted msgs)
  unfolding process_all
  process_all-Keeps m given co admitted [] tame g = Keeps-pure tt
  process_all-Keeps m given co admitted (msg ∷ msgs) tame g =
      Keeps-bind _ _ (dispatch-Keeps m admitted msg _ (route-tame m given co msg.topic tame g))
        (λ _. process_all-Keeps m given co admitted msgs tame g)

  pub process_batch-Keeps :
      (m : Messaging) (size : ℤ) (given : Option Handler) (opts : List ℤ) (admitted : Bytes → Bool)
      → AreTame P m
      → TameGiven P given
      → Keeps P (process_batch m size given opts admitted)
  unfolding process_batch
  process_batch-Keeps m size given opts admitted tame g =
      Keeps-bind _ _ (Operations.claim_batch-Keeps inv m.store size) (λ msgs.
        Keeps-bind _ _ (process_all-Keeps m given _ admitted msgs tame g) (λ _. Keeps-pure _))
