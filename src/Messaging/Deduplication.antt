-- ===== src/Messaging/Deduplication.antt =====
-- messaging.go, Receive: what the dedup table and the hot table hold after it, and again after it.
use go_messaging.Prelude.{
  ◌≤◌, ◌≡◌, refl, ap, ◌∙◌, arith, Bool, true, false, Option, Bytes, Bool-cases, inl, inr,
}
use mathlib.Core.Path.{subst}
use go_messaging.Message.{Message, Time, Error, is_duplicate}
use go_messaging.Cipher.{Result, ok, err}
use go_messaging.Database.{Tables, World, ◌>>=◌, attempt, pure, in_tx, commits}
use go_messaging.Database.Hoare.{
  Outcome, Triple, Triple-pure, Triple-raise, Triple-bind, Triple-attempt, Triple-emit,
  Triple-in_tx,
}
use go_messaging.Database.Rows.{count_where}
use go_messaging.Store.{Store, insert_dedup, insert_hot}
use go_messaging.Store.Claims.{has_id}
use go_messaging.Admin.{has_dedup}
use go_messaging.Messaging.{
  Messaging, with_retries, expiry, receive_refused, receive_stored, receive_new, receive,
}
use go_messaging.Messaging.Insertion.{DedupOutcome, insert_dedup-Outcome, insert_hot-HasRow}

-- What Receive makes of the tables that it found, by the value that it returns.
abbrev pub IsReceived : Bytes → Tables → Bool → Tables → Type 0
IsReceived id t₀ true t =
    (count_where (has_dedup id) t₀.dedup ≡ 0)
    × (1 ≤ count_where (has_dedup id) t.dedup)
    × (1 ≤ count_where (has_id id) t.hot)
    × (t.archive ≡ t₀.archive)
IsReceived id t₀ false t = (1 ≤ count_where (has_dedup id) t₀.dedup) × (t ≡ t₀)

-- What it leaves behind an error.
abbrev pub IsRefused : Bytes → Tables → Tables → Type 0
IsRefused id t₀ t =
    (t.hot ≡ t₀.hot) × (t.archive ≡ t₀.archive) × (1 ≤ count_where (has_dedup id) t₀.dedup → t ≡ t₀)

module _ (id : Bytes) (t₀ t₁ : Tables) (new : count_where (has_dedup id) t₀.dedup ≡ 0)
    (seen : 1 ≤ count_where (has_dedup id) t₁.dedup) (hot : t₁.hot ≡ t₀.hot)
    (archive : t₁.archive ≡ t₀.archive) where
  stored-IsReceived :
      (m : Store) (msg : Message)
      → msg.message_id ≡ id
      → Triple
          (λ t. t ≡ t₁)
          (IsReceived id t₀)
          (IsRefused id t₀)
          (attempt (insert_hot m msg) >>= receive_stored msg)
  unfolding receive_stored
  stored-IsReceived s msg same =
      Triple-attempt _ _ (insert_hot-HasRow id t₁ s msg same)
        (λ u.
          Triple-emit _ _
            (Triple-emit _ _ (Triple-pure true (λ t h. (new, rw h.1 seen, h.0, h.2 ∙ archive)))))
        (λ e. Triple-emit _ _ (
          Triple-raise e (λ t h. (
            ap (λ t. t.hot) h ∙ hot,
            ap (λ t. t.archive) h ∙ archive,
            (λ old. absurd (omega (arith, old, new))),
          ))))

module _ (id : Bytes) (t₀ : Tables) where
  receive_refused-IsReceived :
      (msg : Message) (e : Error) (w : World)
      → DedupOutcome id t₀ (err e, w)
      → Outcome (IsReceived id t₀) (IsRefused id t₀) (receive_refused msg e w)
  unfolding receive_refused ◌>>=◌
  receive_refused-IsReceived msg e w h = elim (Bool-cases (is_duplicate e)) [
    | inl duplicate ↦ rw duplicate (h.3 duplicate, h.2 (h.3 duplicate))
    | inr other ↦ rw other (h.0, h.1, h.2)
  ]

  dedup-IsReceived :
      (s : Store) (msg : Message) (x : Result (Unit {0}) × World)
      → msg.message_id ≡ id
      → DedupOutcome id t₀ x
      → Outcome (IsReceived id t₀) (IsRefused id t₀) (receive_new s msg x.0 x.1)
  unfolding receive_new
  dedup-IsReceived s msg (ok u, w) same h =
      (stored-IsReceived id t₀ w.tables h.0 h.1 h.2 h.3 s msg same).at w refl
  dedup-IsReceived s msg (err e, w) same h = receive_refused-IsReceived msg e w h

same_id-with_retries :
    (m : Messaging) (msg : Message) → (with_retries m msg).message_id ≡ msg.message_id
unfolding with_retries
same_id-with_retries m msg = ground arith

-- Receive returns true only where the dedup table had no row of the message; then the dedup table
-- and the hot table have one and the archive is as before. It returns false only where the dedup
-- table had a row of it, and then no table has changed. Where it returns an error the hot table and
-- the archive are as before, and so is the dedup table if it had a row of the message.
pub receive-IsReceived :
    (m : Messaging) (msg : Message) (w : World)
    → Outcome
        (IsReceived msg.message_id w.tables)
        (IsRefused msg.message_id w.tables)
        (receive m msg w)
unfolding receive ◌>>=◌
receive-IsReceived m msg w =
    dedup-IsReceived msg.message_id w.tables m.store msg' (insert_dedup m.store msg' expire_at w)
      (same_id-with_retries m msg)
      (subst (λ i. DedupOutcome i w.tables (insert_dedup m.store msg' expire_at w))
        (same_id-with_retries m msg) (insert_dedup-Outcome m.store msg' expire_at w))
  where
    msg' : Message
    msg' = with_retries m msg

    expire_at : Option Time
    expire_at = expiry m.cfg.dedup_ttl w.local_now

module _ (id : Bytes) (t₀ : Tables) where
  seen_after :
      (x : Result Bool × World)
      → x.0 ≡ ok true
      → Outcome (IsReceived id t₀) (IsRefused id t₀) x
      → 1 ≤ count_where (has_dedup id) x.1.dedup
  seen_after (ok true, w) e h = h.1
  seen_after (ok false, w) e h = cc
  seen_after (err e', w) e h = cc

  refused_again :
      (x : Result Bool × World)
      → 1 ≤ count_where (has_dedup id) t₀.dedup
      → Outcome (IsReceived id t₀) (IsRefused id t₀) x
      → Outcome (λ b t. (b ≡ false) × (t ≡ t₀)) (λ t. t ≡ t₀) x
  refused_again (ok true, w) seen h = absurd (omega (arith, seen, h.0))
  refused_again (ok false, w) seen h = (refl, h.1)
  refused_again (err e, w) seen h = h.2 seen

-- Once Receive has returned true, no Receive of a message with the same id, by any instance, at any
-- time and under any failures, returns true or changes a table, as long as the dedup table then has no
-- fewer rows of the message than the first call left, whatever else has changed in between. A removal of
-- the dedup row ends that: the message may be received anew.
pub receive_again :
    (m m' : Messaging) (msg msg' : Message) (w w' : World)
    → (receive m msg w).0 ≡ ok true
    → msg'.message_id ≡ msg.message_id
    → count_where (has_dedup msg.message_id) (receive m msg w).1.tables.dedup
      ≤ count_where (has_dedup msg.message_id) w'.tables.dedup
    → Outcome (λ b t. (b ≡ false) × (t ≡ w'.tables)) (λ t. t ≡ w'.tables) (receive m' msg' w')
receive_again m m' msg msg' w w' first same kept =
    refused_again msg'.message_id w'.tables (receive m' msg' w')
      (rw same (
        omega (
          arith,
          kept,
          seen_after msg.message_id w.tables (receive m msg w) first (receive-IsReceived m msg w),
        )))
      (receive-IsReceived m' msg' w')

-- Inside a transaction of the caller that commits where Receive returns no error, an error, of Receive
-- or of the transaction itself, leaves all tables as they were. Where true comes back, the dedup table
-- had no row of the message, it and the hot table have one now, and the archive is as before; where
-- false comes back, the dedup table had a row of it and no table has changed.
pub in_tx-receive :
    (m : Messaging) (msg : Message) (b : Bytes) (c : Option Bytes) (w : World)
    → Outcome
        (IsReceived msg.message_id w.tables)
        (λ t. t ≡ w.tables)
        (in_tx b c (do r ← receive m msg; pure (commits r)) w)
in_tx-receive m msg b c w =
    (Triple-in_tx w.tables b c _ (
        Triple-bind _ _
          (record {
            at = λ w' e. weaken (receive m msg w') (
                subst
                  (λ t.
                    Outcome (IsReceived msg.message_id t) (IsRefused msg.message_id t)
                      (receive m msg w'))
                  e (receive-IsReceived m msg w'));
          })
          (λ r. Triple-pure _ (λ t h. h)))).at
      w refl
  where
    weaken :
        (x : Result Bool × World)
        → Outcome (IsReceived msg.message_id w.tables) (IsRefused msg.message_id w.tables) x
        → Outcome (IsReceived msg.message_id w.tables) (λ t. Unit {0}) x
    weaken (ok r, w') h = h
    weaken (err e, w') h = tt
