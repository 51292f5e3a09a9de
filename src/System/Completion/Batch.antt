-- ===== src/System/Completion/Batch.antt =====
-- messaging.go, ProcessBatch as a whole, where no call of the database fails and the handlers succeed.
use mathlib.Core.Path.{subst}
use go_messaging.Prelude.{
  pos, ℕ, ◌≡◌, refl, ap, sym, ◌∙◌, Bool, true, Option, some, List, map, Bytes, All, ℤ, Bool-cases,
  inl, inr, length,
}
use go_messaging.Message.{Message}
use go_messaging.Config.{apply_call_options}
use go_messaging.Cipher.{Result, ok, err}
use go_messaging.Database.{HotRow, Tables, World, pure, ◌>>=◌, continue}
use go_messaging.Database.Total.{IsFaultless, Ran}
use go_messaging.Database.Rows.{member}
use go_messaging.Database.Rows.Laws.{IsKeyed}
use go_messaging.Store.Claims.{claim_batch}
use go_messaging.Messaging.{Messaging, Handler, TopicRegistration}
use go_messaging.Messaging.Process.{route, process_all, process_batch}
use go_messaging.Invariant.{IsValid, hot_key}
use go_messaging.System.Lifecycle.{view}
use go_messaging.System.Completion.Finish.{IsHeld}
use go_messaging.System.Completion.Loop.{
  IsQuiet, AllDone, all_done, ids_of, msg_key, process_all-Ran,
}
use go_messaging.System.Completion.Reading.{IsReadable, AreRead}
use go_messaging.System.Completion.Claiming.{
  All-keys, keys-All, IsKeyed-keys, keys-IsKeyed, length-keys, claimed, claimed_tables,
  claimed-IsKeyed, claimed-IsHeld, unclaimed-view, claim_batch-Ran,
}

-- Every topic has a handler, and each succeeds.
abbrev pub AreQuiet : Messaging → Option Handler → List ℤ → Type 0
AreQuiet m given opts =
    (topic : Bytes)
    → (reg : TopicRegistration) × (route m given (apply_call_options opts) topic ≡ some reg)
      × IsQuiet reg.handler

-- The claimed messages are done, and the others as they were.
abbrev pub IsProcessed : List HotRow → Tables → ℕ → Tables → Type 0
IsProcessed rows t₀ n t =
    (n ≡ length rows) × ((k : Bytes) → view k t ≡ all_done (map hot_key rows) (view k t₀) k)

module _ (m : Messaging) (size : ℕ) (given : Option Handler) (opts : List ℤ)
    (admitted : Bytes → Bool) (w : World) where
  abbrev rows : List HotRow
  rows = claimed m.store.cfg.worker_id size w

  abbrev t₁ : Tables
  t₁ = claimed_tables m.store.cfg.worker_id size w

  -- The claim has changed no outcome, and no message that is not claimed.
  done-view :
      (k : Bytes)
      → all_done (map hot_key rows) (view k t₁) k ≡ all_done (map hot_key rows) (view k w.tables) k
  unfolding all_done
  done-view k = elim (Bool-cases (member k (map hot_key rows))) [
    | inl taken ↦ rw taken (unfold view claimed_tables in refl)
    | inr left ↦ rw left (unclaimed-view m.store.cfg.worker_id size w k left)
  ]

  loop-Ran :
      (ms : List Message) (w' : World)
      → AreQuiet m given opts
      → ((id : Bytes) → admitted id ≡ true)
      → IsKeyed hot_key w.hot
      → IsFaultless w'
      → AreRead m.store rows ms
      → w'.tables ≡ t₁
      → IsValid w'.tables
      → Ran (IsProcessed rows w.tables) (
          continue
            (process_all m given (apply_call_options opts) admitted ms w')
            (λ u. pure (length ms)))
  unfolding AreRead ◌>>=◌
  loop-Ran ms w' quiet slots keys f (same, opens) there valid =
      let worker = m.store.cfg.worker_id in
      let keyed : IsKeyed msg_key ms = keys-IsKeyed msg_key ms (
        subst (IsKeyed (λ i. i)) (sym same)
          (IsKeyed-keys hot_key rows (claimed-IsKeyed worker size w keys))) in
      let held : All (λ msg. IsHeld worker msg.message_id w'.tables) ms =
        keys-All msg_key (λ i. IsHeld worker i w'.tables) ms
          (subst (λ t. All (λ i. IsHeld worker i t) (ids_of ms)) (sym there)
            (subst (All (λ i. IsHeld worker i t₁)) (sym same)
              (All-keys hot_key (λ i. IsHeld worker i t₁) rows (claimed-IsHeld worker size w)))) in
      finish _ (
        process_all-Ran m given (apply_call_options opts) admitted quiet slots ms w' keyed opens f
          valid held)
    where
      finish :
          (x : Result (Unit {0}) × World)
          → Ran (AllDone ms w'.tables) x
          → Ran (IsProcessed rows w.tables) (continue x (λ u. pure (length ms)))
      finish (ok u, v) (g, all) = (
        g,
        (
          sym (length-keys msg_key ms) ∙ ap length same ∙ length-keys hot_key rows,
          λ k.
              all k
              ∙ ap (λ ids. all_done ids (view k w'.tables) k) same
              ∙ ap (λ t. all_done (map hot_key rows) (view k t) k) there
              ∙ done-view k,
        ),
      )
      finish (err e, v) r = absurd r

  after_claim :
      (x : Result (List Message) × World)
      → AreQuiet m given opts
      → ((id : Bytes) → admitted id ≡ true)
      → IsKeyed hot_key w.hot
      → Ran (λ ms t. AreRead m.store rows ms × (t ≡ t₁) × IsValid t) x
      → Ran (IsProcessed rows w.tables) (
          continue x (λ ms.
            process_all m given (apply_call_options opts) admitted ms >>= λ u. pure (length ms)))
  unfolding ◌>>=◌
  after_claim (ok ms, w') quiet slots keys (f, (read, there, valid)) =
      loop-Ran ms w' quiet slots keys f read there valid
  after_claim (err e, w') quiet slots keys r = absurd r

-- Where no call of the database fails and each message has a handler that succeeds, ProcessBatch
-- returns how many rows it claimed; each message among them has left the hot table and has one more
-- outcome in the archive, PROCESSED, and every other message is as it was. It is asked that the tables
-- are valid, that every goroutine gets its slot, that the handlers, and others meanwhile, change no
-- table, and that each claimed row can be read, and decrypted where it is encrypted.
pub process_batch-IsProcessed :
    (m : Messaging) (size : ℕ) (given : Option Handler) (opts : List ℤ) (admitted : Bytes → Bool)
    (w : World)
    → let rows = claimed m.store.cfg.worker_id size w in
      IsFaultless w
      → IsValid w.tables
      → AreQuiet m given opts
      → ((id : Bytes) → admitted id ≡ true)
      → All (IsReadable m.store) rows
      → Ran (IsProcessed rows w.tables) (process_batch m (pos size) given opts admitted w)
unfolding process_batch ◌>>=◌
process_batch-IsProcessed m size given opts admitted w f valid quiet slots readable =
    after_claim m size given opts admitted w (claim_batch m.store (pos size) w) quiet slots
      valid.keys (claim_batch-Ran m.store size w f valid readable)
