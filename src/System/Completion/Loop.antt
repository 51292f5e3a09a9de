-- ===== src/System/Completion/Loop.antt =====
-- messaging.go, ProcessBatch: the loop over the claimed messages, where no call of the database fails
-- and each handler succeeds.
use go_messaging.Prelude.{
  ◌≡◌, refl, ap, sym, ◌∙◌, arith, Bool, true, false, Option, none, some, List, [], ◌∷◌, ◌++◌, map,
  Bytes, bytes_eq, bytes_eq-eq, bytes_eq_refl, bytes_eq_iff, ℤ, All, All-zip, Bool-cases, inl, inr,
  if◌then◌else◌,
}
use mathlib.Core.Path.{subst}
use go_messaging.Message.{Message, final_processed}
use go_messaging.Config.{CallOptions}
use go_messaging.Cipher.{Result, ok, err}
use go_messaging.Database.{Tables, World, ◌>>=◌, continue}
use go_messaging.Database.Total.{IsFaultless, Ran, Runs, Runs-emit, Ran-weaken}
use go_messaging.Database.Rows.{member}
use go_messaging.Database.Rows.Laws.{IsKeyed, absent, member-absent}
use go_messaging.Store.{Store}
use go_messaging.Store.Scan.{hydrate}
use go_messaging.Store.Claims.{mark_done_and_archive}
use go_messaging.Messaging.{Messaging, Handler, TopicRegistration}
use go_messaging.Messaging.Process.{
  archived, after_handler, run_handler, hydrated, handle_one, route, dispatch, process_all,
  call_timeout,
}
use go_messaging.Messaging.Process.Outcomes.{handle_one-encrypted}
use go_messaging.Invariant.{IsValid}
use go_messaging.System.Lifecycle.{View, view}
use go_messaging.System.Completion.Finish.{
  IsHeld, IsComplete, finish-Ran, complete-view, complete-IsHeld, complete-IsValid, after_done,
}

-- The handler succeeds, and neither it nor what others do meanwhile changes the tables or makes calls
-- fail.
pub record IsQuiet (handler : Handler) : Type 0 where
  pub at :
      (t : Option ℤ) (msg : Message) (w : World)
      → ((handler t msg w).0 ≡ none)
        × ((handler t msg w).1.tables ≡ w.tables)
        × ((handler t msg w).1.faults ≡ w.faults)

-- The message can be read: an encrypted one is decrypted.
abbrev pub CanOpen : Store → Message → Type 0
CanOpen s msg =
    msg.encrypted ≡ true
    → (msg' : Message) × (hydrate s msg ≡ (ok tt, msg')) × (msg'.message_id ≡ msg.message_id)

handle_one-plain :
    (m : Messaging) (msg : Message) (h : Handler) (co : CallOptions)
    → msg.encrypted ≡ false
    → handle_one m msg h co ≡ run_handler m msg h co
unfolding handle_one
handle_one-plain m msg h co plain = simp plain refl

module _ (m : Messaging) where
  abbrev Completes : Bytes → Tables → Unit {0} → Tables → Type 0
  Completes id t₀ u t = IsComplete m.store.cfg.worker_id id t₀ t

  archived-Runs : (msg : Message) (P : Tables → Type 0) → Runs P (λ u. P) (archived msg (ok true))
  unfolding archived
  archived-Runs msg P = Runs-emit _ _ (record { at = λ w f h. unfold ◌>>=◌ in (f, h) })

  after_handler-Ran :
      (msg : Message) (w : World)
      → IsFaultless w
      → IsValid w.tables
      → IsHeld m.store.cfg.worker_id msg.message_id w.tables
      → Ran (Completes msg.message_id w.tables) (after_handler m msg none w)
  unfolding after_handler ◌>>=◌
  after_handler-Ran msg w f valid held =
      report (mark_done_and_archive m.store msg.message_id w.local_now w)
        (finish-Ran m.store msg.message_id w.local_now w f valid held)
    where
      report :
          (x : Result Bool × World)
          → Ran (λ b t. (b ≡ true) × IsComplete m.store.cfg.worker_id msg.message_id w.tables t) x
          → Ran (Completes msg.message_id w.tables) (archived msg x.0 x.1)
      report (ok true, w') (f, (e, done)) =
          (archived-Runs msg (Completes msg.message_id w.tables tt)).at w' f done
      report (ok false, w') (f, (e, done)) = absurd cc
      report (err e, w') r = absurd r

  run_handler-Ran :
      (msg : Message) (h : Handler) (co : CallOptions) (w : World)
      → IsQuiet h
      → IsFaultless w
      → IsValid w.tables
      → IsHeld m.store.cfg.worker_id msg.message_id w.tables
      → Ran (Completes msg.message_id w.tables) (run_handler m msg h co w)
  unfolding run_handler
  run_handler-Ran msg h co w quiet f valid held =
      let (succeeds, same, calm) = quiet.at (call_timeout m co) msg w in
      after (h (call_timeout m co) msg w) succeeds same calm
    where
      after :
          (x : Option Bytes × World)
          → x.0 ≡ none
          → x.1.tables ≡ w.tables
          → x.1.faults ≡ w.faults
          → Ran (Completes msg.message_id w.tables) (after_handler m msg x.0 x.1)
      after (some e, w') succeeds same calm = absurd cc
      after (none, w') succeeds same calm =
          subst (λ t. Ran (Completes msg.message_id t) (after_handler m msg none w')) same
            (after_handler-Ran msg w' (calm ∙ f) (subst IsValid (sym same) valid)
              (subst (IsHeld m.store.cfg.worker_id msg.message_id) (sym same) held))

  handle_one-Ran :
      (msg : Message) (h : Handler) (co : CallOptions) (w : World)
      → IsQuiet h
      → CanOpen m.store msg
      → IsFaultless w
      → IsValid w.tables
      → IsHeld m.store.cfg.worker_id msg.message_id w.tables
      → Ran (Completes msg.message_id w.tables) (handle_one m msg h co w)
  unfolding hydrated
  handle_one-Ran msg h co w quiet opens f valid held = elim (Bool-cases msg.encrypted) [
    | inl encrypted ↦
        let (msg', opened, same) = opens encrypted in
        subst (λ act. Ran (Completes msg.message_id w.tables) (act w))
          (sym (handle_one-encrypted m msg (ok tt, msg') h co encrypted opened))
          (subst (λ id. Ran (Completes id w.tables) (run_handler m msg' h co w)) same
            (run_handler-Ran msg' h co w quiet f valid
              (subst (λ id. IsHeld m.store.cfg.worker_id id w.tables) (sym same) held)))
    | inr plain ↦
        subst (λ act. Ran (Completes msg.message_id w.tables) (act w))
          (sym (handle_one-plain m msg h co plain)) (run_handler-Ran msg h co w quiet f valid held)
  ]

  dispatch-Ran :
      (msg : Message) (admitted : Bytes → Bool) (reg : TopicRegistration) (w : World)
      → admitted msg.message_id ≡ true
      → IsQuiet reg.handler
      → CanOpen m.store msg
      → IsFaultless w
      → IsValid w.tables
      → IsHeld m.store.cfg.worker_id msg.message_id w.tables
      → Ran (Completes msg.message_id w.tables) (dispatch m admitted msg (some reg) w)
  unfolding dispatch
  dispatch-Ran msg admitted reg w slot quiet opens f valid held =
      rw slot (handle_one-Ran msg reg.handler reg.opts w quiet opens f valid held)

-- What the messages that are done come to, for each message.
unfoldable pub all_done : List Bytes → View → Bytes → View
all_done ids v k = if member k ids then (none, v.1 ++ final_processed ∷ []) else v

-- One message and then the others, whose ids are other ones.
all_done-after_done :
    (id : Bytes) (ids : List Bytes) (v : View) (k : Bytes)
    → member id ids ≡ false
    → all_done ids (after_done id v k) k ≡ all_done (id ∷ ids) v k
unfolding all_done after_done member
all_done-after_done id ids v k fresh = elim (Bool-cases (bytes_eq k id)) [
  | inl hit ↦
      let same = bytes_eq-eq k id hit in
      let back : bytes_eq id k ≡ true = rw same (bytes_eq_refl id) in
      rw (hit, back, ap (λ j. member j ids) same ∙ fresh) refl
  | inr miss ↦
      let back : bytes_eq id k ≡ false = ground (arith, bytes_eq_iff id k, bytes_eq_iff k id) in
      rw (miss, back) refl
]

abbrev pub msg_key : Message → Bytes
msg_key msg = msg.message_id

abbrev pub ids_of : List Message → List Bytes
ids_of = map msg_key

-- Each message is done, and no other is touched.
abbrev pub AllDone : List Message → Tables → Unit {0} → Tables → Type 0
AllDone ms t₀ u t = (k : Bytes) → view k t ≡ all_done (ids_of ms) (view k t₀) k

module _ (m : Messaging) (given : Option Handler) (co : CallOptions) (admitted : Bytes → Bool) where
  -- The worker holds the rows of the messages.
  abbrev AreHeld : List Message → Tables → Type 0
  AreHeld ms t = All (λ msg. IsHeld m.store.cfg.worker_id msg.message_id t) ms

  -- The first message is done; the others are left to do.
  then-Ran :
      (msg : Message) (ms : List Message) (t₀ : Tables) (x : Result (Unit {0}) × World)
      → IsKeyed msg_key (msg ∷ ms)
      → IsValid t₀
      → AreHeld ms t₀
      → ((w : World)
          → IsFaultless w
          → IsValid w.tables
          → AreHeld ms w.tables
          → Ran (AllDone ms w.tables) (process_all m given co admitted ms w))
      → Ran (Completes m msg.message_id t₀) x
      → Ran (AllDone (msg ∷ ms) t₀) (continue x (λ u. process_all m given co admitted ms))
  then-Ran msg ms t₀ (err e, w) keys valid held rest r = absurd r
  then-Ran msg ms t₀ (ok u, w) keys valid held rest (f, done) =
      let worker = m.store.cfg.worker_id in
      let others = absent msg_key msg.message_id ms keys.0 in
      Ran-weaken (process_all m given co admitted ms w)
        (λ v t all_after k.
          all_after k
          ∙ ap (λ s. all_done (ids_of ms) s k)
              (complete-view worker msg.message_id t₀ w.tables k valid done)
          ∙ all_done-after_done msg.message_id (ids_of ms) (view k t₀) k
              (member-absent msg_key msg.message_id ms others))
        (rest w f (complete-IsValid worker msg.message_id t₀ w.tables done) (
          All-zip
            (λ y other held_y.
              complete-IsHeld worker msg.message_id t₀ w.tables y.message_id other done held_y)
            ms others held))

  pub process_all-Ran :
      ((topic : Bytes)
        → (reg : TopicRegistration) × (route m given co topic ≡ some reg) × IsQuiet reg.handler)
      → ((id : Bytes) → admitted id ≡ true)
      → (ms : List Message) (w : World) → IsKeyed msg_key ms
      → All (CanOpen m.store) ms
      → IsFaultless w
      → IsValid w.tables
      → AreHeld ms w.tables
      → Ran (AllDone ms w.tables) (process_all m given co admitted ms w)
  unfolding process_all ◌>>=◌
  process_all-Ran routes slots [] w keys opens f valid held =
      (f, λ k. unfold all_done member in refl)
  process_all-Ran routes slots (msg ∷ ms) w keys opens f valid held =
      let (reg, routed, quiet) = routes msg.topic in
      then-Ran msg ms w.tables (dispatch m admitted msg (route m given co msg.topic) w) keys valid
        held.1
        (λ w' f' valid' held'. process_all-Ran routes slots ms w' keys.1 opens.1 f' valid' held')
        (rw routed
          (dispatch-Ran m msg admitted reg w (slots msg.message_id) quiet opens.0 f valid held.0))
