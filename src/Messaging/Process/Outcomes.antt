-- ===== src/Messaging/Process/Outcomes.antt =====
-- messaging.go, ProcessBatch: messages that no handler gets.
use mathlib.Core.Path.{subst}
use go_messaging.Prelude.{
  ℕ, ◌≡◌, refl, sym, ap, ◌∙◌, arith, Bool, true, false, not, ◌&&◌, ◌≢◌, Option, some, none, ◌++◌,
  codes, bytes_eq, bytes_eq_refl, List, [], ◌∷◌, Bytes, Bool-cases, inl, inr, ◌⊎◌,
}
use go_messaging.Message.{Message, Error, Event, Time, error, logged, message_failed}
use go_messaging.Backoff.{truncate_error, to_error_message}
use go_messaging.Config.{CallOptions}
use go_messaging.Cipher.{Result, ok, err}
use go_messaging.Database.{HotRow, Tables, World, ◌>>=◌, ◌>>◌, execute, emit}
use go_messaging.Database.Total.{
  IsFaultless, Ran, Runs-pure, context-Ran, continue-Ran, attempt-Ran, execute-answers,
}
use go_messaging.Database.Hoare.{
  Outcome, Triple, Triple-pure, Triple-wrapping, Triple-bind, Triple-attempt, Triple-execute,
  Triple-emit, Triple-weaken,
}
use go_messaging.Database.Rows.{count_where, update_where}
use go_messaging.Store.Scan.{hydrate}
use go_messaging.Store.Claims.{has_id, is_failed, update_hot, set_failed, with_text, dead_letter}
use go_messaging.Messaging.{Messaging, Handler}
use go_messaging.Messaging.Process.{give_up, hydrated, handle_one, dispatch}

unfoldable is_reason : Bytes → Option Bytes → Bool
is_reason reason none = false
is_reason reason (some x) = bytes_eq x reason

-- The rows of a message that are not FAILED for the reason.
pub open_rows : Bytes → Bytes → Tables → ℕ
unfolding has_id is_failed is_reason
open_rows id reason t =
    count_where (λ r. has_id id r && not (is_failed r.status && is_reason reason r.last_error))
      t.hot

-- The rows of the message are FAILED for the reason, if it has any, or the database did not run the
-- statement.
abbrev IsTried : Bytes → Bytes → Tables → Unit {0} → Tables → Type 0
IsTried id reason t₀ u t = (t ≡ t₀) ⊎ (open_rows id reason t ≡ 0)

-- Some call is set to fail, or the database refuses the text.
abbrev pub IsUnanswered : Bytes → World → Type 0
IsUnanswered reason w = (w.faults ≢ []) ⊎ (w.engine.accepts_text reason ≡ false)

-- Every row of the message in the hot table is FAILED for the reason, cut to its length; but where a call
-- may fail or the text is refused, nothing may have changed.
abbrev pub IsGivenUp : Bytes → Bytes → World → Unit {0} → Tables → Type 0
IsGivenUp id reason w u t =
    (open_rows id (truncate_error reason) t ≡ 0)
    ⊎ (IsUnanswered (truncate_error reason) w × (t ≡ w.tables))

failed-none_open :
    (id reason : Bytes) (f : HotRow → HotRow) (rows : List HotRow)
    → ((r : HotRow) → (is_failed (f r).status ≡ true) × (is_reason reason (f r).last_error ≡ true))
    → count_where
        (λ r. has_id id r && not (is_failed r.status && is_reason reason r.last_error))
        (update_where (has_id id) f rows)
      ≡ 0
unfolding count_where update_where
failed-none_open id reason f [] dead = refl
failed-none_open id reason f (r ∷ rs) dead = elim (Bool-cases (has_id id r)) [
  | inl hit ↦
      let (failed, told) = dead r in
      rw (hit, failed, told) (ground (arith, failed-none_open id reason f rs dead))
  | inr miss ↦ rw (miss, miss) (omega (arith, failed-none_open id reason f rs dead))
]

-- What the statement of deadLetter leaves.
set_failed-none_open :
    (id cut : Bytes) (now : Time) (t : Tables)
    → open_rows id cut (record t { hot = update_where (has_id id) (set_failed now cut) t.hot }) ≡ 0
unfolding open_rows set_failed is_failed is_reason
set_failed-none_open id cut now t =
    failed-none_open id cut (set_failed now cut) t.hot (λ r. (refl, bytes_eq_refl cut))

module _ (id : Bytes) (t₀ : Tables) where
  text-IsTried :
      (cut : Bytes)
      → Triple
          (λ t. t ≡ t₀)
          (λ n. IsTried id cut t₀ tt)
          (λ t. t ≡ t₀)
          (execute (with_text cut (λ w. update_hot (has_id id) (set_failed w.now cut) w)))
  unfolding with_text update_hot
  text-IsTried cut =
      Triple-execute _ (λ t e. e)
        (λ w e. elim (Bool-cases (w.engine.accepts_text cut)) [
          | inl fits ↦ rw fits (inr (set_failed-none_open id cut w.now w.tables))
          | inr refused ↦ rw refused tt
        ])

  dead_letter-IsTried :
      (reason : Bytes)
      → Triple
          (λ t. t ≡ t₀)
          (IsTried id (truncate_error reason) t₀)
          (λ t. t ≡ t₀)
          (dead_letter id reason)
  unfolding dead_letter
  dead_letter-IsTried reason =
      Triple-bind _ _ (Triple-wrapping _ _ (text-IsTried (truncate_error reason)))
        (λ n. Triple-pure tt (λ t h. h))

last_emit : {P E : Tables → Type 0} (e : Event) → Triple P (λ u. P) E (emit e)
unfolding ◌>>=◌
last_emit e = record { at = λ w h. h }

give_up-IsTried :
    (msg : Message) (reason event : Bytes) (t₀ : Tables)
    → Triple
        (λ t. t ≡ t₀)
        (IsTried msg.message_id (truncate_error reason) t₀)
        (λ t. ⊥)
        (give_up msg reason event)
unfolding give_up
give_up-IsTried msg reason event t₀ =
    Triple-attempt _ _ (dead_letter-IsTried msg.message_id t₀ reason)
      (λ u. Triple-emit _ _ (
        Triple-weaken _ (last_emit {P = IsTried msg.message_id (truncate_error reason) t₀ u} _)
          (λ v t h. h)))
      (λ e. Triple-emit _ _ (Triple-weaken _ (last_emit {P = λ t. t ≡ t₀} _) (λ v t h. inl h)))

-- Where no call fails and the text is accepted, deadLetter has run its statement.
dead_letter-answers :
    (id reason : Bytes) (w : World)
    → IsFaultless w
    → w.engine.accepts_text (truncate_error reason) ≡ true
    → Ran (λ u t. open_rows id (truncate_error reason) t ≡ 0) (dead_letter id reason w)
unfolding dead_letter with_text update_hot ◌>>=◌
dead_letter-answers id reason w f fits =
    continue-Ran (λ n. IsClosed) (λ u. IsClosed) _ _
      (context-Ran (λ n. IsClosed) (codes "message: dead letter") (execute statement w) executed)
      (λ n. Runs-pure tt (λ t h. h))
  where
    cut : Bytes
    cut = truncate_error reason

    IsClosed : Tables → Type 0
    IsClosed t = open_rows id cut t ≡ 0

    statement : World → Option (ℕ × Tables)
    statement = with_text cut (λ v. update_hot (has_id id) (set_failed v.now cut) v)

    executed : Ran (λ n. IsClosed) (execute statement w)
    executed =
        rw
          (execute-answers statement w (count_where (has_id id) w.hot)
            (record w.tables { hot = update_where (has_id id) (set_failed w.now cut) w.hot }) f
            (rw fits refl))
          (f, set_failed-none_open id cut w.now w.tables)

give_up-answers :
    (msg : Message) (reason event : Bytes) (w : World)
    → IsFaultless w
    → w.engine.accepts_text (truncate_error reason) ≡ true
    → Ran
        (λ u t. open_rows msg.message_id (truncate_error reason) t ≡ 0)
        (give_up msg reason event w)
unfolding give_up ◌>>=◌
give_up-answers msg reason event w f fits =
    attempt-Ran (λ u. IsClosed) (λ u. IsClosed) (dead_letter msg.message_id reason w)
      (λ r. do emit (message_failed msg.topic); emit (logged error event msg.message_id))
      (dead_letter-answers msg.message_id reason w f fits) (λ u. record { at = λ v g h. (g, h) })
  where
    IsClosed : Tables → Type 0
    IsClosed t = open_rows msg.message_id (truncate_error reason) t ≡ 0

give_up-IsGivenUp :
    (msg : Message) (reason event : Bytes) (w : World)
    → Outcome (IsGivenUp msg.message_id reason w) (λ t. ⊥) (give_up msg reason event w)
give_up-IsGivenUp msg reason event w =
    by_faults (give_up msg reason event w) w.faults refl
      ((give_up-IsTried msg reason event w.tables).at w refl) (give_up-answers msg reason event w)
  where
    cut : Bytes
    cut = truncate_error reason

    unanswered :
        (x : Result (Unit {0}) × World)
        → IsUnanswered cut w
        → Outcome (IsTried msg.message_id cut w.tables) (λ t. ⊥) x
        → Outcome (IsGivenUp msg.message_id reason w) (λ t. ⊥) x
    unanswered (ok u, v) why (inl same) = inr (why, same)
    unanswered (ok u, v) why (inr none_open) = inl none_open
    unanswered (err e, v) why h = h

    answered :
        (x : Result (Unit {0}) × World)
        → Ran (λ u t. open_rows msg.message_id cut t ≡ 0) x
        → Outcome (IsGivenUp msg.message_id reason w) (λ t. ⊥) x
    answered (ok u, v) (f, none_open) = inl none_open
    answered (err e, v) r = absurd r

    by_faults :
        (x : Result (Unit {0}) × World) (faults : List (Option Bytes))
        → w.faults ≡ faults
        → Outcome (IsTried msg.message_id cut w.tables) (λ t. ⊥) x
        → (IsFaultless w
            → w.engine.accepts_text cut ≡ true
            → Ran (λ u t. open_rows msg.message_id cut t ≡ 0) x)
        → Outcome (IsGivenUp msg.message_id reason w) (λ t. ⊥) x
    by_faults x [] e tried runs = elim (Bool-cases (w.engine.accepts_text cut)) [
      | inl fits ↦ answered x (runs e fits)
      | inr refused ↦ unanswered x (inr refused) tried
    ]
    by_faults x (f ∷ fs) e tried runs = unanswered x (inl (λ none_set. cc)) tried

unrouted-IsGivenUp :
    (m : Messaging) (admitted : Bytes → Bool) (msg : Message) (w : World)
    → Outcome
        (IsGivenUp msg.message_id (codes "no handler for topic: " ++ msg.topic) w)
        (λ t. ⊥)
        (dispatch m admitted msg none w)
unfolding dispatch
unrouted-IsGivenUp m admitted msg w = give_up-IsGivenUp msg _ _ w

-- What handleOne does with an encrypted message, once it has been hydrated.
pub handle_one-encrypted :
    (m : Messaging) (msg : Message) (x : Result (Unit {0}) × Message) (h : Handler)
    (co : CallOptions)
    → msg.encrypted ≡ true
    → hydrate m.store msg ≡ x
    → handle_one m msg h co ≡ hydrated m h co x
unfolding handle_one
handle_one-encrypted m msg x h co encrypted fails = simp encrypted refl ∙ ap (hydrated m h co) fails

undecrypted-IsGivenUp :
    (m : Messaging) (msg msg' : Message) (e : Error) (handler : Handler) (co : CallOptions)
    (w : World)
    → msg.encrypted ≡ true
    → hydrate m.store msg ≡ (err e, msg')
    → Outcome
        (IsGivenUp msg'.message_id (codes "message decrypt failed: " ++ to_error_message e) w)
        (λ t. ⊥)
        (handle_one m msg handler co w)
unfolding hydrated
undecrypted-IsGivenUp m msg msg' e handler co w encrypted fails =
    subst
      (λ act.
        Outcome
          (IsGivenUp msg'.message_id (codes "message decrypt failed: " ++ to_error_message e) w)
          (λ t. ⊥) (act w))
      (sym (handle_one-encrypted m msg (err e, msg') handler co encrypted fails))
      (give_up-IsGivenUp msg' _ _ w)

no_handler_runs :
    (m : Messaging) (msg msg' : Message) (e : Error) (h h' : Handler) (co : CallOptions)
    → msg.encrypted ≡ true
    → hydrate m.store msg ≡ (err e, msg')
    → handle_one m msg h co ≡ handle_one m msg h' co
unfolding hydrated
no_handler_runs m msg msg' e h h' co encrypted fails =
    handle_one-encrypted m msg (err e, msg') h co encrypted fails
    ∙ sym (handle_one-encrypted m msg (err e, msg') h' co encrypted fails)

-- What gives up a message sets each row of it in the hot table to FAILED with the reason, cut to its
-- length: "message decrypt failed: " and the error where it cannot be decrypted, and "no handler for
-- topic: " and the topic where its topic has no handler. Only where a call is set to fail or the database
-- refuses the reason as a text may all tables be as they were. The goroutine returns no error. What a
-- message that cannot be decrypted comes to is the same with any other handler in place of its own, so that
-- none is run.
pub unhandled-IsGivenUp :
    (m : Messaging) (admitted : Bytes → Bool) (msg msg' : Message) (e : Error) (h h' : Handler)
    (co : CallOptions) (w : World)
    → msg.encrypted ≡ true
    → hydrate m.store msg ≡ (err e, msg')
    → Outcome
        (IsGivenUp msg'.message_id (codes "message decrypt failed: " ++ to_error_message e) w)
        (λ t. ⊥)
        (handle_one m msg h co w)
      × (handle_one m msg h co ≡ handle_one m msg h' co)
      × Outcome
          (IsGivenUp msg.message_id (codes "no handler for topic: " ++ msg.topic) w)
          (λ t. ⊥)
          (dispatch m admitted msg none w)
unhandled-IsGivenUp m admitted msg msg' e h h' co w encrypted fails = (
  undecrypted-IsGivenUp m msg msg' e h co w encrypted fails,
  no_handler_runs m msg msg' e h h' co encrypted fails,
  unrouted-IsGivenUp m admitted msg w,
)
