-- ===== src/Invariant/Operations.antt =====
-- Every operation of the package keeps an invariant of the tables, whatever calls fail on the way.
use mathlib.Core.Path.{subst}
use go_messaging.Prelude.{
  ℤ, pos, negsuc, ℕ, ◌≡◌, refl, Bool, true, Option, none, some, List, [], ◌∷◌, Bytes, codes, pos,
  leb_ℤ, Bool-cases, inl, inr, All,
}
use go_messaging.Message.{Message, Time}
use go_messaging.Cipher.{Result, ok, err}
use go_messaging.Crypto.Registry.{CipherRegistry}
use go_messaging.Database.{HotRow, Tables, World, Act, pure, ◌>>=◌, wrapping, execute, continue}
use go_messaging.Database.Keeps.{
  Keeps, Gives, Keeps-bind, Keeps-bind_if, Keeps-wrapping, Keeps-execute, Keeps-pure, Keeps-lift,
  keeps_rules,
}
use go_messaging.Store.{
  Store, hot_row, prepare_fields, prepare_with, encrypt_with, prepare_rows, insert_dedup,
  insert_hot, insert_hot_batch, insert_hot_statement,
}
use go_messaging.Store.Claims.{
  claim_batch, claim_limited, mark_retry, mark_failed, dead_letter, update_hot, with_text,
  set_failed, set_retry, is_failed, is_processing, is_pending, owned_by,
}
use go_messaging.Store.Scan.{scan_messages, scan_message_row, hydrate_plain}
use go_messaging.Invariant.Interface.{IsFresh, TakesIn, Works, GivesUp}

abbrev pub HasBudget : Message → Type 0
HasBudget msg = leb_ℤ (pos 0) msg.max_retries ≡ true

hot_row-IsFresh :
    (s : Store) (msg : Message) (payload headers : Bytes) (now : Time)
    → HasBudget msg
    → IsFresh (hot_row s msg payload headers now)
unfolding hot_row is_processing is_failed is_pending
hot_row-IsFresh s msg payload headers now h = record {
  valid = record { owner = refl; claim = refl; death = λ e. cc; budget = h };
  waits = refl;
}

-- The rows of a batch are fresh, where they were prepared.
abbrev AreFresh : Result (List HotRow) → Type 0
AreFresh (ok rows) = All IsFresh rows
AreFresh (err e) = Unit

add_row-AreFresh :
    (row : HotRow) (m : Act (List HotRow)) (w : World)
    → IsFresh row
    → AreFresh (m w).0
    → AreFresh ((m >>= λ rows. pure (row ∷ rows)) w).0
unfolding ◌>>=◌
add_row-AreFresh row m w hr h = by_rows (m w) h
  where
    by_rows :
        (x : Result (List HotRow) × World)
        → AreFresh x.0
        → AreFresh (continue x (λ rows. pure (row ∷ rows))).0
    by_rows (ok rows, w') k = (hr, k)
    by_rows (err e, w') k = tt

bind-AreFresh :
    (m : Act (Bytes × Bytes)) (f : Bytes × Bytes → Act (List HotRow)) (w : World)
    → ((x : Bytes × Bytes) (w' : World) → AreFresh (f x w').0)
    → AreFresh ((m >>= f) w).0
unfolding ◌>>=◌
bind-AreFresh m f w k = by_fields (m w)
  where
    by_fields : (x : Result (Bytes × Bytes) × World) → AreFresh (continue x f).0
    by_fields (ok a, w') = k a w'
    by_fields (err e, w') = tt

prepare_rows-AreFresh :
    (s : Store) (now : Time) (msgs : List Message) (w : World)
    → All HasBudget msgs
    → AreFresh (prepare_rows s now msgs w).0
unfolding prepare_rows ◌>>=◌
prepare_rows-AreFresh s now [] w h = tt
prepare_rows-AreFresh s now (msg ∷ msgs) w h =
    bind-AreFresh (prepare_fields s msg.payload msg.headers) _ w (λ x w'.
      add_row-AreFresh (hot_row s msg x.0 x.1 now) (prepare_rows s now msgs) w'
        (hot_row-IsFresh s msg x.0 x.1 now h.0) (prepare_rows-AreFresh s now msgs w' h.1))

AreFresh-ok :
    (x : Result (List HotRow)) (rows : List HotRow) → AreFresh x → x ≡ ok rows → All IsFresh rows
AreFresh-ok x rows h e = subst AreFresh e h

-- A statement with an error text that the database may refuse.
with_text-Gives :
    (P : Tables → Type 0) (t : Bytes) (statement : World → ℕ × Tables) (w : World)
    → P (statement w).1
    → Gives P (with_text t statement w)
unfolding with_text
with_text-Gives P t statement w v = elim (Bool-cases (w.engine.accepts_text t)) [
  | inl fits ↦ rw fits v
  | inr refused ↦ rw refused tt
]

module _ {P : Tables → Type 0} where
  -- Encrypting changes the world's seed and no table.
  encrypt_with-Keeps : (r : CipherRegistry) (b : Bytes) → Keeps P (encrypt_with r b)
  unfolding encrypt_with
  encrypt_with-Keeps r b = record { at = λ w h. h }

  prepare_with-Keeps :
      (c : Option CipherRegistry) (payload headers : Bytes)
      → Keeps P (prepare_with c payload headers)
  unfolding prepare_with
  prepare_with-Keeps none payload headers = search keeps_rules
  prepare_with-Keeps (some r) payload headers = search (keeps_rules, encrypt_with-Keeps)

  prepare_rows-Keeps :
      (s : Store) (now : Time) (msgs : List Message) → Keeps P (prepare_rows s now msgs)
  unfolding prepare_rows prepare_fields
  prepare_rows-Keeps s now [] = search keeps_rules
  prepare_rows-Keeps s now (msg ∷ msgs) =
      Keeps-bind _ _ (prepare_with-Keeps s.cipher msg.payload _)
        (λ x. Keeps-bind _ _ (prepare_rows-Keeps s now msgs) (λ rows. Keeps-pure _))

  -- Reading rows changes no table.
  scan_row-Keeps : (r : HotRow) → Keeps P (scan_message_row r)
  unfolding scan_message_row
  scan_row-Keeps r = search keeps_rules

  scan_messages-Keeps : (s : Store) (rows : List HotRow) → Keeps P (scan_messages s rows)
  unfolding scan_messages
  scan_messages-Keeps s [] = search keeps_rules
  scan_messages-Keeps s (r ∷ rs) = Keeps-bind _ _ (scan_row-Keeps r) (λ m.
      Keeps-bind _ _ (Keeps-lift (hydrate_plain s m))
        (λ m'. Keeps-bind _ _ (scan_messages-Keeps s rs) (λ ms. Keeps-pure (m' ∷ ms))))

module _ {P : Tables → Type 0} (inv : TakesIn P) where
  pub insert_dedup-Keeps :
      (s : Store) (msg : Message) (expire_at : Option Time) → Keeps P (insert_dedup s msg expire_at)
  unfolding insert_dedup
  insert_dedup-Keeps s msg expire_at =
      Keeps-bind _ _ (Keeps-wrapping _ _ (Keeps-execute _ (λ w. inv.inserts_dedup _ w)))
        (λ n. search keeps_rules)

  pub insert_hot-Keeps : (s : Store) (msg : Message) → HasBudget msg → Keeps P (insert_hot s msg)
  unfolding insert_hot prepare_fields
  insert_hot-Keeps s msg h = Keeps-bind _ _ (prepare_with-Keeps s.cipher msg.payload _) (λ x.
      Keeps-wrapping _ _ (
        Keeps-execute _ (λ w v.
          inv.inserts_hot (hot_row s msg x.0 x.1 w.local_now ∷ []) w
            (hot_row-IsFresh s msg x.0 x.1 w.local_now h, tt) v)))

  pub insert_hot_batch-Keeps :
      (s : Store) (msgs : List Message) → All HasBudget msgs → Keeps P (insert_hot_batch s msgs)
  unfolding insert_hot_batch
  insert_hot_batch-Keeps s [] h = record { at = λ w v. v }
  insert_hot_batch-Keeps s (msg ∷ msgs) h = record { at = λ w v. (by_rows w).at w v }
    where
      by_rows :
          (w : World)
          → Keeps P (
              prepare_rows s w.local_now (msg ∷ msgs) >>= λ rows.
              wrapping (codes "message: insert hot batch") (execute (insert_hot_statement rows)))
      by_rows w =
          Keeps-bind_if (All IsFresh) _ _ (prepare_rows-Keeps s w.local_now (msg ∷ msgs))
            (λ w' rows e.
              AreFresh-ok _ rows (prepare_rows-AreFresh s w.local_now (msg ∷ msgs) w' h) e)
            (λ rows hr.
              Keeps-wrapping _ _ (Keeps-execute _ (λ w' v'. inv.inserts_hot rows w' hr v')))

module _ {P : Tables → Type 0} (inv : GivesUp P) where
  set_failed-Keeps :
      (t : Bytes) (p : HotRow → Bool)
      → Keeps P (execute (with_text t (λ w. update_hot p (set_failed w.now t) w)))
  set_failed-Keeps t p = Keeps-execute _ (λ w v.
      with_text-Gives P t (λ w'. update_hot p (set_failed w'.now t) w') w (inv.fails p t w v))

  pub dead_letter-Keeps : (id reason : Bytes) → Keeps P (dead_letter id reason)
  unfolding dead_letter
  dead_letter-Keeps id reason = search (keeps_rules, set_failed-Keeps)

module _ {P : Tables → Type 0} (inv : Works P) where
  claim_limited-Gives :
      (worker : Bytes) (size : ℤ) (w : World) → P w.tables → Gives P (claim_limited worker size w)
  unfolding claim_limited
  claim_limited-Gives worker (pos size) w h = inv.claims worker size w h
  claim_limited-Gives worker (negsuc n) w h = tt

  claim-Keeps : (worker : Bytes) (size : ℤ) → Keeps P (execute (claim_limited worker size))
  claim-Keeps worker size = Keeps-execute _ (claim_limited-Gives worker size)

  pub claim_batch-Keeps : (s : Store) (size : ℤ) → Keeps P (claim_batch s size)
  unfolding claim_batch
  claim_batch-Keeps s size = search (keeps_rules, claim-Keeps, scan_messages-Keeps)

  set_retry-Keeps :
      (n : ℕ) (at : Time) (t worker id : Bytes)
      → Keeps P (execute (with_text t (update_hot (owned_by worker id) (set_retry n at t))))
  set_retry-Keeps n at t worker id = Keeps-execute _ (λ w v.
      with_text-Gives P t (update_hot (owned_by worker id) (set_retry n at t)) w
        (inv.retries worker id n at t w v))

  pub mark_failed-Keeps : (s : Store) (id reason : Bytes) → Keeps P (mark_failed s id reason)
  unfolding mark_failed
  mark_failed-Keeps s id reason = search (keeps_rules, set_failed-Keeps inv.gives_up)

  pub mark_retry-Keeps :
      (s : Store) (id : Bytes) (n : ℕ) (t : Time) (reason : Bytes)
      → Keeps P (mark_retry s id n t reason)
  unfolding mark_retry
  mark_retry-Keeps s id n t reason = search (keeps_rules, set_retry-Keeps)
