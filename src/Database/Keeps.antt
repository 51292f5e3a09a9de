-- ===== src/Database/Keeps.antt =====
-- Invariants of the tables: a rule for each way in which an action is built.
use go_messaging.Prelude.{
  ℕ, ◌≡◌, refl, Bool, true, false, Option, none, some, List, [], ◌∷◌, Bytes, if◌then◌else◌,
}
use go_messaging.Message.{Error, Event}
use go_messaging.Cipher.{Result, ok, err}
use go_messaging.Database.{
  Tables, World, Act, pure, raise, lift, ◌>>=◌, continue, wrapping, in_context, attempt, emit,
  db_call, next_fate, execute, apply_statement, rows_affected, rows_affected_or_zero, TxEnd,
  commits, rolls_back, in_tx, close_tx, committed, or_zero,
}

-- From tables at which `P` holds, the action leaves tables at which it holds, also where it fails.
pub record Keeps {A : Type 0} (P : Tables → Type 0) (m : Act A) : Type 0 where
  pub at : (w : World) → P w.tables → P (m w).1.tables

-- A statement that runs gives tables at which `P` holds.
abbrev pub Gives : {A : Type 0} → (Tables → Type 0) → Option (A × Tables) → Type 0
Gives P none = Unit {0}
Gives P (some (a, t)) = P t

module _ {A : Type 0} where
  in_context-tables : (c : Bytes) (x : Result A × World) → (in_context c x).1.tables ≡ x.1.tables
  in_context-tables c (ok a, w) = refl
  in_context-tables c (err e, w) = refl

module _ {P : Tables → Type 0} where
  pub Keeps-db_call : Keeps P db_call
  unfolding db_call
  Keeps-db_call = record { at = λ w h. by_fate w w.faults h }
    where
      by_fate : (w : World) (fs : List (Option Bytes)) → P w.tables → P (next_fate fs w).1.tables
      by_fate w [] h = h
      by_fate w (none ∷ fs) h = h
      by_fate w (some s ∷ fs) h = h

  pub Keeps-emit : (e : Event) → Keeps P (emit e)
  unfolding ◌>>=◌
  Keeps-emit e = record { at = λ w h. h }

module _ {A : Type 0} {P : Tables → Type 0} where
  pub Keeps-lift : (result : Result A) → Keeps P (lift result)
  unfolding ◌>>=◌
  Keeps-lift result = record { at = λ w held. held }

  pub Keeps-raise : (e : Error) → Keeps P (raise {A = A} e)
  unfolding ◌>>=◌
  Keeps-raise e = record { at = λ w held. held }

  pub Keeps-pure : (value : A) → Keeps P (pure value)
  unfolding ◌>>=◌
  Keeps-pure value = record { at = λ w held. held }

  pub Keeps-wrapping : (c : Bytes) (m : Act A) → Keeps P m → Keeps P (wrapping c m)
  unfolding ◌>>=◌
  Keeps-wrapping c m k = record { at = λ w h. rw (in_context-tables c (m w)) (k.at w h) }

  pub Keeps-attempt : (m : Act A) → Keeps P m → Keeps P (attempt m)
  unfolding ◌>>=◌
  Keeps-attempt m k = record { at = k.at }

  pub Keeps-if :
      (test : Bool) (act other : Act A)
      → (test ≡ true → Keeps P act)
      → (test ≡ false → Keeps P other)
      → Keeps P (if test then act else other)
  Keeps-if false act other keeps_yes keeps_no = keeps_no refl
  Keeps-if true act other keeps_yes keeps_no = keeps_yes refl

module _ {A : Type 0} (P : Tables → Type 0) where
  continue-Keeps :
      {B : Type 0} (x : Result A × World) (f : A → Act B)
      → P x.1.tables
      → ((a : A) → Keeps P (f a))
      → P (continue x f).1.tables
  continue-Keeps (ok a, w) f h kf = (kf a).at w h
  continue-Keeps (err e, w) f h kf = h

  apply-Keeps :
      (w : World) (o : Option (A × Tables))
      → P w.tables
      → Gives P o
      → P (apply_statement o w).1.tables
  unfolding apply_statement
  apply-Keeps w none h g = h
  apply-Keeps w (some (a, t)) h g = g

  pub committed-Keeps :
      (a : A) (t : Tables) (c : Option Bytes) (y : Result (Unit {0}) × World)
      → P t
      → P y.1.tables
      → P (committed a t c y).1.tables
  unfolding committed
  committed-Keeps a t c (ok u, w) ht h = h
  committed-Keeps a t c (err e, w) ht h = ht

  -- A transaction that does not commit leaves the tables that it found.
  close-Keeps :
      (t : Tables) (c : Option Bytes) (x : Result (TxEnd A) × World)
      → P t
      → P x.1.tables
      → P (close_tx t c x).1.tables
  unfolding close_tx
  close-Keeps t c (ok (commits a), w) ht h =
      committed-Keeps a t c (db_call w) ht ((Keeps-db_call {P = P}).at w h)
  close-Keeps t c (ok (rolls_back a), w) ht h = ht
  close-Keeps t c (err e, w) ht h = ht

module _ {A B : Type 0} {P : Tables → Type 0} where
  pub Keeps-bind :
      (m : Act A) (f : A → Act B) → Keeps P m → ((a : A) → Keeps P (f a)) → Keeps P (m >>= f)
  unfolding ◌>>=◌
  Keeps-bind m f km kf = record { at = λ w h. continue-Keeps P (m w) f (km.at w h) kf }

module _ {A B : Type 0} where
  -- The rest of a block may use what is known of the value that it goes on with.
  continue-Keeps_if :
      (P : Tables → Type 0) (Q : A → Type 0) (x : Result A × World) (f : A → Act B)
      → P x.1.tables
      → ((a : A) → x.0 ≡ ok a → Q a)
      → ((a : A) → Q a → Keeps P (f a))
      → P (continue x f).1.tables
  continue-Keeps_if P Q (ok a, w) f h q kf = (kf a (q a refl)).at w h
  continue-Keeps_if P Q (err e, w) f h q kf = h

module _ {A B : Type 0} {P : Tables → Type 0} where
  pub Keeps-bind_if :
      (Q : A → Type 0) (m : Act A) (f : A → Act B)
      → Keeps P m
      → ((w : World) (a : A) → (m w).0 ≡ ok a → Q a)
      → ((a : A) → Q a → Keeps P (f a))
      → Keeps P (m >>= f)
  unfolding ◌>>=◌
  Keeps-bind_if Q m f km q kf = record {
    at = λ w h. continue-Keeps_if P Q (m w) f (km.at w h) (q w) kf;
  }

module _ {A : Type 0} {P : Tables → Type 0} where
  pub Keeps-execute :
      (statement : World → Option (A × Tables))
      → ((w : World) → P w.tables → Gives P (statement w))
      → Keeps P (execute statement)
  unfolding execute
  Keeps-execute statement gives =
      Keeps-bind db_call _ Keeps-db_call
        (λ u. record { at = λ w h. apply-Keeps P w (statement w) h (gives w h) })

  pub Keeps-in_tx :
      (b : Bytes) (c : Option Bytes) (body : Act (TxEnd A))
      → Keeps P body
      → Keeps P (in_tx b c body)
  unfolding in_tx
  Keeps-in_tx b c body k =
      Keeps-bind (wrapping b db_call) _ (Keeps-wrapping b db_call Keeps-db_call)
        (λ u. record { at = λ w h. close-Keeps P w.tables c (body w) h (k.at w h) })

module _ {P : Tables → Type 0} where
  pub Keeps-rows_affected : (n : ℕ) → Keeps P (rows_affected n)
  unfolding rows_affected
  Keeps-rows_affected n = Keeps-bind db_call _ Keeps-db_call (λ u. Keeps-pure n)

  pub Keeps-rows_affected_or_zero : (n : ℕ) → Keeps P (rows_affected_or_zero n)
  unfolding rows_affected_or_zero
  Keeps-rows_affected_or_zero n =
      Keeps-bind _ _ (Keeps-attempt _ (Keeps-rows_affected n)) (λ r. Keeps-pure (or_zero r))

pub ruleset keeps_rules = (
  Keeps-db_call, Keeps-emit, Keeps-pure, Keeps-raise, Keeps-lift, Keeps-wrapping, Keeps-attempt,
  Keeps-if, Keeps-bind, Keeps-in_tx, Keeps-rows_affected, Keeps-rows_affected_or_zero,
)
