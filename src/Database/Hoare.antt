-- ===== src/Database/Hoare.antt =====
-- What holds of the value and of the tables where an action returns a value, and of the tables where
-- it returns an error: a rule for each way in which an action is built.
use go_messaging.Prelude.{
  ℕ, ◌≡◌, ◌≤◌, refl, arith, Bool, true, false, Option, none, some, Bytes, if◌then◌else◌,
}
use go_messaging.Message.{Error, Event}
use go_messaging.Cipher.{Result, ok, err}
use go_messaging.Database.{
  Tables, World, Act, pure, raise, ◌>>=◌, continue, wrapping, in_context, attempt, emit, db_call,
  execute, apply_statement, rows_affected, rows_affected_or_zero, or_zero, TxEnd, commits,
  rolls_back, in_tx, close_tx, committed,
}
use go_messaging.Database.Keeps.{Keeps, Keeps-db_call}

abbrev pub Outcome :
    {A : Type 0} → (A → Tables → Type 0) → (Tables → Type 0) → Result A × World → Type 0
Outcome R E (ok a, w) = R a w.tables
Outcome R E (err e, w) = E w.tables

pub record Triple {A : Type 0} (P : Tables → Type 0) (R : A → Tables → Type 0) (E : Tables → Type 0)
    (m : Act A) : Type 0 where
  pub at : (w : World) → P w.tables → Outcome R E (m w)

-- What a statement makes of the tables, where the database runs it.
abbrev Yields : {A : Type 0} → (A → Tables → Type 0) → Option (A × Tables) → Type 0
Yields R none = Unit {0}
Yields R (some (a, t)) = R a t

module _ {A : Type 0} (R : A → Tables → Type 0) (E : Tables → Type 0) where
  context-Outcome :
      (c : Bytes) (x : Result A × World) → Outcome R E x → Outcome R E (in_context c x)
  context-Outcome c (ok a, w) h = h
  context-Outcome c (err e, w) h = h

  apply-Outcome :
      (w : World) (o : Option (A × Tables))
      → E w.tables
      → Yields R o
      → Outcome R E (apply_statement o w)
  unfolding apply_statement
  apply-Outcome w none h g = h
  apply-Outcome w (some (a, t)) h g = g

  continue-Outcome :
      {B : Type 0} (S : B → Tables → Type 0) (x : Result A × World) (f : A → Act B)
      → Outcome R E x
      → ((a : A) → Triple (R a) S E (f a))
      → Outcome S E (continue x f)
  continue-Outcome S (ok a, w) f h k = (k a).at w h
  continue-Outcome S (err e, w) f h k = h

  -- A caller that goes on with the error.
  attempt-Outcome :
      {B : Type 0} (S : B → Tables → Type 0) (F : Tables → Type 0) (x : Result A × World)
      (f : Result A → Act B)
      → Outcome R E x
      → ((a : A) → Triple (R a) S F (f (ok a)))
      → ((e : Error) → Triple E S F (f (err e)))
      → Outcome S F (f x.0 x.1)
  attempt-Outcome S F (ok a, w) f h k l = (k a).at w h
  attempt-Outcome S F (err e, w) f h k l = (l e).at w h

  keeps-Outcome :
      (x : Result A × World)
      → ((a : A) → E x.1.tables → R a x.1.tables)
      → E x.1.tables
      → Outcome R E x
  keeps-Outcome (ok a, w) r h = r a h
  keeps-Outcome (err e, w) r h = h

module _ {A : Type 0} {P E : Tables → Type 0} {R : A → Tables → Type 0} where
  pub Triple-pure : (a : A) → ((t : Tables) → P t → R a t) → Triple P R E (pure a)
  unfolding ◌>>=◌
  Triple-pure a r = record { at = λ w h. r w.tables h }

  pub Triple-raise : (e : Error) → ((t : Tables) → P t → E t) → Triple P R E (raise {A = A} e)
  unfolding ◌>>=◌
  Triple-raise e r = record { at = λ w h. r w.tables h }

  pub Triple-wrapping : (c : Bytes) (m : Act A) → Triple P R E m → Triple P R E (wrapping c m)
  unfolding ◌>>=◌
  Triple-wrapping c m k = record { at = λ w h. context-Outcome R E c (m w) (k.at w h) }

  pub Triple-if :
      (b : Bool) (m n : Act A)
      → (b ≡ true → Triple P R E m)
      → (b ≡ false → Triple P R E n)
      → Triple P R E (if b then m else n)
  Triple-if true m n km kn = km refl
  Triple-if false m n km kn = kn refl

  pub Triple-given :
      {P' : Tables → Type 0} (m : Act A)
      → Triple P R E m
      → ((t : Tables) → P' t → P t)
      → Triple P' R E m
  Triple-given m k given = record { at = λ w h. k.at w (given w.tables h) }

module _ {A B : Type 0} {P E : Tables → Type 0} {R : A → Tables → Type 0}
    {S : B → Tables → Type 0} where
  pub Triple-bind :
      (m : Act A) (f : A → Act B)
      → Triple P R E m
      → ((a : A) → Triple (R a) S E (f a))
      → Triple P S E (m >>= f)
  unfolding ◌>>=◌
  Triple-bind m f k l = record { at = λ w h. continue-Outcome R E S (m w) f (k.at w h) l }

  pub Triple-attempt :
      {F : Tables → Type 0} (m : Act A) (f : Result A → Act B)
      → Triple P R F m
      → ((a : A) → Triple (R a) S E (f (ok a)))
      → ((e : Error) → Triple F S E (f (err e)))
      → Triple P S E (attempt m >>= f)
  unfolding ◌>>=◌
  Triple-attempt {F} m f k l n = record {
    at = λ w h. attempt-Outcome R F S E (m w) f (k.at w h) l n;
  }

module _ {A : Type 0} {P E : Tables → Type 0} {R S : A → Tables → Type 0} where
  pub Triple-weaken :
      (m : Act A) → Triple P R E m → ((a : A) (t : Tables) → R a t → S a t) → Triple P S E m
  Triple-weaken m k weak = record { at = λ w h. weaken (m w) (k.at w h) }
    where
      weaken : (x : Result A × World) → Outcome R E x → Outcome S E x
      weaken (ok a, w) h = weak a w.tables h
      weaken (err e, w) h = h

module _ {A : Type 0} {P : Tables → Type 0} where
  pub Keeps-Triple : (m : Act A) → Keeps P m → Triple P (λ a. P) P m
  Keeps-Triple m k = record { at = λ w h. keeps-Outcome (λ a. P) P (m w) (λ a g. g) (k.at w h) }

  -- In a transaction nothing is asked of the tables at an error.
  pub Keeps-Triple_in_tx : (m : Act A) → Keeps P m → Triple P (λ a. P) (λ t. Unit {0}) m
  Keeps-Triple_in_tx m k = record { at = λ w h. forget (m w) (k.at w h) }
    where
      forget : (x : Result A × World) → P x.1.tables → Outcome (λ a. P) (λ t. Unit {0}) x
      forget (ok a, w) h = h
      forget (err e, w) h = tt

module _ {A : Type 0} {P E : Tables → Type 0} {R : A → Tables → Type 0} where
  pub Triple-execute :
      (statement : World → Option (A × Tables))
      → ((t : Tables) → P t → E t)
      → ((w : World) → P w.tables → Yields R (statement w))
      → Triple P R E (execute statement)
  unfolding execute ◌>>=◌
  Triple-execute statement weak yields = record {
    at = λ w h. by_call (db_call w) ((Keeps-db_call {P = P}).at w h);
  }
    where
      by_call :
          (x : Result (Unit {0}) × World)
          → P x.1.tables
          → Outcome R E (continue x (λ _. λ w. apply_statement (statement w) w))
      by_call (ok u, w) h = apply-Outcome R E w (statement w) (weak w.tables h) (yields w h)
      by_call (err e, w) h = weak w.tables h

module _ {P E : Tables → Type 0} where
  -- Emitting an event changes no table.
  pub Triple-emit :
      {A : Type 0} {R : A → Tables → Type 0} (e : Event) (f : Unit {0} → Act A)
      → Triple P R E (f tt)
      → Triple P R E (emit e >>= f)
  unfolding ◌>>=◌
  Triple-emit e f k = record { at = λ w h. k.at (record w { events = _ }) h }

  -- A count that the driver may fail to report.
  pub Triple-rows_affected_or_zero :
      (n : ℕ) → Triple P (λ k t. (k ≤ n) × P t) E (rows_affected_or_zero n)
  unfolding rows_affected_or_zero rows_affected ◌>>=◌ or_zero
  Triple-rows_affected_or_zero n = record {
    at = λ w h. by_call (db_call w) ((Keeps-db_call {P = P}).at w h);
  }
    where
      by_call :
          (x : Result (Unit {0}) × World)
          → P x.1.tables
          → Outcome
              (λ k t. (k ≤ n) × P t)
              E
              (ok (or_zero (continue x (λ _ w. (ok n, w))).0), (continue x (λ _ w. (ok n, w))).1)
      by_call (ok u, w) h = (omega arith, h)
      by_call (err e, w) h = (omega arith, h)

  pub Triple-rows_affected :
      (n : ℕ) → ((t : Tables) → P t → E t) → Triple P (λ k t. (k ≡ n) × P t) E (rows_affected n)
  unfolding rows_affected
  Triple-rows_affected n weak =
      Triple-bind {R = λ _. P} _ _
        (record { at = λ w h. by_call (db_call w) ((Keeps-db_call {P = P}).at w h) })
        (λ u. Triple-pure n (λ t h. (refl, h)))
    where
      by_call : (x : Result (Unit {0}) × World) → P x.1.tables → Outcome (λ _. P) E x
      by_call (ok u, w) h = h
      by_call (err e, w) h = weak w.tables h

-- How a transaction ends: what it has done is seen where it commits, and nothing else is.
abbrev pub EndsIn : {A : Type 0} → Tables → (A → Tables → Type 0) → TxEnd A → Tables → Type 0
EndsIn t₀ S (commits a) t = S a t
EndsIn t₀ S (rolls_back a) t = S a t₀

module _ {A : Type 0} (t₀ : Tables) (S : A → Tables → Type 0) where
  close-Outcome :
      (c : Option Bytes) (x : Result (TxEnd A) × World)
      → Outcome (EndsIn t₀ S) (λ t. Unit {0}) x
      → Outcome S (λ t. t ≡ t₀) (close_tx t₀ c x)
  unfolding close_tx committed
  close-Outcome c (ok (commits a), w) h = by_commit (db_call w) ((Keeps-db_call {P = S a}).at w h)
    where
      by_commit :
          (y : Result (Unit {0}) × World)
          → S a y.1.tables
          → Outcome S (λ t. t ≡ t₀) (committed a t₀ c y)
      by_commit (ok u, w') g = g
      by_commit (err e, w') g = refl
  close-Outcome c (ok (rolls_back a), w) h = h
  close-Outcome c (err e, w) h = refl

module _ {A : Type 0} {S : A → Tables → Type 0} (t₀ : Tables) where
  -- A transaction that returns an error leaves the tables that it found.
  pub Triple-in_tx :
      (b : Bytes) (c : Option Bytes) (body : Act (TxEnd A))
      → Triple (λ t. t ≡ t₀) (EndsIn t₀ S) (λ t. Unit {0}) body
      → Triple (λ t. t ≡ t₀) S (λ t. t ≡ t₀) (in_tx b c body)
  unfolding in_tx
  Triple-in_tx b c body k =
      Triple-bind _ _ (Triple-wrapping b db_call (Keeps-Triple db_call Keeps-db_call))
        (λ u. record { at = λ w h. close w.tables (body w) h (k.at w h) })
    where
      close :
          (t : Tables) (x : Result (TxEnd A) × World)
          → t ≡ t₀
          → Outcome (EndsIn t₀ S) (λ t. Unit {0}) x
          → Outcome S (λ t. t ≡ t₀) (close_tx t c x)
      close t x h g = rw h (close-Outcome t₀ S c x g)
