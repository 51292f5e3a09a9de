-- ===== src/Database/Total.antt =====
-- What an action comes to where no call of the database fails: it returns a value, and no call is set
-- to fail after it either.
use go_messaging.Prelude.{ℕ, ◌≡◌, refl, ap, Option, some, [], Bytes}
use go_messaging.Message.{Event}
use go_messaging.Cipher.{Result, ok, err}
use go_messaging.Database.{
  Tables, World, Act, pure, lift, ◌>>=◌, continue, wrapping, in_context, attempt, emit, db_call,
  next_fate, execute, apply_statement, rows_affected, rows_affected_or_zero, or_zero, TxEnd,
  commits, in_tx, close_tx, committed,
}

-- No call of the database is set to fail.
abbrev pub IsFaultless : World → Type 0
IsFaultless w = w.faults ≡ []

abbrev pub Ran : {A : Type 0} → (A → Tables → Type 0) → Result A × World → Type 0
Ran R (ok a, w) = IsFaultless w × R a w.tables
Ran R (err e, w) = ⊥

pub record Runs {A : Type 0} (P : Tables → Type 0) (R : A → Tables → Type 0) (m : Act A)
    : Type 0 where
  pub at : (w : World) → IsFaultless w → P w.tables → Ran R (m w)

-- Such a call answers and changes nothing.
db_call-answers : (w : World) → IsFaultless w → db_call w ≡ (ok tt, w)
unfolding db_call
db_call-answers w f = ap (λ fs. next_fate fs w) f

module _ {P : Tables → Type 0} where
  pub Runs-db_call : Runs P (λ u. P) db_call
  Runs-db_call = record { at = λ w f h. rw (db_call-answers w f) (f, h) }

module _ {A : Type 0} (R : A → Tables → Type 0) where
  pub context-Ran : (c : Bytes) (x : Result A × World) → Ran R x → Ran R (in_context c x)
  context-Ran c (ok a, w) h = h
  context-Ran c (err e, w) h = h

  pub continue-Ran :
      {B : Type 0} (S : B → Tables → Type 0) (x : Result A × World) (f : A → Act B)
      → Ran R x
      → ((a : A) → Runs (R a) S (f a))
      → Ran S (continue x f)
  continue-Ran S (ok a, w) f h k = (k a).at w h.0 h.1
  continue-Ran S (err e, w) f h k = absurd h

  pub attempt-Ran :
      {B : Type 0} (S : B → Tables → Type 0) (x : Result A × World) (f : Result A → Act B)
      → Ran R x
      → ((a : A) → Runs (R a) S (f (ok a)))
      → Ran S (f x.0 x.1)
  attempt-Ran S (ok a, w) f h k = (k a).at w h.0 h.1
  attempt-Ran S (err e, w) f h k = absurd h

module _ {A : Type 0} {P : Tables → Type 0} {R : A → Tables → Type 0} where
  pub Runs-pure : (a : A) → ((t : Tables) → P t → R a t) → Runs P R (pure a)
  unfolding ◌>>=◌
  Runs-pure a r = record { at = λ w f h. (f, r w.tables h) }

  pub Runs-lift :
      (a : A) (x : Result A) → x ≡ ok a → ((t : Tables) → P t → R a t) → Runs P R (lift x)
  unfolding ◌>>=◌
  Runs-lift a x e r = record { at = λ w f h. rw e (f, r w.tables h) }

  pub Runs-wrapping : (c : Bytes) (m : Act A) → Runs P R m → Runs P R (wrapping c m)
  unfolding ◌>>=◌
  Runs-wrapping c m k = record { at = λ w f h. context-Ran R c (m w) (k.at w f h) }

module _ {A B : Type 0} {P : Tables → Type 0} {R : A → Tables → Type 0}
    {S : B → Tables → Type 0} where
  pub Runs-bind :
      (m : Act A) (f : A → Act B) → Runs P R m → ((a : A) → Runs (R a) S (f a)) → Runs P S (m >>= f)
  unfolding ◌>>=◌
  Runs-bind m f k l = record { at = λ w e h. continue-Ran R S (m w) f (k.at w e h) l }

  pub Runs-attempt :
      (m : Act A) (f : Result A → Act B)
      → Runs P R m
      → ((a : A) → Runs (R a) S (f (ok a)))
      → Runs P S (attempt m >>= f)
  unfolding ◌>>=◌
  Runs-attempt m f k l = record { at = λ w e h. attempt-Ran R S (m w) f (k.at w e h) l }

module _ {P : Tables → Type 0} where
  pub Runs-emit :
      {A : Type 0} {R : A → Tables → Type 0} (e : Event) (f : Unit {0} → Act A)
      → Runs P R (f tt)
      → Runs P R (emit e >>= f)
  unfolding ◌>>=◌
  Runs-emit e f k = record { at = λ w g h. k.at (record w { events = _ }) g h }

  pub Runs-rows_affected_or_zero : (n : ℕ) → Runs P (λ k t. (k ≡ n) × P t) (rows_affected_or_zero n)
  unfolding rows_affected_or_zero rows_affected ◌>>=◌ or_zero
  Runs-rows_affected_or_zero n = record { at = λ w f h. rw (db_call-answers w f) (f, (refl, h)) }

module _ {A : Type 0} {P : Tables → Type 0} {R : A → Tables → Type 0} where
  -- A statement that the database accepts.
  pub Runs-execute :
      (statement : World → Option (A × Tables))
      → ((w : World) → P w.tables → (a : A) × (t : Tables) × (statement w ≡ some (a, t)) × R a t)
      → Runs P R (execute statement)
  unfolding execute ◌>>=◌ apply_statement
  Runs-execute statement gives = record {
    at = λ w f h. let (a, t, e, r) = gives w h in rw (db_call-answers w f, e) (f, r);
  }

  -- A transaction that commits.
  pub Runs-in_tx :
      (b : Bytes) (c : Option Bytes) (body : Act (TxEnd A))
      → Runs P (λ end t. (a : A) × (end ≡ commits a) × R a t) body
      → Runs P R (in_tx b c body)
  unfolding in_tx
  Runs-in_tx b c body k =
      Runs-bind _ _ (Runs-wrapping b db_call Runs-db_call)
        (λ u. record { at = λ w f h. close w.tables (body w) (k.at w f h) })
    where
      close :
          (t : Tables) (x : Result (TxEnd A) × World)
          → Ran (λ end t. (a : A) × (end ≡ commits a) × R a t) x
          → Ran R (close_tx t c x)
      close t (ok end, w) (f, (a, same, r)) =
          unfold close_tx committed in rw (same, close_tx, db_call-answers w f) (f, r)
      close t (err e, w) h = absurd h

pub Ran-weaken :
    {A : Type 0} {R S : A → Tables → Type 0} (x : Result A × World)
    → ((a : A) (t : Tables) → R a t → S a t)
    → Ran R x
    → Ran S x
Ran-weaken (ok a, w) weak (f, r) = (f, weak a w.tables r)
Ran-weaken (err e, w) weak r = absurd r

-- A statement that the database accepts, at one world.
pub execute-answers :
    {A : Type 0} (statement : World → Option (A × Tables)) (w : World) (a : A) (t : Tables)
    → IsFaultless w
    → statement w ≡ some (a, t)
    → execute statement w ≡ (ok a, record w { tables = t })
unfolding execute ◌>>=◌ apply_statement
execute-answers statement w a t f e = rw (db_call-answers w f, e) refl
