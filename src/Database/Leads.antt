-- ===== src/Database/Leads.antt =====
-- What holds of the tables where an action returns a value; nothing is said where it fails. So the
-- statements of a transaction may pass through tables at which its invariant does not hold.
use go_messaging.Prelude.{◌≡◌, refl, Bool, true, false, Option, none, some, Bytes, if◌then◌else◌}
use go_messaging.Cipher.{Result, ok, err}
use go_messaging.Database.{
  Tables, World, Act, pure, ◌>>=◌, continue, wrapping, in_context, db_call, execute,
  apply_statement, TxEnd, commits, rolls_back, in_tx, close_tx,
}
use go_messaging.Database.Keeps.{
  Keeps, Gives, Keeps-db_call, Keeps-bind, Keeps-wrapping, committed-Keeps,
}

abbrev OkAt : {A : Type 0} → (Tables → Type 0) → Result A × World → Type 0
OkAt Q (ok a, w) = Q w.tables
OkAt Q (err e, w) = Unit {0}

-- From tables at which `P` holds, a value comes with tables at which `Q` holds.
pub record Leads {A : Type 0} (P Q : Tables → Type 0) (m : Act A) : Type 0 where
  pub at : (w : World) → P w.tables → OkAt Q (m w)

module _ {A : Type 0} (P : Tables → Type 0) where
  keeps-ok : (x : Result A × World) → P x.1.tables → OkAt P x
  keeps-ok (ok a, w) h = h
  keeps-ok (err e, w) h = tt

  context-ok : (c : Bytes) (x : Result A × World) → OkAt P x → OkAt P (in_context c x)
  context-ok c (ok a, w) h = h
  context-ok c (err e, w) h = tt

  apply-ok : (w : World) (o : Option (A × Tables)) → Gives P o → OkAt P (apply_statement o w)
  unfolding apply_statement
  apply-ok w none g = tt
  apply-ok w (some (a, t)) g = g

module _ {A : Type 0} {P : Tables → Type 0} where
  pub Keeps-Leads : (m : Act A) → Keeps P m → Leads P P m
  Keeps-Leads m k = record { at = λ w h. keeps-ok P (m w) (k.at w h) }

  pub Leads-pure : (a : A) → Leads P P (pure a)
  unfolding ◌>>=◌
  Leads-pure a = record { at = λ w h. h }

module _ {A : Type 0} {P Q : Tables → Type 0} where
  pub Leads-wrapping : (c : Bytes) (m : Act A) → Leads P Q m → Leads P Q (wrapping c m)
  unfolding ◌>>=◌
  Leads-wrapping c m k = record { at = λ w h. context-ok Q c (m w) (k.at w h) }

  pub Leads-if :
      (b : Bool) (m n : Act A)
      → (b ≡ true → Leads P Q m)
      → (b ≡ false → Leads P Q n)
      → Leads P Q (if b then m else n)
  Leads-if true m n km kn = km refl
  Leads-if false m n km kn = kn refl

module _ {A : Type 0} (P Q : Tables → Type 0) where
  run-ok :
      (statement : World → Option (A × Tables)) (x : Result (Unit {0}) × World)
      → ((w : World) → P w.tables → Gives Q (statement w))
      → P x.1.tables
      → OkAt Q (continue x (λ _. λ w. apply_statement (statement w) w))
  run-ok statement (ok u, w) gives h = apply-ok Q w (statement w) (gives w h)
  run-ok statement (err e, w) gives h = tt

module _ {A : Type 0} {P Q : Tables → Type 0} where
  pub Leads-execute :
      (statement : World → Option (A × Tables))
      → ((w : World) → P w.tables → Gives Q (statement w))
      → Leads P Q (execute statement)
  unfolding execute ◌>>=◌
  Leads-execute statement gives = record {
    at = λ w h. run-ok P Q statement (db_call w) gives ((Keeps-db_call {P = P}).at w h);
  }

module _ {A B : Type 0} (Q R : Tables → Type 0) where
  continue-ok :
      (x : Result A × World) (f : A → Act B)
      → OkAt Q x
      → ((a : A) → Leads Q R (f a))
      → OkAt R (continue x f)
  continue-ok (ok a, w) f h kf = (kf a).at w h
  continue-ok (err e, w) f h kf = tt

module _ {A B : Type 0} {P Q R : Tables → Type 0} where
  pub Leads-bind :
      (m : Act A) (f : A → Act B) → Leads P Q m → ((a : A) → Leads Q R (f a)) → Leads P R (m >>= f)
  unfolding ◌>>=◌
  Leads-bind m f km kf = record { at = λ w h. continue-ok Q R (m w) f (km.at w h) kf }

module _ {A : Type 0} (P : Tables → Type 0) where
  close-ok :
      (t : Tables) (c : Option Bytes) (x : Result (TxEnd A) × World)
      → P t
      → OkAt P x
      → P (close_tx t c x).1.tables
  unfolding close_tx
  close-ok t c (ok (commits a), w) ht h =
      committed-Keeps P a t c (db_call w) ht ((Keeps-db_call {P = P}).at w h)
  close-ok t c (ok (rolls_back a), w) ht h = ht
  close-ok t c (err e, w) ht h = ht

  -- A transaction keeps `P` if its body does where it does not fail.
  pub Leads-in_tx :
      (b : Bytes) (c : Option Bytes) (body : Act (TxEnd A))
      → Leads P P body
      → Keeps P (in_tx b c body)
  unfolding in_tx
  Leads-in_tx b c body k =
      Keeps-bind (wrapping b db_call) _ (Keeps-wrapping b db_call Keeps-db_call)
        (λ u. record { at = λ w h. close-ok w.tables c (body w) h (k.at w h) })
