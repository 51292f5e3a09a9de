-- ===== src/Database.antt =====
-- The three tables of schema.go, and the calls of database/sql (db.go, tx.go) as actions on them.
-- PostgreSQL is outside of the repository: which values it accepts, what it makes of a JSON value,
-- which rows other transactions have locked and which calls fail are parameters of the world.
pub mod Rows
pub mod Keeps
pub mod Leads
pub mod Hoare
pub mod Total
use go_messaging.Prelude.{
  ℕ, ℤ, Bool, true, false, Option, none, some, List, [], ◌∷◌, ◌++◌, Bytes, codes, ◌+◌,
}
use go_messaging.Message.{Status, FinalStatus, Time, Error, text, wrapped, Event}
use go_messaging.Cipher.{Result, ok, err}

-- message_<name>_dedup
pub record DedupRow : Type 0 where
  pub message_id : Bytes
  pub partition_key : Option Bytes
  pub topic : Bytes
  pub source : Option Bytes
  pub first_seen_at : Time
  pub expire_at : Option Time

-- message_<name>_hot
pub record HotRow : Type 0 where
  pub message_id : Bytes
  pub partition_key : Option Bytes
  pub topic : Bytes
  pub payload : Bytes
  pub headers : Option Bytes
  pub source : Option Bytes
  pub encrypted : Bool
  pub status : Status
  pub retry_count : ℕ
  pub max_retry : ℤ
  pub next_retry_at : Option Time
  pub processing_by : Option Bytes
  pub processing_at : Option Time
  pub created_at : Time
  pub processed_at : Option Time
  pub last_error : Option Bytes

-- message_<name>_archive
pub record ArchiveRow : Type 0 where
  pub id : ℕ
  pub message_id : Bytes
  pub partition_key : Option Bytes
  pub topic : Bytes
  pub payload : Bytes
  pub headers : Option Bytes
  pub source : Option Bytes
  pub encrypted : Bool
  pub final_status : FinalStatus
  pub retry_count : ℕ
  pub created_at : Time
  pub processed_at : Option Time
  pub archived_at : Time
  pub last_error : Option Bytes

-- `next_id` is the identity of the archive.
pub record Tables : Type 0 where
  pub dedup : List DedupRow
  pub hot : List HotRow
  pub archive : List ArchiveRow
  pub next_id : ℕ

-- What the database accepts, and the text that it gives a JSON value back as.
pub record Engine : Type 0 where
  pub accepts_dedup : DedupRow → Bool
  pub accepts_hot : HotRow → Bool
  pub accepts_text : Bytes → Bool
  pub jsonb : Bytes → Bytes

-- `now` is the clock of the database, `local_now` that of the process. `faults` says of each call to
-- come whether it fails, and with what text; past its end no call fails. `seed` counts the
-- encryptions.
pub record World : Type 0 where
  pub tables : Tables
  pub open tables use *
  pub engine : Engine
  pub locked : Bytes → Bool
  pub faults : List (Option Bytes)
  pub now : Time
  pub local_now : Time
  pub seed : ℕ
  pub events : List Event

-- An action returns a value or an error, and what it has changed stays changed in either case.
abbrev pub Act : Type 0 → Type 0
Act A = World → Result A × World

module _ {A : Type 0} where
  pub pure : A → Act A
  pure a w = (ok a, w)

  pub raise : Error → Act A
  raise e w = (err e, w)

  pub lift : Result A → Act A
  lift r w = (r, w)

  -- fmt.Errorf("<context>: %w", err) on the way out
  abbrev pub in_context : Bytes → Result A × World → Result A × World
  in_context context (ok a, w) = (ok a, w)
  in_context context (err e, w) = (err (wrapped context e), w)

  pub wrapping : Bytes → Act A → Act A
  wrapping context m w = in_context context (m w)

  -- `_ = f()`, and `if err := f(); …` that goes on in both cases
  pub attempt : Act A → Act (Result A)
  attempt m w = let (r, w') = m w in (ok r, w')

pub emit : Event → Act (Unit {0})
emit e w = (ok tt, record w { events = w.events ++ e ∷ [] })

module _ {A B : Type 0} where
  abbrev pub continue : Result A × World → (A → Act B) → Result B × World
  continue (ok a, w) f = f a w
  continue (err e, w) f = (err e, w)

  infixl 5 ◌>>=◌ ◌>>◌
  -- To open this is to open the other ways to build an action.
  unfoldable pub ◌>>=◌ : Act A → (A → Act B) → Act B
  unfolding pure raise lift wrapping attempt emit
  ◌>>=◌ m f w = continue (m w) f

  abbrev pub ◌>>◌ : Act A → Act B → Act B
  m >> n = m >>= λ _. n

-- One call of the database: it fails if the world says so.
unfoldable fate : Option Bytes → World → Result (Unit {0}) × World
fate none w = (ok tt, w)
fate (some s) w = (err (text s), w)

unfoldable next_fate : List (Option Bytes) → World → Result (Unit {0}) × World
unfolding fate
next_fate [] w = (ok tt, w)
next_fate (f ∷ fs) w = fate f (record w { faults = fs })

unfoldable pub db_call : Act (Unit {0})
unfolding next_fate
db_call w = next_fate w.faults w

unfoldable apply_statement : {A : Type 0} → Option (A × Tables) → World → Result A × World
apply_statement none w = (err (text (codes "pq: invalid input")), w)
apply_statement (some (a, t)) w = (ok a, record w { tables = t })

-- A statement runs whole or, refused by the database (`none`), not at all.
unfoldable pub execute : {A : Type 0} → (World → Option (A × Tables)) → Act A
unfolding db_call apply_statement ◌>>=◌
execute statement = do db_call; λ w. apply_statement (statement w) w

-- result.RowsAffected()
unfoldable pub rows_affected : ℕ → Act ℕ
unfolding db_call ◌>>=◌
rows_affected n = do db_call; pure n

-- n, _ := result.RowsAffected()
unfoldable or_zero : Result ℕ → ℕ
or_zero (ok n) = n
or_zero (err e) = 0

pub rows_affected_or_zero : ℕ → Act ℕ
unfolding rows_affected or_zero ◌>>=◌
rows_affected_or_zero n = do r ← attempt (rows_affected n); pure (or_zero r)

-- A transaction: its body says whether it commits. Whatever else happens, the deferred Rollback
-- puts the tables back.
pub data TxEnd (A : Type 0) : Type 0 where
  commits rolls_back : A → TxEnd A

abbrev roll_back : Tables → World → World
roll_back t w = record w { tables = t }

-- Some callers return the error of the commit as it is.
unfoldable commit_error : Option Bytes → Error → Error
commit_error none e = e
commit_error (some context) e = wrapped context e

unfoldable committed :
    {A : Type 0} → A → Tables → Option Bytes → Result (Unit {0}) × World → Result A × World
committed a t context (ok u, w) = (ok a, w)
committed a t context (err e, w) = (err (commit_error context e), roll_back t w)

unfoldable close_tx :
    {A : Type 0} → Tables → Option Bytes → Result (TxEnd A) × World → Result A × World
unfolding committed commit_error db_call
close_tx t context (ok (commits a), w) = committed a t context (db_call w)
close_tx t context (ok (rolls_back a), w) = (ok a, roll_back t w)
close_tx t context (err e, w) = (err e, roll_back t w)

pub in_tx : {A : Type 0} → Bytes → Option Bytes → Act (TxEnd A) → Act A
unfolding close_tx ◌>>=◌
in_tx begin_context commit_context body = do
  wrapping begin_context db_call
  λ w. close_tx w.tables commit_context (body w)
