-- ===== src/System.antt =====
-- Several instances of the package on one database: any calls of theirs, in any order, with the
-- clocks, the locks and the failing calls changing in between.
pub mod Safety
pub mod Retention
pub mod Lifecycle
pub mod Completion
pub mod Fixtures
mod Tests
use go_messaging.Prelude.{ℕ, ℤ, Option, List, [], ◌∷◌, Bool, Bytes}
use go_messaging.Message.{Message, Time}
use go_messaging.Database.{World, Tables}
use go_messaging.Messaging.{Messaging, Handler, Tx, receive, enqueue, enqueue_batch}
use go_messaging.Messaging.Process.{process_batch}
use go_messaging.Admin.{
  FilterOptions, admin_dead_letter, retry_failed, retry_all_failed, retry_one, remove_dedup,
}
use go_messaging.Cleanup.{
  purge_expired_dedup, recover_stuck, archive_exhausted, purge_old_archive, run_all,
}

-- The calls that change a table, and the passing of time.
pub data Call : Type 0 where
  receives : Message → Call
  enqueues : Tx → Message → Call
  enqueues_batch : Tx → List Message → Call
  processes : ℤ → Option Handler → List ℤ → (Bytes → Bool) → Call
  dead_letters : Bytes → Bytes → Call
  retries_failed : FilterOptions → Option Time → ℤ → Call
  retries_all_failed : ℕ → FilterOptions → ℤ → Call
  retries_one : Bytes → Call
  removes_dedup : Bytes → Call
  purges_dedup : ℕ → ℤ → Call
  recovers_stuck : Call
  archives_exhausted : ℤ → Call
  purges_archive : ℕ → ℕ → ℤ → Call
  runs_all : ℕ → Call
  waits : Time → Time → (Bytes → Bool) → List (Option Bytes) → Call

-- What a call of the instance `m` makes of the world, also where it returns an error.
pub step : Messaging → Call → World → World
step m (receives msg) w = (receive m msg w).1
step m (enqueues tx msg) w = (enqueue m tx msg w).1
step m (enqueues_batch tx msgs) w = (enqueue_batch m tx msgs w).1
step m (processes size given opts admitted) w = (process_batch m size given opts admitted w).1
step m (dead_letters id reason) w = (admin_dead_letter id reason w).1
step m (retries_failed o before limit) w = (retry_failed o before limit w).1
step m (retries_all_failed fuel o size) w = (retry_all_failed fuel o size w).1
step m (retries_one id) w = (retry_one id w).1
step m (removes_dedup id) w = (remove_dedup id w).1
step m (purges_dedup fuel size) w = (purge_expired_dedup m.store fuel size w).1
step m recovers_stuck w = (recover_stuck m.store w).1
step m (archives_exhausted size) w = (archive_exhausted m.store size w).1
step m (purges_archive fuel millis size) w = (purge_old_archive m.store fuel millis size w).1
step m (runs_all fuel) w = (run_all fuel m.store w).1
step m (waits now local_now locked faults) w = record w {
  now = now;
  local_now = local_now;
  locked = locked;
  faults = faults;
}

pub run : World → List (Messaging × Call) → World
run w [] = w
run w ((m, c) ∷ rest) = run (step m c w) rest

-- The tables after Migrate.
abbrev no_rows : Tables
no_rows = record { dedup = []; hot = []; archive = []; next_id = 1 }
