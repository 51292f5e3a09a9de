-- ===== src/Invariant/Interface.antt =====
-- What a predicate on the tables has to meet at each statement, for the calls of the package to
-- keep it.
use go_messaging.Prelude.{ℕ, ◌≡◌, true, Bytes, List, Option, ◌&&◌, All, Bool}
use go_messaging.Message.{Time}
use go_messaging.Database.{DedupRow, HotRow, Tables, World}
use go_messaging.Database.Rows.{delete_where}
use go_messaging.Database.Keeps.{Keeps, Gives}
use go_messaging.Store.{Store, insert_dedup_statement, insert_hot_statement}
use go_messaging.Store.Claims.{
  claim_statement, update_hot, set_failed, set_retry, mark_done_and_archive, has_id, owned_by,
  is_failed, is_pending,
}
use go_messaging.Admin.{FilterOptions, retry_statement, set_requeued, has_dedup}
use go_messaging.Cleanup.{delete_first, has_expired, is_stuck, set_recovered, archive_exhausted}
use go_messaging.Prelude.{ℤ}
use go_messaging.Invariant.{IsValidRow}

-- A row as Receive, Enqueue and EnqueueBatch insert it.
pub record IsFresh (r : HotRow) : Type 0 where
  pub valid : IsValidRow r
  pub waits : is_pending r.status ≡ true

-- Receive, Enqueue and EnqueueBatch.
pub record TakesIn (P : Tables → Type 0) : Type 0 where
  pub inserts_dedup :
      (row : DedupRow) (w : World) → P w.tables → Gives P (insert_dedup_statement row w)
  pub inserts_hot :
      (new : List HotRow) (w : World)
      → All IsFresh new
      → P w.tables
      → Gives P (insert_hot_statement new w)

-- A message is set to FAILED.
pub record GivesUp (P : Tables → Type 0) : Type 0 where
  pub fails :
      (p : HotRow → Bool) (t : Bytes) (w : World)
      → P w.tables
      → P (update_hot p (set_failed w.now t) w).1

-- ProcessBatch.
pub record Works (P : Tables → Type 0) : Type 0 where
  pub gives_up : GivesUp P
  pub claims :
      (worker : Bytes) (size : ℕ) (w : World) → P w.tables → Gives P (claim_statement worker size w)
  pub retries :
      (worker id : Bytes) (n : ℕ) (at : Time) (t : Bytes) (w : World)
      → P w.tables
      → P (update_hot (owned_by worker id) (set_retry n at t) w).1
  pub finishes : (s : Store) (id : Bytes) (ts : Time) → Keeps P (mark_done_and_archive s id ts)

-- RetryFailed and RetryOne.
pub record AsksAgain (P : Tables → Type 0) : Type 0 where
  pub requeues :
      (o : FilterOptions) (before : Option Time) (limit : ℕ) (w : World)
      → P w.tables
      → P (retry_statement o before limit w).1
  pub requeues_one :
      (id : Bytes) (w : World)
      → P w.tables
      → P (update_hot (λ r. has_id id r && is_failed r.status) set_requeued w).1

-- The dedup table loses rows.
pub record Forgets (P : Tables → Type 0) : Type 0 where
  pub forgets :
      (id : Bytes) (w : World)
      → P w.tables
      → P (record w.tables { dedup = delete_where (has_dedup id) w.dedup })
  pub expires :
      (size : ℕ) (w : World)
      → P w.tables
      → P (record w.tables { dedup = delete_first (has_expired w.now) size w.dedup })

-- RecoverStuck.
pub record Recovers (P : Tables → Type 0) : Type 0 where
  pub recovers :
      (timeout : ℕ) (w : World)
      → P w.tables
      → P (update_hot (is_stuck timeout w.now) (set_recovered w.now) w).1

-- ArchiveExhausted.
pub record Buries (P : Tables → Type 0) : Type 0 where
  pub exhausts : (s : Store) (size : ℤ) → Keeps P (archive_exhausted s size)

pub record IsInvariant (P : Tables → Type 0) : Type 0 where
  pub takes_in : TakesIn P
  pub works : Works P
  pub asks_again : AsksAgain P
  pub forgetting : Forgets P
  pub recovering : Recovers P
  pub burying : Buries P
