-- ===== src/System/Safety.antt =====
-- What every call keeps holds after any history; in particular the tables are valid.
use go_messaging.Prelude.{ℕ, ℤ, List, [], ◌∷◌, All}
use go_messaging.Database.{World, Tables}
use go_messaging.Database.Keeps.{Keeps}
use go_messaging.Store.{Store}
use go_messaging.Messaging.{Messaging}
use go_messaging.Admin.{admin_dead_letter}
use go_messaging.Cleanup.{purge_old_archive}
use go_messaging.Invariant.{IsValid}
use go_messaging.Invariant.Interface.{IsInvariant}
use go_messaging.Invariant.Operations
use go_messaging.Invariant.Calls
use go_messaging.Invariant.Calls.{HasDefault, AreTame, TameGiven}
use go_messaging.Invariant.Upkeep
use go_messaging.Invariant.Valid.{IsValid-IsInvariant, purge_old_archive-IsValid}
use go_messaging.System.{
  Call, receives, enqueues, enqueues_batch, processes, dead_letters, retries_failed,
  retries_all_failed, retries_one, removes_dedup, purges_dedup, recovers_stuck, archives_exhausted,
  purges_archive, runs_all, waits, step, run,
}

-- An instance and a call of it that keep `P`: the default of retries is not negative, the handlers
-- keep `P`, and so does the one call that is no part of `IsInvariant`, PurgeOldArchive.
abbrev pub IsTameCall : (Tables → Type 0) → Messaging × Call → Type 0
IsTameCall P (m, processes size given opts admitted) =
    HasDefault m × AreTame P m × TameGiven P given
IsTameCall P (m, purges_archive fuel millis size) =
    HasDefault m × Keeps P (purge_old_archive m.store fuel millis size)
IsTameCall P (m, c) = HasDefault m

module _ {P : Tables → Type 0} (inv : IsInvariant P) where
  step-Keeps :
      (m : Messaging) (c : Call) (w : World)
      → IsTameCall P (m, c)
      → P w.tables
      → P (step m c w).tables
  unfolding step admin_dead_letter
  step-Keeps m (receives msg) w h v = (Calls.receive-Keeps inv.takes_in m msg h).at w v
  step-Keeps m (enqueues tx msg) w h v = (Calls.enqueue-Keeps inv.takes_in m tx msg h).at w v
  step-Keeps m (enqueues_batch tx msgs) w h v =
      (Calls.enqueue_batch-Keeps inv.takes_in m tx msgs h).at w v
  step-Keeps m (processes size given opts admitted) w h v =
      (Calls.process_batch-Keeps inv.works m size given opts admitted h.1 h.2).at w v
  step-Keeps m (dead_letters id reason) w h v =
      (Operations.dead_letter-Keeps inv.works.gives_up id reason).at w v
  step-Keeps m (retries_failed o before limit) w h v =
      (Upkeep.retry_failed-Keeps inv.asks_again o before limit).at w v
  step-Keeps m (retries_all_failed fuel o size) w h v =
      (Upkeep.retry_all_failed-Keeps inv.asks_again fuel o size).at w v
  step-Keeps m (retries_one id) w h v = (Upkeep.retry_one-Keeps inv.asks_again id).at w v
  step-Keeps m (removes_dedup id) w h v = (Upkeep.remove_dedup-Keeps inv.forgetting id).at w v
  step-Keeps m (purges_dedup fuel size) w h v =
      (Upkeep.purge_expired_dedup-Keeps inv.forgetting m.store fuel size).at w v
  step-Keeps m recovers_stuck w h v = (Upkeep.recover_stuck-Keeps inv.recovering m.store).at w v
  step-Keeps m (archives_exhausted size) w h v = (inv.burying.exhausts m.store size).at w v
  step-Keeps m (purges_archive fuel millis size) w h v = h.1.at w v
  step-Keeps m (runs_all fuel) w h v =
      (Upkeep.run_all-Keeps inv.forgetting inv.recovering inv.burying fuel m.store).at w v
  step-Keeps m (waits now local_now locked faults) w h v = v

  pub run-Keeps :
      (calls : List (Messaging × Call)) (w : World)
      → All (IsTameCall P) calls
      → P w.tables
      → P (run w calls).tables
  unfolding run
  run-Keeps [] w h v = v
  run-Keeps ((m, c) ∷ rest) w h v = run-Keeps rest (step m c w) h.1 (step-Keeps m c w h.0 v)

-- An instance and a call of it where PurgeOldArchive keeps `P` too: the default number of retries is
-- not negative, and the handlers, with what others do while these run, keep `P`.
abbrev pub IsSoundCall : (Tables → Type 0) → Messaging × Call → Type 0
IsSoundCall P (m, processes size given opts admitted) =
    HasDefault m × AreTame P m × TameGiven P given
IsSoundCall P (m, c) = HasDefault m

-- PurgeOldArchive, with any arguments.
abbrev pub Purges : (Tables → Type 0) → Type 0
Purges P = (s : Store) (fuel millis : ℕ) (size : ℤ) → Keeps P (purge_old_archive s fuel millis size)

module _ {P : Tables → Type 0} (inv : IsInvariant P) (purges : Purges P) where
  sound-tame : (m : Messaging) (c : Call) → IsSoundCall P (m, c) → IsTameCall P (m, c)
  sound-tame m (processes size given opts admitted) h = h
  sound-tame m (purges_archive fuel millis size) h = (h, purges m.store fuel millis size)
  sound-tame m _ h = h

  every_call_tame :
      (calls : List (Messaging × Call)) → All (IsSoundCall P) calls → All (IsTameCall P) calls
  every_call_tame [] h = tt
  every_call_tame ((m, c) ∷ rest) h = (sound-tame m c h.0, every_call_tame rest h.1)

  pub run-Keeps_purging :
      (calls : List (Messaging × Call)) (w : World)
      → All (IsSoundCall P) calls
      → P w.tables
      → P (run w calls).tables
  run-Keeps_purging calls w h = run-Keeps inv calls w (every_call_tame calls h)

-- From valid tables, any calls of any instances, failing or not, lead to valid tables: message ids
-- are unique in the hot table and in the dedup table, a row has an owner and a claim time exactly
-- while it is PROCESSING, a FAILED row has the time at which it failed, no row has a negative number
-- of retries, and the archive's identities are below the next one. Of the calls it is asked that
-- their instances' default number of retries is not negative, and that the handlers which a
-- ProcessBatch can run, with what others do meanwhile, leave valid tables.
pub run-IsValid :
    (calls : List (Messaging × Call)) (w : World)
    → All (IsSoundCall IsValid) calls
    → IsValid w.tables
    → IsValid (run w calls).tables
run-IsValid = run-Keeps_purging IsValid-IsInvariant purge_old_archive-IsValid
