-- ===== src/System/Lifecycle/Refinement.antt =====
-- Each call takes each message along the steps of its life that the call stands for, so every history
-- of calls refines the state machine.
use go_messaging.Prelude.{refl, Bool, true, false, List, [], ◌∷◌, Bytes, All}
use go_messaging.Database.{World}
use go_messaging.Messaging.{Messaging}
use go_messaging.Admin.{admin_dead_letter}
use go_messaging.Invariant.{IsValid}
use go_messaging.Invariant.Operations
use go_messaging.Invariant.Calls
use go_messaging.Invariant.Calls.{HasDefault, AreTame, TameGiven}
use go_messaging.Invariant.Upkeep
use go_messaging.System.{
  Call, receives, enqueues, enqueues_batch, processes, dead_letters, retries_failed,
  retries_all_failed, retries_one, removes_dedup, purges_dedup, recovers_stuck, archives_exhausted,
  purges_archive, runs_all, waits, step, run,
}
use go_messaging.System.Lifecycle.{
  Kind, entering, claiming, delaying, failing, requeueing, finishing, burying, purging, View,
  ◌⟶*⟨◌⟩◌, stays, view,
}
use go_messaging.System.Lifecycle.Statements.{
  HasCome, HasCome-TakesIn, HasCome-GivesUp, HasCome-Works, HasCome-AsksAgain, HasCome-Forgets,
  HasCome-Recovers, HasCome-Buries, purge_old_archive-HasCome,
}

-- The kinds of steps of each call. Those of a ProcessBatch are its own, and what its handlers, and
-- others while these run, may do.
abbrev enters_only : Kind → Bool
enters_only entering = true
enters_only _ = false

abbrev fails_only : Kind → Bool
fails_only failing = true
fails_only _ = false

abbrev requeues_only : Kind → Bool
requeues_only requeueing = true
requeues_only _ = false

abbrev buries_only : Kind → Bool
buries_only burying = true
buries_only _ = false

abbrev purges_only : Kind → Bool
purges_only purging = true
purges_only _ = false

abbrev recoveries : Kind → Bool
recoveries failing = true
recoveries delaying = true
recoveries _ = false

abbrev upkeep : Kind → Bool
upkeep burying = true
upkeep k = recoveries k

abbrev work : (Kind → Bool) → Kind → Bool
work others claiming = true
work others delaying = true
work others failing = true
work others finishing = true
work others k = others k

abbrev pub permits : (Kind → Bool) → Call → Kind → Bool
permits others (receives msg) = enters_only
permits others (enqueues tx msg) = enters_only
permits others (enqueues_batch tx msgs) = enters_only
permits others (processes size given opts admitted) = work others
permits others (dead_letters id reason) = fails_only
permits others (retries_failed o before limit) = requeues_only
permits others (retries_all_failed fuel o size) = requeues_only
permits others (retries_one id) = requeues_only
permits others (removes_dedup id) = λ k. false
permits others (purges_dedup fuel size) = λ k. false
permits others recovers_stuck = recoveries
permits others (archives_exhausted size) = buries_only
permits others (purges_archive fuel millis size) = purges_only
permits others (runs_all fuel) = upkeep
permits others (waits now local_now locked faults) = λ k. false

-- A call of an instance whose default number of retries is not negative, and whose handlers, where a
-- ProcessBatch runs them, leave valid tables and take the message only along what is permitted.
abbrev pub IsLawfulCall : (Kind → Bool) → Bytes → Messaging × Call → Type 0
IsLawfulCall others id (m, processes size given opts admitted) =
    HasDefault m
    × ((start : View)
        → AreTame (HasCome (work others) id start) m
          × TameGiven (HasCome (work others) id start) given)
IsLawfulCall others id (m, c) = HasDefault m

-- Each call takes the message along steps of the kinds that are permitted to it.
abbrev pub IsRefined : (Kind → Bool) → Bytes → World → List (Messaging × Call) → Type 0
IsRefined others id w [] = Unit {0}
IsRefined others id w ((m, c) ∷ rest) =
    (view id w.tables ⟶*⟨ permits others c ⟩ view id (step m c w).tables)
    × IsRefined others id (step m c w) rest

module _ (others : Kind → Bool) (id : Bytes) where
  at_start :
      (allowed : Kind → Bool) (w : World)
      → IsValid w.tables
      → HasCome allowed id (view id w.tables) w.tables
  at_start allowed w v = record { valid = v; way = stays }

  step-HasCome :
      (m : Messaging) (c : Call) (w : World)
      → IsLawfulCall others id (m, c)
      → IsValid w.tables
      → HasCome (permits others c) id (view id w.tables) (step m c w).tables
  unfolding step admin_dead_letter
  step-HasCome m (receives msg) w h v =
      (Calls.receive-Keeps (HasCome-TakesIn enters_only id _ refl) m msg h).at w (at_start _ w v)
  step-HasCome m (enqueues tx msg) w h v =
      (Calls.enqueue-Keeps (HasCome-TakesIn enters_only id _ refl) m tx msg h).at w (at_start _ w v)
  step-HasCome m (enqueues_batch tx msgs) w h v =
      (Calls.enqueue_batch-Keeps (HasCome-TakesIn enters_only id _ refl) m tx msgs h).at w
        (at_start _ w v)
  step-HasCome m (processes size given opts admitted) w h v =
      let (tame, tame_given) = h.1 (view id w.tables) in
      (Calls.process_batch-Keeps (HasCome-Works (work others) id _ refl refl refl refl) m size given
          opts admitted tame tame_given).at
        w (at_start _ w v)
  step-HasCome m (dead_letters other reason) w h v =
      (Operations.dead_letter-Keeps (HasCome-GivesUp fails_only id _ refl) other reason).at w
        (at_start _ w v)
  step-HasCome m (retries_failed o before limit) w h v =
      (Upkeep.retry_failed-Keeps (HasCome-AsksAgain requeues_only id _ refl) o before limit).at w
        (at_start _ w v)
  step-HasCome m (retries_all_failed fuel o size) w h v =
      (Upkeep.retry_all_failed-Keeps (HasCome-AsksAgain requeues_only id _ refl) fuel o size).at w
        (at_start _ w v)
  step-HasCome m (retries_one other) w h v =
      (Upkeep.retry_one-Keeps (HasCome-AsksAgain requeues_only id _ refl) other).at w
        (at_start _ w v)
  step-HasCome m (removes_dedup other) w h v =
      (Upkeep.remove_dedup-Keeps (HasCome-Forgets (λ k. false) id _) other).at w (at_start _ w v)
  step-HasCome m (purges_dedup fuel size) w h v =
      (Upkeep.purge_expired_dedup-Keeps (HasCome-Forgets (λ k. false) id _) m.store fuel size).at w
        (at_start _ w v)
  step-HasCome m recovers_stuck w h v =
      (Upkeep.recover_stuck-Keeps (HasCome-Recovers recoveries id _ refl refl) m.store).at w
        (at_start _ w v)
  step-HasCome m (archives_exhausted size) w h v =
      ((HasCome-Buries buries_only id _ refl).exhausts m.store size).at w (at_start _ w v)
  step-HasCome m (purges_archive fuel millis size) w h v =
      (purge_old_archive-HasCome purges_only id _ refl m.store fuel millis size).at w
        (at_start _ w v)
  step-HasCome m (runs_all fuel) w h v =
      (Upkeep.run_all-Keeps (HasCome-Forgets upkeep id _) (HasCome-Recovers upkeep id _ refl refl)
          (HasCome-Buries upkeep id _ refl) fuel m.store).at
        w (at_start _ w v)
  step-HasCome m (waits now local_now locked faults) w h v = at_start _ w v

-- Each call of any history, by any instances and whatever fails, takes each message only along the steps
-- that the call stands for: Receive, Enqueue and EnqueueBatch let it enter as PENDING; ProcessBatch
-- claims it from PENDING or RETRY, puts it off or finishes it only from PROCESSING, and may give it up
-- as FAILED; DeadLetter gives it up; RetryFailed, RetryAllFailed and RetryOne ask for it again only from
-- FAILED; RecoverStuck puts off or gives up; ArchiveExhausted buries it only from FAILED; RunAll does
-- what these two do; PurgeOldArchive only forgets outcomes; the others do nothing to it. Who leaves the
-- hot table has the outcome appended to its history in the archive. It is asked that the tables are
-- valid at the start, that each call's instance has a default number of retries that is not negative,
-- and that the handlers of a ProcessBatch, and others while these run, leave valid tables and take the
-- message only along steps of ProcessBatch or of the kinds `others`.
pub run-refines :
    (others : Kind → Bool) (id : Bytes) (calls : List (Messaging × Call)) (w : World)
    → All (IsLawfulCall others id) calls
    → IsValid w.tables
    → IsRefined others id w calls × IsValid (run w calls).tables
unfolding run
run-refines others id [] w lawful valid = (tt, valid)
run-refines others id ((m, c) ∷ rest) w lawful valid =
    let come = step-HasCome others id m c w lawful.0 valid in
    let (refined, after) = run-refines others id rest (step m c w) lawful.1 come.valid in
    ((come.way, refined), after)
