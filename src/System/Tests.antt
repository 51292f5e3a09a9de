-- ===== src/System/Tests.antt =====
-- A message that is received, claimed, lost by its worker and recovered: the theorems of the system
-- at concrete calls.
mod Batch
mod Slots
use go_messaging.Prelude.{
  ◌++◌, Bool, ◌≡◌, ◌≤◌, refl, arith, pos, true, false, none, some, List, [], ◌∷◌, All, bytes_eq,
  codes, length,
}
use go_messaging.Message.{Message, err_no_cipher, wrapped}
use go_messaging.Config.{apply_call_options}
use go_messaging.Database.{
  HotRow, Tables, World, ◌>>=◌, pure, execute, rows_affected, db_call, in_tx, commits,
}
use go_messaging.Database.Hoare.{Outcome}
use go_messaging.Database.Rows.{count_where}
use go_messaging.Store.{insert_dedup, insert_hot, prepare_fields}
use go_messaging.Store.Claims.{
  mark_done_and_archive, mark_retry, mark_failed, claim_ids, claim_rows, has_id, owned_by,
  is_failed, is_pending, is_retry,
}
use go_messaging.Store.Claims.Ownership.{
  IsLost, stale_worker_changes_nothing, IsDone, mark_done_and_archive-IsDone, copies,
}
use go_messaging.Store.Claims.Exclusion.{claim_rows-exclusive, claim_rows-bounded}
use go_messaging.Store.Scan.{hydrate}
use go_messaging.Messaging.{Messaging, Handler, receive, receive_new, receive_stored}
use go_messaging.Messaging.Deduplication.{
  IsReceived, IsRefused, receive-IsReceived, receive_again, in_tx-receive,
}
use go_messaging.Messaging.Process.{handle_one, dispatch}
use go_messaging.Messaging.Process.Outcomes.{IsGivenUp, unhandled-IsGivenUp}
use go_messaging.Admin.{FilterOptions, has_dedup, retry_all_failed}
use go_messaging.Admin.Drain.{
  IsDrained, failed_rows, retry_all_failed-IsDrained, purge_expired_dedup-IsDrained,
}
use go_messaging.Cleanup.{purge_expired_dedup, stuck_reason}
use go_messaging.Cleanup.Recovery.{crash, AreApart, EndsAs, crash-EndsAs}
use go_messaging.Backoff.{to_error_message}
use go_messaging.Invariant.{IsValid}
use go_messaging.System.{
  Call, receives, processes, recovers_stuck, archives_exhausted, waits, runs_all, run, no_rows,
}
use go_messaging.System.Fixtures.{
  store, instance_one, order, world_of, empty_world, stuck_row, pending_row, other_row, failed_row,
  tables_with,
}
use go_messaging.System.Safety.{run-IsValid}
use go_messaging.System.Retention.{run-copies}
use go_messaging.System.Lifecycle.{Kind, failing}
use go_messaging.System.Lifecycle.Refinement.{IsRefined, run-refines}
use go_messaging.Store.Claims.Fairness.{is_ready, claim_rows-oldest}
use go_messaging.Store.Claims.{claimable}
use go_messaging.Database.Rows.{member}

-- It panics, as far as the database can tell: nothing is written.
abbrev handler : Handler
handler t msg w = (some (codes "boom"), w)

abbrev calls : List (Messaging × Call)
calls =
    (instance_one, receives order)
    ∷ (instance_one, processes (pos 10) (some handler) [] (λ id. true))
    ∷ (
      instance_one,
      waits 2_000_000_000 2_000_000_000 (λ id. false) (none ∷ some (codes "gone") ∷ []),
    )
    ∷ (instance_one, recovers_stuck)
    ∷ (instance_one, archives_exhausted (pos 0))
    ∷ (instance_one, runs_all 3)
    ∷ []

no_rows-IsValid : IsValid no_rows
no_rows-IsValid = record { rows = tt; keys = tt; dedup_keys = tt; numbered = tt }

run-IsValid_example : IsValid (run empty_world calls).tables
run-IsValid_example =
    run-IsValid calls empty_world
      (refl, ((refl, (tt, λ r e. cc), λ t msg w v. v), (refl, (refl, (refl, (refl, tt))))))
      no_rows-IsValid

run-copies_example :
    1 ≤ copies (codes "m1") (run (world_of (tables_with (stuck_row ∷ []))) calls).tables
unfolding copies count_where bytes_eq
run-copies_example =
    run-copies (codes "m1") 1 calls (world_of (tables_with (stuck_row ∷ [])))
      (refl, ((refl, (tt, λ r e. cc), λ t msg w v. v), (refl, (refl, (refl, (refl, tt))))))
      (omega arith)

stale_worker_changes_nothing_example :
    Outcome
      (IsLost (tables_with (stuck_row ∷ [])))
      (λ t. t ≡ tables_with (stuck_row ∷ []))
      (mark_done_and_archive store (codes "m1") 7 (world_of (tables_with (stuck_row ∷ []))))
    × Outcome
        (IsLost (tables_with (stuck_row ∷ [])))
        (λ t. t ≡ tables_with (stuck_row ∷ []))
        (mark_retry store (codes "m1") 1 7 (codes "boom") (world_of (tables_with (stuck_row ∷ []))))
    × Outcome
        (IsLost (tables_with (stuck_row ∷ [])))
        (λ t. t ≡ tables_with (stuck_row ∷ []))
        (mark_failed store (codes "m1") (codes "boom") (world_of (tables_with (stuck_row ∷ []))))
unfolding owned_by count_where bytes_eq
stale_worker_changes_nothing_example =
    stale_worker_changes_nothing store (codes "m1") (codes "boom") 1 7
      (world_of (tables_with (stuck_row ∷ []))) refl

abbrev owned : Tables
owned = tables_with (record stuck_row { processing_by = some (codes "w1") } ∷ [])

mark_done_and_archive-IsDone_example :
    Outcome
      (IsDone (codes "w1") (codes "m1") 7 owned)
      (λ t. t ≡ owned)
      (mark_done_and_archive store (codes "m1") 7 (world_of owned))
mark_done_and_archive-IsDone_example =
    mark_done_and_archive-IsDone store (codes "m1") 7 (world_of owned)

receive-IsReceived_example :
    Outcome
      (IsReceived (codes "m1") no_rows)
      (IsRefused (codes "m1") no_rows)
      (receive instance_one order empty_world)
receive-IsReceived_example = receive-IsReceived instance_one order empty_world

abbrev received : World
received = (receive instance_one order empty_world).1

-- Later, when the row of the hot table has gone.
abbrev handled : World
handled = record received {
  tables = record received.tables { hot = [] };
  now = 900;
  local_now = 900;
}

receive_again_example :
    Outcome
      (λ b t. (b ≡ false) × (t ≡ handled.tables))
      (λ t. t ≡ handled.tables)
      (receive instance_one order handled)
unfolding receive ◌>>=◌ insert_dedup insert_hot prepare_fields execute rows_affected db_call
    count_where receive_new receive_stored has_dedup bytes_eq
receive_again_example =
    receive_again instance_one instance_one order order empty_world handled refl refl (omega arith)

in_tx-receive_example :
    Outcome
      (IsReceived (codes "m1") no_rows)
      (λ t. t ≡ no_rows)
      (in_tx (codes "begin") none (do r ← receive instance_one order; pure (commits r)) empty_world)
in_tx-receive_example = in_tx-receive instance_one order (codes "begin") none empty_world

abbrev two_rows : List HotRow
two_rows = pending_row ∷ other_row ∷ []

abbrev first_claim : List HotRow × List HotRow
first_claim = claim_rows (codes "w1") 10 (claim_ids 10 (λ id. false) 1 two_rows) two_rows

abbrev second_claim : List HotRow × List HotRow
second_claim = claim_rows (codes "w2") 11 (claim_ids 11 (λ id. false) 5 first_claim.1) first_claim.1

claim_rows-exclusive_example :
    All (λ r. count_where (has_id r.message_id) second_claim.0 ≡ 0) first_claim.0
unfolding count_where bytes_eq
claim_rows-exclusive_example =
    claim_rows-exclusive (codes "w1") (codes "w2") 10 11 (λ id. false) (λ id. false) 1 5 two_rows
      (refl, (refl, tt))

claim_rows-bounded_example :
    (length first_claim.0 ≤ 1)
    × All (λ r. owned_by (codes "w1") r.message_id r ≡ true) first_claim.0
unfolding count_where bytes_eq
claim_rows-bounded_example =
    claim_rows-bounded (codes "w1") 10 (λ id. false) 1 two_rows (refl, (refl, tt))

abbrev dead_queue : Tables
dead_queue = tables_with (failed_row ∷ other_row ∷ [])

abbrev every_row : FilterOptions
every_row = record { topic = []; partition_key = [] }

retry_all_failed-IsDrained_example :
    Outcome
      (IsDrained failed_rows (failed_rows dead_queue))
      (λ t. ⊥)
      (retry_all_failed 2 every_row (pos 1) (world_of dead_queue))
unfolding count_where bytes_eq failed_rows is_failed
retry_all_failed-IsDrained_example =
    retry_all_failed-IsDrained every_row (pos 1) 2 (world_of dead_queue) (refl, (refl, tt))
      (omega arith)

purge_expired_dedup-IsDrained_example :
    Outcome
      (IsDrained (λ t. length t.dedup) 0)
      (λ t. ⊥)
      (purge_expired_dedup store 1 (pos 0) empty_world)
purge_expired_dedup-IsDrained_example =
    purge_expired_dedup-IsDrained store (pos 0) 1 empty_world (omega arith)

crash-EndsAs_example :
    EndsAs (pos 1) 2 (crash (codes "w1") 10 ((20, 40) ∷ (50, 70) ∷ []) pending_row)
unfolding AreApart claimable
crash-EndsAs_example =
    crash-EndsAs (codes "w1") 10 20 40 ((50, 70) ∷ []) pending_row refl (omega arith) refl
      (omega arith, omega arith, (omega arith, omega arith, tt))

abbrev sealed : Message
sealed = record order { encrypted = true }

abbrev one_message : World
one_message = world_of (record no_rows { hot = pending_row ∷ [] })

unhandled-IsGivenUp_example :
    Outcome
      (IsGivenUp
        (codes "m1")
        (codes "message decrypt failed: "
          ++ to_error_message (wrapped (codes "message: decrypt m1") err_no_cipher))
        one_message)
      (λ t. ⊥)
      (handle_one instance_one sealed handler (apply_call_options []) one_message)
    × (handle_one instance_one sealed handler (apply_call_options [])
        ≡ handle_one instance_one sealed (λ t msg w. (none, w)) (apply_call_options []))
    × Outcome
        (IsGivenUp (codes "m1") (codes "no handler for topic: " ++ codes "orders") one_message)
        (λ t. ⊥)
        (dispatch instance_one (λ id. true) sealed none one_message)
unfolding hydrate
unhandled-IsGivenUp_example =
    unhandled-IsGivenUp instance_one (λ id. true) sealed sealed
      (wrapped (codes "message: decrypt m1") err_no_cipher) handler (λ t msg w. (none, w))
      (apply_call_options []) one_message refl refl

claim_rows-oldest_example :
    (length first_claim.0 ≡ 1)
    × All
        (λ r.
          member r.message_id (claim_ids 10 (λ id. false) 1 two_rows) ≡ true
          → All
              (λ x.
                is_ready 10 (λ id. false) x ≡ true
                → member x.message_id (claim_ids 10 (λ id. false) 1 two_rows) ≡ false
                → r.created_at ≤ x.created_at)
              two_rows)
        two_rows
unfolding count_where bytes_eq claimable
claim_rows-oldest_example =
    claim_rows-oldest (codes "w1") 10 (λ id. false) 1 two_rows (refl, (refl, tt))

-- While its handler runs, the message is only dead-lettered.
abbrev dead_lettered : Kind → Bool
dead_lettered failing = true
dead_lettered _ = false

run-refines_example :
    IsRefined dead_lettered (codes "m1") empty_world calls × IsValid (run empty_world calls).tables
run-refines_example =
    run-refines dead_lettered (codes "m1") calls empty_world
      (
        refl,
        ((refl, λ start. ((tt, λ r e. cc), λ t msg w v. v)), (refl, (refl, (refl, (refl, tt))))),
      )
      no_rows-IsValid
