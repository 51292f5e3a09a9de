-- ===== src/System/Tests/Batch.antt =====
-- ProcessBatch over two messages, one of which is due.
use go_messaging.Prelude.{pos, refl, true, none, some, [], ◌∷◌, codes, bytes_eq}
use go_messaging.Database.{World}
use go_messaging.Database.Total.{Ran}
use go_messaging.Database.Rows.{
  count_where, select_where, update_where, member, order_by, insert_by,
}
use go_messaging.Store.Scan.{hydrate, message_of}
use go_messaging.Store.Claims.{
  is_processing, is_failed, claimable, created_before, claim_ids, claim_rows, set_claimed,
}
use go_messaging.Config.{apply_call_options}
use go_messaging.Messaging.{Handler}
use go_messaging.Messaging.Process.{process_batch, route}
use go_messaging.Invariant.{IsValid, IsValidRow}
use go_messaging.System.Completion.Claiming.{claimed}
use go_messaging.System.Completion.Batch.{process_batch-IsProcessed, IsProcessed}
use go_messaging.System.Fixtures.{instance_one, world_of, tables_with, pending_row, other_row}

-- It succeeds and does nothing else.
abbrev quiet : Handler
quiet t msg w = (none, w)

abbrev before_batch : World
before_batch = world_of (tables_with (pending_row ∷ other_row ∷ []))

pending-IsValidRow : IsValidRow pending_row
unfolding is_processing is_failed
pending-IsValidRow = record { owner = refl; claim = refl; death = λ e. cc; budget = refl }

other-IsValidRow : IsValidRow other_row
unfolding is_processing is_failed
other-IsValidRow = record { owner = refl; claim = refl; death = λ e. cc; budget = refl }

before_batch-IsValid : IsValid before_batch.tables
unfolding count_where bytes_eq
before_batch-IsValid = record {
  rows = (pending-IsValidRow, (other-IsValidRow, tt));
  keys = (refl, (refl, tt));
  dedup_keys = tt;
  numbered = tt;
}

process_batch-IsProcessed_example :
    Ran
      (IsProcessed (claimed (codes "w1") 10 before_batch) before_batch.tables)
      (process_batch instance_one (pos 10) (some quiet) [] (λ id. true) before_batch)
unfolding hydrate message_of route claimable created_before claim_ids claim_rows select_where
    update_where member order_by insert_by bytes_eq set_claimed
process_batch-IsProcessed_example =
    process_batch-IsProcessed instance_one 10 (some quiet) [] (λ id. true) before_batch refl
      before_batch-IsValid
      (λ topic. (
        record { handler = quiet; opts = apply_call_options [] },
        refl,
        record { at = λ t msg w. (refl, refl, refl) },
      ))
      (λ id. refl)
      (
        (message_of (set_claimed (codes "w1") 100 pending_row), refl),
        ((message_of (set_claimed (codes "w1") 100 other_row), refl), tt),
      )
