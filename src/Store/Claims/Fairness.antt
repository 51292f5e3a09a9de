-- ===== src/Store/Claims/Fairness.antt =====
-- store.go, claimBatch: the oldest of the ready rows are claimed, and as many as the limit allows.
use Prim.Native.Nat.{min}
use go_messaging.Prelude.{
  ℕ, ◌≤◌, ◌≡◌, refl, ◌∙◌, Bool, true, false, not, ◌&&◌, List, Bytes, All, length,
}
use go_messaging.Message.{Time}
use go_messaging.Database.{HotRow}
use go_messaging.Database.Rows.{update_where, count_where, member}
use go_messaging.Database.Rows.Laws.{IsKeyed, length-select_where, count_where-update}
use go_messaging.Database.Rows.Picking.{picked-count, picked-least}
use go_messaging.Invariant.{hot_key}
use go_messaging.Store.Claims.{claimable, created_before, claim_ids, claim_rows, set_claimed}

-- A row that a claim may take.
abbrev pub is_ready : Time → (Bytes → Bool) → HotRow → Bool
is_ready now locked r = claimable now r && not (locked r.message_id)

-- A claim takes as many of the rows that are ready and not locked as there are, up to its limit; and
-- no row that it takes was created after one that is ready and not locked and that it leaves. It is
-- asked that message ids are unique in the hot table.
pub claim_rows-oldest :
    (worker : Bytes) (now : Time) (locked : Bytes → Bool) (size : ℕ) (rows : List HotRow)
    → IsKeyed hot_key rows
    → let ids = claim_ids now locked size rows in
      (length (claim_rows worker now ids rows).0
        ≡ min size (count_where (is_ready now locked) rows))
      × All
          (λ r.
            member r.message_id ids ≡ true
            → All
                (λ x.
                  is_ready now locked x ≡ true
                  → member x.message_id ids ≡ false
                  → r.created_at ≤ x.created_at)
                rows)
          rows
unfolding claim_rows claim_ids created_before set_claimed
claim_rows-oldest worker now locked size rows keys =
    let listed : HotRow → Bool = λ r. member r.message_id (claim_ids now locked size rows) in
    (
      length-select_where listed (update_where listed (set_claimed worker now) rows)
          ∙ count_where-update listed listed (set_claimed worker now) rows (λ r. refl)
          ∙ picked-count hot_key (λ r. r.created_at) (is_ready now locked) size rows keys,
      picked-least hot_key (λ r. r.created_at) (is_ready now locked) size rows keys,
    )
