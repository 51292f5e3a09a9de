-- ===== src/System/Lifecycle/Updates.antt =====
-- The status that each update of a row writes is one that the life of a message allows.
use go_messaging.Prelude.{
  ℕ, ◌+◌, ◌≡◌, refl, arith, Bool, true, not, ◌&&◌, ◌||◌, Bytes, ltb_ℤ, pos, Bool-cases, inl, inr,
}
use go_messaging.Message.{Status, pending, processing, retry, failed, Time}
use go_messaging.Database.{HotRow}
use go_messaging.Store.Claims.{
  owned_by, is_pending, is_processing, is_retry, is_failed, claimable, set_failed, set_retry,
  set_claimed,
}
use go_messaging.Admin.{set_requeued}
use go_messaging.Cleanup.{is_stuck, set_recovered}
use go_messaging.System.Lifecycle.{
  Kind, claiming, delaying, failing, requeueing, Moves, picks_up, picks_up_again, puts_off,
  gives_up, asks_again,
}

pub pending_status : (s : Status) → is_pending s ≡ true → s ≡ pending
unfolding is_pending
pending_status pending h = refl
pending_status processing h = cc
pending_status retry h = cc
pending_status failed h = cc

pub processing_status : (s : Status) → is_processing s ≡ true → s ≡ processing
unfolding is_processing
processing_status pending h = cc
processing_status processing h = refl
processing_status retry h = cc
processing_status failed h = cc

pub failed_status : (s : Status) → is_failed s ≡ true → s ≡ failed
unfolding is_failed
failed_status pending h = cc
failed_status processing h = cc
failed_status retry h = cc
failed_status failed h = refl

ready-Moves : (s : Status) → (is_pending s || is_retry s) ≡ true → Moves claiming s processing
unfolding is_pending is_retry
ready-Moves pending h = picks_up
ready-Moves processing h = absurd cc
ready-Moves retry h = picks_up_again
ready-Moves failed h = absurd cc

-- A status that an update writes, where it may be that of a row that passes its test.
unfoldable pub IsMove : (Kind → Bool) → (HotRow → Bool) → (HotRow → HotRow) → HotRow → Type 0
IsMove allowed p f r = p r ≡ true → (k : Kind) × (allowed k ≡ true) × Moves k r.status (f r).status

pub failed-IsMove :
    (allowed : Kind → Bool) (p : HotRow → Bool) (now : Time) (t : Bytes) (r : HotRow)
    → allowed failing ≡ true
    → IsMove allowed p (set_failed now t) r
unfolding IsMove set_failed
failed-IsMove allowed p now t r may hit = (failing, may, gives_up)

pub retry-IsMove :
    (allowed : Kind → Bool) (worker id : Bytes) (n : ℕ) (at : Time) (t : Bytes) (r : HotRow)
    → allowed delaying ≡ true
    → IsMove allowed (owned_by worker id) (set_retry n at t) r
unfolding IsMove set_retry owned_by
retry-IsMove allowed worker id n at t r may hit =
    let held : r.status ≡ processing = processing_status r.status (ground arith) in
    (delaying, may, rw held puts_off)

pub stuck-IsMove :
    (allowed : Kind → Bool) (timeout : ℕ) (now : Time) (r : HotRow)
    → allowed failing ≡ true
    → allowed delaying ≡ true
    → IsMove allowed (is_stuck timeout now) (set_recovered now) r
unfolding IsMove is_stuck set_recovered
stuck-IsMove allowed timeout now r may_fail may_delay hit =
    let held : r.status ≡ processing = processing_status r.status (ground arith) in
    elim (Bool-cases (ltb_ℤ r.max_retry (pos (r.retry_count + 1)))) [
      | inl over ↦ (failing, may_fail, rw over gives_up)
      | inr room ↦ (delaying, may_delay, rw (room, held) puts_off)
    ]

pub claimed-IsMove :
    (allowed : Kind → Bool) (p : HotRow → Bool) (worker : Bytes) (now : Time)
    (locked : Bytes → Bool) (r : HotRow)
    → allowed claiming ≡ true
    → (p r ≡ true → (claimable now r && not (locked r.message_id)) ≡ true)
    → IsMove allowed p (set_claimed worker now) r
unfolding IsMove claimable set_claimed
claimed-IsMove allowed p worker now locked r may ready hit =
    (claiming, may, ready-Moves r.status (ground (arith, ready hit)))

pub requeued-IsMove :
    (allowed : Kind → Bool) (p : HotRow → Bool) (r : HotRow)
    → allowed requeueing ≡ true
    → (p r ≡ true → is_failed r.status ≡ true)
    → IsMove allowed p set_requeued r
unfolding IsMove set_requeued
requeued-IsMove allowed p r may dead hit =
    let was : r.status ≡ failed = failed_status r.status (dead hit) in
    (requeueing, may, rw was asks_again)
