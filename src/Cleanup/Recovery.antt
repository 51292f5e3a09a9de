-- ===== src/Cleanup/Recovery.antt =====
-- cleanup.go, RecoverStuck, and the claim of store.go, as they act on one row: a message whose workers crash
-- again and again.
use mathlib.Core.Path.{subst}
use go_messaging.Prelude.{
  ℕ, suc, ◌+◌, ◌≤◌, ◌<◌, ◌≡◌, refl, arith, Bool, true, false, ◌||◌, ◌&&◌, some, none, Option, List,
  [], ◌∷◌, length, Bytes, ℤ, pos, leb, ltb_ℤ, if◌then◌else◌, Bool-cases, inl, inr,
}
use go_messaging.Message.{Time, Status, pending, processing, retry, failed}
use go_messaging.Database.{HotRow}
use go_messaging.Database.Rows.{at_value, is_null}
use go_messaging.Store.Claims.{
  is_pending, is_retry, is_failed, is_processing, claimable, set_claimed,
}
use go_messaging.Cleanup.{set_recovered, stuck_reason, is_stuck, is_count_full, older_than, max_int}

-- What a claim makes of the row, where the row is not locked and within its limit.
unfoldable claimed_row : Bytes → Time → HotRow → HotRow
unfolding claimable set_claimed
claimed_row worker now r = if claimable now r then set_claimed worker now r else r

-- What RecoverStuck makes of the row, none where the statement is refused.
unfoldable recovered_row : ℕ → Time → HotRow → Option HotRow
unfolding is_stuck is_count_full set_recovered
recovered_row timeout now r =
    if is_stuck timeout now r
    then (if is_count_full r then none else some (set_recovered now r))
    else some r

unfoldable and_then : {A B : Type 0} → Option A → (A → Option B) → Option B
and_then none f = none
and_then (some a) f = f a

-- A worker claims the row at the first time of each pair and is never heard of again; RecoverStuck runs at
-- the second.
unfoldable pub crash : Bytes → ℕ → List (Time × Time) → HotRow → Option HotRow
unfolding claimed_row recovered_row and_then
crash worker timeout [] r = some r
crash worker timeout ((t, t') ∷ rest) r =
    and_then (recovered_row timeout t' (claimed_row worker t r)) (crash worker timeout rest)

-- Each recovery runs after the timeout of its claim, and each claim not before the recovery before it.
unfoldable pub AreApart : ℕ → Time → List (Time × Time) → Type 0
AreApart timeout from [] = Unit {0}
AreApart timeout from ((t, t') ∷ rest) = (from ≤ t) × (t + timeout < t') × AreApart timeout t' rest

-- What the crashes make of a row, by its retries and by its retry count and the number of crashes together.
abbrev IsCrashed : Bool → ℕ → HotRow → Type 0
IsCrashed true total r' = (is_failed r'.status ≡ true) × (r'.last_error ≡ some stuck_reason)
IsCrashed false total r' = (is_retry r'.status ≡ true) × (r'.retry_count ≡ total)

abbrev pub EndsAs : ℤ → ℕ → Option HotRow → Type 0
EndsAs max total o = (r' : HotRow) × (o ≡ some r') × IsCrashed (ltb_ℤ max (pos total)) total r'

is_open : Time → Option ℕ → Bool
unfolding is_null at_value
is_open now at = is_null at || at_value (λ t. leb t now) at

open_later :
    (b : Bool) (at : Option ℕ) (from now : Time)
    → (b && is_open from at) ≡ true
    → from ≤ now
    → (b && is_open now at) ≡ true
unfolding is_open
open_later false at from now h le = cc
open_later true none from now h le = refl
open_later true (some x) from now h le = ground arith

-- A row that may be claimed may be claimed later.
claimable_later :
    (from now : Time) (r : HotRow) → claimable from r ≡ true → from ≤ now → claimable now r ≡ true
unfolding claimable is_open
claimable_later from now r =
    open_later (is_pending r.status || is_retry r.status) r.next_retry_at from now

failed_idle :
    (st : Status)
    → is_failed st ≡ true
    → ((is_pending st || is_retry st) ≡ false) × (is_processing st ≡ false)
unfolding is_failed is_pending is_retry is_processing
failed_idle pending h = cc
failed_idle processing h = cc
failed_idle retry h = cc
failed_idle failed h = (refl, refl)

module _ (worker : Bytes) (timeout : ℕ) where
  abbrev crashed : Time → Time → HotRow → HotRow
  crashed t t' r = set_recovered t' (set_claimed worker t r)

  -- One crash of a row that may be claimed.
  crash_once :
      (t t' : Time) (r : HotRow)
      → claimable t r ≡ true
      → t + timeout < t'
      → r.retry_count < max_int
      → recovered_row timeout t' (claimed_row worker t r) ≡ some (crashed t t' r)
  unfolding recovered_row claimed_row is_stuck is_processing is_count_full set_claimed older_than
      at_value
  crash_once t t' r free late room = rw free (ground arith)

  dead_once :
      (t t' : Time) (r : HotRow)
      → is_failed r.status ≡ true
      → recovered_row timeout t' (claimed_row worker t r) ≡ some r
  unfolding recovered_row claimed_row is_stuck claimable
  dead_once t t' r dead = let (idle, unowned) = failed_idle r.status dead in rw (idle, unowned) refl

  -- A row that is FAILED stays as it is.
  dead_stays :
      (times : List (Time × Time)) (r : HotRow)
      → is_failed r.status ≡ true
      → crash worker timeout times r ≡ some r
  unfolding crash and_then
  dead_stays [] r dead = refl
  dead_stays ((t, t') ∷ rest) r dead = rw (dead_once t t' r dead) (dead_stays rest r dead)

  crashed-dead :
      (t t' : Time) (r : HotRow)
      → ltb_ℤ r.max_retry (pos (r.retry_count + 1)) ≡ true
      → (is_failed (crashed t t' r).status ≡ true)
        × ((crashed t t' r).last_error ≡ some stuck_reason)
  unfolding set_recovered set_claimed is_failed
  crashed-dead t t' r out = rw out (refl, refl)

  crashed-live :
      (t t' : Time) (r : HotRow)
      → ltb_ℤ r.max_retry (pos (r.retry_count + 1)) ≡ false
      → (claimable t' (crashed t t' r) ≡ true)
        × (is_retry (crashed t t' r).status ≡ true)
        × ((crashed t t' r).retry_count ≡ r.retry_count + 1)
        × ((crashed t t' r).max_retry ≡ r.max_retry)
  unfolding set_recovered set_claimed is_retry claimable is_pending is_null at_value
  crashed-live t t' r more = rw more (ground arith, refl, refl, refl)

  same_max : (t t' : Time) (r : HotRow) → (crashed t t' r).max_retry ≡ r.max_retry
  unfolding set_recovered set_claimed
  same_max t t' r = ground arith

  crash_step :
      (t t' : Time) (rest : List (Time × Time)) (r : HotRow)
      → claimable t r ≡ true
      → t + timeout < t'
      → r.retry_count < max_int
      → crash worker timeout ((t, t') ∷ rest) r ≡ crash worker timeout rest (crashed t t' r)
  unfolding crash and_then
  crash_step t t' rest r free late room = rw (crash_once t t' r free late room) refl

  -- The first crash, where the row comes back, and what the others make of it then.
  crash_then :
      (t t' : Time) (rest : List (Time × Time)) (r : HotRow)
      → claimable t r ≡ true
      → t + timeout < t'
      → r.retry_count < max_int
      → (claimable t' (crashed t t' r) ≡ true
          → is_retry (crashed t t' r).status ≡ true
          → ltb_ℤ (crashed t t' r).max_retry (pos (crashed t t' r).retry_count) ≡ false
          → EndsAs
              (crashed t t' r).max_retry
              ((crashed t t' r).retry_count + length rest)
              (crash worker timeout rest (crashed t t' r)))
      → EndsAs r.max_retry
          (r.retry_count + suc (length rest))
          (crash worker timeout ((t, t') ∷ rest) r)
  crash_then t t' rest r free late room go =
      rw (crash_step t t' rest r free late room)
        (elim (Bool-cases (ltb_ℤ r.max_retry (pos (r.retry_count + 1)))) [
          | inl out ↦ ends_dead out (crashed-dead t t' r out)
          | inr more ↦ ends_live more (crashed-live t t' r more)
        ])
    where
      c : HotRow
      c = crashed t t' r

      over : (m : ℤ) (k n : ℕ) → ltb_ℤ m (pos (k + 1)) ≡ true → ltb_ℤ m (pos (k + suc n)) ≡ true
      over m k n h = ground arith

      ends_dead :
          ltb_ℤ r.max_retry (pos (r.retry_count + 1)) ≡ true
          → (is_failed c.status ≡ true) × (c.last_error ≡ some stuck_reason)
          → EndsAs r.max_retry (r.retry_count + suc (length rest)) (crash worker timeout rest c)
      ends_dead out dead =
          (c, dead_stays rest c dead.0, rw (over r.max_retry r.retry_count (length rest) out) dead)

      ends_live :
          ltb_ℤ r.max_retry (pos (r.retry_count + 1)) ≡ false
          → (claimable t' c ≡ true)
            × (is_retry c.status ≡ true)
            × (c.retry_count ≡ r.retry_count + 1)
            × (c.max_retry ≡ r.max_retry)
          → EndsAs r.max_retry (r.retry_count + suc (length rest)) (crash worker timeout rest c)
      ends_live more (again, waits, count, max) =
          subst (λ m. EndsAs m (r.retry_count + suc (length rest)) (crash worker timeout rest c))
            max
            (subst (λ n. EndsAs c.max_retry n (crash worker timeout rest c)) (omega (arith, count))
              (go again waits (rw (max, count) more)))

  goes_on :
      (times : List (Time × Time)) (from : Time) (r : HotRow)
      → claimable from r ≡ true
      → is_retry r.status ≡ true
      → ltb_ℤ r.max_retry (pos r.retry_count) ≡ false
      → ltb_ℤ r.max_retry (pos max_int) ≡ true
      → AreApart timeout from times
      → EndsAs r.max_retry (r.retry_count + length times) (crash worker timeout times r)
  unfolding crash AreApart
  goes_on [] from r free waits left small apart =
      let none_more : r.retry_count ≡ r.retry_count + 0 = omega arith in
      subst (λ n. EndsAs r.max_retry n (some r)) none_more (r, refl, rw left (waits, refl))
  goes_on ((t, t') ∷ rest) from r free waits left small (after, late, apart) =
      crash_then t t' rest r (claimable_later from t r free after) late
        (room r.max_retry r.retry_count left small)
        (λ again waits left.
          goes_on rest t' (crashed t t' r) again waits left (rw (same_max t t' r) small) apart)
    where
      room : (m : ℤ) (k : ℕ) → ltb_ℤ m (pos k) ≡ false → ltb_ℤ m (pos max_int) ≡ true → k < max_int
      room m k left small = ground arith

  -- A row that a claim may take, and whose workers crash after each of its claims, is FAILED with the reason of
  -- the recovery where its retry count and the number of crashes together exceed its retries; otherwise it is
  -- RETRY, with each crash counted. Each recovery runs later than the claim timeout after its claim, each claim
  -- not before the recovery before it, and the retry count and the retries are below the largest INT.
  pub crash-EndsAs :
      (t t' : Time) (rest : List (Time × Time)) (r : HotRow)
      → claimable t r ≡ true
      → r.retry_count < max_int
      → ltb_ℤ r.max_retry (pos max_int) ≡ true
      → AreApart timeout t ((t, t') ∷ rest)
      → EndsAs r.max_retry
          (r.retry_count + suc (length rest))
          (crash worker timeout ((t, t') ∷ rest) r)
  unfolding AreApart
  crash-EndsAs t t' rest r free room small (now, late, apart) =
      crash_then t t' rest r free late room (λ again waits left.
        goes_on rest t' (crashed t t' r) again waits left (rw (same_max t t' r) small) apart)
