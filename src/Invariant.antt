-- ===== src/Invariant.antt =====
-- The invariant of the three tables, and what each column update does to a row that meets it.
pub mod Statements
pub mod Interface
pub mod Operations
pub mod Valid
pub mod Calls
pub mod Upkeep
use go_messaging.Prelude.{
  ℕ, ◌+◌, ◌≤◌, ◌<◌, ◌≡◌, refl, ℤ, pos, pos_part, neg_part, leb_ℤ, ltb_ℤ, arith, Bool, true, false,
  Option, none, some, List, Bytes, All, Bool-cases, inl, inr, if◌then◌else◌,
}
use go_messaging.Message.{Status, pending, processing, retry, failed, Time}
use go_messaging.Database.{HotRow, DedupRow, ArchiveRow, Tables}
use go_messaging.Database.Rows.Laws.{IsKeyed}
use go_messaging.Store.Claims.{
  is_pending, is_processing, is_retry, is_failed, set_claimed, set_retry, set_failed,
  set_processed_at,
}
use go_messaging.Admin.{set_requeued}
use go_messaging.Cleanup.{set_recovered}

abbrev is_set {ℓ} : {A : Type ℓ} → Option A → Bool
is_set none = false
is_set (some a) = true

-- A row has an owner and a claim time exactly while it is PROCESSING, a FAILED row has the time at
-- which it failed, and no row has a
-- negative number of retries.
pub record IsValidRow (r : HotRow) : Type 0 where
  pub owner : is_set r.processing_by ≡ is_processing r.status
  pub claim : is_set r.processing_at ≡ is_processing r.status
  pub death : is_failed r.status ≡ true → is_set r.processed_at ≡ true
  pub budget : leb_ℤ (pos 0) r.max_retry ≡ true

abbrev pub hot_key : HotRow → Bytes
hot_key r = r.message_id

abbrev dedup_key : DedupRow → Bytes
dedup_key r = r.message_id

-- Archive identities are given in order.
abbrev IsNumbered : ℕ → List ArchiveRow → Type 0
IsNumbered next = All (λ r. r.id < next)

pub record IsValid (t : Tables) : Type 0 where
  pub rows : All IsValidRow t.hot
  pub keys : IsKeyed hot_key t.hot
  pub dedup_keys : IsKeyed dedup_key t.dedup
  pub numbered : IsNumbered t.next_id t.archive

set_claimed-IsValidRow :
    (worker : Bytes) (now : Time) (r : HotRow)
    → IsValidRow r
    → IsValidRow (set_claimed worker now r)
unfolding set_claimed is_processing is_failed
set_claimed-IsValidRow worker now r v = record {
  owner = refl;
  claim = refl;
  death = λ e. cc;
  budget = v.budget;
}

set_retry-IsValidRow :
    (n : ℕ) (t : Time) (e : Bytes) (r : HotRow) → IsValidRow r → IsValidRow (set_retry n t e r)
unfolding set_retry is_processing is_failed
set_retry-IsValidRow n t e r v = record {
  owner = refl;
  claim = refl;
  death = λ h. cc;
  budget = v.budget;
}

set_failed-IsValidRow :
    (now : Time) (e : Bytes) (r : HotRow) → IsValidRow r → IsValidRow (set_failed now e r)
unfolding set_failed is_processing is_failed
set_failed-IsValidRow now e r v = record {
  owner = refl;
  claim = refl;
  death = λ h. refl;
  budget = v.budget;
}

set_processed_at-IsValidRow :
    (t : Time) (r : HotRow) → IsValidRow r → IsValidRow (set_processed_at t r)
unfolding set_processed_at
set_processed_at-IsValidRow t r v = record {
  owner = v.owner;
  claim = v.claim;
  death = λ h. refl;
  budget = v.budget;
}

set_requeued-IsValidRow :
    (r : HotRow) → is_processing r.status ≡ false → IsValidRow r → IsValidRow (set_requeued r)
unfolding set_requeued is_processing is_failed
set_requeued-IsValidRow r idle v = record {
  owner = ground (arith, v.owner);
  claim = ground (arith, v.claim);
  death = λ h. cc;
  budget = v.budget;
}

set_recovered-IsValidRow :
    (now : Time) (r : HotRow) → IsValidRow r → IsValidRow (set_recovered now r)
unfolding set_recovered is_processing is_failed
set_recovered-IsValidRow now r v = ground arith
