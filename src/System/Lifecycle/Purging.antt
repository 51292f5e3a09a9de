-- ===== src/System/Lifecycle/Purging.antt =====
-- The life of a message while its outcomes are purged from the archive.
use mathlib.Core.List.{append_assoc}
use go_messaging.Prelude.{
  ℕ, zero, suc, ◌≡◌, refl, Bool, true, false, Option, List, [], ◌∷◌, ◌++◌, Bytes, Bool-cases, inl,
  inr,
}
use go_messaging.Message.{Status, FinalStatus}
use go_messaging.Database.{ArchiveRow}
use go_messaging.Store.Claims.Ownership.{is_copy}
use go_messaging.Cleanup.{delete_first}
use go_messaging.System.Lifecycle.{Kind, purging, View, fades, ◌⟶*⟨◌⟩◌, goes, outcomes}

-- A purge of the archive forgets outcomes one by one.
module _ (p : ArchiveRow → Bool) (n : ℕ) (r : ArchiveRow) (rs : List ArchiveRow) where
  delete_first-old : p r ≡ true → delete_first p (suc n) (r ∷ rs) ≡ delete_first p n rs
  unfolding delete_first
  delete_first-old e = rw (delete_first, e) refl

  delete_first-young : p r ≡ false → delete_first p (suc n) (r ∷ rs) ≡ r ∷ delete_first p (suc n) rs
  unfolding delete_first
  delete_first-young e = rw (delete_first, e) refl

module _ (id : Bytes) (r : ArchiveRow) (rs : List ArchiveRow) where
  outcomes-copy : is_copy id r ≡ true → outcomes id (r ∷ rs) ≡ r.final_status ∷ outcomes id rs
  unfolding outcomes
  outcomes-copy e = rw e refl

  outcomes-other : is_copy id r ≡ false → outcomes id (r ∷ rs) ≡ outcomes id rs
  unfolding outcomes
  outcomes-other e = rw e refl

module _ (allowed : Kind → Bool) (may : allowed purging ≡ true) (id : Bytes) (start : View)
    (live : Option Status) (p : ArchiveRow → Bool) where
  pub purged-way :
      (before : List FinalStatus) (n : ℕ) (rows : List ArchiveRow)
      → start ⟶*⟨ allowed ⟩ (live, before ++ outcomes id rows)
      → start ⟶*⟨ allowed ⟩ (live, before ++ outcomes id (delete_first p n rows))
  purged-way before zero rows way = unfold delete_first in way
  purged-way before (suc n) [] way = unfold delete_first in way
  purged-way before (suc n) (r ∷ rs) way = elim (Bool-cases (p r)) [
    | inl old ↦ elim (Bool-cases (is_copy id r)) [
      | inl copy ↦ rw (delete_first-old p n r rs old) (
          purged-way before n rs (
            goes (rw (← outcomes-copy id r rs copy) way) may
              (fades before r.final_status (outcomes id rs))))
      | inr other ↦
          rw (delete_first-old p n r rs old)
            (purged-way before n rs (rw (← outcomes-other id r rs other) way))
    ]
    | inr young ↦ elim (Bool-cases (is_copy id r)) [
      | inl copy ↦
          rw
            (delete_first-young p n r rs young, outcomes-copy id r (delete_first p (suc n) rs) copy)
            (rw
              (← append_assoc before (r.final_status ∷ [])
                (outcomes id (delete_first p (suc n) rs)))
              (purged-way (before ++ r.final_status ∷ []) (suc n) rs (
                rw
                  (
                    append_assoc before (r.final_status ∷ []) (outcomes id rs),
                    ← outcomes-copy id r rs copy,
                  )
                  way)))
      | inr other ↦
          rw
            (
              delete_first-young p n r rs young,
              outcomes-other id r (delete_first p (suc n) rs) other,
            )
            (purged-way before (suc n) rs (rw (← outcomes-other id r rs other) way))
    ]
  ]
