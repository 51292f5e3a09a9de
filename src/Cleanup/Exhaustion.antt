-- ===== src/Cleanup/Exhaustion.antt =====
-- cleanup.go, ArchiveExhausted: which rows its transaction moves.
use go_messaging.Prelude.{
  ℕ, ◌≡◌, refl, sym, arith, Bool, true, not, ◌&&◌, some, List, [], ◌∷◌, Bytes, ◌⊎◌, inl, inr, All,
  All-map, ℤ, length,
}
use mathlib.Core.Path.{subst}
use go_messaging.Message.{final_failed, Time}
use go_messaging.Database.{HotRow, Tables, World, execute, commits}
use go_messaging.Database.Hoare.{
  Triple, EndsIn, Triple-pure, Triple-wrapping, Triple-bind, Triple-execute, Triple-in_tx,
  Keeps-Triple_in_tx,
}
use go_messaging.Database.Rows.{member}
use go_messaging.Database.Rows.Laws.{IsKeyed, member-picked}
use go_messaging.Store.{Store}
use go_messaging.Store.Claims.{is_failed}
use go_messaging.Store.Claims.Moving.{IsMoved, move-IsMoved}
use go_messaging.Admin.{processed_before}
use go_messaging.Cleanup.{is_exhausted, exhausted_ids, move_exhausted, archive_exhausted}
use go_messaging.Invariant.{hot_key}
use go_messaging.Invariant.Valid.{scan_ids-Keeps}

-- The ids are those of FAILED rows.
abbrev pub AreFailed : List Bytes → Tables → Type 0
AreFailed ids t = All (λ r. member r.message_id ids ≡ true → is_failed r.status ≡ true) t.hot

exhausted_failed :
    (retention : ℕ) (now : Time) (locked : Bytes → Bool) (r : HotRow)
    → (is_exhausted retention now r && not (locked r.message_id)) ≡ true
    → is_failed r.status ≡ true
unfolding is_exhausted
exhausted_failed retention now locked r h = ground arith

-- The rows that ArchiveExhausted picks are FAILED ones.
exhausted_ids-AreFailed :
    (retention : ℕ) (size : ℕ) (w : World)
    → IsKeyed hot_key w.hot
    → AreFailed (exhausted_ids retention w.now w.locked size w.hot) w.tables
unfolding exhausted_ids
exhausted_ids-AreFailed retention size w keys =
    All-map (λ r chosen m. exhausted_failed retention w.now w.locked r (chosen m)) w.hot
      (member-picked hot_key (λ r. is_exhausted retention w.now r && not (w.locked r.message_id))
        processed_before size w.hot keys)

-- Nothing has changed, or rows that were FAILED have been moved to the archive by their ids.
abbrev pub IsBuried : Tables → ℕ → Tables → Type 0
IsBuried t₀ n t =
    (t ≡ t₀)
    ⊎ ((ids : List Bytes) × AreFailed ids t₀
        × IsMoved final_failed (λ r. member r.message_id ids) t₀ t)

module _ (t₀ : Tables) where
  move-IsBuried :
      (ids : List Bytes)
      → Triple
          (λ t. (t ≡ t₀) × AreFailed ids t₀)
          (EndsIn t₀ (IsBuried t₀))
          (λ t. Unit {0})
          (move_exhausted ids)
  unfolding move_exhausted
  move-IsBuried [] = Triple-pure _ (λ t h. inl refl)
  move-IsBuried (id ∷ ids) = record {
    at = λ w h.
        (move-IsMoved final_failed (λ r. member r.message_id (id ∷ ids)) t₀
            {R = EndsIn t₀ (IsBuried t₀)} _ _ _
            (Triple-pure (commits (length (id ∷ ids))) (λ t moved. inr (id ∷ ids, h.1, moved)))).at
          w h.0;
  }

  select-AreFailed :
      (retention size : ℕ)
      → IsKeyed hot_key t₀.hot
      → Triple
          (λ t. t ≡ t₀)
          (λ ids t. (t ≡ t₀) × AreFailed ids t₀)
          (λ t. Unit {0})
          (execute (λ w. some (exhausted_ids retention w.now w.locked size w.hot, w.tables)))
  select-AreFailed retention size keys =
      Triple-execute _ (λ t e. tt)
        (λ w e. (
          e,
          subst (AreFailed (exhausted_ids retention w.now w.locked size w.hot)) e (
              exhausted_ids-AreFailed retention size w
                (subst (λ t. IsKeyed hot_key t.hot) (sym e) keys)),
        ))

  -- However its statements and its commit fail, `ArchiveExhausted` leaves the tables as they were or
  -- has moved FAILED rows, where message ids are unique.
  pub archive_exhausted-IsBuried :
      (s : Store) (size : ℤ)
      → IsKeyed hot_key t₀.hot
      → Triple (λ t. t ≡ t₀) (IsBuried t₀) (λ t. t ≡ t₀) (archive_exhausted s size)
  unfolding archive_exhausted
  archive_exhausted-IsBuried s size keys = Triple-in_tx t₀ _ _ _ (
      Triple-bind _ _ (Triple-wrapping _ _ (select-AreFailed _ _ keys)) (λ ids.
        Triple-bind _ _
          (Keeps-Triple_in_tx _ (scan_ids-Keeps (λ t. (t ≡ t₀) × AreFailed ids t₀) ids))
          (λ u. move-IsBuried ids)))
