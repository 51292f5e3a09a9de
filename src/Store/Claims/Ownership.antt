-- ===== src/Store/Claims/Ownership.antt =====
-- store.go, the three calls that end a claim: a worker that has lost its row changes nothing, and a
-- message that is done moves to the archive whole.
use go_messaging.Prelude.{
  ℕ, suc, ◌+◌, ◌≤◌, ◌≡◌, refl, ap, arith, Bool, true, false, List, [], ◌∷◌, ◌∙◌, Bytes, bytes_eq,
  some, if◌then◌else◌, ◌++◌, ltb, Bool-cases, inl, inr,
}
use go_messaging.Cipher.{Result, ok, err}
use go_messaging.Message.{Time, FinalStatus, final_processed}
use go_messaging.Database.{
  HotRow, ArchiveRow, Tables, World, ◌>>=◌, execute, wrapping, pure, rows_affected_or_zero,
}
use go_messaging.Database.Hoare.{
  Outcome, Triple, Triple-pure, Triple-wrapping, Triple-bind, Triple-execute,
  Triple-rows_affected_or_zero,
}
use go_messaging.Database.Rows.{select_where, update_where, delete_where, count_where}
use go_messaging.Database.Rows.Laws.{count_where-update, count_where-append, update_where-none}
use go_messaging.Store.{Store}
use go_messaging.Store.Claims.Moving.{IsMoved, IsFinished, marked, mark_done_and_archive-IsFinished}
use go_messaging.Store.Claims.{
  has_id, owned_by, update_hot, set_processed_at, archive_row, archive_rows, with_text,
  mark_done_and_archive, mark_retry, mark_failed,
}

unfoldable pub is_copy : Bytes → ArchiveRow → Bool
is_copy id r = bytes_eq r.message_id id

-- How many rows the hot table and the archive have of a message.
unfoldable pub copies : Bytes → Tables → ℕ
unfolding is_copy has_id
copies id t = count_where (has_id id) t.hot + count_where (is_copy id) t.archive

module _ (p : HotRow → Bool) where
  count_where-deleted : (rows : List HotRow) → count_where p (delete_where p rows) ≡ 0
  unfolding count_where delete_where
  count_where-deleted [] = refl
  count_where-deleted (r ∷ rs) = ground (arith, count_where-deleted rs)

module _ (id : Bytes) where
  count_where-archived :
      (final : FinalStatus) (now : Time) (next : ℕ) (rows : List HotRow)
      → count_where (is_copy id) (archive_rows final now next (select_where (has_id id) rows))
        ≡ count_where (has_id id) rows
  unfolding count_where select_where archive_rows archive_row is_copy has_id
  count_where-archived final now next [] = refl
  count_where-archived final now next (r ∷ rs) =
      ground (
        arith,
        count_where-archived final now next rs,
        count_where-archived final now (suc next) rs,
      )

-- The archive's row for a row of the hot table that is done: everything but the times is copied.
pub record IsRecorded (worker id : Bytes) (ts : Time) (r : HotRow) (a : ArchiveRow) : Type 0 where
  pub message : a.message_id ≡ r.message_id
  pub key : a.partition_key ≡ r.partition_key
  pub topic : a.topic ≡ r.topic
  pub payload : a.payload ≡ r.payload
  pub headers : a.headers ≡ r.headers
  pub source : a.source ≡ r.source
  pub encrypted : a.encrypted ≡ r.encrypted
  pub outcome : a.final_status ≡ final_processed
  pub retries : a.retry_count ≡ r.retry_count
  pub created : a.created_at ≡ r.created_at
  pub error : a.last_error ≡ r.last_error
  pub done : owned_by worker id r ≡ true → a.processed_at ≡ some ts

abbrev pub AreRecorded : Bytes → Bytes → Time → List HotRow → List ArchiveRow → Type 0
AreRecorded worker id ts [] [] = Unit {0}
AreRecorded worker id ts (r ∷ rs) (a ∷ rest) =
    IsRecorded worker id ts r a × AreRecorded worker id ts rs rest
AreRecorded worker id ts _ _ = ⊥

-- What `markDoneAndArchive` makes of the tables that it found.
abbrev pub IsDone : Bytes → Bytes → Time → Tables → Bool → Tables → Type 0
IsDone worker id ts t₀ true t =
    (1 ≤ count_where (owned_by worker id) t₀.hot)
    × (count_where (has_id id) t.hot ≡ 0)
    × (copies id t ≡ copies id t₀)
    × (t.hot ≡ delete_where (has_id id) t₀.hot)
    × (t.dedup ≡ t₀.dedup)
    × ((new : List ArchiveRow) × (t.archive ≡ t₀.archive ++ new)
        × AreRecorded worker id ts (select_where (has_id id) t₀.hot) new)
IsDone worker id ts t₀ false t = t ≡ t₀

owned-has_id : (worker id : Bytes) (r : HotRow) → owned_by worker id r ≡ true → has_id id r ≡ true
unfolding owned_by has_id
owned-has_id worker id r h = ground arith

module _ (worker id : Bytes) (ts : Time) where
  record-marked :
      (now : Time) (next : ℕ) (r : HotRow)
      → IsRecorded worker id ts r (
          archive_row final_processed now next
            (if owned_by worker id r then set_processed_at ts r else r))
  unfolding archive_row set_processed_at
  record-marked now next r = elim (Bool-cases (owned_by worker id r)) [
    | inl own ↦ rw own (record {
      message = refl;
      key = refl;
      topic = refl;
      payload = refl;
      headers = refl;
      source = refl;
      encrypted = refl;
      outcome = refl;
      retries = refl;
      created = refl;
      error = refl;
      done = λ e. refl;
    })
    | inr other ↦ rw other (record {
      message = refl;
      key = refl;
      topic = refl;
      payload = refl;
      headers = refl;
      source = refl;
      encrypted = refl;
      outcome = refl;
      retries = refl;
      created = refl;
      error = refl;
      done = λ e. cc;
    })
  ]

  marked-has_id :
      (r : HotRow)
      → has_id id (if owned_by worker id r then set_processed_at ts r else r) ≡ has_id id r
  unfolding has_id set_processed_at
  marked-has_id r = elim (Bool-cases (owned_by worker id r)) [
    | inl own ↦ rw own refl
    | inr other ↦ rw other refl
  ]

  marked-recorded :
      (now : Time) (next : ℕ) (rows : List HotRow)
      → AreRecorded worker id ts (select_where (has_id id) rows) (
          archive_rows final_processed now next (
            select_where
              (has_id id)
              (update_where (owned_by worker id) (set_processed_at ts) rows)))
  unfolding select_where update_where archive_rows
  marked-recorded now next [] = tt
  marked-recorded now next (r ∷ rs) = elim (Bool-cases (has_id id r)) [
    | inl hit ↦
        rw (marked-has_id r, hit) (record-marked now next r, marked-recorded now (suc next) rs)
    | inr miss ↦ rw (marked-has_id r, miss) (marked-recorded now next rs)
  ]

  delete_where-marked :
      (rows : List HotRow)
      → delete_where (has_id id) (update_where (owned_by worker id) (set_processed_at ts) rows)
        ≡ delete_where (has_id id) rows
  unfolding delete_where update_where
  delete_where-marked [] = refl
  delete_where-marked (r ∷ rs) = elim (Bool-cases (owned_by worker id r)) [
    | inl own ↦ rw (marked-has_id r, owned-has_id worker id r own) (delete_where-marked rs)
    | inr other ↦ rw (other, delete_where-marked rs) refl
  ]

-- Moved rows are counted once, before and after.
finished-IsDone :
    (worker id : Bytes) (ts : Time) (t₀ t : Tables)
    → 1 ≤ count_where (owned_by worker id) t₀.hot
    → IsMoved final_processed (has_id id) (marked worker id ts t₀) t
    → IsDone worker id ts t₀ true t
unfolding copies marked set_processed_at has_id
finished-IsDone worker id ts t₀ t owned moved =
    let rows = (marked worker id ts t₀).hot in
    let gone : count_where (has_id id) t.hot ≡ 0 =
      ap (count_where (has_id id)) moved.hot ∙ count_where-deleted (has_id id) rows in
    (
      owned,
      gone,
      omega (
        arith,
        gone,
        ap (count_where (is_copy id)) moved.archive,
        count_where-append (is_copy id) t₀.archive
            (archive_rows final_processed moved.at t₀.next_id (select_where (has_id id) rows)),
        count_where-archived id final_processed moved.at t₀.next_id rows,
        count_where-update (has_id id) (owned_by worker id) (set_processed_at ts) t₀.hot
            (λ r. refl),
      ),
      moved.hot ∙ delete_where-marked worker id ts t₀.hot,
      moved.dedup,
      (
        archive_rows final_processed moved.at t₀.next_id (select_where (has_id id) rows),
        moved.archive,
        marked-recorded worker id ts moved.at t₀.next_id t₀.hot,
      ),
    )

-- However its statements, its commit and its answers fail, `markDoneAndArchive` either returns true,
-- and then this worker owned the row, the rows of the message have left the hot table and no others, and
-- the archive has behind its rows one for each of them, PROCESSED at `ts` and with everything else as it
-- was, and no other row; or it returns false or an error and leaves all tables as they were.
pub mark_done_and_archive-IsDone :
    (s : Store) (id : Bytes) (ts : Time) (w : World)
    → Outcome
        (IsDone s.cfg.worker_id id ts w.tables)
        (λ t. t ≡ w.tables)
        (mark_done_and_archive s id ts w)
mark_done_and_archive-IsDone s id ts w =
    by_result (mark_done_and_archive s id ts w) (mark_done_and_archive-IsFinished s id ts w)
  where
    by_result :
        (x : Result Bool × World)
        → Outcome (IsFinished s.cfg.worker_id id ts w.tables) (λ t. t ≡ w.tables) x
        → Outcome (IsDone s.cfg.worker_id id ts w.tables) (λ t. t ≡ w.tables) x
    by_result (ok true, w') h = finished-IsDone s.cfg.worker_id id ts w.tables w'.tables h.0 h.1
    by_result (ok false, w') h = h
    by_result (err e, w') h = h

-- What a call leaves that finds no row of its worker.
abbrev pub IsLost : Tables → Bool → Tables → Type 0
IsLost t₀ b t = (b ≡ false) × (t ≡ t₀)

module _ (worker id : Bytes) (t₀ : Tables)
    (lost : count_where (owned_by worker id) t₀.hot ≡ 0) where
  abbrev Affects : ℕ → Tables → Type 0
  Affects n t = (n ≡ 0) × (t ≡ t₀)

  update-Affects :
      (f : HotRow → HotRow) (w : World)
      → w.tables ≡ t₀
      → Affects (update_hot (owned_by worker id) f w).0 (update_hot (owned_by worker id) f w).1
  unfolding update_hot
  update-Affects f w e = (
    ap (λ t. count_where (owned_by worker id) t.hot) e ∙ lost,
    ap (λ rows. record w.tables { hot = rows })
          (update_where-none (owned_by worker id) f w.hot
            (ap (λ t. count_where (owned_by worker id) t.hot) e ∙ lost))
        ∙ e,
  )

  text-Affects :
      (cut : Bytes) (f : World → HotRow → HotRow)
      → Triple
          (λ t. t ≡ t₀)
          Affects
          (λ t. t ≡ t₀)
          (execute (with_text cut (λ w. update_hot (owned_by worker id) (f w) w)))
  unfolding with_text
  text-Affects cut f =
      Triple-execute _ (λ t e. e)
        (λ w e. elim (Bool-cases (w.engine.accepts_text cut)) [
          | inl fits ↦ rw fits (update-Affects (f w) w e)
          | inr refused ↦ rw refused tt
        ])

  guarded-Triple :
      (cut : Bytes) (f : World → HotRow → HotRow) (context : Bytes)
      → Triple
          (λ t. t ≡ t₀)
          (IsLost t₀)
          (λ t. t ≡ t₀)
          (do
            affected ←
                wrapping context
                  (execute (with_text cut (λ w. update_hot (owned_by worker id) (f w) w)))
            n ← rows_affected_or_zero affected
            pure (ltb 0 n))
  guarded-Triple cut f context =
      Triple-bind _ _ (Triple-wrapping _ _ (text-Affects cut f)) (λ affected.
        Triple-bind _ _ (Triple-rows_affected_or_zero affected)
          (λ n. Triple-pure _ (λ t h. (ground (arith, h.0, h.1.0), h.1.1))))

-- A worker for which the hot table has no PROCESSING row of the message, because the row was
-- recovered or claimed by another, changes no table by `markDoneAndArchive`, `markRetry` or
-- `markFailed`, and none of them returns true, however the database answers.
pub stale_worker_changes_nothing :
    (s : Store) (id reason : Bytes) (retry_count : ℕ) (ts : Time) (w : World)
    → count_where (owned_by s.cfg.worker_id id) w.hot ≡ 0
    → Outcome (IsLost w.tables) (λ t. t ≡ w.tables) (mark_done_and_archive s id ts w)
      × Outcome (IsLost w.tables) (λ t. t ≡ w.tables) (mark_retry s id retry_count ts reason w)
      × Outcome (IsLost w.tables) (λ t. t ≡ w.tables) (mark_failed s id reason w)
unfolding mark_retry mark_failed
stale_worker_changes_nothing s id reason retry_count ts w lost = (
  by_done (mark_done_and_archive s id ts w) (mark_done_and_archive-IsDone s id ts w),
  (guarded-Triple s.cfg.worker_id id w.tables lost _ _ _).at w refl,
  (guarded-Triple s.cfg.worker_id id w.tables lost _ _ _).at w refl,
)
  where
    by_done :
        (x : Result Bool × World)
        → Outcome (IsDone s.cfg.worker_id id ts w.tables) (λ t. t ≡ w.tables) x
        → Outcome (IsLost w.tables) (λ t. t ≡ w.tables) x
    by_done (ok true, w') h = absurd (omega (arith, h.0, lost))
    by_done (ok false, w') h = (refl, h)
    by_done (err e, w') h = h
