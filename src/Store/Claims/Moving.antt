-- ===== src/Store/Claims/Moving.antt =====
-- store.go and cleanup.go: exactly what the two statements that move rows to the archive, and the
-- transactions around them, make of the tables.
use go_messaging.Prelude.{
  ℕ, ◌≤◌, ◌≡◌, refl, ap, arith, Bool, true, false, some, ◌++◌, Bytes, codes, leb, if◌then◌else◌,
}
use go_messaging.Message.{Time, FinalStatus, final_processed}
use go_messaging.Database.{
  HotRow, Tables, World, Act, ◌>>◌, execute, wrapping, pure, commits, rolls_back,
}
use go_messaging.Database.Hoare.{
  Outcome, Triple, EndsIn, Triple-pure, Triple-wrapping, Triple-given, Triple-if, Triple-bind,
  Triple-execute, Triple-rows_affected_or_zero, Triple-in_tx,
}
use go_messaging.Database.Rows.{select_where, update_where, delete_where, count_where}
use go_messaging.Store.{Store}
use go_messaging.Store.Claims.{
  has_id, owned_by, update_hot, set_processed_at, archive_rows, copy_to_archive, delete_hot,
  mark_done_and_archive,
}

-- The rows that pass `p` have been moved to the archive, out of `t₁`.
pub record IsMoved (final : FinalStatus) (p : HotRow → Bool) (t₁ t : Tables) : Type 0 where
  pub at : Time
  pub hot : t.hot ≡ delete_where p t₁.hot
  pub dedup : t.dedup ≡ t₁.dedup
  pub archive : t.archive ≡ t₁.archive ++ archive_rows final at t₁.next_id (select_where p t₁.hot)

module _ (final : FinalStatus) (p : HotRow → Bool) (t₁ : Tables) where
  record IsCopied (t : Tables) : Type 0 where
    pub at : Time
    pub hot : t.hot ≡ t₁.hot
    pub dedup : t.dedup ≡ t₁.dedup
    pub archive : t.archive ≡ t₁.archive ++ archive_rows final at t₁.next_id (select_where p t₁.hot)

  copied : Triple (λ t. t ≡ t₁) (λ u. IsCopied) (λ t. Unit {0}) (execute (copy_to_archive final p))
  unfolding copy_to_archive
  copied =
      Triple-execute _ (λ t e. tt)
        (λ w e. record {
          at = w.now;
          hot = ap (λ t. t.hot) e;
          dedup = ap (λ t. t.dedup) e;
          archive =
              ap (λ t. t.archive ++ archive_rows final w.now t.next_id (select_where p t.hot)) e;
        })

  moved : Triple IsCopied (λ u. IsMoved final p t₁) (λ t. Unit {0}) (execute (delete_hot p))
  unfolding delete_hot
  moved =
      Triple-execute _ (λ t e. tt)
        (λ w h. record {
          at = h.at;
          hot = ap (delete_where p) h.hot;
          dedup = h.dedup;
          archive = h.archive;
        })

  -- The two statements in their order.
  pub move-IsMoved :
      {A : Type 0} {R : A → Tables → Type 0} (c d : Bytes) (end : Act A)
      → Triple (IsMoved final p t₁) R (λ t. Unit {0}) end
      → Triple
          (λ t. t ≡ t₁)
          R
          (λ t. Unit {0})
          (wrapping c (execute (copy_to_archive final p))
            >> (wrapping d (execute (delete_hot p)) >> end))
  move-IsMoved c d end k =
      Triple-bind _ _ (Triple-wrapping _ _ copied)
        (λ u. Triple-bind _ _ (Triple-wrapping _ _ moved) (λ v. k))

-- The tables once the worker has marked its row of the message as done.
unfoldable pub marked : Bytes → Bytes → Time → Tables → Tables
marked worker id ts t = record t {
  hot = update_where (owned_by worker id) (set_processed_at ts) t.hot;
}

-- What `markDoneAndArchive` makes of the tables that it found.
abbrev pub IsFinished : Bytes → Bytes → Time → Tables → Bool → Tables → Type 0
IsFinished worker id ts t₀ true t =
    (1 ≤ count_where (owned_by worker id) t₀.hot)
    × IsMoved final_processed (has_id id) (marked worker id ts t₀) t
IsFinished worker id ts t₀ false t = t ≡ t₀

module _ (worker id : Bytes) (ts : Time) (t₀ : Tables) where
  abbrev IsMarked : ℕ → Tables → Type 0
  IsMarked n t = (n ≡ count_where (owned_by worker id) t₀.hot) × (t ≡ marked worker id ts t₀)

  mark-IsMarked :
      Triple
        (λ t. t ≡ t₀)
        IsMarked
        (λ t. Unit {0})
        (execute (λ w. some (update_hot (owned_by worker id) (set_processed_at ts) w)))
  unfolding update_hot marked
  mark-IsMarked =
      Triple-execute _ (λ t e. tt)
        (λ w e. (ap (λ t. count_where (owned_by worker id) t.hot) e, ap (marked worker id ts) e))

  owned-IsFinished :
      Triple
        (λ t. (1 ≤ count_where (owned_by worker id) t₀.hot) × (t ≡ marked worker id ts t₀))
        (EndsIn t₀ (IsFinished worker id ts t₀))
        (λ t. Unit {0})
        (do
          wrapping
              (codes "message: archive insert")
              (execute (copy_to_archive final_processed (has_id id)))
          wrapping (codes "message: archive delete") (execute (delete_hot (has_id id)))
          pure (commits true))
  owned-IsFinished = record {
    at = λ w h.
        (move-IsMoved final_processed (has_id id) (marked worker id ts t₀)
            {R = EndsIn t₀ (IsFinished worker id ts t₀)} _ _ _
            (Triple-pure (commits true) (λ t moved. (h.0, moved)))).at
          w h.1;
  }

  counted :
      (n k : ℕ) (t : Tables)
      → leb k 0 ≡ false
      → (k ≤ n) × IsMarked n t
      → (1 ≤ count_where (owned_by worker id) t₀.hot) × (t ≡ marked worker id ts t₀)
  counted n k t some_rows h = (ground (arith, h.0, h.1.0), h.1.1)

  rest-IsFinished :
      (n k : ℕ)
      → Triple
          (λ t. (k ≤ n) × IsMarked n t)
          (EndsIn t₀ (IsFinished worker id ts t₀))
          (λ t. Unit {0})
          (if leb k 0 then pure (rolls_back false) else (do
            wrapping
                (codes "message: archive insert")
                (execute (copy_to_archive final_processed (has_id id)))
            wrapping (codes "message: archive delete") (execute (delete_hot (has_id id)))
            pure (commits true)))
  rest-IsFinished n k =
      Triple-if _ _ _ (λ none_owned. Triple-pure _ (λ t h. refl))
        (λ some_rows. Triple-given _ owned-IsFinished (λ t h. counted n k t some_rows h))

  finish-Triple :
      (s : Store)
      → s.cfg.worker_id ≡ worker
      → Triple
          (λ t. t ≡ t₀)
          (IsFinished worker id ts t₀)
          (λ t. t ≡ t₀)
          (mark_done_and_archive s id ts)
  unfolding mark_done_and_archive
  finish-Triple s same = rw same (
      Triple-in_tx t₀ _ _ _ (
        Triple-bind _ _ (Triple-wrapping _ _ mark-IsMarked)
          (λ n. Triple-bind _ _ (Triple-rows_affected_or_zero n) (λ k. rest-IsFinished n k))))

-- However its statements, its commit and its answers fail, `markDoneAndArchive` returns true and has
-- moved the rows of the message, or returns false or an error and has changed nothing.
pub mark_done_and_archive-IsFinished :
    (s : Store) (id : Bytes) (ts : Time) (w : World)
    → Outcome
        (IsFinished s.cfg.worker_id id ts w.tables)
        (λ t. t ≡ w.tables)
        (mark_done_and_archive s id ts w)
mark_done_and_archive-IsFinished s id ts w =
    (finish-Triple s.cfg.worker_id id ts w.tables s refl).at w refl
