-- ===== src/Invariant/Statements.antt =====
-- Each statement of the package gives valid tables from valid ones.
use go_messaging.Prelude.{
  ℕ, suc, ◌+◌, ◌≤◌, ◌<◌, ◌≡◌, refl, arith, Bool, true, false, ◌&&◌, Option, List, [], ◌∷◌, Bytes,
  bytes_eq, All, All-append, All-map, Bool-cases, inl, inr, leb, length,
}
use go_messaging.Message.{Time, FinalStatus}
use go_messaging.Database.{DedupRow, HotRow, ArchiveRow, World}
use go_messaging.Database.Keeps.{Gives}
use go_messaging.Database.Rows.{select_where, count_where}
use go_messaging.Database.Rows.Laws.{
  IsKeyed, IsKeyed-append, IsKeyed-update_where, IsKeyed-delete_where, All-update_where,
  All-update_where_if, All-delete_where, All-always, member-picked, length-select_where,
}
use go_messaging.Store.{
  insert_dedup_row, insert_dedup_statement, insert_hot_row, stored_as, insert_rows,
  insert_hot_statement, all_accepted,
}
use go_messaging.Store.Claims.{
  update_hot, claim_statement, claim_rows, set_claimed, has_id, archive_rows, archive_row,
  copy_to_archive, delete_hot, is_processing, is_failed,
}
use go_messaging.Admin.{
  set_requeued, retryable, processed_before, retry_ids, retry_statement, FilterOptions,
}
use go_messaging.Invariant.{
  IsValid, IsValidRow, IsNumbered, hot_key, dedup_key, set_claimed-IsValidRow,
  set_requeued-IsValidRow,
}

insert_dedup-IsKeyed :
    (row : DedupRow) (rows : List DedupRow)
    → IsKeyed dedup_key rows
    → IsKeyed dedup_key (insert_dedup_row row rows).1
unfolding insert_dedup_row
insert_dedup-IsKeyed row rows h =
    elim (Bool-cases (leb 1 (count_where (λ r. bytes_eq r.message_id row.message_id) rows))) [
      | inl old ↦ rw old h
      | inr new ↦ rw new (IsKeyed-append dedup_key rows row (ground arith) h)
    ]

pub insert_dedup_statement-IsValid :
    (row : DedupRow) (w : World) → IsValid w.tables → Gives IsValid (insert_dedup_statement row w)
unfolding insert_dedup_statement
insert_dedup_statement-IsValid row w v = elim (Bool-cases (w.engine.accepts_dedup row)) [
  | inl fits ↦ rw fits (record {
    rows = v.rows;
    keys = v.keys;
    dedup_keys = insert_dedup-IsKeyed row w.dedup v.dedup_keys;
    numbered = v.numbered;
  })
  | inr refused ↦ rw refused tt
]

insert_hot-rows :
    (row : HotRow) (rows : List HotRow)
    → IsValidRow row
    → All IsValidRow rows
    → All IsValidRow (insert_hot_row row rows)
unfolding insert_hot_row
insert_hot-rows row rows hr h =
    elim (Bool-cases (leb 1 (count_where (λ r. bytes_eq r.message_id row.message_id) rows))) [
      | inl old ↦ rw old h
      | inr new ↦ rw new (All-append IsValidRow rows (row ∷ []) h (hr, tt))
    ]

insert_hot-keys :
    (row : HotRow) (rows : List HotRow)
    → IsKeyed hot_key rows
    → IsKeyed hot_key (insert_hot_row row rows)
unfolding insert_hot_row
insert_hot-keys row rows h =
    elim (Bool-cases (leb 1 (count_where (λ r. bytes_eq r.message_id row.message_id) rows))) [
      | inl old ↦ rw old h
      | inr new ↦ rw new (IsKeyed-append hot_key rows row (ground arith) h)
    ]

stored_as-IsValidRow :
    (jsonb : Bytes → Bytes) (r : HotRow) → IsValidRow r → IsValidRow (stored_as jsonb r)
unfolding stored_as
stored_as-IsValidRow jsonb r v = record {
  owner = v.owner;
  claim = v.claim;
  death = v.death;
  budget = v.budget;
}

insert_rows-rows :
    (jsonb : Bytes → Bytes) (new rows : List HotRow)
    → All IsValidRow new
    → All IsValidRow rows
    → All IsValidRow (insert_rows jsonb new rows)
unfolding insert_rows
insert_rows-rows jsonb [] rows hn h = h
insert_rows-rows jsonb (r ∷ rs) rows hn h =
    insert_rows-rows jsonb rs _ hn.1
      (insert_hot-rows (stored_as jsonb r) rows (stored_as-IsValidRow jsonb r hn.0) h)

insert_rows-keys :
    (jsonb : Bytes → Bytes) (new rows : List HotRow)
    → IsKeyed hot_key rows
    → IsKeyed hot_key (insert_rows jsonb new rows)
unfolding insert_rows
insert_rows-keys jsonb [] rows h = h
insert_rows-keys jsonb (r ∷ rs) rows h =
    insert_rows-keys jsonb rs _ (insert_hot-keys (stored_as jsonb r) rows h)

pub insert_hot_statement-IsValid :
    (new : List HotRow) (w : World)
    → All IsValidRow new
    → IsValid w.tables
    → Gives IsValid (insert_hot_statement new w)
unfolding insert_hot_statement
insert_hot_statement-IsValid new w hn v =
    elim (Bool-cases (all_accepted w.engine.accepts_hot new)) [
      | inl fits ↦ rw fits (record {
        rows = insert_rows-rows w.engine.jsonb new w.hot hn v.rows;
        keys = insert_rows-keys w.engine.jsonb new w.hot v.keys;
        dedup_keys = v.dedup_keys;
        numbered = v.numbered;
      })
      | inr refused ↦ rw refused tt
    ]

-- An update of rows that may be made of any row that passes it.
update_hot-IsValid :
    (Q : HotRow → Type 0) (p : HotRow → Bool) (f : HotRow → HotRow) (w : World)
    → ((r : HotRow) → hot_key (f r) ≡ hot_key r)
    → ((r : HotRow) → IsValidRow r → Q r → IsValidRow (f r))
    → All (λ r. p r ≡ true → Q r) w.hot
    → IsValid w.tables
    → IsValid (update_hot p f w).1
unfolding update_hot
update_hot-IsValid Q p f w same keep q v = record {
  rows = All-update_where_if IsValidRow Q p f w.hot keep v.rows q;
  keys = IsKeyed-update_where hot_key p f w.hot same v.keys;
  dedup_keys = v.dedup_keys;
  numbered = v.numbered;
}

pub claim_statement-IsValid :
    (worker : Bytes) (size : ℕ) (w : World)
    → IsValid w.tables
    → Gives IsValid (claim_statement worker size w)
unfolding claim_statement claim_rows set_claimed
claim_statement-IsValid worker size w v = record {
  rows =
      All-update_where IsValidRow _ (set_claimed worker w.now) w.hot
        (λ r _ hr. set_claimed-IsValidRow worker w.now r hr) v.rows;
  keys = IsKeyed-update_where hot_key _ (set_claimed worker w.now) w.hot (λ r. refl) v.keys;
  dedup_keys = v.dedup_keys;
  numbered = v.numbered;
}

archive_rows-IsNumbered :
    (final : FinalStatus) (now : Time) (n next : ℕ) (moved : List HotRow)
    → next + length moved ≤ n
    → IsNumbered n (archive_rows final now next moved)
unfolding archive_rows archive_row
archive_rows-IsNumbered final now n next [] h = tt
archive_rows-IsNumbered final now n next (r ∷ rs) h =
    (omega arith, archive_rows-IsNumbered final now n (suc next) rs (omega arith))

IsNumbered-mono : (m n : ℕ) (rows : List ArchiveRow) → m ≤ n → IsNumbered m rows → IsNumbered n rows
IsNumbered-mono m n rows h = All-map (λ r k. omega arith) rows

pub copy_to_archive-IsValid :
    (final : FinalStatus) (p : HotRow → Bool) (w : World)
    → IsValid w.tables
    → Gives IsValid (copy_to_archive final p w)
unfolding copy_to_archive
copy_to_archive-IsValid final p w v =
    let moved = select_where p w.hot in
    let counted = length-select_where p w.hot in
    record {
      rows = v.rows;
      keys = v.keys;
      dedup_keys = v.dedup_keys;
      numbered =
          All-append (λ (r : ArchiveRow). r.id < w.next_id + count_where p w.hot) w.archive
            (archive_rows final w.now w.next_id moved)
            (IsNumbered-mono w.next_id _ w.archive (omega arith) v.numbered)
            (archive_rows-IsNumbered final w.now _ w.next_id moved (omega arith));
    }

pub delete_hot-IsValid :
    (p : HotRow → Bool) (w : World) → IsValid w.tables → Gives IsValid (delete_hot p w)
unfolding delete_hot
delete_hot-IsValid p w v = record {
  rows = All-delete_where IsValidRow p w.hot v.rows;
  keys = IsKeyed-delete_where hot_key p w.hot v.keys;
  dedup_keys = v.dedup_keys;
  numbered = v.numbered;
}

failed_idle : (r : HotRow) → is_failed r.status ≡ true → is_processing r.status ≡ false
unfolding is_failed is_processing
failed_idle r h = ground arith

retryable_idle :
    (o : FilterOptions) (before : Option Time) (r : HotRow)
    → retryable o before r ≡ true
    → is_processing r.status ≡ false
unfolding retryable
retryable_idle o before r h = ground (arith, failed_idle r)

pub retry_statement-IsValid :
    (o : FilterOptions) (before : Option Time) (limit : ℕ) (w : World)
    → IsValid w.tables
    → IsValid (retry_statement o before limit w).1
unfolding retry_statement retry_ids set_requeued
retry_statement-IsValid o before limit w v =
    update_hot-IsValid (λ r. is_processing r.status ≡ false) _ set_requeued w (λ r. refl)
      (λ r hr idle. set_requeued-IsValidRow r idle hr)
      (All-map (λ r chosen m. retryable_idle o before r (chosen m)) w.hot
        (member-picked hot_key (retryable o before) processed_before limit w.hot v.keys))
      v

pub retry_one-IsValid :
    (id : Bytes) (w : World)
    → IsValid w.tables
    → IsValid (update_hot (λ r. has_id id r && is_failed r.status) set_requeued w).1
unfolding set_requeued
retry_one-IsValid id w v =
    update_hot-IsValid (λ r. is_processing r.status ≡ false) _ set_requeued w (λ r. refl)
      (λ r hr idle. set_requeued-IsValidRow r idle hr)
      (All-always _ w.hot (λ r h. failed_idle r (ground arith))) v

-- An update that may be made of every row.
pub update_hot-IsValid_any :
    (p : HotRow → Bool) (f : HotRow → HotRow) (w : World)
    → ((r : HotRow) → hot_key (f r) ≡ hot_key r)
    → ((r : HotRow) → IsValidRow r → IsValidRow (f r))
    → IsValid w.tables
    → IsValid (update_hot p f w).1
update_hot-IsValid_any p f w same keep v =
    update_hot-IsValid (λ r. Unit {0}) p f w same (λ r hr _. keep r hr)
      (All-always _ w.hot (λ r _. tt)) v
