-- ===== src/Messaging/Insertion.antt =====
-- store.go, insertDedup and insertHot: what each leaves behind, on every branch.
use go_messaging.Prelude.{
  ℕ, ◌≤◌, ◌≡◌, refl, ap, arith, true, false, Option, none, some, List, [], ◌∷◌, Bytes,
  bytes_eq_refl, codes, ltb, leb, if◌then◌else◌, Bool-cases, inl, inr, ◌⊎◌,
}
use mathlib.Core.Path.{subst}
use go_messaging.Message.{Message, Time, Error, err_duplicate, is_duplicate}
use go_messaging.Cipher.{Result, ok, err}
use go_messaging.Crypto.Registry.{CipherRegistry}
use go_messaging.Database.{
  DedupRow, HotRow, Tables, World, ◌>>=◌, continue, wrapping, in_context, pure, raise, execute,
  rows_affected,
}
use go_messaging.Database.Hoare.{
  Outcome, Triple, Triple-wrapping, Triple-bind, Triple-execute, Triple-rows_affected, Keeps-Triple,
}
use go_messaging.Database.Keeps.{Keeps, keeps_rules}
use go_messaging.Database.Rows.{count_where}
use go_messaging.Database.Rows.Laws.{count_where-append}
use go_messaging.Store.{
  Store, null_string, insert_dedup_row, insert_dedup_statement, insert_dedup, insert_hot_row,
  insert_rows, stored_as, insert_hot_statement, all_accepted, insert_hot, hot_row, prepare_fields,
  prepare_with, encrypt_with,
}
use go_messaging.Store.Claims.{has_id}
use go_messaging.Admin.{has_dedup}

-- An action whose errors are not ErrDuplicate.
abbrev IsOther : {A : Type 0} → Result A → Type 0
IsOther (ok a) = Unit {0}
IsOther (err e) = is_duplicate e ≡ false

-- An error that was wrapped on the way out is another value.
wrapping-IsOther : {A : Type 0} (c : Bytes) (x : Result A × World) → IsOther (in_context c x).0
unfolding is_duplicate
wrapping-IsOther c (ok a, w) = tt
wrapping-IsOther c (err e, w) = refl

-- The statement found the id, or inserted it.
abbrev HasInserted : Bytes → Tables → ℕ → Tables → Type 0
HasInserted id t₀ n t =
    ((n ≡ 0) × (1 ≤ count_where (has_dedup id) t₀.dedup) × (t ≡ t₀))
    ⊎ ((n ≡ 1)
        × (count_where (has_dedup id) t₀.dedup ≡ 0)
        × (1 ≤ count_where (has_dedup id) t.dedup)
        × (t.hot ≡ t₀.hot)
        × (t.archive ≡ t₀.archive))

-- What insertDedup leaves behind.
abbrev pub DedupOutcome : Bytes → Tables → Result (Unit {0}) × World → Type 0
DedupOutcome id t₀ (ok u, w) =
    (count_where (has_dedup id) t₀.dedup ≡ 0)
    × (1 ≤ count_where (has_dedup id) w.dedup)
    × (w.hot ≡ t₀.hot)
    × (w.archive ≡ t₀.archive)
DedupOutcome id t₀ (err e, w) =
    (w.hot ≡ t₀.hot)
    × (w.archive ≡ t₀.archive)
    × (1 ≤ count_where (has_dedup id) t₀.dedup → w.tables ≡ t₀)
    × (is_duplicate e ≡ true → 1 ≤ count_where (has_dedup id) t₀.dedup)

row-HasInserted :
    (row : DedupRow) (t₀ : Tables)
    → HasInserted row.message_id t₀
        (insert_dedup_row row t₀.dedup).0
        (record t₀ { dedup = (insert_dedup_row row t₀.dedup).1 })
unfolding insert_dedup_row has_dedup count_where
row-HasInserted row t₀ =
    elim (Bool-cases (leb 1 (count_where (has_dedup row.message_id) t₀.dedup))) [
      | inl old ↦ rw old (inl (refl, ground arith, refl))
      | inr new ↦ rw new (
          inr (
            refl,
            ground arith,
            ground (
              arith,
              bytes_eq_refl row.message_id,
              count_where-append (has_dedup row.message_id) t₀.dedup (row ∷ []),
            ),
            refl,
            refl,
          ))
    ]

insert-HasInserted :
    (row : World → DedupRow) (id : Bytes) (t₀ : Tables)
    → ((w : World) → (row w).message_id ≡ id)
    → Triple
        (λ t. t ≡ t₀)
        (HasInserted id t₀)
        (λ t. t ≡ t₀)
        (execute (λ w. insert_dedup_statement (row w) w))
unfolding insert_dedup_statement
insert-HasInserted row id t₀ same =
    Triple-execute _ (λ t e. e)
      (λ w e. elim (Bool-cases (w.engine.accepts_dedup (row w))) [
        | inl fits ↦ rw fits (by_path w e (row-HasInserted (row w) w.tables))
        | inr refused ↦ rw refused tt
      ])
  where
    by_path :
        (w : World)
        → w.tables ≡ t₀
        → HasInserted
            (row w).message_id
            w.tables
            (insert_dedup_row (row w) w.dedup).0
            (record w.tables { dedup = (insert_dedup_row (row w) w.dedup).1 })
        → HasInserted id t₀
            (insert_dedup_row (row w) w.dedup).0
            (record w.tables { dedup = (insert_dedup_row (row w) w.dedup).1 })
    by_path w e h =
        subst
          (λ i.
            HasInserted i t₀ (insert_dedup_row (row w) w.dedup).0
              (record w.tables { dedup = (insert_dedup_row (row w) w.dedup).1 }))
          (same w)
          (subst
            (λ t.
              HasInserted (row w).message_id t (insert_dedup_row (row w) w.dedup).0
                (record w.tables { dedup = (insert_dedup_row (row w) w.dedup).1 }))
            e h)

module _ (id : Bytes) (t₀ : Tables) where
  -- After the count of the rows is known.
  last-Outcome :
      (n k : ℕ) (w : World)
      → k ≡ n
      → HasInserted id t₀ n w.tables
      → DedupOutcome id t₀ ((if ltb 0 k then pure tt else raise err_duplicate) w)
  unfolding ◌>>=◌ is_duplicate
  last-Outcome n k w e (inl (z, found, same)) =
      rw (e, z) (ap (λ t. t.hot) same, ap (λ t. t.archive) same, (λ h. same), (λ h. found))
  last-Outcome n k w e (inr (o, new, has, hot, archive)) = rw (e, o) (new, has, hot, archive)

  error-Outcome :
      (n : ℕ) (e : Error) (w : World)
      → is_duplicate e ≡ false
      → HasInserted id t₀ n w.tables
      → DedupOutcome id t₀ (err e, w)
  error-Outcome n e w other (inl (z, found, same)) =
      (ap (λ t. t.hot) same, ap (λ t. t.archive) same, (λ h. same), (λ h. found))
  error-Outcome n e w other (inr (o, new, has, hot, archive)) =
      (hot, archive, (λ h. absurd (omega (arith, h, new))), (λ h. cc))

  count-Outcome :
      (n : ℕ) (x : Result ℕ × World)
      → Outcome (λ k t. (k ≡ n) × HasInserted id t₀ n t) (HasInserted id t₀ n) x
      → IsOther x.0
      → DedupOutcome id t₀ (continue x (λ k. if ltb 0 k then pure tt else raise err_duplicate))
  count-Outcome n (ok k, w) h o = last-Outcome n k w h.0 h.1
  count-Outcome n (err e, w) h o = error-Outcome n e w o h

  insert-Outcome :
      (x : Result ℕ × World)
      → Outcome (HasInserted id t₀) (λ t. t ≡ t₀) x
      → IsOther x.0
      → DedupOutcome id t₀ (
          continue x (λ n.
            wrapping (codes "message: insert dedup rows affected") (rows_affected n) >>= λ k.
            if ltb 0 k then pure tt else raise err_duplicate))
  unfolding ◌>>=◌
  insert-Outcome (ok n, w) h o =
      count-Outcome n (in_context (codes "message: insert dedup rows affected") (rows_affected n w))
        ((Triple-wrapping (codes "message: insert dedup rows affected") _
            (Triple-rows_affected n (λ t g. g))).at
          w h)
        (wrapping-IsOther _ (rows_affected n w))
  insert-Outcome (err e, w) h o = (ap (λ t. t.hot) h, ap (λ t. t.archive) h, (λ g. h), (λ g. cc))

-- Reading the clock and encrypting change no table.
encrypt_with-Keeps :
    (P : Tables → Type 0) (r : CipherRegistry) (b : Bytes) → Keeps P (encrypt_with r b)
unfolding encrypt_with
encrypt_with-Keeps P r b = record { at = λ w h. h }

prepare_with-Keeps :
    (P : Tables → Type 0) (c : Option CipherRegistry) (payload headers : Bytes)
    → Keeps P (prepare_with c payload headers)
unfolding prepare_with
prepare_with-Keeps P none payload headers = search keeps_rules
prepare_with-Keeps P (some r) payload headers = search (keeps_rules, encrypt_with-Keeps)

-- What insertHot leaves behind, and what it leaves alone.
abbrev HasRow : Bytes → Tables → Unit {0} → Tables → Type 0
HasRow id t₀ u t =
    (1 ≤ count_where (has_id id) t.hot) × (t.dedup ≡ t₀.dedup) × (t.archive ≡ t₀.archive)

module _ (id : Bytes) (t₀ : Tables) where
  row-HasRow :
      (row : HotRow) (rows : List HotRow)
      → row.message_id ≡ id
      → 1 ≤ count_where (has_id id) (insert_hot_row row rows)
  unfolding insert_hot_row has_id count_where
  row-HasRow row rows e =
      rw⁻¹ e (elim (Bool-cases (leb 1 (count_where (has_id row.message_id) rows))) [
        | inl old ↦ rw old (ground arith)
        | inr new ↦ rw new (
            ground (
              arith,
              bytes_eq_refl row.message_id,
              count_where-append (has_id row.message_id) rows (row ∷ []),
            ))
      ])

  statement-HasRow :
      (row : World → HotRow)
      → ((w : World) → (row w).message_id ≡ id)
      → Triple
          (λ t. t ≡ t₀)
          (HasRow id t₀)
          (λ t. t ≡ t₀)
          (execute (λ w. insert_hot_statement (row w ∷ []) w))
  unfolding insert_hot_statement insert_rows stored_as
  statement-HasRow row same =
      Triple-execute _ (λ t e. e)
        (λ w e. elim (Bool-cases (all_accepted w.engine.accepts_hot (row w ∷ []))) [
          | inl fits ↦ rw fits (
            row-HasRow (stored_as w.engine.jsonb (row w)) w.hot (same w),
            ap (λ t. t.dedup) e,
            ap (λ t. t.archive) e,
          )
          | inr refused ↦ rw refused tt
        ])

  pub insert_hot-HasRow :
      (s : Store) (msg : Message)
      → msg.message_id ≡ id
      → Triple (λ t. t ≡ t₀) (HasRow id t₀) (λ t. t ≡ t₀) (insert_hot s msg)
  unfolding insert_hot prepare_fields hot_row
  insert_hot-HasRow s msg same =
      Triple-bind _ _ (Keeps-Triple _ (prepare_with-Keeps _ s.cipher msg.payload _))
        (λ x. Triple-wrapping _ _ (statement-HasRow _ (λ w. same)))

row_of : Message → Option Time → World → DedupRow
row_of msg expire_at w = record {
  message_id = msg.message_id;
  partition_key = null_string msg.partition_key;
  topic = msg.topic;
  source = null_string msg.source;
  first_seen_at = w.now;
  expire_at = expire_at;
}

pub insert_dedup-Outcome :
    (s : Store) (msg : Message) (expire_at : Option Time) (w : World)
    → DedupOutcome msg.message_id w.tables (insert_dedup s msg expire_at w)
unfolding insert_dedup row_of ◌>>=◌
insert_dedup-Outcome s msg expire_at w =
    insert-Outcome msg.message_id w.tables
      (in_context (codes "message: insert dedup")
        (execute (λ w'. insert_dedup_statement (row_of msg expire_at w') w') w))
      ((Triple-wrapping (codes "message: insert dedup") _
          (insert-HasInserted (row_of msg expire_at) msg.message_id w.tables (λ w'. refl))).at
        w refl)
      (wrapping-IsOther _ (execute (λ w'. insert_dedup_statement (row_of msg expire_at w') w') w))
