-- ===== src/Store/Claims/Exclusion.antt =====
-- store.go, claimBatch: how many rows a claim takes, which, and that two claims share none.
use go_messaging.Prelude.{
  ℕ, ◌+◌, ◌≤◌, ◌≡◌, refl, ap, arith, Bool, true, false, not, ◌&&◌, ◌||◌, List, [], ◌∷◌, Bytes,
  bytes_eq, bytes_eq_iff, bytes_eq_refl, Bool-cases, inl, inr, ◌⊎◌, All, All-map, All-zip, length,
  take, map, length-take,
}
use go_messaging.Message.{Time, Status, pending, processing, retry, failed}
use go_messaging.Database.{HotRow}
use go_messaging.Database.Rows.{select_where, update_where, count_where, order_by, member}
use go_messaging.Database.Rows.Laws.{
  IsKeyed, IsKeyed-update_where, member-picked, length-select_where, select_where-passes,
  count_where-update,
}
use go_messaging.Invariant.{hot_key}
use go_messaging.Store.Claims.{
  has_id, owned_by, is_processing, is_pending, is_retry, claimable, created_before, claim_ids,
  claim_rows, set_claimed,
}

module _ (ids : List Bytes) (worker : Bytes) (now : Time) where
  -- The rows whose ids a claim lists are PROCESSING after it.
  claimed-processing :
      (rows : List HotRow)
      → All
          (λ r. member r.message_id ids ≡ true → is_processing r.status ≡ true)
          (update_where (λ r. member r.message_id ids) (set_claimed worker now) rows)
  unfolding update_where set_claimed is_processing
  claimed-processing [] = tt
  claimed-processing (r ∷ rs) = elim (Bool-cases (member r.message_id ids)) [
    | inl hit ↦ rw hit ((λ e. refl), claimed-processing rs)
    | inr miss ↦ rw miss ((λ e. cc), claimed-processing rs)
  ]

  pub claimed-owned :
      (rows : List HotRow)
      → All
          (λ r. member r.message_id ids ≡ true → owned_by worker r.message_id r ≡ true)
          (update_where (λ r. member r.message_id ids) (set_claimed worker now) rows)
  unfolding update_where set_claimed owned_by
  claimed-owned [] = tt
  claimed-owned (r ∷ rs) = elim (Bool-cases (member r.message_id ids)) [
    | inl hit ↦
        rw hit (
          (λ e. ground (arith, bytes_eq_refl r.message_id, bytes_eq_refl worker)),
          claimed-owned rs,
        )
    | inr miss ↦ rw miss ((λ e. cc), claimed-owned rs)
  ]

module _ (P : HotRow → Type 0) (p : HotRow → Bool) where
  pub selected :
      (rows : List HotRow) → All (λ r. p r ≡ true → P r) rows → All P (select_where p rows)
  unfolding select_where
  selected [] h = tt
  selected (r ∷ rs) h = elim (Bool-cases (p r)) [
    | inl hit ↦ rw hit (h.0 hit, selected rs h.1)
    | inr miss ↦ rw miss (selected rs h.1)
  ]

-- An id that is not listed is the id of no row whose id is listed.
none_listed :
    (id : Bytes) (ids : List Bytes) (rows : List HotRow)
    → member id ids ≡ false
    → All (λ r. member r.message_id ids ≡ true) rows
    → count_where (has_id id) rows ≡ 0
unfolding count_where has_id
none_listed id ids [] absent h = refl
none_listed id ids (r ∷ rs) absent h = elim (Bool-cases (bytes_eq r.message_id id)) [
  | inl same ↦
      absurd (
        ground (arith, absent, ap (λ i. member i ids) ((bytes_eq_iff r.message_id id).0 same), h.0))
  | inr other ↦ rw other (omega (arith, none_listed id ids rs absent h.1))
]

processing_unclaimable :
    (now : Time) (locked : Bytes → Bool) (r : HotRow)
    → is_processing r.status ≡ true
    → (claimable now r && not (locked r.message_id)) ≡ true
    → ⊥
unfolding claimable is_processing is_pending is_retry
processing_unclaimable now locked r p c = by_status r.status p (ground (arith, c))
  where
    by_status : (st : Status) → is_processing st ≡ true → (is_pending st || is_retry st) ≡ true → ⊥
    by_status pending p c = cc
    by_status processing p c = cc
    by_status retry p c = cc
    by_status failed p c = cc

-- A row that is PROCESSING is not listed by a claim.
processing_unlisted :
    (now : Time) (locked : Bytes → Bool) (size : ℕ) (rows : List HotRow)
    → IsKeyed hot_key rows
    → All
        (λ r.
          is_processing r.status ≡ true
          → member r.message_id (claim_ids now locked size rows) ≡ false)
        rows
unfolding claim_ids
processing_unlisted now locked size rows keys =
    All-map (λ r chosen p. unlisted r p (Bool-cases _) chosen) rows
      (member-picked hot_key (λ r. claimable now r && not (locked r.message_id)) created_before size
        rows keys)
  where
    unlisted :
        (r : HotRow) {b : Bool}
        → is_processing r.status ≡ true
        → (b ≡ true) ⊎ (b ≡ false)
        → (b ≡ true → (claimable now r && not (locked r.message_id)) ≡ true)
        → b ≡ false
    unlisted r p (inl m) chosen = absurd (processing_unclaimable now locked r p (chosen m))
    unlisted r p (inr a) chosen = a

-- The rows that a claim takes are not among those that a later claim takes, by whatever worker, at
-- whatever time and with whatever rows locked, while nothing else has changed the hot table. It is
-- asked that message ids are unique in it.
pub claim_rows-exclusive :
    (worker worker' : Bytes) (now now' : Time) (locked locked' : Bytes → Bool) (size size' : ℕ)
    (rows : List HotRow)
    → IsKeyed hot_key rows
    → let claim = claim_rows worker now (claim_ids now locked size rows) rows in
      let later = claim_rows worker' now' (claim_ids now' locked' size' claim.1) claim.1 in
      All (λ r. count_where (has_id r.message_id) later.0 ≡ 0) claim.0
unfolding claim_rows
claim_rows-exclusive worker worker' now now' locked locked' size size' rows keys =
    selected (λ r. count_where (has_id r.message_id) later ≡ 0) _ rows'
      (All-zip (λ r takes stays m. none_listed r.message_id ids' later (stays (takes m)) listed)
        rows' (claimed-processing ids worker now rows)
        (processing_unlisted now' locked' size' rows' keys'))
  where
    ids : List Bytes
    ids = claim_ids now locked size rows

    rows' : List HotRow
    rows' = update_where (λ r. member r.message_id ids) (set_claimed worker now) rows

    ids' : List Bytes
    ids' = claim_ids now' locked' size' rows'

    later : List HotRow
    later =
        select_where (λ r. member r.message_id ids')
          (update_where (λ r. member r.message_id ids') (set_claimed worker' now') rows')

    listed : All (λ r. member r.message_id ids' ≡ true) later
    listed = select_where-passes (λ r. member r.message_id ids') _

    keys' : IsKeyed hot_key rows'
    keys' = IsKeyed-update_where hot_key _ _ rows (λ r. refl) keys

-- Unique keys: at most one row has an id.
count_where-keyed :
    (id : Bytes) (rows : List HotRow) → IsKeyed hot_key rows → count_where (has_id id) rows ≤ 1
unfolding count_where has_id
count_where-keyed id [] keys = omega arith
count_where-keyed id (r ∷ rs) keys = elim (Bool-cases (bytes_eq r.message_id id)) [
  | inl same ↦ rw same (
      omega (
        arith,
        keys.0,
        ap (λ i. count_where (λ x. bytes_eq x.message_id i) rs)
            ((bytes_eq_iff r.message_id id).0 same),
      ))
  | inr other ↦ rw other (omega (arith, count_where-keyed id rs keys.1))
]

count_where-or :
    (p q : HotRow → Bool) (rows : List HotRow)
    → count_where (λ r. p r || q r) rows ≤ count_where p rows + count_where q rows
unfolding count_where
count_where-or p q [] = omega arith
count_where-or p q (r ∷ rs) = ground (arith, count_where-or p q rs)

count_where-swap :
    (id : Bytes) (ids : List Bytes) (rows : List HotRow)
    → count_where (λ r. bytes_eq id r.message_id || member r.message_id ids) rows
      ≡ count_where (λ r. has_id id r || member r.message_id ids) rows
unfolding count_where has_id
count_where-swap id ids [] = refl
count_where-swap id ids (r ∷ rs) =
    ground (
      arith,
      count_where-swap id ids rs,
      bytes_eq_iff id r.message_id,
      bytes_eq_iff r.message_id id,
    )

count_where-never : (rows : List HotRow) → count_where (λ r. false) rows ≡ 0
unfolding count_where
count_where-never [] = refl
count_where-never (r ∷ rs) = omega (arith, count_where-never rs)

count_where-member :
    (ids : List Bytes) (rows : List HotRow)
    → IsKeyed hot_key rows
    → count_where (λ r. member r.message_id ids) rows ≤ length ids
unfolding member
count_where-member [] rows keys = omega (arith, count_where-never rows)
count_where-member (id ∷ ids) rows keys = omega (
  arith,
  count_where-swap id ids rows,
  count_where-or (has_id id) (λ r. member r.message_id ids) rows,
  count_where-keyed id rows keys,
  count_where-member ids rows keys,
)

length-map-id : (rows : List HotRow) → length (map hot_key rows) ≡ length rows
length-map-id [] = refl
length-map-id (r ∷ rs) = omega (arith, length-map-id rs)

claim_ids-bounded :
    (now : Time) (locked : Bytes → Bool) (size : ℕ) (rows : List HotRow)
    → length (claim_ids now locked size rows) ≤ size
unfolding claim_ids
claim_ids-bounded now locked size rows =
    omega (arith, length-map-id (take size sorted), length-take size sorted)
  where
    sorted : List HotRow
    sorted =
        order_by created_before
          (select_where (λ r. claimable now r && not (locked r.message_id)) rows)

-- A claim returns at most as many rows as it was asked for. Each of them is PROCESSING in the hot
-- table and has the worker as its owner. It is asked that message ids are unique in the hot table.
pub claim_rows-bounded :
    (worker : Bytes) (now : Time) (locked : Bytes → Bool) (size : ℕ) (rows : List HotRow)
    → IsKeyed hot_key rows
    → let claim = claim_rows worker now (claim_ids now locked size rows) rows in
      (length claim.0 ≤ size) × All (λ r. owned_by worker r.message_id r ≡ true) claim.0
unfolding claim_rows
claim_rows-bounded worker now locked size rows keys = (
  omega (
    arith,
    length-select_where (λ r. member r.message_id ids) rows',
    count_where-update (λ r. member r.message_id ids) _ (set_claimed worker now) rows (λ r. refl),
    count_where-member ids rows keys,
    listed,
  ),
  selected (λ r. owned_by worker r.message_id r ≡ true) _ rows' (claimed-owned ids worker now rows),
)
  where
    ids : List Bytes
    ids = claim_ids now locked size rows

    rows' : List HotRow
    rows' = update_where (λ r. member r.message_id ids) (set_claimed worker now) rows

    listed : length ids ≤ size
    listed = claim_ids-bounded now locked size rows
