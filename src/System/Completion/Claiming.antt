-- ===== src/System/Completion/Claiming.antt =====
-- store.go, claimBatch: what it makes of each message, where no call of the database fails.
use go_messaging.Prelude.{
  pos, ℕ, ◌≤◌, ◌≡◌, refl, ap, sym, ◌∙◌, arith, Bool, true, false, Option, none, some, List, [], ◌∷◌,
  map, Bytes, bytes_eq, All, All-map, All-zip, if◌then◌else◌, Bool-cases, inl, inr, length,
}
use go_messaging.Message.{Status}
use go_messaging.Database.{HotRow, Tables, World, ◌>>=◌}
use go_messaging.Database.Total.{IsFaultless, Ran, Ran-weaken, execute-answers}
use go_messaging.Database.Rows.{select_where, update_where, count_where, member}
use go_messaging.Database.Rows.Laws.{IsKeyed, IsKeyed-update_where}
use go_messaging.Database.Rows.Picking.{IsKeyed-select_where}
use go_messaging.Store.{Store}
use go_messaging.Store.Claims.{
  has_id, owned_by, claim_ids, claim_rows, claim_statement, claim_limited, claim_batch, set_claimed,
}
use go_messaging.Store.Claims.Exclusion.{claimed-owned, selected}
use go_messaging.Invariant.{IsValid, hot_key}
use go_messaging.Invariant.Statements.{claim_statement-IsValid}
use go_messaging.System.Lifecycle.{find_row, status_of, outcomes, view}
use go_messaging.System.Lifecycle.Rows.{updated, find_row-update_where}
use go_messaging.System.Completion.Finish.{IsHeld}
use go_messaging.System.Completion.Reading.{IsReadable, AreRead, scan_messages-Runs}

-- Lists that have the same keys.
module _ {A : Type 0} (key : A → Bytes) where
  pub All-keys :
      (P : Bytes → Type 0) (rows : List A) → All (λ r. P (key r)) rows → All P (map key rows)
  All-keys P [] h = tt
  All-keys P (r ∷ rs) h = (h.0, All-keys P rs h.1)

  pub keys-All :
      (P : Bytes → Type 0) (rows : List A) → All P (map key rows) → All (λ r. P (key r)) rows
  keys-All P [] h = tt
  keys-All P (r ∷ rs) h = (h.0, keys-All P rs h.1)

  count_where-keys :
      (k : Bytes) (rows : List A)
      → count_where (λ i. bytes_eq i k) (map key rows) ≡ count_where (λ r. bytes_eq (key r) k) rows
  unfolding count_where
  count_where-keys k [] = refl
  count_where-keys k (r ∷ rs) = omega (arith, count_where-keys k rs)

  pub IsKeyed-keys : (rows : List A) → IsKeyed key rows → IsKeyed (λ i. i) (map key rows)
  IsKeyed-keys [] h = tt
  IsKeyed-keys (r ∷ rs) h = (count_where-keys (key r) rs ∙ h.0, IsKeyed-keys rs h.1)

  pub keys-IsKeyed : (rows : List A) → IsKeyed (λ i. i) (map key rows) → IsKeyed key rows
  keys-IsKeyed [] h = tt
  keys-IsKeyed (r ∷ rs) h = (sym (count_where-keys (key r) rs) ∙ h.0, keys-IsKeyed rs h.1)

  pub length-keys : (rows : List A) → length (map key rows) ≡ length rows
  length-keys [] = refl
  length-keys (r ∷ rs) = omega (arith, length-keys rs)

-- A row that passes a test is counted.
All-counted :
    (q : HotRow → HotRow → Bool) (rows : List HotRow)
    → All (λ r. q r r ≡ true → 1 ≤ count_where (q r) rows) rows
unfolding count_where
All-counted q [] = tt
All-counted q (r ∷ rs) = (
  (λ e. ground (arith, e)),
  All-map (λ x h e. ground (arith, h e, Bool-cases (q x r))) rs (All-counted q rs),
)

-- The first row with an id, where it passes a test, is among the selected ones.
find_row-selected :
    (k : Bytes) (p : HotRow → Bool) (rows : List HotRow) (r : HotRow)
    → find_row k rows ≡ some r
    → p r ≡ true
    → member k (map hot_key (select_where p rows)) ≡ true
unfolding find_row select_where member has_id
find_row-selected k p [] r e hit = cc
find_row-selected k p (x ∷ xs) r e hit = elim (Bool-cases (has_id k x)) [
  | inl found ↦
      let same : x ≡ r = ground (arith, found) in
      let passes : p x ≡ true = ap p same ∙ hit in rw passes (ground (arith, found))
  | inr other ↦
      ground (arith, Bool-cases (p x), find_row-selected k p xs r (ground (arith, other)) hit)
]

clash : {b : Bool} → b ≡ true → b ≡ false → ⊥
clash h k = cc

-- What a claim makes of the tables, and the rows that it returns.
unfoldable pub claimed_tables : Bytes → ℕ → World → Tables
claimed_tables worker size w = record w.tables {
  hot = (claim_rows worker w.now (claim_ids w.now w.locked size w.hot) w.hot).1;
}

abbrev pub claimed : Bytes → ℕ → World → List HotRow
claimed worker size w = (claim_rows worker w.now (claim_ids w.now w.locked size w.hot) w.hot).0

module _ (worker : Bytes) (size : ℕ) (w : World) where
  pub claimed-IsKeyed : IsKeyed hot_key w.hot → IsKeyed hot_key (claimed worker size w)
  unfolding claim_rows set_claimed
  claimed-IsKeyed keys =
      IsKeyed-select_where hot_key _ _ (IsKeyed-update_where hot_key _ _ w.hot (λ r. refl) keys)

  pub claimed-IsHeld :
      All (λ r. IsHeld worker r.message_id (claimed_tables worker size w)) (claimed worker size w)
  unfolding claim_rows claimed_tables
  claimed-IsHeld =
      let ids = claim_ids w.now w.locked size w.hot in
      let rows = (claim_rows worker w.now ids w.hot).1 in
      selected (λ r. IsHeld worker r.message_id (claimed_tables worker size w)) _ rows
        (All-zip (λ r counted owned m. counted (owned m)) rows
          (All-counted (λ r x. owned_by worker r.message_id x) rows)
          (claimed-owned ids worker w.now w.hot))

  -- A message that is not claimed is left as it is.
  pub unclaimed-view :
      (k : Bytes)
      → member k (map hot_key (claimed worker size w)) ≡ false
      → view k (claimed_tables worker size w) ≡ view k w.tables
  unfolding view claim_rows claimed_tables set_claimed
  unclaimed-view k absent =
      rw (find_row-update_where k p f w.hot (λ r. refl))
        (ap (λ (s : Option Status). (s, outcomes k w.archive)) (by_row (find_row k w.hot) refl))
    where
      p : HotRow → Bool
      p r = member r.message_id (claim_ids w.now w.locked size w.hot)

      f : HotRow → HotRow
      f = set_claimed worker w.now

      taken :
          (r : HotRow)
          → find_row k w.hot ≡ some r
          → p r ≡ true
          → member k (map hot_key (claimed worker size w)) ≡ true
      taken r e hit =
          find_row-selected k p (update_where p f w.hot) (if p r then f r else r)
            (find_row-update_where k p f w.hot (λ r. refl)
              ∙ ap (updated p f) e
              ∙ unfold updated in refl)
            (rw hit hit)

      by_row :
          (found : Option HotRow)
          → find_row k w.hot ≡ found
          → status_of (updated p f found) ≡ status_of found
      by_row none e = unfold updated in refl
      by_row (some r) e = elim (Bool-cases (p r)) [
        | inl hit ↦ absurd (clash (taken r e hit) absent)
        | inr miss ↦ unfold updated in rw miss refl
      ]

claimed-IsValid :
    (worker : Bytes) (size : ℕ) (w : World)
    → IsValid w.tables
    → IsValid (claimed_tables worker size w)
unfolding claim_statement claimed_tables
claimed-IsValid worker size w valid = claim_statement-IsValid worker size w valid

claim_statement-gives :
    (worker : Bytes) (size : ℕ) (w : World)
    → claim_statement worker size w ≡ some (claimed worker size w, claimed_tables worker size w)
unfolding claim_statement claimed_tables
claim_statement-gives worker size w = refl

pub claim_batch-Ran :
    (s : Store) (size : ℕ) (w : World)
    → let rows = claimed s.cfg.worker_id size w in
      IsFaultless w
      → IsValid w.tables
      → All (IsReadable s) rows
      → Ran
          (λ ms t. AreRead s rows ms × (t ≡ claimed_tables s.cfg.worker_id size w) × IsValid t)
          (claim_batch s (pos size) w)
unfolding claim_batch claim_limited ◌>>=◌
claim_batch-Ran s size w f valid readable =
    let worker = s.cfg.worker_id in
    let t₁ = claimed_tables worker size w in
    rw
      (execute-answers (claim_statement worker size) w (claimed worker size w) t₁ f
        (claim_statement-gives worker size w))
      (Ran-weaken _ (λ ms t h. (h.0, h.1.0, h.1.1))
        ((scan_messages-Runs s (λ t. (t ≡ t₁) × IsValid t) (claimed worker size w) readable).at
          (record w { tables = t₁ }) f (refl, claimed-IsValid worker size w valid)))
