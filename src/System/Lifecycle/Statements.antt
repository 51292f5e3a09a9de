-- ===== src/System/Lifecycle/Statements.antt =====
-- Each statement of the package takes each message along a step of its life, of the kind that the
-- statement stands for.
use go_messaging.Prelude.{
  ℕ, ◌≡◌, refl, arith, Bool, true, not, ◌&&◌, Option, none, some, [], Bytes, ℤ, All-map,
}
use go_messaging.Message.{Time}
use go_messaging.Cipher.{Result, ok, err}
use go_messaging.Database.{HotRow, Tables, World, execute}
use go_messaging.Database.Rows.Laws.{IsKeyed, All-always, member-picked}
use go_messaging.Database.Keeps.{Keeps, Gives, Keeps-execute, keeps_rules}
use go_messaging.Database.Hoare.{Outcome}
use go_messaging.Store.{Store}
use go_messaging.Store.Claims.{
  is_failed, update_hot, set_failed, set_retry, set_claimed, claim_statement, claim_rows, claim_ids,
  claimable, created_before, mark_done_and_archive,
}
use go_messaging.Store.Claims.Moving.{IsFinished, mark_done_and_archive-IsFinished}
use go_messaging.Admin.{
  FilterOptions, retryable, retry_ids, processed_before, retry_statement, set_requeued,
}
use go_messaging.Cleanup.{
  set_recovered, archive_exhausted, delete_first, count_first, is_old, purge_old_archive,
}
use go_messaging.Cleanup.Exhaustion.{IsBuried, archive_exhausted-IsBuried}
use go_messaging.Invariant.{IsValid, hot_key}
use go_messaging.Invariant.Interface.{TakesIn, GivesUp, Works, AsksAgain, Forgets, Recovers, Buries}
use go_messaging.Invariant.Valid.{IsValid-IsInvariant, purge_archive-IsValid}
use go_messaging.Invariant.Upkeep.{batches-Keeps}
use go_messaging.System.Lifecycle.{
  Kind, entering, claiming, delaying, failing, requeueing, finishing, burying, purging, View,
  ◌⟶*⟨◌⟩◌, find_row, status_of, view,
}
use go_messaging.System.Lifecycle.Updates.{
  failed-IsMove, retry-IsMove, stuck-IsMove, claimed-IsMove, requeued-IsMove,
}
use go_messaging.System.Lifecycle.Ways.{
  update_hot-way, insert_hot_statement-way, insert_dedup_statement-way, finished-way, buried-way,
}
use go_messaging.System.Lifecycle.Purging.{purged-way}

retryable_failed :
    (o : FilterOptions) (before : Option Time) (r : HotRow)
    → retryable o before r ≡ true
    → is_failed r.status ≡ true
unfolding retryable
retryable_failed o before r h = ground arith

-- The tables are valid, and the message has come along the steps of its life.
pub record HasCome (allowed : Kind → Bool) (id : Bytes) (start : View) (t : Tables) : Type 0 where
  pub valid : IsValid t
  pub way : start ⟶*⟨ allowed ⟩ view id t

module _ (allowed : Kind → Bool) (id : Bytes) (start : View) where
  both-Gives :
      {A : Type 0} (o : Option (A × Tables))
      → Gives IsValid o
      → Gives (λ t. start ⟶*⟨ allowed ⟩ view id t) o
      → Gives (HasCome allowed id start) o
  both-Gives none v way = tt
  both-Gives (some (a, t)) v way = record { valid = v; way = way }

  claim_statement-way :
      allowed claiming ≡ true
      → (worker : Bytes) (size : ℕ) (w : World) → IsKeyed hot_key w.hot
      → start ⟶*⟨ allowed ⟩ view id w.tables
      → Gives (λ t. start ⟶*⟨ allowed ⟩ view id t) (claim_statement worker size w)
  unfolding claim_statement claim_rows claim_ids set_claimed update_hot
  claim_statement-way may worker size w keys way =
      update_hot-way allowed id start _ (set_claimed worker w.now) w (λ r. refl)
        (All-map (λ r ready. claimed-IsMove allowed _ worker w.now w.locked r may ready) w.hot
          (member-picked hot_key (λ r. claimable w.now r && not (w.locked r.message_id))
            created_before size w.hot keys))
        way

  retry_statement-way :
      allowed requeueing ≡ true
      → (o : FilterOptions) (before : Option Time) (limit : ℕ) (w : World) → IsKeyed hot_key w.hot
      → start ⟶*⟨ allowed ⟩ view id w.tables
      → start ⟶*⟨ allowed ⟩ view id (retry_statement o before limit w).1
  unfolding retry_statement retry_ids set_requeued
  retry_statement-way may o before limit w keys way =
      update_hot-way allowed id start _ set_requeued w (λ r. refl)
        (All-map
          (λ r chosen.
            requeued-IsMove allowed _ r may (λ m. retryable_failed o before r (chosen m)))
          w.hot (member-picked hot_key (retryable o before) processed_before limit w.hot keys))
        way

  finishes-HasCome :
      allowed finishing ≡ true
      → (s : Store) (other : Bytes) (ts : Time)
      → Keeps (HasCome allowed id start) (mark_done_and_archive s other ts)
  finishes-HasCome may s other ts = record {
    at = λ w h. record {
      valid = (IsValid-IsInvariant.works.finishes s other ts).at w h.valid;
      way =
          by_result w h (mark_done_and_archive s other ts w)
            (mark_done_and_archive-IsFinished s other ts w);
    };
  }
    where
      by_result :
          (w : World)
          → HasCome allowed id start w.tables
          → (x : Result Bool × World)
          → Outcome (IsFinished s.cfg.worker_id other ts w.tables) (λ t. t ≡ w.tables) x
          → start ⟶*⟨ allowed ⟩ view id x.1.tables
      by_result w h (ok b, w') k =
          finished-way allowed id start s.cfg.worker_id other ts w.tables b w'.tables may
            h.valid.keys k h.way
      by_result w h (err e, w') k = rw k h.way

  exhausts-HasCome :
      allowed burying ≡ true
      → (s : Store) (size : ℤ) → Keeps (HasCome allowed id start) (archive_exhausted s size)
  exhausts-HasCome may s size = record {
    at = λ w h. record {
      valid = (IsValid-IsInvariant.burying.exhausts s size).at w h.valid;
      way =
          by_result w h (archive_exhausted s size w)
            ((archive_exhausted-IsBuried w.tables s size h.valid.keys).at w refl);
    };
  }
    where
      by_result :
          (w : World)
          → HasCome allowed id start w.tables
          → (x : Result ℕ × World) → Outcome (IsBuried w.tables) (λ t. t ≡ w.tables) x
          → start ⟶*⟨ allowed ⟩ view id x.1.tables
      by_result w h (ok n, w') k =
          buried-way allowed id start w.tables n w'.tables may h.valid.keys k h.way
      by_result w h (err e, w') k = rw k h.way

  same_id-recovered : (now : Time) (r : HotRow) → (set_recovered now r).message_id ≡ r.message_id
  unfolding set_recovered
  same_id-recovered now r = ground arith

  pub HasCome-TakesIn : allowed entering ≡ true → TakesIn (HasCome allowed id start)
  HasCome-TakesIn may = record {
    inserts_dedup = λ row w h.
        both-Gives _ (IsValid-IsInvariant.takes_in.inserts_dedup row w h.valid)
          (insert_dedup_statement-way allowed id start row w h.way);
    inserts_hot = λ new w fresh h.
        both-Gives _ (IsValid-IsInvariant.takes_in.inserts_hot new w fresh h.valid)
          (insert_hot_statement-way allowed id start new w may fresh h.way);
  }

  pub HasCome-GivesUp : allowed failing ≡ true → GivesUp (HasCome allowed id start)
  unfolding set_failed
  HasCome-GivesUp may = record {
    fails = λ p t w h. record {
      valid = IsValid-IsInvariant.works.gives_up.fails p t w h.valid;
      way =
          update_hot-way allowed id start p (set_failed w.now t) w (λ r. refl)
            (All-always _ w.hot (λ r. failed-IsMove allowed p w.now t r may)) h.way;
    };
  }

  pub HasCome-Works :
      allowed claiming ≡ true
      → allowed delaying ≡ true
      → allowed failing ≡ true
      → allowed finishing ≡ true
      → Works (HasCome allowed id start)
  unfolding set_retry
  HasCome-Works claims delays fails finishes = record {
    gives_up = HasCome-GivesUp fails;
    claims = λ worker size w h.
        both-Gives _ (IsValid-IsInvariant.works.claims worker size w h.valid)
          (claim_statement-way claims worker size w h.valid.keys h.way);
    retries = λ worker other n at t w h. record {
      valid = IsValid-IsInvariant.works.retries worker other n at t w h.valid;
      way =
          update_hot-way allowed id start _ (set_retry n at t) w (λ r. refl)
            (All-always _ w.hot (λ r. retry-IsMove allowed worker other n at t r delays)) h.way;
    };
    finishes = finishes-HasCome finishes;
  }

  pub HasCome-AsksAgain : allowed requeueing ≡ true → AsksAgain (HasCome allowed id start)
  unfolding set_requeued
  HasCome-AsksAgain may = record {
    requeues = λ o before limit w h. record {
      valid = IsValid-IsInvariant.asks_again.requeues o before limit w h.valid;
      way = retry_statement-way may o before limit w h.valid.keys h.way;
    };
    requeues_one = λ other w h. record {
      valid = IsValid-IsInvariant.asks_again.requeues_one other w h.valid;
      way =
          update_hot-way allowed id start _ set_requeued w (λ r. refl)
            (All-always _ w.hot (λ r. requeued-IsMove allowed _ r may (λ m. ground arith))) h.way;
    };
  }

  pub HasCome-Forgets : Forgets (HasCome allowed id start)
  unfolding view
  HasCome-Forgets = record {
    forgets = λ other w h. record {
      valid = IsValid-IsInvariant.forgetting.forgets other w h.valid;
      way = h.way;
    };
    expires = λ size w h. record {
      valid = IsValid-IsInvariant.forgetting.expires size w h.valid;
      way = h.way;
    };
  }

  pub HasCome-Recovers :
      allowed failing ≡ true → allowed delaying ≡ true → Recovers (HasCome allowed id start)
  HasCome-Recovers fails delays = record {
    recovers = λ timeout w h. record {
      valid = IsValid-IsInvariant.recovering.recovers timeout w h.valid;
      way =
          update_hot-way allowed id start _ (set_recovered w.now) w (same_id-recovered w.now)
            (All-always _ w.hot (λ r. stuck-IsMove allowed timeout w.now r fails delays)) h.way;
    };
  }

  pub HasCome-Buries : allowed burying ≡ true → Buries (HasCome allowed id start)
  HasCome-Buries may = record { exhausts = exhausts-HasCome may }

  purge_archive-HasCome :
      allowed purging ≡ true
      → (millis size : ℕ)
      → Keeps (HasCome allowed id start) (
          execute (λ w. some (
            count_first (is_old millis w.now) size w.archive,
            record w.tables { archive = delete_first (is_old millis w.now) size w.archive },
          )))
  unfolding view
  purge_archive-HasCome may millis size = Keeps-execute _ (λ w h. record {
    valid = purge_archive-IsValid millis size w h.valid;
    way =
        purged-way allowed may id start (status_of (find_row id w.hot)) (is_old millis w.now) []
          size w.archive h.way;
  })

  pub purge_old_archive-HasCome :
      allowed purging ≡ true
      → (s : Store) (fuel millis : ℕ) (size : ℤ)
      → Keeps (HasCome allowed id start) (purge_old_archive s fuel millis size)
  unfolding purge_old_archive
  purge_old_archive-HasCome may s fuel millis size =
      batches-Keeps (HasCome allowed id start) fuel _ _
        (search (keeps_rules, purge_archive-HasCome may))
