-- ===== src/Config/Defaults.antt =====
-- What the defaults of Config guarantee to the code that runs on it.
use go_messaging.Prelude.{
  ℤ, ◌*◌, pos, true, ◌≡◌, ◌≢◌, arith, Option, some, Bytes, [], ◌∷◌, ltb_ℤ, refl, codes, Option,
  none,
}
use go_messaging.Backoff.{Backoff, linear}
use go_messaging.Config.{Config, second, with_defaults, positive_or, text_or, backoff_or}

-- The fields that the package relies on are set: the numbers are positive, the worker has a name.
pub record IsReady (c : Config) : Type 0 where
  pub retries : ltb_ℤ (pos 0) c.default_max_retries ≡ true
  pub named : c.worker_id ≢ []
  pub claim : ltb_ℤ (pos 0) c.claim_timeout ≡ true
  pub ttl : ltb_ℤ (pos 0) c.dedup_ttl ≡ true
  pub retention : ltb_ℤ (pos 0) c.failed_retention ≡ true
  pub workers : ltb_ℤ (pos 0) c.concurrency ≡ true
  pub delays : c.default_backoff ≢ none

positive_or-pos : (d x : ℤ) → ltb_ℤ (pos 0) d ≡ true → ltb_ℤ (pos 0) (positive_or d x) ≡ true
unfolding positive_or
positive_or-pos d x h = ground arith

positive_or-set : (d x : ℤ) → ltb_ℤ (pos 0) x ≡ true → positive_or d x ≡ x
unfolding positive_or
positive_or-set d x h = ground arith

text_or-ne : (s : Bytes) → text_or (codes "default") s ≢ []
unfolding text_or
text_or-ne [] e = cc
text_or-ne (x ∷ s) e = cc

text_or-set : (d s : Bytes) → s ≢ [] → text_or d s ≡ s
unfolding text_or
text_or-set d [] h = absurd (h refl)
text_or-set d (x ∷ s) h = refl

pub with_defaults-IsReady : (c : Config) → IsReady (with_defaults c)
unfolding with_defaults
with_defaults-IsReady c = record {
  retries = positive_or-pos _ c.default_max_retries refl;
  named = text_or-ne c.worker_id;
  claim = positive_or-pos _ c.claim_timeout refl;
  ttl = positive_or-pos _ c.dedup_ttl refl;
  retention = positive_or-pos _ c.failed_retention refl;
  workers = positive_or-pos _ c.concurrency refl;
  delays = λ e. cc;
}

backoff-set : (d : Backoff) (o : Option Backoff) → o ≢ none → some (backoff_or d o) ≡ o
unfolding backoff_or
backoff-set d none h = absurd (h refl)
backoff-set d (some b) h = refl

-- A configuration that is ready is kept as it is, so that the defaults of New and of newStore
-- agree.
pub with_defaults_keep : (c : Config) → IsReady c → with_defaults c ≡ c
unfolding with_defaults
with_defaults_keep c r = λ i. record c {
  default_max_retries = positive_or-set (pos 5) c.default_max_retries r.retries i;
  default_backoff = backoff-set (linear (pos second)) c.default_backoff r.delays i;
  worker_id = text_or-set (codes "default") c.worker_id r.named i;
  claim_timeout = positive_or-set (pos (300 * second)) c.claim_timeout r.claim i;
  dedup_ttl = positive_or-set (pos (24 * 3600 * second)) c.dedup_ttl r.ttl i;
  failed_retention =
      positive_or-set (pos (7 * 24 * 3600 * second)) c.failed_retention r.retention i;
  concurrency = positive_or-set (pos 10) c.concurrency r.workers i;
}

-- So they may be filled in twice, as New and newStore do.
pub with_defaults_idem : (c : Config) → with_defaults (with_defaults c) ≡ with_defaults c
with_defaults_idem c = with_defaults_keep (with_defaults c) (with_defaults-IsReady c)

pub with_defaults_name : (c : Config) → (with_defaults c).name ≡ c.name
unfolding with_defaults
with_defaults_name c = refl
