-- ===== src/Config.antt =====
-- config.go, and the defaults of messaging_admin.go: what a caller sets and what it is read as.
pub mod Defaults
use mathlib.Core.List.{foldl}
use go_messaging.Prelude.{
  ℕ, ◌*◌, ℤ, pos, Bool, Option, none, some, List, Bytes, codes, [], leb_ℤ, if◌then◌else◌,
}
use go_messaging.Backoff.{Backoff, linear}
use go_messaging.Cipher.{MessageCipher}

-- Durations are nanoseconds.
abbrev second : ℕ
second = 1_000_000_000

abbrev pub millisecond : ℕ
millisecond = 1_000_000

-- type Config struct; `none` is a nil DefaultBackoff.
pub record Config : Type 0 where
  pub name : Bytes
  pub default_max_retries : ℤ
  pub default_backoff : Option Backoff
  pub worker_id : Bytes
  pub claim_timeout : ℤ
  pub dedup_ttl : ℤ
  pub failed_retention : ℤ
  pub concurrency : ℤ
  pub handler_timeout : ℤ

-- `if c.X <= 0 { c.X = d }`
unfoldable pub positive_or : ℤ → ℤ → ℤ
positive_or d x = if leb_ℤ x (pos 0) then d else x

unfoldable text_or : Bytes → Bytes → Bytes
text_or d [] = d
text_or d s = s

unfoldable backoff_or : Backoff → Option Backoff → Backoff
backoff_or d none = d
backoff_or d (some b) = b

-- (Config).withDefaults
unfoldable pub with_defaults : Config → Config
unfolding positive_or text_or backoff_or
with_defaults c = record c {
  default_max_retries = positive_or (pos 5) c.default_max_retries;
  default_backoff = some (backoff_or (linear (pos second)) c.default_backoff);
  worker_id = text_or (codes "default") c.worker_id;
  claim_timeout = positive_or (pos (5 * 60 * second)) c.claim_timeout;
  dedup_ttl = positive_or (pos (24 * 3600 * second)) c.dedup_ttl;
  failed_retention = positive_or (pos (7 * 24 * 3600 * second)) c.failed_retention;
  concurrency = positive_or (pos 10) c.concurrency;
}

-- type options struct; the metrics and the logger are kept as the events that they receive.
pub record Options : Type 0 where
  pub backoff : Option Backoff
  pub ciphers : List MessageCipher
  pub current_cipher_version : Bytes

-- type Option: WithBackoff, WithCiphers; WithMetrics and WithLogger change where events go.
pub data Setting : Type 0 where
  with_backoff : Option Backoff → Setting
  with_ciphers : Bytes → List MessageCipher → Setting
  with_metrics with_logger : Setting

unfoldable apply_setting : Options → Setting → Options
apply_setting o (with_backoff b) = record o { backoff = b }
apply_setting o (with_ciphers v cs) = record o { ciphers = cs; current_cipher_version = v }
apply_setting o with_metrics = o
apply_setting o with_logger = o

-- applyOptions
unfoldable pub apply_options : List Setting → Options
unfolding apply_setting
apply_options =
    foldl apply_setting (record { backoff = none; ciphers = []; current_cipher_version = [] })

-- type RunnerOptions struct and its defaults; PollInterval has none.
pub record RunnerOptions : Type 0 where
  pub batch_size : ℤ
  pub poll_interval : ℤ
  pub idle_interval : ℤ

unfoldable runner_defaults : RunnerOptions → RunnerOptions
unfolding positive_or
runner_defaults o = record o {
  batch_size = positive_or (pos 50) o.batch_size;
  idle_interval = positive_or (pos (200 * millisecond)) o.idle_interval;
}

-- type PageOptions struct and its defaults.
pub record PageOptions : Type 0 where
  pub limit : ℤ
  pub offset : ℤ

pub page_defaults : PageOptions → PageOptions
unfolding positive_or
page_defaults p = record p { limit = positive_or (pos 100) p.limit }

-- type callOptions struct, WithCallTimeout and applyCallOptions: the last one given counts.
pub record CallOptions : Type 0 where
  pub handler_timeout : Option ℤ

unfoldable with_call_timeout : CallOptions → ℤ → CallOptions
with_call_timeout o d = record o { handler_timeout = some d }

pub apply_call_options : List ℤ → CallOptions
unfolding with_call_timeout
apply_call_options = foldl with_call_timeout (record { handler_timeout = none })
