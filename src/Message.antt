-- ===== src/Message.antt =====
-- message.go, errors.go, logger.go, metrics.go: the rows, their states, the errors of the package,
-- and the events that it reports to the logger and to the metrics.
use go_messaging.Prelude.{ℕ, ℤ, Bool, true, false, Option, List, ◌++◌, Bytes, codes}

-- The states of a row of the hot table.
pub data Status : Type 0 where
  pending processing retry failed : Status

-- The outcomes that the archive records.
pub data FinalStatus : Type 0 where
  final_processed final_failed : FinalStatus

-- map[string]string; the order of the entries is the order in which they were added.
abbrev pub Headers : Type 0
Headers = List (Bytes × Bytes)

-- A time is a number of nanoseconds since the year 1, the zero of Go's time.Time.
abbrev pub Time : Type 0
Time = ℕ

-- type Message struct. `raw_headers` is the headers column between a scan and `hydrate`.
pub record Message : Type 0 where
  pub message_id : Bytes
  pub partition_key : Bytes
  pub topic : Bytes
  pub payload : Bytes
  pub headers : Headers
  pub source : Bytes
  pub encrypted : Bool
  pub status : Status
  pub retry_count : ℕ
  pub max_retries : ℤ
  pub next_retry_at : Option Time
  pub processing_by : Option Bytes
  pub processing_at : Option Time
  pub created_at : Time
  pub processed_at : Option Time
  pub last_error : Option Bytes
  pub raw_headers : Option Bytes

-- type ArchivedMessage struct
pub record ArchivedMessage : Type 0 where
  pub id : ℕ
  pub message_id : Bytes
  pub partition_key : Bytes
  pub topic : Bytes
  pub payload : Bytes
  pub headers : Headers
  pub source : Bytes
  pub encrypted : Bool
  pub final_status : FinalStatus
  pub retry_count : ℕ
  pub created_at : Time
  pub processed_at : Option Time
  pub archived_at : Time
  pub last_error : Option Bytes
  pub raw_headers : Option Bytes

-- The package's three errors, a plain text, and fmt.Errorf("<context>: %w", err).
pub data Error : Type 0 where
  err_duplicate err_not_found err_no_cipher : Error
  text : Bytes → Error
  wrapped : Bytes → Error → Error

-- err.Error()
pub error_text : Error → Bytes
error_text err_duplicate = codes "message: duplicate"
error_text err_not_found = codes "message: not found"
error_text err_no_cipher = codes "message: no cipher configured"
error_text (text s) = s
error_text (wrapped context e) = context ++ codes ": " ++ error_text e

-- err == ErrDuplicate: a wrapped error is another value.
unfoldable pub is_duplicate : Error → Bool
is_duplicate err_duplicate = true
is_duplicate _ = false

-- type LogLevel
pub data LogLevel : Type 0 where
  debug info warn error : LogLevel

-- (LogLevel).String; its default case is for numbers that are no level.
unfoldable level_name : LogLevel → Bytes
level_name debug = codes "DEBUG"
level_name info = codes "INFO"
level_name warn = codes "WARN"
level_name error = codes "ERROR"

-- The calls of the Logger (with the id of its message) and of the five methods of Metrics.
pub data Event : Type 0 where
  logged : LogLevel → Bytes → Bytes → Event
  message_processed message_retry message_failed : Bytes → Event
  dedup_hit dedup_miss : Event
