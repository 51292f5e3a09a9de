-- ===== src/System/Fixtures.antt =====
-- A configuration, an instance, a message and rows for the tests.
use go_messaging.Prelude.{pos, true, false, none, some, List, [], codes}
use go_messaging.Message.{Message, pending, processing, failed}
use go_messaging.Backoff.{linear}
use go_messaging.Config.{Config}
use go_messaging.Database.{HotRow, Tables, World, Engine}
use go_messaging.Store.{Store, HeaderCodec}
use go_messaging.Messaging.{Messaging}
use go_messaging.System.{no_rows}

abbrev pub config : Config
config = record {
  name = codes "asset";
  default_max_retries = pos 1;
  default_backoff = some (linear (pos 10));
  worker_id = codes "w1";
  claim_timeout = pos 1_000_000;
  dedup_ttl = pos 50;
  failed_retention = pos 1_000_000;
  concurrency = pos 2;
  handler_timeout = pos 0;
}

abbrev pub codec : HeaderCodec
codec = record { marshal = λ h. codes "{}"; unmarshal = λ b. some [] }

abbrev pub store : Store
store = record { cfg = config; cipher = none; codec = codec }

abbrev pub instance_one : Messaging
instance_one = record {
  store = store;
  cfg = config;
  backoff = none;
  saturate = λ x. pos 0;
  handlers = [];
  default_handler = none;
}

abbrev pub order : Message
order = record {
  message_id = codes "m1";
  partition_key = [];
  topic = codes "orders";
  payload = codes "1";
  headers = [];
  source = [];
  encrypted = false;
  status = pending;
  retry_count = 0;
  max_retries = pos 0;
  next_retry_at = none;
  processing_by = none;
  processing_at = none;
  created_at = 0;
  processed_at = none;
  last_error = none;
  raw_headers = none;
}

abbrev engine : Engine
engine = record {
  accepts_dedup = λ r. true;
  accepts_hot = λ r. true;
  accepts_text = λ t. true;
  jsonb = λ b. b;
}

abbrev pub world_of : Tables → World
world_of t = record {
  tables = t;
  engine = engine;
  locked = λ id. false;
  faults = [];
  now = 100;
  local_now = 100;
  seed = 0;
  events = [];
}

abbrev pub empty_world : World
empty_world = world_of no_rows

-- The row of the order as a worker has it that crashed.
abbrev pub stuck_row : HotRow
stuck_row = record {
  message_id = codes "m1";
  partition_key = none;
  topic = codes "orders";
  payload = codes "1";
  headers = none;
  source = none;
  encrypted = false;
  status = processing;
  retry_count = 0;
  max_retry = pos 1;
  next_retry_at = none;
  processing_by = some (codes "w0");
  processing_at = some 5;
  created_at = 1;
  processed_at = none;
  last_error = none;
}

abbrev pub pending_row : HotRow
pending_row = record stuck_row { status = pending; processing_by = none; processing_at = none }

abbrev pub other_row : HotRow
other_row = record pending_row { message_id = codes "m2" }

abbrev pub failed_row : HotRow
failed_row = record pending_row { status = failed; processed_at = some 9 }

abbrev pub tables_with : List HotRow → Tables
tables_with rows = record no_rows { hot = rows }
