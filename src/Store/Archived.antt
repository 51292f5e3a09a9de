-- ===== src/Store/Archived.antt =====
-- store.go: archive rows as messages.
use go_messaging.Prelude.{decimal, ℕ, Option, none, some, List, [], ◌∷◌, ◌++◌, Bytes, codes}
use go_messaging.Message.{Headers, ArchivedMessage, text, wrapped}
use go_messaging.Cipher.{Result, ok, err}
use go_messaging.Database.{ArchiveRow, Act, pure, ◌>>=◌, ◌>>◌, wrapping, db_call}
use go_messaging.Store.{Store, HeaderCodec}
use go_messaging.Store.Scan.{Labels, or_empty, open_fields}

-- The assignments of scanArchivedRow.
unfoldable archived_of : ArchiveRow → ArchivedMessage
unfolding or_empty
archived_of r = record {
  id = r.id;
  message_id = r.message_id;
  partition_key = or_empty r.partition_key;
  topic = r.topic;
  payload = r.payload;
  headers = [];
  source = or_empty r.source;
  encrypted = r.encrypted;
  final_status = r.final_status;
  retry_count = r.retry_count;
  created_at = r.created_at;
  processed_at = r.processed_at;
  archived_at = r.archived_at;
  last_error = r.last_error;
  raw_headers = r.headers;
}

unfoldable archive_labels : ℕ → Labels
unfolding decimal
archive_labels id = record {
  no_cipher = codes "message: decrypt archive " ++ decimal id;
  of_payload = codes "message: decrypt archive payload " ++ decimal id;
  of_headers = codes "message: decrypt archive headers " ++ decimal id;
  of_json = codes "message: unmarshal archive headers " ++ decimal id;
}

unfoldable set_archived_headers :
    Labels → ArchivedMessage → Option Headers → Result (Unit {0}) × ArchivedMessage
set_archived_headers l m none = (err (wrapped l.of_json (text (codes "invalid headers"))), m)
set_archived_headers l m (some hs) = (ok tt, record m { headers = hs })

unfoldable settle_archived :
    HeaderCodec
    → Labels
    → ArchivedMessage
    → Result (Bytes × Option Bytes)
    → Result (Unit {0}) × ArchivedMessage
unfolding set_archived_headers
settle_archived c l m (err e) = (err e, m)
settle_archived c l m (ok (p, none)) = (ok tt, record m { payload = p; raw_headers = none })
settle_archived c l m (ok (p, some h)) =
    set_archived_headers l (record m { payload = p; raw_headers = none }) (c.unmarshal h)

-- (*store).hydrateArchived
unfoldable hydrate_archived : Store → ArchivedMessage → Result (Unit {0}) × ArchivedMessage
unfolding open_fields settle_archived archive_labels
hydrate_archived s m =
    let l = archive_labels m.id in
    settle_archived s.codec l m (open_fields l s.cipher m.encrypted m.payload m.raw_headers)

-- (*store).hydrateArchivedSafe
unfoldable hydrate_archived_safe : Store → ArchivedMessage → ArchivedMessage
hydrate_archived_safe s m = (hydrate_archived s m).1

-- scanArchivedRow
unfoldable scan_archived_row : ArchiveRow → Act ArchivedMessage
unfolding archived_of
scan_archived_row r = do wrapping (codes "message: scan archive row") db_call; pure (archived_of r)

-- (*store).scanArchivedSafe
pub scan_archived_safe : Store → List ArchiveRow → Act (List ArchivedMessage)
unfolding scan_archived_row hydrate_archived_safe hydrate_archived
scan_archived_safe s [] = do db_call; pure []
scan_archived_safe s (r ∷ rs) = do
  m ← scan_archived_row r
  ms ← scan_archived_safe s rs
  pure (hydrate_archived_safe s m ∷ ms)
