-- ===== src/System/Lifecycle.antt =====
-- The life of a message as an abstract state machine: the status of its row in the hot table, if it
-- has one, and the outcomes that the archive has recorded of it, oldest first.
pub mod Rows
pub mod Updates
pub mod Ways
pub mod Purging
pub mod Statements
pub mod Refinement
use go_messaging.Prelude.{
  Bool, true, ◌≡◌, Option, none, some, List, [], ◌∷◌, ◌++◌, Bytes, if◌then◌else◌,
}
use go_messaging.Message.{
  Status, pending, processing, retry, failed, FinalStatus, final_processed, final_failed,
}
use go_messaging.Database.{HotRow, ArchiveRow, Tables}
use go_messaging.Store.Claims.{has_id}
use go_messaging.Store.Claims.Ownership.{is_copy}

-- What may happen to a message.
pub data Kind : Type 0 where
  entering : Kind
  claiming : Kind
  delaying : Kind
  failing : Kind
  requeueing : Kind
  finishing : Kind
  burying : Kind
  purging : Kind

-- A row of the hot table is claimed, put off, given up by anyone at any time, and asked for again.
pub data Moves : Kind → Status → Status → Type 0 where
  picks_up : Moves claiming pending processing
  picks_up_again : Moves claiming retry processing
  puts_off : Moves delaying processing retry
  gives_up : {s : Status} → Moves failing s failed
  asks_again : Moves requeueing failed pending

abbrev pub View : Type 0
View = Option Status × List FinalStatus

infix 40 ◌⟶⟨◌⟩◌ ◌⟶*⟨◌⟩◌
-- A message enters as PENDING. Only a PROCESSING row leaves as processed, and only a FAILED one as
-- failed; either way the archive records it. What the archive has
-- recorded may be purged from it.
pub data ◌⟶⟨◌⟩◌ : View → Kind → View → Type 0 where
  enters : {past : List FinalStatus} → (none, past) ⟶⟨ entering ⟩ (some pending, past)
  moves :
      {past : List FinalStatus} {k : Kind} {s t : Status}
      → Moves k s t
      → (some s, past) ⟶⟨ k ⟩ (some t, past)
  finishes :
      {past : List FinalStatus}
      → (some processing, past) ⟶⟨ finishing ⟩ (none, past ++ final_processed ∷ [])
  fades :
      {live : Option Status} (before : List FinalStatus) (f : FinalStatus)
      (after : List FinalStatus)
      → (live, before ++ f ∷ after) ⟶⟨ purging ⟩ (live, before ++ after)
  buries :
      {past : List FinalStatus} → (some failed, past) ⟶⟨ burying ⟩ (none, past ++ final_failed ∷ [])

-- Steps of the kinds that are allowed.
pub data ◌⟶*⟨◌⟩◌ : View → (Kind → Bool) → View → Type 0 where
  stays : {v : View} {allowed : Kind → Bool} → v ⟶*⟨ allowed ⟩ v
  goes :
      {u v w : View} {allowed : Kind → Bool} {k : Kind}
      → u ⟶*⟨ allowed ⟩ v
      → allowed k ≡ true
      → v ⟶⟨ k ⟩ w
      → u ⟶*⟨ allowed ⟩ w

-- What the tables have of a message.
unfoldable pub find_row : Bytes → List HotRow → Option HotRow
find_row id [] = none
find_row id (r ∷ rs) = let rest = find_row id rs in if has_id id r then some r else rest

unfoldable pub status_of : Option HotRow → Option Status
status_of none = none
status_of (some r) = some r.status

unfoldable pub outcomes : Bytes → List ArchiveRow → List FinalStatus
outcomes id [] = []
outcomes id (r ∷ rs) =
    let rest = outcomes id rs in if is_copy id r then r.final_status ∷ rest else rest

unfoldable pub view : Bytes → Tables → View
view id t = (status_of (find_row id t.hot), outcomes id t.archive)
