-- ===== src/Sync/Push.antt =====
-- src/sync/sync.service.ts: how a pushed record is stored (`upsertRecord`, for the tables other
-- than `students`, which its first line sends elsewhere, and the media assets). Rows are listed from the newest to the oldest creation.
-- The time, the id that the database gives to a new row, and `accountId`, which the push has set
-- to the actor's account, are arguments; a conflict is always recorded.
pub mod Foreign
pub mod Missed
mod Tests
use eleeveon_schools_backend.Prelude.{
  ℕ, ◌≡◌, String, Bool, true, false, not, ◌&&◌, ◌||◌, Option, none, some, List, [], ◌∷◌, ◌===◌,
  ◌!==◌, ◌==ℕ◌, ltb, leb, coalesce, find, any, map, if◌then◌else◌,
}
use eleeveon_schools_backend.Result.{Result, ok, err, error, bad_request, ◌>>=◌, ◌>>◌, throw_if}
use eleeveon_schools_backend.Json.{Value, Fields, undefined, text, object, put, get}
use eleeveon_schools_backend.Roles.Scope.{first_truthy}
use eleeveon_schools_backend.Sync.Records.{SyncRecord, is_valid_uuid}

-- NormalizedSyncPushRecord
pub record Incoming : Type 0 where
  pub table_name : String
  pub local_id : String
  pub cloud_id : Option String
  pub device_id : Option String
  pub version : ℕ
  pub updated_at : ℕ
  pub is_deleted : Bool
  pub payload : Fields

pub record Conflict : Type 0 where
  pub account_id : String
  pub table_name : String
  pub local_id : String
  pub cloud_id : String
  pub device_id : Option String
  pub server_payload : Value
  pub client_payload : Value

pub record Tables : Type 0 where
  pub records : List SyncRecord
  pub conflicts : List Conflict

-- `Number(x || d)`
abbrev pub number_or : ℕ → ℕ → ℕ
number_or x d = if x ==ℕ 0 then d else x

abbrev is_device : Option String → String → Bool
is_device none d = false
is_device (some e) d = e === d

abbrev is_device_of : Option String → Option String → Bool
is_device_of none e = false
is_device_of (some d) e = is_device e d

abbrev same_device : Option String → SyncRecord → Bool
same_device none r = true
same_device (some d) r = is_device r.device_id d

abbrev pub is_local : String → Incoming → SyncRecord → Bool
is_local account incoming r =
    (r.account_id === account && r.table_name === incoming.table_name)
    && (r.local_id === incoming.local_id && same_device incoming.device_id r)

abbrev by_cloud_id : Option String → List SyncRecord → Option SyncRecord
by_cloud_id none rows = none
by_cloud_id (some cloud) rows = find (λ r. r.id === cloud) rows

unfoldable pub find_existing_sync_record : String → Incoming → List SyncRecord → Option SyncRecord
find_existing_sync_record account incoming rows =
    coalesce (by_cloud_id incoming.cloud_id rows) (find (is_local account incoming) rows)

-- `incomingIsNewer`
abbrev pub is_newer : ℕ → Incoming → SyncRecord → Bool
is_newer now incoming existing =
    ltb existing.version (number_or incoming.version 1)
    || leb existing.updated_at (number_or incoming.updated_at now)

abbrev id_or : Option String → String → String
id_or none id = id
id_or (some cloud) id = if cloud === "" then id else cloud

-- `cloudId || existing.cloudId || existing.id`
abbrev pub stored_cloud_id : Incoming → SyncRecord → String
stored_cloud_id incoming existing =
    id_or (first_truthy incoming.cloud_id existing.cloud_id) existing.id

abbrev text_or : Option String → Value → Value
text_or none v = v
text_or (some s) v = if s === "" then v else text s

abbrev pub base_payload : String → Incoming → Fields
base_payload account incoming =
    put "cloudId" (text_or incoming.cloud_id (get incoming.payload "cloudId"))
      (put "accountId" (text account) incoming.payload)

-- the row after `syncRecord.update`; a device that is missing leaves the column
abbrev pub updated : ℕ → String → Incoming → SyncRecord → SyncRecord
updated now account incoming existing = record existing {
  table_name = incoming.table_name;
  local_id = incoming.local_id;
  cloud_id = some (stored_cloud_id incoming existing);
  device_id = coalesce incoming.device_id existing.device_id;
  version = number_or incoming.version 1;
  updated_at = number_or incoming.updated_at now;
  is_deleted = incoming.is_deleted;
  payload =
      object
        (put "cloudId" (text (stored_cloud_id incoming existing)) (base_payload account incoming));
}

abbrev pub created : ℕ → String → String → Incoming → SyncRecord
created now fresh_id account incoming = record {
  id = fresh_id;
  account_id = account;
  table_name = incoming.table_name;
  local_id = incoming.local_id;
  cloud_id = incoming.cloud_id;
  device_id = incoming.device_id;
  version = number_or incoming.version 1;
  updated_at = number_or incoming.updated_at now;
  is_deleted = incoming.is_deleted;
  payload = object (base_payload account incoming);
}

abbrev pub conflict_of : Incoming → SyncRecord → Conflict
conflict_of incoming existing = record {
  account_id = existing.account_id;
  table_name = existing.table_name;
  local_id = incoming.local_id;
  cloud_id = existing.id;
  device_id = incoming.device_id;
  server_payload = existing.payload;
  client_payload = object incoming.payload;
}

abbrev pub replace : SyncRecord → List SyncRecord → List SyncRecord
replace saved = map (λ r. if r.id === saved.id then saved else r)

-- The unique key of account, table, local id and device: rows without a device never collide.
abbrev pub shares_key : SyncRecord → SyncRecord → Bool
shares_key saved r =
    (r.account_id === saved.account_id && r.table_name === saved.table_name)
    && (r.local_id === saved.local_id && is_device_of saved.device_id r.device_id)

abbrev pub is_taken : SyncRecord → List SyncRecord → Bool
is_taken saved = any (λ r. not (r.id === saved.id) && shares_key saved r)

-- The tables and the row that is answered. The database refuses a row whose unique key another row
-- holds (P2002).
abbrev pub store :
    ℕ → String → String → Incoming → Option SyncRecord → Tables → Result (Tables × SyncRecord)
store now fresh_id account incoming none db = do
  throw_if (is_taken (created now fresh_id account incoming) db.records) error
  ok (
    record db { records = created now fresh_id account incoming ∷ db.records },
    created now fresh_id account incoming,
  )
store now fresh_id account incoming (some existing) db = do
  throw_if (existing.account_id !== account) error
  if is_newer now incoming existing
      then throw_if (is_taken (updated now account incoming existing) db.records) error
        >> ok (
          record db { records = replace (updated now account incoming existing) db.records },
          updated now account incoming existing,
        )
      else ok (record db { conflicts = conflict_of incoming existing ∷ db.conflicts }, existing)

unfoldable pub upsert_record :
    ℕ → String → String → Incoming → Tables → Result (Tables × SyncRecord)
upsert_record now fresh_id account incoming db = do
  throw_if (account === "") error
  throw_if (not (is_valid_uuid incoming.local_id)) bad_request
  store now fresh_id account incoming (find_existing_sync_record account incoming db.records) db
