-- ===== src/Sync/Push/Tests.antt =====
-- Concrete pushes.
use Prim.Native.String.{len}
use eleeveon_schools_backend.Prelude.{
  ◌≡◌, ◌≢◌, All, refl, String, Bool, true, false, some, find, [], ◌∷◌, ltb, arith,
}
use eleeveon_schools_backend.Result.{ok}
use eleeveon_schools_backend.Text.{trim}
use eleeveon_schools_backend.Json.{text, object, field, end}
use eleeveon_schools_backend.Sync.Records.{SyncRecord, is_valid_uuid}
use eleeveon_schools_backend.Sync.Pull.{SyncPullCursor}
use eleeveon_schools_backend.Sync.Pull.Pages.{follow}
use eleeveon_schools_backend.Sync.Push.{
  Incoming, Tables, find_existing_sync_record, updated, replace, upsert_record,
}
use eleeveon_schools_backend.Sync.Push.Foreign.{has_id, upsert_keeps_other_accounts}
use eleeveon_schools_backend.Sync.Push.Missed.{accepted_push_is_missed}

abbrev stored : SyncRecord
stored = record {
  id = "cloud";
  account_id = "account";
  table_name = "fees";
  local_id = "0f8fad5b-d9cb-469f-a165-70867728950e";
  cloud_id = some "cloud";
  device_id = some "laptop";
  version = 3;
  updated_at = 50;
  is_deleted = false;
  payload = object end;
}

abbrev foreign : SyncRecord
foreign = record stored { id = "theirs"; account_id = "other" }

abbrev incoming : Incoming
incoming = record {
  table_name = "fees";
  local_id = "0f8fad5b-d9cb-469f-a165-70867728950e";
  cloud_id = some "cloud";
  device_id = some "phone";
  version = 4;
  updated_at = 40;
  is_deleted = false;
  payload = field "amount" (text "12") end;
}

abbrev db : Tables
db = record { records = foreign ∷ stored ∷ []; conflicts = [] }

abbrev saved : SyncRecord
saved = updated 60 "account" incoming stored

abbrev after : Tables
after = record db { records = foreign ∷ saved ∷ [] }

valid : is_valid_uuid "0f8fad5b-d9cb-469f-a165-70867728950e" ≡ true
unfolding is_valid_uuid trim
valid = refl

existing : find_existing_sync_record "account" incoming db.records ≡ some stored
unfolding find_existing_sync_record
existing = refl

pushed : upsert_record 60 "fresh" "account" incoming db ≡ ok (after, saved)
unfolding upsert_record find_existing_sync_record is_valid_uuid trim
pushed = refl

upsert_keeps_other_accounts_example : find (has_id "theirs") after.records ≡ some foreign
upsert_keeps_other_accounts_example =
    upsert_keeps_other_accounts 60 "fresh" "account" incoming db after saved foreign
      (refl, (refl, tt)) refl pushed refl refl

-- ids ordered by their length
abbrev longer : String → String → Bool
longer a b = ltb (len b) (len a)

abbrev cursor : SyncPullCursor
cursor = record { updated_at = 50; id = "cloud" }

accepted_push_is_missed_example :
    (later : Tables) × (row : SyncRecord) × (upsert_record 60 "fresh" "account" incoming db
      ≡ ok (later, row))
    × (later.records ≡ replace row db.records)
    × (row.id ≡ "cloud")
    × All (λ r. r ≢ row) (follow longer 9 "account" ("fees" ∷ []) (some cursor) 0 100 after.records)
accepted_push_is_missed_example =
    accepted_push_is_missed longer 60 0 100 9 "fresh" "account" incoming db stored cursor
      ("fees" ∷ []) after.records refl refl valid existing refl (omega arith) (omega arith)
      (omega arith) refl (omega arith)
