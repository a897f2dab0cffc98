-- ===== src/Sync/Tests.antt =====
-- Concrete accounts, and a pull of three records in two pages.
use Prim.Native.String.{len}
use eleeveon_schools_backend.Prelude.{
  ℕ, inl, inr, ◌≡◌, refl, String, Bool, true, false, none, some, List, [], ◌∷◌, ltb, filter, arith,
}
use eleeveon_schools_backend.Text.{trim, to_lower_case}
use eleeveon_schools_backend.Json.{object, end}
use eleeveon_schools_backend.Sync.Policy.{
  Snapshot, offline, is_read_only_status, normalize_configured_policy, normalize_deployment_mode,
  configured_disabled,
}
use eleeveon_schools_backend.Sync.Policy.Rights.{MayWrite, status_of}
use eleeveon_schools_backend.Sync.Records.{SyncRecord}
use eleeveon_schools_backend.Sync.Pull.{is_due, is_selected, page_of}
use eleeveon_schools_backend.Sync.Pull.Pages.{IsIdOrder, IsSorted, follow, follow_is_complete}

abbrev entitled : Snapshot
entitled = record {
  sync_policy = some " Full";
  deployment_mode = some "offline";
  status = some "active";
  version = 3;
}

entitled-MayWrite : MayWrite entitled
unfolding normalize_configured_policy trim to_lower_case
entitled-MayWrite = (refl, refl)

away : normalize_deployment_mode (some "offline") ≡ offline
unfolding normalize_deployment_mode to_lower_case
away = refl

abbrev shut_out : Snapshot
shut_out = record entitled { sync_policy = some "disabled" }

abbrev lapsed : Snapshot
lapsed = record shut_out { status = some "expired" }

disabled : normalize_configured_policy (some "disabled") ≡ configured_disabled
unfolding normalize_configured_policy trim to_lower_case
disabled = refl

is_current : is_read_only_status (status_of shut_out) ≡ false
unfolding to_lower_case
is_current = refl

is_lapsed : is_read_only_status (status_of lapsed) ≡ true
unfolding to_lower_case
is_lapsed = refl

-- ids ordered by their length
abbrev longer : String → String → Bool
longer a b = ltb (len b) (len a)

longer-IsIdOrder : IsIdOrder longer
longer-IsIdOrder = record {
  asymmetric = λ a b h. ground arith;
  transitive = λ a b c h k. ground arith;
}

abbrev row : String → ℕ → String → SyncRecord
row id updated_at table = record {
  id = id;
  account_id = "account";
  table_name = table;
  local_id = id;
  cloud_id = none;
  device_id = none;
  version = 1;
  updated_at = updated_at;
  is_deleted = false;
  payload = object end;
}

abbrev rows : List SyncRecord
rows =
    row "a" 10 "students" ∷ row "bb" 10 "students" ∷ row "c" 20 "fees" ∷ row "d" 30 "students" ∷ []

rows-IsSorted : IsSorted longer rows
rows-IsSorted = (
  (inr (refl, refl), (inl (omega arith), (inl (omega arith), tt))),
  ((inl (omega arith), (inl (omega arith), tt)), ((inl (omega arith), tt), (tt, tt))),
)

followed :
    follow longer 5 "account" ("students" ∷ []) none 0 2 rows
    ≡ row "a" 10 "students" ∷ row "bb" 10 "students" ∷ row "d" 30 "students" ∷ []
unfolding follow page_of
followed = refl

follow_is_complete_example :
    follow longer 5 "account" ("students" ∷ []) none 0 2 rows
    ≡ filter (is_due longer none 0) (filter (is_selected longer "account" ("students" ∷ [])) rows)
follow_is_complete_example =
    follow_is_complete longer longer-IsIdOrder "account" ("students" ∷ []) none 0 2 rows
      rows-IsSorted (omega arith)
