-- ===== src/Sync/Pull.antt =====
-- src/sync/sync.service.ts, the pages that `pull` answers to an owner or a platform member (the
-- branch `accountWide`) and the cursor between them. The database's order of ids is a parameter;
-- the table is given in the order of `orderBy`.
pub mod Pages
use eleeveon_schools_backend.Prelude.{
  ℕ, zero, suc, ◌+◌, ◌≡◌, String, Bool, true, false, not, ◌&&◌, ◌||◌, Option, none, some, get_or,
  List, [], ◌∷◌, ◌++◌, ◌===◌, ◌==ℕ◌, ltb, leb, filter, take, last, length, includes, if◌then◌else◌,
}
use eleeveon_schools_backend.Result.{Result, ok, err, bad_request, ◌>>=◌, ◌>>◌, throw_if}
use eleeveon_schools_backend.Number.{safe_limit}
use eleeveon_schools_backend.Text.{trim}
use eleeveon_schools_backend.Sync.Records.{SyncRecord}

pub record SyncPullCursor : Type 0 where
  pub updated_at : ℕ
  pub id : String

-- the fields of PullSyncDto that page; a number that is missing or whole
pub record PullSyncDto : Type 0 where
  pub limit : Option ℕ
  pub since : Option ℕ
  pub cursor_updated_at : Option ℕ
  pub cursor_id : Option String

abbrev pub max_sync_pull_limit : ℕ
max_sync_pull_limit = 2000

abbrev pub default_sync_pull_limit : ℕ
default_sync_pull_limit = 500

-- `cleanString`
abbrev clean_string : Option String → Option String
clean_string none = none
clean_string (some s) = if trim s === "" then none else some (trim s)

abbrev cursor_of : Option ℕ → Option String → Result (Option SyncPullCursor)
cursor_of none none = ok none
cursor_of (some u) (some i) = ok (some (record { updated_at = u; id = i }))
cursor_of _ _ = err bad_request

unfoldable pub resolve_pull_cursor : PullSyncDto → Result (Option SyncPullCursor)
resolve_pull_cursor dto = cursor_of dto.cursor_updated_at (clean_string dto.cursor_id)

pub record Page : Type 0 where
  pub records : List SyncRecord
  pub has_more : Bool
  pub next_cursor : Option SyncPullCursor

-- `above a b`: the id `a` comes after the id `b`.
module _ (above : String → String → Bool) where
  abbrev pub is_after : SyncPullCursor → SyncRecord → Bool
  is_after cursor r =
      ltb cursor.updated_at r.updated_at
      || (cursor.updated_at ==ℕ r.updated_at && above r.id cursor.id)

  -- the condition on the position: of the cursor, else of `since` where it is positive
  abbrev pub is_due : Option SyncPullCursor → ℕ → SyncRecord → Bool
  is_due (some cursor) since r = is_after cursor r
  is_due none zero r = true
  is_due none (suc since) r = ltb (suc since) r.updated_at

  abbrev pub is_selected : String → List String → SyncRecord → Bool
  is_selected account tables r = r.account_id === account && includes r.table_name tables

  -- `findMany` with `take: pageLimit + 1`
  abbrev pub find_many :
      String → List String → Option SyncPullCursor → ℕ → ℕ → List SyncRecord → List SyncRecord
  find_many account tables cursor since limit rows =
      take (suc limit) (filter (is_due cursor since) (filter (is_selected account tables) rows))

  abbrev pub to_cursor : SyncRecord → SyncPullCursor
  to_cursor r = record { updated_at = r.updated_at; id = r.id }

  abbrev pub next_cursor_of : Option SyncRecord → Option SyncPullCursor → Option SyncPullCursor
  next_cursor_of none cursor = cursor
  next_cursor_of (some r) cursor = some (to_cursor r)

  unfoldable pub page_of :
      String → List String → Option SyncPullCursor → ℕ → ℕ → List SyncRecord → Page
  page_of account tables cursor since limit rows =
      let fetched = find_many account tables cursor since limit rows in
      record {
        records = take limit fetched;
        has_more = ltb limit (length fetched);
        next_cursor = next_cursor_of (last (take limit fetched)) cursor;
      }

  -- `since` counts only without a cursor.
  abbrev pub since_of : Option SyncPullCursor → Option ℕ → ℕ
  since_of (some _) since = 0
  since_of none since = get_or since 0

  unfoldable pub pull : String → List String → PullSyncDto → List SyncRecord → Result Page
  unfolding page_of resolve_pull_cursor
  pull account tables dto rows = do
    let limit = get_or dto.limit default_sync_pull_limit
    throw_if (ltb limit 1 || ltb max_sync_pull_limit limit) bad_request
    cursor ← resolve_pull_cursor dto
    throw_if (leb safe_limit (since_of cursor dto.since)) bad_request
    ok (page_of account tables cursor (since_of cursor dto.since) limit rows)
