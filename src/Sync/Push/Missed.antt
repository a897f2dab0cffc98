-- ===== src/Sync/Push/Missed.antt =====
-- A version that wins may carry an older time, and then stands behind the cursors of other devices.
use eleeveon_schools_backend.Prelude.{
  ℕ, zero, suc, ◌<◌, ◌≤◌, ◌≡◌, ◌≢◌, refl, ap, inl, inr, String, Bool, true, false, Option, none,
  some, List, [], ◌∷◌, ◌===◌, ltb, take, last, filter, length, includes, All, Bool-cases, arith,
}
use eleeveon_schools_backend.Slices.{All-take, All-append, All-map, All-filter_self, All-last}
use eleeveon_schools_backend.Result.{ok}
use eleeveon_schools_backend.Sync.Records.{SyncRecord, is_valid_uuid}
use eleeveon_schools_backend.Sync.Pull.{
  SyncPullCursor, is_after, is_selected, find_many, next_cursor_of, to_cursor, page_of,
}
use eleeveon_schools_backend.Sync.Pull.Pages.{follow}
use eleeveon_schools_backend.Sync.Push.{
  Incoming, Tables, find_existing_sync_record, is_newer, is_taken, updated, replace, upsert_record,
}

module _ (above : String → String → Bool) (time : ℕ) where
  -- later than the time
  abbrev IsLater : SyncRecord → Type 0
  IsLater r = time < r.updated_at

  is_after-IsLater :
      (c : SyncPullCursor) (r : SyncRecord)
      → time < c.updated_at
      → is_after above c r ≡ true
      → IsLater r
  is_after-IsLater c r later h = ground arith

  fetched-IsLater :
      (account : String) (tables : List String) (c : SyncPullCursor) (since limit : ℕ)
      (rows : List SyncRecord)
      → time < c.updated_at
      → All IsLater (find_many above account tables (some c) since limit rows)
  fetched-IsLater account tables c since limit rows later =
      All-take IsLater (suc limit)
        (filter (is_after above c) (filter (is_selected above account tables) rows))
        (All-map (λ r. is_after above c r ≡ true) IsLater _ (λ r. is_after-IsLater c r later)
          (All-filter_self (is_after above c) (filter (is_selected above account tables) rows)))

  from_next :
      (fuel : ℕ) (account : String) (tables : List String) (c : SyncPullCursor) (since limit : ℕ)
      (rows : List SyncRecord) (o : Option SyncRecord)
      → time < c.updated_at
      → ((r : SyncRecord) → o ≡ some r → IsLater r)
      → ((d : SyncPullCursor)
          → time < d.updated_at
          → All IsLater (follow above fuel account tables (some d) since limit rows))
      → All IsLater
          (follow above fuel account tables (next_cursor_of above o (some c)) since limit rows)
  from_next fuel account tables c since limit rows none later is_later continue = continue c later
  from_next fuel account tables c since limit rows (some r) later is_later continue =
      continue (to_cursor above r) (is_later r refl)

  -- Every page that a client follows from a cursor behind the time lies behind the time.
  follow-IsLater :
      (fuel : ℕ) (account : String) (tables : List String) (c : SyncPullCursor) (since limit : ℕ)
      (rows : List SyncRecord)
      → time < c.updated_at
      → All IsLater (follow above fuel account tables (some c) since limit rows)
  unfolding follow page_of
  follow-IsLater zero account tables c since limit rows later = tt
  follow-IsLater (suc fuel) account tables c since limit rows later =
      let fetched = find_many above account tables (some c) since limit rows in
      let all = fetched-IsLater account tables c since limit rows later in
      elim (Bool-cases (ltb limit (length fetched))) [
        | inl more ↦ rw more (
            All-append IsLater (take limit fetched) _ (All-take IsLater limit fetched all) (
              from_next fuel account tables c since limit rows (last (take limit fetched)) later
                (λ r. All-last IsLater limit fetched r all)
                (λ d. follow-IsLater fuel account tables d since limit rows)))
        | inr done ↦ rw done (All-take IsLater limit fetched all)
      ]

-- A push to a table other than students and the media assets, with a higher version and an older
-- time than the stored row of the account and with no unique key that another row holds, is accepted
-- and replaces the row; and a client whose cursor stands at the time of the old row or later is never
-- given the new one, whatever rows there are and however many pages it follows.
pub accepted_push_is_missed :
    (above : String → String → Bool) (now since limit fuel : ℕ) (fresh_id account : String)
    (incoming : Incoming) (db : Tables) (existing : SyncRecord) (cursor : SyncPullCursor)
    (tables : List String) (rows : List SyncRecord)
    → (account === "") ≡ false
    → includes incoming.table_name ("students" ∷ "mediaAssets" ∷ []) ≡ false
    → is_valid_uuid incoming.local_id ≡ true
    → find_existing_sync_record account incoming db.records ≡ some existing
    → (existing.account_id === account) ≡ true
    → existing.version < incoming.version
    → 0 < incoming.updated_at
    → incoming.updated_at < existing.updated_at
    → is_taken (updated now account incoming existing) db.records ≡ false
    → existing.updated_at ≤ cursor.updated_at
    → (after : Tables) × (saved : SyncRecord) × (upsert_record now fresh_id account incoming db
        ≡ ok (after, saved))
      × (after.records ≡ replace saved db.records)
      × (saved.id ≡ existing.id)
      × All (λ r. r ≢ saved) (follow above fuel account tables (some cursor) since limit rows)
unfolding upsert_record
accepted_push_is_missed above now since limit fuel fresh_id account incoming db existing cursor
      tables rows given plain valid found own newer timed older free passed =
    let accepted : is_newer now incoming existing ≡ true = ground arith in
    let saved = updated now account incoming existing in
    (
      record db { records = replace saved db.records },
      saved,
      rw given (rw valid (rw found (rw own (rw accepted (rw free refl))))),
      refl,
      refl,
      All-map (λ r. incoming.updated_at < r.updated_at) (λ r. r ≢ saved)
          (follow above fuel account tables (some cursor) since limit rows)
          (λ r later same. not_saved r later (ap (λ x. x.updated_at) same))
          (follow-IsLater above incoming.updated_at fuel account tables cursor since limit rows
            (omega arith)),
    )
  where
    not_saved :
        (r : SyncRecord)
        → incoming.updated_at < r.updated_at
        → ¬ (r.updated_at ≡ (updated now account incoming existing).updated_at)
    not_saved r later same = absurd (ground arith)
