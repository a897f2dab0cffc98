-- ===== src/Sync/Push/Foreign.antt =====
-- A push leaves the rows of other accounts alone.
use mathlib.Core.Option.{some-injective}
use eleeveon_schools_backend.Prelude.{
  ℕ, ◌≡◌, refl, sym, ap, ◌∙◌, inl, inr, String, Bool, false, not, Option, none, some, List, [], ◌∷◌,
  ◌===◌, ◌!==◌, find, All, arith, Bool-cases, eq_iff, coalesce,
}
use eleeveon_schools_backend.Result.{ok, error, bad_request, throw_if-eq-ok}
use eleeveon_schools_backend.Sync.Records.{SyncRecord, is_valid_uuid}
use eleeveon_schools_backend.Sync.Push.{
  Incoming, Tables, find_existing_sync_record, by_cloud_id, is_local, is_newer, updated, created,
  is_taken, replace, store, upsert_record,
}

abbrev pub has_id : String → SyncRecord → Bool
has_id id r = r.id === id

-- The id is a key: looking up the id of a row gives that row.
abbrev pub IsKeyed : List SyncRecord → Type 0
IsKeyed rows = All (λ (r : SyncRecord). find (has_id r.id) rows ≡ some r) rows

All-find {ℓ κ} :
    {A : Type ℓ} (P : A → Type κ) (p : A → Bool) (xs : List A) (x : A)
    → All P xs
    → find p xs ≡ some x
    → P x
All-find P p [] x all h = cc
All-find P p (y ∷ ys) x (here, later) h = elim (Bool-cases (p y)) [
  | inl e ↦ let same : y ≡ x = ground arith in rw (← same) here
  | inr e ↦ All-find P p ys x later (ground arith)
]

find_existing-keyed :
    (account : String) (incoming : Incoming) (rows : List SyncRecord) (e : SyncRecord)
    → IsKeyed rows
    → find_existing_sync_record account incoming rows ≡ some e
    → find (has_id e.id) rows ≡ some e
unfolding find_existing_sync_record
find_existing-keyed account incoming rows e keyed h =
    by_id (by_cloud_id incoming.cloud_id rows) refl h
  where
    found_by_cloud :
        (cloud : Option String) (r : SyncRecord)
        → by_cloud_id cloud rows ≡ some r
        → find (has_id r.id) rows ≡ some r
    found_by_cloud none r k = cc
    found_by_cloud (some cloud) r k =
        All-find (λ (s : SyncRecord). find (has_id s.id) rows ≡ some s) (has_id cloud) rows r keyed
          k

    by_id :
        (o : Option SyncRecord)
        → by_cloud_id incoming.cloud_id rows ≡ o
        → coalesce o (find (is_local account incoming) rows) ≡ some e
        → find (has_id e.id) rows ≡ some e
    by_id none c k =
        All-find (λ (s : SyncRecord). find (has_id s.id) rows ≡ some s) (is_local account incoming)
          rows e keyed k
    by_id (some r) c k = found_by_cloud incoming.cloud_id e (c ∙ k)

find-replace_other :
    (saved : SyncRecord) (id : String) (rows : List SyncRecord)
    → (saved.id === id) ≡ false
    → find (has_id id) (replace saved rows) ≡ find (has_id id) rows
find-replace_other saved id [] h = refl
find-replace_other saved id (r ∷ rows) h = elim (Bool-cases (r.id === saved.id)) [
  | inl e ↦
      let same : r.id ≡ saved.id = (eq_iff r.id saved.id).0 e in
      let other : (r.id === id) ≡ false = ap (λ s. s === id) same ∙ h in
      rw e (rw h (rw other (find-replace_other saved id rows h)))
  | inr e ↦ rw e (ground (arith, find-replace_other saved id rows h))
]

store_keeps :
    (now : ℕ) (fresh_id account : String) (incoming : Incoming) (o : Option SyncRecord)
    (db after : Tables) (saved r : SyncRecord)
    → find (has_id fresh_id) db.records ≡ none
    → ((e : SyncRecord) → o ≡ some e → find (has_id e.id) db.records ≡ some e)
    → store now fresh_id account incoming o db ≡ ok (after, saved)
    → find (has_id r.id) db.records ≡ some r
    → (r.account_id === account) ≡ false
    → find (has_id r.id) after.records ≡ some r
store_keeps now fresh_id account incoming none db after saved r unused keyed h found foreign =
    let (_, made) =
      throw_if-eq-ok (is_taken (created now fresh_id account incoming) db.records) error _ h in
    let e : after.records ≡ created now fresh_id account incoming ∷ db.records = ground arith in
    elim (Bool-cases (fresh_id === r.id)) [
      | inl same ↦
          let taken : find (has_id fresh_id) db.records ≡ some r =
            ap (λ i. find (has_id i) db.records) ((eq_iff fresh_id r.id).0 same) ∙ found in
          absurd (cc)
      | inr other ↦ rw e (rw other found)
    ]
store_keeps now fresh_id account incoming (some existing) db after saved r unused keyed h found
      foreign =
    let (own, stored) = throw_if-eq-ok (existing.account_id !== account) error _ h in
    elim (Bool-cases (is_newer now incoming existing)) [
      | inl newer ↦
          let (_, written) =
            throw_if-eq-ok (is_taken (updated now account incoming existing) db.records) error _
              (rw newer at stored) in
          let e : after.records ≡ replace (updated now account incoming existing) db.records =
            ground arith in
          elim (Bool-cases (existing.id === r.id)) [
            | inl same ↦
                let twice : find (has_id r.id) db.records ≡ some existing =
                  ap (λ i. find (has_id i) db.records) (sym ((eq_iff existing.id r.id).0 same))
                  ∙ keyed existing refl in
                let one : existing ≡ r = some-injective _ _ (sym twice ∙ found) in
                absurd (ground arith)
            | inr other ↦ rw e (
                find-replace_other (updated now account incoming existing) r.id db.records other
                ∙ found)
          ]
      | inr stale ↦ let e : after.records ≡ db.records = ground arith in rw e found
    ]

-- A push that is answered leaves every row of another account as it was, whichever cloud id it
-- names, where ids are keys and the id of a new row is unused.
pub upsert_keeps_other_accounts :
    (now : ℕ) (fresh_id account : String) (incoming : Incoming) (db after : Tables)
    (saved r : SyncRecord)
    → IsKeyed db.records
    → find (has_id fresh_id) db.records ≡ none
    → upsert_record now fresh_id account incoming db ≡ ok (after, saved)
    → find (has_id r.id) db.records ≡ some r
    → (r.account_id === account) ≡ false
    → find (has_id r.id) after.records ≡ some r
unfolding upsert_record
upsert_keeps_other_accounts now fresh_id account incoming db after saved r keyed unused h found
      foreign =
    let (_, identified) = throw_if-eq-ok (account === "") error _ h in
    let (_, stored) =
      throw_if-eq-ok (not (is_valid_uuid incoming.local_id)) bad_request _ identified in
    store_keeps now fresh_id account incoming
      (find_existing_sync_record account incoming db.records) db after saved r unused
      (λ e. find_existing-keyed account incoming db.records e keyed) stored found foreign
