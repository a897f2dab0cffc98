-- ===== src/Sync/Pull/Pages.antt =====
-- The pages of a pull, followed from cursor to cursor, are the due records, each exactly once.
use eleeveon_schools_backend.Prelude.{
  ℕ, zero, suc, ◌≤◌, ◌<◌, ◌≡◌, refl, sym, String, Bool, true, false, Option, none, some, List, [],
  ◌∷◌, ◌++◌, ltb, filter, take, drop, last, length, All, if◌then◌else◌, arith, Bool-cases, inl, inr,
  ◌⊎◌, ◌∙◌, ap,
}
use eleeveon_schools_backend.Slices.{
  take-take, take-all, take-drop, length-take-suc, length-drop, All-last, All-filter,
  All-filter_self, filter-filter, filter_none, length-filter,
}
use eleeveon_schools_backend.Sync.Records.{SyncRecord}
use eleeveon_schools_backend.Sync.Pull.{
  SyncPullCursor, is_after, is_due, is_selected, to_cursor, page_of,
}

-- The database's order of ids: what comes after does not come before, and follows on.
pub record IsIdOrder (above : String → String → Bool) : Type 0 where
  pub asymmetric : (a b : String) → above a b ≡ true → above b a ≡ false
  pub transitive : (a b c : String) → above a b ≡ true → above b c ≡ true → above a c ≡ true

module _ (above : String → String → Bool) where
  -- `orderBy: [{ updatedAt: "asc" }, { id: "asc" }]`, where no two rows share an id: each row
  -- stands before all later ones by its time, or by its id at the same time.
  abbrev pub Precedes : SyncRecord → SyncRecord → Type 0
  Precedes r s =
      (r.updated_at < s.updated_at) ⊎ ((r.updated_at ≡ s.updated_at) × (above s.id r.id ≡ true))

  abbrev pub IsSorted : List SyncRecord → Type 0
  IsSorted [] = Unit
  IsSorted (r ∷ rs) = All (Precedes r) rs × IsSorted rs

  -- each row lies behind the cursor of every earlier one
  abbrev IsChained : List SyncRecord → Type 0
  IsChained [] = Unit
  IsChained (r ∷ rs) = All (λ s. is_after above (to_cursor above r) s ≡ true) rs × IsChained rs

  is_after-Precedes :
      (r s : SyncRecord) → Precedes r s → is_after above (to_cursor above r) s ≡ true
  is_after-Precedes r s (inl earlier) = ground arith
  is_after-Precedes r s (inr (same, above_id)) = ground arith

  All-Precedes :
      (r : SyncRecord) (rs : List SyncRecord)
      → All (Precedes r) rs
      → All (λ s. is_after above (to_cursor above r) s ≡ true) rs
  All-Precedes r [] all = tt
  All-Precedes r (s ∷ rs) (first, later) = (is_after-Precedes r s first, All-Precedes r rs later)

  IsSorted→IsChained : (rs : List SyncRecord) → IsSorted rs → IsChained rs
  IsSorted→IsChained [] sorted = tt
  IsSorted→IsChained (r ∷ rs) (first, later) =
      (All-Precedes r rs first, IsSorted→IsChained rs later)

  filter-IsChained :
      (q : SyncRecord → Bool) (rs : List SyncRecord) → IsChained rs → IsChained (filter q rs)
  filter-IsChained q [] sorted = tt
  filter-IsChained q (r ∷ rs) (first, later) = elim (Bool-cases (q r)) [
    | inl e ↦ rw e (
      All-filter (λ s. is_after above (to_cursor above r) s ≡ true) q rs first,
      filter-IsChained q rs later,
    )
    | inr e ↦ rw e (filter-IsChained q rs later)
  ]

  -- A client's loop: it asks for the page behind the last one as long as there is more.
  unfoldable pub follow :
      ℕ → String → List String → Option SyncPullCursor → ℕ → ℕ → List SyncRecord → List SyncRecord
  follow zero account tables cursor since limit rows = []
  follow (suc fuel) account tables cursor since limit rows =
      let page = page_of above account tables cursor since limit rows in
      let rest = follow fuel account tables page.next_cursor since limit rows in
      if page.has_more then page.records ++ rest else page.records

  module _ (order : IsIdOrder above) where
    after_asymmetric :
        (x y : SyncRecord)
        → is_after above (to_cursor above x) y ≡ true
        → is_after above (to_cursor above y) x ≡ false
    after_asymmetric x y h = ground (arith, order.asymmetric y.id x.id)

    after_self : (x : SyncRecord) → is_after above (to_cursor above x) x ≡ false
    after_self x = elim (Bool-cases (is_after above (to_cursor above x) x)) [
      | inl h ↦ after_asymmetric x x h
      | inr h ↦ h
    ]

    -- what comes after a due record is due
    due_after :
        (cursor : Option SyncPullCursor) (since : ℕ) (x y : SyncRecord)
        → is_due above cursor since x ≡ true
        → is_after above (to_cursor above x) y ≡ true
        → is_due above cursor since y ≡ true
    due_after none zero x y due h = refl
    due_after none (suc since) x y due h = ground arith
    due_after (some c) since x y due h = ground (arith, order.transitive y.id x.id c.id)

    behind_first :
        (r : SyncRecord) (rs : List SyncRecord)
        → All (λ s. is_after above (to_cursor above r) s ≡ true) rs
        → filter (is_after above (to_cursor above r)) (r ∷ rs) ≡ rs
    behind_first r rs first =
        rw (after_self r) (filter_none (is_after above (to_cursor above r)) rs first)

    -- behind the last record of a full page stands the rest
    rest_behind :
        (k : ℕ) (rs : List SyncRecord) (x : SyncRecord)
        → IsChained rs
        → last (take (suc k) rs) ≡ some x
        → filter (is_after above (to_cursor above x)) rs ≡ drop (suc k) rs
    rest_behind k [] x sorted h = cc
    rest_behind zero (r ∷ rs) x (first, later) h =
        let e : r ≡ x = ground arith in
        ap (λ z. filter (is_after above (to_cursor above z)) (r ∷ rs)) (sym e)
        ∙ behind_first r rs first
    rest_behind (suc k) (r ∷ []) x (first, later) h =
        let e : r ≡ x = ground arith in
        ap (λ z. filter (is_after above (to_cursor above z)) (r ∷ [])) (sym e)
        ∙ behind_first r [] tt
    rest_behind (suc k) (r ∷ s ∷ rs) x (first, later) h =
        let ahead =
          All-last (λ y. is_after above (to_cursor above r) y ≡ true) (suc k) (s ∷ rs) x first h in
        rw (after_asymmetric r x ahead) (rest_behind k (s ∷ rs) x later h)

    -- There is a last record where there is any.
    last-some :
        (k : ℕ) (rs : List SyncRecord)
        → 1 ≤ length rs
        → (x : SyncRecord) × (last (take (suc k) rs) ≡ some x)
    last-some k [] h = absurd (omega arith)
    last-some zero (r ∷ rs) h = (r, refl)
    last-some (suc k) (r ∷ []) h = (r, refl)
    last-some (suc k) (r ∷ s ∷ rs) h = last-some k (s ∷ rs) (omega arith)

    module _ (account : String) (tables : List String) (since : ℕ) (k : ℕ)
        (rows : List SyncRecord) where
      abbrev due_rows : Option SyncPullCursor → List SyncRecord
      due_rows cursor =
          filter (is_due above cursor since) (filter (is_selected above account tables) rows)

      due_rows-IsChained :
          (cursor : Option SyncPullCursor) → IsChained rows → IsChained (due_rows cursor)
      due_rows-IsChained cursor sorted =
          filter-IsChained (is_due above cursor since) _
            (filter-IsChained (is_selected above account tables) rows sorted)

      due_rows_behind :
          (cursor : Option SyncPullCursor) (x : SyncRecord)
          → IsChained rows
          → last (take (suc k) (due_rows cursor)) ≡ some x
          → due_rows (some (to_cursor above x)) ≡ drop (suc k) (due_rows cursor)
      due_rows_behind cursor x sorted h =
          let due =
            All-last (λ y. is_due above cursor since y ≡ true) (suc k) (due_rows cursor) x
              (All-filter_self (is_due above cursor since)
                (filter (is_selected above account tables) rows))
              h in
          sym (
            filter-filter (is_after above (to_cursor above x)) (is_due above cursor since)
              (filter (is_selected above account tables) rows)
              (λ y. due_after cursor since x y due))
          ∙ rest_behind k (due_rows cursor) x (due_rows-IsChained cursor sorted) h

      follow-due_rows :
          (fuel : ℕ) (cursor : Option SyncPullCursor)
          → IsChained rows
          → length (due_rows cursor) < fuel
          → follow fuel account tables cursor since (suc k) rows ≡ due_rows cursor
      unfolding follow page_of
      follow-due_rows zero cursor sorted h = absurd (omega arith)
      follow-due_rows (suc fuel) cursor sorted h =
          elim (Bool-cases (ltb (suc k) (length (due_rows cursor)))) [
            | inl more ↦
                let (x, final) = last-some k (due_rows cursor) (ground arith) in
                let behind = due_rows_behind cursor x sorted final in
                let shorter = length-drop k (due_rows cursor) (ground arith) in
                let fewer : length (due_rows (some (to_cursor above x))) < fuel =
                  rw behind (omega arith) in
                let next = follow-due_rows fuel (some (to_cursor above x)) sorted fewer in
                rw (length-take-suc (suc k) (due_rows cursor)) (
                  rw more (
                    rw (take-take (suc k) (due_rows cursor))
                      (rw final (rw next (rw behind (take-drop (suc k) (due_rows cursor)))))))
            | inr fits ↦ rw (length-take-suc (suc k) (due_rows cursor)) (
                rw fits (
                  rw (take-take (suc k) (due_rows cursor))
                    (take-all (suc k) (due_rows cursor) (ground arith))))
          ]

-- A client that follows the cursors from any cursor or `since`, with any page size from 1 on, and
-- makes at most one request more than there are rows, receives exactly the rows of its account
-- and tables that are due, in order, none skipped and none twice.
pub follow_is_complete :
    (above : String → String → Bool)
    → IsIdOrder above
    → (account : String) (tables : List String) (cursor : Option SyncPullCursor) (since limit : ℕ)
      (rows : List SyncRecord)
    → IsSorted above rows
    → 1 ≤ limit
    → follow above (suc (length rows)) account tables cursor since limit rows
      ≡ filter (is_due above cursor since) (filter (is_selected above account tables) rows)
follow_is_complete above order account tables cursor since zero rows sorted one =
    absurd (omega arith)
follow_is_complete above order account tables cursor since (suc k) rows sorted one =
    let selected = length-filter (is_selected above account tables) rows in
    let due =
      length-filter (is_due above cursor since) (filter (is_selected above account tables) rows) in
    follow-due_rows above order account tables since k rows (suc (length rows)) cursor
      (IsSorted→IsChained above rows sorted) (omega arith)
