-- ===== src/Admissions/Allocation.antt =====
-- The automatic allocation: the first free number from the stored sequence on.
use eleeveon_schools_backend.Prelude.{
  ℕ, zero, suc, ◌+◌, ◌<◌, ◌≡◌, inl, inr, String, Bool, true, false, not, ◌&&◌, ◌||◌, Option, none,
  some, get_or, List, [], ◌∷◌, ◌===◌, ◌!==◌, leb, find, map, arith, Bool-cases, Option-cases,
  eq_refl, ◌≢◌,
}
use eleeveon_schools_backend.Result.{ok, bad_request, conflict, bind-eq-ok, throw_if-eq-ok}
use eleeveon_schools_backend.Number.{safe_limit}
use eleeveon_schools_backend.Admissions.Confirmed.{assign-eq-ok}
use eleeveon_schools_backend.Text.{trim}
use eleeveon_schools_backend.Admissions.{
  AdmissionConfiguration, AdmissionAssignment, AdmissionAllocationArgs, Sequence, Tables,
  normalize_number, normalize_config, of_student, set_next, create_identity, upsert_sequence,
  of_branch, format_number, identity_of, is_used, claim, allocate, as_conflict, claim_supplied,
  is_automatic, is_manual, fresh_sequence, assign_new, assign_as, assign_in_transaction,
}

module _ (account school branch student : String) (config : AdmissionConfiguration) where
  -- The numbers of all of `count` candidates from `first` on are taken.
  abbrev pub UsedFrom : Tables → ℕ → ℕ → Type 0
  UsedFrom db first zero = Unit
  UsedFrom db first (suc count) =
      (is_used account school branch student config db first ≡ true) × UsedFrom db (suc first) count

  -- The assignment is that of a candidate `first + skipped`, all before it being taken.
  pub record FirstFree (db after : Tables) (first : ℕ) (a : AdmissionAssignment) : Type 0 where
    pub skipped : ℕ
    pub passed : UsedFrom db first skipped
    pub free : is_used account school branch student config db (first + skipped) ≡ false
    pub safe : first + skipped < safe_limit
    pub formatted : a.admission_number ≡ format_number config (first + skipped)
    pub normalized : a.normalized_number ≡ normalize_number a.admission_number
    pub stored :
        after.sequences ≡ map (set_next account school branch (suc (first + skipped))) db.sequences

  claim-FirstFree :
      (db after : Tables) (first : ℕ) (a : AdmissionAssignment)
      → is_used account school branch student config db first ≡ false
      → first < safe_limit
      → claim account school branch student config db first ≡ ok (after, some a)
      → FirstFree db after first a
  claim-FirstFree db after first a unused small h =
      let (rows, e, same) =
        bind-eq-ok
          (create_identity
            (identity_of account school branch student config (format_number config first)
              (normalize_number (format_number config first)))
            db.identities)
          _ h in
      let here : first + 0 ≡ first = omega arith in
      record {
        skipped = 0;
        passed = tt;
        free = rw here unused;
        safe = omega arith;
        formatted = rw here (ground arith);
        normalized = ground arith;
        stored = rw here (ground arith);
      }

  after_used :
      (db after : Tables) (first : ℕ) (a : AdmissionAssignment)
      → is_used account school branch student config db first ≡ true
      → FirstFree db after (suc first) a
      → FirstFree db after first a
  after_used db after first a used next =
      let later : first + suc next.skipped ≡ suc first + next.skipped = omega arith in
      record {
        skipped = suc next.skipped;
        passed = (used, next.passed);
        free = rw later (next.free);
        safe = rw later (next.safe);
        formatted = rw later (next.formatted);
        normalized = next.normalized;
        stored = rw later (next.stored);
      }

  pub allocate-FirstFree :
      (attempts : ℕ) (db after : Tables) (candidate : ℕ) (a : AdmissionAssignment)
      → allocate account school branch student config attempts db candidate ≡ ok (after, some a)
      → FirstFree db after candidate a
  unfolding allocate
  allocate-FirstFree zero db after candidate a h = cc
  allocate-FirstFree (suc attempts) db after candidate a h =
      let (safe, numbered) = throw_if-eq-ok (leb safe_limit candidate) conflict _ h in
      let (_, tested) =
        throw_if-eq-ok (normalize_number (format_number config candidate) === "") bad_request _
          numbered in
      elim (Bool-cases (is_used account school branch student config db candidate)) [
        | inl used ↦
            after_used db after candidate a used
              (allocate-FirstFree attempts db after (suc candidate) a (ground arith))
        | inr free ↦ claim-FirstFree db after candidate a free (ground arith) (ground arith)
      ]

  abbrev pub next_of : Option Sequence → Option ℕ
  next_of none = none
  next_of (some s) = some s.next_sequence

  find-set_next :
      (next : ℕ) (rows : List Sequence) (s : Sequence)
      → find (of_branch account school branch) rows ≡ some s
      → next_of
          (find (of_branch account school branch) (map (set_next account school branch next) rows))
        ≡ some next
  find-set_next next [] s h = cc
  find-set_next next (r ∷ rows) s h = elim (Bool-cases (of_branch account school branch r)) [
    | inl here ↦ ground arith
    | inr other ↦ ground (arith, find-set_next next rows s (ground arith))
  ]

  upsert-found :
      (db : Tables)
      → find
          (of_branch account school branch)
          (upsert_sequence (fresh_sequence account school branch student config) db).1.sequences
        ≡ some (upsert_sequence (fresh_sequence account school branch student config) db).0
  unfolding upsert_sequence
  upsert-found db = elim (Option-cases (find (of_branch account school branch) db.sequences)) [
    | inl none_yet ↦ rw none_yet (ground (arith, eq_refl account, eq_refl school, eq_refl branch))
    | inr (s, found) ↦ rw found found
  ]

  abbrev pub FirstFreeOf : Tables → Tables → AdmissionAssignment → Type 0
  FirstFreeOf db after a =
      let stored = upsert_sequence (fresh_sequence account school branch student config) db in
      (found : FirstFree stored.1 after stored.0.next_sequence a) × (next_of
          (find (of_branch account school branch) after.sequences)
        ≡ some (suc (stored.0.next_sequence + found.skipped)))

  allocate-FirstFreeOf :
      (db after : Tables) (a : AdmissionAssignment)
      → allocate account school branch student config 100000
          (upsert_sequence (fresh_sequence account school branch student config) db).1
          (upsert_sequence (fresh_sequence account school branch student config) db).0.next_sequence
        ≡ ok (after, some a)
      → FirstFreeOf db after a
  allocate-FirstFreeOf db after a h =
      let stored = upsert_sequence (fresh_sequence account school branch student config) db in
      let found : FirstFree stored.1 after stored.0.next_sequence a =
        allocate-FirstFree 100000 stored.1 after stored.0.next_sequence a h in
      (found, rw (found.stored) (find-set_next _ stored.1.sequences stored.0 (upsert-found db)))

  assign_new-FirstFreeOf :
      (db after : Tables) (supplied : String) (provisional : Bool) (a : AdmissionAssignment)
      → assign_new account school branch student config db supplied provisional ≡ ok (after, some a)
      → a.assigned_automatically ≡ true
      → FirstFreeOf db after a
  unfolding assign_new
  assign_new-FirstFreeOf db after supplied provisional a h auto =
      elim (Bool-cases (not (normalize_number supplied === "") && not provisional)) [
        | inl own ↦
            let (_, claimed) =
              throw_if-eq-ok (is_automatic account school branch student config config.mode)
                bad_request _ (ground arith) in
            absurd (claim_supplied_not_automatic db after supplied a claimed auto)
        | inr other ↦
            elim (Bool-cases (is_manual account school branch student config config.mode)) [
              | inl by_hand ↦ absurd (ground arith)
              | inr numbered ↦ allocate-FirstFreeOf db after a (ground arith)
            ]
      ]
    where
      claim_supplied_not_automatic :
          (d e : Tables) (text : String) (b : AdmissionAssignment)
          → claim_supplied account school branch student config d text ≡ ok (e, some b)
          → b.assigned_automatically ≢ true
      claim_supplied_not_automatic d e text b claimed =
          let (rows, _, same) =
            bind-eq-ok
              (as_conflict account school branch student config (
                create_identity
                  (identity_of account school branch student config text (normalize_number text))
                  d.identities))
              _ claimed in
          ground arith

-- A number that is generated is the first free one: it is the branch's stored sequence (the
-- configured seed only where none is stored) or comes after it, every number between the two is
-- taken, it was not taken itself, and the stored sequence then stands right behind it.
pub generated_number_is_first_free :
    (db after : Tables) (args : AdmissionAllocationArgs) (a : AdmissionAssignment)
    → assign_in_transaction db args ≡ ok (after, some a)
    → a.assigned_automatically ≡ true
    → (config : AdmissionConfiguration) × (normalize_config args.config ≡ ok config)
      × FirstFreeOf
          (trim args.account_id)
          (trim args.school_id)
          (trim args.branch_id)
          (trim args.student_id)
          config
          db
          after
          a
generated_number_is_first_free db after args a h auto =
    let (config, accepted, _, assigned) = assign-eq-ok db args h in
    (
      config,
      accepted,
      elim (Option-cases
          (find (of_student (trim args.account_id) (trim args.student_id)) db.identities)) [
            | inl none_yet ↦
                assign_new-FirstFreeOf (trim args.account_id) (trim args.school_id)
                  (trim args.branch_id) (trim args.student_id) config db after _ _ a
                  (rw none_yet at assigned) auto
            | inr (i, found) ↦
                let here : assign_as (trim args.account_id) (trim args.school_id)
                      (trim args.branch_id) (trim args.student_id) config (some i) db
                      (trim (get_or args.supplied "")) args.provisional_automatic
                    ≡ ok (after, some a) =
                  rw found at assigned in
                let (_, same) =
                  throw_if-eq-ok
                    (i.school_id !== trim args.school_id || i.branch_id !== trim args.branch_id)
                    conflict _ here in
                absurd (ground arith)
          ],
    )
