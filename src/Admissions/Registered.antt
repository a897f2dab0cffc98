-- ===== src/Admissions/Registered.antt =====
-- What an assignment does to the table of identities.
use eleeveon_schools_backend.Prelude.{
  ℕ, zero, suc, ◌≡◌, ◌≢◌, refl, inl, inr, String, Bool, true, false, not, ◌&&◌, Option, none, some,
  List, [], ◌∷◌, ◌===◌, leb, find, any, arith, Bool-cases,
}
use eleeveon_schools_backend.Result.{
  Result, ok, err, error, bad_request, conflict, ◌>>◌, throw_if, bind-eq-ok, throw_if-eq-ok,
}
use eleeveon_schools_backend.Number.{safe_limit}
use eleeveon_schools_backend.Admissions.{
  AdmissionConfiguration, AdmissionAssignment, Identity, Sequence, Tables, normalize_number,
  of_student, holds_number, create_identity, upsert_sequence, seed_sequence, of_branch,
  format_number, identity_of, is_used, claim, allocate, as_conflict, claim_supplied, is_automatic,
  is_manual, fresh_sequence, assign_new,
}

-- No student has two identities, and no number of a branch is held twice.
abbrev pub IsUnique : List Identity → Type 0
IsUnique [] = Unit
IsUnique (i ∷ rows) =
    (any (of_student i.account_id i.student_id) rows ≡ false)
    × (any (holds_number i.account_id i.school_id i.branch_id i.normalized_number) rows ≡ false)
    × IsUnique rows

pub create-eq-ok :
    (i : Identity) (rows rows' : List Identity)
    → create_identity i rows ≡ ok rows'
    → (any (of_student i.account_id i.student_id) rows ≡ false)
      × (any (holds_number i.account_id i.school_id i.branch_id i.normalized_number) rows ≡ false)
      × (rows' ≡ i ∷ rows)
unfolding create_identity
create-eq-ok i rows rows' h =
    let (student, next) =
      throw_if-eq-ok (any (of_student i.account_id i.student_id) rows) error _ h in
    let (number, same) =
      throw_if-eq-ok
        (any (holds_number i.account_id i.school_id i.branch_id i.normalized_number) rows) error _
        next in
    (student, number, ground arith)

pub create-IsUnique :
    (i : Identity) (rows rows' : List Identity)
    → create_identity i rows ≡ ok rows'
    → IsUnique rows
    → IsUnique rows'
create-IsUnique i rows rows' h u =
    let (student, number, e) = create-eq-ok i rows rows' h in rw e (student, number, u)

module _ (account school branch student : String) (config : AdmissionConfiguration) where
  -- The assignment is what the new row of the student says.
  abbrev pub Registers : Tables → Tables → AdmissionAssignment → Type 0
  Registers db after a =
      create_identity
        (identity_of account school branch student config a.admission_number a.normalized_number)
        db.identities
      ≡ ok after.identities

  claim-Registers :
      (db after : Tables) (candidate : ℕ) (a : AdmissionAssignment)
      → claim account school branch student config db candidate ≡ ok (after, some a)
      → Registers db after a
  claim-Registers db after candidate a h =
      let (rows, e, same) =
        bind-eq-ok
          (create_identity
            (identity_of account school branch student config (format_number config candidate)
              (normalize_number (format_number config candidate)))
            db.identities)
          _ h in
      ground arith

  allocate-Registers :
      (attempts : ℕ) (db after : Tables) (candidate : ℕ) (a : AdmissionAssignment)
      → allocate account school branch student config attempts db candidate ≡ ok (after, some a)
      → Registers db after a
  unfolding allocate
  allocate-Registers zero db after candidate a h = cc
  allocate-Registers (suc attempts) db after candidate a h =
      let (_, numbered) = throw_if-eq-ok (leb safe_limit candidate) conflict _ h in
      let (_, tested) =
        throw_if-eq-ok (normalize_number (format_number config candidate) === "") bad_request _
          numbered in
      elim (Bool-cases (is_used account school branch student config db candidate)) [
        | inl used ↦ allocate-Registers attempts db after (suc candidate) a (ground arith)
        | inr free ↦ claim-Registers db after candidate a (ground arith)
      ]

  as_conflict-eq-ok :
      (made : Result (List Identity)) (rows : List Identity)
      → as_conflict account school branch student config made ≡ ok rows
      → made ≡ ok rows
  as_conflict-eq-ok (ok same) rows h = h
  as_conflict-eq-ok (err thrown) rows h = cc

  claim_supplied-Registers :
      (db after : Tables) (supplied : String) (a : AdmissionAssignment)
      → claim_supplied account school branch student config db supplied ≡ ok (after, some a)
      → Registers db after a
  claim_supplied-Registers db after supplied a h =
      let (rows, e, same) =
        bind-eq-ok
          (as_conflict account school branch student config (
            create_identity
              (identity_of account school branch student config supplied
                (normalize_number supplied))
              db.identities))
          _ h in
      let kept = as_conflict-eq-ok _ rows e in ground arith

  pub upsert-identities :
      (fresh : Sequence) (db : Tables) → (upsert_sequence fresh db).1.identities ≡ db.identities
  unfolding upsert_sequence
  upsert-identities fresh db =
      seed-identities
        (find (of_branch fresh.account_id fresh.school_id fresh.branch_id) db.sequences)
    where
      seed-identities :
          (o : Option Sequence) → (seed_sequence fresh o db).1.identities ≡ db.identities
      seed-identities none = refl
      seed-identities (some s) = refl

  pub assign_new-Registers :
      (db after : Tables) (supplied : String) (provisional : Bool) (a : AdmissionAssignment)
      → assign_new account school branch student config db supplied provisional ≡ ok (after, some a)
      → Registers db after a
  unfolding assign_new
  assign_new-Registers db after supplied provisional a h =
      elim (Bool-cases (not (normalize_number supplied === "") && not provisional)) [
        | inl own ↦
            let (_, claimed) =
              throw_if-eq-ok (is_automatic account school branch student config config.mode)
                bad_request _ (ground arith) in
            claim_supplied-Registers db after supplied a claimed
        | inr other ↦
            elim (Bool-cases (is_manual account school branch student config config.mode)) [
              | inl by_hand ↦ absurd (ground arith)
              | inr numbered ↦
                  let (sequence, seeded) =
                    upsert_sequence (fresh_sequence account school branch student config) db in
                  rw (← upsert-identities (fresh_sequence account school branch student config) db)
                    (allocate-Registers 100000
                      (upsert_sequence (fresh_sequence account school branch student config) db).1
                      after
                      (upsert_sequence (fresh_sequence account school branch student config)
                        db).0.next_sequence
                      a (ground arith))
            ]
      ]

  claim-none :
      (db after : Tables) (candidate : ℕ)
      → claim account school branch student config db candidate ≢ ok (after, none)
  claim-none db after candidate h =
      let (_, _, same) =
        bind-eq-ok
          (create_identity
            (identity_of account school branch student config (format_number config candidate)
              (normalize_number (format_number config candidate)))
            db.identities)
          _ h in
      ground arith

  allocate-none :
      (attempts : ℕ) (db after : Tables) (candidate : ℕ)
      → allocate account school branch student config attempts db candidate ≢ ok (after, none)
  unfolding allocate
  allocate-none zero db after candidate h = cc
  allocate-none (suc attempts) db after candidate h =
      let (_, numbered) = throw_if-eq-ok (leb safe_limit candidate) conflict _ h in
      let (_, tested) =
        throw_if-eq-ok (normalize_number (format_number config candidate) === "") bad_request _
          numbered in
      elim (Bool-cases (is_used account school branch student config db candidate)) [
        | inl used ↦ allocate-none attempts db after (suc candidate) (ground arith)
        | inr free ↦ claim-none db after candidate (ground arith)
      ]

  claim_supplied-none :
      (db after : Tables) (supplied : String)
      → claim_supplied account school branch student config db supplied ≢ ok (after, none)
  claim_supplied-none db after supplied h =
      let (rows, e, same) =
        bind-eq-ok
          (as_conflict account school branch student config (
            create_identity
              (identity_of account school branch student config supplied
                (normalize_number supplied))
              db.identities))
          _ h in
      ground arith

  manual_none :
      (db after : Tables) (provisional : Bool)
      → (let r : Tables × Option AdmissionAssignment = (db, none) in
          throw_if provisional bad_request >> ok r)
        ≡ ok (after, none)
      → after ≡ db
  manual_none db after true h = cc
  manual_none db after false h = ground arith

  -- No number is assigned only where nothing is written.
  pub assign_new-none :
      (db after : Tables) (supplied : String) (provisional : Bool)
      → assign_new account school branch student config db supplied provisional ≡ ok (after, none)
      → after ≡ db
  unfolding assign_new
  assign_new-none db after supplied provisional h =
      elim (Bool-cases (not (normalize_number supplied === "") && not provisional)) [
        | inl own ↦
            let (_, claimed) =
              throw_if-eq-ok (is_automatic account school branch student config config.mode)
                bad_request _ (ground arith) in
            absurd (claim_supplied-none db after supplied claimed)
        | inr other ↦
            elim (Bool-cases (is_manual account school branch student config config.mode)) [
              | inl by_hand ↦ manual_none db after provisional (ground arith)
              | inr numbered ↦ absurd (
                  allocate-none 100000
                    (upsert_sequence (fresh_sequence account school branch student config) db).1
                    after
                    (upsert_sequence (fresh_sequence account school branch student config)
                      db).0.next_sequence
                    (ground arith))
            ]
      ]
