-- ===== src/Admissions/Confirmed.antt =====
-- A confirmed number stays, and no number of a branch is given twice.
use eleeveon_schools_backend.Prelude.{
  ◌≡◌, refl, inl, inr, String, Bool, false, ◌||◌, Option, none, some, get_or, List, ◌===◌, ◌!==◌,
  find, arith, Option-cases, eq_refl,
}
use eleeveon_schools_backend.Result.{ok, bad_request, conflict, bind-eq-ok, throw_if-eq-ok}
use eleeveon_schools_backend.Text.{trim}
use eleeveon_schools_backend.Admissions.{
  AdmissionConfiguration, AdmissionAssignment, AdmissionAllocationArgs, Identity, Tables,
  normalize_config, of_student, create_identity, identity_of, assign_new, assign_as,
  assign_in_transaction,
}
use eleeveon_schools_backend.Admissions.Registered.{
  IsUnique, create-eq-ok, create-IsUnique, assign_new-Registers, assign_new-none,
}

-- what `assign_in_transaction` has checked when it does not throw
pub assign-eq-ok :
    {r : Tables × Option AdmissionAssignment} (db : Tables) (args : AdmissionAllocationArgs)
    → assign_in_transaction db args ≡ ok r
    → (config : AdmissionConfiguration) × (normalize_config args.config ≡ ok config)
      × (((trim args.account_id === "" || trim args.school_id === "")
            || (trim args.branch_id === "" || trim args.student_id === ""))
          ≡ false)
      × (assign_as
            (trim args.account_id)
            (trim args.school_id)
            (trim args.branch_id)
            (trim args.student_id)
            config
            (find (of_student (trim args.account_id) (trim args.student_id)) db.identities)
            db
            (trim (get_or args.supplied ""))
            args.provisional_automatic
          ≡ ok r)
unfolding assign_in_transaction
assign-eq-ok db args h =
    let (given, next) =
      throw_if-eq-ok
        ((trim args.account_id === "" || trim args.school_id === "")
          || (trim args.branch_id === "" || trim args.student_id === ""))
        bad_request _ h in
    let (config, e, assigned) = bind-eq-ok (normalize_config args.config) _ next in
    (config, e, given, assigned)

abbrev pub confirmed : AdmissionAssignment → AdmissionAssignment
confirmed a = record {
  admission_number = a.admission_number;
  normalized_number = a.normalized_number;
  assigned_automatically = false;
}

module _ (account school branch student : String) where
  -- The student is found with the numbers of the assignment, in this branch.
  abbrev IsConfirmed : Tables → AdmissionAssignment → Type 0
  IsConfirmed db a =
      (i : Identity) × (find (of_student account student) db.identities ≡ some i)
      × ((i.school_id !== school || i.branch_id !== branch) ≡ false)
      × (i.admission_number ≡ a.admission_number)
      × (i.normalized_number ≡ a.normalized_number)

  created-IsConfirmed :
      (config : AdmissionConfiguration) (rows : List Identity) (after : Tables)
      (a : AdmissionAssignment)
      → create_identity
          (identity_of account school branch student config a.admission_number a.normalized_number)
          rows
        ≡ ok after.identities
      → IsConfirmed after a
  created-IsConfirmed config rows after a h =
      let (_, _, e) =
        create-eq-ok
          (identity_of account school branch student config a.admission_number a.normalized_number)
          rows after.identities h in
      (
        identity_of account school branch student config a.admission_number a.normalized_number,
        rw e (ground (arith, eq_refl account, eq_refl student)),
        ground (arith, eq_refl school, eq_refl branch),
        refl,
        refl,
      )

  assign_as-IsConfirmed :
      (config : AdmissionConfiguration) (db after : Tables) (supplied : String) (provisional : Bool)
      (a : AdmissionAssignment)
      → assign_as account school branch student config
          (find (of_student account student) db.identities)
          db
          supplied
          provisional
        ≡ ok (after, some a)
      → IsConfirmed after a
  assign_as-IsConfirmed config db after supplied provisional a h =
      elim (Option-cases (find (of_student account student) db.identities)) [
        | inl none_yet ↦ created-IsConfirmed config db.identities after a (
            assign_new-Registers account school branch student config db after supplied provisional
              a (rw none_yet at h))
        | inr (i, found) ↦
            let here : assign_as account school branch student config (some i) db supplied
                  provisional
                ≡ ok (after, some a) =
              rw found at h in
            let (same, given) =
              throw_if-eq-ok (i.school_id !== school || i.branch_id !== branch) conflict _ here in
            (i, ground arith, same, ground arith, ground arith)
      ]

  assign_as_again :
      (config : AdmissionConfiguration) (db : Tables) (supplied : String) (provisional : Bool)
      (a : AdmissionAssignment)
      → IsConfirmed db a
      → assign_as account school branch student config
          (find (of_student account student) db.identities)
          db
          supplied
          provisional
        ≡ ok (db, some (confirmed a))
  assign_as_again config db supplied provisional a (i, found, same, number, normalized) =
      rw found (ground (arith, same))

-- Once a number is assigned to a student, every later request for that student in the same
-- branch whose configuration is accepted, whatever number it supplies, is answered with that
-- number and changes nothing.
pub confirmed_number_wins :
    (db after : Tables) (args again : AdmissionAllocationArgs) (a : AdmissionAssignment)
    (config : AdmissionConfiguration)
    → assign_in_transaction db args ≡ ok (after, some a)
    → trim again.account_id ≡ trim args.account_id
    → trim again.school_id ≡ trim args.school_id
    → trim again.branch_id ≡ trim args.branch_id
    → trim again.student_id ≡ trim args.student_id
    → normalize_config again.config ≡ ok config
    → assign_in_transaction after again ≡ ok (after, some (confirmed a))
unfolding assign_in_transaction
confirmed_number_wins db after args again a config h account school branch student accepted =
    let (_, _, given, assigned) = assign-eq-ok db args h in
    let kept =
      assign_as-IsConfirmed (trim args.account_id) (trim args.school_id) (trim args.branch_id)
        (trim args.student_id) _ db after _ _ a assigned in
    rw account (
      rw school (
        rw branch (
          rw student (
            rw given (
              rw accepted (
                assign_as_again (trim args.account_id) (trim args.school_id) (trim args.branch_id)
                  (trim args.student_id) config after (trim (get_or again.supplied ""))
                  again.provisional_automatic a kept))))))

-- An assignment, of whatever outcome, keeps the table of identities such that no student has two
-- identities and no number of a branch is held by two students.
pub assign-IsUnique :
    (db after : Tables) (args : AdmissionAllocationArgs) (o : Option AdmissionAssignment)
    → IsUnique db.identities
    → assign_in_transaction db args ≡ ok (after, o)
    → IsUnique after.identities
assign-IsUnique db after args o unique h =
    let (config, _, _, assigned) = assign-eq-ok db args h in
    elim (Option-cases
      (find (of_student (trim args.account_id) (trim args.student_id)) db.identities)) [
        | inl none_yet ↦ new_IsUnique config o (rw none_yet at assigned)
        | inr (i, found) ↦
            let here : assign_as (trim args.account_id) (trim args.school_id) (trim args.branch_id)
                  (trim args.student_id) config (some i) db (trim (get_or args.supplied ""))
                  args.provisional_automatic
                ≡ ok (after, o) =
              rw found at assigned in
            let (_, same) =
              throw_if-eq-ok
                (i.school_id !== trim args.school_id || i.branch_id !== trim args.branch_id)
                conflict _ here in
            let kept : db ≡ after = ground arith in rw (← kept) unique
      ]
  where
    new_IsUnique :
        (config : AdmissionConfiguration) (p : Option AdmissionAssignment)
        → assign_new
            (trim args.account_id)
            (trim args.school_id)
            (trim args.branch_id)
            (trim args.student_id)
            config
            db
            (trim (get_or args.supplied ""))
            args.provisional_automatic
          ≡ ok (after, p)
        → IsUnique after.identities
    new_IsUnique config none e =
        rw
          (assign_new-none (trim args.account_id) (trim args.school_id) (trim args.branch_id)
            (trim args.student_id) config db after _ _ e)
          unique
    new_IsUnique config (some a) e =
        create-IsUnique _ db.identities after.identities
          (assign_new-Registers (trim args.account_id) (trim args.school_id) (trim args.branch_id)
            (trim args.student_id) config db after _ _ a e)
          unique
