-- ===== src/Billing/Pricing/Copies.antt =====
-- src/billing/pricing-resolution.service.ts: the number of students that an account is charged for.
use eleeveon_schools_backend.Prelude.{
  ◌≡◌, refl, inl, inr, String, Bool, true, false, ◌&&◌, ◌||◌, List, [], ◌∷◌, ◌++◌, ◌===◌, any,
  filter, includes, eq_iff, eq_refl, Bool-cases,
}
use eleeveon_schools_backend.Json.{Value}
use eleeveon_schools_backend.Billing.Pricing.{StudentRow}
use eleeveon_schools_backend.Billing.Pricing.Resolution.{
  student_id, is_counted, add_id, collect, count_students,
}

module _ (string_of : Value → String) where
  includes-add_id :
      (id other : String) (ids : List String)
      → includes id ids ≡ true
      → includes id (add_id string_of other ids) ≡ true
  includes-add_id id other ids h = elim (Bool-cases (other === "" || includes other ids)) [
    | inl e ↦ rw e h
    | inr e ↦ elim (Bool-cases (id === other)) [ inl f ↦ rw e (rw f refl) | inr f ↦ rw e (rw f h) ]
  ]

  includes-collect :
      (id : String) (rows : List StudentRow) (ids : List String)
      → includes id ids ≡ true
      → includes id (collect string_of rows ids) ≡ true
  unfolding collect
  includes-collect id [] ids h = h
  includes-collect id (row ∷ rows) ids h =
      includes-collect id rows _ (includes-add_id id (student_id string_of row) ids h)

  add_id-add_id :
      (id : String) (ids : List String)
      → (id === "") ≡ false
      → includes id (add_id string_of id ids) ≡ true
  add_id-add_id id ids h = elim (Bool-cases (includes id ids)) [
    | inl e ↦ rw h (rw e e)
    | inr e ↦ rw h (rw e (rw (eq_refl id) refl))
  ]

  abbrev is_copy : String → StudentRow → StudentRow → Bool
  is_copy account copy row =
      is_counted string_of account row && student_id string_of row === student_id string_of copy

  collect-copy :
      (account : String) (copy : StudentRow) (rows : List StudentRow) (ids : List String)
      → (student_id string_of copy === "") ≡ false
      → any (is_copy account copy) rows ≡ true
      → includes
          (student_id string_of copy)
          (collect string_of (filter (is_counted string_of account) rows) ids)
        ≡ true
  unfolding collect
  collect-copy account copy [] ids named h = cc
  collect-copy account copy (row ∷ rows) ids named h =
      elim (Bool-cases (is_counted string_of account row)) [
        | inl e ↦ elim (Bool-cases (student_id string_of row === student_id string_of copy)) [
          | inl f ↦
              let same = (eq_iff (student_id string_of row) (student_id string_of copy)).0 f in
              rw e (
                includes-collect _ (filter (is_counted string_of account) rows) _
                  (rw same (add_id-add_id (student_id string_of copy) ids named)))
          | inr f ↦ rw e (collect-copy account copy rows _ named (rw f at (rw e at h)))
        ]
        | inr e ↦ rw e (collect-copy account copy rows ids named (rw e at h))
      ]

  collect-append :
      (account : String) (copy : StudentRow) (rows : List StudentRow) (ids : List String)
      → is_counted string_of account copy ≡ true
      → collect string_of (filter (is_counted string_of account) (rows ++ copy ∷ [])) ids
        ≡ add_id string_of
            (student_id string_of copy)
            (collect string_of (filter (is_counted string_of account) rows) ids)
  unfolding collect
  collect-append account copy [] ids h = rw h refl
  collect-append account copy (row ∷ rows) ids h =
      elim (Bool-cases (is_counted string_of account row)) [
        | inl e ↦ rw e (collect-append account copy rows _ h)
        | inr e ↦ rw e (collect-append account copy rows ids h)
      ]

  -- A further live row of the account, such as the record of the same student on another device,
  -- does not change the number of students that is charged when a live row of the account with
  -- the same student identity is among the rows before it.
  pub copies_are_counted_once :
      (account : String) (copy : StudentRow) (rows : List StudentRow)
      → is_counted string_of account copy ≡ true
      → any (is_copy account copy) rows ≡ true
      → count_students string_of account (rows ++ copy ∷ []) ≡ count_students string_of account rows
  unfolding count_students
  copies_are_counted_once account copy rows counted h =
      rw (collect-append account copy rows [] counted)
        (elim (Bool-cases (student_id string_of copy === "")) [
          | inl e ↦ rw e refl
          | inr e ↦ rw e (rw (collect-copy account copy rows [] e h) refl)
        ])
