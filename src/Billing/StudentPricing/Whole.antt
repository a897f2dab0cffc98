-- ===== src/Billing/StudentPricing/Whole.antt =====
-- Where rates are whole cedis, the floats of a quote are exact.
use native.Mathlib.Nat.{mul_assoc}
use eleeveon_schools_backend.Prelude.{
  ℕ, ◌+◌, ◌-◌, ◌*◌, ◌/◌, ◌≤◌, ◌<◌, ◌≡◌, refl, ap, ◌∙◌, inl, inr, List, [], ◌∷◌, All, leb, max,
  Bool-cases, arith,
}
use eleeveon_schools_backend.Number.{Float, safe_limit}
use eleeveon_schools_backend.Billing.StudentPricing.{Tier, reach, price_of, charge, rounded}
use eleeveon_schools_backend.Billing.StudentPricing.Tiers.{charge_exactly}

-- a count of thousandths that is a whole number of cedis, and safe
abbrev pub IsWhole : ℕ → Type 0
IsWhole n = (n ≡ n / 1000 * 1000) × (n < safe_limit)

abbrev pub HasWholeRate : Tier → Type 0
HasWholeRate t = IsWhole t.unit_price

-- the sum never falls
amount-le-charge :
    (ts : List Tier) (students amount assigned : ℕ)
    → amount ≤ (charge_exactly ts students amount assigned).0
unfolding charge_exactly
amount-le-charge [] students amount assigned = omega arith
amount-le-charge (t ∷ ts) students amount assigned =
    let next = reach t.up_to students in
    let later = amount-le-charge ts students (amount + (next - assigned) * t.unit_price) next in
    ground arith

step_is_whole :
    (a d price : ℕ)
    → price ≡ price / 1000 * 1000
    → a * 1000 + d * price ≡ (a + d * (price / 1000)) * 1000
step_is_whole a d price whole =
    let grouped = mul_assoc d (price / 1000) 1000 in ap (λ n. a * 1000 + d * n) whole ∙ omega arith

module _ (float : Float) where
  open float use {
    Double, of_nat, add, mul, div, larger, round, add-of_nat, mul-of_nat, div-of_nat, larger-of_nat,
    round-of_nat,
  }

  -- The number of students that are assigned does not depend on the amounts.
  pub charge-assigned :
      (ts : List Tier) (students : ℕ) (x : Double) (amount assigned : ℕ)
      → (charge float ts students x assigned).1 ≡ (charge_exactly ts students amount assigned).1
  unfolding charge charge_exactly
  charge-assigned [] students x amount assigned = refl
  charge-assigned (t ∷ ts) students x amount assigned =
      elim (Bool-cases (leb students (reach t.up_to students))) [
        | inl e ↦ rw e refl
        | inr e ↦ rw e (charge-assigned ts students _ _ (reach t.up_to students))
      ]

  price_of-IsWhole : (n : ℕ) → IsWhole n → price_of float n ≡ of_nat (n / 1000)
  price_of-IsWhole n (whole, safe) =
      ap (λ m. div (of_nat m) (of_nat 1000)) whole
      ∙ div-of_nat (n / 1000) 1000 (omega arith) (omega arith)

  rounded-of_nat : (n : ℕ) → n * 100 < safe_limit → rounded float (of_nat n) ≡ of_nat n
  rounded-of_nat n safe =
      ap (λ x. div (of_nat (round x)) (of_nat 100)) (mul-of_nat n 100 safe)
      ∙ (ap (λ m. div (of_nat m) (of_nat 100)) (round-of_nat (n * 100) safe)
          ∙ div-of_nat n 100 (omega arith) safe)

  step-of_nat :
      (a d price : ℕ)
      → IsWhole price
      → a * 1000 + d * price < safe_limit
      → add (of_nat a) (mul (of_nat d) (price_of float price)) ≡ of_nat (a + d * (price / 1000))
  step-of_nat a d price (whole, safe) small =
      let sum = step_is_whole a d price whole in
      ap (λ x. add (of_nat a) (mul (of_nat d) x)) (price_of-IsWhole price (whole, safe))
      ∙ (ap (λ x. add (of_nat a) x) (mul-of_nat d (price / 1000) (omega arith))
          ∙ add-of_nat a (d * (price / 1000)) (omega arith))

  pub charge-HasWholeRate :
      (ts : List Tier) (students a assigned : ℕ)
      → All HasWholeRate ts
      → (charge_exactly ts students (a * 1000) assigned).0 < safe_limit
      → charge float ts students (of_nat a) assigned ≡ (
        of_nat ((charge_exactly ts students (a * 1000) assigned).0 / 1000),
        (charge_exactly ts students (a * 1000) assigned).1,
      )
  unfolding charge charge_exactly
  charge-HasWholeRate [] students a assigned all small =
      let same : a * 1000 / 1000 ≡ a = omega arith in rw same refl
  charge-HasWholeRate (t ∷ ts) students a assigned (whole, all) small =
      let next = reach t.up_to students in
      let d = next - assigned in
      let b = a + d * (t.unit_price / 1000) in
      let exact = step_is_whole a d t.unit_price (whole.0) in
      elim (Bool-cases (leb students next)) [
        | inl e ↦
            let less : a * 1000 + d * t.unit_price < safe_limit = rw e at small in
            let back : (a * 1000 + d * t.unit_price) / 1000 ≡ b = omega arith in
            rw e (rw (step-of_nat a d t.unit_price whole less) (rw back refl))
        | inr e ↦
            let later : (charge_exactly ts students (a * 1000 + d * t.unit_price) next).0
                < safe_limit =
              rw e at small in
            let less : a * 1000 + d * t.unit_price < safe_limit =
              omega (arith, amount-le-charge ts students (a * 1000 + d * t.unit_price) next) in
            let rest : (charge_exactly ts students (b * 1000) next).0 < safe_limit =
              rw exact at later in
            rw e (
              rw (step-of_nat a d t.unit_price whole less)
                (rw exact (charge-HasWholeRate ts students b next all rest)))
      ]

  pub rounded-larger :
      (sum minimum : ℕ)
      → sum < safe_limit
      → IsWhole minimum
      → rounded float (larger (of_nat (sum / 1000)) (price_of float minimum))
        ≡ of_nat (max sum minimum / 1000)
  rounded-larger sum minimum safe (whole, small) =
      let most : max (sum / 1000) (minimum / 1000) ≡ max sum minimum / 1000 = omega arith in
      ap (λ x. rounded float (larger (of_nat (sum / 1000)) x))
        (price_of-IsWhole minimum (whole, small))
      ∙ (ap (rounded float) (larger-of_nat (sum / 1000) (minimum / 1000) ∙ ap of_nat most)
          ∙ rounded-of_nat (max sum minimum / 1000) (omega arith))
