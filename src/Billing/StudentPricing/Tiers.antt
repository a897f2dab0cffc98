-- ===== src/Billing/StudentPricing/Tiers.antt =====
-- Charging by tiers is charging each student at the rate of the tier that the student falls in.
use native.Mathlib.Nat.{zero-add, suc-add}
use eleeveon_schools_backend.Prelude.{
  ℕ, zero, suc, ◌+◌, ◌-◌, ◌*◌, ◌≤◌, ◌<◌, ◌≡◌, refl, true, Option, none, some, List, [], ◌∷◌, leb,
  if◌then◌else◌, arith, Bool, Bool-cases, inl, inr,
}
use eleeveon_schools_backend.Billing.StudentPricing.{Tier, reach}

-- the loop over the tiers with exact amounts
unfoldable pub charge_exactly : List Tier → ℕ → ℕ → ℕ → ℕ × ℕ
charge_exactly [] students amount assigned = (amount, assigned)
charge_exactly (tier ∷ ts) students amount assigned =
    let next = reach tier.up_to students in
    let sum = amount + (next - assigned) * tier.unit_price in
    let rest = charge_exactly ts students sum next in
    if leb students next then (sum, next) else rest

-- Thresholds grow from `last` on, and the last tier is the only unlimited one.
pub data IsLadder : ℕ → List Tier → Type 0 where
  top : {last : ℕ} (t : Tier) → t.up_to ≡ none → IsLadder last (t ∷ [])
  rung :
      {last : ℕ} {ts : List Tier} (t : Tier) (u : ℕ)
      → t.up_to ≡ some u
      → last < u
      → IsLadder u ts
      → IsLadder last (t ∷ ts)

abbrev covers : Option ℕ → ℕ → Bool
covers none s = true
covers (some u) s = leb s u

-- the unit price of the s-th student: that of the first tier which reaches so far
unfoldable pub rate_at : List Tier → ℕ → ℕ
rate_at [] s = 0
rate_at (t ∷ ts) s = if covers t.up_to s then t.unit_price else rate_at ts s

-- the rates of the k students after the first a
unfoldable pub sum_rates : List Tier → ℕ → ℕ → ℕ
sum_rates ts a zero = 0
sum_rates ts a (suc k) = rate_at ts (suc a) + sum_rates ts (suc a) k

sum_rates-add :
    (ts : List Tier) (a j k b : ℕ)
    → a + j ≡ b
    → sum_rates ts a (j + k) ≡ sum_rates ts a j + sum_rates ts b k
unfolding sum_rates
sum_rates-add ts a zero k b e =
    let same : a ≡ b = omega arith in rw same (rw zero-add (rw zero-add))
sum_rates-add ts a (suc j) k b e =
    rw suc-add (omega (arith, sum_rates-add ts (suc a) j k b (omega arith)))

-- one rate for all, where the first tier covers the last student
sum_rates_covered :
    (t : Tier) (ts : List Tier) (a k n : ℕ)
    → a + k ≡ n
    → covers t.up_to n ≡ true
    → sum_rates (t ∷ ts) a k ≡ k * t.unit_price
unfolding sum_rates rate_at
sum_rates_covered t ts a zero n e c = omega arith
sum_rates_covered t ts a (suc k) n e c =
    ground (arith, sum_rates_covered t ts (suc a) k n (omega arith) c)

-- the first tier plays no part past its threshold
sum_rates_passed :
    (t : Tier) (ts : List Tier) (a k u : ℕ)
    → t.up_to ≡ some u
    → u ≤ a
    → sum_rates (t ∷ ts) a k ≡ sum_rates ts a k
unfolding sum_rates rate_at
sum_rates_passed t ts a zero u e h = refl
sum_rates_passed t ts a (suc k) u e h =
    ground (arith, sum_rates_passed t ts (suc a) k u e (omega arith))

module _ (students : ℕ) where
  -- The loop over the tiers ends with every student assigned and each charged at the own rate.
  pub charge_of_IsLadder :
      {last : ℕ} {ts : List Tier}
      → IsLadder last ts
      → (amount : ℕ) → last < students
      → charge_exactly ts students amount last
        ≡ (amount + sum_rates ts last (students - last), students)
  unfolding charge_exactly
  charge_of_IsLadder {last} (top t e) amount h =
      ground (arith, sum_rates_covered t [] last (students - last) students (omega arith))
  charge_of_IsLadder {last} (rung {ts} t u e l next) amount h = elim (Bool-cases (leb students u)) [
    | inl below ↦
        ground (arith, sum_rates_covered t ts last (students - last) students (omega arith))
    | inr above ↦ ground (
      arith,
      charge_of_IsLadder next (amount + (u - last) * t.unit_price),
      sum_rates-add (t ∷ ts) last (u - last) (students - u) u (omega arith),
      sum_rates_covered t ts last (u - last) u (omega arith),
      sum_rates_passed t ts u (students - u) u e,
    )
  ]
