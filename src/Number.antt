-- ===== src/Number.antt =====
-- JavaScript numbers. Amounts that are whole are ℕ, or ℤ where the code clamps a negative one.
-- Where the code computes a fraction, the 64-bit float and its operations are a parameter, with
-- what correct rounding to nearest guarantees of them.
use eleeveon_schools_backend.Prelude.{ℕ, ◌+◌, ◌*◌, ◌≤◌, ◌<◌, ◌≡◌, Option, some, max}

-- `negsuc n` is -(n + 1).
pub data ℤ : Type 0 where
  pos : ℕ → ℤ
  negsuc : ℕ → ℤ

-- `Math.max(0, x)`
abbrev pub max_zero : ℤ → ℕ
max_zero (pos n) = n
max_zero (negsuc n) = 0

-- 2 ^ 53, below which every whole number is a float
abbrev pub safe_limit : ℕ
safe_limit = 9007199254740992

pub record Float : Type 1 where
  pub Double : Type 0
  pub of_nat : ℕ → Double
  pub le : Double → Double → Type 0
  pub div : Double → Double → Double
  pub mul : Double → Double → Double
  pub floor : Double → ℕ
  pub add : Double → Double → Double
  -- `Math.max`, and `Math.round` of a number that is not negative
  pub larger : Double → Double → Double
  pub round : Double → ℕ
  -- the number, where `Number.isSafeInteger` holds of it and it is not negative
  pub safe_integer : Double → Option ℕ
  pub floor_mono : (x y : Double) → le x y → floor x ≤ floor y
  pub floor-of_nat : (n : ℕ) → n < safe_limit → floor (of_nat n) ≡ n
  -- rounding keeps order, and a whole number is its own rounding
  pub div_mono :
      (a b c : ℕ) → a ≤ b → 0 < c → le (div (of_nat a) (of_nat c)) (div (of_nat b) (of_nat c))
  pub div_self : (a : ℕ) → 0 < a → div (of_nat a) (of_nat a) ≡ of_nat 1
  pub div-zero : (c : ℕ) → 0 < c → div (of_nat 0) (of_nat c) ≡ of_nat 0
  pub mul_mono : (n : ℕ) (x y : Double) → le x y → le (mul (of_nat n) x) (mul (of_nat n) y)
  pub mul-one : (n : ℕ) → mul (of_nat n) (of_nat 1) ≡ of_nat n
  pub mul-zero : (n : ℕ) → mul (of_nat n) (of_nat 0) ≡ of_nat 0
  -- Where the result is a safe integer, the operations on whole numbers are exact.
  pub add-of_nat : (a b : ℕ) → a + b < safe_limit → add (of_nat a) (of_nat b) ≡ of_nat (a + b)
  pub mul-of_nat : (a b : ℕ) → a * b < safe_limit → mul (of_nat a) (of_nat b) ≡ of_nat (a * b)
  pub div-of_nat :
      (a c : ℕ) → 0 < c → a * c < safe_limit → div (of_nat (a * c)) (of_nat c) ≡ of_nat a
  pub larger-of_nat : (a b : ℕ) → larger (of_nat a) (of_nat b) ≡ of_nat (max a b)
  pub round-of_nat : (n : ℕ) → n < safe_limit → round (of_nat n) ≡ n
  pub safe_integer_sound :
      (x : Double) (n : ℕ) → safe_integer x ≡ some n → (x ≡ of_nat n) × (n < safe_limit)
