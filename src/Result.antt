-- ===== src/Result.antt =====
-- Code that may throw returns a `Result`. The exceptions are those of @nestjs/common that the
-- program throws, by class, and `error` for a plain `Error`; the messages are left out.
use eleeveon_schools_backend.Prelude.{◌≡◌, refl, ap, Bool, true, false, Option, none, some, arith}

pub data Exception : Type 0 where
  bad_request forbidden not_found conflict error : Exception

pub data Result {ℓ} (Answer : Type ℓ) : Type ℓ where
  err : Exception → Result Answer
  ok : Answer → Result Answer

-- `if (test) throw e;`
abbrev pub throw_if : Bool → Exception → Result (Unit {0})
throw_if true e = err e
throw_if false e = ok tt

-- `if (!row) throw e;`, with the row that is there
abbrev pub or_throw {ℓ} : {Row : Type ℓ} → Option Row → Exception → Result Row
or_throw none e = err e
or_throw (some row) e = ok row

infixl 5 ◌>>=◌ ◌>>◌
abbrev pub ◌>>=◌ {ℓ κ} :
    {Before : Type ℓ} {After : Type κ} → Result Before → (Before → Result After) → Result After
err thrown >>= next = err thrown
ok answer >>= next = next answer

-- the same after a step that answers nothing
abbrev pub ◌>>◌ {ℓ} : {After : Type ℓ} → Result (Unit {0}) → Result After → Result After
step >> next = step >>= λ _. next

-- Inversion of a chain that did not throw
module _ {ℓ κ} {Before : Type ℓ} {After : Type κ} where
  pub bind-eq-ok :
      (step : Result Before) (next : Before → Result After) {end : After}
      → (step >>= next) ≡ ok end
      → (answer : Before) × (step ≡ ok answer) × (next answer ≡ ok end)
  bind-eq-ok (err thrown) next done = cc
  bind-eq-ok (ok answer) next done = (answer, refl, done)

pub throw_if-eq-ok :
    {B : Type 0} (t : Bool) (e : Exception) (k : Result B) {b : B}
    → (throw_if t e >> k) ≡ ok b
    → (t ≡ false) × (k ≡ ok b)
throw_if-eq-ok true e k h = cc
throw_if-eq-ok false e k h = (refl, h)

pub or_throw-eq-ok {ℓ} :
    {Row : Type ℓ} (o : Option Row) (e : Exception) (row : Row)
    → or_throw o e ≡ ok row
    → o ≡ some row
or_throw-eq-ok none e row h = cc
or_throw-eq-ok (some other) e row h = ground arith

-- a step that answers nothing
pub guard-eq-ok {ℓ} :
    {After : Type ℓ} (guard : Result (Unit {0})) (next : Result After) {end : After}
    → (guard >> next) ≡ ok end
    → (guard ≡ ok tt) × (next ≡ ok end)
guard-eq-ok (err thrown) next h = cc
guard-eq-ok (ok tt) next h = (refl, h)

abbrev answer_or {ℓ} : {Answer : Type ℓ} → Answer → Result Answer → Answer
answer_or default (err thrown) = default
answer_or default (ok answer) = answer

pub ok_injective {ℓ} : {Answer : Type ℓ} (a b : Answer) → ok a ≡ ok b → a ≡ b
ok_injective a b h = ap (answer_or a) h

pub throw_if-passed : (t : Bool) (e : Exception) → throw_if t e ≡ ok tt → t ≡ false
throw_if-passed true e h = cc
throw_if-passed false e h = refl
