-- ===== src/Action.antt =====
-- A service whose writes are no transaction: a step reads the tables and writes them, and what was
-- written stays when a later step throws.
use eleeveon_schools_backend.Prelude.{◌≡◌, refl}
use eleeveon_schools_backend.Result.{Result, err, ok}

abbrev pub Action : Type 0 → Type 0 → Type 0
Action Tables Answer = Tables → Result Answer × Tables

-- a step that writes nothing
abbrev pub pure : {Tables Answer : Type 0} → Result Answer → Action Tables Answer
pure answer db = (answer, db)

-- a step that reads the tables
abbrev pub query : {Tables Answer : Type 0} → (Tables → Result Answer) → Action Tables Answer
query read db = (read db, db)

abbrev pub after :
    {Tables Before After : Type 0}
    → Result Before × Tables
    → (Before → Action Tables After)
    → Result After × Tables
after (err thrown, db) next = (err thrown, db)
after (ok answer, db) next = next answer db

infixl 5 ◌>>=◌ ◌>>◌
abbrev pub ◌>>=◌ :
    {Tables Before After : Type 0}
    → Action Tables Before
    → (Before → Action Tables After)
    → Action Tables After
step >>= next = λ db. after (step db) next

abbrev pub ◌>>◌ :
    {Tables After : Type 0} → Action Tables (Unit {0}) → Action Tables After → Action Tables After
step >> next = λ db. after (step db) (λ _. next)

-- Inversion of a step after which nothing was thrown
pub after-eq-ok :
    {Tables Before After : Type 0} (done : Result Before × Tables)
    (next : Before → Action Tables After) {answer : After} {end : Tables}
    → after done next ≡ (ok answer, end)
    → (first : Before) × (between : Tables) × (done ≡ (ok first, between))
      × (next first between ≡ (ok answer, end))
after-eq-ok (err thrown, db) next h = cc
after-eq-ok (ok first, db) next h = (first, db, refl, h)
