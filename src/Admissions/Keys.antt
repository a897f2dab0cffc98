-- ===== src/Admissions/Keys.antt =====
-- The service looks before it writes: no request ends in the database's refusal of a unique key.
use eleeveon_schools_backend.Prelude.{String}
use eleeveon_schools_backend.Result.{Result}
