-- ===== src/Sync/Records.antt =====
-- src/sync/sync.service.ts: the rows of the table SyncRecord, and the local ids that it accepts.
use Prim.Native.Char.{code}
use Prim.Native.String.{[], ◌∷◌}
use eleeveon_schools_backend.Prelude.{
  ℕ, String, Bool, true, false, ◌&&◌, ◌||◌, Option, leb, ◌==ℕ◌, if◌then◌else◌,
}
use eleeveon_schools_backend.Text.{trim}
use eleeveon_schools_backend.Json.{Value}

pub record SyncRecord : Type 0 where
  pub id : String
  pub account_id : String
  pub table_name : String
  pub local_id : String
  pub cloud_id : Option String
  pub device_id : Option String
  pub version : ℕ
  pub updated_at : ℕ
  pub is_deleted : Bool
  pub payload : Value

abbrev is_between : ℕ → ℕ → ℕ → Bool
is_between low high c = leb low c && leb c high

abbrev is_hex : ℕ → Bool
is_hex c = is_between 48 57 c || (is_between 97 102 c || is_between 65 70 c)

-- what a character of the pattern stands for: `h` is a hexadecimal digit, `v` one of 1 to 8, `n`
-- one of 8, 9, a and b, and the dash is itself
abbrev fits_char : ℕ → ℕ → Bool
fits_char p c =
    if p ==ℕ 104
    then is_hex c
    else if p ==ℕ 118
    then is_between 49 56 c
    else if p ==ℕ 110
    then is_between 56 57 c || (is_between 97 98 c || is_between 65 66 c)
    else p ==ℕ c

unfoldable pub fits_pattern : String → String → Bool
fits_pattern [] [] = true
fits_pattern [] (c ∷ s) = false
fits_pattern (p ∷ ps) [] = false
fits_pattern (p ∷ ps) (c ∷ s) = fits_char (code p) (code c) && fits_pattern ps s

unfoldable pub is_valid_uuid : String → Bool
unfolding fits_pattern
is_valid_uuid value = fits_pattern "hhhhhhhh-hhhh-vhhh-nhhh-hhhhhhhhhhhh" (trim value)
