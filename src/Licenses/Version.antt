-- ===== src/Licenses/Version.antt =====
-- src/licenses/utils/version.util.ts and license-policy.service.ts: versions such as `v1.2.3-beta`,
-- compared part by part, and the days of a licence. A part is a number of any size here; the
-- program's numbers are exact up to 2^53.
pub mod Order
use Prim.Native.Char.{Char, code}
use eleeveon_schools_backend.Prelude.{
  ℕ, zero, suc, ◌+◌, ◌-◌, ◌*◌, String, Bool, true, false, not, ◌&&◌, ◌||◌, Option, none, some, List,
  [], ◌∷◌, ◌==ℕ◌, ◌===◌, ltb, leb, map, if◌then◌else◌,
}
use eleeveon_schools_backend.Text.{trim, before, without_v, parse_int}
use eleeveon_schools_backend.Roles.Scope.{truthy}

abbrev to_head : Char → List String → List String
to_head c [] = (String.◌∷◌ c "") ∷ []
to_head c (part ∷ parts) = (String.◌∷◌ c part) ∷ parts

-- `.split(".")`
split_dots : String → List String
split_dots (String.◌∷◌ c s) = if code c ==ℕ 46 then "" ∷ split_dots s else to_head c (split_dots s)
split_dots _ = "" ∷ []

unfoldable pub numeric_parts : String → List ℕ
unfolding split_dots before parse_int
numeric_parts version = map parse_int (split_dots (before 45 (without_v (trim version))))

-- -1, 0 and 1
pub data Comparison : Type 0 where
  less equal greater : Comparison

abbrev pub compare_part : ℕ → ℕ → Comparison → Comparison
compare_part a b rest = if ltb b a then greater else if ltb a b then less else rest

-- the loop up to the longer length, where a part that is missing counts as 0
abbrev pub compare_parts : List ℕ → List ℕ → Comparison
compare_parts [] [] = equal
compare_parts (a ∷ as_) [] = compare_part a 0 (compare_parts as_ [])
compare_parts [] (b ∷ bs) = compare_part 0 b (compare_parts [] bs)
compare_parts (a ∷ as_) (b ∷ bs) = compare_part a b (compare_parts as_ bs)

unfoldable pub compare_versions : String → String → Comparison
unfolding numeric_parts
compare_versions left right = compare_parts (numeric_parts left) (numeric_parts right)

abbrev head_or_zero : List ℕ → ℕ
head_or_zero [] = 0
head_or_zero (a ∷ _) = a

unfoldable pub major_version : String → ℕ
unfolding numeric_parts
major_version version = head_or_zero (numeric_parts version)

abbrev pub is_less : Comparison → Bool
is_less less = true
is_less _ = false

abbrev pub is_greater : Comparison → Bool
is_greater greater = true
is_greater _ = false

-- `minimum && compareVersions(appVersion, minimum) < 0`, and the same of the maximum
abbrev pub below_minimum : String → Option String → Bool
below_minimum version none = false
below_minimum version (some minimum) =
    not (minimum === "") && is_less (compare_versions version minimum)

abbrev pub above_maximum : String → Option String → Bool
above_maximum version none = false
above_maximum version (some maximum) =
    not (maximum === "") && is_greater (compare_versions version maximum)

unfoldable pub version_within_range : String → Option String → Option String → Bool
version_within_range version minimum maximum =
    if below_minimum version minimum
    then false
    else if above_maximum version maximum
    then false
    else true
