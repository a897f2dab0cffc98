-- ===== src/Licenses/Version/Order.antt =====
-- Versions are ordered, and a range of versions has no holes.
use eleeveon_schools_backend.Prelude.{
  ℕ, ◌≡◌, refl, String, true, false, Option, none, some, List, [], ◌∷◌, arith,
}
use eleeveon_schools_backend.Licenses.Version.{
  Comparison, less, equal, greater, compare_parts, compare_versions, numeric_parts, is_less,
  is_greater, below_minimum, above_maximum, version_within_range,
}

abbrev pub opposite : Comparison → Comparison
opposite less = greater
opposite equal = equal
opposite greater = less

compare_parts-swap : (a b : List ℕ) → compare_parts b a ≡ opposite (compare_parts a b)
compare_parts-swap [] [] = refl
compare_parts-swap (x ∷ a) [] = ground (arith, compare_parts-swap a [])
compare_parts-swap [] (y ∷ b) = ground (arith, compare_parts-swap [] b)
compare_parts-swap (x ∷ a) (y ∷ b) = ground (arith, compare_parts-swap a b)

compare_parts_trans :
    (a b c : List ℕ)
    → is_greater (compare_parts a b) ≡ false
    → is_greater (compare_parts b c) ≡ false
    → is_greater (compare_parts a c) ≡ false
compare_parts_trans [] [] [] h k = h
compare_parts_trans [] [] (z ∷ c) h k = k
compare_parts_trans [] (y ∷ b) [] h k = refl
compare_parts_trans [] (y ∷ b) (z ∷ c) h k = ground (arith, compare_parts_trans [] b c)
compare_parts_trans (x ∷ a) [] [] h k = h
compare_parts_trans (x ∷ a) [] (z ∷ c) h k = ground (arith, compare_parts_trans a [] c)
compare_parts_trans (x ∷ a) (y ∷ b) [] h k = ground (arith, compare_parts_trans a b [])
compare_parts_trans (x ∷ a) (y ∷ b) (z ∷ c) h k = ground (arith, compare_parts_trans a b c)

-- Comparing the other way round gives the opposite.
pub compare_versions-swap :
    (left right : String) → compare_versions right left ≡ opposite (compare_versions left right)
unfolding compare_versions
compare_versions-swap left right = compare_parts-swap (numeric_parts left) (numeric_parts right)

-- Being at most as new is transitive.
pub compare_versions_trans :
    (a b c : String)
    → is_greater (compare_versions a b) ≡ false
    → is_greater (compare_versions b c) ≡ false
    → is_greater (compare_versions a c) ≡ false
unfolding compare_versions
compare_versions_trans a b c =
    compare_parts_trans (numeric_parts a) (numeric_parts b) (numeric_parts c)

less-greater : (a b : String) → is_less (compare_versions a b) ≡ is_greater (compare_versions b a)
less-greater a b = ground (arith, compare_versions-swap a b)

below_minimum_mono :
    (a x : String) (minimum : Option String)
    → is_greater (compare_versions a x) ≡ false
    → below_minimum a minimum ≡ false
    → below_minimum x minimum ≡ false
below_minimum_mono a x none h low = refl
below_minimum_mono a x (some m) h low =
    ground (arith, less-greater a m, less-greater x m, compare_versions_trans m a x)

above_maximum_mono :
    (x b : String) (maximum : Option String)
    → is_greater (compare_versions x b) ≡ false
    → above_maximum b maximum ≡ false
    → above_maximum x maximum ≡ false
above_maximum_mono x b none h high = refl
above_maximum_mono x b (some m) h high = ground (arith, compare_versions_trans x b m)

-- A range of versions, with either bound missing or not, has no holes: a version between two that
-- are within the range is within it.
pub range_is_convex :
    (low version high : String) (minimum maximum : Option String)
    → version_within_range low minimum maximum ≡ true
    → version_within_range high minimum maximum ≡ true
    → is_greater (compare_versions low version) ≡ false
    → is_greater (compare_versions version high) ≡ false
    → version_within_range version minimum maximum ≡ true
unfolding version_within_range
range_is_convex low version high minimum maximum l h above below =
    let over = below_minimum_mono low version minimum above (ground arith) in
    let under = above_maximum_mono version high maximum below (ground arith) in
    rw over (rw under refl)
