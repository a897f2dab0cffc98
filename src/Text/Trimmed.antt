-- ===== src/Text/Trimmed.antt =====
-- `trim` and `toLowerCase` may be taken in either order.
use Prim.Native.Char.{Char, code}
use Prim.Native.String.{[], ◌∷◌}
use eleeveon_schools_backend.Prelude.{
  ◌≡◌, refl, ap, sym, ◌∙◌, String, Bool, true, false, not, ◌&&◌, ◌==ℕ◌, ==ℕ_iff, inl, inr,
  Bool-cases,
}
use eleeveon_schools_backend.Text.{
  is_space, translate, lower_char, to_lower_case, trim_start, cons_unless_trailing, trim_end, trim,
}

abbrev no_spaces : String → Bool
no_spaces [] = true
no_spaces (c ∷ s) = not (is_space (code c)) && no_spaces s

first_no_space :
    (c : Char) (s : String)
    → no_spaces (c ∷ s) ≡ true
    → (is_space (code c) ≡ false) × (no_spaces s ≡ true)
first_no_space c s h = elim (Bool-cases (is_space (code c))) [
  | inl e ↦ let impossible : false ≡ true = rw e at h in cc
  | inr e ↦ (e, rw e at h)
]

is_space-translate :
    (c : Char) (us ls : String)
    → no_spaces us ≡ true
    → no_spaces ls ≡ true
    → is_space (code (translate c us ls)) ≡ is_space (code c)
unfolding translate
is_space-translate c [] ls hu hl = refl
is_space-translate c (u ∷ us) [] hu hl = refl
is_space-translate c (u ∷ us) (l ∷ ls) hu hl = elim (Bool-cases (code c ==ℕ code u)) [
  | inl e ↦
      let same = (==ℕ_iff (code c) (code u)).0 e in
      rw e ((first_no_space l ls hl).0 ∙ sym (ap is_space same ∙ (first_no_space u us hu).0))
  | inr e ↦
      rw e (is_space-translate c us ls ((first_no_space u us hu).1) ((first_no_space l ls hl).1))
]

is_space-lower_char : (c : Char) → is_space (code (lower_char c)) ≡ is_space (code c)
unfolding lower_char
is_space-lower_char c =
    is_space-translate c "ABCDEFGHIJKLMNOPQRSTUVWXYZ" "abcdefghijklmnopqrstuvwxyz" refl refl

to_lower_case-trim_start :
    (s : String) → to_lower_case (trim_start s) ≡ trim_start (to_lower_case s)
unfolding to_lower_case trim_start
to_lower_case-trim_start [] = refl
to_lower_case-trim_start (c ∷ s) = elim (Bool-cases (is_space (code c))) [
  | inl e ↦ rw (is_space-lower_char c) (rw e (to_lower_case-trim_start s))
  | inr e ↦ rw (is_space-lower_char c) (rw e refl)
]

to_lower_case-cons :
    (c : Char) (s : String)
    → to_lower_case (cons_unless_trailing c s)
      ≡ cons_unless_trailing (lower_char c) (to_lower_case s)
unfolding to_lower_case cons_unless_trailing
to_lower_case-cons c [] = elim (Bool-cases (is_space (code c))) [
  | inl e ↦ rw (is_space-lower_char c) (rw e refl)
  | inr e ↦ rw (is_space-lower_char c) (rw e refl)
]
to_lower_case-cons c (d ∷ s) = refl

to_lower_case-trim_end : (s : String) → to_lower_case (trim_end s) ≡ trim_end (to_lower_case s)
unfolding to_lower_case trim_end
to_lower_case-trim_end [] = refl
to_lower_case-trim_end (c ∷ s) =
    to_lower_case-cons c (trim_end s)
    ∙ ap (cons_unless_trailing (lower_char c)) (to_lower_case-trim_end s)

pub to_lower_case-trim : (s : String) → to_lower_case (trim s) ≡ trim (to_lower_case s)
unfolding trim
to_lower_case-trim s =
    to_lower_case-trim_end (trim_start s) ∙ ap trim_end (to_lower_case-trim_start s)
