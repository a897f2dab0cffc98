-- ===== src/Text.antt =====
-- `String.prototype.trim` and `toLowerCase`, on which the role and status aliases rest.
-- Letters are those of ASCII, and white space is what `trim` removes below code point 128 and the
-- no-break space; other letters, which no alias of the program holds, are left as they are.
pub mod Trimmed
use Prim.Native.Char.{Char, code}
use Prim.Native.String.{[], ◌∷◌, ◌++◌, len}
use eleeveon_schools_backend.Prelude.{
  ℕ, zero, suc, ◌+◌, ◌-◌, ◌*◌, ◌/◌, ◌%◌, String, Bool, ltb, ◌&&◌, ◌||◌, ◌==ℕ◌, leb, if◌then◌else◌,
}

abbrev pub is_space : ℕ → Bool
is_space c = (leb 9 c && leb c 13) || c ==ℕ 32 || c ==ℕ 160

-- `from` and `to` are walked side by side.
pub translate : Char → String → String → Char
translate c [] _ = c
translate c (_ ∷ _) [] = c
translate c (u ∷ us) (l ∷ ls) = if code c ==ℕ code u then l else translate c us ls

pub lower_char : Char → Char
unfolding translate
lower_char c = translate c "ABCDEFGHIJKLMNOPQRSTUVWXYZ" "abcdefghijklmnopqrstuvwxyz"

unfoldable pub to_lower_case : String → String
unfolding lower_char
to_lower_case [] = []
to_lower_case (c ∷ s) = lower_char c ∷ to_lower_case s

unfoldable pub to_upper_case : String → String
unfolding translate
to_upper_case [] = []
to_upper_case (c ∷ s) =
    translate c "abcdefghijklmnopqrstuvwxyz" "ABCDEFGHIJKLMNOPQRSTUVWXYZ" ∷ to_upper_case s

unfoldable pub trim_start : String → String
trim_start [] = []
trim_start (c ∷ s) = if is_space (code c) then trim_start s else c ∷ s

-- A character is kept when it is no space or when something kept follows it.
unfoldable pub cons_unless_trailing : Char → String → String
cons_unless_trailing c [] = if is_space (code c) then [] else c ∷ []
cons_unless_trailing c (d ∷ t) = c ∷ d ∷ t

unfoldable pub trim_end : String → String
unfolding cons_unless_trailing
trim_end [] = []
trim_end (c ∷ s) = cons_unless_trailing c (trim_end s)

unfoldable pub trim : String → String
unfolding trim_start trim_end
trim s = trim_end (trim_start s)

-- the one character at a position
char_at : ℕ → String → String
char_at _ [] = ""
char_at zero (c ∷ s) = c ∷ []
char_at (suc n) (_ ∷ s) = char_at n s

digit : ℕ → String
unfolding char_at
digit d = char_at d "0123456789"

-- The digits of a number, before those in `rest`; it has no more digits than its size.
digits_of : ℕ → ℕ → String → String
unfolding digit
digits_of zero n rest = rest
digits_of (suc fuel) n rest =
    let more = digits_of fuel (n / 10) (digit (n % 10) ++ rest) in
    if ltb n 10 then digit n ++ rest else more

-- `String(n)` of a whole number
unfoldable pub decimal : ℕ → String
unfolding digits_of
decimal n = digits_of (suc n) n ""

repeat : ℕ → String → String
repeat zero s = ""
repeat (suc n) s = s ++ repeat n s

-- `s.padStart(width, fill)` where `fill` is one character
unfoldable pub pad_start : String → ℕ → String → String
unfolding repeat
pad_start s width fill = repeat (width - len s) fill ++ s

-- `s.replace(/-/g, "_")`
unfoldable pub underscored : String → String
underscored [] = []
underscored (c ∷ s) = if code c ==ℕ 45 then "_" ++ underscored s else c ∷ underscored s

-- `s.split(mark)[0]` for one character, by its code
unfoldable pub before : ℕ → String → String
before mark [] = []
before mark (c ∷ s) = if code c ==ℕ mark then [] else c ∷ before mark s

-- `s.replace(/^v/i, "")`
abbrev pub without_v : String → String
without_v [] = []
without_v (c ∷ s) = if code c ==ℕ 118 || code c ==ℕ 86 then s else c ∷ s

abbrev is_digit : ℕ → Bool
is_digit c = leb 48 c && leb c 57

-- the value of the digits in front, after `n`
digits_value : ℕ → String → ℕ
digits_value n [] = n
digits_value n (c ∷ s) =
    let rest = digits_value (n * 10 + (code c - 48)) s in if is_digit (code c) then rest else n

abbrev without_plus : String → String
without_plus [] = []
without_plus (c ∷ s) = if code c ==ℕ 43 then s else c ∷ s

-- `Number.parseInt(s, 10)` of a text without a minus sign, or 0 where that is no number
unfoldable pub parse_int : String → ℕ
unfolding trim_start digits_value
parse_int s = digits_value 0 (without_plus (trim_start s))
