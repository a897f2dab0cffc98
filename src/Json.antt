-- ===== src/Json.antt =====
-- Values of type `unknown` that come from stored JSON, with `undefined` for a key that is missing.
-- A number is a whole count of thousandths, or one of NaN and the infinities: numbers
-- with more than three decimals are left out.
use eleeveon_schools_backend.Prelude.{
  ℕ, ◌/◌, ◌%◌, String, Bool, true, false, ◌&&◌, List, [], ◌∷◌, ◌===◌, ◌==ℕ◌, ltb, if◌then◌else◌,
}
use eleeveon_schools_backend.Number.{ℤ, safe_limit}

pub data Number : Type 0 where
  finite : ℤ → Number
  not_finite : Number

mutual
  -- the properties of an object
  pub data Fields : Type 0 where
    end : Fields
    field : (key : String) (value : Value) (others : Fields) → Fields

  -- the elements of an array
  pub data Items : Type 0 where
    cons : (first : Value) (others : Items) → Items
    nil : Items

  pub data Value : Type 0 where
    object : Fields → Value
    array : Items → Value
    text : String → Value
    number : Number → Value
    bool : Bool → Value
    undefined null : Value

abbrev pub items : Items → List Value
items nil = []
items (cons v vs) = v ∷ items vs

-- `o.key`; keys are distinct
unfoldable pub get : Fields → String → Value
get end key = undefined
get (field k v fs) key = if k === key then v else get fs key

-- `v == null`
abbrev pub is_nullish : Value → Bool
is_nullish undefined = true
is_nullish null = true
is_nullish _ = false

-- `Number.isSafeInteger` of a number that is not negative, in thousandths
abbrev pub is_safe_integer : ℕ → Bool
is_safe_integer n = (n % 1000) ==ℕ 0 && ltb (n / 1000) safe_limit

-- `{ ...o, key: v }`
unfoldable pub put : String → Value → Fields → Fields
put key v end = field key v end
put key v (field k w fs) = if k === key then field k v fs else field k w (put key v fs)
