-- ===== src/Convert/Runtime.antt =====
-- What the conversions of tweak-common/src/tweakvariant.c call: the floating-point part of the C library and
-- the JSON parser (tweak-json/src/tweakjson.c over a third-party header). Floats are their bit patterns.
use tweaktool.Common.{
  ℕ, ◌^◌, ◌<◌, ◌≡◌, Bool, false, Option, some, List, [], ◌∷◌, ◌++◌, map, Bytes, All, IsText,
}
use tweaktool.Common.Int.{ℤ, pos, negsuc}
use tweaktool.Variant.{is_nan}
use tweaktool.Convert.Decimal.{print_signed}

-- The root of a document as the conversions look at it; an item of an array is its text if it is a number.
pub data Json : Type 0 where
  array_node : List (Option Bytes) → Json
  string_node : Bytes → Json
  other_node : Json

-- Texts after the first item of an array, and all texts.
abbrev pub join_more : List Bytes → Bytes
join_more [] = []
join_more (t ∷ ts) = b',' ∷ b' ' ∷ (t ++ join_more ts)

abbrev pub join : List Bytes → Bytes
join [] = []
join (t ∷ ts) = t ++ join_more ts

-- The integers that 64 bits hold, signed or not.
abbrev pub IsLong : ℤ → Type 0
IsLong (pos n) = n < 2 ^ 64
IsLong (negsuc n) = n < 2 ^ 63

pub record Runtime : Type 0 where
  -- The value, and what `endp` points at; `none` where nothing is converted.
  pub strtod : Bytes → Option (ℕ × Bytes)
  pub less : ℕ → ℕ → Bool
  -- `(int64_t) round(x)` and `(uint64_t) round(x)`, whatever they give out of range.
  pub to_int64 : ℕ → ℤ
  pub to_uint64 : ℕ → ℕ
  pub to_float : ℕ → ℕ
  pub to_double : ℕ → ℕ
  -- "%.17g"
  pub print_double : ℕ → Bytes
  pub parse_json : Bytes → Json
  pub strtod_lt : (s rest : Bytes) (x : ℕ) → strtod s ≡ some (x, rest) → x < 2 ^ 64
  pub to_float_lt : (x : ℕ) → to_float x < 2 ^ 32
  pub to_uint64_lt : (x : ℕ) → to_uint64 x < 2 ^ 64
  -- A float is a double, which 17 digits determine, but for the bits of a NaN.
  pub to_double_lt : (x : ℕ) → x < 2 ^ 32 → to_double x < 2 ^ 64
  pub to_double_number :
      (x : ℕ) → x < 2 ^ 32 → is_nan 8 23 x ≡ false → is_nan 11 52 (to_double x) ≡ false
  pub to_float-to_double : (x : ℕ) → x < 2 ^ 32 → is_nan 8 23 x ≡ false → to_float (to_double x) ≡ x
  pub strtod-print_double :
      (x : ℕ) → x < 2 ^ 64 → is_nan 11 52 x ≡ false → strtod (print_double x) ≡ some (x, [])
  -- The text of a node is a C string.
  pub parse_json-IsText : (s t : Bytes) → parse_json s ≡ string_node t → IsText t
  -- A list of integers is an array of numbers.
  pub parse_json-join :
      (zs : List ℤ)
      → All IsLong zs
      → parse_json (b'[' ∷ (join (map print_signed zs) ++ (b']' ∷ [])))
        ≡ array_node (map (λ z. some (print_signed z)) zs)
