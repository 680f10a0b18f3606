-- ===== src/Variant.antt =====
-- tweak-common/include/tweak2/{types,variant}.h and tweak-common/src/tweakvariant.c: the value of a tweak.
-- A string and a vector stand for what they hold; `Text` and `Buffer` model how they are stored.
-- A float is its bit pattern.
use tweaktool.Common.{
  ℕ, zero, suc, ◌+◌, ◌-◌, ◌*◌, ◌/◌, ◌%◌, ◌^◌, Bool, true, false, not, ◌&&◌, ◌||◌, List, [], ◌∷◌,
  length, ltb, ◌==◌, if◌then◌else◌, Bytes, str_eq,
}
use tweaktool.Common.Int.{ℤ, eqb_ℤ}
pub mod Equality
pub mod Types
pub mod Copy
mod Tests

-- `tweak_variant_type`
pub data VariantType : Type 0 where
  null bool sint8 sint16 sint32 sint64 uint8 uint16 uint32 uint64 float double string : VariantType
  vector_sint8 vector_sint16 vector_sint32 vector_sint64 : VariantType
  vector_uint8 vector_uint16 vector_uint32 vector_uint64 vector_float vector_double : VariantType

-- The numbers that C gives the enumerators.
unfoldable pub type_code : VariantType → ℕ
type_code null = 0
type_code bool = 1
type_code sint8 = 2
type_code sint16 = 3
type_code sint32 = 4
type_code sint64 = 5
type_code uint8 = 6
type_code uint16 = 7
type_code uint32 = 8
type_code uint64 = 9
type_code float = 10
type_code double = 11
type_code string = 12
type_code vector_sint8 = 13
type_code vector_sint16 = 14
type_code vector_sint32 = 15
type_code vector_sint64 = 16
type_code vector_uint8 = 17
type_code vector_uint16 = 18
type_code vector_uint32 = 19
type_code vector_uint64 = 20
type_code vector_float = 21
type_code vector_double = 22

-- The union of `tweak_variant`, with the member in use: `sint` is the four signed members and `uint`
-- the four unsigned ones, whose width the type gives.
pub data Value : Type 0 where
  nothing : Value
  b : Bool → Value
  sint : ℤ → Value
  uint : ℕ → Value
  fp32 : ℕ → Value
  fp64 : ℕ → Value
  text : Bytes → Value
  buffer : Bytes → Value

pub record Variant : Type 0 where
  pub type : VariantType
  pub value : Value

-- TWEAK_VARIANT_INIT_EMPTY
abbrev pub init_empty : Variant
init_empty = record { type = null; value = nothing }

-- `==` on `float` and on `double`: false at a NaN, true at the two zeros. `e` and `m` are the widths of
-- the exponent and of the mantissa.
abbrev pub is_nan : ℕ → ℕ → ℕ → Bool
is_nan e m x = ltb ((2 ^ e - 1) * 2 ^ m) (x % 2 ^ (e + m))

unfoldable pub float_eq : ℕ → ℕ → ℕ → ℕ → Bool
float_eq e m x y =
    not (is_nan e m x)
    && not (is_nan e m y)
    && (x == y || x % 2 ^ (e + m) == 0 && y % 2 ^ (e + m) == 0)

-- The comparison of the members in use: numbers by `==`, strings by `strcmp`, vectors by `memcmp` after
-- their sizes.
unfoldable pub same_value : Value → Value → Bool
unfolding str_eq float_eq
same_value (b x) (b y) = if x then y else not y
same_value (sint x) (sint y) = eqb_ℤ x y
same_value (uint x) (uint y) = x == y
same_value (fp32 x) (fp32 y) = float_eq 8 23 x y
same_value (fp64 x) (fp64 y) = float_eq 11 52 x y
same_value (text x) (text y) = str_eq x y
same_value (buffer x) (buffer y) = if length x == length y then str_eq x y else false
same_value _ _ = false

-- Two variants at different addresses; `null != null`.
unfoldable pub is_equal : Variant → Variant → Bool
unfolding type_code same_value
is_equal u v =
    if not (type_code u.type == type_code v.type)
    then false
    else if type_code u.type == 0
    then false
    else same_value u.value v.value

-- `sizeof` of an element of a vector type, and 0 for the others.
unfoldable pub item_size : VariantType → ℕ
item_size vector_sint8 = 1
item_size vector_sint16 = 2
item_size vector_sint32 = 4
item_size vector_sint64 = 8
item_size vector_uint8 = 1
item_size vector_uint16 = 2
item_size vector_uint32 = 4
item_size vector_uint64 = 8
item_size vector_float = 4
item_size vector_double = 8
item_size _ = 0

-- `value.buffer.size`
unfoldable pub buffer_size : Value → ℕ
buffer_size (buffer x) = length x
buffer_size _ = 0

unfoldable pub get_item_count : Variant → ℕ
unfolding item_size buffer_size
get_item_count v = if item_size v.type == 0 then 1 else buffer_size v.value / item_size v.type

unfoldable pub swap : Variant → Variant → Variant × Variant
swap u v = (v, u)

unfoldable pub destroy : Variant → Variant
destroy v = init_empty
