-- ===== src/Variant/Types.antt =====
-- Which values a type allows.
use tweaktool.Common.{ℕ, ◌%◌, ◌^◌, ◌<◌, ◌≡◌, refl, length, Bytes, IsText, if◌then◌else◌, ◌==◌}
use tweaktool.Common.Int.{ℤ, pos, negsuc}
use tweaktool.Variant.{
  VariantType, Value, Variant, null, bool, sint8, sint16, sint32, sint64, uint8, uint16, uint32,
  uint64, float, double, string, vector_sint8, vector_sint16, vector_sint32, vector_sint64,
  vector_uint8, vector_uint16, vector_uint32, vector_uint64, vector_float, vector_double, nothing,
  b, sint, uint, fp32, fp64, text, buffer, type_code,
}

-- The integers of a two's complement type with `w` value bits.
abbrev pub InRange : ℕ → ℤ → Type 0
InRange w (pos n) = n < 2 ^ w
InRange w (negsuc n) = n < 2 ^ w

abbrev pub IsVector : ℕ → Bytes → Type 0
IsVector size x = (0 < length x) × (length x % size ≡ 0)

-- A value that the constructors of the program give a variant of the type.
abbrev pub Fits : VariantType → Value → Type 0
Fits null nothing = Unit {0}
Fits bool (b x) = Unit {0}
Fits sint8 (sint x) = InRange 7 x
Fits sint16 (sint x) = InRange 15 x
Fits sint32 (sint x) = InRange 31 x
Fits sint64 (sint x) = InRange 63 x
Fits uint8 (uint x) = x < 2 ^ 8
Fits uint16 (uint x) = x < 2 ^ 16
Fits uint32 (uint x) = x < 2 ^ 32
Fits uint64 (uint x) = x < 2 ^ 64
Fits float (fp32 x) = x < 2 ^ 32
Fits double (fp64 x) = x < 2 ^ 64
Fits string (text x) = IsText x
Fits vector_sint8 (buffer x) = IsVector 1 x
Fits vector_sint16 (buffer x) = IsVector 2 x
Fits vector_sint32 (buffer x) = IsVector 4 x
Fits vector_sint64 (buffer x) = IsVector 8 x
Fits vector_uint8 (buffer x) = IsVector 1 x
Fits vector_uint16 (buffer x) = IsVector 2 x
Fits vector_uint32 (buffer x) = IsVector 4 x
Fits vector_uint64 (buffer x) = IsVector 8 x
Fits vector_float (buffer x) = IsVector 4 x
Fits vector_double (buffer x) = IsVector 8 x
Fits _ _ = ⊥

abbrev pub IsWellTyped : Variant → Type 0
IsWellTyped v = Fits v.type v.value

decode : ℕ → VariantType
decode n =
    if n == 0
    then null
    else if n == 1
    then bool
    else if n == 2
    then sint8
    else if n == 3
    then sint16
    else if n == 4
    then sint32
    else if n == 5
    then sint64
    else if n == 6
    then uint8
    else if n == 7
    then uint16
    else if n == 8
    then uint32
    else if n == 9
    then uint64
    else if n == 10
    then float
    else if n == 11
    then double
    else if n == 12
    then string
    else if n == 13
    then vector_sint8
    else if n == 14
    then vector_sint16
    else if n == 15
    then vector_sint32
    else if n == 16
    then vector_sint64
    else if n == 17
    then vector_uint8
    else if n == 18
    then vector_uint16
    else if n == 19
    then vector_uint32
    else if n == 20
    then vector_uint64
    else if n == 21
    then vector_float
    else vector_double

decode-type_code : (t : VariantType) → decode (type_code t) ≡ t
unfolding decode type_code
decode-type_code null = refl
decode-type_code _ = refl

pub type_code-injective : (s t : VariantType) → type_code s ≡ type_code t → s ≡ t
type_code-injective s t e = cc (decode-type_code s, decode-type_code t, e)
