-- ===== src/Convert/RoundTrip.antt =====
-- `tweak_variant_to_string` followed by `tweak_variant_from_string` (tweak-common/src/tweakvariant.c).
use tweaktool.Common.{◌≡◌, ap, false, Option, some, arith, ◌>>=◌}
use tweaktool.Variant.{
  VariantType, Value, Variant, null, bool, sint8, sint16, sint32, sint64, uint8, uint16, uint32,
  uint64, float, double, string, vector_sint8, vector_sint16, vector_sint32, vector_sint64,
  vector_uint8, vector_uint16, vector_uint32, vector_uint64, vector_float, vector_double, b, sint,
  uint, fp32, fp64, buffer, is_nan,
}
use tweaktool.Variant.Types.{Fits, IsWellTyped}
use tweaktool.Words.{AreBytes}
use tweaktool.Convert.Runtime.{Runtime}
use tweaktool.Convert.Parse.{Conversion, success, of, from_string}
use tweaktool.Convert.Print.{to_string}
use tweaktool.Convert.Scalars.{
  parse_bool-print, parse-sint8, parse-sint16, parse-sint32, parse-sint64, parse-uint8,
  parse-uint16, parse-uint32, parse-uint64, parse-float, parse-double,
}
use tweaktool.Convert.Vectors.{
  is_sint8, is_sint16, is_sint32, is_sint64, is_uint8, is_uint16, is_uint32, is_uint64,
  parse_vector-print,
}

-- Booleans, numbers that are not NaN and vectors of integers.
abbrev pub IsReadBack : VariantType → Value → Type 0
IsReadBack null x = ⊥
IsReadBack string x = ⊥
IsReadBack vector_float x = ⊥
IsReadBack vector_double x = ⊥
IsReadBack float (fp32 x) = is_nan 8 23 x ≡ false
IsReadBack double (fp64 x) = is_nan 11 52 x ≡ false
IsReadBack _ (buffer x) = AreBytes x
IsReadBack _ _ = Unit {0}

module _ (R : Runtime) where
  -- What is read from the printed value for its own type.
  abbrev pub reread : Variant → Option Conversion
  reread v = to_string R v.type v.value >>= λ s. some (from_string R s v.type)

  reread_lem :
      (t : VariantType) (x : Value)
      → Fits t x
      → IsReadBack t x
      → reread (of t x) ≡ some (success (of t x))
  unfolding to_string from_string
  reread_lem bool (b x) h k = ap some (parse_bool-print x)
  reread_lem sint8 (sint x) h k = ap some (parse-sint8 R x h)
  reread_lem sint16 (sint x) h k = ap some (parse-sint16 R x h)
  reread_lem sint32 (sint x) h k = ap some (parse-sint32 R x h)
  reread_lem sint64 (sint x) h k = ap some (parse-sint64 R x h)
  reread_lem uint8 (uint x) h k = ap some (parse-uint8 R x h)
  reread_lem uint16 (uint x) h k = ap some (parse-uint16 R x h)
  reread_lem uint32 (uint x) h k = ap some (parse-uint32 R x h)
  reread_lem uint64 (uint x) h k = ap some (parse-uint64 R x h)
  reread_lem float (fp32 x) h k = ap some (parse-float R x h k)
  reread_lem double (fp64 x) h k = ap some (parse-double R x h k)
  reread_lem vector_sint8 (buffer x) h k =
      ap some (parse_vector-print R is_sint8 vector_sint8 x k h.0 (omega (arith, h.1)))
  reread_lem vector_sint16 (buffer x) h k =
      ap some (parse_vector-print R is_sint16 vector_sint16 x k h.0 (omega (arith, h.1)))
  reread_lem vector_sint32 (buffer x) h k =
      ap some (parse_vector-print R is_sint32 vector_sint32 x k h.0 (omega (arith, h.1)))
  reread_lem vector_sint64 (buffer x) h k =
      ap some (parse_vector-print R is_sint64 vector_sint64 x k h.0 (omega (arith, h.1)))
  reread_lem vector_uint8 (buffer x) h k =
      ap some (parse_vector-print R is_uint8 vector_uint8 x k h.0 (omega (arith, h.1)))
  reread_lem vector_uint16 (buffer x) h k =
      ap some (parse_vector-print R is_uint16 vector_uint16 x k h.0 (omega (arith, h.1)))
  reread_lem vector_uint32 (buffer x) h k =
      ap some (parse_vector-print R is_uint32 vector_uint32 x k h.0 (omega (arith, h.1)))
  reread_lem vector_uint64 (buffer x) h k =
      ap some (parse_vector-print R is_uint64 vector_uint64 x k h.0 (omega (arith, h.1)))
  reread_lem null x h k = absurd k
  reread_lem string x h k = absurd k
  reread_lem vector_float x h k = absurd k
  reread_lem vector_double x h k = absurd k
  reread_lem _ _ h k = absurd h

  -- With a C library and a JSON parser that keep the documented laws, a Boolean, an integer, a float or double
  -- that is not NaN, and a vector of integers is printed to a text from which exactly that value is read.
  pub from_string-to_string :
      (v : Variant) → IsWellTyped v → IsReadBack v.type v.value → reread v ≡ some (success v)
  from_string-to_string v h k = reread_lem v.type v.value h k
