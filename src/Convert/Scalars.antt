-- ===== src/Convert/Scalars.antt =====
-- Reading back a printed scalar (tweak-common/src/tweakvariant.c).
use tweaktool.Common.{ℕ, ◌^◌, ◌<◌, ◌≤◌, ◌≡◌, refl, ◌∙◌, ap, Bool, true, false, some, arith}
use tweaktool.Common.Int.{ℤ, pos, negsuc}
use tweaktool.Variant.{
  VariantType, sint8, sint16, sint32, sint64, uint8, uint16, uint32, uint64, float, double, bool,
  sint, uint, fp32, fp64, b, is_nan,
}
use tweaktool.Variant.Types.{InRange}
use tweaktool.Convert.Decimal.{print_signed, print_unsigned}
use tweaktool.Convert.Numerals.{strtoll-print, strtoull-print}
use tweaktool.Convert.Runtime.{Runtime}
use tweaktool.Convert.Parse.{
  success, of, switch_int, switch_uint, parse_bool, parse_signed_int64, parse_unsigned_int64,
  parse_floating_point, parse_generic_float, parse_generic_int, parse_generic_uint, int_or_float,
  uint_or_float, switch_float,
}
use tweaktool.Convert.Print.{bool_to_string}

-- An integer of fewer bits.
widen : (v w : ℕ) (z : ℤ) → 2 ^ v ≤ 2 ^ w → InRange v z → InRange w z
widen v w (pos n) h k = omega (arith, h, k)
widen v w (negsuc n) h k = omega (arith, h, k)

switch_int8 : (z : ℤ) → InRange 7 z → switch_int sint8 z ≡ success (of sint8 (sint z))
unfolding switch_int
switch_int8 (pos n) h = ground arith
switch_int8 (negsuc n) h = ground arith

switch_int16 : (z : ℤ) → InRange 15 z → switch_int sint16 z ≡ success (of sint16 (sint z))
unfolding switch_int
switch_int16 (pos n) h = ground arith
switch_int16 (negsuc n) h = ground arith

switch_int32 : (z : ℤ) → InRange 31 z → switch_int sint32 z ≡ success (of sint32 (sint z))
unfolding switch_int
switch_int32 (pos n) h = ground arith
switch_int32 (negsuc n) h = ground arith

pub parse_bool-print : (x : Bool) → parse_bool (bool_to_string x) ≡ success (of bool (b x))
unfolding parse_bool bool_to_string
parse_bool-print true = refl
parse_bool-print false = refl

module _ (R : Runtime) where
  int_or_float-print : (z : ℤ) → InRange 63 z → int_or_float R (print_signed z) ≡ some (true, z)
  unfolding int_or_float parse_signed_int64
  int_or_float-print z h = rw (int_or_float, parse_signed_int64, strtoll-print z h)

  parse_generic_int-print :
      (z : ℤ) (t : VariantType)
      → InRange 63 z
      → parse_generic_int R (print_signed z) t ≡ switch_int t z
  unfolding parse_generic_int
  parse_generic_int-print z t h = rw (parse_generic_int, int_or_float-print z h)

  pub parse-sint8 :
      (z : ℤ)
      → InRange 7 z
      → parse_generic_int R (print_signed z) sint8 ≡ success (of sint8 (sint z))
  parse-sint8 z h = parse_generic_int-print z sint8 (widen 7 63 z (omega arith) h) ∙ switch_int8 z h

  pub parse-sint16 :
      (z : ℤ)
      → InRange 15 z
      → parse_generic_int R (print_signed z) sint16 ≡ success (of sint16 (sint z))
  parse-sint16 z h =
      parse_generic_int-print z sint16 (widen 15 63 z (omega arith) h) ∙ switch_int16 z h

  pub parse-sint32 :
      (z : ℤ)
      → InRange 31 z
      → parse_generic_int R (print_signed z) sint32 ≡ success (of sint32 (sint z))
  parse-sint32 z h =
      parse_generic_int-print z sint32 (widen 31 63 z (omega arith) h) ∙ switch_int32 z h

  pub parse-sint64 :
      (z : ℤ)
      → InRange 63 z
      → parse_generic_int R (print_signed z) sint64 ≡ success (of sint64 (sint z))
  unfolding switch_int
  parse-sint64 z h = parse_generic_int-print z sint64 h

  parse_generic_uint-print :
      (n : ℕ) (t : VariantType)
      → n < 2 ^ 64
      → parse_generic_uint R (print_unsigned n) t ≡ switch_uint true t n
  unfolding parse_generic_uint uint_or_float parse_unsigned_int64
  parse_generic_uint-print n t h =
      rw (parse_generic_uint, uint_or_float, parse_unsigned_int64, strtoull-print n h)

  pub parse-uint8 :
      (n : ℕ)
      → n < 2 ^ 8
      → parse_generic_uint R (print_unsigned n) uint8 ≡ success (of uint8 (uint n))
  unfolding switch_uint
  parse-uint8 n h = parse_generic_uint-print n uint8 (omega arith) ∙ ground arith

  pub parse-uint16 :
      (n : ℕ)
      → n < 2 ^ 16
      → parse_generic_uint R (print_unsigned n) uint16 ≡ success (of uint16 (uint n))
  unfolding switch_uint
  parse-uint16 n h = parse_generic_uint-print n uint16 (omega arith) ∙ ground arith

  pub parse-uint32 :
      (n : ℕ)
      → n < 2 ^ 32
      → parse_generic_uint R (print_unsigned n) uint32 ≡ success (of uint32 (uint n))
  unfolding switch_uint
  parse-uint32 n h = parse_generic_uint-print n uint32 (omega arith) ∙ ground arith

  pub parse-uint64 :
      (n : ℕ)
      → n < 2 ^ 64
      → parse_generic_uint R (print_unsigned n) uint64 ≡ success (of uint64 (uint n))
  unfolding switch_uint
  parse-uint64 n h = parse_generic_uint-print n uint64 h

  pub parse-double :
      (x : ℕ)
      → x < 2 ^ 64
      → is_nan 11 52 x ≡ false
      → parse_generic_float R (R.print_double x) double ≡ success (of double (fp64 x))
  unfolding parse_generic_float parse_floating_point switch_float
  parse-double x h k = rw (parse_generic_float, parse_floating_point, R.strtod-print_double x h k)

  pub parse-float :
      (x : ℕ)
      → x < 2 ^ 32
      → is_nan 8 23 x ≡ false
      → parse_generic_float R (R.print_double (R.to_double x)) float ≡ success (of float (fp32 x))
  unfolding parse_generic_float parse_floating_point switch_float
  parse-float x h k =
      rw
        (
          parse_generic_float,
          parse_floating_point,
          R.strtod-print_double (R.to_double x) (R.to_double_lt x h) (R.to_double_number x h k),
        )
        (ap (λ y. success (of float (fp32 y))) (R.to_float-to_double x h k))
