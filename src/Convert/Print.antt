-- ===== src/Convert/Print.antt =====
-- tweak-common/src/tweakvariant.c: `tweak_variant_to_string`. A value that is not of its variant's type is `none`.
use tweaktool.Common.{
  ℕ, zero, suc, ◌/◌, Bool, true, false, Option, none, some, [], ◌∷◌, ◌++◌, length, drop,
  if◌then◌else◌, Bytes,
}
use tweaktool.Variant.{
  VariantType, Value, null, bool, sint8, sint16, sint32, sint64, uint8, uint16, uint32, uint64,
  float, double, string, vector_sint8, vector_sint16, vector_sint32, vector_sint64, vector_uint8,
  vector_uint16, vector_uint32, vector_uint64, vector_float, vector_double, b, sint, uint, fp32,
  fp64, text, buffer,
}
use tweaktool.Words.{load_le, of_bits}
use tweaktool.Convert.Decimal.{print_signed, print_unsigned}
use tweaktool.Convert.Runtime.{Runtime}

unfoldable pub null_to_string : Bytes
null_to_string = b'n' ∷ b'u' ∷ b'l' ∷ b'l' ∷ []

unfoldable pub bool_to_string : Bool → Bytes
bool_to_string x =
    if x then b't' ∷ b'r' ∷ b'u' ∷ b'e' ∷ [] else b'f' ∷ b'a' ∷ b'l' ∷ b's' ∷ b'e' ∷ []

module _ (R : Runtime) where
  -- A number of a type from its bits.
  unfoldable pub scalar_to_string : VariantType → ℕ → Bytes
  scalar_to_string sint8 x = print_signed (of_bits 8 x)
  scalar_to_string sint16 x = print_signed (of_bits 16 x)
  scalar_to_string sint32 x = print_signed (of_bits 32 x)
  scalar_to_string sint64 x = print_signed (of_bits 64 x)
  scalar_to_string float x = R.print_double (R.to_double x)
  scalar_to_string double x = R.print_double x
  scalar_to_string _ x = print_unsigned x

  -- The loop over the `n` items that are left; `first` is `ix == 0`.
  unfoldable pub items_to_string : ℕ → VariantType → Bool → ℕ → Bytes → Bytes
  unfolding scalar_to_string
  items_to_string size t first zero s = []
  items_to_string size t first (suc n) s =
      (if first then [] else b',' ∷ b' ' ∷ [])
      ++ (scalar_to_string t (load_le size s) ++ items_to_string size t false n (drop size s))

  unfoldable pub vector_to_string : ℕ → VariantType → Bytes → Bytes
  unfolding items_to_string
  vector_to_string size t s =
      b'[' ∷ (items_to_string size t true (length s / size) s ++ (b']' ∷ []))

  unfoldable pub to_string : VariantType → Value → Option Bytes
  unfolding null_to_string bool_to_string vector_to_string
  to_string null x = some null_to_string
  to_string bool (b x) = some (bool_to_string x)
  to_string sint8 (sint x) = some (print_signed x)
  to_string sint16 (sint x) = some (print_signed x)
  to_string sint32 (sint x) = some (print_signed x)
  to_string sint64 (sint x) = some (print_signed x)
  to_string uint8 (uint x) = some (print_unsigned x)
  to_string uint16 (uint x) = some (print_unsigned x)
  to_string uint32 (uint x) = some (print_unsigned x)
  to_string uint64 (uint x) = some (print_unsigned x)
  to_string float (fp32 x) = some (R.print_double (R.to_double x))
  to_string double (fp64 x) = some (R.print_double x)
  to_string string (text x) = some x
  to_string vector_sint8 (buffer x) = some (vector_to_string 1 sint8 x)
  to_string vector_sint16 (buffer x) = some (vector_to_string 2 sint16 x)
  to_string vector_sint32 (buffer x) = some (vector_to_string 4 sint32 x)
  to_string vector_sint64 (buffer x) = some (vector_to_string 8 sint64 x)
  to_string vector_uint8 (buffer x) = some (vector_to_string 1 uint8 x)
  to_string vector_uint16 (buffer x) = some (vector_to_string 2 uint16 x)
  to_string vector_uint32 (buffer x) = some (vector_to_string 4 uint32 x)
  to_string vector_uint64 (buffer x) = some (vector_to_string 8 uint64 x)
  to_string vector_float (buffer x) = some (vector_to_string 4 float x)
  to_string vector_double (buffer x) = some (vector_to_string 8 double x)
  to_string _ _ = none
