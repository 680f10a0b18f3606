-- ===== src/Convert/Parse.antt =====
-- tweak-common/src/tweakvariant.c: `tweak_variant_from_string`.
use tweaktool.Common.{
  ℕ, ◌-◌, ◌^◌, Bool, true, false, ◌&&◌, ◌||◌, Option, none, some, List, [], ◌∷◌, ◌++◌, length, leb,
  ◌==◌, if◌then◌else◌, ◌>>=◌, Bytes, str_eq,
}
use tweaktool.Common.Int.{ℤ, pos, negsuc, leb_ℤ, ltb_ℤ}
use tweaktool.Variant.{
  VariantType, Value, Variant, init_empty, null, bool, sint8, sint16, sint32, sint64, uint8, uint16,
  uint32, uint64, float, double, string, vector_sint8, vector_sint16, vector_sint32, vector_sint64,
  vector_uint8, vector_uint16, vector_uint32, vector_uint64, vector_float, vector_double, b, sint,
  uint, fp32, fp64, text, buffer,
}
use tweaktool.Words.{store_le, to_bits}
use tweaktool.Convert.Decimal.{strtoll, strtoull}
use tweaktool.Convert.Runtime.{Runtime, array_node, string_node}

-- `tweak_variant_type_conversion_result` with the value of `out`; `breaks` is a failed assertion or a fatal
-- error.
pub data Conversion : Type 0 where
  success truncated : Variant → Conversion
  fail breaks : Conversion

abbrev pub of : VariantType → Value → Variant
of t x = record { type = t; value = x }

-- `*endp == '\0'`
abbrev pub whole {ℓ} : {A : Type ℓ} → Option (A × Bytes) → Option A
whole none = none
whole (some (x, [])) = some x
whole (some (x, c ∷ rest)) = none

unfoldable pub parse_bool : Bytes → Conversion
unfolding str_eq
parse_bool s =
    if str_eq s (b't' ∷ b'r' ∷ b'u' ∷ b'e' ∷ []) || str_eq s (b'1' ∷ [])
    then success (of bool (b true))
    else if str_eq s (b'f' ∷ b'a' ∷ b'l' ∷ b's' ∷ b'e' ∷ []) || str_eq s (b'0' ∷ [])
    then success (of bool (b false))
    else fail

unfoldable pub parse_signed_int64 : Bytes → Option ℤ
unfolding strtoll
parse_signed_int64 s = whole (strtoll s)

unfoldable pub parse_unsigned_int64 : Bytes → Option ℕ
unfolding strtoull
parse_unsigned_int64 s = whole (strtoull s)

-- COERCE_INT to an integer with `w` value bits.
abbrev pub coerce_int : ℕ → VariantType → ℤ → Conversion
coerce_int w t x =
    let least : ℤ = negsuc (2 ^ w - 1) in
    let greatest : ℤ = pos (2 ^ w - 1) in
    if leb_ℤ least x && leb_ℤ x greatest
    then success (of t (sint x))
    else if ltb_ℤ x least
    then truncated (of t (sint least))
    else if ltb_ℤ greatest x
    then truncated (of t (sint greatest))
    else success (of t (sint (pos 0)))

abbrev pub with_result : Bool → Variant → Conversion
with_result exact v = if exact then success v else truncated v

-- COERCE_UINT to an integer of `w` bits, when the value is what the text says or was made from a float.
abbrev pub coerce_uint : Bool → ℕ → VariantType → ℕ → Conversion
coerce_uint exact w t x =
    if leb x (2 ^ w - 1)
    then with_result exact (of t (uint x))
    else truncated (of t (uint (2 ^ w - 1)))

unfoldable pub switch_int : VariantType → ℤ → Conversion
switch_int sint8 x = coerce_int 7 sint8 x
switch_int sint16 x = coerce_int 15 sint16 x
switch_int sint32 x = coerce_int 31 sint32 x
switch_int sint64 x = success (of sint64 (sint x))
switch_int _ x = breaks

unfoldable pub switch_uint : Bool → VariantType → ℕ → Conversion
switch_uint exact uint8 x = coerce_uint exact 8 uint8 x
switch_uint exact uint16 x = coerce_uint exact 16 uint16 x
switch_uint exact uint32 x = coerce_uint exact 32 uint32 x
switch_uint exact uint64 x = with_result exact (of uint64 (uint x))
switch_uint exact _ x = breaks

-- The bits of a number in the union, all zero in an empty variant.
abbrev pub bits : VariantType → Value → ℕ
bits sint8 (sint x) = to_bits 8 x
bits sint16 (sint x) = to_bits 16 x
bits sint32 (sint x) = to_bits 32 x
bits sint64 (sint x) = to_bits 64 x
bits _ (uint x) = x
bits _ (fp32 x) = x
bits _ (fp64 x) = x
bits _ _ = 0

-- What an item contributes to the array: whether it was truncated, and its bytes.
abbrev pub item : ℕ → VariantType → Conversion → Option (Bool × Bytes)
item size t (success v) = some (false, store_le size (bits t v.value))
item size t (truncated v) = some (true, store_le size (bits t v.value))
item size t _ = none

abbrev pub fp64_of : Value → Option ℕ
fp64_of (fp64 x) = some x
fp64_of _ = none

module _ (R : Runtime) where
  unfoldable pub parse_floating_point : Bytes → Option ℕ
  parse_floating_point s = whole (R.strtod s)

  unfoldable pub switch_float : VariantType → ℕ → Conversion
  switch_float float x = success (of float (fp32 (R.to_float x)))
  switch_float double x = success (of double (fp64 x))
  switch_float _ x = breaks

  unfoldable pub parse_generic_float : Bytes → VariantType → Conversion
  unfolding parse_floating_point switch_float
  parse_generic_float s target = elim (parse_floating_point s) [
    | none ↦ fail
    | some x ↦ switch_float target x
  ]

  abbrev pub double_of : Conversion → Option ℕ
  double_of (success v) = fp64_of v.value
  double_of _ = none

  -- (double) INT64_MAX, (double) INT64_MIN and (double) UINT64_MAX.
  abbrev pub signed_of : ℕ → ℤ
  signed_of x =
      if R.less 0x43E0000000000000 x
      then pos (2 ^ 63 - 1)
      else if R.less x 0xC3E0000000000000
      then negsuc (2 ^ 63 - 1)
      else R.to_int64 x

  abbrev pub unsigned_of : ℕ → ℕ
  unsigned_of x =
      if R.less 0x43F0000000000000 x then 2 ^ 64 - 1 else if R.less x 0 then 0 else R.to_uint64 x

  -- The value, and whether the text is an integer; of another number the value is made from a float.
  unfoldable pub int_or_float : Bytes → Option (Bool × ℤ)
  unfolding parse_signed_int64 parse_generic_float
  int_or_float s = elim (parse_signed_int64 s) [
    | some x ↦ some (true, x)
    | none ↦ double_of (parse_generic_float s double) >>= λ x. some (false, signed_of x)
  ]

  unfoldable pub uint_or_float : Bytes → Option (Bool × ℕ)
  unfolding parse_unsigned_int64 parse_generic_float
  uint_or_float s = elim (parse_unsigned_int64 s) [
    | some x ↦ some (true, x)
    | none ↦ double_of (parse_generic_float s double) >>= λ x. some (false, unsigned_of x)
  ]

  -- A value made from a float is not used: `out` gets the empty variant.
  unfoldable pub parse_generic_int : Bytes → VariantType → Conversion
  unfolding int_or_float switch_int
  parse_generic_int s target = elim (int_or_float s) [
    | none ↦ fail
    | some r ↦ if r.0 then switch_int target r.1 else truncated init_empty
  ]

  unfoldable pub parse_generic_uint : Bytes → VariantType → Conversion
  unfolding uint_or_float switch_uint
  parse_generic_uint s target = elim (uint_or_float s) [
    | none ↦ fail
    | some r ↦ switch_uint r.0 target r.1
  ]

  unfoldable pub parse_string : Bytes → Conversion
  parse_string s = elim (R.parse_json s) [
    | string_node t ↦ success (of string (text t))
    | _ ↦ truncated (of string (text s))
  ]

  -- PARSE_SCALAR_FUNC
  abbrev pub parse_scalar : VariantType → Bytes → Conversion
  parse_scalar float s = parse_generic_float s float
  parse_scalar double s = parse_generic_float s double
  parse_scalar uint8 s = parse_generic_uint s uint8
  parse_scalar uint16 s = parse_generic_uint s uint16
  parse_scalar uint32 s = parse_generic_uint s uint32
  parse_scalar uint64 s = parse_generic_uint s uint64
  parse_scalar t s = parse_generic_int s t

  -- The loop over the items; `none` is the jump to `parse_error`.
  unfoldable pub parse_items : ℕ → VariantType → List (Option Bytes) → Option (Bool × Bytes)
  unfolding parse_generic_float parse_generic_int parse_generic_uint
  parse_items size t [] = some (false, [])
  parse_items size t (none ∷ nodes) = none
  parse_items size t (some s ∷ nodes) = item size t (parse_scalar t s) >>= λ first.
      parse_items size t nodes >>= λ more. some (first.0 || more.0, first.1 ++ more.1)

  abbrev pub vector_result : VariantType → Option (Bool × Bytes) → Conversion
  vector_result t none = fail
  vector_result t (some r) = with_result (if r.0 then false else true) (of t (buffer r.1))

  -- `parse_vector_...` for items of a type and the vector of them; a buffer has at least one byte.
  unfoldable pub parse_vector : ℕ → VariantType → VariantType → Bytes → Conversion
  unfolding parse_items
  parse_vector size t vector_type s = elim (R.parse_json s) [
    | array_node nodes ↦
        if length nodes == 0 then breaks else vector_result vector_type (parse_items size t nodes)
    | _ ↦ fail
  ]

  unfoldable pub from_string : Bytes → VariantType → Conversion
  unfolding parse_bool parse_generic_int parse_generic_uint parse_generic_float parse_string
      parse_vector
  from_string s null = breaks
  from_string s bool = parse_bool s
  from_string s sint8 = parse_generic_int s sint8
  from_string s sint16 = parse_generic_int s sint16
  from_string s sint32 = parse_generic_int s sint32
  from_string s sint64 = parse_generic_int s sint64
  from_string s uint8 = parse_generic_uint s uint8
  from_string s uint16 = parse_generic_uint s uint16
  from_string s uint32 = parse_generic_uint s uint32
  from_string s uint64 = parse_generic_uint s uint64
  from_string s float = parse_generic_float s float
  from_string s double = parse_generic_float s double
  from_string s string = parse_string s
  from_string s vector_sint8 = parse_vector 1 sint8 vector_sint8 s
  from_string s vector_sint16 = parse_vector 2 sint16 vector_sint16 s
  from_string s vector_sint32 = parse_vector 4 sint32 vector_sint32 s
  from_string s vector_sint64 = parse_vector 8 sint64 vector_sint64 s
  from_string s vector_uint8 = parse_vector 1 uint8 vector_uint8 s
  from_string s vector_uint16 = parse_vector 2 uint16 vector_uint16 s
  from_string s vector_uint32 = parse_vector 4 uint32 vector_uint32 s
  from_string s vector_uint64 = parse_vector 8 uint64 vector_uint64 s
  from_string s vector_float = parse_vector 4 float vector_float s
  from_string s vector_double = parse_vector 8 double vector_double s
