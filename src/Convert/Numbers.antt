-- ===== src/Convert/Numbers.antt =====
-- What the parsers of the numbers give (tweak-common/src/tweakvariant.c).
use tweaktool.Common.{
  ℕ, ◌^◌, ◌<◌, ◌≡◌, inl, inr, refl, sym, ◌∙◌, subst, ap, Bool, true, false, Option, none, some,
  Bytes, arith, ◌>>=◌, Option-cases,
}
use tweaktool.Common.Int.{ℤ}
use tweaktool.Variant.{VariantType, null, float, double}
use tweaktool.Variant.Types.{InRange}
use tweaktool.Convert.Runtime.{Runtime}
use tweaktool.Convert.Parse.{
  switch_float, parse_signed_int64, parse_unsigned_int64, parse_floating_point, int_or_float,
  uint_or_float, double_of, signed_of, unsigned_of, parse_generic_int, parse_generic_uint,
  parse_generic_float,
}
use tweaktool.Convert.Coerce.{
  IsConverted, some_eq, none≢some, whole_lt_double, parse_signed_int64-InRange,
  parse_unsigned_int64_lt, switch_int-IsConverted, switch_uint-IsConverted,
}

module _ (R : Runtime) where
  parse_floating_point_lt : (s : Bytes) (x : ℕ) → parse_floating_point R s ≡ some x → x < 2 ^ 64
  unfolding parse_floating_point
  parse_floating_point_lt s x e =
      whole_lt_double (R.strtod s) (2 ^ 64) x (λ y rest. R.strtod_lt s rest y) e

  switch_float-IsConverted :
      (t : VariantType) (x : ℕ) → x < 2 ^ 64 → IsConverted t (switch_float R t x)
  unfolding switch_float
  switch_float-IsConverted float x h = (refl, R.to_float_lt x)
  switch_float-IsConverted double x h = (refl, h)
  switch_float-IsConverted null x h = tt
  switch_float-IsConverted _ x h = tt

  pub parse_generic_float-IsConverted :
      (s : Bytes) (t : VariantType) → IsConverted t (parse_generic_float R s t)
  unfolding parse_generic_float
  parse_generic_float-IsConverted s t = elim (Option-cases (parse_floating_point R s)) [
    | inl e ↦ rw (parse_generic_float, e) tt
    | inr (x, e) ↦
        rw (parse_generic_float, e) (switch_float-IsConverted t x (parse_floating_point_lt s x e))
  ]

  int_text : (s : Bytes) (x : ℤ) → parse_signed_int64 s ≡ some x → int_or_float R s ≡ some (true, x)
  unfolding int_or_float
  int_text s x h = rw (int_or_float, h)

  int_made :
      (s : Bytes)
      → parse_signed_int64 s ≡ none
      → int_or_float R s
        ≡ (double_of R (parse_generic_float R s double) >>= λ x. some (false, signed_of R x))
  unfolding int_or_float
  int_made s h = rw (int_or_float, h)

  uint_text :
      (s : Bytes) (x : ℕ) → parse_unsigned_int64 s ≡ some x → uint_or_float R s ≡ some (true, x)
  unfolding uint_or_float
  uint_text s x h = rw (uint_or_float, h)

  uint_made :
      (s : Bytes)
      → parse_unsigned_int64 s ≡ none
      → uint_or_float R s
        ≡ (double_of R (parse_generic_float R s double) >>= λ x. some (false, unsigned_of R x))
  unfolding uint_or_float
  uint_made s h = rw (uint_or_float, h)

  unsigned_of_lt : (x : ℕ) → unsigned_of R x < 2 ^ 64
  unsigned_of_lt x = ground (arith, R.to_uint64_lt x)

  made_signed :
      (o : Option ℕ) (z : ℤ)
      → ◌>>=◌ {B = Bool × ℤ} o (λ x. some (false, signed_of R x)) ≡ some (true, z)
      → ⊥
  made_signed none z e = none≢some e
  made_signed (some x) z e = cc (e)

  made_unsigned :
      (o : Option ℕ) (exact : Bool) (n : ℕ)
      → ◌>>=◌ {B = Bool × ℕ} o (λ x. some (false, unsigned_of R x)) ≡ some (exact, n)
      → n < 2 ^ 64
  made_unsigned none exact n e = absurd (none≢some e)
  made_unsigned (some x) exact n e =
      omega (arith, ap (λ (p : Bool × ℕ). p.1) (some_eq e), unsigned_of_lt x)

  int_or_float-InRange : (s : Bytes) (z : ℤ) → int_or_float R s ≡ some (true, z) → InRange 63 z
  int_or_float-InRange s z e = elim (Option-cases (parse_signed_int64 s)) [
    | inl h ↦
        absurd
          (made_signed (double_of R (parse_generic_float R s double)) z (sym (int_made s h) ∙ e))
    | inr (x, h) ↦
        subst (InRange 63) (ap (λ (p : Bool × ℤ). p.1) (some_eq (sym (int_text s x h) ∙ e)))
          (parse_signed_int64-InRange s x h)
  ]

  pub parse_generic_int-IsConverted :
      (s : Bytes) (t : VariantType) → IsConverted t (parse_generic_int R s t)
  unfolding parse_generic_int
  parse_generic_int-IsConverted s t = elim (Option-cases (int_or_float R s)) [
    | inl e ↦ rw (parse_generic_int, e) tt
    | inr ((true, z), e) ↦
        rw (parse_generic_int, e) (switch_int-IsConverted t z (int_or_float-InRange s z e))
    | inr ((false, z), e) ↦ rw (parse_generic_int, e) (inl refl)
  ]

  uint_or_float_lt :
      (s : Bytes) (exact : Bool) (n : ℕ) → uint_or_float R s ≡ some (exact, n) → n < 2 ^ 64
  uint_or_float_lt s exact n e = elim (Option-cases (parse_unsigned_int64 s)) [
    | inl h ↦
        made_unsigned (double_of R (parse_generic_float R s double)) exact n
          (sym (uint_made s h) ∙ e)
    | inr (x, h) ↦ omega (
      arith,
      ap (λ (p : Bool × ℕ). p.1) (some_eq (sym (uint_text s x h) ∙ e)),
      parse_unsigned_int64_lt s x h,
    )
  ]

  pub parse_generic_uint-IsConverted :
      (s : Bytes) (t : VariantType) → IsConverted t (parse_generic_uint R s t)
  unfolding parse_generic_uint
  parse_generic_uint-IsConverted s t = elim (Option-cases (uint_or_float R s)) [
    | inl e ↦ rw (parse_generic_uint, e) tt
    | inr ((exact, n), e) ↦
        rw (parse_generic_uint, e)
          (switch_uint-IsConverted exact t n (uint_or_float_lt s exact n e))
  ]
