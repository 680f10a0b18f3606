-- ===== src/Metadata/Increments.antt =====
-- `variant_increment` of tweak-metadata/src/tweakmetadata.c keeps the type of a value.
use tweaktool.Common.{
  ℕ, zero, suc, ◌-◌, ◌^◌, ◌<◌, inl, inr, refl, true, false, Option, none, some, arith, ltb,
  Bool-cases,
}
use tweaktool.Common.Int.{ℤ, pos, negsuc}
use tweaktool.Variant.{
  VariantType, Variant, Value, null, bool, sint8, sint16, sint32, sint64, uint8, uint16, uint32,
  uint64, float, double, string, b, sint, uint,
}
use tweaktool.Variant.Types.{Fits, InRange}
use tweaktool.Convert.Parse.{of}
use tweaktool.Convert.Coerce.{Has}
use tweaktool.Convert.Completes.{IsElement}
use tweaktool.Metadata.Values.{increment, zero_of, next_sint, next_uint}

-- A value of the type, if any.
abbrev pub IsNext : VariantType → Option Variant → Type 0
IsNext t none = Unit {0}
IsNext t (some v) = Has t v

next_sint-Fits :
    (w : ℕ) (t : VariantType) (z : ℤ)
    → 0 < 2 ^ w
    → ((y : ℤ) → InRange w y → Fits t (sint y))
    → InRange w z
    → IsNext t (next_sint w t z)
next_sint-Fits w t (pos n) h fits k = elim (Bool-cases (ltb n (2 ^ w - 1))) [
  | inl e ↦ rw e (refl, fits (pos (suc n)) (ground (arith, e)))
  | inr e ↦ rw e tt
]
next_sint-Fits w t (negsuc zero) h fits k = (refl, fits (pos 0) h)
next_sint-Fits w t (negsuc (suc n)) h fits k = (refl, fits (negsuc n) (omega (arith, k)))

next_uint-Fits :
    (w : ℕ) (t : VariantType) (n : ℕ)
    → ((y : ℕ) → y < 2 ^ w → Fits t (uint y))
    → IsNext t (next_uint w t n)
next_uint-Fits w t n fits = elim (Bool-cases (ltb n (2 ^ w - 1))) [
  | inl e ↦ rw e (refl, fits (suc n) (ground (arith, e)))
  | inr e ↦ rw e tt
]

pub increment-Fits : (t : VariantType) (x : Value) → Fits t x → IsNext t (increment t x)
unfolding increment
increment-Fits bool (b true) h = tt
increment-Fits bool (b false) h = (refl, tt)
increment-Fits sint8 (sint x) h = next_sint-Fits 7 sint8 x (omega arith) (λ y k. k) h
increment-Fits sint16 (sint x) h = next_sint-Fits 15 sint16 x (omega arith) (λ y k. k) h
increment-Fits sint32 (sint x) h = next_sint-Fits 31 sint32 x (omega arith) (λ y k. k) h
increment-Fits sint64 (sint x) h = next_sint-Fits 63 sint64 x (omega arith) (λ y k. k) h
increment-Fits uint8 (uint x) h = next_uint-Fits 8 uint8 x (λ y k. k)
increment-Fits uint16 (uint x) h = next_uint-Fits 16 uint16 x (λ y k. k)
increment-Fits uint32 (uint x) h = next_uint-Fits 32 uint32 x (λ y k. k)
increment-Fits uint64 (uint x) h = next_uint-Fits 64 uint64 x (λ y k. k)
increment-Fits null x h = tt
increment-Fits float x h = tt
increment-Fits double x h = tt
increment-Fits string x h = tt
increment-Fits _ x h = tt

pub zero_of-Has : (t : VariantType) → IsElement t → Has t (of t (zero_of t))
unfolding zero_of
zero_of-Has bool h = (refl, tt)
zero_of-Has sint8 h = (refl, omega arith)
zero_of-Has sint16 h = (refl, omega arith)
zero_of-Has sint32 h = (refl, omega arith)
zero_of-Has sint64 h = (refl, omega arith)
zero_of-Has uint8 h = (refl, omega arith)
zero_of-Has uint16 h = (refl, omega arith)
zero_of-Has uint32 h = (refl, omega arith)
zero_of-Has uint64 h = (refl, omega arith)
zero_of-Has float h = (refl, omega arith)
zero_of-Has double h = (refl, omega arith)
zero_of-Has string h = (refl, tt)
zero_of-Has _ h = absurd h
