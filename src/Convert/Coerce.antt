-- ===== src/Convert/Coerce.antt =====
-- The types and ranges of the parsed numbers (tweak-common/src/tweakvariant.c).
use tweaktool.Common.{
  ℕ, zero, suc, ◌-◌, ◌^◌, ◌<◌, ◌≡◌, ◌⊎◌, inr, refl, subst, Bool, true, false, Option, none, some,
  [], ◌∷◌, if◌then◌else◌, Bytes, arith, ◌>>=◌, str_eq, leb, ◌||◌, ◌&&◌,
}
use tweaktool.Common.Int.{ℤ, pos, negsuc, leb_ℤ, ltb_ℤ}
use tweaktool.Variant.{
  VariantType, Variant, init_empty, null, bool, sint8, sint16, sint32, sint64, uint8, uint16,
  uint32, uint64, b, sint, uint,
}
use tweaktool.Variant.Types.{Fits, IsWellTyped, InRange}
use tweaktool.Convert.Decimal.{strtoll, strtoull, read_number, to_signed, to_unsigned}
use tweaktool.Convert.Parse.{
  Conversion, success, truncated, fail, of, whole, with_result, coerce_int, coerce_uint, switch_int,
  switch_uint, parse_bool, parse_signed_int64, parse_unsigned_int64,
}

-- The variant has the type, and its value fits it.
abbrev pub Has : VariantType → Variant → Type 0
Has t v = (v.type ≡ t) × IsWellTyped v

-- A success has the asked type; so has a truncated value, unless it is empty.
abbrev pub IsConverted : VariantType → Conversion → Type 0
IsConverted t (success v) = Has t v
IsConverted t (truncated v) = (v ≡ init_empty) ⊎ Has t v
IsConverted t _ = Unit {0}

to_signed-InRange : (minus : Bool) (n : ℕ) → InRange 63 (to_signed minus n)
to_signed-InRange true zero = omega arith
to_signed-InRange true (suc n) = ground arith
to_signed-InRange false n = ground arith

to_unsigned_lt : (minus : Bool) (n : ℕ) → to_unsigned minus n < 2 ^ 64
to_unsigned_lt minus n = ground arith

pub some_eq {ℓ} : {A : Type ℓ} {a b : A} → some a ≡ some b → a ≡ b
some_eq p = cc (p)

pub none≢some {ℓ} : {A : Type ℓ} {a : A} → none ≡ some a → ⊥
none≢some p = cc (p)

whole-InRange :
    (o : Option (Bool × ℕ × Bytes)) (z : ℤ)
    → whole (o >>= λ m. some (to_signed m.0 m.1, m.2)) ≡ some z
    → InRange 63 z
whole-InRange none z e = absurd (none≢some e)
whole-InRange (some (minus, n, [])) z e = subst (InRange 63) (some_eq e) (to_signed-InRange minus n)
whole-InRange (some (minus, n, c ∷ s)) z e = absurd (none≢some e)

whole_lt :
    (o : Option (Bool × ℕ × Bytes)) (n : ℕ)
    → whole (o >>= λ m. some (to_unsigned m.0 m.1, m.2)) ≡ some n
    → n < 2 ^ 64
whole_lt none x e = absurd (none≢some e)
whole_lt (some (minus, n, [])) x e = omega (arith, some_eq e, to_unsigned_lt minus n)
whole_lt (some (minus, n, c ∷ s)) x e = absurd (none≢some e)

pub parse_signed_int64-InRange : (s : Bytes) (z : ℤ) → parse_signed_int64 s ≡ some z → InRange 63 z
unfolding parse_signed_int64 strtoll
parse_signed_int64-InRange s z e = whole-InRange (read_number s) z e

pub parse_unsigned_int64_lt : (s : Bytes) (n : ℕ) → parse_unsigned_int64 s ≡ some n → n < 2 ^ 64
unfolding parse_unsigned_int64 strtoull
parse_unsigned_int64_lt s n e = whole_lt (read_number s) n e

pub whole_lt_double :
    (o : Option (ℕ × Bytes)) (n x : ℕ)
    → ((y : ℕ) (rest : Bytes) → o ≡ some (y, rest) → y < n)
    → whole o ≡ some x
    → x < n
whole_lt_double none n x h e = absurd (none≢some e)
whole_lt_double (some (y, [])) n x h e = omega (arith, some_eq e, h y [] refl)
whole_lt_double (some (y, c ∷ s)) n x h e = absurd (none≢some e)

-- Both ways of a test.
if_lem :
    (t : VariantType) (c : Bool) (x y : Conversion)
    → (c ≡ true → IsConverted t x)
    → (c ≡ false → IsConverted t y)
    → IsConverted t (if c then x else y)
if_lem t true x y h k = h refl
if_lem t false x y h k = k refl

pub parse_bool-IsConverted : (s : Bytes) → IsConverted bool (parse_bool s)
unfolding parse_bool
parse_bool-IsConverted s =
    let otherwise =
      if str_eq s (b'f' ∷ b'a' ∷ b'l' ∷ b's' ∷ b'e' ∷ []) || str_eq s (b'0' ∷ [])
      then success (of bool (b false))
      else fail in
    if_lem bool (str_eq s (b't' ∷ b'r' ∷ b'u' ∷ b'e' ∷ []) || str_eq s (b'1' ∷ []))
      (success (of bool (b true))) otherwise (λ e. (refl, tt))
      (λ e.
        if_lem bool (str_eq s (b'f' ∷ b'a' ∷ b'l' ∷ b's' ∷ b'e' ∷ []) || str_eq s (b'0' ∷ []))
          (success (of bool (b false))) fail (λ d. (refl, tt)) (λ d. tt))

inside :
    (w : ℕ) (z : ℤ)
    → 0 < 2 ^ w
    → (leb_ℤ (negsuc (2 ^ w - 1)) z && leb_ℤ z (pos (2 ^ w - 1))) ≡ true
    → InRange w z
inside w (pos n) h e = ground (arith, h, e)
inside w (negsuc n) h e = ground (arith, h, e)

coerce_int-IsConverted :
    (w : ℕ) (t : VariantType) (z : ℤ)
    → 0 < 2 ^ w
    → ((y : ℤ) → InRange w y → Fits t (sint y))
    → IsConverted t (coerce_int w t z)
coerce_int-IsConverted w t z h fits =
    let least : ℤ = negsuc (2 ^ w - 1) in
    let greatest : ℤ = pos (2 ^ w - 1) in
    let last =
      if ltb_ℤ greatest z
      then truncated (of t (sint greatest))
      else success (of t (sint (pos 0))) in
    let outside = if ltb_ℤ z least then truncated (of t (sint least)) else last in
    if_lem t (leb_ℤ least z && leb_ℤ z greatest) (success (of t (sint z))) outside
      (λ e. (refl, fits z (inside w z h e)))
      (λ e.
        if_lem t (ltb_ℤ z least) (truncated (of t (sint least))) last
          (λ d. inr (refl, fits least (omega (arith, h))))
          (λ d.
            if_lem t (ltb_ℤ greatest z) (truncated (of t (sint greatest)))
              (success (of t (sint (pos 0)))) (λ f. inr (refl, fits greatest (omega (arith, h))))
              (λ f. (refl, fits (pos 0) h))))

pub switch_int-IsConverted :
    (t : VariantType) (z : ℤ) → InRange 63 z → IsConverted t (switch_int t z)
unfolding switch_int
switch_int-IsConverted sint8 z h = coerce_int-IsConverted 7 sint8 z (omega arith) (λ y k. k)
switch_int-IsConverted sint16 z h = coerce_int-IsConverted 15 sint16 z (omega arith) (λ y k. k)
switch_int-IsConverted sint32 z h = coerce_int-IsConverted 31 sint32 z (omega arith) (λ y k. k)
switch_int-IsConverted sint64 z h = (refl, h)
switch_int-IsConverted null z h = tt
switch_int-IsConverted _ z h = tt

pub with_result-IsConverted :
    (exact : Bool) (t : VariantType) (v : Variant) → Has t v → IsConverted t (with_result exact v)
with_result-IsConverted true t v h = h
with_result-IsConverted false t v h = inr h

coerce_uint-IsConverted :
    (exact : Bool) (w : ℕ) (t : VariantType) (n : ℕ)
    → 0 < 2 ^ w
    → ((y : ℕ) → y < 2 ^ w → Fits t (uint y))
    → IsConverted t (coerce_uint exact w t n)
coerce_uint-IsConverted exact w t n h fits =
    if_lem t (leb n (2 ^ w - 1)) (with_result exact (of t (uint n)))
      (truncated (of t (uint (2 ^ w - 1))))
      (λ e. with_result-IsConverted exact t (of t (uint n)) (refl, fits n (ground (arith, h, e))))
      (λ e. inr (refl, fits (2 ^ w - 1) (omega (arith, h))))

pub switch_uint-IsConverted :
    (exact : Bool) (t : VariantType) (n : ℕ) → n < 2 ^ 64 → IsConverted t (switch_uint exact t n)
unfolding switch_uint
switch_uint-IsConverted exact uint8 n h =
    coerce_uint-IsConverted exact 8 uint8 n (omega arith) (λ y k. k)
switch_uint-IsConverted exact uint16 n h =
    coerce_uint-IsConverted exact 16 uint16 n (omega arith) (λ y k. k)
switch_uint-IsConverted exact uint32 n h =
    coerce_uint-IsConverted exact 32 uint32 n (omega arith) (λ y k. k)
switch_uint-IsConverted exact uint64 n h =
    with_result-IsConverted exact uint64 (of uint64 (uint n)) (refl, h)
switch_uint-IsConverted exact null n h = tt
switch_uint-IsConverted exact _ n h = tt
