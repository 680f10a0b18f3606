-- ===== src/Convert/Completes.antt =====
-- Where `tweak_variant_from_string` (tweak-common/src/tweakvariant.c) fails no assertion: at every type but null and the
-- vectors.
use tweaktool.Common.{
  ℕ, ◌-◌, ◌^◌, ◌≡◌, refl, ◌||◌, ◌&&◌, Bool, true, false, [], ◌∷◌, inl, inr, Bytes, Option-cases,
  if◌then◌else◌, leb, str_eq,
}
use tweaktool.Common.Int.{ℤ, pos, negsuc, leb_ℤ, ltb_ℤ}
use tweaktool.Variant.{
  VariantType, Variant, bool, sint8, sint16, sint32, sint64, uint8, uint16, uint32, uint64, float,
  double, string, b, sint, uint,
}
use tweaktool.Convert.Runtime.{Runtime, Json, array_node, string_node, other_node}
use tweaktool.Convert.Parse.{
  Conversion, success, truncated, fail, breaks, of, with_result, coerce_int, coerce_uint,
  switch_int, switch_uint, parse_bool, parse_floating_point, parse_generic_float, int_or_float,
  uint_or_float, parse_generic_int, parse_generic_uint, parse_string, from_string, switch_float,
}

-- The types of single values, which are those of the elements of vectors too.
abbrev pub IsElement : VariantType → Type 0
IsElement bool = Unit {0}
IsElement sint8 = Unit {0}
IsElement sint16 = Unit {0}
IsElement sint32 = Unit {0}
IsElement sint64 = Unit {0}
IsElement uint8 = Unit {0}
IsElement uint16 = Unit {0}
IsElement uint32 = Unit {0}
IsElement uint64 = Unit {0}
IsElement float = Unit {0}
IsElement double = Unit {0}
IsElement string = Unit {0}
IsElement _ = ⊥

abbrev pub Completes : Conversion → Type 0
Completes breaks = ⊥
Completes _ = Unit {0}

if_Completes :
    (c : Bool) (x y : Conversion) → Completes x → Completes y → Completes (if c then x else y)
if_Completes true x y h k = h
if_Completes false x y h k = k

coerce_int-Completes : (w : ℕ) (t : VariantType) (z : ℤ) → Completes (coerce_int w t z)
coerce_int-Completes w t z =
    let least : ℤ = negsuc (2 ^ w - 1) in
    let greatest : ℤ = pos (2 ^ w - 1) in
    let last =
      if ltb_ℤ greatest z
      then truncated (of t (sint greatest))
      else success (of t (sint (pos 0))) in
    let outside = if ltb_ℤ z least then truncated (of t (sint least)) else last in
    if_Completes (leb_ℤ least z && leb_ℤ z greatest) (success (of t (sint z))) outside tt (
      if_Completes (ltb_ℤ z least) (truncated (of t (sint least))) last tt (
        if_Completes (ltb_ℤ greatest z) (truncated (of t (sint greatest)))
          (success (of t (sint (pos 0)))) tt tt))

pub with_result-Completes : (exact : Bool) (v : Variant) → Completes (with_result exact v)
with_result-Completes true v = tt
with_result-Completes false v = tt

coerce_uint-Completes :
    (exact : Bool) (w : ℕ) (t : VariantType) (n : ℕ) → Completes (coerce_uint exact w t n)
coerce_uint-Completes exact w t n =
    if_Completes (leb n (2 ^ w - 1)) (with_result exact (of t (uint n)))
      (truncated (of t (uint (2 ^ w - 1)))) (with_result-Completes exact (of t (uint n))) tt

parse_bool-Completes : (s : Bytes) → Completes (parse_bool s)
unfolding parse_bool
parse_bool-Completes s =
    let otherwise =
      if str_eq s (b'f' ∷ b'a' ∷ b'l' ∷ b's' ∷ b'e' ∷ []) || str_eq s (b'0' ∷ [])
      then success (of bool (b false))
      else fail in
    if_Completes (str_eq s (b't' ∷ b'r' ∷ b'u' ∷ b'e' ∷ []) || str_eq s (b'1' ∷ []))
      (success (of bool (b true))) otherwise tt
      (if_Completes (str_eq s (b'f' ∷ b'a' ∷ b'l' ∷ b's' ∷ b'e' ∷ []) || str_eq s (b'0' ∷ []))
        (success (of bool (b false))) fail tt tt)

module _ (R : Runtime) where
  parse_int-Completes :
      (s : Bytes) (t : VariantType)
      → ((z : ℤ) → Completes (switch_int t z))
      → Completes (parse_generic_int R s t)
  unfolding parse_generic_int
  parse_int-Completes s t h = elim (Option-cases (int_or_float R s)) [
    | inl e ↦ rw (parse_generic_int, e) tt
    | inr ((true, z), e) ↦ rw (parse_generic_int, e) (h z)
    | inr ((false, z), e) ↦ rw (parse_generic_int, e) tt
  ]

  parse_uint-Completes :
      (s : Bytes) (t : VariantType)
      → ((exact : Bool) (n : ℕ) → Completes (switch_uint exact t n))
      → Completes (parse_generic_uint R s t)
  unfolding parse_generic_uint
  parse_uint-Completes s t h = elim (Option-cases (uint_or_float R s)) [
    | inl e ↦ rw (parse_generic_uint, e) tt
    | inr ((exact, n), e) ↦ rw (parse_generic_uint, e) (h exact n)
  ]

  parse_float-Completes :
      (s : Bytes) (t : VariantType)
      → ((x : ℕ) → Completes (switch_float R t x))
      → Completes (parse_generic_float R s t)
  unfolding parse_generic_float
  parse_float-Completes s t h = elim (Option-cases (parse_floating_point R s)) [
    | inl e ↦ rw (parse_generic_float, e) tt
    | inr (x, e) ↦ rw (parse_generic_float, e) (h x)
  ]

  string-Completes : (s : Bytes) (j : Json) → R.parse_json s ≡ j → Completes (parse_string R s)
  unfolding parse_string
  string-Completes s (array_node nodes) e = rw (parse_string, e) tt
  string-Completes s (string_node t) e = rw (parse_string, e) tt
  string-Completes s other_node e = rw (parse_string, e) tt

  -- The conversion to the type of a single value fails no assertion.
  pub from_string-Completes :
      (s : Bytes) (t : VariantType) → IsElement t → Completes (from_string R s t)
  unfolding from_string switch_int switch_uint switch_float
  from_string-Completes s bool h = parse_bool-Completes s
  from_string-Completes s sint8 h = parse_int-Completes s sint8 (coerce_int-Completes 7 sint8)
  from_string-Completes s sint16 h = parse_int-Completes s sint16 (coerce_int-Completes 15 sint16)
  from_string-Completes s sint32 h = parse_int-Completes s sint32 (coerce_int-Completes 31 sint32)
  from_string-Completes s sint64 h = parse_int-Completes s sint64 (λ z. tt)
  from_string-Completes s uint8 h =
      parse_uint-Completes s uint8 (λ x. coerce_uint-Completes x 8 uint8)
  from_string-Completes s uint16 h =
      parse_uint-Completes s uint16 (λ x. coerce_uint-Completes x 16 uint16)
  from_string-Completes s uint32 h =
      parse_uint-Completes s uint32 (λ x. coerce_uint-Completes x 32 uint32)
  from_string-Completes s uint64 h =
      parse_uint-Completes s uint64 (λ x n. with_result-Completes x (of uint64 (uint n)))
  from_string-Completes s float h = parse_float-Completes s float (λ x. tt)
  from_string-Completes s double h = parse_float-Completes s double (λ x. tt)
  from_string-Completes s string h = string-Completes s (R.parse_json s) refl
  from_string-Completes s _ h = absurd h
