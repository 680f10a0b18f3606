-- ===== src/Convert/Example.antt =====
-- A C library whose doubles are printed by their bits, and a JSON parser for arrays of integers.
use tweaktool.Common.{
  ℕ, zero, suc, ◌+◌, ◌/◌, ◌%◌, ◌^◌, ◌<◌, ◌≡◌, refl, sym, ◌∙◌, ap, Bool, true, false, Option, some,
  List, [], ◌∷◌, ◌++◌, map, if◌then◌else◌, Bytes, arith, ltb, ◌==◌, All, IsText, Bool-cases,
  Option-cases, inl, inr,
}
use mathlib.Core.List.{append_assoc}
use tweaktool.Common.Int.{ℤ, pos, negsuc}
use tweaktool.Variant.{is_nan}
use tweaktool.Convert.Decimal.{strtoull, digits, print_signed, print_unsigned, read_number}
use tweaktool.Convert.Numerals.{strtoull-print, StartsWithDigit, digits-StartsWithDigit}
use tweaktool.Convert.Runtime.{
  Runtime, Json, array_node, other_node, string_node, join, join_more, IsLong,
}

abbrev push : ℕ → List Bytes → List Bytes
push c [] = []
push c (t ∷ ts) = (c ∷ t) ∷ ts

-- The texts between commas up to the bracket, without spaces.
unfoldable pub fields : Bytes → List Bytes
fields [] = [] ∷ []
fields (c ∷ s) =
    let rest = fields s in
    if c == b']'
    then [] ∷ []
    else if c == b','
    then [] ∷ rest
    else if c == b' '
    then rest
    else push c rest

abbrev numbers_of : Bytes → List (Option Bytes)
numbers_of [] = []
numbers_of (c ∷ s) = if c == b']' then [] else map some (fields (c ∷ s))

unfoldable pub parse_array : Bytes → Json
unfolding fields
parse_array [] = other_node
parse_array (c ∷ s) = if c == b'[' then array_node (numbers_of s) else other_node

IsPlain : ℕ → Type 0
IsPlain c = ((c == b']') ≡ false) × ((c == b',') ≡ false) × ((c == b' ') ≡ false)

-- A text before the first field.
abbrev prefix : Bytes → List Bytes → List Bytes
prefix [] ts = ts
prefix (c ∷ s) ts = push c (prefix s ts)

fields-append : (t s : Bytes) → All IsPlain t → fields (t ++ s) ≡ prefix t (fields s)
unfolding fields IsPlain
fields-append [] s h = refl
fields-append (c ∷ t) s h = rw (h.0.0, h.0.1, h.0.2) (ap (push c) (fields-append t s h.1))

prefix_lem : (t : Bytes) (ts : List Bytes) → prefix t ([] ∷ ts) ≡ t ∷ ts
prefix_lem [] ts = refl
prefix_lem (c ∷ t) ts = ap (push c) (prefix_lem t ts)

append-IsPlain : (s t : Bytes) → All IsPlain s → All IsPlain t → All IsPlain (s ++ t)
append-IsPlain [] t h k = k
append-IsPlain (c ∷ s) t h k = (h.0, append-IsPlain s t h.1 k)

digit-IsPlain : (d : ℕ) → d < 10 → IsPlain (48 + d)
unfolding IsPlain
digit-IsPlain d h = (ground arith, ground arith, ground arith)

digits-IsPlain : (fuel n : ℕ) → All IsPlain (digits fuel n)
unfolding digits
digits-IsPlain zero n = tt
digits-IsPlain (suc fuel) n = elim (Bool-cases (ltb n 10)) [
  | inl e ↦ rw e (digit-IsPlain (n % 10) (omega arith), tt)
  | inr e ↦ rw e (
      append-IsPlain (digits fuel (n / 10)) _ (digits-IsPlain fuel (n / 10))
        (digit-IsPlain (n % 10) (omega arith), tt))
]

minus-IsPlain : IsPlain b'-'
unfolding IsPlain
minus-IsPlain = (refl, refl, refl)

print_signed-IsPlain : (z : ℤ) → All IsPlain (print_signed z)
print_signed-IsPlain (pos n) = digits-IsPlain 20 n
print_signed-IsPlain (negsuc n) = (minus-IsPlain, digits-IsPlain 20 (suc n))

fields_first :
    (z : ℤ) (zs : List ℤ)
    → fields (join_more (map print_signed zs) ++ (b']' ∷ [])) ≡ [] ∷ map print_signed zs
    → fields (print_signed z ++ join_more (map print_signed zs) ++ (b']' ∷ []))
      ≡ print_signed z ∷ map print_signed zs
fields_first z zs h =
    ap fields (append_assoc (print_signed z) (join_more (map print_signed zs)) (b']' ∷ []))
    ∙ fields-append (print_signed z) (join_more (map print_signed zs) ++ (b']' ∷ []))
        (print_signed-IsPlain z)
    ∙ ap (prefix (print_signed z)) h
    ∙ prefix_lem (print_signed z) (map print_signed zs)

fields-join_more :
    (zs : List ℤ)
    → fields (join_more (map print_signed zs) ++ (b']' ∷ [])) ≡ [] ∷ map print_signed zs
unfolding fields
fields-join_more [] = refl
fields-join_more (z ∷ zs) = ap (λ ts. [] ∷ ts) (fields_first z zs (fields-join_more zs))

numbers_of_digit :
    (t : Bytes) → StartsWithDigit t → (s : Bytes) → numbers_of (t ++ s) ≡ map some (fields (t ++ s))
numbers_of_digit [] h s = absurd h
numbers_of_digit (c ∷ t) h s = let plain : (c == b']') ≡ false = ground (arith, h) in rw plain refl

numbers_of-print :
    (z : ℤ) (s : Bytes) → numbers_of (print_signed z ++ s) ≡ map some (fields (print_signed z ++ s))
numbers_of-print (pos n) s = numbers_of_digit (print_unsigned n) (digits-StartsWithDigit 19 n) s
numbers_of-print (negsuc n) s = refl

map-some : (zs : List ℤ) → map some (map print_signed zs) ≡ map (λ z. some (print_signed z)) zs
map-some [] = refl
map-some (z ∷ zs) = ap (λ ts. some (print_signed z) ∷ ts) (map-some zs)

numbers_of-join :
    (zs : List ℤ)
    → numbers_of (join (map print_signed zs) ++ (b']' ∷ [])) ≡ map (λ z. some (print_signed z)) zs
numbers_of-join [] = refl
numbers_of-join (z ∷ zs) =
    let more = join_more (map print_signed zs) in
    ap numbers_of (append_assoc (print_signed z) more (b']' ∷ []))
    ∙ numbers_of-print z (more ++ (b']' ∷ []))
    ∙ ap (map some) (
        sym (ap fields (append_assoc (print_signed z) more (b']' ∷ [])))
        ∙ fields_first z zs (fields-join_more zs))
    ∙ map-some (z ∷ zs)

pub parse_array-join :
    (zs : List ℤ)
    → All IsLong zs
    → parse_array (b'[' ∷ (join (map print_signed zs) ++ (b']' ∷ [])))
      ≡ array_node (map (λ z. some (print_signed z)) zs)
unfolding parse_array
parse_array-join zs h = ap array_node (numbers_of-join zs)

is_string : Json → Bool
is_string (string_node t) = true
is_string _ = false

pub parse_array-IsText : (s t : Bytes) → parse_array s ≡ string_node t → IsText t
unfolding parse_array is_string
parse_array-IsText [] t e = cc (ap is_string e)
parse_array-IsText (c ∷ s) t e = elim (Bool-cases (c == b'[')) [
  | inl h ↦ ground (arith, h, e, ap is_string e)
  | inr h ↦ ground (arith, h, e, ap is_string e)
]

pub strtoull_lt : (s rest : Bytes) (x : ℕ) → strtoull s ≡ some (x, rest) → x < 2 ^ 64
unfolding strtoull
strtoull_lt s rest x e = elim (Option-cases (read_number s)) [
  | inl h ↦ ground (arith, h, e)
  | inr (m, h) ↦ ground (arith, h, e)
]

pub small_number : (x : ℕ) → x < 2 ^ 32 → is_nan 8 23 x ≡ false → is_nan 11 52 x ≡ false
small_number x h k = ground (arith, h)

pub mod_lt : (x : ℕ) → x % 2 ^ 32 < 2 ^ 32
mod_lt x = omega arith

pub mod_long : (x : ℕ) → x % 2 ^ 64 < 2 ^ 64
mod_long x = omega arith

pub mod_small : (x : ℕ) → x < 2 ^ 32 → is_nan 8 23 x ≡ false → x % 2 ^ 32 ≡ x
mod_small x h k = omega arith

pub small_long : (x : ℕ) → x < 2 ^ 32 → x < 2 ^ 64
small_long x h = omega (arith, h)

pub print_number :
    (x : ℕ) → x < 2 ^ 64 → is_nan 11 52 x ≡ false → strtoull (print_unsigned x) ≡ some (x, [])
print_number x h k = strtoull-print x h

abbrev pub runtime : Runtime
runtime = record {
  strtod = strtoull;
  less = ltb;
  to_int64 = pos;
  to_uint64 = λ x. x % 2 ^ 64;
  to_float = λ x. x % 2 ^ 32;
  to_double = λ x. x;
  print_double = print_unsigned;
  parse_json = parse_array;
  strtod_lt = strtoull_lt;
  to_float_lt = mod_lt;
  to_uint64_lt = mod_long;
  to_double_lt = small_long;
  to_double_number = small_number;
  to_float-to_double = mod_small;
  strtod-print_double = print_number;
  parse_json-IsText = parse_array-IsText;
  parse_json-join = parse_array-join;
}
