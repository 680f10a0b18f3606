-- ===== src/Convert/Vectors.antt =====
-- Reading back a printed vector of integers (tweak-common/src/tweakvariant.c).
use tweaktool.Common.{
  ℕ, zero, suc, ◌*◌, ◌/◌, ◌^◌, ◌<◌, ◌≤◌, ◌≡◌, refl, sym, subst, ◌∙◌, ap, ap₂, true, false, Option,
  some, List, [], ◌∷◌, ◌++◌, map, length, drop, All, length-drop, length-map, Bytes, arith,
  take-append-drop, ◌==◌,
}
use tweaktool.Common.Int.{ℤ, pos, negsuc}
use tweaktool.Variant.{
  VariantType, sint8, sint16, sint32, sint64, uint8, uint16, uint32, uint64, buffer,
}
use tweaktool.Variant.Types.{InRange}
use tweaktool.Words.{
  load_le, store_le, of_bits, bound, load_le-lt, AreBytes, drop-AreBytes, store_le-load_le,
  to_bits-of_bits8, to_bits-of_bits16, to_bits-of_bits32, to_bits-of_bits64, of_bits-InRange8,
  of_bits-InRange16, of_bits-InRange32, of_bits-InRange64,
}
use tweaktool.Convert.Decimal.{print_signed}
use tweaktool.Convert.Runtime.{Runtime, join, join_more, IsLong, array_node}
use tweaktool.Convert.Parse.{success, of, item, parse_scalar, parse_items, parse_vector}
use tweaktool.Convert.Print.{scalar_to_string, items_to_string, vector_to_string}
use tweaktool.Convert.Scalars.{
  parse-sint8, parse-sint16, parse-sint32, parse-sint64, parse-uint8, parse-uint16, parse-uint32,
  parse-uint64,
}

-- The integer types and their sizes.
pub data IsInteger : VariantType → ℕ → Type 0 where
  is_sint8 : IsInteger sint8 1
  is_sint16 : IsInteger sint16 2
  is_sint32 : IsInteger sint32 4
  is_sint64 : IsInteger sint64 8
  is_uint8 : IsInteger uint8 1
  is_uint16 : IsInteger uint16 2
  is_uint32 : IsInteger uint32 4
  is_uint64 : IsInteger uint64 8

abbrev number : VariantType → ℕ → ℤ
number sint8 x = of_bits 8 x
number sint16 x = of_bits 16 x
number sint32 x = of_bits 32 x
number sint64 x = of_bits 64 x
number _ x = pos x

abbrev numbers : VariantType → ℕ → ℕ → Bytes → List ℤ
numbers t size zero s = []
numbers t size (suc n) s = number t (load_le size s) ∷ numbers t size n (drop size s)

length-numbers : (t : VariantType) (size n : ℕ) (s : Bytes) → length (numbers t size n s) ≡ n
length-numbers t size zero s = refl
length-numbers t size (suc n) s = ap suc (length-numbers t size n (drop size s))

InRange-IsLong : (z : ℤ) → InRange 63 z → IsLong z
InRange-IsLong (pos n) h = omega (arith, h)
InRange-IsLong (negsuc n) h = h

narrow-IsLong : (w : ℕ) (z : ℤ) → 2 ^ w ≤ 2 ^ 63 → InRange w z → IsLong z
narrow-IsLong w (pos n) k h = omega (arith, h, k)
narrow-IsLong w (negsuc n) k h = omega (arith, h, k)

number-IsLong :
    {t : VariantType} {size : ℕ} → IsInteger t size → (x : ℕ) → x < bound size → IsLong (number t x)
number-IsLong is_sint8 x h = narrow-IsLong 7 (of_bits 8 x) (omega arith) (of_bits-InRange8 x h)
number-IsLong is_sint16 x h = narrow-IsLong 15 (of_bits 16 x) (omega arith) (of_bits-InRange16 x h)
number-IsLong is_sint32 x h = narrow-IsLong 31 (of_bits 32 x) (omega arith) (of_bits-InRange32 x h)
number-IsLong is_sint64 x h = narrow-IsLong 63 (of_bits 64 x) (omega arith) (of_bits-InRange64 x h)
number-IsLong is_uint8 x h = omega (arith, h)
number-IsLong is_uint16 x h = omega (arith, h)
number-IsLong is_uint32 x h = omega (arith, h)
number-IsLong is_uint64 x h = h

numbers-IsLong :
    {t : VariantType} {size : ℕ} (k : IsInteger t size) (n : ℕ) (s : Bytes)
    → AreBytes s
    → All IsLong (numbers t size n s)
numbers-IsLong k zero s ok = tt
numbers-IsLong {t} {size} k (suc n) s ok = (
  number-IsLong k (load_le size s) (load_le-lt size s ok),
  numbers-IsLong k n (drop size s) (drop-AreBytes size s ok),
)

size-pos : {t : VariantType} {size : ℕ} → IsInteger t size → 0 < size
size-pos is_sint8 = omega arith
size-pos is_sint16 = omega arith
size-pos is_sint32 = omega arith
size-pos is_sint64 = omega arith
size-pos is_uint8 = omega arith
size-pos is_uint16 = omega arith
size-pos is_uint32 = omega arith
size-pos is_uint64 = omega arith

quotient_pos : (length n size : ℕ) → 0 < length → length ≡ n * size → 0 < n
quotient_pos length zero size h e = absurd (omega (arith, h, e))
quotient_pos length (suc n) size h e = omega arith

module _ (R : Runtime) where
  -- The printed number is read as an item with the same bits.
  item_lem :
      {t : VariantType} {size : ℕ} (k : IsInteger t size) (x : ℕ)
      → x < bound size
      → item size t (parse_scalar R t (print_signed (number t x))) ≡ some (false, store_le size x)
  item_lem is_sint8 x h =
      ap (item 1 sint8) (parse-sint8 R (of_bits 8 x) (of_bits-InRange8 x h))
      ∙ ap (λ y. some (false, store_le 1 y)) (to_bits-of_bits8 x h)
  item_lem is_sint16 x h =
      ap (item 2 sint16) (parse-sint16 R (of_bits 16 x) (of_bits-InRange16 x h))
      ∙ ap (λ y. some (false, store_le 2 y)) (to_bits-of_bits16 x h)
  item_lem is_sint32 x h =
      ap (item 4 sint32) (parse-sint32 R (of_bits 32 x) (of_bits-InRange32 x h))
      ∙ ap (λ y. some (false, store_le 4 y)) (to_bits-of_bits32 x h)
  item_lem is_sint64 x h =
      ap (item 8 sint64) (parse-sint64 R (of_bits 64 x) (of_bits-InRange64 x h))
      ∙ ap (λ y. some (false, store_le 8 y)) (to_bits-of_bits64 x h)
  item_lem is_uint8 x h = ap (item 1 uint8) (parse-uint8 R x h)
  item_lem is_uint16 x h = ap (item 2 uint16) (parse-uint16 R x h)
  item_lem is_uint32 x h = ap (item 4 uint32) (parse-uint32 R x h)
  item_lem is_uint64 x h = ap (item 8 uint64) (parse-uint64 R x h)

  scalar_to_string_lem :
      {t : VariantType} {size : ℕ} (k : IsInteger t size) (x : ℕ)
      → scalar_to_string R t x ≡ print_signed (number t x)
  unfolding scalar_to_string
  scalar_to_string_lem is_sint8 x = refl
  scalar_to_string_lem is_sint16 x = refl
  scalar_to_string_lem is_sint32 x = refl
  scalar_to_string_lem is_sint64 x = refl
  scalar_to_string_lem is_uint8 x = refl
  scalar_to_string_lem is_uint16 x = refl
  scalar_to_string_lem is_uint32 x = refl
  scalar_to_string_lem is_uint64 x = refl

  items_more :
      {t : VariantType} {size : ℕ} (k : IsInteger t size) (n : ℕ) (s : Bytes)
      → items_to_string R size t false n s ≡ join_more (map print_signed (numbers t size n s))
  unfolding items_to_string
  items_more k zero s = refl
  items_more {t} {size} k (suc n) s =
      ap₂ (λ u v. b',' ∷ b' ' ∷ (u ++ v)) (scalar_to_string_lem k (load_le size s))
        (items_more k n (drop size s))

  items_first :
      {t : VariantType} {size : ℕ} (k : IsInteger t size) (n : ℕ) (s : Bytes)
      → items_to_string R size t true n s ≡ join (map print_signed (numbers t size n s))
  unfolding items_to_string
  items_first k zero s = refl
  items_first {t} {size} k (suc n) s =
      ap₂ (λ u v. u ++ v) (scalar_to_string_lem k (load_le size s)) (items_more k n (drop size s))

  parse_items_step :
      (size : ℕ) (t : VariantType) (u : Bytes) (nodes : List (Option Bytes)) (x y : Bytes)
      → item size t (parse_scalar R t u) ≡ some (false, x)
      → parse_items R size t nodes ≡ some (false, y)
      → parse_items R size t (some u ∷ nodes) ≡ some (false, x ++ y)
  unfolding parse_items
  parse_items_step size t u nodes x y p q = rw (p, q)

  parse_items_lem :
      {t : VariantType} {size : ℕ} (k : IsInteger t size) (n : ℕ) (s : Bytes)
      → AreBytes s
      → length s ≡ n * size
      → parse_items R size t (map (λ z. some (print_signed z)) (numbers t size n s))
        ≡ some (false, s)
  parse_items_lem k zero [] ok e = unfold parse_items in refl
  parse_items_lem k zero (c ∷ s) ok e = absurd (omega (arith, e))
  parse_items_lem {t} {size} k (suc n) s ok e =
      let left : length (drop size s) ≡ n * size = grind (arith, e, length-drop size s) in
      let fits : size ≤ length s = grind (arith, e) in
      parse_items_step size t (print_signed (number t (load_le size s)))
        (map (λ z. some (print_signed z)) (numbers t size n (drop size s)))
        (store_le size (load_le size s)) (drop size s)
        (item_lem k (load_le size s) (load_le-lt size s ok))
        (parse_items_lem k n (drop size s) (drop-AreBytes size s ok) left)
      ∙ ap (λ r. some (false, r))
          (ap (λ r. r ++ drop size s) (store_le-load_le size s ok fits) ∙ take-append-drop size s)

  parse_vector_step :
      (size : ℕ) (t vector_type : VariantType) (u : Bytes) (nodes : List (Option Bytes)) (x : Bytes)
      → R.parse_json u ≡ array_node nodes
      → 0 < length nodes
      → parse_items R size t nodes ≡ some (false, x)
      → parse_vector R size t vector_type u ≡ success (of vector_type (buffer x))
  unfolding parse_vector
  parse_vector_step size t vector_type u nodes x p h q =
      let many : (length nodes == 0) ≡ false = ground (arith, h) in rw (parse_vector, p, many, q)

  -- A printed vector of integers is read back.
  pub parse_vector-print :
      {t : VariantType} {size : ℕ} (k : IsInteger t size) (vector_type : VariantType) (s : Bytes)
      → AreBytes s
      → 0 < length s
      → length s ≡ (length s / size) * size
      → parse_vector R size t vector_type (vector_to_string R size t s)
        ≡ success (of vector_type (buffer s))
  unfolding vector_to_string
  parse_vector-print {t} {size} k vector_type s ok h e =
      let n = length s / size in
      let zs = numbers t size n s in
      let some_items : 0 < n = quotient_pos (length s) n size h e in
      parse_vector_step size t vector_type (vector_to_string R size t s)
        (map (λ z. some (print_signed z)) zs) s
        (ap (λ u. R.parse_json (b'[' ∷ (u ++ (b']' ∷ [])))) (items_first k n s)
          ∙ R.parse_json-join zs (numbers-IsLong k n s ok))
        (subst (λ m. 0 < m)
          (sym (length-map zs (λ z. some (print_signed z)) ∙ length-numbers t size n s)) some_items)
        (parse_items_lem k n s ok e)
