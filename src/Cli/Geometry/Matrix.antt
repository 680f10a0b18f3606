-- ===== src/Cli/Geometry/Matrix.antt =====
-- The elements of a matrix of two dimensions (tweak-app-cl/src/metadatautil.c).
use tweaktool.Common.{ℕ, ◌+◌, ◌*◌, ◌/◌, ◌%◌, ◌^◌, ◌<◌, ◌≤◌, ◌≡◌, sym, ◌∙◌, ap, [], ◌∷◌, arith}
use native.Mathlib.Nat.{
  mul-le-mul_left, mul_comm, mod-eq_of_lt, mul-add-mod_self_left, mul-div_cancel_left,
}
use tweaktool.Metadata.{
  LayoutOrder, row_major, column_major, get_dimension, get_number_of_dimensions,
}
use tweaktool.Cli.Geometry.{
  row_factor, column_factor, get_factor, row_index, column_index, calculate_array_index,
}

-- An element of the matrix lies in the vector.
inside : (i j r c : ℕ) → i < r → j < c → c * i + j < r * c
inside i j r c h k =
    let p : c * (1 + i) ≤ c * r = mul-le-mul_left c (omega (arith, h)) in
    let q : r * c ≡ c * r = mul_comm r c in omega (arith, p, q, k)

-- The extents are sizes too.
extent : (r c : ℕ) → 0 < r → r * c < 2 ^ 64 → 1 * c % 2 ^ 64 ≡ c
extent r c h room =
    let p : c * 1 ≤ c * r = mul-le-mul_left c (omega (arith, h)) in
    let q : r * c ≡ c * r = mul_comm r c in omega (arith, p, q, room)

wrapped_row :
    (n i j : ℕ)
    → n * i + j < 2 ^ 64
    → ((0 + n * i % 2 ^ 64) % 2 ^ 64 + 1 * j % 2 ^ 64) % 2 ^ 64 ≡ n * i + j
wrapped_row n i j h = omega (arith, h)

wrapped_column :
    (n i j : ℕ)
    → n * j + i < 2 ^ 64
    → ((0 + 1 * i % 2 ^ 64) % 2 ^ 64 + n * j % 2 ^ 64) % 2 ^ 64 ≡ n * j + i
wrapped_column n i j h = omega (arith, h)

row_major_lem :
    (r c i j : ℕ)
    → i < r
    → j < c
    → r * c < 2 ^ 64
    → calculate_array_index row_major (r ∷ c ∷ []) (i ∷ j ∷ []) ≡ c * i + j
unfolding calculate_array_index row_index get_factor row_factor get_dimension
    get_number_of_dimensions
row_major_lem r c i j h k room =
    ap (λ n. ((0 + n * i % 2 ^ 64) % 2 ^ 64 + 1 * j % 2 ^ 64) % 2 ^ 64)
      (extent r c (omega (arith, h)) room)
    ∙ wrapped_row c i j (omega (arith, inside i j r c h k, room))

column_major_lem :
    (r c i j : ℕ)
    → i < r
    → j < c
    → r * c < 2 ^ 64
    → calculate_array_index column_major (r ∷ c ∷ []) (i ∷ j ∷ []) ≡ r * j + i
unfolding calculate_array_index column_index get_factor column_factor get_dimension
    get_number_of_dimensions
column_major_lem r c i j h k room =
    let q : r * c ≡ c * r = mul_comm r c in
    ap (λ n. ((0 + 1 * i % 2 ^ 64) % 2 ^ 64 + n * j % 2 ^ 64) % 2 ^ 64)
      (extent c r (omega (arith, k)) (omega (arith, q, room)))
    ∙ wrapped_column r i j (omega (arith, inside j i c r k h, q, room))

abbrev pub InMatrix : ℕ → ℕ → ℕ → ℕ → Type 0
InMatrix r c i j = (i < r) × (j < c)

pub index_lt :
    (o : LayoutOrder) (r c i j : ℕ)
    → InMatrix r c i j
    → r * c < 2 ^ 64
    → calculate_array_index o (r ∷ c ∷ []) (i ∷ j ∷ []) < r * c
index_lt row_major r c i j (h, k) room =
    omega (arith, row_major_lem r c i j h k room, inside i j r c h k)
index_lt column_major r c i j (h, k) room =
    omega (arith, column_major_lem r c i j h k room, inside j i c r k h, mul_comm r c)

-- Quotient and remainder determine a place.
same_place : (n i j x y : ℕ) → j < n → y < n → n * i + j ≡ n * x + y → (i ≡ x) × (j ≡ y)
same_place n i j x y h k e =
    let q : j ≡ y =
      sym (mod-eq_of_lt h)
      ∙ sym (mul-add-mod_self_left n i j)
      ∙ ap (λ z. z % n) e
      ∙ mul-add-mod_self_left n x y
      ∙ mod-eq_of_lt k in
    let p : n * i ≡ n * x = omega (arith, e, q) in
    let pos : 0 < n = omega (arith, h) in
    (sym (mul-div_cancel_left i pos) ∙ ap (λ z. z / n) p ∙ mul-div_cancel_left x pos, q)

-- In a matrix of two dimensions whose number of elements is a size, each element has a place in the vector, in both orders,
-- and different elements have different places.
pub calculate_array_index_lem :
    (o : LayoutOrder) (r c i j x y : ℕ)
    → InMatrix r c i j
    → InMatrix r c x y
    → r * c < 2 ^ 64
    → (calculate_array_index o (r ∷ c ∷ []) (i ∷ j ∷ []) < r * c)
      × (calculate_array_index o (r ∷ c ∷ []) (i ∷ j ∷ [])
            ≡ calculate_array_index o (r ∷ c ∷ []) (x ∷ y ∷ [])
          → (i ≡ x) × (j ≡ y))
calculate_array_index_lem row_major r c i j x y h k room = (
  index_lt row_major r c i j h room,
  λ e.
      same_place c i j x y h.1 k.1
        (sym (row_major_lem r c i j h.0 h.1 room) ∙ e ∙ row_major_lem r c x y k.0 k.1 room),
)
calculate_array_index_lem column_major r c i j x y h k room = (
  index_lt column_major r c i j h room,
  λ e.
      let p =
        same_place r j i y x h.0 k.0 (
          sym (column_major_lem r c i j h.0 h.1 room)
          ∙ e
          ∙ column_major_lem r c x y k.0 k.1 room) in
      (p.1, p.0),
)
