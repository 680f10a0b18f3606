-- ===== src/Cli/Geometry/Tests.antt =====
-- Elements of some matrices.
use tweaktool.Common.{ℕ, ◌*◌, ◌<◌, ◌≡◌, refl, [], ◌∷◌, arith}
use tweaktool.Metadata.{LayoutOrder, get_dimension, get_number_of_dimensions}
use tweaktool.Cli.Geometry.{calculate_array_index, row_index, get_factor, row_factor}
use tweaktool.Cli.Geometry.Matrix.{calculate_array_index_lem}

calculate_array_index_lem_example :
    (calculate_array_index LayoutOrder.row_major (2 ∷ 3 ∷ []) (1 ∷ 2 ∷ []) < 2 * 3)
    × (calculate_array_index LayoutOrder.row_major (2 ∷ 3 ∷ []) (1 ∷ 2 ∷ [])
          ≡ calculate_array_index LayoutOrder.row_major (2 ∷ 3 ∷ []) (1 ∷ 2 ∷ [])
        → (◌≡◌ {A = ℕ} 1 1) × ◌≡◌ {A = ℕ} 2 2)
calculate_array_index_lem_example =
    calculate_array_index_lem LayoutOrder.row_major 2 3 1 2 1 2 (omega arith, omega arith)
      (omega arith, omega arith) (omega arith)

-- The last of the six elements of a matrix of 1 by 3 by 2 is looked for behind the vector.
beyond : calculate_array_index LayoutOrder.row_major (1 ∷ 3 ∷ 2 ∷ []) (0 ∷ 2 ∷ 1 ∷ []) ≡ 7
unfolding calculate_array_index row_index get_factor row_factor get_dimension
    get_number_of_dimensions
beyond = refl
