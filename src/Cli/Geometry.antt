-- ===== src/Cli/Geometry.antt =====
-- tweak-app-cl/src/metadatautil.c: where the element of a matrix lies in its vector.
use tweaktool.Common.{ℕ, zero, suc, ◌+◌, ◌*◌, ◌%◌, ◌^◌, List, [], ◌∷◌, length, get_or}
use tweaktool.Metadata.{
  LayoutOrder, row_major, column_major, get_dimension, get_number_of_dimensions,
}
pub mod Matrix
mod Tests

-- The loops of `array_geom_get_factor` with `left` rounds left, in `size_t`; in row-major order the rounds go down from
-- the dimension `left`, in column-major order up from the dimension `k`.
unfoldable pub row_factor : List ℕ → ℕ → ℕ → ℕ
unfolding get_dimension
row_factor d zero acc = acc
row_factor d (suc left) acc = row_factor d left (acc * get_dimension d (suc left) % 2 ^ 64)

unfoldable pub column_factor : List ℕ → ℕ → ℕ → ℕ → ℕ
unfolding get_dimension
column_factor d zero k acc = acc
column_factor d (suc left) k acc = column_factor d left (suc k) (acc * get_dimension d k % 2 ^ 64)

unfoldable pub get_factor : LayoutOrder → List ℕ → ℕ → ℕ
unfolding row_factor column_factor
get_factor row_major d n = row_factor d n 1
get_factor column_major d n = column_factor d n 0 1

-- The index of a dimension; there is one for each.
abbrev pub get_index : List ℕ → ℕ → ℕ
get_index indices k = get_or indices k 0

-- The loops of `array_geom_calculate_array_index`, at the dimension `k` with `left` rounds left.
unfoldable pub row_index : List ℕ → List ℕ → ℕ → ℕ → ℕ → ℕ
unfolding get_factor
row_index d indices zero k acc = acc
row_index d indices (suc left) k acc =
    row_index d indices left (suc k)
      ((acc + get_factor row_major d left * get_index indices k % 2 ^ 64) % 2 ^ 64)

unfoldable pub column_index : List ℕ → List ℕ → ℕ → ℕ → ℕ → ℕ
unfolding get_factor
column_index d indices zero k acc = acc
column_index d indices (suc left) k acc =
    column_index d indices left (suc k)
      ((acc + get_factor column_major d k * get_index indices k % 2 ^ 64) % 2 ^ 64)

unfoldable pub calculate_array_index : LayoutOrder → List ℕ → List ℕ → ℕ
unfolding row_index column_index get_number_of_dimensions
calculate_array_index row_major d indices = row_index d indices (get_number_of_dimensions d) 0 0
calculate_array_index column_major d indices =
    column_index d indices (get_number_of_dimensions d) 0 0
