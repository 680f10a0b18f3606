-- ===== src/Metadata/Dimensions.antt =====
-- tweak-metadata/src/tweakmetadata.c: `parse_layout_object`. A read through a null pointer is `none`, a document that is
-- refused `some none`.
use tweaktool.Common.{
  ℕ, zero, suc, Option, none, some, List, [], ◌∷◌, ◌++◌, if◌then◌else◌, ◌>>=◌, Bytes, str_eq,
}
use tweaktool.Convert.Decimal.{strtoull}
use tweaktool.Json.{Node, get_array_size, get_array_item, get_object_field, node_as_c_str}
use tweaktool.Json.NodeType
use tweaktool.Metadata.{Layout, LayoutOrder, row_major, column_major}
use tweaktool.Metadata.Names.{dimensions_name, order_name, row_major_name, column_major_name}

-- `strtoul` with the test of `*endp`; a text with no number is left whole.
unfoldable pub parse_dimension : Bytes → Option ℕ
unfolding strtoull
parse_dimension s = elim (strtoull s) [
  | none ↦ elim s [ [] ↦ some 0 | _ ∷ _ ↦ none ]
  | some r ↦ elim r.1 [ [] ↦ some r.0 | _ ∷ _ ↦ none ]
]

-- The loop with `n` items left, from the item at `i` on.
unfoldable pub parse_dimensions : ℕ → ℕ → Option Node → List ℕ → Option (Option (List ℕ))
unfolding parse_dimension
parse_dimensions zero i ptr d = some (some d)
parse_dimensions (suc n) i ptr d = node_as_c_str (get_array_item ptr i NodeType.number) >>= λ s.
    elim (parse_dimension s) [
      | none ↦ some none
      | some x ↦ parse_dimensions n (suc i) ptr (d ++ (x ∷ []))
    ]

unfoldable pub order_named : Bytes → Option LayoutOrder
unfolding str_eq
order_named s =
    if str_eq s row_major_name
    then some row_major
    else if str_eq s column_major_name
    then some column_major
    else none

unfoldable pub parse_order : Option Bytes → Option LayoutOrder
unfolding order_named
parse_order none = some row_major
parse_order (some s) = order_named s

abbrev pub layout_of : Option (List ℕ) → Option LayoutOrder → Option Layout
layout_of d o =
    d >>= λ dimensions. o >>= λ order. some (record { order = order; dimensions = some dimensions })

-- The array of dimensions, which may be a null pointer, and the text of the order.
unfoldable pub read_layout : Option Node → Option Bytes → Option (Option Layout)
unfolding parse_dimensions parse_order
read_layout dimensions order = elim (get_array_size dimensions) [
  | none ↦ some none
  | some n ↦ parse_dimensions n 0 dimensions [] >>= λ d. some (layout_of d (parse_order order))
]

unfoldable pub parse_layout_object : Option Node → Option (Option Layout)
unfolding read_layout
parse_layout_object layout =
    read_layout (get_object_field layout dimensions_name NodeType.array)
      (node_as_c_str (get_object_field layout order_name NodeType.string))
