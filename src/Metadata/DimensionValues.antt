-- ===== src/Metadata/DimensionValues.antt =====
-- `parse_layout_object` of tweak-metadata/src/tweakmetadata.c has a result where each dimension is a number.
use tweaktool.Common.{
  ℕ, zero, suc, ◌+◌, ◌≤◌, ◌<◌, ◌≡◌, inl, inr, refl, ap, true, Option, none, some, List, [], ◌∷◌,
  ◌++◌, Bytes, arith, Option-cases,
}
use tweaktool.Json.{
  Node, Items, null, array, object, string, bool, number, nil, cons, items_length, item_at, expect,
  get_array_size, get_array_item, get_object_field, node_as_c_str, has_type, node_type,
}
use tweaktool.Json.NodeType
use tweaktool.Metadata.{Layout, LayoutOrder}
use tweaktool.Metadata.Names.{dimensions_name, order_name}
use tweaktool.Metadata.Yields.{Yields, yields, Yields-bind}
use tweaktool.Metadata.Initial.{LayoutFits}
use tweaktool.Metadata.Dimensions.{
  parse_dimension, parse_dimensions, parse_order, layout_of, read_layout, parse_layout_object,
}

abbrev pub AllNumbers : Items → Type 0
AllNumbers nil = Unit {0}
AllNumbers (cons (number s) xs) = AllNumbers xs
AllNumbers (cons _ xs) = ⊥

-- The dimensions of a layout, if it has any, are numbers.
abbrev pub HasNumericDimensions : Option Node → Type 0
HasNumericDimensions layout =
    (xs : Items)
    → get_object_field layout dimensions_name NodeType.array ≡ some (array xs)
    → AllNumbers xs

number_at :
    (xs : Items) (i : ℕ)
    → AllNumbers xs
    → i < items_length xs
    → (s : Bytes) × (get_array_item (some (array xs)) i NodeType.number ≡ some (number s))
unfolding get_array_item item_at expect items_length has_type node_type
number_at nil i h k = absurd (omega (arith, k))
number_at (cons (number s) xs) zero h k = (s, refl)
number_at (cons (number s) xs) (suc i) h k = number_at xs i h (omega (arith, k))
number_at (cons null xs) i h k = absurd h
number_at (cons (array x) xs) i h k = absurd h
number_at (cons (object x) xs) i h k = absurd h
number_at (cons (string x) xs) i h k = absurd h
number_at (cons (bool x) xs) i h k = absurd h

abbrev Anything : Option (List ℕ) → Type 0
Anything d = Unit {0}

step_dimension :
    (xs : Items) (n i : ℕ) (d : List ℕ) (s : Bytes)
    → get_array_item (some (array xs)) i NodeType.number ≡ some (number s)
    → ((x : ℕ) → Yields Anything (parse_dimensions n (suc i) (some (array xs)) (d ++ (x ∷ []))))
    → Yields Anything (parse_dimensions (suc n) i (some (array xs)) d)
unfolding parse_dimensions node_as_c_str
step_dimension xs n i d s e h =
    Yields-bind {P = λ (u : Bytes). Unit {0}} {Q = Anything}
      (node_as_c_str (get_array_item (some (array xs)) i NodeType.number)) _
      (s, ap node_as_c_str e, tt)
      (λ u _. elim (Option-cases (parse_dimension u)) [
        | inl q ↦ rw q (yields none tt)
        | inr (x, q) ↦ rw q (h x)
      ])

parse_dimensions_lem :
    (xs : Items) (n i : ℕ) (d : List ℕ)
    → AllNumbers xs
    → i + n ≤ items_length xs
    → Yields Anything (parse_dimensions n i (some (array xs)) d)
unfolding parse_dimensions
parse_dimensions_lem xs zero i d h k = yields _ tt
parse_dimensions_lem xs (suc n) i d h k =
    let r = number_at xs i h (omega (arith, k)) in
    step_dimension xs n i d r.0 r.1
      (λ x. parse_dimensions_lem xs n (suc i) (d ++ (x ∷ [])) h (omega (arith, k)))

-- A layout that was read has dimensions.
abbrev pub LayoutRead : Option Layout → Type 0
LayoutRead none = Unit {0}
LayoutRead (some l) = LayoutFits true l.dimensions

layout_of_lem : (d : Option (List ℕ)) (o : Option LayoutOrder) → LayoutRead (layout_of d o)
layout_of_lem none o = tt
layout_of_lem (some d) none = tt
layout_of_lem (some d) (some o) = tt

read_layout_lem :
    (dimensions : Option Node) (order : Option Bytes)
    → ((xs : Items) → dimensions ≡ some (array xs) → AllNumbers xs)
    → Yields LayoutRead (read_layout dimensions order)
unfolding read_layout get_array_size
read_layout_lem (some (array xs)) order h =
    Yields-bind {P = Anything} {Q = LayoutRead}
      (parse_dimensions (items_length xs) 0 (some (array xs)) []) _
      (parse_dimensions_lem xs (items_length xs) 0 [] (h xs refl) (omega arith))
      (λ d q. yields _ (layout_of_lem d (parse_order order)))
read_layout_lem none order h = yields none tt
read_layout_lem (some null) order h = yields none tt
read_layout_lem (some (object fs)) order h = yields none tt
read_layout_lem (some (string s)) order h = yields none tt
read_layout_lem (some (bool s)) order h = yields none tt
read_layout_lem (some (number s)) order h = yields none tt

pub parse_layout_object_lem :
    (layout : Option Node)
    → HasNumericDimensions layout
    → Yields LayoutRead (parse_layout_object layout)
unfolding parse_layout_object
parse_layout_object_lem layout h =
    read_layout_lem (get_object_field layout dimensions_name NodeType.array)
      (node_as_c_str (get_object_field layout order_name NodeType.string)) h
