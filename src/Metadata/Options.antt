-- ===== src/Metadata/Options.antt =====
-- tweak-metadata/src/tweakmetadata.c: `parse_options_array`. A failed assertion is `none`, a document that is refused
-- `some none`.
use tweaktool.Common.{ℕ, zero, suc, Option, none, some, List, [], ◌∷◌, ◌++◌, ◌>>=◌, Bytes}
use tweaktool.Variant.{VariantType, Variant}
use tweaktool.Convert.Parse.{of, from_string}
use tweaktool.Convert.Runtime.{Runtime}
use tweaktool.Json.{
  Node, string, object, get_array_size, get_array_item, get_object_field, node_as_c_str,
}
use tweaktool.Json.NodeType
use tweaktool.Metadata.{MetaOption, copy_variant}
use tweaktool.Metadata.Names.{text_name, value_name}
use tweaktool.Metadata.Values.{converted, variant_increment, zero_of}

-- The options so far, and `default_value`.
abbrev pub State : Type 0
State = List MetaOption × Variant

-- `utarray_push_back` of an option with a copy of `default_value`.
abbrev pub push_option : List MetaOption → Bytes → Variant → Option (Option State)
push_option os s v =
    copy_variant v >>= λ w. some (some (os ++ (record { text = s; value = w } ∷ []), v))

-- Each item but the first begins with an increment.
abbrev pub begin_item : ℕ → State → Option State
begin_item zero s = some s
begin_item (suc i) s = variant_increment s.1 >>= λ v. some (s.0, v)

abbrev pub push_converted : List MetaOption → Bytes → Option Variant → Option (Option State)
push_converted os s none = some none
push_converted os s (some v) = push_option os s v

module _ (R : Runtime) where
  abbrev pub push_node :
      List MetaOption → Option Bytes → Option Bytes → Variant → Option (Option State)
  push_node os (some s) (some v) default =
      converted (from_string R v default.type) >>= push_converted os s
  push_node os _ _ default = some none

  -- An object with a text and a value, which later options without a value count on from.
  unfoldable pub parse_option_node : Node → State → Option (Option State)
  unfolding from_string
  parse_option_node node s =
      push_node s.0 (node_as_c_str (get_object_field (some node) text_name NodeType.string))
        (node_as_c_str (get_object_field (some node) value_name 48)) s.1

  abbrev pub parse_item : Option Node → State → Option (Option State)
  parse_item (some (string text)) s = push_option s.0 text s.1
  parse_item (some (object fs)) s = parse_option_node (object fs) s
  parse_item _ s = some none

  abbrev pub step_item : Option Node → Option State → Option (Option State)
  step_item item none = some none
  step_item item (some s) = parse_item item s

  -- The loop with `n` items left, from the item at `i` on.
  unfoldable pub parse_options_from : ℕ → ℕ → Option Node → Option State → Option (Option State)
  unfolding parse_option_node
  parse_options_from zero i ptr r = some r
  parse_options_from (suc n) i ptr none = some none
  parse_options_from (suc n) i ptr (some s) =
      step_item (get_array_item ptr i 12) (begin_item i s) >>= parse_options_from n (suc i) ptr

  -- `none` inside is the result false; the array is a null pointer where the node is no array.
  unfoldable pub parse_options_array :
      Option Node → VariantType → Option (Option (Option (List MetaOption)))
  unfolding parse_options_from zero_of
  parse_options_array node t = elim (get_array_size node) [
    | none ↦ some (some none)
    | some n ↦ parse_options_from n 0 node (some ([], of t (zero_of t))) >>= λ r.
        some (r >>= λ s. some (some s.0))
  ]
