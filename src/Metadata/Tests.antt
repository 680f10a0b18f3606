-- ===== src/Metadata/Tests.antt =====
-- Metadata of single items.
use tweaktool.Common.{
  ◌≡◌, refl, inl, inr, true, subst, Option, none, some, List, [], ◌∷◌, Bytes, arith,
}
use tweaktool.Common.Int.{pos}
use tweaktool.Variant.{VariantType, Value}
use tweaktool.Convert.Example.{runtime}
use tweaktool.Convert.Parse.{of}
use tweaktool.Json.{Node, array, get_object_field, find_field, expect, has_type, node_type}
use tweaktool.Json.NodeType
use tweaktool.Metadata.{Metadata, ControlType, copy, zeroed}
use tweaktool.Metadata.Example.{
  library, empty_text, readonly_text, layout_text, empty_document, parse,
}
use tweaktool.Metadata.DimensionValues.{AllNumbers}
use tweaktool.Metadata.Names.{decimals_name, step_name}
use tweaktool.Metadata.Defaults.{fill_with_defaults}
use tweaktool.Metadata.Update.{create, validate_metadata, validate_metadata_integer}
use tweaktool.Metadata.Merged.{HasNumericLayout}
use tweaktool.Metadata.Valid.{IsValid, create-IsValid}
use tweaktool.Metadata.Options.{parse_options_array}
use tweaktool.Metadata.Numbering.{strings, parse_options_array-strings}
use tweaktool.Metadata.Counting.{numbered}
use tweaktool.Metadata.Copied.{SameView, copy_lem}
use tweaktool.Metadata.Ignored.{IsPlain, create-default}
use tweaktool.Metadata.Decimals.{create-decimals}

abbrev Numeric : Option Node → Type 0
Numeric (some (array xs)) = AllNumbers xs
Numeric _ = Unit {0}

layout_numeric : HasNumericLayout (parse layout_text)
unfolding get_object_field find_field expect has_type node_type parse
layout_numeric xs e = subst Numeric e tt

create-IsValid_example :
    (m : Metadata) × (create library VariantType.vector_uint8 6 (some layout_text) ≡ some m)
    × IsValid VariantType.vector_uint8 6 m
create-IsValid_example =
    create-IsValid library VariantType.vector_uint8 6 (some layout_text) tt (omega arith)
      layout_numeric

abbrev off_on : List Bytes
off_on = (b'o' ∷ b'f' ∷ b'f' ∷ []) ∷ (b'o' ∷ b'n' ∷ []) ∷ []

abbrev switch : Metadata
switch = record zeroed {
  control_type = ControlType.combobox;
  decimals = 0;
  options_present = true;
  options = some (numbered VariantType.sint8 0 off_on);
}

switch-IsValid : IsValid VariantType.sint8 1 switch
unfolding validate_metadata validate_metadata_integer
switch-IsValid = record {
  min = inl refl;
  max = inl refl;
  step = inl refl;
  decimals = omega arith;
  options = (inr (refl, omega arith), (inr (refl, omega arith), tt));
  layout = tt;
  accepted = refl;
}

copy_lem_example : (c : Metadata) × (copy 7 switch ≡ some c) × SameView switch c × (c.decimals ≡ 7)
copy_lem_example = copy_lem VariantType.sint8 1 switch 7 switch-IsValid

readonly_IsPlain : IsPlain (parse readonly_text)
unfolding get_object_field find_field expect has_type node_type parse
readonly_IsPlain = (refl, refl, refl)

create-default_example :
    create library VariantType.vector_float 3 (some readonly_text)
    ≡ fill_with_defaults library VariantType.vector_float 3
create-default_example =
    create-default library VariantType.vector_float 3 (some readonly_text) tt (omega arith)
      readonly_IsPlain

empty_parsed : parse empty_text ≡ some empty_document
unfolding parse
empty_parsed = refl

empty_IsPlain : IsPlain (some empty_document)
unfolding get_object_field find_field
empty_IsPlain = (refl, refl, refl)

empty_has_none : (name : Bytes) → get_object_field (some empty_document) name NodeType.number ≡ none
unfolding get_object_field find_field
empty_has_none name = refl

create-decimals_example :
    (default m : Metadata) × (fill_with_defaults library VariantType.float 1 ≡ some default)
    × (create library VariantType.float 1 (some empty_text) ≡ some m)
    × (m.control_type ≡ ControlType.slider)
    × (default.decimals ≡ 4)
    × (m.decimals ≡ 0)
    × (m.step ≡ default.step)
create-decimals_example =
    create-decimals library VariantType.float 1 empty_text empty_document tt (omega arith)
      empty_parsed empty_IsPlain (empty_has_none decimals_name) (empty_has_none step_name)

parse_options_array-strings_example :
    parse_options_array runtime (some (array (strings off_on))) VariantType.sint8
    ≡ some (some (some (numbered VariantType.sint8 0 off_on)))
parse_options_array-strings_example =
    parse_options_array-strings runtime VariantType.sint8 off_on tt

second_is_one :
    numbered VariantType.sint8 0 off_on
    ≡ record { text = b'o' ∷ b'f' ∷ b'f' ∷ []; value = of VariantType.sint8 (Value.sint (pos 0)) }
      ∷ record { text = b'o' ∷ b'n' ∷ []; value = of VariantType.sint8 (Value.sint (pos 1)) }
      ∷ []
second_is_one = refl
