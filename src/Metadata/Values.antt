-- ===== src/Metadata/Values.antt =====
-- tweak-metadata/src/tweakmetadata.c: the functions that read one setting from its node, or take its default.
use tweaktool.Common.{
  ℕ, zero, suc, ◌-◌, ◌^◌, Bool, true, false, Option, none, some, [], ltb, if◌then◌else◌, ◌>>=◌,
  Bytes, str_eq,
}
use tweaktool.Common.Int.{ℤ, pos, negsuc}
use tweaktool.Variant.{
  VariantType, Value, Variant, null, bool, sint8, sint16, sint32, sint64, uint8, uint16, uint32,
  uint64, float, double, string, nothing, b, sint, uint, fp32, fp64, text, buffer,
}
use tweaktool.Convert.Parse.{Conversion, success, truncated, fail, breaks, of, from_string}
use tweaktool.Convert.Runtime.{Runtime}
use tweaktool.Json.{Node, has_type, get_type, node_as_c_str}
use tweaktool.Json.NodeType
use tweaktool.Metadata.{
  ControlType, checkbox, spinbox, slider, combobox, button, editbox, copy_variant,
}
use tweaktool.Metadata.Names.{
  checkbox_name, spinbox_name, slider_name, combobox_name, button_name, editbox_name,
}

-- The names of controls; a table has none.
unfoldable pub control_named : Bytes → ControlType → ControlType
unfolding str_eq
control_named s default =
    if str_eq checkbox_name s
    then checkbox
    else if str_eq spinbox_name s
    then spinbox
    else if str_eq slider_name s
    then slider
    else if str_eq combobox_name s
    then combobox
    else if str_eq button_name s
    then button
    else if str_eq editbox_name s
    then editbox
    else default

-- `tweak_json_get_type(node) & mask` and then the text of the node.
unfoldable pub text_of : ℕ → Option Node → Option Bytes
unfolding has_type get_type node_as_c_str
text_of mask node = if has_type (get_type node) mask then node_as_c_str node else none

unfoldable pub parse_control_type : Option Node → ControlType → ControlType
unfolding text_of control_named
parse_control_type node default = elim (text_of NodeType.string node) [
  | none ↦ default
  | some s ↦ control_named s default
]

unfoldable pub parse_string : Option Node → Bytes → Bytes
unfolding text_of
parse_string node default = elim (text_of NodeType.string node) [ none ↦ default | some s ↦ s ]

-- The member of the union that is read; the other members of an empty variant are zero.
abbrev pub bool_of : Value → Bool
bool_of (b x) = x
bool_of _ = false

abbrev pub uint32_of : Value → ℕ
uint32_of (uint x) = x
uint32_of _ = 0

-- A conversion that succeeds, possibly with a truncation; `none` is a failed assertion.
abbrev pub converted : Conversion → Option (Option Variant)
converted (success v) = some (some v)
converted (truncated v) = some (some v)
converted fail = some none
converted breaks = none

abbrev pub bool_result : Conversion → Bool → Option Bool
bool_result (success v) default = some (bool_of v.value)
bool_result (truncated v) default = some default
bool_result fail default = some default
bool_result breaks default = none

abbrev pub variant_result : Option Variant → Variant → Option Variant
variant_result none default = copy_variant default
variant_result (some v) default = some v

abbrev pub uint32_result : Option Variant → ℕ → ℕ
uint32_result none default = default
uint32_result (some v) default = uint32_of v.value

-- The greatest and the next value of an integer type.
abbrev pub next_sint : ℕ → VariantType → ℤ → Option Variant
next_sint w t (pos n) = if ltb n (2 ^ w - 1) then some (of t (sint (pos (suc n)))) else none
next_sint w t (negsuc zero) = some (of t (sint (pos 0)))
next_sint w t (negsuc (suc n)) = some (of t (sint (negsuc n)))

abbrev pub next_uint : ℕ → VariantType → ℕ → Option Variant
next_uint w t n = if ltb n (2 ^ w - 1) then some (of t (uint (suc n))) else none

unfoldable pub increment : VariantType → Value → Option Variant
increment bool (b x) = if x then none else some (of bool (b true))
increment sint8 (sint x) = next_sint 7 sint8 x
increment sint16 (sint x) = next_sint 15 sint16 x
increment sint32 (sint x) = next_sint 31 sint32 x
increment sint64 (sint x) = next_sint 63 sint64 x
increment uint8 (uint x) = next_uint 8 uint8 x
increment uint16 (uint x) = next_uint 16 uint16 x
increment uint32 (uint x) = next_uint 32 uint32 x
increment uint64 (uint x) = next_uint 64 uint64 x
increment _ _ = none

-- `none` where it gives false.
unfoldable pub variant_increment : Variant → Option Variant
unfolding increment
variant_increment v = increment v.type v.value

-- `{ .type = option_type }`: the rest of the union is zero.
unfoldable pub zero_of : VariantType → Value
zero_of null = nothing
zero_of bool = b false
zero_of sint8 = sint (pos 0)
zero_of sint16 = sint (pos 0)
zero_of sint32 = sint (pos 0)
zero_of sint64 = sint (pos 0)
zero_of uint8 = uint 0
zero_of uint16 = uint 0
zero_of uint32 = uint 0
zero_of uint64 = uint 0
zero_of float = fp32 0
zero_of double = fp64 0
zero_of string = text []
zero_of _ = buffer []

module _ (R : Runtime) where
  unfoldable pub parse_bool : Option Node → Bool → Option Bool
  unfolding text_of from_string
  parse_bool node default = elim (text_of NodeType.value node) [
    | none ↦ some default
    | some s ↦ bool_result (from_string R s bool) default
  ]

  unfoldable pub parse_variant : Option Node → Variant → Option Variant
  unfolding text_of from_string
  parse_variant node default = elim (text_of NodeType.value node) [
    | none ↦ copy_variant default
    | some s ↦ converted (from_string R s default.type) >>= λ r. variant_result r default
  ]

  -- `dst` keeps what it holds where the node is no number; a value of a conversion is taken even if it was truncated.
  unfoldable pub parse_uint32 : ℕ → Option Node → ℕ → Option ℕ
  unfolding text_of from_string
  parse_uint32 dst node default = elim (text_of NodeType.number node) [
    | none ↦ some dst
    | some s ↦ converted (from_string R s uint32) >>= λ r. some (uint32_result r default)
  ]
