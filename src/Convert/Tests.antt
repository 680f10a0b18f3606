-- ===== src/Convert/Tests.antt =====
-- The conversions over a small library.
use tweaktool.Common.{◌≡◌, ◌↔◌, inl, refl, some, [], ◌∷◌, Bytes, arith, ◌++◌, IsText}
use tweaktool.Common.Int.{negsuc}
use tweaktool.Variant.{Variant, VariantType, Value, get_item_count}
use tweaktool.Convert.Decimal.{
  strtoll, read_number, skip_space, read_sign, read_magnitude, read_digits,
}
use tweaktool.Convert.Parse.{
  success, truncated, breaks, parse_vector, parse_items, from_string, parse_generic_int,
  parse_signed_int64, int_or_float, switch_int,
}
use tweaktool.Convert.RoundTrip.{reread, from_string-to_string}
use tweaktool.Convert.Coerce.{IsConverted}
use tweaktool.Convert.Outcome.{IsFatal, from_string_lem, get_item_count-from_string}
use tweaktool.Convert.Runtime.{array_node}
use tweaktool.Words.{store_le, to_bits}
use tweaktool.Convert.ToJson.{to_json, string_start, string_json_lem}
use tweaktool.Convert.Escape.{read_string}
use tweaktool.Convert.Example.{runtime, parse_array, fields}

abbrev words : Variant
words = record { type = VariantType.vector_sint16; value = Value.buffer (255 ∷ 255 ∷ 1 ∷ 2 ∷ []) }

from_string-to_string_example : reread runtime words ≡ some (success words)
from_string-to_string_example =
    from_string-to_string runtime words (omega arith, omega arith) (omega arith)

-- "-129"
abbrev below : Bytes
below = b'-' ∷ b'1' ∷ b'2' ∷ b'9' ∷ []

from_string_lem_example :
    ((from_string runtime below VariantType.sint8 ≡ breaks)
      ↔ IsFatal VariantType.sint8 (runtime.parse_json below))
    × IsConverted VariantType.sint8 (from_string runtime below VariantType.sint8)
from_string_lem_example = from_string_lem runtime below VariantType.sint8 (omega arith)

clamped :
    from_string runtime below VariantType.sint8
    ≡ truncated (record { type = VariantType.sint8; value = Value.sint (negsuc 127) })
unfolding from_string parse_generic_int int_or_float parse_signed_int64 strtoll read_number
    skip_space read_sign read_magnitude read_digits switch_int
clamped = refl

-- A quotation mark, a line feed and a control character.
abbrev odd : Bytes
odd = 34 ∷ 10 ∷ 127 ∷ []

odd-IsText : IsText odd
odd-IsText = (
  λ e. absurd (omega (arith, e)),
  (λ e. absurd (omega (arith, e)), (λ e. absurd (omega (arith, e)), tt)),
)

string_json_lem_example :
    (body : Bytes) × (to_json runtime VariantType.string (Value.text odd)
      ≡ some (string_start ++ body))
    × (read_string 4 body ≡ some (odd, b'}' ∷ []))
string_json_lem_example = string_json_lem runtime odd (omega arith) odd-IsText

-- "[5,-300]"
abbrev five_and_less : Bytes
five_and_less = b'[' ∷ b'5' ∷ b',' ∷ b'-' ∷ b'3' ∷ b'0' ∷ b'0' ∷ b']' ∷ []

five_and_less_nodes :
    runtime.parse_json five_and_less
    ≡ array_node (some (b'5' ∷ []) ∷ some (b'-' ∷ b'3' ∷ b'0' ∷ b'0' ∷ []) ∷ [])
unfolding parse_array fields
five_and_less_nodes = refl

five_and_less_vector :
    from_string runtime five_and_less VariantType.vector_sint16
    ≡ success
        (record { type = VariantType.vector_sint16; value = Value.buffer (5 ∷ 0 ∷ 212 ∷ 254 ∷ []) })
unfolding parse_array fields from_string parse_vector parse_items parse_generic_int int_or_float
    parse_signed_int64 strtoll read_number skip_space read_sign read_magnitude read_digits
    switch_int store_le to_bits
five_and_less_vector = refl

get_item_count-from_string_example :
    get_item_count
      (record { type = VariantType.vector_sint16; value = Value.buffer (5 ∷ 0 ∷ 212 ∷ 254 ∷ []) })
    ≡ 2
get_item_count-from_string_example =
    get_item_count-from_string runtime five_and_less VariantType.vector_sint16
      (record { type = VariantType.vector_sint16; value = Value.buffer (5 ∷ 0 ∷ 212 ∷ 254 ∷ []) })
      (some (b'5' ∷ []) ∷ some (b'-' ∷ b'3' ∷ b'0' ∷ b'0' ∷ []) ∷ []) tt five_and_less_nodes
      (inl five_and_less_vector)
