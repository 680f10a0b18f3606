-- ===== src/Variant/Tests.antt =====
-- Values of some types.
use tweaktool.Common.{◌≡◌, ◌≢◌, ◌↔◌, ap, true, [], ◌∷◌, arith}
use tweaktool.Common.Int.{negsuc}
use tweaktool.Variant.{Variant, VariantType, Value, is_equal, null, type_code}
use tweaktool.Variant.Equality.{is_equal_iff}

abbrev minus_one : Variant
minus_one = record { type = VariantType.sint8; value = Value.sint (negsuc 0) }

abbrev two_words : Variant
two_words = record {
  type = VariantType.vector_uint16;
  value = Value.buffer (b'a' ∷ b'b' ∷ b'c' ∷ b'd' ∷ []);
}

sint8_known : VariantType.sint8 ≢ null
unfolding type_code
sint8_known e = absurd (omega (arith, ap type_code e))

is_equal_iff_example : (is_equal minus_one two_words ≡ true) ↔ (minus_one ≡ two_words)
is_equal_iff_example = is_equal_iff minus_one two_words tt sint8_known
