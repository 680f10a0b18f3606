-- ===== src/Pickle.antt =====
-- tweak-pickle/src/tweakpickle_pb_util.c: the values of tweaks in the messages between client and server.
-- A read of bytes of the union that were not written, and a value that is not of its variant's type, is
-- `none`. Memory is little-endian.
pub mod Nanopb
pub mod Stream
pub mod Elements
pub mod RoundTrip
pub mod Requests
pub mod Growth
mod Tests
use tweaktool.Common.{
  ℕ, zero, suc, ◌-◌, ◌+◌, ◌%◌, ◌/◌, ◌^◌, Bool, true, false, Option, none, some, List, [], ◌∷◌, ◌++◌,
  length, take, drop, ltb, ◌==◌, Bytes, if◌then◌else◌, ◌>>=◌,
}
use tweaktool.Common.Int.{ℤ}
use tweaktool.Variant.{
  VariantType, Value, Variant, init_empty, null, bool, sint8, sint16, sint32, sint64, uint8, uint16,
  uint32, uint64, float, double, string, vector_sint8, vector_sint16, vector_sint32, vector_sint64,
  vector_uint8, vector_uint16, vector_uint32, vector_uint64, vector_float, vector_double, nothing,
  b, sint, uint, fp32, fp64, text, buffer,
}
use Nanopb.{Codec}
use tweaktool.Words.{load_le, store_le, to_bits, of_bits}

-- The numbers of the fields of the message `value` (`tweak_pb_value_..._tag`).
pub data PbTag : Type 0 where
  is_null_tag scalar_bool_tag scalar_sint8_tag scalar_sint16_tag scalar_sint32_tag : PbTag
  scalar_sint64_tag scalar_uint8_tag scalar_uint16_tag scalar_uint32_tag scalar_uint64_tag : PbTag
  scalar_float_tag scalar_double_tag string_tag sint8_buffer_tag sint16_buffer_tag : PbTag
  sint32_buffer_tag sint64_buffer_tag uint8_buffer_tag uint16_buffer_tag uint32_buffer_tag : PbTag
  uint64_buffer_tag fp32_buffer_tag fp64_buffer_tag : PbTag

-- The arguments of the macro IMPLEMENT_BUFFER_ENCODER_DECODER: the size of an element in memory, whether it
-- is widened with its sign, and whether it is sent as 8 bytes instead of 4.
pub record ElementFormat : Type 0 where
  pub size : ℕ
  pub is_signed : Bool
  pub is_wide : Bool

abbrev pub int16_format : ElementFormat
int16_format = record { size = 2; is_signed = true; is_wide = false }

abbrev pub uint16_format : ElementFormat
uint16_format = record { size = 2; is_signed = false; is_wide = false }

-- int32_t, uint32_t and float.
abbrev pub word_format : ElementFormat
word_format = record { size = 4; is_signed = false; is_wide = false }

-- int64_t, uint64_t and double.
abbrev pub long_format : ElementFormat
long_format = record { size = 8; is_signed = false; is_wide = true }

-- The encode callbacks.
pub data Encoder : Type 0 where
  encode_string encode_raw_buffer : Encoder
  encode_elements : ElementFormat → Encoder

-- The union `tweak_pb_value.values`, with the member that was written last; members of one C type are one
-- constructor.
pub data Field : Type 0 where
  is_null scalar_bool : Bool → Field
  scalar_int32 scalar_int64 : ℤ → Field
  scalar_uint32 scalar_uint64 scalar_float scalar_double : ℕ → Field
  callback : Encoder → Value → Field

-- `tweak_pb_value`
pub record PbValue : Type 0 where
  pub which_values : PbTag
  pub values : Field

unfoldable pub is_scalar : PbTag → Bool
is_scalar string_tag = false
is_scalar sint8_buffer_tag = false
is_scalar sint16_buffer_tag = false
is_scalar sint32_buffer_tag = false
is_scalar sint64_buffer_tag = false
is_scalar uint8_buffer_tag = false
is_scalar uint16_buffer_tag = false
is_scalar uint32_buffer_tag = false
is_scalar uint64_buffer_tag = false
is_scalar fp32_buffer_tag = false
is_scalar fp64_buffer_tag = false
is_scalar _ = true

-- A read of the union's first byte, its first four, and its first eight.
abbrev read_bool : Field → Option Bool
read_bool (is_null x) = some x
read_bool (scalar_bool x) = some x
read_bool _ = none

abbrev read_word : Field → Option ℕ
read_word (scalar_int32 x) = some (to_bits 32 x)
read_word (scalar_int64 x) = some (to_bits 64 x % 2 ^ 32)
read_word (scalar_uint32 x) = some x
read_word (scalar_uint64 x) = some (x % 2 ^ 32)
read_word (scalar_float x) = some x
read_word (scalar_double x) = some (x % 2 ^ 32)
read_word _ = none

abbrev read_long : Field → Option ℕ
read_long (scalar_int64 x) = some (to_bits 64 x)
read_long (scalar_uint64 x) = some x
read_long (scalar_double x) = some x
read_long _ = none

abbrev variant : VariantType → Value → Option Variant
variant t x = some (record { type = t; value = x })

unfoldable pub value_to_variant : PbTag → Field → Option Variant
value_to_variant is_null_tag f = variant null nothing
value_to_variant scalar_bool_tag f = read_bool f >>= λ x. variant bool (b x)
value_to_variant scalar_sint8_tag f =
    read_word f >>= λ x. variant sint8 (sint (of_bits 8 (x % 2 ^ 8)))
value_to_variant scalar_sint16_tag f =
    read_word f >>= λ x. variant sint16 (sint (of_bits 16 (x % 2 ^ 16)))
value_to_variant scalar_sint32_tag f = read_word f >>= λ x. variant sint32 (sint (of_bits 32 x))
value_to_variant scalar_sint64_tag f = read_long f >>= λ x. variant sint64 (sint (of_bits 64 x))
value_to_variant scalar_uint8_tag f = read_word f >>= λ x. variant uint8 (uint (x % 2 ^ 8))
value_to_variant scalar_uint16_tag f = read_word f >>= λ x. variant uint16 (uint (x % 2 ^ 16))
value_to_variant scalar_uint32_tag f = read_word f >>= λ x. variant uint32 (uint x)
value_to_variant scalar_uint64_tag f = read_word f >>= λ x. variant uint32 (uint x)
value_to_variant scalar_float_tag f = read_word f >>= λ x. variant float (fp32 x)
value_to_variant scalar_double_tag f = read_long f >>= λ x. variant double (fp64 x)
value_to_variant _ f = some init_empty

abbrev pb_value : PbTag → Field → Option PbValue
pb_value t f = some (record { which_values = t; values = f })

unfoldable pub variant_to_value : VariantType → Value → Option PbValue
variant_to_value null x = pb_value is_null_tag (is_null true)
variant_to_value bool (b x) = pb_value scalar_bool_tag (scalar_bool x)
variant_to_value sint8 (sint x) = pb_value scalar_sint32_tag (scalar_int32 x)
variant_to_value sint16 (sint x) = pb_value scalar_sint16_tag (scalar_int32 x)
variant_to_value sint32 (sint x) = pb_value scalar_sint32_tag (scalar_int32 x)
variant_to_value sint64 (sint x) = pb_value scalar_sint64_tag (scalar_int64 x)
variant_to_value uint8 (uint x) = pb_value scalar_uint8_tag (scalar_uint32 x)
variant_to_value uint16 (uint x) = pb_value scalar_uint16_tag (scalar_uint32 x)
variant_to_value uint32 (uint x) = pb_value scalar_uint32_tag (scalar_uint32 x)
variant_to_value uint64 (uint x) = pb_value scalar_uint64_tag (scalar_uint64 x)
variant_to_value float (fp32 x) = pb_value scalar_float_tag (scalar_float x)
variant_to_value double (fp64 x) = pb_value scalar_double_tag (scalar_double x)
variant_to_value string x = pb_value string_tag (callback encode_string x)
variant_to_value vector_sint8 x = pb_value sint8_buffer_tag (callback encode_raw_buffer x)
variant_to_value vector_sint16 x =
    pb_value sint16_buffer_tag (callback (encode_elements int16_format) x)
variant_to_value vector_sint32 x =
    pb_value sint32_buffer_tag (callback (encode_elements word_format) x)
variant_to_value vector_sint64 x =
    pb_value sint64_buffer_tag (callback (encode_elements long_format) x)
variant_to_value vector_uint8 x = pb_value uint8_buffer_tag (callback encode_raw_buffer x)
variant_to_value vector_uint16 x =
    pb_value uint16_buffer_tag (callback (encode_elements uint16_format) x)
variant_to_value vector_uint32 x =
    pb_value uint32_buffer_tag (callback (encode_elements word_format) x)
variant_to_value vector_uint64 x =
    pb_value uint64_buffer_tag (callback (encode_elements long_format) x)
variant_to_value vector_float x =
    pb_value fp32_buffer_tag (callback (encode_elements word_format) x)
variant_to_value vector_double x =
    pb_value fp64_buffer_tag (callback (encode_elements long_format) x)
variant_to_value _ _ = none
