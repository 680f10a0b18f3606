-- ===== src/Pickle/Stream.antt =====
-- tweak-pickle/src/tweakpickle_pb_util.c: the callbacks that write and read strings and vectors.
use tweaktool.Common.{
  ℕ, zero, suc, ◌-◌, ◌+◌, ◌/◌, ◌^◌, Option, none, some, [], ◌∷◌, ◌++◌, length, drop, ltb, ◌==◌,
  Bytes, if◌then◌else◌, ◌>>=◌,
}
use tweaktool.Variant.{
  VariantType, Value, Variant, string, vector_sint8, vector_sint16, vector_sint32, vector_sint64,
  vector_uint8, vector_uint16, vector_uint32, vector_uint64, vector_float, vector_double, text,
  buffer,
}
use tweaktool.Pickle.Nanopb.{Codec}
use tweaktool.Words.{load_le, store_le}
use tweaktool.Pickle.{
  PbTag, ElementFormat, int16_format, uint16_format, word_format, long_format, Encoder, Field,
  encode_string, encode_raw_buffer, encode_elements, callback, is_scalar, value_to_variant,
  variant_to_value, string_tag, sint8_buffer_tag, sint16_buffer_tag, sint32_buffer_tag,
  sint64_buffer_tag, uint8_buffer_tag, uint16_buffer_tag, uint32_buffer_tag, uint64_buffer_tag,
  fp32_buffer_tag, fp64_buffer_tag,
}

-- What becomes of a value that arrives: a variant, a failure of the message, or no defined behaviour (a
-- write past the end of a block, a failed assertion).
pub data Arrival : Type 0 where
  arrived : Variant → Arrival
  failed breaks : Arrival

-- TWEAK_VARIANT_SMALL_BUFFER_SIZE
abbrev pub small_buffer_size : ℕ
small_buffer_size = 128

-- The conversion of an element to the type that is sent.
abbrev pub widen : ElementFormat → ℕ → ℕ
widen f x = if f.is_signed then (if ltb x (2 ^ 15) then x else x + (2 ^ 32 - 2 ^ 16)) else x

-- `tweak_assign_string` keeps the bytes before the first zero.
unfoldable pub before_nul : Bytes → Bytes
before_nul [] = []
before_nul (c ∷ s) = let rest = before_nul s in if c == 0 then [] else c ∷ rest

-- `field_tag` is what nanopb writes as the tag of a buffer's elements.
module _ (C : Codec) (field_tag : ℕ) where
  abbrev pub write_element : ElementFormat → ℕ → Bytes
  write_element f x = if f.is_wide then C.encode_fixed64 x else C.encode_fixed32 x

  abbrev pub read_element : ElementFormat → Bytes → Option (ℕ × Bytes)
  read_element f s = if f.is_wide then C.decode_fixed64 s else C.decode_fixed32 s

  -- The loop of `pb_variant_encode_..._buffer` over the elements that are left.
  unfoldable pub encode_buffer : ElementFormat → ℕ → Bytes → Bytes
  encode_buffer f zero s = []
  encode_buffer f (suc n) s =
      C.encode_varint field_tag
      ++ (write_element f (widen f (load_le f.size s)) ++ encode_buffer f n (drop f.size s))

  -- The loop of `pb_variant_decode_..._buffer`, which ends with the stream; each round takes a unit of fuel.
  unfoldable pub decode_buffer : ElementFormat → ℕ → Bytes → Option Bytes
  decode_buffer f fuel [] = some []
  decode_buffer f zero (c ∷ s) = none
  decode_buffer f (suc fuel) (c ∷ s) = C.decode_varint32 (c ∷ s) >>= λ r.
      read_element f r.1 >>= λ e.
      decode_buffer f fuel e.1 >>= λ more. some (store_le f.size e.0 ++ more)

  unfoldable pub encode : Encoder → Value → Option Bytes
  unfolding encode_buffer
  encode encode_string (text t) = some (C.encode_varint (length t) ++ t)
  encode encode_raw_buffer (buffer x) = some (C.encode_varint (length x) ++ x)
  encode (encode_elements f) (buffer x) = some (encode_buffer f (length x / f.size) x)
  encode _ _ = none

  abbrev pub vector : VariantType → Option Bytes → Arrival
  vector t none = failed
  vector t (some x) = arrived (record { type = t; value = buffer x })

  -- `pb_variant_decode_string`
  unfoldable pub decode_string : Bytes → Arrival
  unfolding before_nul
  decode_string s = elim (C.decode_varint32 s) [
    | none ↦ failed
    | some r ↦ arrived (record { type = string; value = text (before_nul r.1) })
  ]

  -- `pb_variant_decode_raw_buffer` into a buffer of `old_size` bytes: the block for the bytes is chosen by that
  -- size, and a buffer has at least one byte.
  unfoldable pub decode_raw_buffer : VariantType → ℕ → Bytes → Arrival
  decode_raw_buffer t old_size s = elim (C.decode_varint32 s) [
    | none ↦ failed
    | some r ↦
        let size = length r.1 in
        let block = if ltb small_buffer_size old_size then size else small_buffer_size in
        if ltb block size
        then breaks
        else if size == 0
        then breaks
        else arrived (record { type = t; value = buffer r.1 })
  ]

  abbrev pub decode_elements : VariantType → ElementFormat → Bytes → Arrival
  decode_elements t f s = vector t (decode_buffer f (length s) s)

  -- `tweak_pickle_pb_decode_variant` into a variant whose buffer has `old_size` bytes.
  unfoldable pub decode_variant : PbTag → ℕ → Bytes → Arrival
  unfolding decode_string decode_raw_buffer decode_buffer
  decode_variant string_tag old_size s = decode_string s
  decode_variant sint8_buffer_tag old_size s = decode_raw_buffer vector_sint8 old_size s
  decode_variant sint16_buffer_tag old_size s = decode_elements vector_sint16 int16_format s
  decode_variant sint32_buffer_tag old_size s = decode_elements vector_sint32 word_format s
  decode_variant sint64_buffer_tag old_size s = decode_elements vector_sint64 long_format s
  decode_variant uint8_buffer_tag old_size s = decode_raw_buffer vector_uint8 old_size s
  decode_variant uint16_buffer_tag old_size s = decode_elements vector_uint16 uint16_format s
  decode_variant uint32_buffer_tag old_size s = decode_elements vector_uint32 word_format s
  decode_variant uint64_buffer_tag old_size s = decode_elements vector_uint64 long_format s
  decode_variant fp32_buffer_tag old_size s = decode_elements vector_float word_format s
  decode_variant fp64_buffer_tag old_size s = decode_elements vector_double long_format s
  decode_variant _ old_size s = failed

  abbrev from_scalar : Option Variant → Arrival
  from_scalar none = breaks
  from_scalar (some v) = arrived v

  abbrev from_callback : PbTag → Field → Arrival
  from_callback tag (callback e x) = elim (encode e x) [
    | none ↦ breaks
    | some s ↦ decode_variant tag 0 s
  ]
  from_callback tag _ = breaks

  -- The variant that the peer makes of a value: nanopb delivers the tag with the scalar, or with what the
  -- encode callback wrote, and the receiving structure is zeroed.
  unfoldable pub received : Variant → Arrival
  unfolding variant_to_value is_scalar value_to_variant encode decode_variant
  received v = elim (variant_to_value v.type v.value) [
    | none ↦ breaks
    | some p ↦
        if is_scalar p.which_values
        then from_scalar (value_to_variant p.which_values p.values)
        else from_callback p.which_values p.values
  ]
