-- ===== src/Pickle/RoundTrip.antt =====
-- What becomes of a value that is sent (tweak-pickle/src/tweakpickle_pb_util.c).
use tweaktool.Common.{
  ℕ, zero, suc, ◌*◌, ◌%◌, ◌/◌, ◌^◌, ◌≤◌, ◌<◌, ◌≡◌, refl, ap, [], ◌∷◌, ◌++◌, length, drop, ltb,
  Bytes, if◌then◌else◌, arith, length-append, IsText,
}
use tweaktool.Common.Int.{ℤ, pos, negsuc}
use tweaktool.Variant.{
  VariantType, Value, Variant, null, bool, sint8, sint16, sint32, sint64, uint8, uint16, uint32,
  uint64, float, double, string, vector_sint8, vector_sint16, vector_sint32, vector_sint64,
  vector_uint8, vector_uint16, vector_uint32, vector_uint64, vector_float, vector_double, nothing,
  b, sint, uint, fp32, fp64, text, buffer,
}
use tweaktool.Variant.Types.{Fits, IsWellTyped, InRange}
use tweaktool.Pickle.Nanopb.{Codec}
use tweaktool.Words.{load_le, AreBytes, of_bits-to_bits16, of_bits-to_bits32, of_bits-to_bits64}
use tweaktool.Pickle.{ElementFormat, variant_to_value, value_to_variant, is_scalar}
use tweaktool.Pickle.Stream.{
  Arrival, arrived, breaks, small_buffer_size, widen, write_element, encode_buffer, encode,
  decode_variant, decode_string, decode_raw_buffer, vector, decode_elements, before_nul, received,
}
use tweaktool.Pickle.Elements.{IsFormat, is_int16, is_uint16, is_word, is_long, decode-encode}

-- A text and a vector that the format of the messages can hold.
abbrev pub IsSendable : Value → Type 0
IsSendable (text x) = length x < 2 ^ 32
IsSendable (buffer x) = AreBytes x × (length x < 2 ^ 32)
IsSendable _ = Unit {0}

abbrev raw : VariantType → Value → Arrival
raw t (buffer x) =
    if ltb small_buffer_size (length x)
    then breaks
    else arrived (record { type = t; value = buffer x })
raw t _ = breaks

-- What the peer gets of a value of a type.
abbrev pub delivered : VariantType → Value → Arrival
delivered sint8 x = arrived (record { type = sint32; value = x })
delivered uint64 (uint x) = arrived (record { type = uint32; value = uint (x % 2 ^ 32) })
delivered vector_sint8 x = raw vector_sint8 x
delivered vector_uint8 x = raw vector_uint8 x
delivered t x = arrived (record { type = t; value = x })

abbrev of : VariantType → Value → Variant
of t x = record { type = t; value = x }

wider : (x : ℤ) → InRange 7 x → InRange 31 x
wider (pos n) h = omega (arith, h)
wider (negsuc n) h = omega (arith, h)

before_nul_text : (s : Bytes) → IsText s → before_nul s ≡ s
unfolding before_nul
before_nul_text [] ok = refl
before_nul_text (c ∷ s) ok = ground (arith, before_nul_text s ok.1)

module _ (C : Codec) (field_tag : ℕ) (small_tag : field_tag < 2 ^ 32) where
  encode_buffer-long :
      (f : ElementFormat) (n : ℕ) (s : Bytes) → n ≤ length (encode_buffer C field_tag f n s)
  unfolding encode_buffer
  encode_buffer-long f zero s = omega arith
  encode_buffer-long f (suc n) s =
      let rest = encode_buffer C field_tag f n (drop f.size s) in
      let element = write_element C field_tag f (widen f (load_le f.size s)) in
      omega (
        arith,
        encode_buffer-long f n (drop f.size s),
        length-append element rest,
        C.varint_shorter _ field_tag (element ++ rest)
            (C.varint_lem field_tag (element ++ rest) small_tag),
      )

  elements_lem :
      {f : ElementFormat} (k : IsFormat f) (t : VariantType) (s : Bytes)
      → AreBytes s
      → length s ≡ (length s / f.size) * f.size
      → decode_elements C field_tag t f (encode_buffer C field_tag f (length s / f.size) s)
        ≡ arrived (of t (buffer s))
  elements_lem {f} k t s ok size = ap (vector C field_tag t) (
      decode-encode C field_tag small_tag k (length s / f.size) _ s ok size
        (encode_buffer-long f _ s))

  raw_lem :
      (t : VariantType) (s : Bytes)
      → 0 < length s
      → length s < 2 ^ 32
      → decode_raw_buffer C field_tag t 0 (C.encode_varint (length s) ++ s) ≡ raw t (buffer s)
  unfolding decode_raw_buffer
  raw_lem t s some_bytes short =
      rw (decode_raw_buffer, C.varint_lem (length s) s short) (ground arith)

  string_lem :
      (s : Bytes)
      → IsText s
      → length s < 2 ^ 32
      → decode_string C field_tag (C.encode_varint (length s) ++ s) ≡ arrived (of string (text s))
  unfolding decode_string
  string_lem s ok short = rw (decode_string, C.varint_lem (length s) s short, before_nul_text s ok)

  delivered_lem :
      (t : VariantType) (x : Value)
      → Fits t x
      → IsSendable x
      → received C field_tag (of t x) ≡ delivered t x
  unfolding received variant_to_value is_scalar value_to_variant encode decode_variant
  delivered_lem null nothing h s = refl
  delivered_lem bool (b x) h s = refl
  delivered_lem sint8 (sint x) h s =
      ap (λ y. arrived (of sint32 (sint y))) (of_bits-to_bits32 x (wider x h))
  delivered_lem sint16 (sint x) h s = ap (λ y. arrived (of sint16 (sint y))) (of_bits-to_bits16 x h)
  delivered_lem sint32 (sint x) h s = ap (λ y. arrived (of sint32 (sint y))) (of_bits-to_bits32 x h)
  delivered_lem sint64 (sint x) h s = ap (λ y. arrived (of sint64 (sint y))) (of_bits-to_bits64 x h)
  delivered_lem uint8 (uint x) h s =
      let e : x % 2 ^ 8 ≡ x = omega (arith, h) in ap (λ y. arrived (of uint8 (uint y))) e
  delivered_lem uint16 (uint x) h s =
      let e : x % 2 ^ 16 ≡ x = omega (arith, h) in ap (λ y. arrived (of uint16 (uint y))) e
  delivered_lem uint32 (uint x) h s = refl
  delivered_lem uint64 (uint x) h s = refl
  delivered_lem float (fp32 x) h s = refl
  delivered_lem double (fp64 x) h s = refl
  delivered_lem string (text x) h s = string_lem x h s
  delivered_lem vector_sint8 (buffer x) h s = raw_lem vector_sint8 x h.0 s.1
  delivered_lem vector_sint16 (buffer x) h s =
      elements_lem is_int16 vector_sint16 x s.0 (omega (arith, h.1))
  delivered_lem vector_sint32 (buffer x) h s =
      elements_lem is_word vector_sint32 x s.0 (omega (arith, h.1))
  delivered_lem vector_sint64 (buffer x) h s =
      elements_lem is_long vector_sint64 x s.0 (omega (arith, h.1))
  delivered_lem vector_uint8 (buffer x) h s = raw_lem vector_uint8 x h.0 s.1
  delivered_lem vector_uint16 (buffer x) h s =
      elements_lem is_uint16 vector_uint16 x s.0 (omega (arith, h.1))
  delivered_lem vector_uint32 (buffer x) h s =
      elements_lem is_word vector_uint32 x s.0 (omega (arith, h.1))
  delivered_lem vector_uint64 (buffer x) h s =
      elements_lem is_long vector_uint64 x s.0 (omega (arith, h.1))
  delivered_lem vector_float (buffer x) h s =
      elements_lem is_word vector_float x s.0 (omega (arith, h.1))
  delivered_lem vector_double (buffer x) h s =
      elements_lem is_long vector_double x s.0 (omega (arith, h.1))
  delivered_lem _ _ h s = absurd h

  -- Whatever a correct nanopb is: a value of its type, with a text or vector that fits into a message,
  -- arrives at the peer as it was sent, but for these: a sint8 arrives as a sint32 of the same value, a uint64
  -- as a uint32 of its low 32 bits, and a vector of more than 128 single bytes breaks the receiver.
  pub received_lem :
      (v : Variant)
      → IsWellTyped v
      → IsSendable v.value
      → received C field_tag v ≡ delivered v.type v.value
  received_lem v h s = delivered_lem v.type v.value h s
