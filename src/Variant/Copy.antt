-- ===== src/Variant/Copy.antt =====
-- `tweak_variant_copy` of tweak-common/src/tweakvariant.c, and `tweak_buffer_clone` of
-- tweak-common/src/tweakbuffer.c that it calls. A failed assertion is `none`.
use tweaktool.Common.{◌<◌, ◌≡◌, refl, Option, none, some, [], ◌∷◌, Bytes, ◌>>=◌, arith, length}
use tweaktool.Variant.{
  VariantType, Value, Variant, null, text, buffer, vector_sint8, vector_sint16, vector_sint32,
  vector_sint64, vector_uint8, vector_uint16, vector_uint32, vector_uint64, vector_float,
  vector_double,
}
use tweaktool.Variant.Types.{Fits}

-- A buffer has at least one byte.
unfoldable pub clone_buffer : Bytes → Option Bytes
clone_buffer [] = none
clone_buffer (c ∷ s) = some (c ∷ s)

abbrev copied : VariantType → Value → Option Variant
copied t x = some (record { type = t; value = x })

-- A text stands for its copy, which `Text.Copy` is about.
unfoldable pub copy_value : VariantType → Value → Option Variant
unfolding clone_buffer
copy_value t (buffer x) = clone_buffer x >>= λ y. copied t (buffer y)
copy_value t x = copied t x

Fits-buffer : (t : VariantType) (s : Bytes) → Fits t (buffer s) → 0 < length s
Fits-buffer vector_sint8 s h = h.0
Fits-buffer vector_sint16 s h = h.0
Fits-buffer vector_sint32 s h = h.0
Fits-buffer vector_sint64 s h = h.0
Fits-buffer vector_uint8 s h = h.0
Fits-buffer vector_uint16 s h = h.0
Fits-buffer vector_uint32 s h = h.0
Fits-buffer vector_uint64 s h = h.0
Fits-buffer vector_float s h = h.0
Fits-buffer vector_double s h = h.0
Fits-buffer null s h = absurd h
Fits-buffer _ s h = absurd h

-- The copy of a value that fits its type succeeds and is that value.
pub copy_value_lem :
    (t : VariantType) (x : Value)
    → Fits t x
    → copy_value t x ≡ some (record { type = t; value = x })
unfolding copy_value clone_buffer
copy_value_lem t (buffer []) h = absurd (omega (arith, Fits-buffer t [] h))
copy_value_lem t (buffer (c ∷ s)) h = refl
copy_value_lem t (text x) h = refl
copy_value_lem t _ h = refl
