-- ===== src/Metadata/Defaults.antt =====
-- tweak-metadata/src/tweakmetadata.c: `fill_with_defaults` and the functions that two macros make for it.
use tweaktool.Common.{ℕ, ◌-◌, ◌^◌, true, false, Option, none, some, [], ◌∷◌}
use tweaktool.Common.Int.{pos, negsuc}
use tweaktool.Variant.{
  VariantType, Value, null, bool, sint8, sint16, sint32, sint64, uint8, uint16, uint32, uint64,
  float, double, string, vector_sint8, vector_sint16, vector_sint32, vector_sint64, vector_uint8,
  vector_uint16, vector_uint32, vector_uint64, vector_float, vector_double, b, sint, uint, fp32,
  fp64, text,
}
use tweaktool.Convert.Parse.{of}
use tweaktool.Metadata.{
  Metadata, ControlType, checkbox, spinbox, slider, editbox, table, row_major, zeroed,
}
use tweaktool.Metadata.Library.{Library}

-- IMPLEMENT_DEFAULT_METADATA_INITIALIZER
abbrev pub initialize : ControlType → VariantType → Value → Value → ℕ → Value → Metadata
initialize control t least greatest decimals step = record zeroed {
  control_type = control;
  min = of t least;
  max = of t greatest;
  decimals = decimals;
  step = of t step;
}

-- IMPLEMENT_DEFAULT_METADATA_VECTOR_INITIALIZER
abbrev pub initialize_vector : VariantType → Value → Value → ℕ → Value → ℕ → Metadata
initialize_vector t least greatest decimals step item_count =
    record (initialize table t least greatest decimals step) {
      layout_present = true;
      layout = record { order = row_major; dimensions = some (item_count ∷ []) };
    }

abbrev pub signed_min : ℕ → Value
signed_min w = sint (negsuc (2 ^ w - 1))

abbrev pub signed_max : ℕ → Value
signed_max w = sint (pos (2 ^ w - 1))

-- -FLT_MAX, FLT_MAX, -DBL_MAX and DBL_MAX.
abbrev pub flt_min : Value
flt_min = fp32 0xFF7FFFFF

abbrev pub flt_max : Value
flt_max = fp32 0x7F7FFFFF

abbrev pub dbl_min : Value
dbl_min = fp64 0xFFEFFFFFFFFFFFFF

abbrev pub dbl_max : Value
dbl_max = fp64 0x7FEFFFFFFFFFFFFF

-- `none` is the fatal error.
module _ (L : Library) where
  unfoldable pub fill_with_defaults : VariantType → ℕ → Option Metadata
  fill_with_defaults null n = none
  fill_with_defaults bool n = some (initialize checkbox bool (b false) (b true) 0 (b false))
  fill_with_defaults sint8 n =
      some (initialize spinbox sint8 (signed_min 7) (signed_max 7) 0 (sint (pos 1)))
  fill_with_defaults sint16 n =
      some (initialize spinbox sint16 (signed_min 15) (signed_max 15) 0 (sint (pos 1)))
  fill_with_defaults sint32 n =
      some (initialize spinbox sint32 (signed_min 31) (signed_max 31) 0 (sint (pos 1)))
  fill_with_defaults sint64 n =
      some (initialize spinbox sint64 (signed_min 63) (signed_max 63) 0 (sint (pos 1)))
  fill_with_defaults uint8 n =
      some (initialize spinbox uint8 (uint 0) (uint (2 ^ 8 - 1)) 0 (uint 1))
  fill_with_defaults uint16 n =
      some (initialize spinbox uint16 (uint 0) (uint (2 ^ 16 - 1)) 0 (uint 1))
  fill_with_defaults uint32 n =
      some (initialize spinbox uint32 (uint 0) (uint (2 ^ 32 - 1)) 0 (uint 1))
  fill_with_defaults uint64 n =
      some (initialize spinbox uint64 (uint 0) (uint (2 ^ 64 - 1)) 0 (uint 1))
  fill_with_defaults float n = some (initialize slider float flt_min flt_max 4 (fp32 L.float_step))
  fill_with_defaults double n =
      some (initialize slider double dbl_min dbl_max 4 (fp64 L.double_step))
  fill_with_defaults string n = some (initialize editbox string (text []) (text []) 0 (text []))
  fill_with_defaults vector_sint8 n =
      some (initialize_vector sint8 (signed_min 7) (signed_max 7) 0 (sint (pos 1)) n)
  fill_with_defaults vector_sint16 n =
      some (initialize_vector sint16 (signed_min 15) (signed_max 15) 0 (sint (pos 1)) n)
  fill_with_defaults vector_sint32 n =
      some (initialize_vector sint32 (signed_min 31) (signed_max 31) 0 (sint (pos 1)) n)
  fill_with_defaults vector_sint64 n =
      some (initialize_vector sint64 (signed_min 63) (signed_max 63) 0 (sint (pos 1)) n)
  fill_with_defaults vector_uint8 n =
      some (initialize_vector uint8 (uint 0) (uint (2 ^ 8 - 1)) 0 (uint 1) n)
  fill_with_defaults vector_uint16 n =
      some (initialize_vector uint16 (uint 0) (uint (2 ^ 16 - 1)) 0 (uint 1) n)
  fill_with_defaults vector_uint32 n =
      some (initialize_vector uint32 (uint 0) (uint (2 ^ 32 - 1)) 0 (uint 1) n)
  fill_with_defaults vector_uint64 n =
      some (initialize_vector uint64 (uint 0) (uint (2 ^ 64 - 1)) 0 (uint 1) n)
  fill_with_defaults vector_float n =
      some (initialize_vector float flt_min flt_max 4 (fp32 L.float_step) n)
  fill_with_defaults vector_double n =
      some (initialize_vector double dbl_min dbl_max 4 (fp64 L.double_step) n)
