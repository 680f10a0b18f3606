-- ===== src/Metadata/Initial.antt =====
-- The metadata that `fill_with_defaults` of tweak-metadata/src/tweakmetadata.c starts from.
use tweaktool.Common.{
  ℕ, ◌^◌, ◌<◌, ◌≡◌, refl, Bool, true, false, Option, none, some, List, [], ◌∷◌, arith,
}
use tweaktool.Variant.{
  VariantType, null, bool, sint8, sint16, sint32, sint64, uint8, uint16, uint32, uint64, float,
  double, string, vector_sint8, vector_sint16, vector_sint32, vector_sint64, vector_uint8,
  vector_uint16, vector_uint32, vector_uint64, vector_float, vector_double,
}
use tweaktool.Convert.Coerce.{Has}
use tweaktool.Convert.Completes.{IsElement}
use tweaktool.Metadata.{Metadata}
use tweaktool.Metadata.Library.{Library}
use tweaktool.Metadata.Defaults.{fill_with_defaults}
use tweaktool.Metadata.Yields.{Yields, yields}
use tweaktool.Metadata.Update.{product_from, agrees, validate_metadata, validate_metadata_vector}

-- The type of the items of a vector, and of another value itself.
abbrev pub element : VariantType → VariantType
element vector_sint8 = sint8
element vector_sint16 = sint16
element vector_sint32 = sint32
element vector_sint64 = sint64
element vector_uint8 = uint8
element vector_uint16 = uint16
element vector_uint32 = uint32
element vector_uint64 = uint64
element vector_float = float
element vector_double = double
element t = t

-- A layout that is present has dimensions.
abbrev pub LayoutFits : Bool → Option (List ℕ) → Type 0
LayoutFits true none = ⊥
LayoutFits true (some d) = Unit {0}
LayoutFits false d = Unit {0}

pub record IsDefault (t : VariantType) (n : ℕ) (m : Metadata) : Type 0 where
  pub min : Has (element t) m.min
  pub max : Has (element t) m.max
  pub step : Has (element t) m.step
  pub decimals : m.decimals < 2 ^ 32
  pub options : m.options_present ≡ false
  pub layout : LayoutFits m.layout_present m.layout.dimensions
  pub accepted : validate_metadata t n m ≡ some true

product_one : (n : ℕ) → n < 2 ^ 64 → agrees n (some (n ∷ [])) ≡ some true
unfolding agrees product_from
product_one n h = ground (arith, h)

module _ (L : Library) where
  pub fill_with_defaults_lem :
      (t : VariantType) (n : ℕ)
      → IsElement (element t)
      → n < 2 ^ 64
      → Yields (IsDefault t n) (fill_with_defaults L t n)
  unfolding fill_with_defaults validate_metadata validate_metadata_vector
  fill_with_defaults_lem null n h k = absurd h
  fill_with_defaults_lem bool n h k = yields _ (record {
    min = (refl, tt);
    max = (refl, tt);
    step = (refl, tt);
    decimals = omega arith;
    options = refl;
    layout = tt;
    accepted = refl;
  })
  fill_with_defaults_lem sint8 n h k = yields _ (record {
    min = (refl, omega arith);
    max = (refl, omega arith);
    step = (refl, omega arith);
    decimals = omega arith;
    options = refl;
    layout = tt;
    accepted = refl;
  })
  fill_with_defaults_lem sint16 n h k = yields _ (record {
    min = (refl, omega arith);
    max = (refl, omega arith);
    step = (refl, omega arith);
    decimals = omega arith;
    options = refl;
    layout = tt;
    accepted = refl;
  })
  fill_with_defaults_lem sint32 n h k = yields _ (record {
    min = (refl, omega arith);
    max = (refl, omega arith);
    step = (refl, omega arith);
    decimals = omega arith;
    options = refl;
    layout = tt;
    accepted = refl;
  })
  fill_with_defaults_lem sint64 n h k = yields _ (record {
    min = (refl, omega arith);
    max = (refl, omega arith);
    step = (refl, omega arith);
    decimals = omega arith;
    options = refl;
    layout = tt;
    accepted = refl;
  })
  fill_with_defaults_lem uint8 n h k = yields _ (record {
    min = (refl, omega arith);
    max = (refl, omega arith);
    step = (refl, omega arith);
    decimals = omega arith;
    options = refl;
    layout = tt;
    accepted = refl;
  })
  fill_with_defaults_lem uint16 n h k = yields _ (record {
    min = (refl, omega arith);
    max = (refl, omega arith);
    step = (refl, omega arith);
    decimals = omega arith;
    options = refl;
    layout = tt;
    accepted = refl;
  })
  fill_with_defaults_lem uint32 n h k = yields _ (record {
    min = (refl, omega arith);
    max = (refl, omega arith);
    step = (refl, omega arith);
    decimals = omega arith;
    options = refl;
    layout = tt;
    accepted = refl;
  })
  fill_with_defaults_lem uint64 n h k = yields _ (record {
    min = (refl, omega arith);
    max = (refl, omega arith);
    step = (refl, omega arith);
    decimals = omega arith;
    options = refl;
    layout = tt;
    accepted = refl;
  })
  fill_with_defaults_lem float n h k = yields _ (record {
    min = (refl, omega arith);
    max = (refl, omega arith);
    step = (refl, L.float_step_lt);
    decimals = omega arith;
    options = refl;
    layout = tt;
    accepted = refl;
  })
  fill_with_defaults_lem double n h k = yields _ (record {
    min = (refl, omega arith);
    max = (refl, omega arith);
    step = (refl, L.double_step_lt);
    decimals = omega arith;
    options = refl;
    layout = tt;
    accepted = refl;
  })
  fill_with_defaults_lem string n h k = yields _ (record {
    min = (refl, tt);
    max = (refl, tt);
    step = (refl, tt);
    decimals = omega arith;
    options = refl;
    layout = tt;
    accepted = refl;
  })
  fill_with_defaults_lem vector_sint8 n h k = yields _ (record {
    min = (refl, omega arith);
    max = (refl, omega arith);
    step = (refl, omega arith);
    decimals = omega arith;
    options = refl;
    layout = tt;
    accepted = product_one n k;
  })
  fill_with_defaults_lem vector_sint16 n h k = yields _ (record {
    min = (refl, omega arith);
    max = (refl, omega arith);
    step = (refl, omega arith);
    decimals = omega arith;
    options = refl;
    layout = tt;
    accepted = product_one n k;
  })
  fill_with_defaults_lem vector_sint32 n h k = yields _ (record {
    min = (refl, omega arith);
    max = (refl, omega arith);
    step = (refl, omega arith);
    decimals = omega arith;
    options = refl;
    layout = tt;
    accepted = product_one n k;
  })
  fill_with_defaults_lem vector_sint64 n h k = yields _ (record {
    min = (refl, omega arith);
    max = (refl, omega arith);
    step = (refl, omega arith);
    decimals = omega arith;
    options = refl;
    layout = tt;
    accepted = product_one n k;
  })
  fill_with_defaults_lem vector_uint8 n h k = yields _ (record {
    min = (refl, omega arith);
    max = (refl, omega arith);
    step = (refl, omega arith);
    decimals = omega arith;
    options = refl;
    layout = tt;
    accepted = product_one n k;
  })
  fill_with_defaults_lem vector_uint16 n h k = yields _ (record {
    min = (refl, omega arith);
    max = (refl, omega arith);
    step = (refl, omega arith);
    decimals = omega arith;
    options = refl;
    layout = tt;
    accepted = product_one n k;
  })
  fill_with_defaults_lem vector_uint32 n h k = yields _ (record {
    min = (refl, omega arith);
    max = (refl, omega arith);
    step = (refl, omega arith);
    decimals = omega arith;
    options = refl;
    layout = tt;
    accepted = product_one n k;
  })
  fill_with_defaults_lem vector_uint64 n h k = yields _ (record {
    min = (refl, omega arith);
    max = (refl, omega arith);
    step = (refl, omega arith);
    decimals = omega arith;
    options = refl;
    layout = tt;
    accepted = product_one n k;
  })
  fill_with_defaults_lem vector_float n h k = yields _ (record {
    min = (refl, omega arith);
    max = (refl, omega arith);
    step = (refl, L.float_step_lt);
    decimals = omega arith;
    options = refl;
    layout = tt;
    accepted = product_one n k;
  })
  fill_with_defaults_lem vector_double n h k = yields _ (record {
    min = (refl, omega arith);
    max = (refl, omega arith);
    step = (refl, L.double_step_lt);
    decimals = omega arith;
    options = refl;
    layout = tt;
    accepted = product_one n k;
  })
