-- ===== src/Metadata.antt =====
-- tweak-metadata/src/tweakmetadata.c and tweak-metadata/include/tweak2/metadata.h: how an item is to be shown and
-- edited. Memory is left out: a null pointer to an array is `none`, and what C leaves undefined is `none` too.
use tweaktool.Common.{
  ℕ, ◌≡◌, Bool, true, false, Option, none, some, List, [], ◌∷◌, length, get_elem?, get_or, ◌>>=◌,
  Bytes,
}
use tweaktool.Variant.{Variant, init_empty}
use tweaktool.Variant.Copy.{copy_value}
pub mod Names
pub mod Library
pub mod Defaults
pub mod Values
pub mod Options
pub mod Dimensions
pub mod Update
pub mod Yields
pub mod Settings
pub mod Initial
pub mod Increments
pub mod OptionValues
pub mod DimensionValues
pub mod Merged
pub mod Valid
pub mod Counting
pub mod Numbering
pub mod Copied
pub mod Ignored
pub mod Decimals
mod Example
mod Tests

-- `tweak_metadata_control_type`
pub data ControlType : Type 0 where
  unspecified checkbox spinbox slider combobox button editbox table : ControlType

-- `tweak_metadata_layout_order`
pub data LayoutOrder : Type 0 where
  row_major column_major : LayoutOrder

-- `struct option`
pub record MetaOption : Type 0 where
  pub text : Bytes
  pub value : Variant

-- `tweak_metadata_layout_base`
pub record Layout : Type 0 where
  pub order : LayoutOrder
  pub dimensions : Option (List ℕ)

-- `tweak_metadata_base`; of `options` the one field.
pub record Metadata : Type 0 where
  pub control_type : ControlType
  pub min : Variant
  pub max : Variant
  pub readonly : Bool
  pub decimals : ℕ
  pub step : Variant
  pub caption : Bytes
  pub unit : Bytes
  pub options_present : Bool
  pub options : Option (List MetaOption)
  pub layout_present : Bool
  pub layout : Layout

-- What is zeroed by `memset` or by an initialiser.
abbrev pub no_layout : Layout
no_layout = record { order = row_major; dimensions = none }

abbrev pub zeroed : Metadata
zeroed = record {
  control_type = unspecified;
  min = init_empty;
  max = init_empty;
  readonly = false;
  decimals = 0;
  step = init_empty;
  caption = [];
  unit = [];
  options_present = false;
  options = none;
  layout_present = false;
  layout = no_layout;
}

unfoldable pub copy_variant : Variant → Option Variant
unfolding copy_value
copy_variant v = copy_value v.type v.value

-- The loop of `clone_options`.
unfoldable pub copy_options : List MetaOption → Option (List MetaOption)
unfolding copy_variant
copy_options [] = some []
copy_options (o ∷ os) = copy_variant o.value >>= λ v.
    copy_options os >>= λ rest. some (record { text = o.text; value = v } ∷ rest)

unfoldable pub clone_options : Option (List MetaOption) → Option (Option (List MetaOption))
unfolding copy_options
clone_options none = some none
clone_options (some os) = copy_options os >>= λ rest. some (some rest)

unfoldable pub clone_layout : Layout → Layout
clone_layout l = record {
  order = elim l.dimensions [ none ↦ row_major | some d ↦ l.order ];
  dimensions = l.dimensions;
}

unfoldable pub copied_options : Bool → Option (List MetaOption) → Option (Option (List MetaOption))
unfolding clone_options
copied_options true os = clone_options os
copied_options false os = some none

unfoldable pub copied_layout : Bool → Layout → Layout
unfolding clone_layout
copied_layout true l = clone_layout l
copied_layout false l = no_layout

-- `decimals` of the copy is what the block from `malloc` holds there.
unfoldable pub copy : ℕ → Metadata → Option Metadata
unfolding copy_variant copied_options copied_layout
copy uninit m = copy_variant m.min >>= λ least. copy_variant m.max >>= λ greatest.
    copy_variant m.step >>= λ step. copied_options m.options_present m.options >>= λ options.
    some (record {
      control_type = m.control_type;
      min = least;
      max = greatest;
      readonly = m.readonly;
      decimals = uninit;
      step = step;
      caption = m.caption;
      unit = m.unit;
      options_present = m.options_present;
      options = options;
      layout_present = m.layout_present;
      layout = copied_layout m.layout_present m.layout;
    })

abbrev pub present {ℓ} : {A : Type ℓ} → Bool → A → Option A
present true a = some a
present false a = none

-- `none` is a null pointer.
unfoldable pub get_options : Metadata → Option (Option (List MetaOption))
get_options m = present m.options_present m.options

-- `none` is the read through a null array.
unfoldable pub get_enum_size : Option (List MetaOption) → Option ℕ
get_enum_size none = none
get_enum_size (some os) = some (length os)

unfoldable pub get_enum_text : List MetaOption → ℕ → Option Bytes
get_enum_text os i = get_elem? os i >>= λ o. some o.text

unfoldable pub get_enum_value : List MetaOption → ℕ → Option Variant
get_enum_value os i = get_elem? os i >>= λ o. some o.value

-- `none` is a null pointer.
unfoldable pub get_layout : Metadata → Option Layout
get_layout m = present m.layout_present m.layout

unfoldable pub get_number_of_dimensions : List ℕ → ℕ
get_number_of_dimensions d = length d

-- 0 out of range.
unfoldable pub get_dimension : List ℕ → ℕ → ℕ
get_dimension d i = get_or d i 0
