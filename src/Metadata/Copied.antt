-- ===== src/Metadata/Copied.antt =====
-- `tweak_metadata_copy` of tweak-metadata/src/tweakmetadata.c.
use tweaktool.Common.{
  ℕ, ◌≡◌, refl, ap, ap₂, Bool, true, false, Option, none, some, List, [], ◌∷◌, All,
}
use tweaktool.Variant.{VariantType}
use tweaktool.Metadata.{
  Metadata, MetaOption, Layout, copy, copy_options, clone_options, clone_layout, copied_options,
  copied_layout, present, get_options, get_layout,
}
use tweaktool.Metadata.Settings.{copy_variant_lem}
use tweaktool.Metadata.OptionValues.{OptionFits}
use tweaktool.Metadata.Initial.{element, LayoutFits}
use tweaktool.Metadata.Merged.{PresentOptions}
use tweaktool.Metadata.Valid.{IsValid}

copy_options_lem :
    (t : VariantType) (os : List MetaOption) → All (OptionFits t) os → copy_options os ≡ some os
unfolding copy_options
copy_options_lem t [] h = refl
copy_options_lem t (o ∷ os) h = rw (copy_variant_lem t o.value h.0, copy_options_lem t os h.1) refl

options_copied :
    (t : VariantType) (p : Bool) (os : Option (List MetaOption))
    → PresentOptions t p os
    → (c : Option (List MetaOption)) × (copied_options p os ≡ some c) × (present p c ≡ present p os)
unfolding copied_options clone_options
options_copied t false os h = (none, refl, refl)
options_copied t true none h = absurd h
options_copied t true (some os) h = (some os, rw (copy_options_lem t os h) refl, refl)

layout_given :
    (l : Layout) (d : Option (List ℕ)) → l.dimensions ≡ d → LayoutFits true d → clone_layout l ≡ l
unfolding clone_layout
layout_given l none e h = absurd h
layout_given l (some d) e h = ap₂ (λ o e. record { order = o; dimensions = e }) (rw e refl) refl

layout_copied :
    (p : Bool) (l : Layout)
    → LayoutFits p l.dimensions
    → present p (copied_layout p l) ≡ present p l
unfolding copied_layout
layout_copied false l h = refl
layout_copied true l h = ap some (layout_given l l.dimensions refl h)

-- A copy shows what the original shows.
pub record SameView (m c : Metadata) : Type 0 where
  pub control_type : c.control_type ≡ m.control_type
  pub min : c.min ≡ m.min
  pub max : c.max ≡ m.max
  pub step : c.step ≡ m.step
  pub readonly : c.readonly ≡ m.readonly
  pub caption : c.caption ≡ m.caption
  pub unit : c.unit ≡ m.unit
  pub options : get_options c ≡ get_options m
  pub layout : get_layout c ≡ get_layout m

-- The copy of valid metadata has a result which shows the same control, bounds, step, texts, options and layout. Its decimals are
-- not those of the original but whatever the allocated memory held.
pub copy_lem :
    (t : VariantType) (n : ℕ) (m : Metadata) (uninit : ℕ)
    → IsValid t n m
    → (c : Metadata) × (copy uninit m ≡ some c) × SameView m c × (c.decimals ≡ uninit)
unfolding copy get_options get_layout
copy_lem t n m uninit h =
    let e = element t in
    let os = options_copied e m.options_present m.options h.options in
    (
      record m {
        decimals = uninit;
        options = os.0;
        layout = copied_layout m.layout_present m.layout;
      },
      rw
          (
            copy_variant_lem e m.min h.min,
            copy_variant_lem e m.max h.max,
            copy_variant_lem e m.step h.step,
            os.1,
          )
          refl,
      record {
        control_type = refl;
        min = refl;
        max = refl;
        step = refl;
        readonly = refl;
        caption = refl;
        unit = refl;
        options = os.2;
        layout = layout_copied m.layout_present m.layout h.layout;
      },
      refl,
    )
