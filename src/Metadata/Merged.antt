-- ===== src/Metadata/Merged.antt =====
-- The settings that `update_with_custom_user_settings` of tweak-metadata/src/tweakmetadata.c reads and merges with the defaults
-- have the type of the item.
use tweaktool.Common.{
  ℕ, ◌^◌, ◌<◌, ◌≡◌, inl, inr, refl, sym, subst, Bool, true, false, Option, none, some, List, Bytes,
  All, arith, Bool-cases,
}
use tweaktool.Variant.{VariantType, Variant}
use tweaktool.Convert.Coerce.{Has}
use tweaktool.Convert.Completes.{IsElement}
use tweaktool.Json.{Node, get_object_field}
use tweaktool.Json.Accessors.{
  PointsToTexts, Expected, get_object_field_texts, get_object_field-Expected, array_size_known,
}
use tweaktool.Json.NodeType
use tweaktool.Metadata.{Metadata, MetaOption, Layout}
use tweaktool.Metadata.Names.{
  readonly_name, options_name, layout_name, control_name, min_name, max_name, step_name,
  decimals_name,
}
use tweaktool.Metadata.Library.{Library}
use tweaktool.Metadata.Yields.{Yields, yields, Yields-bind, Yields-imp, Yields-and}
use tweaktool.Metadata.Settings.{
  IsSetting, parse_bool_lem, parse_variant_lem, parse_uint32_lem, parse_uint32-none,
  parse_variant-none,
}
use tweaktool.Metadata.OptionValues.{OptionFits, OptionsFit, parse_options_array_lem}
use tweaktool.Metadata.DimensionValues.{HasNumericDimensions, LayoutRead, parse_layout_object_lem}
use tweaktool.Metadata.Initial.{element, LayoutFits}
use tweaktool.Metadata.Values.{parse_bool, parse_variant, parse_uint32, parse_control_type}
use tweaktool.Metadata.Options.{parse_options_array}
use tweaktool.Metadata.Dimensions.{parse_layout_object}
use tweaktool.Metadata.Update.{
  merge_metadata_common, merge_metadata_default, merge_metadata_options_map_present, merge_settings,
  read_settings, with_options, with_layout,
}

-- Options that are present have values of the type.
abbrev pub PresentOptions : VariantType → Bool → Option (List MetaOption) → Type 0
PresentOptions t false os = Unit {0}
PresentOptions t true none = ⊥
PresentOptions t true (some os) = All (OptionFits t) os

-- The settings that were read, before they are merged.
pub record IsRead (t : VariantType) (user : Metadata) : Type 0 where
  pub decimals : user.decimals ≡ 0
  pub options : PresentOptions (element t) user.options_present user.options
  pub layout : LayoutFits user.layout_present user.layout.dimensions

-- The settings before the validation.
pub record IsMerged (t : VariantType) (user : Metadata) : Type 0 where
  pub min : IsSetting (element t) user.min
  pub max : IsSetting (element t) user.max
  pub step : IsSetting (element t) user.step
  pub decimals : user.decimals < 2 ^ 32
  pub options : PresentOptions (element t) user.options_present user.options
  pub layout : LayoutFits user.layout_present user.layout.dimensions

-- The same where the document has no options, with what its missing settings become.
pub record IsPlainMerge (t : VariantType) (settings m : Metadata) (document : Option Node)
    (user : Metadata) : Type 0 where
  pub merged : IsMerged t user
  pub control :
      user.control_type
      ≡ parse_control_type (get_object_field document control_name NodeType.string) m.control_type
  pub layout : user.layout_present ≡ settings.layout_present
  pub step : get_object_field document step_name NodeType.number ≡ none → user.step ≡ m.step
  pub decimals :
      get_object_field document decimals_name NodeType.number ≡ none
      → user.decimals ≡ settings.decimals

-- Where the document has a layout, the dimensions are numbers.
abbrev pub HasNumericLayout : Option Node → Type 0
HasNumericLayout document =
    HasNumericDimensions (get_object_field document layout_name NodeType.object)

with_both :
    (t : VariantType) (l : Option Layout) (os : Option (Option (List MetaOption))) (user : Metadata)
    → LayoutRead l
    → OptionsFit t os
    → user.options_present ≡ false
    → user.layout_present ≡ false
    → user.decimals ≡ 0
    → let m = with_layout l (with_options os user) in
      (m.decimals ≡ 0)
      × PresentOptions t m.options_present m.options
      × LayoutFits m.layout_present m.layout.dimensions
with_both t none none user h k p q r = (
  r,
  subst (λ x. PresentOptions t x user.options) (sym p) tt,
  subst (λ x. LayoutFits x user.layout.dimensions) (sym q) tt,
)
with_both t none (some none) user h k p q r = absurd k
with_both t none (some (some os)) user h k p q r =
    (r, k, subst (λ x. LayoutFits x user.layout.dimensions) (sym q) tt)
with_both t (some l) none user h k p q r =
    (r, subst (λ x. PresentOptions t x user.options) (sym p) tt, h)
with_both t (some l) (some none) user h k p q r = absurd k
with_both t (some l) (some (some os)) user h k p q r = (r, k, h)

-- The optional nodes of the document.
options_read :
    (L : Library) (t : VariantType) (o : Option Node)
    → IsElement t
    → PointsToTexts o
    → Expected NodeType.array o
    → Yields
        (OptionsFit t)
        (elim o [ none ↦ some none | some a ↦ parse_options_array L.runtime (some a) t ])
options_read L t none h ok k = yields none tt
options_read L t (some a) h ok k =
    parse_options_array_lem L.runtime t (some a) h ok (array_size_known a k)

layout_read :
    (o : Option Node)
    → HasNumericDimensions o
    → Yields LayoutRead (elim o [ none ↦ some none | some a ↦ parse_layout_object (some a) ])
layout_read none h = yields none tt
layout_read (some a) h = parse_layout_object_lem (some a) h

module _ (L : Library) where
  pub read_settings_lem :
      (t : VariantType) (m : Metadata) (document : Option Node)
      → IsElement (element t)
      → m.min.type ≡ element t
      → PointsToTexts document
      → HasNumericLayout document
      → Yields (IsRead t) (read_settings L m document)
  unfolding read_settings
  read_settings_lem t m document h e ok numeric =
      let R = L.runtime in
      let e' = element t in
      Yields-bind {Q = IsRead t}
        (parse_bool R (get_object_field document readonly_name NodeType.bool) m.readonly) _
        (parse_bool_lem R (get_object_field document readonly_name NodeType.bool) m.readonly)
        (λ readonly _.
          Yields-bind {P = OptionsFit e'} {Q = IsRead t} _ _
            (subst
              (λ u.
                Yields (OptionsFit e')
                  (elim (get_object_field document options_name NodeType.array) [
                    | none ↦ some none
                    | some a ↦ parse_options_array L.runtime (some a) u
                  ]))
              (sym e)
              (options_read L e' (get_object_field document options_name NodeType.array) h
                (get_object_field_texts document options_name NodeType.array ok)
                (get_object_field-Expected document options_name NodeType.array)))
            (λ os fits.
              Yields-bind {P = LayoutRead} {Q = IsRead t} _ _
                (layout_read (get_object_field document layout_name NodeType.object) numeric)
                (λ l read.
                  let p = with_both e' l os _ read fits refl refl refl in
                  yields _ (record { decimals = p.0; options = p.1; layout = p.2 }))))

  pub merge_default_lem :
      (t : VariantType) (user m : Metadata) (document : Option Node)
      → IsElement (element t)
      → Has (element t) m.min
      → Has (element t) m.max
      → Has (element t) m.step
      → m.decimals < 2 ^ 32
      → PointsToTexts document
      → IsRead t user
      → Yields (IsPlainMerge t user m document) (merge_metadata_default L user m document)
  unfolding merge_metadata_default merge_metadata_common
  merge_default_lem t user m document h least greatest step decimals ok read =
      let R = L.runtime in
      let e = element t in
      let P = IsSetting e in
      let Q = IsPlainMerge t user m document in
      let node : Bytes → Option Node = λ name. get_object_field document name NodeType.number in
      let texts : (name : Bytes) → PointsToTexts (node name) =
        λ name. get_object_field_texts document name NodeType.number ok in
      Yields-bind {P = P} {Q = Q} _ _
        (parse_variant_lem R e (node min_name) m.min h least (texts min_name))
        (λ a p.
          Yields-bind {P = P} {Q = Q} _ _
            (parse_variant_lem R e (node max_name) m.max h greatest (texts max_name))
            (λ c q.
              Yields-bind {P = λ (v : Variant). P v × (node step_name ≡ none → v ≡ m.step)} {Q = Q}
                _ _
                (Yields-and (parse_variant R (node step_name) m.step)
                  (parse_variant_lem R e (node step_name) m.step h step (texts step_name))
                  (λ v d i. parse_variant-none R e (node step_name) m.step step i v d))
                (λ d r.
                  Yields-bind
                    {P = λ (n : ℕ). (n < 2 ^ 32) × (node decimals_name ≡ none → n ≡ user.decimals)}
                    {Q = Q} _ _
                    (Yields-and (parse_uint32 R user.decimals (node decimals_name) m.decimals)
                      (parse_uint32_lem R user.decimals (node decimals_name) m.decimals
                        (omega (arith, read.decimals)) decimals (texts decimals_name))
                      (λ n f i.
                        parse_uint32-none R user.decimals (node decimals_name) m.decimals i n f))
                    (λ n k. yields _ (record {
                      merged = record {
                        min = p;
                        max = q;
                        step = r.0;
                        decimals = k.0;
                        options = read.options;
                        layout = read.layout;
                      };
                      control = refl;
                      layout = refl;
                      step = r.1;
                      decimals = k.1;
                    })))))

  pub merge_settings_lem :
      (t : VariantType) (user m : Metadata) (document : Option Node)
      → IsElement (element t)
      → Has (element t) m.min
      → Has (element t) m.max
      → Has (element t) m.step
      → m.decimals < 2 ^ 32
      → PointsToTexts document
      → IsRead t user
      → Yields (IsMerged t) (merge_settings L user m document)
  unfolding merge_settings merge_metadata_options_map_present merge_metadata_common
  merge_settings_lem t user m document h least greatest step decimals ok read =
      elim (Bool-cases user.options_present) [
        | inl e ↦
            rw (merge_settings, e)
              (yields _ (record {
                min = inl refl;
                max = inl refl;
                step = inl refl;
                decimals = omega arith;
                options = read.options;
                layout = read.layout;
              }))
        | inr e ↦
            rw (merge_settings, e)
              (Yields-imp (merge_metadata_default L user m document) (λ a p. p.merged)
                (merge_default_lem t user m document h least greatest step decimals ok read))
      ]
