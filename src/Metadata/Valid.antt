-- ===== src/Metadata/Valid.antt =====
-- What `tweak_metadata_create` of tweak-metadata/src/tweakmetadata.c gives for any document.
use tweaktool.Common.{
  ℕ, ◌^◌, ◌<◌, ◌≡◌, inl, inr, refl, sym, ◌∙◌, ap, subst, Bool, true, false, Option, none, some,
  List, if◌then◌else◌, ◌>>=◌, Bytes, Bool-cases, Option-cases,
}
use tweaktool.Variant.{
  VariantType, null, bool, sint8, sint16, sint32, sint64, uint8, uint16, uint32, uint64, float,
  double, string,
}
use tweaktool.Convert.Completes.{IsElement}
use tweaktool.Json.{Node}
use tweaktool.Json.Accessors.{PointsToTexts}
use tweaktool.Metadata.{Metadata, MetaOption, Layout, ControlType, table}
use tweaktool.Metadata.Library.{Library}
use tweaktool.Metadata.Defaults.{fill_with_defaults}
use tweaktool.Metadata.Yields.{Yields, yields, Yields-bind}
use tweaktool.Metadata.Settings.{IsSetting}
use tweaktool.Metadata.Initial.{element, LayoutFits, IsDefault, fill_with_defaults_lem}
use tweaktool.Metadata.Merged.{
  PresentOptions, IsMerged, HasNumericLayout, read_settings_lem, merge_settings_lem,
}
use tweaktool.Metadata.Update.{
  validate_metadata, validate_metadata_vector, agrees, adopt, merge_settings, read_settings,
  update_with_custom_user_settings, update, create,
}

-- Bounds and step have the type of the item, or of its elements, where they are not empty; what is present can be read;
-- and the validation of the program accepts the whole.
pub record IsValid (t : VariantType) (n : ℕ) (m : Metadata) : Type 0 where
  pub min : IsSetting (element t) m.min
  pub max : IsSetting (element t) m.max
  pub step : IsSetting (element t) m.step
  pub decimals : m.decimals < 2 ^ 32
  pub options : PresentOptions (element t) m.options_present m.options
  pub layout : LayoutFits m.layout_present m.layout.dimensions
  pub accepted : validate_metadata t n m ≡ some true

vector_verdict :
    (c : ControlType) (p : Bool) (d : Option (List ℕ)) (n : ℕ)
    → LayoutFits p d
    → Yields
        (λ (ok : Bool). Unit {0})
        (elim c [ table ↦ elim p [ true ↦ agrees n d | false ↦ some false ] | _ ↦ some true ])
unfolding agrees
vector_verdict table true none n h = absurd h
vector_verdict table true (some d) n h = yields _ tt
vector_verdict table false d n h = yields _ tt
vector_verdict _ p d n h = yields _ tt

verdict :
    (t : VariantType) (n : ℕ) (m : Metadata)
    → IsElement (element t)
    → LayoutFits m.layout_present m.layout.dimensions
    → Yields (λ (ok : Bool). Unit {0}) (validate_metadata t n m)
unfolding validate_metadata validate_metadata_vector
verdict null n m h k = absurd h
verdict bool n m h k = yields _ tt
verdict sint8 n m h k = yields _ tt
verdict sint16 n m h k = yields _ tt
verdict sint32 n m h k = yields _ tt
verdict sint64 n m h k = yields _ tt
verdict uint8 n m h k = yields _ tt
verdict uint16 n m h k = yields _ tt
verdict uint32 n m h k = yields _ tt
verdict uint64 n m h k = yields _ tt
verdict float n m h k = yields _ tt
verdict double n m h k = yields _ tt
verdict string n m h k = yields _ tt
verdict _ n m h k = vector_verdict m.control_type m.layout_present m.layout.dimensions n k

vector_same :
    (c : ControlType) (p : Bool) (l k : Layout) (n : ℕ)
    → let r = if p then l else k in
      Path
        (Option Bool)
        (elim c [
          | table ↦ elim p [ true ↦ agrees n r.dimensions | false ↦ some false ]
          | _ ↦ some true
        ])
        (elim c [
          | table ↦ elim p [ true ↦ agrees n l.dimensions | false ↦ some false ]
          | _ ↦ some true
        ])
vector_same table true l k n = refl
vector_same table false l k n = refl
vector_same _ p l k n = refl

-- The validation reads nothing that is taken over from the metadata before.
adopt_same :
    (t : VariantType) (n : ℕ) (m user : Metadata)
    → validate_metadata t n (adopt m user) ≡ validate_metadata t n user
unfolding validate_metadata validate_metadata_vector adopt
adopt_same null n m user = refl
adopt_same bool n m user = refl
adopt_same sint8 n m user = refl
adopt_same sint16 n m user = refl
adopt_same sint32 n m user = refl
adopt_same sint64 n m user = refl
adopt_same uint8 n m user = refl
adopt_same uint16 n m user = refl
adopt_same uint32 n m user = refl
adopt_same uint64 n m user = refl
adopt_same float n m user = refl
adopt_same double n m user = refl
adopt_same string n m user = refl
adopt_same _ n m user = vector_same user.control_type user.layout_present user.layout m.layout n

kept_options :
    (t : VariantType) (p : Bool) (os old : Option (List MetaOption))
    → PresentOptions t p os
    → PresentOptions t p (if p then os else old)
kept_options t true os old h = h
kept_options t false os old h = tt

kept_layout :
    (p : Bool) (l old : Layout)
    → LayoutFits p l.dimensions
    → LayoutFits p (if p then l else old).dimensions
kept_layout true l old h = h
kept_layout false l old h = tt

default-IsValid : (t : VariantType) (n : ℕ) (m : Metadata) → IsDefault t n m → IsValid t n m
default-IsValid t n m d = record {
  min = inr d.min;
  max = inr d.max;
  step = inr d.step;
  decimals = d.decimals;
  options = subst (λ x. PresentOptions (element t) x m.options) (sym d.options) tt;
  layout = d.layout;
  accepted = d.accepted;
}

adopt-IsValid :
    (t : VariantType) (n : ℕ) (m user : Metadata)
    → IsMerged t user
    → validate_metadata t n user ≡ some true
    → IsValid t n (adopt m user)
unfolding adopt
adopt-IsValid t n m user h e = record {
  min = h.min;
  max = h.max;
  step = h.step;
  decimals = h.decimals;
  options = kept_options (element t) user.options_present user.options m.options h.options;
  layout = kept_layout user.layout_present user.layout m.layout h.layout;
  accepted = adopt_same t n m user ∙ e;
}

module _ (L : Library) where
  update_lem :
      (t : VariantType) (n : ℕ) (m : Metadata) (document : Option Node)
      → IsElement (element t)
      → IsDefault t n m
      → PointsToTexts document
      → HasNumericLayout document
      → Yields (IsValid t n) (update_with_custom_user_settings L t n m document)
  unfolding update_with_custom_user_settings
  update_lem t n m document h d ok numeric =
      Yields-bind {Q = IsValid t n} (read_settings L m document) _
        (read_settings_lem L t m document h d.min.0 ok numeric)
        (λ settings read.
          Yields-bind {Q = IsValid t n} (merge_settings L settings m document) _
            (merge_settings_lem L t settings m document h d.min d.max d.step d.decimals ok read)
            (λ user merged.
              let v = verdict t n user h merged.layout in
              Yields-bind {P = λ ok. validate_metadata t n user ≡ some ok} {Q = IsValid t n}
                (validate_metadata t n user) _ (v.0, v.1, v.1)
                (λ ok e. elim (Bool-cases ok) [
                  | inl q ↦ rw q (yields _ (adopt-IsValid t n m user merged (e ∙ ap some q)))
                  | inr q ↦ rw q (yields _ (default-IsValid t n m d))
                ])))

  update_pointer :
      (t : VariantType) (n : ℕ) (m : Metadata) (document : Option Node)
      → IsElement (element t)
      → IsDefault t n m
      → PointsToTexts document
      → HasNumericLayout document
      → Yields (IsValid t n) (update L t n m document)
  unfolding update
  update_pointer t n m none h d ok numeric = yields m (default-IsValid t n m d)
  update_pointer t n m (some a) h d ok numeric = update_lem t n m (some a) h d ok numeric

  pub document_texts : (snippet : Option Bytes) → PointsToTexts (snippet >>= L.parse_document)
  document_texts none = tt
  document_texts (some s) = elim (Option-cases (L.parse_document s)) [
    | inl e ↦ rw e tt
    | inr (d, e) ↦ rw e (L.parse_document-HasTexts s d e)
  ]

  -- Whatever the JSON text, for an item of any type but null the creation of its metadata has a result, unless the text
  -- is a document whose layout has a dimension that is no number. In the result the bounds and the step are empty or of
  -- the type of the item or of its elements, the options too, and the validation of the program accepts it.
  pub create-IsValid :
      (t : VariantType) (n : ℕ) (snippet : Option Bytes)
      → IsElement (element t)
      → n < 2 ^ 64
      → HasNumericLayout (snippet >>= L.parse_document)
      → (m : Metadata) × (create L t n snippet ≡ some m) × IsValid t n m
  unfolding create
  create-IsValid t n snippet h k numeric =
      Yields-bind {Q = IsValid t n} (fill_with_defaults L t n) _ (fill_with_defaults_lem L t n h k)
        (λ m d.
          update_pointer t n m (snippet >>= L.parse_document) h d (document_texts snippet) numeric)
