-- ===== src/Metadata/Decimals.antt =====
-- The decimals that `tweak_metadata_create` of tweak-metadata/src/tweakmetadata.c gives a number of floating point.
use tweaktool.Common.{ℕ, ◌^◌, ◌<◌, ◌≡◌, refl, ◌∙◌, ap, true, Option, none, some, ◌>>=◌, Bytes}
use tweaktool.Variant.{VariantType, float, double}
use tweaktool.Convert.Completes.{IsElement}
use tweaktool.Json.{Node, get_object_field, has_type, get_type}
use tweaktool.Json.NodeType
use tweaktool.Metadata.{Metadata, slider}
use tweaktool.Metadata.Names.{control_name, step_name, decimals_name}
use tweaktool.Metadata.Library.{Library}
use tweaktool.Metadata.Yields.{Ensures, ensures}
use tweaktool.Metadata.Defaults.{fill_with_defaults}
use tweaktool.Metadata.Values.{parse_control_type, text_of}
use tweaktool.Metadata.Initial.{element, fill_with_defaults_lem}
use tweaktool.Metadata.Update.{validate_metadata, validate_metadata_float, adopt, update, create}
use tweaktool.Metadata.Ignored.{IsPlain, merged_of, update_result, plain_numeric}

abbrev pub IsFloatType : VariantType → Type 0
IsFloatType float = Unit {0}
IsFloatType double = Unit {0}
IsFloatType _ = ⊥

float_element : (t : VariantType) → IsFloatType t → IsElement (element t)
float_element float h = tt
float_element double h = tt
float_element _ h = absurd h

accepted_slider :
    (t : VariantType) (n : ℕ) (user : Metadata)
    → IsFloatType t
    → user.control_type ≡ slider
    → validate_metadata t n user ≡ some true
unfolding validate_metadata validate_metadata_float
accepted_slider float n user h e = rw (validate_metadata_float, e) refl
accepted_slider double n user h e = rw (validate_metadata_float, e) refl
accepted_slider _ n user h e = absurd h

abbrev IsSlider : Metadata → Type 0
IsSlider m = (m.control_type ≡ slider) × (m.decimals ≡ 4)

module _ (L : Library) where
  fill_with_defaults-IsSlider :
      (t : VariantType) (n : ℕ) → IsFloatType t → Ensures IsSlider (fill_with_defaults L t n)
  unfolding fill_with_defaults
  fill_with_defaults-IsSlider float n h = ensures IsSlider _ (refl, refl)
  fill_with_defaults-IsSlider double n h = ensures IsSlider _ (refl, refl)
  fill_with_defaults-IsSlider _ n h = absurd h

  -- For a number of floating point a document that has neither control, options and layout nor decimals and step gives a
  -- slider with no decimals, although the default is 4, and with the default step.
  pub create-decimals :
      (t : VariantType) (n : ℕ) (snippet : Bytes) (document : Node)
      → IsFloatType t
      → n < 2 ^ 64
      → L.parse_document snippet ≡ some document
      → IsPlain (some document)
      → get_object_field (some document) decimals_name NodeType.number ≡ none
      → get_object_field (some document) step_name NodeType.number ≡ none
      → (default m : Metadata) × (fill_with_defaults L t n ≡ some default)
        × (create L t n (some snippet) ≡ some m)
        × (m.control_type ≡ slider)
        × (default.decimals ≡ 4)
        × (m.decimals ≡ 0)
        × (m.step ≡ default.step)
  unfolding create update adopt parse_control_type text_of has_type get_type
  create-decimals t n snippet document h k parsed plain no_decimals no_step =
      let doc : Option Node = some document in
      let (m, e, d) = fill_with_defaults_lem L t n (float_element t h) k in
      let s = fill_with_defaults-IsSlider t n h m e in
      let (settings, user, f, g, bare, p) =
        merged_of L t n m doc (float_element t h) d
          (L.parse_document-HasTexts snippet document parsed) (plain_numeric L doc plain) plain in
      let control : parse_control_type (get_object_field doc control_name NodeType.string)
            m.control_type
          ≡ m.control_type =
        rw (parse_control_type, plain.0) refl in
      let slides = p.control ∙ control ∙ s.0 in
      (
        m,
        adopt m user,
        e,
        ap (λ (o : Option Metadata). o >>= λ m. update L t n m (L.parse_document snippet)) e
            ∙ ap (update L t n m) parsed
            ∙ update_result L t n m settings user doc true f g (accepted_slider t n user h slides),
        slides,
        s.1,
        p.decimals no_decimals ∙ bare.2,
        p.step no_step,
      )
