-- ===== src/Metadata/Update.antt =====
-- tweak-metadata/src/tweakmetadata.c: `tweak_metadata_create` and what it makes of a document.
use tweaktool.Common.{
  ℕ, ◌*◌, ◌%◌, ◌^◌, Bool, true, false, Option, none, some, List, [], ◌∷◌, ◌==◌, if◌then◌else◌,
  ◌>>=◌, Bytes,
}
use tweaktool.Variant.{
  VariantType, init_empty, null, bool, sint8, sint16, sint32, sint64, uint8, uint16, uint32, uint64,
  float, double, string,
}
use tweaktool.Json.{Node, get_object_field}
use tweaktool.Json.NodeType
use tweaktool.Metadata.{
  Metadata, MetaOption, Layout, ControlType, checkbox, spinbox, slider, combobox, button, editbox,
  table, zeroed,
}
use tweaktool.Metadata.Names.{
  readonly_name, unit_name, options_name, layout_name, control_name, min_name, max_name, step_name,
  decimals_name, caption_name,
}
use tweaktool.Metadata.Library.{Library}
use tweaktool.Metadata.Defaults.{fill_with_defaults}
use tweaktool.Metadata.Values.{
  parse_control_type, parse_string, parse_bool, parse_variant, parse_uint32,
}
use tweaktool.Metadata.Options.{parse_options_array}
use tweaktool.Metadata.Dimensions.{parse_layout_object}

unfoldable pub merge_metadata_common : Metadata → Metadata → Option Node → Metadata
unfolding parse_string
merge_metadata_common user default document = record user {
  caption = parse_string (get_object_field document caption_name NodeType.string) default.caption;
  unit = parse_string (get_object_field document unit_name NodeType.string) default.unit;
}

unfoldable pub merge_metadata_options_map_present : Metadata → Metadata → Option Node → Metadata
unfolding merge_metadata_common parse_control_type
merge_metadata_options_map_present user default document =
    merge_metadata_common
      (record user {
        control_type =
            parse_control_type (get_object_field document control_name NodeType.string) combobox;
        min = init_empty;
        max = init_empty;
        step = init_empty;
        decimals = 0;
      })
      default document

unfoldable pub validate_metadata_bool : ControlType → Bool
validate_metadata_bool button = true
validate_metadata_bool checkbox = true
validate_metadata_bool spinbox = true
validate_metadata_bool combobox = true
validate_metadata_bool _ = false

unfoldable pub validate_metadata_integer : ControlType → Bool
validate_metadata_integer spinbox = true
validate_metadata_integer slider = true
validate_metadata_integer combobox = true
validate_metadata_integer _ = false

unfoldable pub validate_metadata_float : ControlType → Bool
validate_metadata_float slider = true
validate_metadata_float spinbox = true
validate_metadata_float _ = false

unfoldable pub validate_metadata_string : ControlType → Bool
validate_metadata_string editbox = true
validate_metadata_string _ = false

-- The loop over the dimensions, in `size_t`.
unfoldable pub product_from : ℕ → List ℕ → ℕ
product_from acc [] = acc
product_from acc (d ∷ ds) = product_from (acc * d % 2 ^ 64) ds

-- The item count against the dimensions; `none` is a null pointer.
unfoldable pub agrees : ℕ → Option (List ℕ) → Option Bool
unfolding product_from
agrees n none = none
agrees n (some d) = some (n == product_from 1 d)

unfoldable pub validate_metadata_vector : Metadata → ℕ → Option Bool
unfolding agrees
validate_metadata_vector m n = elim m.control_type [
  | table ↦ elim m.layout_present [ true ↦ agrees n m.layout.dimensions | false ↦ some false ]
  | _ ↦ some true
]

-- `none` is the fatal error, or a null pointer.
unfoldable pub validate_metadata : VariantType → ℕ → Metadata → Option Bool
unfolding validate_metadata_bool validate_metadata_integer validate_metadata_float
    validate_metadata_string validate_metadata_vector
validate_metadata null n m = none
validate_metadata bool n m = some (validate_metadata_bool m.control_type)
validate_metadata sint8 n m = some (validate_metadata_integer m.control_type)
validate_metadata sint16 n m = some (validate_metadata_integer m.control_type)
validate_metadata sint32 n m = some (validate_metadata_integer m.control_type)
validate_metadata sint64 n m = some (validate_metadata_integer m.control_type)
validate_metadata uint8 n m = some (validate_metadata_integer m.control_type)
validate_metadata uint16 n m = some (validate_metadata_integer m.control_type)
validate_metadata uint32 n m = some (validate_metadata_integer m.control_type)
validate_metadata uint64 n m = some (validate_metadata_integer m.control_type)
validate_metadata float n m = some (validate_metadata_float m.control_type)
validate_metadata double n m = some (validate_metadata_float m.control_type)
validate_metadata string n m = some (validate_metadata_string m.control_type)
validate_metadata _ n m = validate_metadata_vector m n

-- The settings that the document gives are moved into the metadata; options or a layout that it does not give leave the
-- arrays there.
unfoldable pub adopt : Metadata → Metadata → Metadata
adopt m user = record user {
  options = if user.options_present then user.options else m.options;
  layout = if user.layout_present then user.layout else m.layout;
}

abbrev pub with_options : Option (Option (List MetaOption)) → Metadata → Metadata
with_options none user = user
with_options (some os) user = record user { options_present = true; options = os }

abbrev pub with_layout : Option Layout → Metadata → Metadata
with_layout none user = user
with_layout (some l) user = record user { layout_present = true; layout = l }

module _ (L : Library) where
  unfoldable pub merge_metadata_default : Metadata → Metadata → Option Node → Option Metadata
  unfolding parse_variant parse_uint32 parse_control_type merge_metadata_common
  merge_metadata_default user default document =
      let R = L.runtime in
      parse_variant R (get_object_field document min_name NodeType.number) default.min >>= λ least.
      parse_variant R (get_object_field document max_name NodeType.number) default.max
      >>= λ greatest.
          parse_variant R (get_object_field document step_name NodeType.number) default.step
          >>= λ step.
              parse_uint32 R user.decimals (get_object_field document decimals_name NodeType.number)
                default.decimals
              >>= λ decimals. some (
                  merge_metadata_common
                    (record user {
                      control_type =
                          parse_control_type
                            (get_object_field document control_name NodeType.string)
                            default.control_type;
                      min = least;
                      max = greatest;
                      step = step;
                      decimals = decimals;
                    })
                    default document)

  -- The settings before they are merged with the defaults.
  unfoldable pub read_settings : Metadata → Option Node → Option Metadata
  unfolding parse_bool parse_string parse_options_array parse_layout_object
  read_settings m document =
      let R = L.runtime in
      let options = get_object_field document options_name NodeType.array in
      let layout = get_object_field document layout_name NodeType.object in
      parse_bool R (get_object_field document readonly_name NodeType.bool) m.readonly
      >>= λ readonly.
          (elim options [ none ↦ some none | some a ↦ parse_options_array R (some a) m.min.type ])
          >>= λ os.
              (elim layout [ none ↦ some none | some a ↦ parse_layout_object (some a) ]) >>= λ l.
              some (
                with_layout l (
                  with_options os (record zeroed {
                    readonly = readonly;
                    unit =
                        parse_string (get_object_field document unit_name NodeType.string) m.unit;
                  })))

  unfoldable pub merge_settings : Metadata → Metadata → Option Node → Option Metadata
  unfolding merge_metadata_default merge_metadata_options_map_present
  merge_settings user m document = elim user.options_present [
    | true ↦ some (merge_metadata_options_map_present user m document)
    | false ↦ merge_metadata_default user m document
  ]

  unfoldable pub update_with_custom_user_settings :
      VariantType → ℕ → Metadata → Option Node → Option Metadata
  unfolding read_settings merge_settings validate_metadata adopt
  update_with_custom_user_settings t n m document = read_settings m document >>= λ settings.
      merge_settings settings m document >>= λ user.
      validate_metadata t n user >>= λ ok. some (if ok then adopt m user else m)

  unfoldable pub update : VariantType → ℕ → Metadata → Option Node → Option Metadata
  unfolding update_with_custom_user_settings
  update t n m none = some m
  update t n m (some d) = update_with_custom_user_settings t n m (some d)

  -- `none` as the snippet is a null pointer, whose document is one.
  unfoldable pub create : VariantType → ℕ → Option Bytes → Option Metadata
  unfolding fill_with_defaults update
  create t n snippet = fill_with_defaults L t n >>= λ m. update t n m (snippet >>= L.parse_document)
