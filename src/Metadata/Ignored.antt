-- ===== src/Metadata/Ignored.antt =====
-- Settings that `tweak_metadata_create` of tweak-metadata/src/tweakmetadata.c leaves aside.
use tweaktool.Common.{
  ℕ, ◌^◌, ◌<◌, ◌≡◌, refl, sym, ◌∙◌, ap, Bool, false, Option, none, some, if◌then◌else◌, ◌>>=◌,
  Bytes,
}
use tweaktool.Variant.{
  VariantType, vector_sint8, vector_sint16, vector_sint32, vector_sint64, vector_uint8,
  vector_uint16, vector_uint32, vector_uint64, vector_float, vector_double,
}
use tweaktool.Convert.Coerce.{none≢some}
use tweaktool.Convert.Completes.{IsElement}
use tweaktool.Json.{Node, get_object_field, has_type, get_type}
use tweaktool.Json.Accessors.{PointsToTexts}
use tweaktool.Json.NodeType
use tweaktool.Metadata.{Metadata, table, zeroed}
use tweaktool.Metadata.Names.{
  dimensions_name, readonly_name, unit_name, options_name, layout_name, control_name,
}
use tweaktool.Metadata.Library.{Library}
use tweaktool.Metadata.Yields.{Ensures, ensures, Ensures-bind}
use tweaktool.Metadata.Defaults.{fill_with_defaults}
use tweaktool.Metadata.Values.{parse_bool, parse_string, parse_control_type, text_of}
use tweaktool.Metadata.Initial.{element, IsDefault, fill_with_defaults_lem}
use tweaktool.Metadata.Valid.{document_texts}
use tweaktool.Metadata.Merged.{IsPlainMerge, HasNumericLayout, read_settings_lem, merge_default_lem}
use tweaktool.Metadata.Update.{
  validate_metadata, validate_metadata_vector, adopt, merge_settings, read_settings,
  update_with_custom_user_settings, update, create,
}

-- The document asks for no control, no options and no layout.
abbrev pub IsPlain : Option Node → Type 0
IsPlain document =
    (get_object_field document control_name NodeType.string ≡ none)
    × (get_object_field document options_name NodeType.array ≡ none)
    × (get_object_field document layout_name NodeType.object ≡ none)

abbrev pub IsVectorType : VariantType → Type 0
IsVectorType vector_sint8 = Unit {0}
IsVectorType vector_sint16 = Unit {0}
IsVectorType vector_sint32 = Unit {0}
IsVectorType vector_sint64 = Unit {0}
IsVectorType vector_uint8 = Unit {0}
IsVectorType vector_uint16 = Unit {0}
IsVectorType vector_uint32 = Unit {0}
IsVectorType vector_uint64 = Unit {0}
IsVectorType vector_float = Unit {0}
IsVectorType vector_double = Unit {0}
IsVectorType _ = ⊥

vector_element : (t : VariantType) → IsVectorType t → IsElement (element t)
vector_element vector_sint8 h = tt
vector_element vector_sint16 h = tt
vector_element vector_sint32 h = tt
vector_element vector_sint64 h = tt
vector_element vector_uint8 h = tt
vector_element vector_uint16 h = tt
vector_element vector_uint32 h = tt
vector_element vector_uint64 h = tt
vector_element vector_float h = tt
vector_element vector_double h = tt
vector_element _ h = absurd h

refused_table :
    (n : ℕ) (user : Metadata)
    → user.control_type ≡ table
    → user.layout_present ≡ false
    → validate_metadata_vector user n ≡ some false
unfolding validate_metadata_vector
refused_table n user e h = rw (validate_metadata_vector, e, h) refl

-- A table without a layout is refused.
refused_vector :
    (t : VariantType) (n : ℕ) (user : Metadata)
    → IsVectorType t
    → user.control_type ≡ table
    → user.layout_present ≡ false
    → validate_metadata t n user ≡ some false
unfolding validate_metadata
refused_vector vector_sint8 n user v e h = refused_table n user e h
refused_vector vector_sint16 n user v e h = refused_table n user e h
refused_vector vector_sint32 n user v e h = refused_table n user e h
refused_vector vector_sint64 n user v e h = refused_table n user e h
refused_vector vector_uint8 n user v e h = refused_table n user e h
refused_vector vector_uint16 n user v e h = refused_table n user e h
refused_vector vector_uint32 n user v e h = refused_table n user e h
refused_vector vector_uint64 n user v e h = refused_table n user e h
refused_vector vector_float n user v e h = refused_table n user e h
refused_vector vector_double n user v e h = refused_table n user e h
refused_vector _ n user v e h = absurd v

-- Nothing but the Boolean and the unit was read.
abbrev pub Bare : Metadata → Type 0
Bare user = (user.options_present ≡ false) × (user.layout_present ≡ false) × (user.decimals ≡ 0)

module _ (L : Library) where
  plain_settings :
      (m : Metadata) (document : Option Node)
      → IsPlain document
      → Ensures Bare (read_settings L m document)
  unfolding read_settings
  plain_settings m document (c, o, l) =
      let R = L.runtime in
      let s = parse_string (get_object_field document unit_name NodeType.string) m.unit in
      rw (read_settings, o, l)
        (Ensures-bind {Q = Bare}
          (parse_bool R (get_object_field document readonly_name NodeType.bool) m.readonly)
          (λ r. some (record zeroed { readonly = r; unit = s }))
          (λ r. ensures Bare (record zeroed { readonly = r; unit = s }) (refl, refl, refl)))

  table_default :
      (t : VariantType) (n : ℕ)
      → IsVectorType t
      → Ensures (λ (m : Metadata). m.control_type ≡ table) (fill_with_defaults L t n)
  unfolding fill_with_defaults
  table_default vector_sint8 n v = ensures (λ (m : Metadata). m.control_type ≡ table) _ refl
  table_default vector_sint16 n v = ensures (λ (m : Metadata). m.control_type ≡ table) _ refl
  table_default vector_sint32 n v = ensures (λ (m : Metadata). m.control_type ≡ table) _ refl
  table_default vector_sint64 n v = ensures (λ (m : Metadata). m.control_type ≡ table) _ refl
  table_default vector_uint8 n v = ensures (λ (m : Metadata). m.control_type ≡ table) _ refl
  table_default vector_uint16 n v = ensures (λ (m : Metadata). m.control_type ≡ table) _ refl
  table_default vector_uint32 n v = ensures (λ (m : Metadata). m.control_type ≡ table) _ refl
  table_default vector_uint64 n v = ensures (λ (m : Metadata). m.control_type ≡ table) _ refl
  table_default vector_float n v = ensures (λ (m : Metadata). m.control_type ≡ table) _ refl
  table_default vector_double n v = ensures (λ (m : Metadata). m.control_type ≡ table) _ refl
  table_default _ n v = absurd v

  -- The settings and what they are merged to.
  pub merged_of :
      (t : VariantType) (n : ℕ) (m : Metadata) (document : Option Node)
      → IsElement (element t)
      → IsDefault t n m
      → PointsToTexts document
      → HasNumericLayout document
      → IsPlain document
      → (settings user : Metadata) × (read_settings L m document ≡ some settings)
        × (merge_settings L settings m document ≡ some user)
        × Bare settings
        × IsPlainMerge t settings m document user
  unfolding merge_settings
  merged_of t n m document h d ok numeric plain =
      let (settings, e, read) = read_settings_lem L t m document h d.min.0 ok numeric in
      let bare = plain_settings m document plain settings e in
      let (user, f, merged) =
        merge_default_lem L t settings m document h d.min d.max d.step d.decimals ok read in
      (settings, user, e, rw (merge_settings, bare.0) f, bare, merged)

  pub update_result :
      (t : VariantType) (n : ℕ) (m settings user : Metadata) (document : Option Node) (ok : Bool)
      → read_settings L m document ≡ some settings
      → merge_settings L settings m document ≡ some user
      → validate_metadata t n user ≡ some ok
      → update_with_custom_user_settings L t n m document ≡ some (if ok then adopt m user else m)
  unfolding update_with_custom_user_settings
  update_result t n m settings user document ok e f v =
      let finish : Metadata → Option Metadata =
        λ u. validate_metadata t n u >>= λ k. some (if k then adopt m u else m) in
      ap (λ (o : Option Metadata). o >>= λ s. merge_settings L s m document >>= finish) e
      ∙ ap (λ (o : Option Metadata). o >>= finish) f
      ∙ ap (λ (o : Option Bool). o >>= λ k. some (if k then adopt m user else m)) v

  pub plain_numeric : (document : Option Node) → IsPlain document → HasNumericLayout document
  unfolding get_object_field
  plain_numeric document (c, o, l) xs e =
      absurd (none≢some (sym (ap (λ x. get_object_field x dimensions_name NodeType.array) l) ∙ e))

  vector_update :
      (t : VariantType) (n : ℕ) (m : Metadata) (document : Option Node)
      → IsVectorType t
      → IsDefault t n m
      → m.control_type ≡ table
      → PointsToTexts document
      → IsPlain document
      → update L t n m document ≡ some m
  unfolding update parse_control_type text_of has_type get_type
  vector_update t n m none v d c ok plain = refl
  vector_update t n m (some a) v d c ok plain =
      let doc : Option Node = some a in
      let (settings, user, e, f, bare, p) =
        merged_of t n m doc (vector_element t v) d ok (plain_numeric doc plain) plain in
      let control : parse_control_type (get_object_field doc control_name NodeType.string)
            m.control_type
          ≡ m.control_type =
        rw (parse_control_type, plain.0) refl in
      update_result t n m settings user doc false e f
        (refused_vector t n user v (p.control ∙ control ∙ c) (p.layout ∙ bare.1))

  -- A vector whose document has no layout, control or options keeps the default metadata: everything else that the document
  -- says is dropped.
  pub create-default :
      (t : VariantType) (n : ℕ) (snippet : Option Bytes)
      → IsVectorType t
      → n < 2 ^ 64
      → IsPlain (snippet >>= L.parse_document)
      → create L t n snippet ≡ fill_with_defaults L t n
  unfolding create
  create-default t n snippet v k plain =
      let (m, e, d) = fill_with_defaults_lem L t n (vector_element t v) k in
      ap (λ (o : Option Metadata). o >>= λ m. update L t n m (snippet >>= L.parse_document)) e
      ∙ vector_update t n m (snippet >>= L.parse_document) v d (table_default t n v m e)
          (document_texts L snippet) plain
      ∙ sym e
