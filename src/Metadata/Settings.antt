-- ===== src/Metadata/Settings.antt =====
-- The functions of tweak-metadata/src/tweakmetadata.c that read one setting have a result, of the type that is asked for.
use tweaktool.Common.{
  ℕ, ◌^◌, ◌<◌, ◌≡◌, ◌⊎◌, inl, inr, refl, sym, subst, Bool, true, false, Option, none, some,
  if◌then◌else◌, Bytes, IsText, Option-cases, arith,
}
use tweaktool.Variant.{VariantType, Variant, Value, init_empty, bool, uint32, nothing, uint}
use tweaktool.Variant.Types.{Fits, IsWellTyped}
use tweaktool.Variant.Copy.{copy_value_lem}
use tweaktool.Convert.Runtime.{Runtime}
use tweaktool.Convert.Parse.{Conversion, success, truncated, fail, breaks, from_string}
use tweaktool.Convert.Coerce.{Has, IsConverted}
use tweaktool.Convert.Types.{from_string-IsConverted}
use tweaktool.Convert.Completes.{IsElement, Completes, from_string-Completes}
use tweaktool.Json.{Node, has_type, get_type, node_as_c_str, null, array, object, string, number}
use tweaktool.Json.Accessors.{HasTexts, PointsToTexts}
use tweaktool.Json.NodeType
use tweaktool.Metadata.{copy_variant}
use tweaktool.Metadata.Yields.{Yields, yields, Yields-bind, Ensures, ensures}
use tweaktool.Metadata.Values.{
  text_of, converted, bool_result, variant_result, uint32_result, uint32_of, parse_bool,
  parse_variant, parse_uint32,
}

-- A value of the type, or none.
abbrev pub IsSetting : VariantType → Variant → Type 0
IsSetting t v = (v ≡ init_empty) ⊎ Has t v

pub copy_variant_lem : (t : VariantType) (v : Variant) → IsSetting t v → copy_variant v ≡ some v
unfolding copy_variant
copy_variant_lem t v (inl e) = rw e (copy_value_lem _ _ tt)
copy_variant_lem t v (inr h) = copy_value_lem v.type v.value h.1

abbrev pub IsTextOrNull : Option Bytes → Type 0
IsTextOrNull none = Unit {0}
IsTextOrNull (some s) = IsText s

pub node_as_c_str_texts :
    (node : Option Node) → PointsToTexts node → IsTextOrNull (node_as_c_str node)
unfolding node_as_c_str HasTexts
node_as_c_str_texts none h = tt
node_as_c_str_texts (some null) h = tt
node_as_c_str_texts (some (array xs)) h = tt
node_as_c_str_texts (some (object fs)) h = tt
node_as_c_str_texts (some (string s)) h = h
node_as_c_str_texts (some (Node.bool s)) h = h
node_as_c_str_texts (some (number s)) h = h

if_texts : (c : Bool) (o : Option Bytes) → IsTextOrNull o → IsTextOrNull (if c then o else none)
if_texts true o h = h
if_texts false o h = tt

pub text_of_texts :
    (mask : ℕ) (node : Option Node) → PointsToTexts node → IsTextOrNull (text_of mask node)
unfolding text_of
text_of_texts mask node h =
    if_texts (has_type (get_type node) mask) (node_as_c_str node) (node_as_c_str_texts node h)

-- The text that was read is a C string.
texts_some : (o : Option Bytes) (s : Bytes) → IsTextOrNull o → o ≡ some s → IsText s
texts_some o s h e = subst IsTextOrNull e h

-- What a conversion leaves, if anything.
abbrev pub IsResult : VariantType → Option Variant → Type 0
IsResult t none = Unit {0}
IsResult t (some v) = IsSetting t v

converted_lem :
    (t : VariantType) (c : Conversion)
    → IsConverted t c
    → Completes c
    → Yields (IsResult t) (converted c)
converted_lem t (success v) h k = yields (some v) (inr h)
converted_lem t (truncated v) h k = yields (some v) h
converted_lem t fail h k = yields none tt
converted_lem t breaks h k = absurd k

pub converted-from_string :
    (R : Runtime) (t : VariantType) (s : Bytes)
    → IsElement t
    → IsText s
    → Yields (IsResult t) (converted (from_string R s t))
converted-from_string R t s h ok =
    converted_lem t (from_string R s t) (from_string-IsConverted R s t ok)
      (from_string-Completes R s t h)

bool_result_lem :
    (c : Conversion) (default : Bool)
    → Completes c
    → Yields (λ (x : Bool). Unit {0}) (bool_result c default)
bool_result_lem (success v) default h = yields _ tt
bool_result_lem (truncated v) default h = yields _ tt
bool_result_lem fail default h = yields _ tt
bool_result_lem breaks default h = absurd h

variant_result_lem :
    (t : VariantType) (r : Option Variant) (default : Variant)
    → IsSetting t default
    → IsResult t r
    → Yields (IsSetting t) (variant_result r default)
variant_result_lem t none default h k = (default, copy_variant_lem t default h, h)
variant_result_lem t (some v) default h k = yields v k

uint32_of_lt : (x : Value) → Fits uint32 x → uint32_of x < 2 ^ 32
uint32_of_lt (uint x) h = h
uint32_of_lt nothing h = absurd h
uint32_of_lt _ h = omega arith

uint32_result_lt :
    (r : Option Variant) (default : ℕ)
    → default < 2 ^ 32
    → IsResult uint32 r
    → uint32_result r default < 2 ^ 32
uint32_result_lt none default h k = h
uint32_result_lt (some v) default h (inl e) = rw e (omega arith)
uint32_result_lt (some v) default h (inr k) =
    uint32_of_lt v.value (subst (λ t. Fits t v.value) k.0 k.1)

module _ (R : Runtime) where
  pub parse_bool_lem :
      (node : Option Node) (default : Bool)
      → Yields (λ (x : Bool). Unit {0}) (parse_bool R node default)
  unfolding parse_bool
  parse_bool_lem node default = elim (Option-cases (text_of NodeType.value node)) [
    | inl e ↦ rw (parse_bool, e) (yields default tt)
    | inr (s, e) ↦
        rw (parse_bool, e)
          (bool_result_lem (from_string R s bool) default (from_string-Completes R s bool tt))
  ]

  parse_variant_own :
      (node : Option Node) (default : Variant)
      → IsElement default.type
      → IsWellTyped default
      → PointsToTexts node
      → Yields (IsSetting default.type) (parse_variant R node default)
  unfolding parse_variant
  parse_variant_own node default h k ok =
      let t = default.type in
      elim (Option-cases (text_of NodeType.value node)) [
        | inl e ↦
            rw (parse_variant, e)
              (default, copy_variant_lem t default (inr (refl, k)), inr (refl, k))
        | inr (s, e) ↦
            rw (parse_variant, e)
              (Yields-bind {Q = IsSetting t} (converted (from_string R s t))
                (λ r. variant_result r default)
                (converted-from_string R t s h
                  (texts_some (text_of NodeType.value node) s (text_of_texts _ node ok) e))
                (λ r. variant_result_lem t r default (inr (refl, k))))
      ]

  pub parse_variant_lem :
      (t : VariantType) (node : Option Node) (default : Variant)
      → IsElement t
      → Has t default
      → PointsToTexts node
      → Yields (IsSetting t) (parse_variant R node default)
  parse_variant_lem t node default h k ok =
      subst (λ u. Yields (IsSetting u) (parse_variant R node default)) k.0
        (parse_variant_own node default (subst IsElement (sym k.0) h) k.1 ok)

  pub parse_uint32_lem :
      (dst : ℕ) (node : Option Node) (default : ℕ)
      → dst < 2 ^ 32
      → default < 2 ^ 32
      → PointsToTexts node
      → Yields (λ (n : ℕ). n < 2 ^ 32) (parse_uint32 R dst node default)
  unfolding parse_uint32
  parse_uint32_lem dst node default h k ok = elim (Option-cases (text_of NodeType.number node)) [
    | inl e ↦ rw (parse_uint32, e) (dst, refl, h)
    | inr (s, e) ↦
        rw (parse_uint32, e)
          (Yields-bind {Q = λ (n : ℕ). n < 2 ^ 32} (converted (from_string R s uint32)) _
            (converted-from_string R uint32 s tt
              (texts_some (text_of NodeType.number node) s (text_of_texts _ node ok) e))
            (λ r q. yields _ (uint32_result_lt r default k q)))
  ]

  -- Without a node the result is what was there, or the default.
  pub parse_uint32-none :
      (dst : ℕ) (node : Option Node) (default : ℕ)
      → node ≡ none
      → Ensures (λ (n : ℕ). n ≡ dst) (parse_uint32 R dst node default)
  unfolding parse_uint32 text_of has_type get_type
  parse_uint32-none dst ptr default e = rw (parse_uint32, e) (ensures (λ (n : ℕ). n ≡ dst) dst refl)

  pub parse_variant-none :
      (t : VariantType) (node : Option Node) (default : Variant)
      → Has t default
      → node ≡ none
      → Ensures (λ (v : Variant). v ≡ default) (parse_variant R node default)
  unfolding parse_variant text_of has_type get_type
  parse_variant-none t ptr default h e =
      rw (parse_variant, e, copy_variant_lem t default (inr h))
        (ensures (λ (v : Variant). v ≡ default) default refl)
