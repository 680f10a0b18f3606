-- ===== src/Metadata/OptionValues.antt =====
-- The options that `parse_options_array` of tweak-metadata/src/tweakmetadata.c gives have values of the asked type.
use tweaktool.Common.{
  ℕ, zero, suc, ◌≡◌, ◌≢◌, inl, inr, refl, sym, subst, Option, none, some, List, [], ◌∷◌, ◌++◌,
  ◌>>=◌, Bytes, All, Option-cases,
}
use tweaktool.Variant.{VariantType, Variant}
use tweaktool.Convert.Runtime.{Runtime}
use tweaktool.Convert.Parse.{of, from_string}
use tweaktool.Convert.Coerce.{Has}
use tweaktool.Convert.Completes.{IsElement}
use tweaktool.Json.{
  Node, array, object, number, get_array_size, get_array_item, get_object_field, node_as_c_str,
}
use tweaktool.Json.Accessors.{PointsToTexts, get_object_field_texts, get_array_item_texts}
use tweaktool.Json.NodeType
use tweaktool.Metadata.{MetaOption, copy_variant}
use tweaktool.Metadata.Names.{text_name, value_name}
use tweaktool.Metadata.Yields.{Yields, yields, Yields-bind}
use tweaktool.Metadata.Increments.{IsNext, increment-Fits, zero_of-Has}
use tweaktool.Metadata.Settings.{
  IsSetting, IsResult, IsTextOrNull, copy_variant_lem, converted-from_string, node_as_c_str_texts,
}
use tweaktool.Metadata.Values.{increment, variant_increment, zero_of, converted}
use tweaktool.Metadata.Options.{
  State, push_option, push_converted, push_node, parse_option_node, parse_item, begin_item,
  step_item, parse_options_from, parse_options_array,
}

-- Each option has a value of the type, or none.
abbrev pub OptionFits : VariantType → MetaOption → Type 0
OptionFits t o = IsSetting t o.value

-- The options so far fit, and `default_value` may be of the type or empty.
abbrev StateFits : VariantType → Option State → Type 0
StateFits t none = Unit {0}
StateFits t (some s) = All (OptionFits t) s.0 × IsSetting t s.1

-- After the increment `default_value` has the type.
abbrev Begun : VariantType → Option State → Type 0
Begun t none = Unit {0}
Begun t (some s) = All (OptionFits t) s.0 × Has t s.1

All-append :
    (t : VariantType) (os : List MetaOption) (o : MetaOption)
    → All (OptionFits t) os
    → OptionFits t o
    → All (OptionFits t) (os ++ (o ∷ []))
All-append t [] o h k = (k, tt)
All-append t (p ∷ os) o h k = (h.0, All-append t os o h.1 k)

push_option_lem :
    (t : VariantType) (os : List MetaOption) (s : Bytes) (v : Variant)
    → All (OptionFits t) os
    → IsSetting t v
    → Yields (StateFits t) (push_option os s v)
push_option_lem t os s v h k =
    Yields-bind {P = λ (w : Variant). w ≡ v} {Q = StateFits t} (copy_variant v) _
      (v, copy_variant_lem t v k, refl)
      (λ w e.
        yields _
          (All-append t os (record { text = s; value = w }) h (subst (IsSetting t) (sym e) k), k))

increment_setting : (t : VariantType) (v : Variant) → IsSetting t v → IsNext t (variant_increment v)
unfolding increment variant_increment
increment_setting t v (inl e) = rw e tt
increment_setting t v (inr h) =
    subst (λ u. IsNext u (increment v.type v.value)) h.0 (increment-Fits v.type v.value h.1)

begin_next :
    (t : VariantType) (os : List MetaOption) (o : Option Variant)
    → All (OptionFits t) os
    → IsNext t o
    → Begun t (◌>>=◌ {B = State} o (λ v. some (os, v)))
begin_next t os none h k = tt
begin_next t os (some v) h k = (h, k)

-- The first `default_value` has the type.
abbrev Starts : VariantType → ℕ → Option State → Type 0
Starts t zero r = Begun t r
Starts t (suc i) r = StateFits t r

begin_item_lem :
    (t : VariantType) (i : ℕ) (s : State) → Starts t i (some s) → Begun t (begin_item i s)
begin_item_lem t zero s h = h
begin_item_lem t (suc i) s h =
    begin_next t s.0 (variant_increment s.1) h.0 (increment_setting t s.1 h.1)

-- What the caller gets: nothing, or options that fit.
abbrev pub OptionsFit : VariantType → Option (Option (List MetaOption)) → Type 0
OptionsFit t none = Unit {0}
OptionsFit t (some none) = ⊥
OptionsFit t (some (some os)) = All (OptionFits t) os

module _ (R : Runtime) where
  push_converted_lem :
      (t : VariantType) (os : List MetaOption) (s : Bytes) (r : Option Variant)
      → All (OptionFits t) os
      → IsResult t r
      → Yields (StateFits t) (push_converted os s r)
  push_converted_lem t os s none h k = yields none tt
  push_converted_lem t os s (some v) h k = push_option_lem t os s v h k

  push_node_lem :
      (t : VariantType) (os : List MetaOption) (a c : Option Bytes) (v : Variant)
      → IsElement t
      → All (OptionFits t) os
      → v.type ≡ t
      → IsTextOrNull c
      → Yields (StateFits t) (push_node R os a c v)
  push_node_lem t os (some s) (some x) v e h k ok =
      Yields-bind {Q = StateFits t} (converted (from_string R x v.type)) (push_converted os s)
        (subst (λ u. Yields (IsResult t) (converted (from_string R x u))) (sym k)
          (converted-from_string R t x e ok))
        (λ r q. push_converted_lem t os s r h q)
  push_node_lem t os none c v e h k ok = yields none tt
  push_node_lem t os (some s) none v e h k ok = yields none tt

  parse_item_lem :
      (t : VariantType) (item : Option Node) (s : State)
      → IsElement t
      → PointsToTexts item
      → All (OptionFits t) s.0
      → Has t s.1
      → Yields (StateFits t) (parse_item R item s)
  unfolding parse_option_node
  parse_item_lem t (some (Node.string x)) s e ok h k = push_option_lem t s.0 x s.1 h (inr k)
  parse_item_lem t (some (object fs)) s e ok h k =
      push_node_lem t s.0
        (node_as_c_str (get_object_field (some (object fs)) text_name NodeType.string))
        (node_as_c_str (get_object_field (some (object fs)) value_name 48)) s.1 e h k.0
        (node_as_c_str_texts _ (get_object_field_texts (some (object fs)) value_name 48 ok))
  parse_item_lem t none s e ok h k = yields none tt
  parse_item_lem t (some Node.null) s e ok h k = yields none tt
  parse_item_lem t (some (array xs)) s e ok h k = yields none tt
  parse_item_lem t (some (Node.bool x)) s e ok h k = yields none tt
  parse_item_lem t (some (number x)) s e ok h k = yields none tt

  step_item_lem :
      (t : VariantType) (item : Option Node) (r : Option State)
      → IsElement t
      → PointsToTexts item
      → Begun t r
      → Yields (StateFits t) (step_item R item r)
  step_item_lem t item none e ok h = yields none tt
  step_item_lem t item (some s) e ok h = parse_item_lem t item s e ok h.0 h.1

  parse_options_from_lem :
      (t : VariantType) (n i : ℕ) (ptr : Option Node) (r : Option State)
      → IsElement t
      → PointsToTexts ptr
      → Starts t i r
      → StateFits t r
      → Yields (StateFits t) (parse_options_from R n i ptr r)
  unfolding parse_options_from
  parse_options_from_lem t zero i ptr r e ok h k = yields r k
  parse_options_from_lem t (suc n) i ptr none e ok h k = yields none tt
  parse_options_from_lem t (suc n) i ptr (some s) e ok h k =
      Yields-bind {Q = StateFits t} (step_item R (get_array_item ptr i 12) (begin_item i s))
        (parse_options_from R n (suc i) ptr)
        (step_item_lem t (get_array_item ptr i 12) (begin_item i s) e
          (get_array_item_texts ptr i 12 ok) (begin_item_lem t i s h))
        (λ r q. parse_options_from_lem t n (suc i) ptr r e ok q q)

  taken :
      (t : VariantType) (r : Option State)
      → StateFits t r
      → OptionsFit t (◌>>=◌ {B = Option (List MetaOption)} r (λ s. some (some s.0)))
  taken t none h = tt
  taken t (some s) h = h.0

  pub parse_options_array_lem :
      (t : VariantType) (ptr : Option Node)
      → IsElement t
      → PointsToTexts ptr
      → get_array_size ptr ≢ none
      → Yields (OptionsFit t) (parse_options_array R ptr t)
  unfolding parse_options_array
  parse_options_array_lem t ptr e ok h = elim (Option-cases (get_array_size ptr)) [
    | inl q ↦ absurd (h q)
    | inr (n, q) ↦
        rw (parse_options_array, q)
          (Yields-bind {P = StateFits t} {Q = OptionsFit t}
            (parse_options_from R n 0 ptr (some ([], of t (zero_of t)))) _
            (parse_options_from_lem t n 0 ptr (some ([], of t (zero_of t))) e ok
              (tt, zero_of-Has t e) (tt, inr (zero_of-Has t e)))
            (λ r p. yields _ (taken t r p)))
  ]
