-- ===== src/Metadata/Numbering.antt =====
-- The options of an array of texts (`parse_options_array` of tweak-metadata/src/tweakmetadata.c) are numbered from 0.
use tweaktool.Common.{
  ℕ, zero, suc, ◌+◌, ◌<◌, ◌≤◌, ◌≡◌, inl, inr, refl, sym, ◌∙◌, ap, ap₂, Option, none, some, List, [],
  ◌∷◌, ◌++◌, length, ltb, leb, if◌then◌else◌, ◌>>=◌, Bytes, arith, Bool-cases, tests, ltb→lt,
  if_true, if_false,
}
use mathlib.Core.List.{append_assoc, append-nil}
use tweaktool.Variant.{VariantType, Variant}
use tweaktool.Convert.Runtime.{Runtime}
use tweaktool.Convert.Parse.{of}
use tweaktool.Convert.Completes.{IsElement}
use tweaktool.Json.{
  Node, Items, array, nil, cons, get_array_size, get_array_item, items_length, item_at, expect,
  has_type, node_type,
}
use tweaktool.Metadata.{MetaOption}
use tweaktool.Metadata.Counting.{
  capacity, value_at, option_at, numbered, capacity_pos, value_at-Fits, increment_at,
  increment_last, zero_at,
}
use tweaktool.Metadata.Settings.{copy_variant_lem}
use tweaktool.Metadata.Values.{variant_increment}
use tweaktool.Metadata.Options.{
  State, push_option, begin_item, step_item, parse_options_from, parse_options_array,
}

-- The array of the texts.
abbrev pub strings : List Bytes → Items
strings [] = nil
strings (s ∷ ss) = cons (Node.string s) (strings ss)

-- The items of a node from the `i`-th on are the texts.
Follows : Option Node → ℕ → List Bytes → Type 0
Follows ptr i [] = Unit {0}
Follows ptr i (s ∷ ss) = (get_array_item ptr i 12 ≡ some (Node.string s)) × Follows ptr (suc i) ss

Follows-cons :
    (x : Node) (xs : Items) (i : ℕ) (ss : List Bytes)
    → Follows (some (array xs)) i ss
    → Follows (some (array (cons x xs))) (suc i) ss
unfolding Follows get_array_item item_at
Follows-cons x xs i [] h = tt
Follows-cons x xs i (s ∷ ss) h = (h.0, Follows-cons x xs (suc i) ss h.1)

Follows-strings : (ss : List Bytes) → Follows (some (array (strings ss))) 0 ss
unfolding Follows get_array_item item_at expect has_type node_type
Follows-strings [] = tt
Follows-strings (s ∷ ss) =
    (refl, Follows-cons (Node.string s) (strings ss) 0 ss (Follows-strings ss))

length-strings : (ss : List Bytes) → items_length (strings ss) ≡ length ss
unfolding items_length
length-strings [] = refl
length-strings (s ∷ ss) = ap suc (length-strings ss)

-- `default_value` before the item at `i`.
prior : VariantType → ℕ → Variant
prior t zero = of t (value_at t 0)
prior t (suc i) = of t (value_at t i)

begin_next :
    (t : VariantType) (os : List MetaOption) (i : ℕ)
    → IsElement t
    → i < capacity t
    → begin_item i (os, prior t i) ≡ some (os, of t (value_at t i))
unfolding prior variant_increment
begin_next t os zero h k = refl
begin_next t os (suc i) h k = rw (increment_at t i h k) refl

begin_last :
    (t : VariantType) (os : List MetaOption) (i : ℕ)
    → IsElement t
    → 0 < i
    → i ≡ capacity t
    → begin_item i (os, prior t i) ≡ none
unfolding prior variant_increment
begin_last t os zero h k e = absurd (omega (arith, k))
begin_last t os (suc i) h k e = rw (increment_last t i h e) refl

push_at :
    (t : VariantType) (os : List MetaOption) (s : Bytes) (i : ℕ)
    → IsElement t
    → i < capacity t
    → push_option os s (of t (value_at t i))
      ≡ some (some (os ++ (option_at t i s ∷ []), of t (value_at t i)))
push_at t os s i h k =
    rw (copy_variant_lem t (of t (value_at t i)) (inr (refl, value_at-Fits t i h k))) refl

module _ (R : Runtime) where
  item_at_next :
      (t : VariantType) (os : List MetaOption) (s : Bytes) (i : ℕ) (item : Option Node)
      → IsElement t
      → i < capacity t
      → item ≡ some (Node.string s)
      → step_item R item (begin_item i (os, prior t i))
        ≡ some (some (os ++ (option_at t i s ∷ []), prior t (suc i)))
  unfolding prior
  item_at_next t os s i item h k e =
      ap₂ (step_item R) e (begin_next t os i h k) ∙ push_at t os s i h k

  numbering :
      (t : VariantType) (ptr : Option Node) (i : ℕ) (ss : List Bytes) (os : List MetaOption)
      → IsElement t
      → Follows ptr i ss
      → i + length ss ≤ capacity t
      → (v : Variant) × (parse_options_from R (length ss) i ptr (some (os, prior t i))
          ≡ some (some (os ++ numbered t i ss, v)))
  unfolding parse_options_from Follows
  numbering t ptr i [] os h f k =
      (prior t i, ap (λ xs. some (some (xs, prior t i))) (sym (append-nil os)))
  numbering t ptr i (s ∷ ss) os h f k =
      let o = option_at t i s in
      let r = numbering t ptr (suc i) ss (os ++ (o ∷ [])) h f.1 (omega (arith, k)) in
      (
        r.0,
        ap (λ (x : Option (Option State)). x >>= parse_options_from R (length ss) (suc i) ptr)
              (item_at_next t os s i (get_array_item ptr i 12) h (omega (arith, k)) f.0)
            ∙ r.1
            ∙ ap (λ xs. some (some (xs, r.0))) (append_assoc os (o ∷ []) (numbered t (suc i) ss)),
      )

  refused_rest : (n i : ℕ) (ptr : Option Node) → parse_options_from R n i ptr none ≡ some none
  unfolding parse_options_from
  refused_rest zero i ptr = refl
  refused_rest (suc n) i ptr = refl

  overflow :
      (t : VariantType) (ptr : Option Node) (i : ℕ) (ss : List Bytes) (os : List MetaOption)
      → IsElement t
      → Follows ptr i ss
      → 0 < i
      → i ≤ capacity t
      → capacity t < i + length ss
      → parse_options_from R (length ss) i ptr (some (os, prior t i)) ≡ some none
  unfolding parse_options_from Follows
  overflow t ptr i [] os h f p k q = absurd (omega (arith, k, q))
  overflow t ptr i (s ∷ ss) os h f p k q = elim (Bool-cases (ltb i (capacity t))) [
    | inl e ↦
        let o = option_at t i s in
        ap (λ (x : Option (Option State)). x >>= parse_options_from R (length ss) (suc i) ptr)
          (item_at_next t os s i (get_array_item ptr i 12) h (ltb→lt i (capacity t) e) f.0)
        ∙ overflow t ptr (suc i) ss (os ++ (o ∷ [])) h f.1 (omega arith) (omega (tests, e))
            (omega (arith, q))
    | inr e ↦
        ap (λ (x : Option (Option State)). x >>= parse_options_from R (length ss) (suc i) ptr)
          (ap (step_item R (get_array_item ptr i 12))
            (begin_last t os i h p (ground (arith, e, k))))
        ∙ refused_rest (length ss) (suc i) ptr
  ]

  overflow_start :
      (t : VariantType) (ptr : Option Node) (ss : List Bytes)
      → IsElement t
      → Follows ptr 0 ss
      → capacity t < length ss
      → parse_options_from R (length ss) 0 ptr (some ([], prior t 0)) ≡ some none
  unfolding parse_options_from Follows
  overflow_start t ptr [] h f k = absurd (omega (arith, k))
  overflow_start t ptr (s ∷ ss) h f k =
      ap (λ (x : Option (Option State)). x >>= parse_options_from R (length ss) 1 ptr)
        (item_at_next t [] s 0 (get_array_item ptr 0 12) h (capacity_pos t h) f.0)
      ∙ overflow t ptr 1 ss (option_at t 0 s ∷ []) h f.1 (omega arith)
          (omega (arith, capacity_pos t h)) (omega (arith, k))

  -- The result from the result of the loop.
  result :
      (t : VariantType) (ss : List Bytes) (r : Option State)
      → IsElement t
      → parse_options_from R (length ss) 0 (some (array (strings ss))) (some ([], prior t 0))
        ≡ some r
      → parse_options_array R (some (array (strings ss))) t
        ≡ some (◌>>=◌ {B = Option (List MetaOption)} r (λ s. some (some s.0)))
  unfolding parse_options_array get_array_size prior
  result t ss r h e =
      let ptr : Option Node = some (array (strings ss)) in
      ap
        (λ (x : Option (Option State)).
          x >>= λ r. some (◌>>=◌ {B = Option (List MetaOption)} r (λ s. some (some s.0))))
        (ap₂ (λ n x. parse_options_from R n 0 ptr (some ([], of t x))) (length-strings ss)
            (sym (zero_at t h))
          ∙ e)

  -- For any type but null and the vectors an array of texts gives the options with these texts, whose values count up from
  -- 0 (false for a Boolean) in the order of the array, if the type has that many values from 0 up. It is refused if there are more. A type of
  -- floating point or of texts takes one option at most.
  pub parse_options_array-strings :
      (t : VariantType) (ss : List Bytes)
      → IsElement t
      → parse_options_array R (some (array (strings ss))) t
        ≡ some (if leb (length ss) (capacity t) then some (some (numbered t 0 ss)) else none)
  parse_options_array-strings t ss h =
      let ptr : Option Node = some (array (strings ss)) in
      elim (Bool-cases (leb (length ss) (capacity t))) [
        | inl e ↦
            let (v, r) = numbering t ptr 0 ss [] h (Follows-strings ss) (omega (tests, e)) in
            result t ss (some (numbered t 0 ss, v)) h r ∙ ap some (sym (if_true _ _ none e))
        | inr e ↦
            result t ss none h (overflow_start t ptr ss h (Follows-strings ss) (ground (arith, e)))
            ∙ ap some (sym (if_false _ _ none e))
      ]
