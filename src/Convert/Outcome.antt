-- ===== src/Convert/Outcome.antt =====
-- When `tweak_variant_from_string` ends the program (tweak-common/src/tweakvariant.c), and how many items the
-- vector has that it reads.
use tweaktool.Common.{
  ℕ, ◌*◌, ◌<◌, ◌≡◌, ◌↔◌, ◌⊎◌, inl, inr, refl, sym, ◌∙◌, Bool, true, false, Option, none, some, List,
  [], ◌∷◌, length, ◌==◌, if◌then◌else◌, Bytes, arith, IsText, Option-cases, subst,
}
use native.Mathlib.Nat.{mul-div_left}
use tweaktool.Variant.{
  VariantType, Variant, get_item_count, item_size, buffer_size, buffer, null, bool, sint8, sint16,
  sint32, sint64, uint8, uint16, uint32, uint64, float, double, string, vector_sint8, vector_sint16,
  vector_sint32, vector_sint64, vector_uint8, vector_uint16, vector_uint32, vector_uint64,
  vector_float, vector_double,
}
use tweaktool.Convert.Runtime.{Runtime, Json, array_node, string_node, other_node}
use tweaktool.Convert.Parse.{
  Conversion, success, truncated, breaks, of, with_result, vector_result, parse_items, parse_vector,
  from_string,
}
use tweaktool.Convert.Coerce.{IsConverted}
use tweaktool.Convert.Completes.{IsElement, Completes, with_result-Completes, from_string-Completes}
use tweaktool.Convert.Types.{from_string-IsConverted, length-parse_items}

-- The requests that the code answers with a failed assertion or a fatal error: the null type, and an array without
-- items for a vector.
abbrev pub IsFatal : VariantType → Json → Type 0
IsFatal null j = Unit {0}
IsFatal vector_sint8 j = j ≡ array_node []
IsFatal vector_sint16 j = j ≡ array_node []
IsFatal vector_sint32 j = j ≡ array_node []
IsFatal vector_sint64 j = j ≡ array_node []
IsFatal vector_uint8 j = j ≡ array_node []
IsFatal vector_uint16 j = j ≡ array_node []
IsFatal vector_uint32 j = j ≡ array_node []
IsFatal vector_uint64 j = j ≡ array_node []
IsFatal vector_float j = j ≡ array_node []
IsFatal vector_double j = j ≡ array_node []
IsFatal _ j = ⊥

-- What follows from a vector, `n` the number of its items.
abbrev Counts : ℕ → Conversion → Type 0
Counts n (success v) = get_item_count v ≡ n
Counts n (truncated v) = get_item_count v ≡ n
Counts n _ = Unit {0}

abbrev pub IsVectorType : VariantType → Type 0
IsVectorType vector_sint8 = Unit {0}
IsVectorType vector_sint16 = Unit {0}
IsVectorType vector_sint32 = Unit {0}
IsVectorType vector_sint64 = Unit {0}
IsVectorType vector_uint8 = Unit {0}
IsVectorType vector_uint16 = Unit {0}
IsVectorType vector_uint32 = Unit {0}
IsVectorType vector_uint64 = Unit {0}
IsVectorType vector_float = Unit {0}
IsVectorType vector_double = Unit {0}
IsVectorType _ = ⊥

with_result-Counts :
    (exact : Bool) (v : Variant) (n : ℕ) → get_item_count v ≡ n → Counts n (with_result exact v)
with_result-Counts true v n e = e
with_result-Counts false v n e = e

ne_breaks : (r : Conversion) → Completes r → r ≡ breaks → ⊥
ne_breaks r h e = subst Completes e h

vector_result-Completes :
    (R : Runtime) (t : VariantType) (o : Option (Bool × Bytes)) → Completes (vector_result R t o)
vector_result-Completes R t none = tt
vector_result-Completes R t (some r) =
    with_result-Completes (if r.0 then false else true) (of t (buffer r.1))

module _ (R : Runtime) where
  many :
      (first : Option Bytes) (nodes : List (Option Bytes)) → (length (first ∷ nodes) == 0) ≡ false
  many first nodes = ground arith

  vector_breaks :
      (size : ℕ) (t vector_type : VariantType) (s : Bytes) (j : Json)
      → R.parse_json s ≡ j
      → (parse_vector R size t vector_type s ≡ breaks) ↔ (R.parse_json s ≡ array_node [])
  unfolding parse_vector
  vector_breaks size t v s (array_node []) e = (λ h. e, λ h. rw (parse_vector, e) refl)
  vector_breaks size t v s (array_node (first ∷ nodes)) e = (
    λ h. absurd (
        ne_breaks (parse_vector R size t v s)
          (rw (parse_vector, e, many first nodes)
            (vector_result-Completes R v (parse_items R size t (first ∷ nodes))))
          h),
    λ h. absurd (cc (sym e ∙ h)),
  )
  vector_breaks size t v s (string_node u) e = (
    λ h. absurd (ne_breaks (parse_vector R size t v s) (rw (parse_vector, e) tt) h),
    λ h. absurd (cc (sym e ∙ h)),
  )
  vector_breaks size t v s other_node e = (
    λ h. absurd (ne_breaks (parse_vector R size t v s) (rw (parse_vector, e) tt) h),
    λ h. absurd (cc (sym e ∙ h)),
  )

  element_breaks : (s : Bytes) (t : VariantType) → IsElement t → (from_string R s t ≡ breaks) ↔ ⊥
  element_breaks s t h =
      (ne_breaks (from_string R s t) (from_string-Completes R s t h), λ z. absurd z)

  breaks_iff :
      (s : Bytes) (t : VariantType) → (from_string R s t ≡ breaks) ↔ IsFatal t (R.parse_json s)
  unfolding from_string
  breaks_iff s null = (λ h. tt, λ h. refl)
  breaks_iff s bool = element_breaks s bool tt
  breaks_iff s sint8 = element_breaks s sint8 tt
  breaks_iff s sint16 = element_breaks s sint16 tt
  breaks_iff s sint32 = element_breaks s sint32 tt
  breaks_iff s sint64 = element_breaks s sint64 tt
  breaks_iff s uint8 = element_breaks s uint8 tt
  breaks_iff s uint16 = element_breaks s uint16 tt
  breaks_iff s uint32 = element_breaks s uint32 tt
  breaks_iff s uint64 = element_breaks s uint64 tt
  breaks_iff s float = element_breaks s float tt
  breaks_iff s double = element_breaks s double tt
  breaks_iff s string = element_breaks s string tt
  breaks_iff s vector_sint8 = vector_breaks 1 sint8 vector_sint8 s (R.parse_json s) refl
  breaks_iff s vector_sint16 = vector_breaks 2 sint16 vector_sint16 s (R.parse_json s) refl
  breaks_iff s vector_sint32 = vector_breaks 4 sint32 vector_sint32 s (R.parse_json s) refl
  breaks_iff s vector_sint64 = vector_breaks 8 sint64 vector_sint64 s (R.parse_json s) refl
  breaks_iff s vector_uint8 = vector_breaks 1 uint8 vector_uint8 s (R.parse_json s) refl
  breaks_iff s vector_uint16 = vector_breaks 2 uint16 vector_uint16 s (R.parse_json s) refl
  breaks_iff s vector_uint32 = vector_breaks 4 uint32 vector_uint32 s (R.parse_json s) refl
  breaks_iff s vector_uint64 = vector_breaks 8 uint64 vector_uint64 s (R.parse_json s) refl
  breaks_iff s vector_float = vector_breaks 4 float vector_float s (R.parse_json s) refl
  breaks_iff s vector_double = vector_breaks 8 double vector_double s (R.parse_json s) refl

  -- Whatever the text (a C string) and the asked type: from_string ends the program exactly for the null type and for
  -- an array without items as a vector. Otherwise it gives a value of the asked type which fits it, or a failure; only
  -- where it reports a truncation the value may be the empty variant instead.
  pub from_string_lem :
      (s : Bytes) (t : VariantType)
      → IsText s
      → ((from_string R s t ≡ breaks) ↔ IsFatal t (R.parse_json s))
        × IsConverted t (from_string R s t)
  from_string_lem s t ok = (breaks_iff s t, from_string-IsConverted R s t ok)

  item_count :
      (t : VariantType) (size n : ℕ) (x : Bytes)
      → 0 < size
      → item_size t ≡ size
      → length x ≡ n * size
      → get_item_count (of t (buffer x)) ≡ n
  unfolding get_item_count buffer_size
  item_count t size n x h q e =
      let some_size : (item_size t == 0) ≡ false = ground arith in
      rw (some_size, q, e) (mul-div_left n h)

  vector-Counts :
      (size : ℕ) (t vector_type : VariantType) (s : Bytes) (nodes : List (Option Bytes))
      → 0 < size
      → item_size vector_type ≡ size
      → R.parse_json s ≡ array_node nodes
      → Counts (length nodes) (parse_vector R size t vector_type s)
  unfolding parse_vector
  vector-Counts size t v s [] h q e = rw (parse_vector, e) tt
  vector-Counts size t v s (first ∷ nodes) h q e =
      elim (Option-cases (parse_items R size t (first ∷ nodes))) [
        | inl k ↦ rw (parse_vector, e, many first nodes, k) tt
        | inr (r, k) ↦
            rw (parse_vector, e, many first nodes, k)
              (with_result-Counts (if r.0 then false else true) (of v (buffer r.1))
                (length (first ∷ nodes))
                (item_count v size (length (first ∷ nodes)) r.1 h q
                  (length-parse_items R size t (first ∷ nodes) r k)))
      ]

  from_string-Counts :
      (s : Bytes) (t : VariantType) (nodes : List (Option Bytes))
      → IsVectorType t
      → R.parse_json s ≡ array_node nodes
      → Counts (length nodes) (from_string R s t)
  unfolding from_string item_size
  from_string-Counts s vector_sint8 nodes h e =
      vector-Counts 1 sint8 vector_sint8 s nodes (omega arith) refl e
  from_string-Counts s vector_sint16 nodes h e =
      vector-Counts 2 sint16 vector_sint16 s nodes (omega arith) refl e
  from_string-Counts s vector_sint32 nodes h e =
      vector-Counts 4 sint32 vector_sint32 s nodes (omega arith) refl e
  from_string-Counts s vector_sint64 nodes h e =
      vector-Counts 8 sint64 vector_sint64 s nodes (omega arith) refl e
  from_string-Counts s vector_uint8 nodes h e =
      vector-Counts 1 uint8 vector_uint8 s nodes (omega arith) refl e
  from_string-Counts s vector_uint16 nodes h e =
      vector-Counts 2 uint16 vector_uint16 s nodes (omega arith) refl e
  from_string-Counts s vector_uint32 nodes h e =
      vector-Counts 4 uint32 vector_uint32 s nodes (omega arith) refl e
  from_string-Counts s vector_uint64 nodes h e =
      vector-Counts 8 uint64 vector_uint64 s nodes (omega arith) refl e
  from_string-Counts s vector_float nodes h e =
      vector-Counts 4 float vector_float s nodes (omega arith) refl e
  from_string-Counts s vector_double nodes h e =
      vector-Counts 8 double vector_double s nodes (omega arith) refl e
  from_string-Counts s _ nodes h e = absurd h

  -- The vector that from_string reads from a JSON array, exactly or with a truncation, has as many items for
  -- get_item_count as the array.
  pub get_item_count-from_string :
      (s : Bytes) (t : VariantType) (v : Variant) (nodes : List (Option Bytes))
      → IsVectorType t
      → R.parse_json s ≡ array_node nodes
      → (from_string R s t ≡ success v) ⊎ (from_string R s t ≡ truncated v)
      → get_item_count v ≡ length nodes
  get_item_count-from_string s t v nodes h e (inl r) =
      subst (Counts (length nodes)) r (from_string-Counts s t nodes h e)
  get_item_count-from_string s t v nodes h e (inr r) =
      subst (Counts (length nodes)) r (from_string-Counts s t nodes h e)
