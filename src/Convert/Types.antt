-- ===== src/Convert/Types.antt =====
-- The type of what `tweak_variant_from_string` gives (tweak-common/src/tweakvariant.c).
use tweaktool.Common.{
  ℕ, suc, ◌+◌, ◌*◌, ◌<◌, ◌≡◌, inl, inr, refl, sym, ◌∙◌, ap, ap₂, Bool, true, false, Option, none,
  some, List, [], ◌∷◌, ◌++◌, length, length-append, if◌then◌else◌, Bytes, arith, IsText,
  Option-cases, ◌==◌, ◌||◌,
}
use tweaktool.Variant.{
  VariantType, null, bool, sint8, sint16, sint32, sint64, uint8, uint16, uint32, uint64, float,
  double, string, vector_sint8, vector_sint16, vector_sint32, vector_sint64, vector_uint8,
  vector_uint16, vector_uint32, vector_uint64, vector_float, vector_double, buffer,
}
use tweaktool.Variant.Types.{Fits}
use tweaktool.Words.{length-store_le}
use tweaktool.Convert.Runtime.{Runtime, Json, array_node, string_node, other_node}
use tweaktool.Convert.Parse.{
  Conversion, success, truncated, fail, breaks, of, item, bits, parse_string, parse_scalar,
  parse_items, parse_vector, from_string,
}
use tweaktool.Convert.Coerce.{IsConverted, some_eq, none≢some, with_result-IsConverted}
use tweaktool.Convert.Numbers.{
  parse_generic_int-IsConverted, parse_generic_uint-IsConverted, parse_generic_float-IsConverted,
}
use tweaktool.Convert.Coerce.{parse_bool-IsConverted}

module _ (R : Runtime) where
  string_lem :
      (s : Bytes) (j : Json) → IsText s → R.parse_json s ≡ j → IsConverted string (parse_string R s)
  unfolding parse_string
  string_lem s (array_node nodes) ok e = rw (parse_string, e) (inr (refl, ok))
  string_lem s (string_node t) ok e = rw (parse_string, e) (refl, R.parse_json-IsText s t e)
  string_lem s other_node ok e = rw (parse_string, e) (inr (refl, ok))

  length-item :
      (size : ℕ) (t : VariantType) (c : Conversion) (r : Bool × Bytes)
      → item size t c ≡ some r
      → length r.1 ≡ size
  length-item size t (success v) r e =
      sym (ap (λ (p : Bool × Bytes). length p.1) (some_eq e))
      ∙ length-store_le size (bits t v.value)
  length-item size t (truncated v) r e =
      sym (ap (λ (p : Bool × Bytes). length p.1) (some_eq e))
      ∙ length-store_le size (bits t v.value)
  length-item size t fail r e = absurd (none≢some e)
  length-item size t breaks r e = absurd (none≢some e)

  pub length-parse_items :
      (size : ℕ) (t : VariantType) (nodes : List (Option Bytes)) (r : Bool × Bytes)
      → parse_items R size t nodes ≡ some r
      → length r.1 ≡ length nodes * size
  unfolding parse_items
  length-parse_items size t [] r e =
      omega (arith, ap (λ (p : Bool × Bytes). length p.1) (some_eq e))
  length-parse_items size t (none ∷ nodes) r e = absurd (none≢some e)
  length-parse_items size t (some s ∷ nodes) r e =
      elim (Option-cases (item size t (parse_scalar R t s))) [
        | inl h ↦
            let p : parse_items R size t (some s ∷ nodes) ≡ none = rw h refl in
            absurd (none≢some (sym p ∙ e))
        | inr (first, h) ↦ elim (Option-cases (parse_items R size t nodes)) [
          | inl k ↦
              let p : parse_items R size t (some s ∷ nodes) ≡ none = rw (h, k) refl in
              absurd (none≢some (sym p ∙ e))
          | inr (more, k) ↦
              let p : parse_items R size t (some s ∷ nodes)
                  ≡ some (first.0 || more.0, first.1 ++ more.1) =
                rw (h, k) refl in
              sym (ap (λ (q : Bool × Bytes). length q.1) (some_eq (sym p ∙ e)))
              ∙ length-append first.1 more.1
              ∙ ap₂ (λ a c. a + c) (length-item size t (parse_scalar R t s) first h)
                  (length-parse_items size t nodes more k)
              ∙ omega arith
        ]
      ]

  vector_lem :
      (size : ℕ) (t vector_type : VariantType) (s : Bytes) (j : Json)
      → ((n : ℕ) (x : Bytes) → 0 < n → length x ≡ n * size → Fits vector_type (buffer x))
      → R.parse_json s ≡ j
      → IsConverted vector_type (parse_vector R size t vector_type s)
  unfolding parse_vector
  vector_lem size t vector_type s (string_node u) fits e = rw (parse_vector, e) tt
  vector_lem size t vector_type s other_node fits e = rw (parse_vector, e) tt
  vector_lem size t vector_type s (array_node []) fits e = rw (parse_vector, e) tt
  vector_lem size t vector_type s (array_node (node ∷ nodes)) fits e =
      let many : (suc (length nodes) == 0) ≡ false = ground arith in
      elim (Option-cases (parse_items R size t (node ∷ nodes))) [
        | inl h ↦ rw (parse_vector, e, many, h) tt
        | inr (r, h) ↦
            rw (parse_vector, e, many, h)
              (with_result-IsConverted (if r.0 then false else true) vector_type
                (of vector_type (buffer r.1))
                (
                  refl,
                  fits (length (node ∷ nodes)) r.1 (omega arith)
                      (length-parse_items size t (node ∷ nodes) r h),
                ))
      ]

  -- Whatever the text (a C string) and the asked type, from_string gives a value of that type which fits it, or
  -- a failure; only where it reports a truncation the value may be the empty variant instead.
  pub from_string-IsConverted :
      (s : Bytes) (t : VariantType) → IsText s → IsConverted t (from_string R s t)
  unfolding from_string
  from_string-IsConverted s null ok = tt
  from_string-IsConverted s bool ok = parse_bool-IsConverted s
  from_string-IsConverted s sint8 ok = parse_generic_int-IsConverted R s sint8
  from_string-IsConverted s sint16 ok = parse_generic_int-IsConverted R s sint16
  from_string-IsConverted s sint32 ok = parse_generic_int-IsConverted R s sint32
  from_string-IsConverted s sint64 ok = parse_generic_int-IsConverted R s sint64
  from_string-IsConverted s uint8 ok = parse_generic_uint-IsConverted R s uint8
  from_string-IsConverted s uint16 ok = parse_generic_uint-IsConverted R s uint16
  from_string-IsConverted s uint32 ok = parse_generic_uint-IsConverted R s uint32
  from_string-IsConverted s uint64 ok = parse_generic_uint-IsConverted R s uint64
  from_string-IsConverted s float ok = parse_generic_float-IsConverted R s float
  from_string-IsConverted s double ok = parse_generic_float-IsConverted R s double
  from_string-IsConverted s string ok = string_lem s (R.parse_json s) ok refl
  from_string-IsConverted s vector_sint8 ok =
      vector_lem 1 sint8 vector_sint8 s (R.parse_json s)
        (λ n x p q. (omega (arith, p, q), omega (arith, q))) refl
  from_string-IsConverted s vector_sint16 ok =
      vector_lem 2 sint16 vector_sint16 s (R.parse_json s)
        (λ n x p q. (omega (arith, p, q), omega (arith, q))) refl
  from_string-IsConverted s vector_sint32 ok =
      vector_lem 4 sint32 vector_sint32 s (R.parse_json s)
        (λ n x p q. (omega (arith, p, q), omega (arith, q))) refl
  from_string-IsConverted s vector_sint64 ok =
      vector_lem 8 sint64 vector_sint64 s (R.parse_json s)
        (λ n x p q. (omega (arith, p, q), omega (arith, q))) refl
  from_string-IsConverted s vector_uint8 ok =
      vector_lem 1 uint8 vector_uint8 s (R.parse_json s)
        (λ n x p q. (omega (arith, p, q), omega (arith, q))) refl
  from_string-IsConverted s vector_uint16 ok =
      vector_lem 2 uint16 vector_uint16 s (R.parse_json s)
        (λ n x p q. (omega (arith, p, q), omega (arith, q))) refl
  from_string-IsConverted s vector_uint32 ok =
      vector_lem 4 uint32 vector_uint32 s (R.parse_json s)
        (λ n x p q. (omega (arith, p, q), omega (arith, q))) refl
  from_string-IsConverted s vector_uint64 ok =
      vector_lem 8 uint64 vector_uint64 s (R.parse_json s)
        (λ n x p q. (omega (arith, p, q), omega (arith, q))) refl
  from_string-IsConverted s vector_float ok =
      vector_lem 4 float vector_float s (R.parse_json s)
        (λ n x p q. (omega (arith, p, q), omega (arith, q))) refl
  from_string-IsConverted s vector_double ok =
      vector_lem 8 double vector_double s (R.parse_json s)
        (λ n x p q. (omega (arith, p, q), omega (arith, q))) refl
