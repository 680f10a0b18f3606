-- ===== src/Pickle/Elements.antt =====
-- The loops that write and read the elements of a vector (tweak-pickle/src/tweakpickle_pb_util.c).
use tweaktool.Common.{
  ℕ, zero, suc, ◌-◌, ◌+◌, ◌*◌, ◌%◌, ◌/◌, ◌^◌, ◌≤◌, ◌<◌, ◌≡◌, refl, sym, ◌∙◌, ap, ap₂, Bool-cases,
  inl, inr, some, [], ◌∷◌, ◌++◌, length, take, drop, ltb, Bytes, if◌then◌else◌, arith,
  take-append-drop, length-drop, Option-cases, if_true, if_false,
}
use tweaktool.Pickle.Nanopb.{Codec}
use tweaktool.Words.{load_le, store_le, AreBytes, drop-AreBytes, load_le-lt, store_le-load_le}
use tweaktool.Pickle.{ElementFormat, int16_format, uint16_format, word_format, long_format}
use tweaktool.Pickle.Stream.{widen, write_element, read_element, encode_buffer, decode_buffer}

-- The four ways in which an element is sent.
pub data IsFormat : ElementFormat → Type 0 where
  is_int16 : IsFormat int16_format
  is_uint16 : IsFormat uint16_format
  is_word : IsFormat word_format
  is_long : IsFormat long_format

size-pos : {f : ElementFormat} → IsFormat f → 0 < f.size
size-pos is_int16 = omega arith
size-pos is_uint16 = omega arith
size-pos is_word = omega arith
size-pos is_long = omega arith

store_le-plus : (x : ℕ) → store_le 2 (x + (2 ^ 32 - 2 ^ 16)) ≡ store_le 2 x
store_le-plus x =
    let low : (x + (2 ^ 32 - 2 ^ 16)) % 256 ≡ x % 256 = omega arith in
    let high : (x + (2 ^ 32 - 2 ^ 16)) / 256 % 256 ≡ x / 256 % 256 = omega arith in
    ap₂ (λ a b. a ∷ b ∷ []) low high

module _ (C : Codec) (field_tag : ℕ) (small_tag : field_tag < 2 ^ 32) where
  read-write :
      {f : ElementFormat} (k : IsFormat f) (s rest : Bytes)
      → AreBytes s
      → read_element C field_tag f
          (write_element C field_tag f (widen f (load_le f.size s)) ++ rest)
        ≡ some (widen f (load_le f.size s), rest)
  read-write is_int16 s rest ok = C.fixed32_lem _ rest (ground (arith, load_le-lt 2 s ok))
  read-write is_uint16 s rest ok = C.fixed32_lem _ rest (omega (arith, load_le-lt 2 s ok))
  read-write is_word s rest ok = C.fixed32_lem _ rest (omega (arith, load_le-lt 4 s ok))
  read-write is_long s rest ok = C.fixed64_lem _ rest (omega (arith, load_le-lt 8 s ok))

  store_le-widen :
      {f : ElementFormat} (k : IsFormat f) (s : Bytes)
      → AreBytes s
      → f.size ≤ length s
      → store_le f.size (widen f (load_le f.size s)) ≡ take f.size s
  store_le-widen is_int16 s ok h = elim (Bool-cases (ltb (load_le 2 s) (2 ^ 15))) [
    | inl low ↦
        ap (λ b. store_le 2 (if b then load_le 2 s else load_le 2 s + (2 ^ 32 - 2 ^ 16))) low
        ∙ store_le-load_le 2 s ok h
    | inr high ↦
        ap (λ b. store_le 2 (if b then load_le 2 s else load_le 2 s + (2 ^ 32 - 2 ^ 16))) high
        ∙ store_le-plus (load_le 2 s)
        ∙ store_le-load_le 2 s ok h
  ]
  store_le-widen is_uint16 s ok h = store_le-load_le 2 s ok h
  store_le-widen is_word s ok h = store_le-load_le 4 s ok h
  store_le-widen is_long s ok h = store_le-load_le 8 s ok h

  decode_step :
      (f : ElementFormat) (fuel : ℕ) (s : Bytes) (r e : ℕ × Bytes) (more : Bytes)
      → C.decode_varint32 s ≡ some r
      → read_element C field_tag f r.1 ≡ some e
      → decode_buffer C field_tag f fuel e.1 ≡ some more
      → decode_buffer C field_tag f (suc fuel) s ≡ some (store_le f.size e.0 ++ more)
  unfolding decode_buffer
  decode_step f fuel [] r e more p q h = absurd (omega (arith, C.varint_shorter [] r.0 r.1 p))
  decode_step f fuel (c ∷ s) r e more p q h = rw (p, q, h)

  pub decode-encode :
      {f : ElementFormat} (k : IsFormat f) (n fuel : ℕ) (s : Bytes)
      → AreBytes s
      → length s ≡ n * f.size
      → n ≤ fuel
      → decode_buffer C field_tag f fuel (encode_buffer C field_tag f n s) ≡ some s
  unfolding encode_buffer decode_buffer
  decode-encode k zero fuel [] ok size h = refl
  decode-encode k zero fuel (c ∷ s) ok size h = absurd (omega arith)
  decode-encode k (suc n) zero s ok size h = absurd (omega arith)
  decode-encode {f} k (suc n) (suc fuel) s ok size h =
      let rest = encode_buffer C field_tag f n (drop f.size s) in
      let x = widen f (load_le f.size s) in
      let fits : f.size ≤ length s = grind (arith, size) in
      let left : length (drop f.size s) ≡ n * f.size = grind (arith, size, length-drop f.size s) in
      decode_step f fuel _ (field_tag, write_element C field_tag f x ++ rest) (x, rest)
        (drop f.size s) (C.varint_lem field_tag (write_element C field_tag f x ++ rest) small_tag)
        (read-write k s rest ok)
        (decode-encode k n fuel (drop f.size s) (drop-AreBytes f.size s ok) left (omega arith))
      ∙ ap some
          (ap (λ r. r ++ drop f.size s) (store_le-widen k s ok fits) ∙ take-append-drop f.size s)

  read-shorter :
      (f : ElementFormat) (s : Bytes) (x : ℕ) (rest : Bytes)
      → read_element C field_tag f s ≡ some (x, rest)
      → length rest < length s
  read-shorter f s x rest e = elim (Bool-cases f.is_wide) [
    | inl wide ↦ C.fixed64_shorter s x rest (sym (if_true f.is_wide _ _ wide) ∙ e)
    | inr narrow ↦ C.fixed32_shorter s x rest (sym (if_false f.is_wide _ _ narrow) ∙ e)
  ]

  -- Enough fuel is given: the loop reads at least a byte in each round.
  decode_buffer_fuel :
      (f : ElementFormat) (n m : ℕ) (s : Bytes)
      → length s ≤ n
      → length s ≤ m
      → decode_buffer C field_tag f n s ≡ decode_buffer C field_tag f m s
  unfolding decode_buffer
  decode_buffer_fuel f zero zero [] h k = refl
  decode_buffer_fuel f zero (suc m) [] h k = refl
  decode_buffer_fuel f (suc n) zero [] h k = refl
  decode_buffer_fuel f (suc n) (suc m) [] h k = refl
  decode_buffer_fuel f zero m (c ∷ s) h k = absurd (omega arith)
  decode_buffer_fuel f (suc n) zero (c ∷ s) h k = absurd (omega arith)
  decode_buffer_fuel f (suc n) (suc m) (c ∷ s) h k =
      elim (Option-cases (C.decode_varint32 (c ∷ s))) [
        | inl e ↦ rw e
        | inr (r, e) ↦ elim (Option-cases (read_element C field_tag f r.1)) [
          | inl g ↦ rw (e, g)
          | inr (x, g) ↦
              let shorter = read-shorter f r.1 x.0 x.1 g in
              let first = C.varint_shorter (c ∷ s) r.0 r.1 e in
              rw (e, g, decode_buffer_fuel f n m x.1 (omega arith) (omega arith))
        ]
      ]
