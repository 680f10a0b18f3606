-- ===== src/Text/Append.antt =====
-- `tweak_string_append`.
use tweaktool.Common.{
  ℕ, suc, ◌+◌, ◌-◌, ◌^◌, ◌≤◌, ◌<◌, ◌≡◌, refl, ◌∙◌, inl, inr, some, [], ◌∷◌, ◌++◌, length, drop, ltb,
  if◌then◌else◌, Bytes, IsText, append-IsText, arith, length-append, length-map, length-drop,
  Bool-cases, min, ◌>>=◌,
}
use mathlib.Core.List.{append_assoc, map-append}
use tweaktool.Text.{
  Str, store, large_buffer, inline_size, is_small, append, enlarge, append_in, add_size, start,
  overcommit,
}
use tweaktool.Text.Memory.{
  Cells, nul, uninit, text_cells, blit, holding, overwrite_lem, take-all, blit_text, length-uninit,
  take-holding,
}
use tweaktool.Text.Holds.{
  Holds, length-holding, room-big, cells-store, large-Holds, overcommit-lt, Result, start-Holds,
  start-capacity,
}

-- `memcpy` of a text, its terminator included, over the terminator of another text.
blit-holding :
    (t arg : Bytes) (rest : Cells)
    → length arg ≤ length rest
    → blit (holding t rest) (length t) (text_cells arg ++ nul ∷ [])
      ≡ some (holding (t ++ arg) (drop (length arg) rest))
blit-holding t arg rest h =
    blit_text t (nul ∷ rest) src (omega (arith, src_length))
    ∙ rw src_length (simp (map-append, append_assoc))
  where
    src : Cells
    src = text_cells arg ++ nul ∷ []

    src_length : length src ≡ suc (length arg)
    src_length =
        omega (arith, length-append (text_cells arg) (nul ∷ []), length-map arg (λ c. some c))

append_in-Holds :
    (s : Str) (t arg : Bytes) (rest : Cells)
    → Holds s t rest
    → IsText arg
    → length t + length arg < s.capacity
    → s.capacity < 2 ^ 63
    → inline_size ≤ s.capacity
    → Result (append_in s arg) (t ++ arg)
unfolding append_in
append_in-Holds s t arg rest h ok fits small big = (
  record (store s (holding (t ++ arg) (drop (length arg) rest))) {
    length = add_size s.length (length arg);
  },
  drop (length arg) rest,
  rw (h.stored, h.counted, blit-holding t arg rest (omega (arith, h.sized, room-big s big))),
  record {
    text = append-IsText t arg h.text ok;
    stored = cells-store s _ (add_size s.length (length arg));
    sized =
        omega (arith, h.sized, room-big s big, length-append t arg, length-drop (length arg) rest);
    counted = omega (arith, length-append t arg);
    known = inr big;
  },
)

-- The block that `malloc` returned, with the old text copied into it.
moved_rest : Bytes → ℕ → Cells
moved_rest t n = drop 1 (drop (length t) (uninit n))

length-moved_rest : (t : Bytes) (n : ℕ) → length (moved_rest t n) ≡ n - length t - 1
unfolding moved_rest
length-moved_rest t n = omega (
  arith,
  length-drop 1 (drop (length t) (uninit n)),
  length-drop (length t) (uninit n),
  length-uninit n,
)

malloc-holding :
    (t : Bytes) (n : ℕ)
    → length t < n
    → (blit (uninit n) 0 (text_cells t) >>= λ d. blit d (length t) (nul ∷ []))
      ≡ some (holding t (moved_rest t n))
unfolding blit moved_rest
malloc-holding t n h =
    rw
      (
        overwrite_lem (uninit n) (text_cells t)
            (omega (arith, length-map t (λ c. some c), length-uninit n)),
        length-map t (λ c. some c),
      )
      (blit_text t (drop (length t) (uninit n)) (nul ∷ [])
        (omega (arith, length-drop (length t) (uninit n), length-uninit n)))

spare :
    (t : Bytes) (rest : Cells) (n old : ℕ)
    → length t + 1 + length rest ≡ old
    → old < n
    → n - min n (length (holding t rest)) ≡ n - old
spare t rest n old h more = omega (arith, length-holding t rest)

enlarge-Holds :
    (s : Str) (t : Bytes) (rest : Cells) (n : ℕ)
    → Holds s t rest
    → inline_size ≤ s.capacity
    → s.capacity < n
    → (s1 : Str) × (rest1 : Cells) × (enlarge s n ≡ some s1) × Holds s1 t rest1 × (s1.capacity ≡ n)
unfolding enlarge
enlarge-Holds s t rest n h big more = elim (Bool-cases (is_small s)) [
  | inl e ↦ (
    record s { capacity = n; buffers = large_buffer (holding t (moved_rest t n)) },
    moved_rest t n,
    rw
        (
          h.stored,
          e,
          h.counted,
          take-holding,
          malloc-holding t n (omega (arith, h.sized, room-big s big)),
        )
        refl,
    large-Holds s t (moved_rest t n) n h.text h.counted (omega arith)
        (omega (arith, length-moved_rest t n, h.sized, room-big s big)),
    refl,
  )
  | inr e ↦ (
    record s { capacity = n; buffers = large_buffer (holding t (rest ++ uninit (n - s.capacity))) },
    rest ++ uninit (n - s.capacity),
    rw
        (
          h.stored,
          e,
          take-all n (holding t rest)
              (omega (arith, length-holding t rest, h.sized, room-big s big)),
          spare t rest n s.capacity (omega (arith, h.sized, room-big s big)) more,
          append_assoc,
        )
        refl,
    large-Holds s t (rest ++ uninit (n - s.capacity)) n h.text h.counted (omega arith) (
        omega (
          arith,
          h.sized,
          room-big s big,
          length-append rest (uninit (n - s.capacity)),
          length-uninit (n - s.capacity),
        )),
    refl,
  )
]

make_room :
    (s : Str) (t : Bytes) (rest : Cells) (n : ℕ)
    → Holds s t rest
    → inline_size ≤ s.capacity
    → s.capacity < 2 ^ 63
    → n < 2 ^ 62
    → (s1 : Str) × (rest1 : Cells) × ((if ltb s.capacity n
          then enlarge s (overcommit n)
          else some s)
        ≡ some s1)
      × Holds s1 t rest1
      × (n ≤ s1.capacity)
      × (inline_size ≤ s1.capacity)
      × (s1.capacity < 2 ^ 63)
make_room s t rest n h big small n_small = elim (Bool-cases (ltb s.capacity n)) [
  | inl e ↦
      let m = overcommit n in
      let lt : s.capacity < n = ground arith in
      let (le, over) = overcommit-lt n (omega arith) n_small in
      let (s1, rest1, eq, h1, cap) = enlarge-Holds s t rest m h big (omega arith) in
      (s1, rest1, rw e eq, h1, omega arith, omega arith, omega arith)
  | inr e ↦ (s, rest, rw e, h, ground arith, big, small)
]

append-append_in :
    (s s1 : Str) (arg : Bytes) (n : ℕ)
    → add_size (add_size (start s).length (length arg)) 1 ≡ n
    → (if ltb (start s).capacity n then enlarge (start s) (overcommit n) else some (start s))
      ≡ some s1
    → append s arg ≡ append_in s1 arg
unfolding append
append-append_in s s1 arg n total e = rw (total, e)

-- Appending to a string that holds a text succeeds, and the string then holds both texts, the old
-- one first, if the capacity and the appended text are below 2 ^ 60 bytes.
pub append-Holds :
    (s : Str) (t arg : Bytes) (rest : Cells)
    → Holds s t rest
    → IsText arg
    → s.capacity < 2 ^ 60
    → length arg < 2 ^ 60
    → Result (append s arg) (t ++ arg)
unfolding append
append-Holds s t arg rest h ok cap_small arg_small =
    let (h0, big) = start-Holds s t rest h in
    let start_small : (start s).capacity < 2 ^ 61 = omega (arith, start-capacity s) in
    let fits : length t ≤ (start s).capacity = omega (arith, h0.sized, room-big (start s) big) in
    let total : add_size (add_size (start s).length (length arg)) 1 ≡ length t + length arg + 1 =
      omega (arith, h0.counted) in
    let (s1, rest1, e1, h1, wide, big1, small1) =
      make_room (start s) t rest (length t + length arg + 1) h0 big (omega arith) (omega arith) in
    let (s2, rest2, e2, h2) = append_in-Holds s1 t arg rest1 h1 ok (omega arith) small1 big1 in
    (s2, rest2, append-append_in s s1 arg _ total e1 ∙ e2, h2)
