-- ===== src/Text/Assign.antt =====
-- `tweak_assign_string` and `tweak_string_format`.
use tweaktool.Common.{
  ℕ, ◌+◌, ◌^◌, ◌≤◌, ◌<◌, ◌≡◌, refl, inl, inr, some, [], length, replicate, ltb, leb, if◌then◌else◌,
  Bytes, IsText, arith, Bool-cases,
}
use tweaktool.Text.{
  Str, Buffers, store, small_buffer, large_buffer, inline_size, is_small, cells, assign, reserve,
  copy_in, add_size, start, format, overcommit,
}
use tweaktool.Text.Memory.{
  Cells, nul, uninit, strncpy, holding, strncpy_lem, strncpy_rest, length-uninit,
  length-strncpy_rest,
}
use tweaktool.Text.Holds.{
  Holds, length-holding, room-big, cells-store, large-Holds, small-Holds, overcommit-lt, Result,
  start-Holds,
}

-- `strncpy` of a text that fits into storage of a known size.
strncpy-Holds :
    (s : Str) (c : Cells) (arg : Bytes)
    → IsText arg
    → length c ≡ s.capacity
    → inline_size ≤ s.capacity
    → length arg < s.capacity
    → let d = holding arg (strncpy_rest c arg s.capacity) in
      (strncpy c arg s.capacity ≡ some d)
      × Holds (record (store s d) { length = length arg }) arg (strncpy_rest c arg s.capacity)
strncpy-Holds s c arg ok size big fits = (
  strncpy_lem c arg s.capacity fits (omega arith),
  record {
    text = ok;
    stored = cells-store s _ _;
    sized = omega (arith, length-strncpy_rest c arg s.capacity, room-big s big);
    counted = refl;
    known = inr big;
  },
)

-- The storage before a text of `n - 1` bytes is copied into it.
record Ready (s : Str) (c : Cells) (n : ℕ) : Type 0 where
  cells_eq : cells s ≡ some c
  size : length c ≡ s.capacity
  big : inline_size ≤ s.capacity
  wide : n ≤ s.capacity

Holds-Ready :
    (s : Str) (t : Bytes) (rest : Cells)
    → Holds s t rest
    → inline_size ≤ s.capacity
    → Ready s (holding t rest) 0
Holds-Ready s t rest h big = record {
  cells_eq = h.stored;
  size = omega (arith, length-holding t rest, h.sized, room-big s big);
  big = big;
  wide = omega arith;
}

reserve-Ready :
    (s : Str) (n : ℕ) (c : Cells)
    → Ready s c 0
    → n < 2 ^ 62
    → Ready (reserve s n) (if ltb s.capacity n then uninit (overcommit n) else c) n
unfolding reserve cells is_small
reserve-Ready s n c r small = elim (Bool-cases (ltb s.capacity n)) [
  | inl e ↦ rw e (record {
    cells_eq = ground (arith, overcommit-lt n);
    size = length-uninit (overcommit n);
    big = ground (arith, overcommit-lt n);
    wide = ground (arith, overcommit-lt n);
  })
  | inr e ↦ rw e (record {
    cells_eq = ground (arith, r.cells_eq);
    size = r.size;
    big = r.big;
    wide = ground arith;
  })
]

copy_in-Holds :
    (s : Str) (arg : Bytes) (c : Cells)
    → IsText arg
    → Ready s c (length arg + 1)
    → Result (copy_in s arg) arg
unfolding copy_in
copy_in-Holds s arg c ok r =
    let (e, h) = strncpy-Holds s c arg ok r.size r.big (omega arith) in
    (_, _, rw (r.cells_eq, e), h)

-- Assigning a text of less than 2 ^ 61 bytes to a string that holds any text succeeds, and the string then holds the
-- assigned text.
pub assign-Holds :
    (s : Str) (t arg : Bytes) (rest : Cells)
    → Holds s t rest
    → IsText arg
    → length arg < 2 ^ 61
    → Result (assign s (some arg)) arg
unfolding assign
assign-Holds s t arg rest h ok small =
    let (h0, big) = start-Holds s t rest h in
    let n_eq : add_size (length arg) 1 ≡ length arg + 1 = omega arith in
    rw n_eq (
      copy_in-Holds _ arg _ ok (
        reserve-Ready (start s) (length arg + 1) (holding t rest)
          (Holds-Ready (start s) t rest h0 big) (omega arith)))

formatted : Bytes → ℕ → Buffers → Str
formatted t n b = record { length = length t; capacity = n; buffers = b }

-- `tweak_string_format` puts any formatted text into any string.
pub format-Holds : (s : Str) (t : Bytes) → IsText t → Result (format s t) t
unfolding format formatted
format-Holds s t ok = elim (Bool-cases (leb (length t + 1) inline_size)) [
  | inl e ↦
      let fits : length t + 1 ≤ inline_size = ground arith in
      let rest = strncpy_rest (replicate inline_size nul) t (length t + 1) in
      (
        formatted t inline_size (small_buffer (holding t rest)),
        rest,
        rw (e, strncpy_lem (replicate inline_size nul) t (length t + 1) (omega arith) fits) refl,
        small-Holds t rest ok
            (omega (arith, length-strncpy_rest (replicate inline_size nul) t (length t + 1))),
      )
  | inr e ↦
      let rest = strncpy_rest (uninit (length t + 1)) t (length t + 1) in
      (
        formatted t (length t + 1) (large_buffer (holding t rest)),
        rest,
        rw
            (
              e,
              strncpy_lem (uninit (length t + 1)) t (length t + 1) (omega arith)
                  (omega (arith, length-uninit (length t + 1))),
            )
            refl,
        large-Holds (formatted t 0 (large_buffer [])) t rest (length t + 1) ok refl (ground arith) (
            omega (
              arith,
              length-strncpy_rest (uninit (length t + 1)) t (length t + 1),
              length-uninit (length t + 1),
            )),
      )
]
