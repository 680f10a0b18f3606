-- ===== src/Text.antt =====
-- tweak-common/src/tweakstring.c: `tweak_variant_string`, a text that is stored inside the struct
-- up to 128 bytes and in a heap block above. Memory is a list of cells; an uninitialised cell is
-- `none`. A function that reads or writes where the C code has no defined behaviour gives `none`.
use tweaktool.Common.{
  ℕ, zero, suc, ◌+◌, ◌-◌, ◌*◌, ◌/◌, ◌%◌, ◌^◌, min, Bool, true, false, Option, none, some, List, [],
  ◌∷◌, ◌++◌, map, length, take, drop, replicate, ltb, leb, ◌==◌, if◌then◌else◌, Bytes, str_eq,
  ◌>>=◌,
}
pub mod Memory
pub mod Holds
pub mod Assign
pub mod Append
pub mod Copy
mod Tests
use Memory.{Cells, nul, uninit, text_cells, strncpy, blit, read_str}

-- TWEAK_VARIANT_INLINE_STRING_SIZE
abbrev pub inline_size : ℕ
inline_size = 128

-- The union of `tweak_variant_string`, with the member that was written last. `large_buffer` is the
-- heap block that the pointer owns.
pub data Buffers : Type 0 where
  small_buffer : Cells → Buffers
  large_buffer : Cells → Buffers

pub record Str : Type 0 where
  pub length : ℕ
  pub capacity : ℕ
  pub buffers : Buffers

-- TWEAK_VARIANT_STRING_EMPTY
abbrev pub empty : Str
empty = record { length = 0; capacity = 0; buffers = small_buffer (replicate inline_size nul) }

-- `size_t` arithmetic
abbrev pub add_size : ℕ → ℕ → ℕ
add_size a b = (a + b) % 2 ^ 64

abbrev pub overcommit : ℕ → ℕ
overcommit n = n * 3 % 2 ^ 64 / 2

unfoldable pub is_small : Str → Bool
is_small s = leb s.capacity inline_size

abbrev pub member : Bool → Buffers → Option Cells
member true (small_buffer c) = some c
member true (large_buffer c) = none
member false (small_buffer c) = none
member false (large_buffer c) = some c

-- The array that `capacity` selects, if it is the member of the union that was written.
unfoldable pub cells : Str → Option Cells
unfolding is_small
cells s = member (is_small s) s.buffers

-- The same string with other contents of that array.
abbrev store : Str → Cells → Str
store s c = record s {
  buffers = if leb s.capacity inline_size then small_buffer c else large_buffer c;
}

unfoldable pub c_str : Str → Option Bytes
unfolding cells read_str
c_str s = cells s >>= read_str

unfoldable pub destroy : Str → Str
destroy s = empty

-- `if (string->capacity == 0) string->capacity = TWEAK_VARIANT_INLINE_STRING_SIZE;`
abbrev start : Str → Str
start s = if s.capacity == 0 then record s { capacity = inline_size } else s

-- `tweak_assign_string`, in three parts: more storage where the text does not fit (what was there is
-- freed), the copy, and the choice between them and `destroy` at a null pointer (`none`).
unfoldable pub reserve : Str → ℕ → Str
reserve s desired =
    if ltb s.capacity desired
    then record s {
      capacity = overcommit desired;
      buffers = large_buffer (uninit (overcommit desired));
    }
    else s

unfoldable pub copy_in : Str → Bytes → Option Str
unfolding cells strncpy
copy_in s arg = do
  c ← cells s
  d ← strncpy c arg s.capacity
  some (record (store s d) { length = length arg })

unfoldable pub assign : Str → Option Bytes → Option Str
unfolding reserve copy_in
assign s none = some (destroy s)
assign s (some arg) = copy_in (reserve (start s) (add_size (length arg) 1)) arg

-- `tweak_string_append`: `malloc` and `memcpy`, or `realloc`, where the text does not fit, and then
-- the copy behind the old text.
unfoldable pub enlarge : Str → ℕ → Option Str
unfolding is_small cells blit
enlarge s n = do
  c ← cells s
  d ←
      if is_small s
      then (blit (uninit n) 0 (take s.length c) >>= λ d. blit d s.length (nul ∷ []))
      else some (take n c ++ uninit (n - min n (length c)))
  some (record s { capacity = n; buffers = large_buffer d })

unfoldable pub append_in : Str → Bytes → Option Str
unfolding cells blit
append_in s arg = do
  c ← cells s
  d ← blit c s.length (text_cells arg ++ nul ∷ [])
  some (record (store s d) { length = add_size s.length (length arg) })

unfoldable pub append : Str → Bytes → Option Str
unfolding enlarge append_in
append s arg =
    let s0 = start s in
    let desired = add_size (add_size s0.length (length arg)) 1 in
    do
      s1 ← if ltb s0.capacity desired then enlarge s0 (overcommit desired) else some s0
      append_in s1 arg

-- `tweak_string_format`; `text` is what `vsnprintf` makes of the format and its arguments.
unfoldable pub format : Str → Bytes → Option Str
unfolding strncpy
format s text =
    let size = length text + 1 in
    if leb size inline_size
    then (strncpy (replicate inline_size nul) text size >>= λ c.
        some (made inline_size (small_buffer c)))
    else (strncpy (uninit size) text size >>= λ c. some (made size (large_buffer c)))
  where
    made : ℕ → Buffers → Str
    made n b = record { length = length text; capacity = n; buffers = b }

unfoldable pub swap : Str → Str → Str × Str
swap s t = (t, s)

-- Two strings at different addresses.
unfoldable pub str_is_equal : Str → Str → Option Bool
unfolding c_str str_eq
str_is_equal s t = do a ← c_str s; b ← c_str t; some (str_eq a b)

unfoldable pub is_empty : Str → Option Bool
unfolding c_str
is_empty s = do t ← c_str s; some (length t == 0)

unfoldable pub copy : Str → Option Str
unfolding is_small strncpy
copy s = if is_small s then some s else do
  t ← c_str s
  c ← strncpy (uninit (add_size s.length 1)) t (add_size s.length 1)
  some (record { length = s.length; capacity = add_size s.length 1; buffers = large_buffer c })
