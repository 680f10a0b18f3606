-- ===== src/Pickle/Growth.antt =====
-- `append_..._value_to_buffer` of tweak-pickle/src/tweakpickle_pb_util.c: the buffer of a vector that is read
-- from a message. A cell of memory is an element, `none` when it is uninitialised, and sizes are counted in elements.
-- A read or write past the end of a block, or a use of the member of the union that was not written last, is
-- `none`. malloc and realloc succeed.
pub mod Holding
pub mod Appended
use tweaktool.Common.{
  ℕ, zero, suc, ◌+◌, ◌-◌, ◌*◌, ◌/◌, ◌≤◌, ◌<◌, ◌≡◌, refl, sym, ◌∙◌, ap, Bool, true, false, Option,
  none, some, List, [], ◌∷◌, ◌++◌, length, take, drop, replicate, min, ltb, leb, ◌==◌,
  if◌then◌else◌, ◌>>=◌, arith, Bool-cases, inl, inr, ◌⊎◌, length-append, length-map, length-drop,
  length-replicate, subst,
}
use mathlib.Core.List.{map-append, append_assoc, append-nil}
use tweaktool.Text.Memory.{
  Cells, uninit, text_cells, blit, blit_text, overwrite_lem, take-all, take-length_append,
  length-uninit,
}

-- The union of `struct tweak_variant_buffer`, with the member that was written last.
pub data Block : Type 0 where
  small_buffer : Cells → Block
  large_buffer : Cells → Block

-- The buffer, with the count and the capacity of the loop that fills it.
pub record Growing : Type 0 where
  pub size : ℕ
  pub count : ℕ
  pub capacity : ℕ
  pub buffers : Block

abbrev pub member : Bool → Block → Option Cells
member true (small_buffer c) = some c
member true (large_buffer c) = none
member false (small_buffer c) = none
member false (large_buffer c) = some c

abbrev pub union : Bool → Cells → Block
union true c = small_buffer c
union false c = large_buffer c

-- `memcpy(large_buffer, target->buffers.small_buffer, target->size)` into a new block.
unfoldable pub move_out : ℕ → ℕ → Cells → Option Cells
unfolding blit
move_out room size c = if leb size (length c) then blit (uninit room) 0 (take size c) else none

-- `realloc`
abbrev pub resize : ℕ → Cells → Cells
resize room c = take room c ++ uninit (room - min room (length c))

-- `data[new_count - 1] = value` and the new sizes.
unfoldable pub put_value : Bool → ℕ → ℕ → Growing → Cells → Option Growing
unfolding blit
put_value is_small capacity value g block = do
  d ← blit block g.count (some value ∷ [])
  some (record {
    size = g.count + 1;
    count = g.count + 1;
    capacity = capacity;
    buffers = union is_small d;
  })

-- `small_capacity` is `small_buffer_capacity`, the elements that the buffer inside the struct holds.
module _ (small_capacity : ℕ) where
  -- `struct tweak_variant_buffer result = { 0 }`
  abbrev pub zeroed : Growing
  zeroed = record {
    size = 0;
    count = 0;
    capacity = 0;
    buffers = small_buffer (replicate small_capacity (some 0));
  }

  -- `tweak_buffer_get_data`
  abbrev pub get_data : Growing → Option Cells
  get_data g = member (leb g.size small_capacity) g.buffers

  unfoldable pub append_value : ℕ → Growing → Option Growing
  unfolding move_out put_value
  append_value value g =
      let new_capacity = if g.capacity == 0 then small_capacity else g.capacity in
      let grown = new_capacity * 3 / 2 in
      if ltb new_capacity (g.count + 1)
      then ((if leb g.capacity small_capacity
            then (member true g.buffers >>= move_out grown g.size)
            else (member false g.buffers >>= λ c. some (resize grown c)))
          >>= put_value false grown value g)
      else (get_data g >>= put_value (leb g.size small_capacity) new_capacity value g)

  unfoldable pub append_values : List ℕ → Growing → Option Growing
  unfolding append_value
  append_values [] g = some g
  append_values (v ∷ vs) g = append_value v g >>= λ h. append_values vs h
