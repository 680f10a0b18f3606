-- ===== src/Text/Holds.antt =====
-- What a `tweak_variant_string` that the functions of tweak-common/src/tweakstring.c built holds.
use tweaktool.Common.{
  ℕ, ◌+◌, ◌^◌, ◌≤◌, ◌<◌, ◌≡◌, refl, ◌⊎◌, inl, inr, Option, some, [], ◌∷◌, length, replicate, leb,
  if◌then◌else◌, Bytes, IsText, arith, length-append, length-map, length-replicate,
}
use tweaktool.Text.{
  Str, store, small_buffer, large_buffer, inline_size, empty, is_small, cells, c_str, start,
  overcommit,
}
use tweaktool.Text.Memory.{Cells, nul, text_cells, holding, read_str-holding}

-- The size of the storage in use.
abbrev pub room : Str → ℕ
room s = if leb s.capacity inline_size then inline_size else s.capacity

pub record Holds (s : Str) (t : Bytes) (rest : Cells) : Type 0 where
  pub text : IsText t
  pub stored : cells s ≡ some (holding t rest)
  pub sized : length t + 1 + length rest ≡ room s
  pub counted : s.length ≡ length t
  pub known : (s.capacity ≡ 0) ⊎ (inline_size ≤ s.capacity)

pub length-holding :
    (t : Bytes) (rest : Cells) → length (holding t rest) ≡ length t + 1 + length rest
length-holding t rest =
    omega (arith, length-append (text_cells t) (nul ∷ rest), length-map t (λ c. some c))

-- A held text is what `c_str` gives.
pub c_str-Holds : (s : Str) (t : Bytes) (rest : Cells) → Holds s t rest → c_str s ≡ some t
unfolding c_str
c_str-Holds s t rest h = rw h.stored (read_str-holding t rest h.text)

pub empty-Holds : Holds empty [] (replicate 127 nul)
unfolding cells
empty-Holds = record {
  text = tt;
  stored = refl;
  sized = omega (arith, length-replicate 127 nul);
  counted = refl;
  known = inl refl;
}

start_cases :
    (s : Str)
    → ((start s ≡ s) × (0 < s.capacity))
      ⊎ ((s.capacity ≡ 0) × (start s ≡ record s { capacity = inline_size }))
start_cases s = ground arith

pub start-capacity : (s : Str) → (start s).capacity ≤ s.capacity + inline_size
start-capacity s = ground arith

pub start-Holds :
    (s : Str) (t : Bytes) (rest : Cells)
    → Holds s t rest
    → Holds (start s) t rest × (inline_size ≤ (start s).capacity)
unfolding cells is_small
start-Holds s t rest h =
    (ground (arith, start_cases s, h.sized, h.stored, h.text), ground (arith, h.known))

pub room-big : (s : Str) → inline_size ≤ s.capacity → room s ≡ s.capacity
room-big s big = ground arith

pub cells-store : (s : Str) (c : Cells) (n : ℕ) → cells (record (store s c) { length = n }) ≡ some c
unfolding cells is_small
cells-store s c n = ground arith

-- The storage that a text of that many bytes needs is there after `assign` or `append` enlarges it.
pub overcommit-lt :
    (n : ℕ) → inline_size < n → n < 2 ^ 62 → (n ≤ overcommit n) × (inline_size < overcommit n)
overcommit-lt n h k = omega arith

abbrev pub Result : Option Str → Bytes → Type 0
Result r t = (s : Str) × (rest : Cells) × (r ≡ some s) × Holds s t rest

pub large-Holds :
    (s : Str) (t : Bytes) (rest : Cells) (n : ℕ)
    → IsText t
    → s.length ≡ length t
    → inline_size < n
    → length t + 1 + length rest ≡ n
    → Holds (record s { capacity = n; buffers = large_buffer (holding t rest) }) t rest
unfolding cells is_small
large-Holds s t rest n ok counted big size = record {
  text = ok;
  stored = ground arith;
  sized = ground arith;
  counted = counted;
  known = inr (omega arith);
}

pub small-Holds :
    (t : Bytes) (rest : Cells)
    → IsText t
    → length t + 1 + length rest ≡ inline_size
    → Holds
        (record {
          length = length t;
          capacity = inline_size;
          buffers = small_buffer (holding t rest);
        })
        t
        rest
unfolding cells is_small
small-Holds t rest ok size = record {
  text = ok;
  stored = refl;
  sized = size;
  counted = refl;
  known = inr (omega arith);
}
