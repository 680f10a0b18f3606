-- ===== src/Text/Memory.antt =====
-- The C library's `strncpy`, `memcpy` and the reading of a C string, over lists of cells.
use tweaktool.Common.{
  ℕ, zero, suc, ◌-◌, ◌≤◌, ◌<◌, ◌≡◌, refl, ap, Option, none, some, List, [], ◌∷◌, ◌++◌, map, length,
  take, drop, replicate, ◌==◌, if◌then◌else◌, Bytes, IsText, arith, length-append, length-map,
  ◌>>=◌, length-replicate, subst, ◌+◌, length-drop,
}
use mathlib.Core.List.{append_assoc}

abbrev pub Cells : Type 0
Cells = List (Option ℕ)

-- The terminator.
abbrev pub nul : Option ℕ
nul = some 0

-- A block as `malloc` returns it.
abbrev pub uninit : ℕ → Cells
uninit n = replicate n none

abbrev pub text_cells : Bytes → Cells
text_cells s = map (λ c. some c) s

-- Stores from the start of the block; `none` if they run past its end.
unfoldable pub overwrite : Cells → Cells → Option Cells
overwrite cs [] = some cs
overwrite [] (x ∷ xs) = none
overwrite (c ∷ cs) (x ∷ xs) = do r ← overwrite cs xs; some (x ∷ r)

-- `memcpy(&block[offset], source, n)`.
unfoldable pub blit : Cells → ℕ → Cells → Option Cells
blit cs zero src = overwrite cs src
blit [] (suc n) src = none
blit (c ∷ cs) (suc n) src = do r ← blit cs n src; some (c ∷ r)

-- `strncpy(block, source, n)`: the text, cut at `n` bytes or padded to `n` bytes with zeros.
unfoldable pub strncpy : Cells → Bytes → ℕ → Option Cells
strncpy block source n =
    overwrite block (take n (text_cells source) ++ replicate (n - length source) (nul))

-- The bytes up to the terminator; `none` if an uninitialised cell or the block's end comes first.
unfoldable pub read_str : Cells → Option Bytes
read_str [] = none
read_str (none ∷ cs) = none
read_str (some c ∷ cs) = if c == 0 then some [] else (read_str cs >>= λ s. some (c ∷ s))

-- A block that holds a text, its terminator, and anything behind it.
abbrev pub holding : Bytes → Cells → Cells
holding s rest = text_cells s ++ nul ∷ rest

pub read_str-holding : (s : Bytes) (rest : Cells) → IsText s → read_str (holding s rest) ≡ some s
unfolding read_str
read_str-holding [] rest h = refl
read_str-holding (c ∷ s) rest h = ground (arith, read_str-holding s rest h.1)

pub overwrite_lem :
    (cs src : Cells)
    → length src ≤ length cs
    → overwrite cs src ≡ some (src ++ drop (length src) cs)
unfolding overwrite
overwrite_lem cs [] h = refl
overwrite_lem [] (x ∷ xs) h = elim h [ ]
overwrite_lem (c ∷ cs) (x ∷ xs) h = rw (overwrite_lem cs xs (omega arith))

pub blit_lem :
    (p cs src : Cells)
    → length src ≤ length cs
    → blit (p ++ cs) (length p) src ≡ some (p ++ (src ++ drop (length src) cs))
unfolding blit
blit_lem [] cs src h = overwrite_lem cs src h
blit_lem (c ∷ p) cs src h = rw (blit_lem p cs src h)

pub blit_text :
    (t : Bytes) (cs src : Cells)
    → length src ≤ length cs
    → blit (text_cells t ++ cs) (length t) src
      ≡ some (text_cells t ++ (src ++ drop (length src) cs))
blit_text t cs src h =
    subst
      (λ k. blit (text_cells t ++ cs) k src ≡ some (text_cells t ++ (src ++ drop (length src) cs)))
      (length-map t (λ c. some c)) (blit_lem (text_cells t) cs src h)

pub length-uninit : (n : ℕ) → length (uninit n) ≡ n
length-uninit n = length-replicate {A = Option ℕ} n none

pub take-all {ℓ} : {A : Type ℓ} (n : ℕ) (xs : List A) → length xs ≤ n → take n xs ≡ xs
take-all zero [] h = refl
take-all zero (x ∷ xs) h = absurd (omega arith)
take-all (suc n) [] h = refl
take-all (suc n) (x ∷ xs) h = ap (λ r. x ∷ r) (take-all n xs (omega arith))

pub take-length_append {ℓ} : {A : Type ℓ} (xs ys : List A) → take (length xs) (xs ++ ys) ≡ xs
take-length_append [] ys = refl
take-length_append (x ∷ xs) ys = ap (λ r. x ∷ r) (take-length_append xs ys)

pub take-holding : (t : Bytes) (rest : Cells) → take (length t) (holding t rest) ≡ text_cells t
take-holding t rest =
    subst (λ k. take k (holding t rest) ≡ text_cells t) (length-map t (λ c. some c))
      (take-length_append (text_cells t) (nul ∷ rest))

replicate-suc {ℓ} : {A : Type ℓ} (a : A) (n : ℕ) → 0 < n → replicate n a ≡ a ∷ replicate (n - 1) a
replicate-suc a zero h = elim h [ ]
replicate-suc a (suc n) h = ap (λ k. a ∷ replicate k a) (omega arith)

-- What `strncpy` leaves behind the terminator.
abbrev pub strncpy_rest : Cells → Bytes → ℕ → Cells
strncpy_rest block s n = replicate (n - length s - 1) (nul) ++ drop n block

pub length-strncpy_rest :
    (block : Cells) (s : Bytes) (n : ℕ)
    → length (strncpy_rest block s n) ≡ n - length s - 1 + (length block - n)
length-strncpy_rest block s n = omega (
  arith,
  length-append (replicate (n - length s - 1) nul) (drop n block),
  length-replicate (n - length s - 1) nul,
  length-drop n block,
)

pub strncpy_lem :
    (block : Cells) (s : Bytes) (n : ℕ)
    → length s < n
    → n ≤ length block
    → strncpy block s n ≡ some (holding s (strncpy_rest block s n))
unfolding strncpy
strncpy_lem block s n h k =
    rw
      (
        take-all n (text_cells s) (omega (arith, length-map s (λ c. some c))),
        replicate-suc (nul) (n - length s) (omega arith),
        overwrite_lem block stored (omega (arith, stored_length)),
        stored_length,
      )
      (ap some (append_assoc (text_cells s) (nul ∷ padding) (drop n block)))
  where
    padding : Cells
    padding = replicate (n - length s - 1) (nul)

    stored : Cells
    stored = text_cells s ++ nul ∷ padding

    stored_length : length stored ≡ n
    stored_length = omega (
      arith,
      length-append (text_cells s) (nul ∷ padding),
      length-map s (λ c. some c),
      length-replicate (n - length s - 1) (nul),
    )
