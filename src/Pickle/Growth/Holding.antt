-- ===== src/Pickle/Growth/Holding.antt =====
-- tweak-pickle/src/tweakpickle_pb_util.c: blocks of memory that begin with elements, and their moves.
use tweaktool.Common.{
  ℕ, ◌+◌, ◌-◌, ◌≤◌, ◌<◌, ◌≡◌, sym, ◌∙◌, ap, Bool, true, some, List, [], ◌∷◌, ◌++◌, length, take,
  drop, leb, arith, length-append, length-map, length-drop,
}
use mathlib.Core.List.{map-append, append_assoc}
use tweaktool.Text.Memory.{
  Cells, uninit, text_cells, blit_text, overwrite_lem, take-all, take-length_append, length-uninit,
}
use tweaktool.Pickle.Growth.{Block, Growing, union, move_out, resize, put_value}

-- A buffer that holds elements in front of other cells.
abbrev pub holding : Bool → ℕ → List ℕ → Cells → Growing
holding is_small capacity vs rest = record {
  size = length vs;
  count = length vs;
  capacity = capacity;
  buffers = union is_small (text_cells vs ++ rest);
}

pub put_value_lem :
    (is_small : Bool) (old capacity v : ℕ) (vs : List ℕ) (b : Block) (rest : Cells)
    → 0 < length rest
    → put_value is_small capacity v
        (record { size = length vs; count = length vs; capacity = old; buffers = b })
        (text_cells vs ++ rest)
      ≡ some (holding is_small capacity (vs ++ (v ∷ [])) (drop 1 rest))
unfolding put_value
put_value_lem is_small old capacity v vs b rest h =
    let counts : length vs + 1 ≡ length (vs ++ (v ∷ [])) =
      omega (arith, length-append vs (v ∷ [])) in
    let cells : text_cells vs ++ ((some v ∷ []) ++ drop 1 rest)
        ≡ text_cells (vs ++ (v ∷ [])) ++ drop 1 rest =
      simp (map-append, append_assoc) in
    rw (blit_text vs rest (some v ∷ []) (omega (arith, h))) (λ i. some (record {
      size = counts i;
      count = counts i;
      capacity = capacity;
      buffers = union is_small (cells i);
    }))

taken_lem : (vs : List ℕ) (rest : Cells) → take (length vs) (text_cells vs ++ rest) ≡ text_cells vs
taken_lem vs rest =
    ap (λ n. take n (text_cells vs ++ rest)) (sym (length-map vs (λ x. some x)))
    ∙ take-length_append (text_cells vs) rest

pub move_out_lem :
    (room : ℕ) (vs : List ℕ) (rest : Cells)
    → length vs ≤ room
    → move_out room (length vs) (text_cells vs ++ rest)
      ≡ some (text_cells vs ++ drop (length vs) (uninit room))
unfolding move_out
move_out_lem room vs rest h =
    let enough : leb (length vs) (length (text_cells vs ++ rest)) ≡ true =
      ground (arith, length-append (text_cells vs) rest, length-map vs (λ x. some x)) in
    let taken : take (length vs) (text_cells vs ++ rest) ≡ text_cells vs = taken_lem vs rest in
    let sizes : length (text_cells vs) ≡ length vs = length-map vs (λ x. some x) in
    rw (enough, taken)
      (overwrite_lem (uninit room) (text_cells vs) (omega (arith, sizes, length-uninit room, h))
        ∙ ap (λ n. some (text_cells vs ++ drop n (uninit room))) sizes)

pub resize_lem :
    (room : ℕ) (vs : List ℕ) (rest : Cells)
    → length vs + length rest ≤ room
    → resize room (text_cells vs ++ rest)
      ≡ text_cells vs ++ (rest ++ uninit (room - (length vs + length rest)))
resize_lem room vs rest h =
    let sizes : length (text_cells vs ++ rest) ≡ length vs + length rest =
      omega (arith, length-append (text_cells vs) rest, length-map vs (λ x. some x)) in
    rw (take-all room (text_cells vs ++ rest) (omega (arith, sizes, h)), sizes)
      (ap (λ n. (text_cells vs ++ rest) ++ uninit (room - n)) (omega (arith, h))
        ∙ append_assoc (text_cells vs) rest (uninit (room - (length vs + length rest))))

pub one_less :
    (v : ℕ) (vs : List ℕ) (rest : Cells) (n : ℕ)
    → length vs + length rest ≡ n
    → 0 < length rest
    → length (vs ++ (v ∷ [])) + length (drop 1 rest) ≡ n
one_less v vs rest n e h = omega (arith, e, h, length-append vs (v ∷ []), length-drop 1 rest)
