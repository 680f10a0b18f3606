-- ===== src/Pickle/Growth/Appended.antt =====
-- tweak-pickle/src/tweakpickle_pb_util.c: the elements that are appended to the buffer of a vector.
use tweaktool.Common.{
  ℕ, ◌+◌, ◌-◌, ◌*◌, ◌/◌, ◌≤◌, ◌<◌, ◌≡◌, refl, sym, ◌∙◌, ap, Bool, true, false, Option, some, List,
  [], ◌∷◌, ◌++◌, length, drop, replicate, ltb, leb, ◌==◌, if◌then◌else◌, arith, Bool-cases, inl,
  inr, ◌⊎◌, length-append, length-drop, length-replicate, subst,
}
use mathlib.Core.List.{append_assoc, append-nil}
use tweaktool.Text.Memory.{Cells, uninit, text_cells, length-uninit}
use tweaktool.Pickle.Growth.{
  small_buffer, large_buffer, Growing, member, union, zeroed, get_data, append_value, append_values,
}
use tweaktool.Pickle.Growth.Holding.{holding, put_value_lem, move_out_lem, resize_lem, one_less}

module _ (small_capacity : ℕ) where
  -- The large block is in use exactly above the small capacity.
  abbrev Fills : Bool → ℕ → ℕ → ℕ → Type 0
  Fills false count left capacity = (small_capacity < count) × (count + left ≡ capacity)
  Fills true count left capacity =
      (count + left ≡ small_capacity) × ((capacity ≡ 0) ⊎ (capacity ≡ small_capacity))

  -- One more element.
  abbrev Appends : ℕ → List ℕ → Growing → Type 0
  Appends v vs g =
      (is_small : Bool) × (capacity : ℕ) × (rest : Cells) × (append_value small_capacity v g
        ≡ some (holding is_small capacity (vs ++ (v ∷ [])) rest))
      × Fills is_small (length (vs ++ (v ∷ []))) (length rest) capacity

  -- `tweak_buffer_get_data` finds the block in use.
  in_use :
      (is_small : Bool) (capacity : ℕ) (vs : List ℕ) (rest : Cells)
      → Fills is_small (length vs) (length rest) capacity
      → leb (length vs) small_capacity ≡ is_small
  in_use true capacity vs rest k = ground (arith, k)
  in_use false capacity vs rest k = ground (arith, k)

  module _ (two : 2 ≤ small_capacity) where
    grow_large :
        (capacity v : ℕ) (vs : List ℕ) (rest : Cells)
        → Fills false (length vs) (length rest) capacity
        → ltb capacity (length vs + 1) ≡ true
        → Appends v vs (holding false capacity vs rest)
    unfolding append_value
    grow_large capacity v vs rest k full =
        let grown : ℕ = capacity * 3 / 2 in
        let fits : length vs + length rest < grown = ground (arith, full, k) in
        let new : Cells = rest ++ uninit (grown - (length vs + length rest)) in
        let size : length vs + length new ≡ grown = omega (
          arith,
          length-append rest (uninit (grown - (length vs + length rest))),
          length-uninit (grown - (length vs + length rest)),
          fits,
        ) in
        let some_room : (capacity == 0) ≡ false = ground (arith, k) in
        let large : leb capacity small_capacity ≡ false = ground (arith, k) in
        (
          false,
          grown,
          drop 1 new,
          rw (some_room, full, large, resize_lem grown vs rest (omega (arith, fits)))
              (put_value_lem false capacity grown v vs (large_buffer (text_cells vs ++ rest)) new
                (omega (arith, size, full, fits))),
          (
            omega (arith, k, length-append vs (v ∷ [])),
            one_less v vs new grown size (omega (arith, size, fits)),
          ),
        )

    keep_large :
        (capacity v : ℕ) (vs : List ℕ) (rest : Cells)
        → Fills false (length vs) (length rest) capacity
        → ltb capacity (length vs + 1) ≡ false
        → Appends v vs (holding false capacity vs rest)
    unfolding append_value
    keep_large capacity v vs rest k room =
        let left : 0 < length rest = ground (arith, room, k) in
        let some_room : (capacity == 0) ≡ false = ground (arith, k) in
        let large : leb (length vs) small_capacity ≡ false = ground (arith, k) in
        (
          false,
          capacity,
          drop 1 rest,
          rw (some_room, room, large)
              (put_value_lem false capacity capacity v vs (large_buffer (text_cells vs ++ rest))
                rest left),
          (omega (arith, k, length-append vs (v ∷ [])), one_less v vs rest capacity k.1 left),
        )

    -- The capacity that an unused or a full small buffer stands for.
    small_room :
        (capacity : ℕ)
        → (capacity ≡ 0) ⊎ (capacity ≡ small_capacity)
        → ((if capacity == 0 then small_capacity else capacity) ≡ small_capacity)
          × (leb capacity small_capacity ≡ true)
    small_room capacity h = ground (arith, h)

    grow_small :
        (capacity v : ℕ) (vs : List ℕ) (rest : Cells)
        → Fills true (length vs) (length rest) capacity
        → ltb small_capacity (length vs + 1) ≡ true
        → Appends v vs (holding true capacity vs rest)
    unfolding append_value
    grow_small capacity v vs rest k full =
        let grown : ℕ = small_capacity * 3 / 2 in
        let new : Cells = drop (length vs) (uninit grown) in
        let whole : length vs ≡ small_capacity = ground (arith, full, k) in
        let size : length vs + length new ≡ grown =
          omega (arith, length-drop (length vs) (uninit grown), length-uninit grown, whole, two) in
        (
          false,
          grown,
          drop 1 new,
          rw
              (
                (small_room capacity k.1).0,
                full,
                (small_room capacity k.1).1,
                move_out_lem grown vs rest (omega (arith, whole)),
              )
              (put_value_lem false capacity grown v vs (small_buffer (text_cells vs ++ rest)) new
                (omega (arith, size, whole, two))),
          (
            omega (arith, whole, length-append vs (v ∷ [])),
            one_less v vs new grown size (omega (arith, size, whole, two)),
          ),
        )

    keep_small :
        (capacity v : ℕ) (vs : List ℕ) (rest : Cells)
        → Fills true (length vs) (length rest) capacity
        → ltb small_capacity (length vs + 1) ≡ false
        → Appends v vs (holding true capacity vs rest)
    unfolding append_value
    keep_small capacity v vs rest k room =
        let left : 0 < length rest = ground (arith, room, k) in
        let small : leb (length vs) small_capacity ≡ true = ground (arith, k) in
        (
          true,
          small_capacity,
          drop 1 rest,
          rw ((small_room capacity k.1).0, room, small)
              (put_value_lem true capacity small_capacity v vs
                (small_buffer (text_cells vs ++ rest)) rest left),
          (one_less v vs rest small_capacity k.0 left, inr refl),
        )

    append_value_lem :
        (is_small : Bool) (capacity v : ℕ) (vs : List ℕ) (rest : Cells)
        → Fills is_small (length vs) (length rest) capacity
        → Appends v vs (holding is_small capacity vs rest)
    append_value_lem false capacity v vs rest k = elim (Bool-cases (ltb capacity (length vs + 1))) [
      | inl full ↦ grow_large capacity v vs rest k full
      | inr room ↦ keep_large capacity v vs rest k room
    ]
    append_value_lem true capacity v vs rest k =
        elim (Bool-cases (ltb small_capacity (length vs + 1))) [
          | inl full ↦ grow_small capacity v vs rest k full
          | inr room ↦ keep_small capacity v vs rest k room
        ]

    append_values_from :
        (ws : List ℕ) (is_small : Bool) (capacity : ℕ) (vs : List ℕ) (rest : Cells)
        → Fills is_small (length vs) (length rest) capacity
        → (small2 : Bool) × (capacity2 : ℕ) × (rest2 : Cells) × (append_values small_capacity ws
              (holding is_small capacity vs rest)
            ≡ some (holding small2 capacity2 (vs ++ ws) rest2))
          × Fills small2 (length (vs ++ ws)) (length rest2) capacity2
    unfolding append_values
    append_values_from [] is_small capacity vs rest k =
        let same : vs ≡ vs ++ [] = sym (append-nil vs) in
        (
          is_small,
          capacity,
          rest,
          ap (λ l. some (holding is_small capacity l rest)) same,
          subst (λ l. Fills is_small (length l) (length rest) capacity) same k,
        )
    append_values_from (w ∷ ws) is_small capacity vs rest k =
        let (small2, capacity2, rest2, e, k2) = append_value_lem is_small capacity w vs rest k in
        let (small3, capacity3, rest3, f, k3) =
          append_values_from ws small2 capacity2 (vs ++ (w ∷ [])) rest2 k2 in
        let same : (vs ++ (w ∷ [])) ++ ws ≡ vs ++ (w ∷ ws) = append_assoc vs (w ∷ []) ws in
        (
          small3,
          capacity3,
          rest3,
          rw e (f ∙ ap (λ l. some (holding small3 capacity3 l rest3)) same),
          subst (λ l. Fills small3 (length l) (length rest3) capacity3) same k3,
        )

    -- Elements that are appended in turn to a zeroed buffer, whose small block holds at least two of them, are
    -- never written past the end of a block or over the wrong member of the union. The block where
    -- `tweak_buffer_get_data` looks then begins with all of them, in order, and size and count are their number.
    pub append_values_lem :
        (vs : List ℕ)
        → (h : Growing) × (rest : Cells) × (append_values small_capacity vs (zeroed small_capacity)
            ≡ some h)
          × (h.count ≡ length vs)
          × (h.size ≡ length vs)
          × (get_data small_capacity h ≡ some (text_cells vs ++ rest))
    append_values_lem vs =
        let (is_small, capacity, rest, e, k) =
          append_values_from vs true 0 [] (replicate small_capacity (some 0))
            (omega (arith, length-replicate {A = Option ℕ} small_capacity (some 0)), inl refl) in
        (
          holding is_small capacity vs rest,
          rest,
          e,
          refl,
          refl,
          ap (λ b. member b (union is_small (text_cells vs ++ rest)))
                (in_use is_small capacity vs rest k)
              ∙ found is_small (text_cells vs ++ rest),
        )
      where
        found : (b : Bool) (c : Cells) → member b (union b c) ≡ some c
        found true c = refl
        found false c = refl
