-- ===== src/Json/Placed.antt =====
-- What one call of the parser does under `tweak_json_parse` (tweak-json/src/tweakjson.c): a new node in the memory, at its
-- place in the parent.
use tweaktool.Common.{
  ℕ, suc, ◌<◌, ◌≡◌, refl, sym, ◌∙◌, ap, false, some, List, [], ◌∷◌, ◌++◌, length, length-append,
  set, length-set, get_elem?, get_elem?-set_self, get_elem?-set_ne, if_false, Bytes, arith,
}
use tweaktool.Json.{Node}
use tweaktool.Json.Build.{
  Cell, Context, put_cookie, create_new_node, add_element_to_array, names, has_name, stored_name,
  add_element_to_object, attach, attach_new, enter_callback,
}
use tweaktool.Json.Calls.{kind, passed, call, get-append, get-last, put_other, IsRun}

abbrev pub blank : Node → Cell
blank x = create_new_node (kind x) (passed x)

-- The new node behind the others, and the cell of the parent with the new node in it.
abbrev pub placed : Context → ℕ → ℕ → Cell → Node → Context
placed c d a cell x = record c {
  heap = set (c.heap ++ (blank x ∷ [])) a cell;
  cookies = put_cookie (suc d) (some (length c.heap)) c.cookies;
  was_error = false;
}

pub placed-IsRun :
    (c : Context) (d a : ℕ) (cell : Cell) (x : Node) → IsRun (suc d) a c (placed c d a cell x)
placed-IsRun c d a cell x = record {
  was_error = refl;
  document = refl;
  cookies = λ i h.
      put_other (suc d) (some (length c.heap)) c.cookies i (λ e. absurd (omega (arith, e, h)));
  size =
      omega
        (arith, length-set (c.heap ++ (blank x ∷ [])) a cell, length-append c.heap (blank x ∷ []));
  others = λ i y h e.
      get_elem?-set_ne (c.heap ++ (blank x ∷ [])) cell (λ q. h (sym q))
      ∙ get-append c.heap (blank x ∷ []) i y e;
}

pub placed_parent :
    (c : Context) (d a : ℕ) (cell : Cell) (x : Node)
    → a < length c.heap
    → get_elem? (placed c d a cell x).heap a ≡ some cell
placed_parent c d a cell x h =
    get_elem?-set_self (c.heap ++ (blank x ∷ [])) a cell
      (omega (arith, h, length-append c.heap (blank x ∷ [])))

pub placed_child :
    (c : Context) (d a : ℕ) (cell : Cell) (x : Node)
    → a < length c.heap
    → get_elem? (placed c d a cell x).heap (length c.heap) ≡ some (blank x)
placed_child c d a cell x h =
    get_elem?-set_ne (c.heap ++ (blank x ∷ [])) cell (λ e. absurd (omega (arith, e, h)))
    ∙ get-last c.heap (blank x)

module _ (P : ℕ → Bytes) where
  entered :
      (c : Context) (d a : ℕ) (name : Bytes) (x : Node) (cell : Cell)
      → c.was_error ≡ false
      → c.cookies d ≡ some a
      → get_elem? c.heap a ≡ some cell
      → enter_callback P (call (suc d) name x) c
        ≡ attach P
            (call (suc d) name x)
            (length c.heap)
            a
            (some cell)
            (record c { heap = c.heap ++ (blank x ∷ []) })
  unfolding enter_callback attach_new
  entered c d a name x cell w ck g =
      let e = call (suc d) name x in
      let n = length c.heap in
      let c1 = record c { heap = c.heap ++ (blank x ∷ []) } in
      if_false c.was_error c (attach_new P e n (c.cookies d) c1) w
      ∙ ap (λ p. attach_new P e n p c1) ck
      ∙ ap (λ o. attach P e n a o c1) (get-append c.heap (blank x ∷ []) a cell g)

  pub entered_array :
      (c : Context) (d a : ℕ) (name : Bytes) (x : Node) (items : List ℕ)
      → c.was_error ≡ false
      → c.cookies d ≡ some a
      → get_elem? c.heap a ≡ some (Cell.array items)
      → enter_callback P (call (suc d) name x) c
        ≡ placed c d a (Cell.array (items ++ (length c.heap ∷ []))) x
  unfolding attach add_element_to_array
  entered_array c d a name x items w ck g =
      entered c d a name x (Cell.array items) w ck g
      ∙ ap
          (λ b. record (placed c d a (Cell.array (items ++ (length c.heap ∷ []))) x) {
            was_error = b;
          })
          w

  pub entered_object :
      (c : Context) (d a : ℕ) (name : Bytes) (x : Node) (fields : List (Bytes × ℕ))
      → c.was_error ≡ false
      → c.cookies d ≡ some a
      → get_elem? c.heap a ≡ some (Cell.object fields)
      → has_name (names fields) name ≡ false
      → enter_callback P (call (suc d) name x) c
        ≡ placed c d a (Cell.object (fields ++ ((name, length c.heap) ∷ []))) x
  unfolding attach add_element_to_object stored_name
  entered_object c d a name x fields w ck g fresh =
      entered c d a name x (Cell.object fields) w ck g
      ∙ ap (λ k. placed c d a (Cell.object (fields ++ ((k, length c.heap) ∷ []))) x)
          (if_false (has_name (names fields) name) _ name fresh)
