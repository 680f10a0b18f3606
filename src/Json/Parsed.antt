-- ===== src/Json/Parsed.antt =====
-- `tweak_json_parse` (tweak-json/src/tweakjson.c) builds the document whose calls it gets.
use tweaktool.Common.{
  ℕ, suc, ◌<◌, ◌≡◌, inl, inr, refl, sym, ◌∙◌, ap, subst, Bool, true, false, Option, none, some,
  List, [], ◌∷◌, ◌++◌, length, get_elem?, if◌then◌else◌, if_true, not, ◌&&◌, Bool-cases, Bytes,
  arith,
}
use mathlib.Core.List.{append-nil}
use tweaktool.Json.{Node, Items, Fields, nil, cons, end, field}
use tweaktool.Json.Build.{
  Cell, Heap, Call, Context, put_cookie, create_new_node, names, attach_new, enter_callback, run,
  start, parse,
}
use tweaktool.Json.Stored.{Stores}
use tweaktool.Json.Calls.{
  inner, item_calls, field_calls, document_calls, run-append, in_range, put_self, IsRun,
  HasDistinctNames,
}
use tweaktool.Json.Stored.{items_kept, fields_kept}
use tweaktool.Json.Calls.{ItemsDistinct, FieldsDistinct}
use tweaktool.Json.Placed.{blank, placed, placed_child, entered_array, entered_object}
use tweaktool.Json.Built.{
  built, same-Keeps, IsRun-refl, names-append, ItemsBuilt, FieldsBuilt, items_step, fields_step,
}

-- A node whose calls have been made for all that is inside.
abbrev pub InnerBuilt : ℕ → ℕ → Context → Node → Context → Type 0
InnerBuilt d a c n k = IsRun (suc d) a c k × Stores a k.heap a n

mutual
  unfolding Stores inner HasDistinctNames run create_new_node

  inner_built :
      (P : ℕ → Bytes) (n : Node) (d a : ℕ) (c : Context)
      → c.was_error ≡ false
      → c.cookies d ≡ some a
      → get_elem? c.heap a ≡ some (blank n)
      → HasDistinctNames n
      → InnerBuilt d a c n (run P (inner d n) c)
  inner_built P Node.null d a c w ck g h = (IsRun-refl (suc d) a c w, (omega arith, g))
  inner_built P (Node.string s) d a c w ck g h = (IsRun-refl (suc d) a c w, (omega arith, g))
  inner_built P (Node.bool s) d a c w ck g h = (IsRun-refl (suc d) a c w, (omega arith, g))
  inner_built P (Node.number s) d a c w ck g h = (IsRun-refl (suc d) a c w, (omega arith, g))
  inner_built P (Node.array xs) d a c w ck g h =
      let r = items_built P xs d a c [] w ck g h in
      let k = run P (item_calls (suc d) xs) c in
      (
        r.run,
        (
          omega arith,
          (
            r.added,
            r.parent,
            items_kept (length c.heap) a k.heap k.heap r.added xs
                (omega (arith, in_range c.heap a _ g)) (same-Keeps (length c.heap) k.heap) r.stored,
          ),
        ),
      )
  inner_built P (Node.object fs) d a c w ck g h =
      let r = fields_built P fs d a c [] w ck g h in
      let k = run P (field_calls (suc d) fs) c in
      (
        r.run,
        (
          omega arith,
          (
            r.added,
            r.parent,
            fields_kept (length c.heap) a k.heap k.heap r.added fs
                (omega (arith, in_range c.heap a _ g)) (same-Keeps (length c.heap) k.heap) r.stored,
          ),
        ),
      )

  items_built :
      (P : ℕ → Bytes) (xs : Items) (d a : ℕ) (c : Context) (items : List ℕ)
      → c.was_error ≡ false
      → c.cookies d ≡ some a
      → get_elem? c.heap a ≡ some (Cell.array items)
      → ItemsDistinct xs
      → ItemsBuilt c d a items xs (run P (item_calls (suc d) xs) c)
  items_built P nil d a c items w ck g h = record {
    run = IsRun-refl (suc d) a c w;
    added = [];
    parent = g ∙ ap (λ ptrs. some (Cell.array ptrs)) (sym (append-nil items));
    stored = tt;
  }
  items_built P (cons x xs) d a c items w ck g h =
      let n = length c.heap in
      let wide = items ++ (n ∷ []) in
      let c1 = placed c d a (Cell.array wide) x in
      let k = run P (inner (suc d) x) c1 in
      let lt : a < n = in_range c.heap a (Cell.array items) g in
      let i =
        inner_built P x (suc d) n c1 refl (put_self (suc d) (some n) c.cookies)
          (placed_child c d a (Cell.array wide) x lt) h.0 in
      let b = built c k d a (Cell.array wide) x lt i.0 i.1 in
      let r =
        items_built P xs d a k wide b.run.was_error (b.run.cookies d (omega arith) ∙ ck) b.parent
          h.1 in
      let eq =
        ap (run P (inner (suc d) x ++ item_calls (suc d) xs))
          (entered_array P c d a [] x items w ck g)
        ∙ run-append P (inner (suc d) x) (item_calls (suc d) xs) c1 in
      subst (ItemsBuilt c d a items (cons x xs)) (sym eq)
        (items_step c k (run P (item_calls (suc d) xs) k) d a items x xs lt b r)

  fields_built :
      (P : ℕ → Bytes) (fs : Fields) (d a : ℕ) (c : Context) (fields : List (Bytes × ℕ))
      → c.was_error ≡ false
      → c.cookies d ≡ some a
      → get_elem? c.heap a ≡ some (Cell.object fields)
      → FieldsDistinct (names fields) fs
      → FieldsBuilt c d a fields fs (run P (field_calls (suc d) fs) c)
  fields_built P end d a c fields w ck g h = record {
    run = IsRun-refl (suc d) a c w;
    added = [];
    parent = g ∙ ap (λ ptrs. some (Cell.object ptrs)) (sym (append-nil fields));
    stored = tt;
  }
  fields_built P (field name x fs) d a c fields w ck g h =
      let n = length c.heap in
      let wide = fields ++ ((name, n) ∷ []) in
      let c1 = placed c d a (Cell.object wide) x in
      let k = run P (inner (suc d) x) c1 in
      let lt : a < n = in_range c.heap a (Cell.object fields) g in
      let i =
        inner_built P x (suc d) n c1 refl (put_self (suc d) (some n) c.cookies)
          (placed_child c d a (Cell.object wide) x lt) h.1 in
      let b = built c k d a (Cell.object wide) x lt i.0 i.1 in
      let r =
        fields_built P fs d a k wide b.run.was_error (b.run.cookies d (omega arith) ∙ ck) b.parent
          (subst (λ ks. FieldsDistinct ks fs) (sym (names-append fields name n)) h.2) in
      let eq =
        ap (run P (inner (suc d) x ++ field_calls (suc d) fs))
          (entered_object P c d a name x fields w ck g h.0)
        ∙ run-append P (inner (suc d) x) (field_calls (suc d) fs) c1 in
      subst (FieldsBuilt c d a fields (field name x fs)) (sym eq)
        (fields_step c k (run P (field_calls (suc d) fs) k) d a fields name x fs lt b r)

returned : (b : Bool) (p : Option ℕ) → b ≡ false → p ≡ some 0 → (if not b then p else none) ≡ some 0
returned b p e q = rw (e, q) refl

-- From the calls for a document in which no object has two fields of one name, made from the root on and every allocation
-- succeeding, the parse returns a pointer, and the memory behind it holds the document.
pub parse-Stores :
    (P : ℕ → Bytes) (n : Node)
    → HasDistinctNames n
    → (h : Heap) × (parse P true (document_calls n) ≡ (h, some 0)) × Stores 0 h 0 n
unfolding parse run enter_callback attach_new
parse-Stores P n h =
    let root : Context = record {
      heap = blank n ∷ [];
      cookies = put_cookie 0 (some 0) (λ i. none);
      document = some 0;
      was_error = false;
    } in
    let r = inner_built P n 0 0 root refl refl refl h in
    let k = run P (inner 0 n) root in
    (
      k.heap,
      ap (λ p. (k.heap, p)) (returned k.was_error k.document r.0.was_error r.0.document),
      r.1,
    )

run_failed :
    (P : ℕ → Bytes) (es : List Call) (c : Context)
    → c.was_error ≡ true
    → (run P es c).was_error ≡ true
unfolding run enter_callback
run_failed P [] c w = w
run_failed P (e ∷ es) c w =
    ap (λ k. (run P es k).was_error) (if_true c.was_error c _ w) ∙ run_failed P es c w

enter_failed :
    (P : ℕ → Bytes) (e : Call) (c : Context)
    → e.node_allocated ≡ false
    → (enter_callback P e c).was_error ≡ true
unfolding enter_callback
enter_failed P e c h = elim (Bool-cases c.was_error) [
  | inl w ↦ rw (enter_callback, w) refl
  | inr w ↦ rw (enter_callback, w, h) refl
]

refused : (ok b : Bool) (p : Option ℕ) → b ≡ true → (if ok && not b then p else none) ≡ none
refused true b p e = rw e refl
refused false b p e = refl

-- Where the allocation of a node fails, whatever the calls before and after it and whatever the status of the parser, the
-- parse returns a null pointer.
pub parse_refused :
    (P : ℕ → Bytes) (ok : Bool) (before after : List Call) (e : Call)
    → e.node_allocated ≡ false
    → (parse P ok (before ++ (e ∷ after))).1 ≡ none
unfolding parse run
parse_refused P ok before after e h =
    let c = run P before start in
    refused ok _ _ (
      ap (λ (k : Context). k.was_error) (run-append P before (e ∷ after) start)
      ∙ run_failed P after (enter_callback P e c) (enter_failed P e c h))
