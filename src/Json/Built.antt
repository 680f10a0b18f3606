-- ===== src/Json/Built.antt =====
-- The memory after the calls for a part of a document, put together from its nodes, as `tweak_json_parse`
-- (tweak-json/src/tweakjson.c) builds it.
use tweaktool.Common.{
  ℕ, suc, ◌<◌, ◌≡◌, refl, ◌∙◌, ap, false, some, List, [], ◌∷◌, ◌++◌, length, get_elem?, Bytes,
  arith,
}
use mathlib.Core.List.{append_assoc}
use tweaktool.Json.{Node, Items, Fields, cons, field}
use tweaktool.Json.Build.{Cell, Heap, Context, names}
use tweaktool.Json.Stored.{Stores, StoresItems, StoresFields, Keeps, kept-Stores}
use tweaktool.Json.Calls.{in_range, IsRun, IsRun-trans}
use tweaktool.Json.Stored.{items_kept, fields_kept}
use tweaktool.Json.Placed.{placed, placed-IsRun, placed_parent}

-- The calls for the inside of a new node leave the node in the memory, and its parent as it was placed.
pub record IsBuilt (c : Context) (d a : ℕ) (cell : Cell) (x : Node) (k : Context) : Type 0 where
  pub run : IsRun (suc d) a c k
  pub parent : get_elem? k.heap a ≡ some cell
  pub stored : Stores (length c.heap) k.heap (length c.heap) x

pub built :
    (c k : Context) (d a : ℕ) (cell : Cell) (x : Node)
    → a < length c.heap
    → IsRun (suc (suc d)) (length c.heap) (placed c d a cell x) k
    → Stores (length c.heap) k.heap (length c.heap) x
    → IsBuilt c d a cell x k
built c k d a cell x h r s =
    let p = placed-IsRun c d a cell x in
    record {
      run = record {
        was_error = r.was_error;
        document = r.document ∙ p.document;
        cookies = λ i q. r.cookies i (omega (arith, q)) ∙ p.cookies i q;
        size = omega (arith, p.size, r.size);
        others = λ i y q e.
            r.others i y (λ z. absurd (omega (arith, z, in_range c.heap i y e))) (p.others i y q e);
      };
      parent = r.others a cell (λ z. absurd (omega (arith, z, h))) (placed_parent c d a cell x h);
      stored = s;
    }

-- The cells behind a node are not touched by the calls for what follows under its parent.
later-Keeps : (d a n : ℕ) (c k : Context) → a < n → IsRun d a c k → Keeps n c.heap k.heap
unfolding Keeps
later-Keeps d a n c k h r i x p e = r.others i x (λ z. absurd (omega (arith, z, h, p))) e

pub same-Keeps : (n : ℕ) (h : Heap) → Keeps n h h
unfolding Keeps
same-Keeps n h i x p e = e

pub IsRun-refl : (d a : ℕ) (c : Context) → c.was_error ≡ false → IsRun d a c c
IsRun-refl d a c w = record {
  was_error = w;
  document = refl;
  cookies = λ i h. refl;
  size = omega arith;
  others = λ i x h e. e;
}

pub names-append :
    (fields : List (Bytes × ℕ)) (k : Bytes) (n : ℕ)
    → names (fields ++ ((k, n) ∷ [])) ≡ names fields ++ (k ∷ [])
names-append [] k n = refl
names-append (f ∷ fields) k n = ap (λ ks. f.0 ∷ ks) (names-append fields k n)

-- What holds after the calls for the rest of an array.
pub record ItemsBuilt (c : Context) (d a : ℕ) (items : List ℕ) (xs : Items) (k : Context)
    : Type 0 where
  pub run : IsRun (suc d) a c k
  pub added : List ℕ
  pub parent : get_elem? k.heap a ≡ some (Cell.array (items ++ added))
  pub stored : StoresItems (length c.heap) k.heap added xs

pub record FieldsBuilt (c : Context) (d a : ℕ) (fields : List (Bytes × ℕ)) (fs : Fields)
    (k : Context) : Type 0 where
  pub run : IsRun (suc d) a c k
  pub added : List (Bytes × ℕ)
  pub parent : get_elem? k.heap a ≡ some (Cell.object (fields ++ added))
  pub stored : StoresFields (length c.heap) k.heap added fs

-- The first item and then the rest.
pub items_step :
    (c k l : Context) (d a : ℕ) (items : List ℕ) (x : Node) (xs : Items)
    → a < length c.heap
    → IsBuilt c d a (Cell.array (items ++ (length c.heap ∷ []))) x k
    → ItemsBuilt k d a (items ++ (length c.heap ∷ [])) xs l
    → ItemsBuilt c d a items (cons x xs) l
unfolding Stores
items_step c k l d a items x xs h b r = record {
  run = IsRun-trans (suc d) a c k l b.run r.run;
  added = length c.heap ∷ r.added;
  parent =
      r.parent
      ∙ ap (λ ptrs. some (Cell.array ptrs)) (append_assoc items (length c.heap ∷ []) r.added);
  stored = (
    kept-Stores (length c.heap) (length c.heap) k.heap l.heap (length c.heap) x (omega arith)
        (later-Keeps (suc d) a (length c.heap) k l h r.run) b.stored,
    items_kept (length k.heap) (length c.heap) l.heap l.heap r.added xs (omega (arith, b.run.size))
        (same-Keeps (length k.heap) l.heap) r.stored,
  );
}

pub fields_step :
    (c k l : Context) (d a : ℕ) (fields : List (Bytes × ℕ)) (name : Bytes) (x : Node) (fs : Fields)
    → a < length c.heap
    → IsBuilt c d a (Cell.object (fields ++ ((name, length c.heap) ∷ []))) x k
    → FieldsBuilt k d a (fields ++ ((name, length c.heap) ∷ [])) fs l
    → FieldsBuilt c d a fields (field name x fs) l
unfolding Stores
fields_step c k l d a fields name x fs h b r = record {
  run = IsRun-trans (suc d) a c k l b.run r.run;
  added = (name, length c.heap) ∷ r.added;
  parent =
      r.parent
      ∙ ap (λ ptrs. some (Cell.object ptrs))
          (append_assoc fields ((name, length c.heap) ∷ []) r.added);
  stored = (
    refl,
    kept-Stores (length c.heap) (length c.heap) k.heap l.heap (length c.heap) x (omega arith)
        (later-Keeps (suc d) a (length c.heap) k l h r.run) b.stored,
    fields_kept (length k.heap) (length c.heap) l.heap l.heap r.added fs (omega (arith, b.run.size))
        (same-Keeps (length k.heap) l.heap) r.stored,
  );
}
